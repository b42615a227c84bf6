-- ===== src/Text/Splits.antt =====
-- The ways in which Rust's `str` is split.
use nhop.Common.{ℕ, ◌&&◌, Option, none, some, List, [], ◌∷◌, ◌++◌, ◌==◌, nat_eq, if◌then◌else◌}
use nhop.Text.{strip_suffix, Text, strip_prefix}

abbrev ahead : ℕ → Option (Text × Text) → Option (Text × Text)
ahead c none = none
ahead c (some (before, after)) = some (c ∷ before, after)

abbrev first_split : Option Text → Option (Text × Text) → Option (Text × Text)
first_split none later = later
first_split (some after) later = some ([], after)

-- `str::split_once` with a text.
unfoldable pub split_once : Text → Text → Option (Text × Text)
unfolding strip_prefix
split_once [] p = first_split (strip_prefix [] p) none
split_once (c ∷ s) p =
    let later = split_once s p in first_split (strip_prefix (c ∷ s) p) (ahead c later)

abbrev pub last_split : ℕ → ℕ → Text → Option (Text × Text) → Option (Text × Text)
last_split c sep s none = if c == sep then some ([], s) else none
last_split c sep s (some (before, after)) = some (c ∷ before, after)

-- `str::rsplit_once` with a character.
unfoldable pub rsplit_once : Text → ℕ → Option (Text × Text)
rsplit_once [] sep = none
rsplit_once (c ∷ s) sep = last_split c sep s (rsplit_once s sep)

-- `str::split` with one character, and with a text of two; what is read of the current part comes
-- first.
unfoldable pub split_char : ℕ → Text → Text → List Text
split_char sep current [] = current ∷ []
split_char sep current (c ∷ s) =
    let ended = current ∷ split_char sep [] s in
    let longer = split_char sep (current ++ c ∷ []) s in if c == sep then ended else longer

unfoldable pub split_pair : ℕ → ℕ → Text → Text → List Text
split_pair x y current [] = current ∷ []
split_pair x y current (c ∷ []) = (current ++ c ∷ []) ∷ []
split_pair x y current (c ∷ d ∷ s) =
    let ended = current ∷ split_pair x y [] s in
    let longer = split_pair x y (current ++ c ∷ []) (d ∷ s) in
    if c == x && d == y then ended else longer

-- A line without the carriage return before its end.
unfoldable pub without_return : Text → Text
unfolding strip_suffix
without_return line = elim (strip_suffix line (13 ∷ [])) [ none ↦ line | some head ↦ head ]

-- `str::lines`; what is read of the current line comes first.
unfoldable pub lines : Text → Text → List Text
unfolding without_return
lines [] [] = []
lines (d ∷ current) [] = (d ∷ current) ∷ []
lines current (c ∷ s) =
    let ended = without_return current ∷ lines [] s in
    let longer = lines (current ++ c ∷ []) s in if c == 10 then ended else longer
