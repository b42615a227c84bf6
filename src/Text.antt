-- ===== src/Text.antt =====
-- The parts of Rust's `str` and `char` that the router uses. A text is the list of its Unicode
-- scalar values.
pub mod Numbers
pub mod Affixes
pub mod Utf8
pub mod Splits
use Prim.Native.Char.{code}
use Prim.Native.String.{String}
use nhop.Common.{
  ℕ, ◌+◌, ◌<◌, Bool, true, false, ◌&&◌, ◌||◌, Option, none, some, List, [], ◌∷◌, map, leb, ltb,
  ◌==◌, nat_eq, list_eq, all, any, if◌then◌else◌,
}

abbrev pub Text : Type 0
Text = List ℕ

-- A literal of the source.
abbrev pub text : String → Text
text String.[] = []
text (String.◌∷◌ c s) = code c ∷ text s

abbrev pub dot : ℕ
dot = 46

-- `char::is_ascii`, `char::is_whitespace` (the property White_Space), `char::to_ascii_lowercase`.
abbrev pub is_ascii : ℕ → Bool
is_ascii c = ltb c 128

unfoldable pub is_whitespace : ℕ → Bool
is_whitespace c =
    (leb 9 c && leb c 13)
    || c == 32
    || c == 0x85
    || c == 0xa0
    || c == 0x1680
    || (leb 0x2000 c && leb c 0x200a)
    || c == 0x2028
    || c == 0x2029
    || c == 0x202f
    || c == 0x205f
    || c == 0x3000

unfoldable pub lower : ℕ → ℕ
lower c = if leb b'A' c && leb c b'Z' then c + 32 else c

-- `str::to_lowercase`: the ASCII letters by arithmetic, a text with any other letter by the tables
-- of Unicode, which are a parameter.
unfoldable pub to_lowercase : (Text → Text) → Text → Text
to_lowercase unicode s = if all is_ascii s then map lower s else unicode s

-- `str::strip_suffix` with a text, which also decides `str::ends_with`.
unfoldable pub strip_suffix : Text → Text → Option Text
strip_suffix [] p = if list_eq.same [] p then some [] else none
strip_suffix (c ∷ s) p =
    let rest = strip_suffix s p in
    if list_eq.same (c ∷ s) p
    then some []
    else elim rest [ none ↦ none | some head ↦ some (c ∷ head) ]

unfoldable pub strip_prefix : Text → Text → Option Text
strip_prefix s [] = some s
strip_prefix [] (p ∷ ps) = none
strip_prefix (c ∷ s) (p ∷ ps) = if c == p then strip_prefix s ps else none

abbrev pub is_some {ℓ} : {A : Type ℓ} → Option A → Bool
is_some none = false
is_some (some _) = true

unfoldable pub starts_with : Text → Text → Bool
unfolding strip_prefix
starts_with s p = is_some (strip_prefix s p)

unfoldable pub ends_with : Text → Text → Bool
unfolding strip_suffix
ends_with s p = is_some (strip_suffix s p)

-- `str::contains` with a text.
unfoldable pub contains : Text → Text → Bool
unfolding starts_with
contains [] p = starts_with [] p
contains (c ∷ s) p = starts_with (c ∷ s) p || contains s p

-- `s.strip_suffix('.').unwrap_or(s)`
unfoldable pub without_dot : Text → Text
unfolding strip_suffix
without_dot s = elim (strip_suffix s (dot ∷ [])) [ none ↦ s | some head ↦ head ]

-- `str::trim`
unfoldable pub trim_start : Text → Text
unfolding is_whitespace
trim_start [] = []
trim_start (c ∷ s) = if is_whitespace c then trim_start s else c ∷ s

unfoldable pub trim_end : Text → Text
unfolding is_whitespace
trim_end [] = []
trim_end (c ∷ s) = if all is_whitespace (c ∷ s) then [] else c ∷ trim_end s

unfoldable pub trim : Text → Text
unfolding trim_start trim_end
trim s = trim_end (trim_start s)
