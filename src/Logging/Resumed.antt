-- ===== src/Logging/Resumed.antt =====
-- nhop/src/logging.rs: reading a growing file piece by piece.
use nhop.Common.{
  ℕ, ◌+◌, ◌≡◌, ◌≤◌, refl, ap, ◌∙◌, arith, some, List, [], ◌++◌, length, drop, append_assoc,
}
use nhop.Text.{Text}
use nhop.Text.Utf8.{Bytes, from_utf8, byte_len}
use nhop.Text.Utf8.Steps.{after}
use nhop.Text.Utf8.Pieces.{from_utf8-append, from_utf8-drop, zero_plus}
use nhop.Logging.{split_inclusive, complete, past, lines_of, resumed_at, read_from}
use nhop.Logging.Parts.{parts}

resumed-kept : (file : Bytes) (offset : ℕ) → offset ≤ length file → resumed_at file offset ≡ offset
resumed-kept file offset h = ground arith

read_at :
    (file : Bytes) (offset : ℕ) (v : Text)
    → offset ≤ length file
    → from_utf8 (drop offset file) ≡ some v
    → read_from file offset ≡ some (past offset (complete (split_inclusive [] v)))
unfolding read_from lines_of
read_at file offset v h e =
    ap (λ o. lines_of o (from_utf8 (drop o file))) (resumed-kept file offset h)
    ∙ ap (lines_of offset) e

past_zero : (r : List Text × ℕ) → past 0 r ≡ r
past_zero (lines, n) = ap (λ k. (lines, k)) (zero_plus n)

read_whole :
    (file : Bytes) (v : Text)
    → from_utf8 file ≡ some v
    → read_from file 0 ≡ some (complete (split_inclusive [] v))
read_whole file v e = read_at file 0 v (omega arith) e ∙ ap some (past_zero _)

-- What a reading gives, one that resumes where it ended once the file has grown, and one of the
-- grown file from its start.
abbrev pub Resumes : Bytes → Bytes → Type 0
Resumes file grown =
    (lines : List Text) × (offset : ℕ) × (more : List Text) × (end : ℕ) × (read_from file 0
      ≡ some (lines, offset))
    × (offset ≤ length file)
    × (read_from grown offset ≡ some (more, end))
    × (read_from grown 0 ≡ some (lines ++ more, end))

-- Where what a log holds and what is written behind it are each UTF-8, reading the log before and
-- again from where that ended gives together the lines, and the offset, that reading the grown
-- file at once gives, and the first offset lies within the file as it was: no line is lost and
-- none is read twice.
pub read_from-Resumes :
    (f g : Bytes) (t u : Text) → from_utf8 f ≡ some t → from_utf8 g ≡ some u → Resumes f (f ++ g)
read_from-Resumes f g t u first later =
    let p = parts [] t refl in
    let n = byte_len p.lines in
    let seen = complete (split_inclusive [] t) in
    let rest = complete (split_inclusive [] (p.behind ++ u)) in
    let whole : t ++ u ≡ p.lines ++ (p.behind ++ u) =
      ap (λ s. s ++ u) p.split ∙ append_assoc p.lines p.behind u in
    let grown : from_utf8 (f ++ g) ≡ some (p.lines ++ (p.behind ++ u)) =
      from_utf8-append t f g first ∙ ap (after t) later ∙ ap some whole in
    let (behind, longer) = from_utf8-drop p.lines (p.behind ++ u) (f ++ g) grown in
    let within = from_utf8-drop p.lines p.behind f (first ∙ ap some p.split) in
    (
      seen.0,
      n,
      rest.0,
      n + rest.1,
      read_whole f t first ∙ ap (λ k. some (seen.0, k)) p.taken,
      within.1,
      read_at (f ++ g) n (p.behind ++ u) longer behind,
      read_whole (f ++ g) (p.lines ++ (p.behind ++ u)) grown ∙ ap some (p.onward (p.behind ++ u)),
    )
