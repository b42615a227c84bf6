-- ===== src/Cli/SystemProxy/Lines.antt =====
-- The lines of a text that ends each of its lines with a line feed.
use nhop.Common.{
  ℕ, ◌≡◌, refl, ap, ◌∙◌, sym, arith, Bool, true, false, not, ◌&&◌, inl, inr, [], ◌∷◌, ◌++◌, all,
  nat_eq, list_eq, ◌==◌, append_assoc, append_nil, Option-cases,
}
use nhop.Text.{Text, strip_suffix, is_whitespace, trim, trim_start, trim_end}
use nhop.Text.Affixes.{strip_suffix-append}
use nhop.Text.Splits.{lines, without_return}
use nhop.Text.Numbers.{show-digits, show, is_digit}

abbrev pub inline : ℕ → Bool
inline c = not (c == 10) && not (c == 13)

abbrev pub solid : ℕ → Bool
unfolding is_whitespace
solid c = not (is_whitespace c)

no_return_last : (head : Text) → all inline (head ++ 13 ∷ []) ≡ true → ⊥
no_return_last [] h = ground arith
no_return_last (c ∷ head) h = no_return_last head (ground arith)

without_return-inline : (line : Text) → all inline line ≡ true → without_return line ≡ line
unfolding without_return
without_return-inline line h = elim (Option-cases (strip_suffix line (13 ∷ []))) [
  | inl missed ↦ rw (missed, without_return) refl
  | inr (head, found) ↦
      let same : line ≡ head ++ 13 ∷ [] = strip_suffix-append line (13 ∷ []) found in
      elim (no_return_last head (ap (all inline) (sym same) ∙ h)) [ ]
]

lines_end :
    (current rest : Text) → lines current (10 ∷ rest) ≡ without_return current ∷ lines [] rest
unfolding lines
lines_end [] rest = refl
lines_end (d ∷ current) rest = refl

lines_on :
    (current : Text) (c : ℕ) (s : Text)
    → (c == 10) ≡ false
    → lines current (c ∷ s) ≡ lines (current ++ c ∷ []) s
unfolding lines
lines_on [] c s h = ground arith
lines_on (d ∷ current) c s h = ground arith

lines-append :
    (current line rest : Text)
    → all inline line ≡ true
    → lines current (line ++ 10 ∷ rest) ≡ without_return (current ++ line) ∷ lines [] rest
lines-append current [] rest h =
    lines_end current rest ∙ ap (λ t. without_return t ∷ lines [] rest) (sym (append_nil current))
lines-append current (c ∷ line) rest h =
    lines_on current c (line ++ 10 ∷ rest) (ground arith)
    ∙ lines-append (current ++ c ∷ []) line rest (ground arith)
    ∙ ap (λ t. without_return t ∷ lines [] rest) (append_assoc current (c ∷ []) line)

-- The first line of a text, and the lines behind it.
pub lines-first :
    (line rest : Text)
    → all inline line ≡ true
    → lines [] (line ++ 10 ∷ rest) ≡ line ∷ lines [] rest
lines-first line rest h =
    lines-append [] line rest h ∙ ap (λ l. l ∷ lines [] rest) (without_return-inline line h)

solid-inline : (c : ℕ) → solid c ≡ true → inline c ≡ true
unfolding is_whitespace
solid-inline c h = ground arith

pub all-inline : (s : Text) → all solid s ≡ true → all inline s ≡ true
all-inline [] h = refl
all-inline (c ∷ s) h = ground (arith, solid-inline c, all-inline s)

trim_end-solid : (s : Text) → all solid s ≡ true → trim_end s ≡ s
unfolding trim_end
trim_end-solid [] h = refl
trim_end-solid (c ∷ s) h = ground (arith, trim_end-solid s)

trim_start-solid : (s : Text) → all solid s ≡ true → trim_start s ≡ s
unfolding trim_start
trim_start-solid [] h = refl
trim_start-solid (c ∷ s) h = ground arith

-- A text without whitespace, with a space before it.
pub trim-space : (s : Text) → all solid s ≡ true → trim (32 ∷ s) ≡ s
unfolding trim trim_start
trim-space s h = ap trim_end (trim_start-solid s h) ∙ trim_end-solid s h

solid_digit : (c : ℕ) → is_digit c ≡ true → solid c ≡ true
unfolding is_whitespace
solid_digit c h = ground arith

digits-solid : (s : Text) → all is_digit s ≡ true → all solid s ≡ true
digits-solid [] h = refl
digits-solid (c ∷ s) h = ground (arith, solid_digit c, digits-solid s)

pub show-solid : (n : ℕ) → all solid (show n) ≡ true
show-solid n = digits-solid (show n) (show-digits n)
