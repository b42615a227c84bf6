-- ===== src/Text/Affixes.antt =====
-- When the prefix, suffix and substring tests of `str` answer yes.
use nhop.Common.{
  ℕ, true, some, [], ◌∷◌, ◌++◌, ◌≡◌, refl, ap, ◌≢◌, inl, inr, arith, nat_eq, list_eq, list_same_iff,
  Bool-cases, Option-cases, length, length-append,
}
use nhop.Text.{Text, strip_suffix, strip_prefix, starts_with, contains}

-- A suffix is stripped exactly when the text is some head with the suffix behind it.
pub strip_suffix-append : (s p : Text) {head : Text} → strip_suffix s p ≡ some head → s ≡ head ++ p
unfolding strip_suffix
strip_suffix-append [] p e = ground (arith, list_same_iff [] p)
strip_suffix-append (c ∷ s) p e = elim (Option-cases (strip_suffix s p)) [
  | inl missed ↦ ground (arith, list_same_iff (c ∷ s) p)
  | inr (h, found) ↦ ground (arith, list_same_iff (c ∷ s) p, strip_suffix-append s p found)
]

strip_suffix_self : (p : Text) → strip_suffix p p ≡ some []
unfolding strip_suffix
strip_suffix_self [] = rw ((list_same_iff [] []).1 refl)
strip_suffix_self (c ∷ p) = rw ((list_same_iff (c ∷ p) (c ∷ p)).1 refl)

append_ne_tail : (c : ℕ) (head p : Text) → ((c ∷ head) ++ p) ≡ p → ⊥
append_ne_tail c head p e =
    let n : length ((c ∷ head) ++ p) ≡ length p = ap length e in
    omega (arith, n, length-append head p)

strip_suffix-cons :
    (c : ℕ) (s p : Text) {head : Text}
    → ((c ∷ s) ≢ p)
    → strip_suffix s p ≡ some head
    → strip_suffix (c ∷ s) p ≡ some (c ∷ head)
unfolding strip_suffix
strip_suffix-cons c s p h e = ground (arith, list_same_iff (c ∷ s) p)

pub strip_suffix-of_append : (head p : Text) → strip_suffix (head ++ p) p ≡ some head
strip_suffix-of_append [] p = strip_suffix_self p
strip_suffix-of_append (c ∷ head) p =
    strip_suffix-cons c (head ++ p) p (append_ne_tail c head p) (strip_suffix-of_append head p)

pub strip_prefix-append : (s p : Text) {rest : Text} → strip_prefix s p ≡ some rest → s ≡ p ++ rest
unfolding strip_prefix
strip_prefix-append s [] e = ground arith
strip_prefix-append [] (p ∷ ps) e = ground arith
strip_prefix-append (c ∷ s) (p ∷ ps) {rest} e =
    ground (arith, strip_prefix-append s ps {rest = rest})

pub strip_prefix-of_append : (p rest : Text) → strip_prefix (p ++ rest) p ≡ some rest
unfolding strip_prefix
strip_prefix-of_append [] rest = refl
strip_prefix-of_append (c ∷ p) rest = ground (arith, strip_prefix-of_append p rest)

starts_with_sound : (s p : Text) → starts_with s p ≡ true → (rest : Text) × (s ≡ p ++ rest)
unfolding starts_with
starts_with_sound s p h = elim (Option-cases (strip_prefix s p)) [
  | inl missed ↦ cc (h, missed)
  | inr (rest, e) ↦ (rest, strip_prefix-append s p e)
]

starts_with-append : (p rest : Text) → starts_with (p ++ rest) p ≡ true
unfolding starts_with
starts_with-append p rest = rw (strip_prefix-of_append p rest)

-- A text contains another exactly when it is that text between two others.
pub contains_sound :
    (s p : Text) → contains s p ≡ true → (before after : Text) × (s ≡ before ++ (p ++ after))
unfolding contains
contains_sound [] p h = let (after, e) = starts_with_sound [] p h in ([], after, e)
contains_sound (c ∷ s) p h = elim (Bool-cases (starts_with (c ∷ s) p)) [
  | inl here ↦ let (after, e) = starts_with_sound (c ∷ s) p here in ([], after, e)
  | inr later ↦
      let (before, after, e) = contains_sound s p (ground arith) in
      (c ∷ before, after, ap (λ t. c ∷ t) e)
]

contains-start : (s p : Text) → starts_with s p ≡ true → contains s p ≡ true
unfolding contains
contains-start [] p h = h
contains-start (c ∷ s) p h = rw h

pub contains-append : (before p after : Text) → contains (before ++ (p ++ after)) p ≡ true
unfolding contains
contains-append [] p after = contains-start (p ++ after) p (starts_with-append p after)
contains-append (c ∷ before) p after = ground (arith, contains-append before p after)
