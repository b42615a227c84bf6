-- ===== src/Text/Utf8/Steps.antt =====
-- The first scalar value of bytes that encode a text, and the bytes behind it.
use nhop.Common.{
  ℕ, ◌≡◌, refl, ◌∙◌, sym, arith, Bool, true, false, ◌&&◌, Option, none, some, [], ◌∷◌, ◌++◌, length,
  ltb, leb, Bool-cases, inl, inr,
}
use nhop.Text.{Text}
use nhop.Text.Utf8.{
  Bytes, from_utf8, and_then, continues, two, three, four, is_three, is_four, char_len,
}

abbrev lead_two : ℕ → ℕ → Bool
lead_two a b = leb 0xc2 a && leb a 0xdf && continues b

abbrev lead_three : ℕ → ℕ → ℕ → Bool
lead_three a b c = leb 0xe0 a && leb a 0xef && continues b && continues c && is_three (three a b c)

abbrev lead_four : ℕ → ℕ → ℕ → ℕ → Bool
lead_four a b c d =
    leb 0xf0 a && leb a 0xf4 && continues b && continues c && continues d && is_four (four a b c d)

one_step :
    (a : ℕ) (rest : Bytes) → ltb a 0x80 ≡ true → from_utf8 (a ∷ rest) ≡ and_then a (from_utf8 rest)
unfolding from_utf8
one_step a [] h = rw h refl
one_step a (b ∷ []) h = rw h refl
one_step a (b ∷ c ∷ []) h = rw h refl
one_step a (b ∷ c ∷ d ∷ rest) h = rw h refl

two_step :
    (a b : ℕ) (rest : Bytes)
    → ltb a 0x80 ≡ false
    → lead_two a b ≡ true
    → from_utf8 (a ∷ b ∷ rest) ≡ and_then (two a b) (from_utf8 rest)
unfolding from_utf8
two_step a b [] h k = rw h (rw k refl)
two_step a b (c ∷ []) h k = rw h (rw k refl)
two_step a b (c ∷ d ∷ rest) h k = rw h (rw k refl)

three_step :
    (a b c : ℕ) (rest : Bytes)
    → ltb a 0x80 ≡ false
    → lead_two a b ≡ false
    → lead_three a b c ≡ true
    → from_utf8 (a ∷ b ∷ c ∷ rest) ≡ and_then (three a b c) (from_utf8 rest)
unfolding from_utf8
three_step a b c [] h k l = rw h (rw k (rw l refl))
three_step a b c (d ∷ rest) h k l = rw h (rw k (rw l refl))

four_step :
    (a b c d : ℕ) (rest : Bytes)
    → ltb a 0x80 ≡ false
    → lead_two a b ≡ false
    → lead_three a b c ≡ false
    → lead_four a b c d ≡ true
    → from_utf8 (a ∷ b ∷ c ∷ d ∷ rest) ≡ and_then (four a b c d) (from_utf8 rest)
unfolding from_utf8
four_step a b c d rest h k l m = rw h (rw k (rw l (rw m refl)))

-- Bytes that encode a text begin with those of its first scalar value, whatever is behind them.
pub record First (bytes : Bytes) (u : Text) : Type 0 where
  pub scalar : ℕ
  pub more : Text
  pub whole : u ≡ scalar ∷ more
  pub head : Bytes
  pub rest : Bytes
  pub split : bytes ≡ head ++ rest
  pub sized : length head ≡ char_len scalar
  pub behind : from_utf8 rest ≡ some more
  pub step : (g : Bytes) → from_utf8 (head ++ g) ≡ and_then scalar (from_utf8 g)

and_then-some :
    (x : ℕ) (o : Option Text) (u : Text)
    → and_then x o ≡ some u
    → (t : Text) × (u ≡ x ∷ t) × (o ≡ some t)
and_then-some x none u e = cc
and_then-some x (some t) u e = (t, cc, refl)

first_of :
    (head rest : Bytes) (x : ℕ) (u : Text)
    → length head ≡ char_len x
    → ((g : Bytes) → from_utf8 (head ++ g) ≡ and_then x (from_utf8 g))
    → from_utf8 (head ++ rest) ≡ some u
    → First (head ++ rest) u
first_of head rest x u sized step e =
    let (t, whole, behind) = and_then-some x (from_utf8 rest) u (sym (step rest) ∙ e) in
    record {
      scalar = x;
      more = t;
      whole = whole;
      head = head;
      rest = rest;
      split = refl;
      sized = sized;
      behind = behind;
      step = step;
    }

one_len : (a : ℕ) → ltb a 0x80 ≡ true → 1 ≡ char_len a
one_len a h = ground arith

two_len : (a b : ℕ) → lead_two a b ≡ true → 2 ≡ char_len (two a b)
two_len a b h = ground arith

three_len : (a b c : ℕ) → lead_three a b c ≡ true → 3 ≡ char_len (three a b c)
three_len a b c h = ground arith

four_len : (a b c d : ℕ) → lead_four a b c d ≡ true → 4 ≡ char_len (four a b c d)
four_len a b c d h = ground arith

impossible :
    (bytes : Bytes) (u : Text) → from_utf8 bytes ≡ none → from_utf8 bytes ≡ some u → First bytes u
impossible bytes u n e = let same : none ≡ some u = sym n ∙ e in cc

-- A lead byte that is no scalar value by itself.
no_one : (a : ℕ) → ltb a 0x80 ≡ false → from_utf8 (a ∷ []) ≡ none
unfolding from_utf8
no_one a h = rw h refl

no_two : (a b : ℕ) → ltb a 0x80 ≡ false → lead_two a b ≡ false → from_utf8 (a ∷ b ∷ []) ≡ none
unfolding from_utf8
no_two a b h k = rw h (rw k refl)

no_three :
    (a b c : ℕ)
    → ltb a 0x80 ≡ false
    → lead_two a b ≡ false
    → lead_three a b c ≡ false
    → from_utf8 (a ∷ b ∷ c ∷ []) ≡ none
unfolding from_utf8
no_three a b c h k l = rw h (rw k (rw l refl))

no_four :
    (a b c d : ℕ) (rest : Bytes)
    → ltb a 0x80 ≡ false
    → lead_two a b ≡ false
    → lead_three a b c ≡ false
    → lead_four a b c d ≡ false
    → from_utf8 (a ∷ b ∷ c ∷ d ∷ rest) ≡ none
unfolding from_utf8
no_four a b c d rest h k l m = rw h (rw k (rw l (rw m refl)))

module _ (u : Text) where
  with_one :
      (a : ℕ) (rest : Bytes)
      → ltb a 0x80 ≡ true
      → from_utf8 (a ∷ rest) ≡ some u
      → First (a ∷ rest) u
  with_one a rest h = first_of (a ∷ []) rest a u (one_len a h) (λ g. one_step a g h)

  with_two :
      (a b : ℕ) (rest : Bytes)
      → ltb a 0x80 ≡ false
      → lead_two a b ≡ true
      → from_utf8 (a ∷ b ∷ rest) ≡ some u
      → First (a ∷ b ∷ rest) u
  with_two a b rest h k =
      first_of (a ∷ b ∷ []) rest (two a b) u (two_len a b k) (λ g. two_step a b g h k)

  with_three :
      (a b c : ℕ) (rest : Bytes)
      → ltb a 0x80 ≡ false
      → lead_two a b ≡ false
      → lead_three a b c ≡ true
      → from_utf8 (a ∷ b ∷ c ∷ rest) ≡ some u
      → First (a ∷ b ∷ c ∷ rest) u
  with_three a b c rest h k l =
      first_of (a ∷ b ∷ c ∷ []) rest (three a b c) u (three_len a b c l)
        (λ g. three_step a b c g h k l)

  with_four :
      (a b c d : ℕ) (rest : Bytes)
      → ltb a 0x80 ≡ false
      → lead_two a b ≡ false
      → lead_three a b c ≡ false
      → lead_four a b c d ≡ true
      → from_utf8 (a ∷ b ∷ c ∷ d ∷ rest) ≡ some u
      → First (a ∷ b ∷ c ∷ d ∷ rest) u
  with_four a b c d rest h k l m =
      first_of (a ∷ b ∷ c ∷ d ∷ []) rest (four a b c d) u (four_len a b c d m)
        (λ g. four_step a b c d g h k l m)

  pub first : (a : ℕ) (bytes : Bytes) → from_utf8 (a ∷ bytes) ≡ some u → First (a ∷ bytes) u
  first a [] e = elim (Bool-cases (ltb a 0x80)) [
    | inl h ↦ with_one a [] h e
    | inr h ↦ impossible (a ∷ []) u (no_one a h) e
  ]
  first a (b ∷ []) e = elim (Bool-cases (ltb a 0x80)) [
    | inl h ↦ with_one a (b ∷ []) h e
    | inr h ↦ elim (Bool-cases (lead_two a b)) [
      | inl k ↦ with_two a b [] h k e
      | inr k ↦ impossible (a ∷ b ∷ []) u (no_two a b h k) e
    ]
  ]
  first a (b ∷ c ∷ []) e = elim (Bool-cases (ltb a 0x80)) [
    | inl h ↦ with_one a (b ∷ c ∷ []) h e
    | inr h ↦ elim (Bool-cases (lead_two a b)) [
      | inl k ↦ with_two a b (c ∷ []) h k e
      | inr k ↦ elim (Bool-cases (lead_three a b c)) [
        | inl l ↦ with_three a b c [] h k l e
        | inr l ↦ impossible (a ∷ b ∷ c ∷ []) u (no_three a b c h k l) e
      ]
    ]
  ]
  first a (b ∷ c ∷ d ∷ rest) e = elim (Bool-cases (ltb a 0x80)) [
    | inl h ↦ with_one a (b ∷ c ∷ d ∷ rest) h e
    | inr h ↦ elim (Bool-cases (lead_two a b)) [
      | inl k ↦ with_two a b (c ∷ d ∷ rest) h k e
      | inr k ↦ elim (Bool-cases (lead_three a b c)) [
        | inl l ↦ with_three a b c (d ∷ rest) h k l e
        | inr l ↦ elim (Bool-cases (lead_four a b c d)) [
          | inl m ↦ with_four a b c d rest h k l m e
          | inr m ↦ impossible (a ∷ b ∷ c ∷ d ∷ rest) u (no_four a b c d rest h k l m) e
        ]
      ]
    ]
  ]

abbrev pub after : Text → Option Text → Option Text
after t none = none
after t (some u) = some (t ++ u)

pub after_cons : (s : ℕ) (t : Text) (o : Option Text) → and_then s (after t o) ≡ after (s ∷ t) o
after_cons s t none = refl
after_cons s t (some u) = refl

pub after_nil : (o : Option Text) → o ≡ after [] o
after_nil none = refl
after_nil (some u) = refl

pub empty_only : (a : ℕ) (bytes : Bytes) → from_utf8 (a ∷ bytes) ≡ some [] → ⊥
empty_only a bytes e = let f = first [] a bytes e in let w = f.whole in cc
