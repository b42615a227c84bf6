-- ===== src/Text/Numbers.antt =====
-- `str::parse` at the unsigned integer types, and `to_string`.
use nhop.Common.{
  ℕ, zero, suc, ◌+◌, ◌-◌, ◌*◌, ◌/◌, ◌%◌, ◌^◌, ◌≤◌, ◌<◌, Bool, ◌&&◌, Option, none, some, [], ◌∷◌,
  ◌≡◌, refl, ◌∙◌, arith, leb, ltb, ◌==◌, nat_eq, if◌then◌else◌, Bool-cases, inl, inr, all, true,
}
use nhop.Text.{Text}

abbrev pub is_digit : ℕ → Bool
is_digit c = leb b'0' c && leb c b'9'

-- The digits after the sign. A value that leaves the type is an error at the digit that does it.
unfoldable pub parse_digits : ℕ → ℕ → Text → Option ℕ
parse_digits bound acc [] = some acc
parse_digits bound acc (c ∷ s) =
    let next = acc * 10 + (c - b'0') in
    let rest = parse_digits bound next s in if is_digit c && ltb next bound then rest else none

-- A leading `+` is skipped, and neither the empty text nor a lone sign is a number.
unfoldable pub parse_unsigned : ℕ → Text → Option ℕ
unfolding parse_digits
parse_unsigned bound [] = none
parse_unsigned bound (c ∷ []) = if c == b'+' then none else parse_digits bound 0 (c ∷ [])
parse_unsigned bound (c ∷ d ∷ s) =
    if c == b'+' then parse_digits bound 0 (d ∷ s) else parse_digits bound 0 (c ∷ d ∷ s)

abbrev pub u16_bound : ℕ
u16_bound = 2 ^ 16

unfoldable pub parse_u16 : Text → Option ℕ
unfolding parse_unsigned
parse_u16 s = parse_unsigned u16_bound s

parse_digits-lt :
    (bound acc : ℕ) (s : Text) {n : ℕ} → acc < bound → parse_digits bound acc s ≡ some n → n < bound
unfolding parse_digits
parse_digits-lt bound acc [] h e = ground arith
parse_digits-lt bound acc (c ∷ s) {n} h e =
    ground (arith, parse_digits-lt bound (acc * 10 + (c - b'0')) s {n = n})

pub parse_unsigned-lt :
    (bound : ℕ) (s : Text) {n : ℕ} → 0 < bound → parse_unsigned bound s ≡ some n → n < bound
unfolding parse_unsigned
parse_unsigned-lt bound [] h e = ground arith
parse_unsigned-lt bound (c ∷ []) {n} h e = ground (arith, parse_digits-lt bound 0 (c ∷ []) {n = n})
parse_unsigned-lt bound (c ∷ d ∷ s) {n} h e =
    ground
      (arith, parse_digits-lt bound 0 (c ∷ d ∷ s) {n = n}, parse_digits-lt bound 0 (d ∷ s) {n = n})

-- `to_string` of an unsigned integer, with one unit of fuel to a digit.
unfoldable pub show_fuel : ℕ → ℕ → Text → Text
show_fuel zero n tail = tail
show_fuel (suc fuel) n tail =
    let digit = (n % 10 + b'0') ∷ tail in
    let more = show_fuel fuel (n / 10) digit in if ltb n 10 then digit else more

unfoldable pub show : ℕ → Text
unfolding show_fuel
show n = show_fuel (suc n) n []

-- Reading what was printed takes the accumulator from `acc` to the digits appended to it.
show_fuel-parse :
    (fuel bound n : ℕ) (tail : Text)
    → n < fuel
    → n < bound
    → parse_digits bound 0 (show_fuel fuel n tail) ≡ parse_digits bound n tail
unfolding show_fuel parse_digits
show_fuel-parse zero bound n tail f h = elim f [ ]
show_fuel-parse (suc fuel) bound n tail f h = elim (Bool-cases (ltb n 10)) [
  | inl small ↦ rw small (ground arith)
  | inr big ↦ rw big (
      rw
        (show_fuel-parse fuel bound (n / 10) ((n % 10 + b'0') ∷ tail) (ground arith) (ground arith))
        (ground arith))
]

show_fuel-head :
    (fuel n : ℕ) (tail : Text)
    → (c : ℕ) × (s : Text) × (show_fuel (suc fuel) n tail ≡ c ∷ s) × (b'0' ≤ c)
unfolding show_fuel
show_fuel-head zero n tail = (n % 10 + b'0', tail, ground arith, omega arith)
show_fuel-head (suc fuel) n tail = elim (Bool-cases (ltb n 10)) [
  | inl small ↦ (n % 10 + b'0', tail, rw small, omega arith)
  | inr big ↦
      let (c, s, e, h) = show_fuel-head fuel (n / 10) ((n % 10 + b'0') ∷ tail) in
      (c, s, rw big e, h)
]

unsigned_digits :
    (bound c : ℕ) (s : Text)
    → b'0' ≤ c
    → parse_unsigned bound (c ∷ s) ≡ parse_digits bound 0 (c ∷ s)
unfolding parse_unsigned
unsigned_digits bound c [] h = ground arith
unsigned_digits bound c (d ∷ s) h = ground arith

-- Reading a printed number gives it back.
pub parse_unsigned-show : (bound n : ℕ) → n < bound → parse_unsigned bound (show n) ≡ some n
unfolding show
parse_unsigned-show bound n h =
    let (c, s, e, digit) = show_fuel-head n n [] in
    rw (e, unsigned_digits bound c s digit)
      (rw (← e) (show_fuel-parse (suc n) bound n [] (omega arith) h ∙ unfold parse_digits in refl))

show_fuel-digits :
    (fuel n : ℕ) (tail : Text)
    → all is_digit tail ≡ true
    → all is_digit (show_fuel fuel n tail) ≡ true
unfolding show_fuel
show_fuel-digits zero n tail h = h
show_fuel-digits (suc fuel) n tail h =
    let longer : all is_digit ((n % 10 + b'0') ∷ tail) ≡ true = ground arith in
    elim (Bool-cases (ltb n 10)) [
      | inl small ↦ rw small longer
      | inr big ↦ rw big (show_fuel-digits fuel (n / 10) ((n % 10 + b'0') ∷ tail) longer)
    ]

pub show-digits : (n : ℕ) → all is_digit (show n) ≡ true
unfolding show
show-digits n = show_fuel-digits (suc n) n [] refl
