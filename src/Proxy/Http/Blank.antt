-- ===== src/Proxy/Http/Blank.antt =====
-- nhop/src/proxy/http.rs: the head of a request ends with its first blank line.
use nhop.Common.{
  ℕ, zero, suc, ◌+◌, ◌<◌, ◌≤◌, ◌≡◌, ◌≢◌, ◌↔◌, refl, sym, ap, ◌∙◌, arith, true, false, Bool-cases,
  inl, inr, some, List, [], ◌∷◌, take, drop, length, nat_eq, nat_same_iff,
}
use nhop.Text.Utf8.{Bytes}
use nhop.Proxy.Http.{head_end, head_end_from, is_end}
use nhop.Proxy.Http.Reading.{Arrive, ends, flat, head_limit, read_head, read_head-head_end}

abbrev blank : Bytes
blank = 13 ∷ 10 ∷ 13 ∷ 10 ∷ []

-- The bytes that end a line and the blank one behind it stand at `start`, and nowhere before it.
pub record FirstBlank (bytes : Bytes) (start : ℕ) : Type 0 where
  pub here : take 4 (drop start bytes) ≡ blank
  pub none_before : (k : ℕ) → k < start → take 4 (drop k bytes) ≢ blank

abbrev pub EndsAt : Bytes → ℕ → Type 0
EndsAt bytes end = (start : ℕ) × (end ≡ start + 4) × FirstBlank bytes start

length-drop_le : (k : ℕ) (xs : Bytes) → length (drop k xs) ≤ length xs
length-drop_le zero xs = omega arith
length-drop_le (suc k) [] = omega arith
length-drop_le (suc k) (x ∷ xs) = omega (arith, length-drop_le k xs)

length-take_le : (n : ℕ) (xs : Bytes) → length (take n xs) ≤ length xs
length-take_le zero xs = omega arith
length-take_le (suc n) [] = omega arith
length-take_le (suc n) (x ∷ xs) = omega (arith, length-take_le n xs)

too_short : (k : ℕ) (xs : Bytes) → length xs < 4 → take 4 (drop k xs) ≢ blank
too_short k xs h e =
    let four : length (take 4 (drop k xs)) ≡ 4 = ap length e in
    omega (arith, four, length-take_le 4 (drop k xs), length-drop_le k xs)

is_end_iff : (a b c d : ℕ) → (is_end a b c d ≡ true) ↔ ((a ∷ b ∷ c ∷ d ∷ []) ≡ blank)
is_end_iff a b c d = (
  (λ h. ground (arith, nat_same_iff a 13, nat_same_iff b 10, nat_same_iff c 13, nat_same_iff d 10)),
  λ e. ground (arith, nat_same_iff a 13, nat_same_iff b 10, nat_same_iff c 13, nat_same_iff d 10),
)

none_later :
    (a b c d : ℕ) (rest : Bytes) (start : ℕ)
    → is_end a b c d ≡ false
    → FirstBlank (b ∷ c ∷ d ∷ rest) start
    → (k : ℕ) → k < suc start
    → take 4 (drop k (a ∷ b ∷ c ∷ d ∷ rest)) ≢ blank
none_later a b c d rest start h first zero l e = let yes = (is_end_iff a b c d).1 e in cc (h, yes)
none_later a b c d rest start h first (suc k) l e = first.none_before k (omega arith) e

later_FirstBlank :
    (a b c d : ℕ) (rest : Bytes) (start : ℕ)
    → is_end a b c d ≡ false
    → FirstBlank (b ∷ c ∷ d ∷ rest) start
    → FirstBlank (a ∷ b ∷ c ∷ d ∷ rest) (suc start)
later_FirstBlank a b c d rest start h first = record {
  here = first.here;
  none_before = none_later a b c d rest start h first;
}

-- What the search finds from a place on.
found-FirstBlank :
    (index : ℕ) (bytes : Bytes) (end : ℕ)
    → head_end_from index bytes ≡ some end
    → (start : ℕ) × (end ≡ index + (start + 4)) × FirstBlank bytes start
unfolding head_end_from
found-FirstBlank index [] end e = absurd cc
found-FirstBlank index (a ∷ []) end e = absurd cc
found-FirstBlank index (a ∷ b ∷ []) end e = absurd cc
found-FirstBlank index (a ∷ b ∷ c ∷ []) end e = absurd cc
found-FirstBlank index (a ∷ b ∷ c ∷ d ∷ rest) end e = elim (Bool-cases (is_end a b c d)) [
  | inl h ↦ (
    0,
    ground arith,
    record { here = (is_end_iff a b c d).0 h; none_before = λ k l. absurd (omega arith) },
  )
  | inr h ↦
      let (start, at, first) = found-FirstBlank (suc index) (b ∷ c ∷ d ∷ rest) end (ground arith) in
      (suc start, omega arith, later_FirstBlank a b c d rest start h first)
]

FirstBlank-found :
    (index : ℕ) (bytes : Bytes) (start : ℕ)
    → FirstBlank bytes start
    → head_end_from index bytes ≡ some (index + (start + 4))
unfolding head_end_from
FirstBlank-found index [] start first = absurd (too_short start [] (omega arith) first.here)
FirstBlank-found index (a ∷ []) start first =
    absurd (too_short start (a ∷ []) (omega arith) first.here)
FirstBlank-found index (a ∷ b ∷ []) start first =
    absurd (too_short start (a ∷ b ∷ []) (omega arith) first.here)
FirstBlank-found index (a ∷ b ∷ c ∷ []) start first =
    absurd (too_short start (a ∷ b ∷ c ∷ []) (omega arith) first.here)
FirstBlank-found index (a ∷ b ∷ c ∷ d ∷ rest) zero first =
    rw ((is_end_iff a b c d).1 first.here) refl
FirstBlank-found index (a ∷ b ∷ c ∷ d ∷ rest) (suc start) first =
    elim (Bool-cases (is_end a b c d)) [
      | inl h ↦ absurd (first.none_before 0 (omega arith) ((is_end_iff a b c d).0 h))
      | inr h ↦
          let later = FirstBlank-found (suc index) (b ∷ c ∷ d ∷ rest) start (record {
            here = first.here;
            none_before = λ k l. first.none_before (suc k) (omega arith);
          }) in
          rw h (later ∙ ap some (omega arith))
    ]

head_end_iff : (bytes : Bytes) (end : ℕ) → (head_end bytes ≡ some end) ↔ EndsAt bytes end
unfolding head_end
head_end_iff bytes end = (
  (λ e. let (start, at, first) = found-FirstBlank 0 bytes end e in (start, omega arith, first)),
  λ h. FirstBlank-found 0 bytes h.0 h.2 ∙ ap some (omega (arith, h.1)),
)

-- However the bytes of a client are cut into reads that are not empty, the head of a request is
-- found to end at a place exactly where that is the end of the first blank line within the first
-- 8192 bytes: behind the first occurrence of CR LF CR LF.
pub read_head_iff :
    (arrivals : List Bytes) (end : ℕ)
    → Arrive arrivals
    → (ends (read_head arrivals) ≡ some end) ↔ EndsAt (take head_limit (flat arrivals)) end
read_head_iff arrivals end a =
    let same = read_head-head_end arrivals a in
    let found = head_end_iff (take head_limit (flat arrivals)) end in
    ((λ e. found.0 (sym same ∙ e)), λ h. same ∙ found.1 h)
