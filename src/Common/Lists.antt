-- ===== src/Common/Lists.antt =====
-- Lists measured and indexed by native numbers, under the library's names, and predicates on them.
use Prim.Native.Nat.{ℕ, zero, suc, ◌+◌, ◌<◌}
use mathlib.Core.Path.{◌≡◌, refl, ap, subst}
use mathlib.Core.Logic.{◌≢◌}
use mathlib.Core.List.{List, [], ◌∷◌, ◌++◌, map}
use mathlib.Core.Bool.{Bool, true, false, ◌&&◌, ◌||◌}
use mathlib.Core.Option.{Option, none, some}
use native.Mathlib.Omega.{arith}

module _ {ℓ} {A : Type ℓ} where
  abbrev pub length : List A → ℕ
  length [] = 0
  length (x ∷ xs) = suc (length xs)

  abbrev pub get_elem? : List A → ℕ → Option A
  get_elem? [] i = none
  get_elem? (x ∷ xs) zero = some x
  get_elem? (x ∷ xs) (suc i) = get_elem? xs i

  abbrev pub take : ℕ → List A → List A
  take zero xs = []
  take (suc n) [] = []
  take (suc n) (x ∷ xs) = x ∷ take n xs

  abbrev pub drop : ℕ → List A → List A
  drop zero xs = xs
  drop (suc n) [] = []
  drop (suc n) (x ∷ xs) = drop n xs

  abbrev pub any : (A → Bool) → List A → Bool
  any p [] = false
  any p (x ∷ xs) = p x || any p xs

  abbrev pub all : (A → Bool) → List A → Bool
  all p [] = true
  all p (x ∷ xs) = p x && all p xs

  pub append_assoc : (xs ys zs : List A) → ((xs ++ ys) ++ zs) ≡ xs ++ (ys ++ zs)
  append_assoc [] ys zs = refl
  append_assoc (x ∷ xs) ys zs = ap (λ l. x ∷ l) (append_assoc xs ys zs)

  pub append_nil : (xs : List A) → (xs ++ []) ≡ xs
  append_nil [] = refl
  append_nil (x ∷ xs) = ap (λ l. x ∷ l) (append_nil xs)

  pub length-append : (xs ys : List A) → length (xs ++ ys) ≡ length xs + length ys
  length-append [] ys = omega arith
  length-append (x ∷ xs) ys = omega (arith, length-append xs ys)

  pub get_elem?-append_last : (xs : List A) (x : A) → get_elem? (xs ++ x ∷ []) (length xs) ≡ some x
  get_elem?-append_last [] x = refl
  get_elem?-append_last (y ∷ xs) x = get_elem?-append_last xs x

module _ {ℓ κ} {A : Type ℓ} (P : A → Type κ) where
  abbrev pub All : List A → Type κ
  All [] = Unit
  All (x ∷ xs) = P x × All xs

  pub All-append_last : (xs : List A) {x : A} → All xs → P x → All (xs ++ x ∷ [])
  All-append_last [] _ p = (p, tt)
  All-append_last (y ∷ xs) (q, h) p = (q, All-append_last xs h p)

  -- What holds of the first `k` members.
  abbrev pub Before : ℕ → List A → Type κ
  Before zero xs = Unit
  Before (suc k) [] = Unit
  Before (suc k) (x ∷ xs) = P x × Before k xs

  pub All-get_elem? : (xs : List A) (k : ℕ) {x : A} → All xs → get_elem? xs k ≡ some x → P x
  All-get_elem? [] k h e = cc
  All-get_elem? (y ∷ xs) zero {x} (p, h) e = let same : y ≡ x = cc in subst P same p
  All-get_elem? (y ∷ xs) (suc k) (p, h) e = All-get_elem? xs k h e

  pub Before-get_elem? :
      (xs : List A) (j k : ℕ) {x : A} → Before k xs → j < k → get_elem? xs j ≡ some x → P x
  Before-get_elem? xs j zero h l e = elim l [ ]
  Before-get_elem? [] j (suc k) h l e = cc
  Before-get_elem? (y ∷ xs) zero (suc k) {x} (p, h) l e = let same : y ≡ x = cc in subst P same p
  Before-get_elem? (y ∷ xs) (suc j) (suc k) (p, h) l e = Before-get_elem? xs j k h (omega arith) e

module _ {ℓ κ ι μ} {A : Type ℓ} {P : A → Type κ} {Q : A → Type ι} {R : A → Type μ} where
  pub All-zip : (xs : List A) → ((x : A) → P x → Q x → R x) → All P xs → All Q xs → All R xs
  All-zip [] f h k = tt
  All-zip (x ∷ xs) f (p, h) (q, k) = (f x p q, All-zip xs f h k)

module _ {ℓ κ ι} {A : Type ℓ} {P : A → Type κ} {Q : A → Type ι} where
  pub All-weaken : (xs : List A) → ((x : A) → P x → Q x) → All P xs → All Q xs
  All-weaken [] f h = tt
  All-weaken (x ∷ xs) f (p, h) = (f x p, All-weaken xs f h)

pub All-of_map {ℓ κ ι} :
    {A : Type ℓ} {B : Type κ} (P : B → Type ι) (f : A → B) (xs : List A)
    → All P (map f xs)
    → All (λ x. P (f x)) xs
All-of_map P f [] h = tt
All-of_map P f (x ∷ xs) (p, h) = (p, All-of_map P f xs h)

-- No two members have one value of `f`.
abbrev pub DistinctBy {ℓ κ} : {A : Type ℓ} {B : Type κ} → (A → B) → List A → Type κ
DistinctBy f [] = Unit
DistinctBy f (x ∷ xs) = All (λ y. f x ≢ f y) xs × DistinctBy f xs

pub DistinctBy-of_map {ℓ κ ι} :
    {A : Type ℓ} {B : Type κ} {C : Type ι} (f : B → C) (g : A → B) (xs : List A)
    → DistinctBy f (map g xs)
    → DistinctBy (λ x. f (g x)) xs
DistinctBy-of_map f g [] d = tt
DistinctBy-of_map f g (x ∷ xs) (d, ds) =
    (All-of_map (λ y. f (g x) ≢ f y) g xs d, DistinctBy-of_map f g xs ds)

pub DistinctBy-append_last {ℓ κ} :
    {A : Type ℓ} {B : Type κ} (f : A → B) (xs : List A) (x : A)
    → DistinctBy f xs
    → All (λ y. f y ≢ f x) xs
    → DistinctBy f (xs ++ x ∷ [])
DistinctBy-append_last f [] x d a = (tt, tt)
DistinctBy-append_last f (y ∷ xs) x (d, ds) (a, as') =
    (All-append_last (λ z. f y ≢ f z) xs d a, DistinctBy-append_last f xs x ds as')
