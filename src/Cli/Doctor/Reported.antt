-- ===== src/Cli/Doctor/Reported.antt =====
-- nhop/src/cli/doctor.rs: the report does not depend on the order in which the checks were made.
use mathlib.Core.List.{Permᴰ}
use nhop.Common.{
  ◌≡◌, refl, ap, ◌∙◌, sym, ◌≢◌, subst, arith, some, List, [], ◌∷◌, ◌==◌, if◌then◌else◌, All,
  DistinctBy, map,
}
use nhop.Cli.Doctor.{Check, check_eq, check_same_iff, Finding, checks, found, view, viewed, report}

-- No check was made twice.
abbrev pub OncePerCheck : List Finding → Type 0
OncePerCheck findings = DistinctBy (λ (f : Finding). f.check) findings

All-Perm : (P : Finding → Type 0) {xs ys : List Finding} → Permᴰ xs ys → All P xs → All P ys
All-Perm P Permᴰ.nil h = tt
All-Perm P (Permᴰ.cons e d) (p, h) = (subst P e p, All-Perm P d h)
All-Perm P (Permᴰ.swap e₁ e₂) (p, (q, h)) = (subst P e₂ q, (subst P e₁ p, h))
All-Perm P (Permᴰ.trans d₁ d₂) h = All-Perm P d₂ (All-Perm P d₁ h)

found_cons :
    (check : Check) (x y : Finding) (xs ys : List Finding)
    → x ≡ y
    → found check xs ≡ found check ys
    → found check (x ∷ xs) ≡ found check (y ∷ ys)
unfolding found
found_cons check x y xs ys e h =
    subst (λ z. found check (x ∷ xs) ≡ found check (z ∷ ys)) e
      (ap (λ rest. if x.check == check then some x else rest) h)

found_swap :
    (check : Check) (x y : Finding) (xs : List Finding)
    → x.check ≢ y.check
    → found check (x ∷ y ∷ xs) ≡ found check (y ∷ x ∷ xs)
unfolding found
found_swap check x y xs h =
    ground (arith, check_same_iff x.check check, check_same_iff y.check check)

Once-Perm : {xs ys : List Finding} → Permᴰ xs ys → OncePerCheck xs → OncePerCheck ys
Once-Perm Permᴰ.nil h = tt
Once-Perm (Permᴰ.cons {a = a} {l₂ = l₂} e d) (p, h) = (
  subst (λ z. All (λ (y : Finding). z.check ≢ y.check) l₂) e
      (All-Perm (λ y. a.check ≢ y.check) d p),
  Once-Perm d h,
)
Once-Perm (Permᴰ.swap {a = a} {b = b} {b' = b'} {l = l} e₁ e₂) ((n, p), (q, h)) =
    let swapped : OncePerCheck (b ∷ a ∷ l) = ((λ same. n (sym same), q), (p, h)) in
    subst (λ z. OncePerCheck (z ∷ b' ∷ l)) e₂ (subst (λ z. OncePerCheck (b ∷ z ∷ l)) e₁ swapped)
Once-Perm (Permᴰ.trans d₁ d₂) h = Once-Perm d₂ (Once-Perm d₁ h)

found-Perm :
    (check : Check) {xs ys : List Finding}
    → Permᴰ xs ys
    → OncePerCheck xs
    → found check xs ≡ found check ys
found-Perm check Permᴰ.nil h = refl
found-Perm check (Permᴰ.cons {a = a} {b = b} {l₁ = l₁} {l₂ = l₂} e d) (p, h) =
    found_cons check a b l₁ l₂ e (found-Perm check d h)
found-Perm check (Permᴰ.swap {a = a} {b = b} {b' = b'} {l = l} e₁ e₂) ((n, p), h) =
    found_swap check a b l n
    ∙ ap (λ z. found check (b ∷ z ∷ l)) e₁
    ∙ ap (λ z. found check (z ∷ b' ∷ l)) e₂
found-Perm check (Permᴰ.trans d₁ d₂) h =
    found-Perm check d₁ h ∙ found-Perm check d₂ (Once-Perm d₁ h)

map_checks :
    (xs ys : List Finding) (cs : List Check)
    → ((c : Check) → found c xs ≡ found c ys)
    → map (view xs) cs ≡ map (view ys) cs
unfolding view
map_checks xs ys [] h = refl
map_checks xs ys (c ∷ cs) h =
    ap (λ f. viewed c f ∷ map (view xs) cs) (h c)
    ∙ ap (λ rest. view ys c ∷ rest) (map_checks xs ys cs h)

-- Findings of which no two are of one check give one report in whatever order they were made.
pub report-Perm : {xs ys : List Finding} → Permᴰ xs ys → OncePerCheck xs → report xs ≡ report ys
unfolding report
report-Perm {xs} {ys} d h = map_checks xs ys checks (λ c. found-Perm c d h)
