-- ===== src/Cli/Doctor/Exits.antt =====
-- nhop/src/cli/doctor.rs: which code `doctor` exits with.
use nhop.Common.{
  ℕ, suc, ◌≤◌, ◌<◌, ◌≡◌, refl, arith, Bool, true, false, ◌||◌, List, [], ◌∷◌, all, ◌==◌, list_eq,
  nat_eq, Bool-cases, inl, inr, sym, subst,
}
use nhop.Cli.Exit.{Exit}
use nhop.Cli.Doctor.{Check, CheckView, name, counted, exit_by, exit_of}

abbrev pub passed : CheckView → Bool
passed check = check.ok

-- A check that passed, or that is the one of the upstream.
abbrev pub excused : CheckView → Bool
unfolding name
excused check = check.ok || check.name == name Check.upstream_reachable

counted_grows :
    (n beyond : ℕ) (views : List CheckView)
    → (n ≤ (counted (n, beyond) views).0) × (beyond ≤ (counted (n, beyond) views).1)
unfolding counted
counted_grows n beyond [] = ground arith
counted_grows n beyond (check ∷ more) = ground (
  arith,
  counted_grows n beyond more,
  counted_grows (suc n) beyond more,
  counted_grows (suc n) (suc beyond) more,
)

counted_failed :
    (n beyond : ℕ) (views : List CheckView)
    → all passed views ≡ false
    → n < (counted (n, beyond) views).0
unfolding counted
counted_failed n beyond [] h = ground arith
counted_failed n beyond (check ∷ more) h = ground (
  arith,
  counted_failed n beyond more,
  counted_grows (suc n) beyond more,
  counted_grows (suc n) (suc beyond) more,
)

counted_none :
    (n beyond : ℕ) (views : List CheckView)
    → all passed views ≡ true
    → (counted (n, beyond) views).0 ≡ n
unfolding counted
counted_none n beyond [] h = refl
counted_none n beyond (check ∷ more) h = ground (arith, counted_none n beyond more)

counted_beyond :
    (n beyond : ℕ) (views : List CheckView)
    → all excused views ≡ false
    → beyond < (counted (n, beyond) views).1
unfolding counted
counted_beyond n beyond [] h = ground arith
counted_beyond n beyond (check ∷ more) h = ground (
  arith,
  counted_beyond n beyond more,
  counted_beyond (suc n) beyond more,
  counted_grows (suc n) (suc beyond) more,
)

counted-excused :
    (n beyond : ℕ) (views : List CheckView)
    → all excused views ≡ true
    → (counted (n, beyond) views).1 ≡ beyond
unfolding counted
counted-excused n beyond [] h = refl
counted-excused n beyond (check ∷ more) h =
    ground (arith, counted-excused n beyond more, counted-excused (suc n) beyond more)

-- What a code says of the checks.
abbrev pub Judged : List CheckView → Exit → Type 0
Judged views Exit.success = all passed views ≡ true
Judged views Exit.upstream_down = (all passed views ≡ false) × (all excused views ≡ true)
Judged views Exit.failed = (all passed views ≡ false) × (all excused views ≡ false)
Judged views Exit.missing = ⊥
Judged views Exit.invalid_args = ⊥

exit_success : (n beyond : ℕ) → n ≡ 0 → exit_by (n, beyond) ≡ Exit.success
exit_success n beyond h = ground arith

exit_upstream_down : (n beyond : ℕ) → 0 < n → beyond ≡ 0 → exit_by (n, beyond) ≡ Exit.upstream_down
exit_upstream_down n beyond h k = ground arith

exit_failed : (n beyond : ℕ) → 0 < n → 0 < beyond → exit_by (n, beyond) ≡ Exit.failed
exit_failed n beyond h k = ground arith

-- The code of doctor is 0 exactly where every check passed, 3 where some failed and only checks of
-- the upstream did, 1 where another failed, and no other code.
pub exit_of-Judged : (views : List CheckView) → Judged views (exit_of views)
unfolding exit_of
exit_of-Judged views = elim (Bool-cases (all passed views)) [
  | inl good ↦ subst (Judged views) (sym (exit_success _ _ (counted_none 0 0 views good))) good
  | inr bad ↦ elim (Bool-cases (all excused views)) [
    | inl only ↦
        subst (Judged views)
          (sym (
            exit_upstream_down _ _ (counted_failed 0 0 views bad) (counted-excused 0 0 views only)))
          (bad, only)
    | inr more ↦
        subst (Judged views)
          (sym (exit_failed _ _ (counted_failed 0 0 views bad) (counted_beyond 0 0 views more)))
          (bad, more)
  ]
]
