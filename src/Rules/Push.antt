-- ===== src/Rules/Push.antt =====
-- nhop/src/rules/ruleset.rs: what `push` keeps, and what `count` counts.
use nhop.Common.{
  ℕ, suc, ◌+◌, ◌≡◌, refl, ◌⊎◌, inl, inr, [], ◌∷◌, ◌++◌, arith, ◌==◌, if◌then◌else◌, length, ok, err,
  Result-cases,
}
use nhop.Net.{Platform}
use nhop.Wire.{RuleClass, require, prefer, never, RuleKind, RuleValue, class_eq}
use nhop.Rules.Matcher
use nhop.Rules.Matcher.{Matcher, InvalidRule}
use nhop.Rules.Ruleset.{Rule, Ruleset, count, push}

-- Every identifier is the position of its rule, counted from `start`.
abbrev pub IsNumberedFrom : {N : Type 0} → ℕ → Ruleset N → Type 0
IsNumberedFrom start [] = Unit
IsNumberedFrom start (r ∷ rules) = (r.id ≡ start) × IsNumberedFrom (suc start) rules

IsNumberedFrom-append :
    {N : Type 0} (start : ℕ) (rules : Ruleset N) (r : Rule N)
    → IsNumberedFrom start rules
    → r.id ≡ start + length rules
    → IsNumberedFrom start (rules ++ r ∷ [])
IsNumberedFrom-append start [] r h e = (omega (arith, e), tt)
IsNumberedFrom-append start (s ∷ rules) r (h, hs) e =
    (h, IsNumberedFrom-append (suc start) rules r hs (omega (arith, e)))

count-append :
    {N : Type 0} (rules : Ruleset N) (r : Rule N) (class : RuleClass)
    → count (rules ++ r ∷ []) class ≡ count rules class + (if r.class == class then 1 else 0)
unfolding count
count-append [] r class = ground arith
count-append (s ∷ rules) r class = ground (arith, count-append rules r class)

module _ {N : Type 0} (p : Platform N) (rules : Ruleset N) (class : RuleClass) (kind : RuleKind)
    (value : RuleValue) where
  -- What one `push` does, on both branches: a value its kind cannot read leaves the ruleset as it
  -- was, and any other is appended with the next position, which is returned.
  abbrev pub Pushed : Type 0
  Pushed =
      ((e : InvalidRule) × (Matcher.parse p kind value ≡ err e)
        × (push p rules class kind value ≡ (rules, err e)))
      ⊎ ((m : Matcher N) × (Matcher.parse p kind value ≡ ok m)
          × (push p rules class kind value ≡ (
            rules ++ record { id = length rules; class = class; matcher = m; value = value } ∷ [],
            ok (length rules),
          )))

  pub push-Pushed : Pushed
  unfolding push
  push-Pushed = elim (Result-cases (Matcher.parse p kind value)) [
    | inl (m, e) ↦ inr (m, e, rw (e, push))
    | inr (failure, e) ↦ inl (failure, e, rw (e, push))
  ]

  -- A ruleset whose identifiers are the positions of its rules stays so, whatever is pushed and
  -- whether the push is read or rejected.
  pub push-IsNumbered : IsNumberedFrom 0 rules → IsNumberedFrom 0 (push p rules class kind value).0
  push-IsNumbered h = elim push-Pushed [
    | inl (failure, e, same) ↦ rw same h
    | inr (m, e, grown) ↦ rw grown (IsNumberedFrom-append 0 rules _ h (omega arith))
  ]

  -- A push that succeeds raises the count of its class by one and of no other class; one that
  -- fails changes no count.
  pub count-push :
      (c : RuleClass)
      → count (push p rules class kind value).0 c ≡ (elim (push p rules class kind value).1 [
        | ok id ↦ count rules c + (if class == c then 1 else 0)
        | err e ↦ count rules c
      ])
  count-push c = elim push-Pushed [
    | inl (failure, e, same) ↦ rw same
    | inr (m, e, grown) ↦ rw grown (count-append rules _ c)
  ]

-- The three classes partition a ruleset.
pub count-total :
    {N : Type 0} (rules : Ruleset N)
    → count rules require + count rules prefer + count rules never ≡ length rules
unfolding count
count-total [] = refl
count-total (r ∷ rules) = ground (arith, count-total rules)
