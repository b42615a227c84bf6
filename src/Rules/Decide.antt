-- ===== src/Rules/Decide.antt =====
-- nhop/src/rules/ruleset.rs: what `decide` answers, and what `push` keeps.
use nhop.Common.{
  ◌≡◌, refl, ap, ◌↔◌, ◌⊎◌, inl, inr, Bool, true, false, ◌&&◌, none, some, [], ◌∷◌, arith,
  if◌then◌else◌, All, Bool-cases,
}
use nhop.Net.{Platform}
use nhop.Wire.{Host, Port, RuleClass, require, prefer, never, class_eq}
use nhop.Rules.Decision.{RuleId, Decision}
use nhop.Rules.Matcher
use nhop.Rules.Matcher.{Matcher, InvalidRule, NormalizedHost, normalized}
use nhop.Rules.Ruleset.{Rule, Ruleset, first_never, first_upstream, decide}

-- A rule applies to a destination as a `never` rule, or as one of the other two classes.
module _ {N : Type 0} (p : Platform N) (host : NormalizedHost) (port : Port) where
  abbrev pub Applies : (RuleClass → Bool) → Rule N → Type 0
  Applies wanted r = (wanted r.class ≡ true) × (Matcher.matches p r.matcher host port ≡ true)

  -- `r` is the first rule of the list that applies.
  pub data First (wanted : RuleClass → Bool) (r : Rule N) : Ruleset N → Type 0 where
    here : {rules : Ruleset N} → Applies wanted r → First wanted r (r ∷ rules)
    later :
        {other : Rule N} {rules : Ruleset N}
        → (Applies wanted other → ⊥)
        → First wanted r rules
        → First wanted r (other ∷ rules)

abbrev pub is_never : RuleClass → Bool
is_never never = true
is_never _ = false

abbrev pub is_proxied : RuleClass → Bool
is_proxied never = false
is_proxied _ = true

class_wanted : (c : RuleClass) → (is_never c ≡ true) ⊎ (is_proxied c ≡ true)
class_wanted require = inr refl
class_wanted prefer = inr refl
class_wanted never = inl refl

-- The order that the README gives: `never` rules first, then the others in declaration order, and
-- no match is direct.
pub data Routes {N : Type 0} (p : Platform N) (host : NormalizedHost) (port : Port)
    (rules : Ruleset N) : Decision → Type 0 where
  refused_upstream :
      (r : Rule N)
      → First p host port is_never r rules
      → Routes p host port rules (Decision.never r.id)
  proxied :
      (r : Rule N)
      → All (λ other. Applies p host port is_never other → ⊥) rules
      → First p host port is_proxied r rules
      → Routes p host port rules (Decision.upstream r.class r.id)
  unmatched :
      All (λ other. Matcher.matches p other.matcher host port ≡ false) rules
      → Routes p host port rules Decision.direct

module _ {N : Type 0} (p : Platform N) (host : NormalizedHost) (port : Port) where
  abbrev hits : (RuleClass → Bool) → Rule N → Bool
  hits wanted r = wanted r.class && Matcher.matches p r.matcher host port

  first_never-cons :
      (r : Rule N) (rules : Ruleset N)
      → first_never p host port (r ∷ rules)
        ≡ (if hits is_never r then some r.id else first_never p host port rules)
  unfolding first_never
  first_never-cons r rules = ground arith

  first_upstream-cons :
      (r : Rule N) (rules : Ruleset N)
      → first_upstream p host port (r ∷ rules) ≡ (
          if hits is_proxied r
          then Decision.upstream r.class r.id
          else first_upstream p host port rules)
  unfolding first_upstream
  first_upstream-cons r rules = ground arith

  hits→Applies :
      (wanted : RuleClass → Bool) (r : Rule N) → hits wanted r ≡ true → Applies p host port wanted r
  hits→Applies wanted r h = ground arith

  misses→Applies :
      (wanted : RuleClass → Bool) (r : Rule N)
      → hits wanted r ≡ false
      → Applies p host port wanted r
      → ⊥
  misses→Applies wanted r h (c, m) = ground arith

  abbrev FoundNever : Ruleset N → Type 0
  FoundNever rules =
      ((first_never p host port rules ≡ none)
        × All (λ other. Applies p host port is_never other → ⊥) rules)
      ⊎ ((r : Rule N) × (first_never p host port rules ≡ some r.id)
          × First p host port is_never r rules)

  first_never-Found : (rules : Ruleset N) → FoundNever rules
  first_never-Found [] = unfold first_never in inl (refl, tt)
  first_never-Found (r ∷ rules) = elim (Bool-cases (hits is_never r)) [
    | inl hit ↦
        inr (r, rw (first_never-cons r rules, hit), First.here (hits→Applies is_never r hit))
    | inr miss ↦ elim (first_never-Found rules) [
      | inl (e, h) ↦
          inl (rw (first_never-cons r rules, miss) e, (misses→Applies is_never r miss, h))
      | inr (found, e, h) ↦ inr (
        found,
        rw (first_never-cons r rules, miss) e,
        First.later (misses→Applies is_never r miss) h,
      )
    ]
  ]

  abbrev FoundUpstream : Ruleset N → Type 0
  FoundUpstream rules =
      ((first_upstream p host port rules ≡ Decision.direct)
        × All (λ other. Applies p host port is_proxied other → ⊥) rules)
      ⊎ ((r : Rule N) × (first_upstream p host port rules ≡ Decision.upstream r.class r.id)
          × First p host port is_proxied r rules)

  first_upstream-Found : (rules : Ruleset N) → FoundUpstream rules
  first_upstream-Found [] = unfold first_upstream in inl (refl, tt)
  first_upstream-Found (r ∷ rules) = elim (Bool-cases (hits is_proxied r)) [
    | inl hit ↦
        inr (r, rw (first_upstream-cons r rules, hit), First.here (hits→Applies is_proxied r hit))
    | inr miss ↦ elim (first_upstream-Found rules) [
      | inl (e, h) ↦
          inl (rw (first_upstream-cons r rules, miss) e, (misses→Applies is_proxied r miss, h))
      | inr (found, e, h) ↦ inr (
        found,
        rw (first_upstream-cons r rules, miss) e,
        First.later (misses→Applies is_proxied r miss) h,
      )
    ]
  ]

  neither-Applies :
      (r : Rule N)
      → (Applies p host port is_never r → ⊥)
      → (Applies p host port is_proxied r → ⊥)
      → Matcher.matches p r.matcher host port ≡ false
  neither-Applies r h k = elim (Bool-cases (Matcher.matches p r.matcher host port)) [
    | inr miss ↦ miss
    | inl hit ↦ elim (class_wanted r.class) [
      | inl n ↦ absurd (h (n, hit))
      | inr n ↦ absurd (k (n, hit))
    ]
  ]

  unmatched-All :
      (rules : Ruleset N)
      → All (λ other. Applies p host port is_never other → ⊥) rules
      → All (λ other. Applies p host port is_proxied other → ⊥) rules
      → All (λ other. Matcher.matches p other.matcher host port ≡ false) rules
  unmatched-All [] h k = tt
  unmatched-All (r ∷ rules) (h, hs) (k, ks) = (neither-Applies r h k, unmatched-All rules hs ks)

  First-unique :
      (wanted : RuleClass → Bool) {r s : Rule N} {rules : Ruleset N}
      → First p host port wanted r rules
      → First p host port wanted s rules
      → r ≡ s
  First-unique wanted (First.here a) (First.here b) = refl
  First-unique wanted (First.here a) (First.later h b) = absurd (h a)
  First-unique wanted (First.later h a) (First.here b) = absurd (h b)
  First-unique wanted (First.later h a) (First.later k b) = First-unique wanted a b

  First-not_All :
      (wanted : RuleClass → Bool) {r : Rule N} {rules : Ruleset N}
      → First p host port wanted r rules
      → All (λ other. Applies p host port wanted other → ⊥) rules
      → ⊥
  First-not_All wanted (First.here a) (h, hs) = h a
  First-not_All wanted (First.later k f) (h, hs) = First-not_All wanted f hs

  First-Applies :
      (wanted : RuleClass → Bool) {r : Rule N} {rules : Ruleset N}
      → First p host port wanted r rules
      → All (λ other. Matcher.matches p other.matcher host port ≡ false) rules
      → ⊥
  First-Applies wanted (First.here (c, m)) (h, hs) = cc
  First-Applies wanted (First.later k f) (h, hs) = First-Applies wanted f hs

module _ {N : Type 0} (p : Platform N) where
  decide_as_never :
      (rules : Ruleset N) (host : Host) (port : Port) {id : RuleId}
      → first_never p (normalized p host) port rules ≡ some id
      → decide p rules host port ≡ Decision.never id
  unfolding decide
  decide_as_never rules host port e = rw (e, decide)

  decide_otherwise :
      (rules : Ruleset N) (host : Host) (port : Port)
      → first_never p (normalized p host) port rules ≡ none
      → decide p rules host port ≡ first_upstream p (normalized p host) port rules
  unfolding decide
  decide_otherwise rules host port e = rw (e, decide)

  -- `decide` answers a route that the documented order allows, for every ruleset and destination.
  pub decide-Routes :
      (rules : Ruleset N) (host : Host) (port : Port)
      → Routes p (normalized p host) port rules (decide p rules host port)
  decide-Routes rules host port =
      let n = normalized p host in
      elim (first_never-Found p n port rules) [
        | inr (r, e, h) ↦ rw (decide_as_never rules host port e) (Routes.refused_upstream r h)
        | inl (e, none_never) ↦ elim (first_upstream-Found p n port rules) [
          | inr (r, e', h) ↦
              rw (decide_otherwise rules host port e, e') (Routes.proxied r none_never h)
          | inl (e', none_proxied) ↦
              rw (decide_otherwise rules host port e, e')
                (Routes.unmatched (unmatched-All p n port rules none_never none_proxied))
        ]
      ]

  Routes-unique :
      (rules : Ruleset N) (n : NormalizedHost) (port : Port) {d d' : Decision}
      → Routes p n port rules d
      → Routes p n port rules d'
      → d ≡ d'
  Routes-unique rules n port (Routes.refused_upstream r f) (Routes.refused_upstream s g) =
      ap (λ (t : Rule N). Decision.never t.id) (First-unique p n port is_never f g)
  Routes-unique rules n port (Routes.refused_upstream r f) (Routes.proxied s a g) =
      absurd (First-not_All p n port is_never f a)
  Routes-unique rules n port (Routes.refused_upstream r f) (Routes.unmatched a) =
      absurd (First-Applies p n port is_never f a)
  Routes-unique rules n port (Routes.proxied r a f) (Routes.refused_upstream s g) =
      absurd (First-not_All p n port is_never g a)
  Routes-unique rules n port (Routes.proxied r a f) (Routes.proxied s b g) =
      ap (λ (t : Rule N). Decision.upstream t.class t.id) (First-unique p n port is_proxied f g)
  Routes-unique rules n port (Routes.proxied r a f) (Routes.unmatched b) =
      absurd (First-Applies p n port is_proxied f b)
  Routes-unique rules n port (Routes.unmatched a) (Routes.refused_upstream s g) =
      absurd (First-Applies p n port is_never g a)
  Routes-unique rules n port (Routes.unmatched a) (Routes.proxied s b g) =
      absurd (First-Applies p n port is_proxied g a)
  Routes-unique rules n port (Routes.unmatched a) (Routes.unmatched b) = refl

  -- For every ruleset, host and port, decide answers a decision exactly when the order the README
  -- gives allows it: never for the first never rule that applies, else upstream for the first
  -- other rule that applies, else direct when nothing matches.
  pub decide_iff :
      (rules : Ruleset N) (host : Host) (port : Port) (d : Decision)
      → (decide p rules host port ≡ d) ↔ Routes p (normalized p host) port rules d
  decide_iff rules host port d = (
    λ e. rw e at (decide-Routes rules host port),
    λ r. Routes-unique rules (normalized p host) port (decide-Routes rules host port) r,
  )
