-- ===== src/Rules/Ruleset.antt =====
-- nhop/src/rules/ruleset.rs.
use nhop.Common.{
  ℕ, ◌+◌, Option, none, some, List, [], ◌∷◌, ◌++◌, ◌==◌, if◌then◌else◌, length, Result, ok, err,
}
use nhop.Net.{Platform}
use nhop.Wire.{Host, Port, RuleClass, require, prefer, never, RuleKind, RuleValue, class_eq}
use nhop.Rules.Decision.{RuleId, Decision}
use nhop.Rules.Matcher
use nhop.Rules.Matcher.{Matcher, InvalidRule, NormalizedHost, normalized}

pub record Rule (N : Type 0) : Type 0 where
  pub id : RuleId
  pub class : RuleClass
  pub matcher : Matcher N
  pub value : RuleValue

-- `Ruleset` holds its rules and nothing else.
abbrev pub Ruleset : Type 0 → Type 0
Ruleset N = List (Rule N)

-- The loop of `count`.
unfoldable pub count : {N : Type 0} → Ruleset N → RuleClass → ℕ
count [] class = 0
count (rule ∷ rules) class =
    if rule.class == class then 1 + count rules class else count rules class

module _ {N : Type 0} (p : Platform N) where
  abbrev appended :
      Ruleset N → RuleClass → RuleValue → Matcher N → Ruleset N × Result InvalidRule RuleId
  appended rules class value matcher =
      let id = length rules in
      (rules ++ record { id = id; class = class; matcher = matcher; value = value } ∷ [], ok id)

  unfoldable pub push :
      Ruleset N → RuleClass → RuleKind → RuleValue → Ruleset N × Result InvalidRule RuleId
  push rules class kind value = elim (Matcher.parse p kind value) [
    | err failure ↦ (rules, err failure)
    | ok matcher ↦ appended rules class value matcher
  ]

  -- The first loop of `decide`.
  unfoldable pub first_never : NormalizedHost → Port → Ruleset N → Option RuleId
  first_never host port [] = none
  first_never host port (rule ∷ rules) =
      let rest = first_never host port rules in
      elim rule.class [
        | require ↦ rest
        | prefer ↦ rest
        | never ↦ if Matcher.matches p rule.matcher host port then some rule.id else rest
      ]

  -- The second loop.
  unfoldable pub first_upstream : NormalizedHost → Port → Ruleset N → Decision
  first_upstream host port [] = Decision.direct
  first_upstream host port (rule ∷ rules) =
      let rest = first_upstream host port rules in
      let matched = Matcher.matches p rule.matcher host port in
      elim rule.class [
        | require ↦ if matched then Decision.upstream require rule.id else rest
        | prefer ↦ if matched then Decision.upstream prefer rule.id else rest
        | never ↦ rest
      ]

  unfoldable pub decide : Ruleset N → Host → Port → Decision
  unfolding first_never first_upstream
  decide rules host port =
      let host' = normalized p host in
      let rest = first_upstream host' port rules in
      elim (first_never host' port rules) [ some id ↦ Decision.never id | none ↦ rest ]
