-- ===== src/Cli/Explain.antt =====
-- nhop/src/cli/explain.rs: the ruleset as it is listed, and the route that `test` reports.
use nhop.Common.{ℕ, ◌^◌, ◌-◌, Option, none, some, List, ◌++◌, map, min, if◌then◌else◌}
use nhop.Net.{Platform}
use nhop.Text.{Text, text, contains}
use nhop.Text.Numbers.{show}
use nhop.Wire.{DecisionKind, Host, Port, RuleClass, RuleKind, RuleValue, UpstreamAddr}
use nhop.Rules.Decision.{Decision, RuleId}
use nhop.Rules.Matcher
use nhop.Rules.Ruleset.{Ruleset, decide}

pub record RuleView : Type 0 where
  pub index : ℕ
  pub class : RuleClass
  pub kind : RuleKind
  pub value : RuleValue

pub record DecisionView : Type 0 where
  pub decision : DecisionKind
  pub rule_index : Option ℕ
  pub class : Option RuleClass
  pub next_hop : Text

abbrev pub u32_max : ℕ
u32_max = 2 ^ 32 - 1

-- `u32::try_from(index).unwrap_or(u32::MAX)`
unfoldable pub indexed : RuleId → ℕ
indexed rule = min rule u32_max

unfoldable pub rule_views : {N : Type 0} → Ruleset N → List RuleView
unfolding indexed Matcher.kind
rule_views rules =
    map
      (λ rule. record {
        index = indexed rule.id;
        class = rule.class;
        kind = Matcher.kind rule.matcher;
        value = rule.value;
      })
      rules

unfoldable pub dialled : Host → Port → Text
dialled host port =
    if contains host (text ":")
    then text "[" ++ (host ++ (text "]:" ++ show port))
    else host ++ (text ":" ++ show port)

unfoldable pub named : Option UpstreamAddr → Text
named none = text "none"
named (some upstream) = upstream

unfoldable pub view_of : Decision → Option UpstreamAddr → Host → Port → DecisionView
unfolding indexed dialled named
view_of Decision.direct upstream host port = record {
  decision = DecisionKind.direct;
  rule_index = none;
  class = none;
  next_hop = dialled host port;
}
view_of (Decision.never rule) upstream host port = record {
  decision = DecisionKind.never;
  rule_index = some (indexed rule);
  class = some RuleClass.never;
  next_hop = dialled host port;
}
view_of (Decision.upstream RuleClass.never rule) upstream host port = record {
  decision = DecisionKind.never;
  rule_index = some (indexed rule);
  class = some RuleClass.never;
  next_hop = dialled host port;
}
view_of (Decision.upstream class rule) upstream host port = record {
  decision = DecisionKind.upstream;
  rule_index = some (indexed rule);
  class = some class;
  next_hop = named upstream;
}

unfoldable pub decision_view :
    {N : Type 0} → Platform N → Ruleset N → Option UpstreamAddr → Host → Port → DecisionView
unfolding view_of
decision_view p rules upstream host port = view_of (decide p rules host port) upstream host port
