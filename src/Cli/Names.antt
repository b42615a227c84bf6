-- ===== src/Cli/Names.antt =====
-- nhop/src/cli/mod.rs: the words that stand for the values that are printed.
use nhop.Common.{[], ℕ, Bool, true, false, Option, none, some, ◌++◌}
use nhop.Text.{Text, text}
use nhop.Text.Numbers.{show}
use nhop.Wire.{DecisionKind, EffectiveHop, HealthState, LoadOutcome, RuleClass, RuleKind}
use nhop.Upstream.Health.{SystemTime, VerdictCause, SwitchCause}
use nhop.Cli.Status.{PathBuf, LastLoadView}

unfoldable pub class_name : RuleClass → Text
class_name RuleClass.require = text "require"
class_name RuleClass.prefer = text "prefer"
class_name RuleClass.never = text "never"

unfoldable pub kind_name : RuleKind → Text
kind_name RuleKind.suffix = text "suffix"
kind_name RuleKind.cidr = text "cidr"
kind_name RuleKind.port = text "port"
kind_name RuleKind.keyword = text "keyword"

unfoldable pub decision_name : DecisionKind → Text
decision_name DecisionKind.direct = text "direct"
decision_name DecisionKind.never = text "never"
decision_name DecisionKind.upstream = text "upstream"

unfoldable pub health_name : HealthState → Text
health_name HealthState.up = text "up"
health_name HealthState.down = text "down"

unfoldable pub cause_name : VerdictCause → Text
cause_name VerdictCause.probe = text "probe"
cause_name VerdictCause.dial = text "dial"

unfoldable pub switch_cause_name : SwitchCause → Text
switch_cause_name SwitchCause.down = text "down"
switch_cause_name SwitchCause.held = text "held"
switch_cause_name SwitchCause.recovered = text "recovered"
switch_cause_name SwitchCause.reload = text "reload"

unfoldable pub outcome_name : LoadOutcome → Text
outcome_name LoadOutcome.ok = text "ok"
outcome_name LoadOutcome.failed = text "failed"
outcome_name LoadOutcome.timed_out = text "timed out"

unfoldable pub bound_name : Bool → Text
bound_name true = text "bound"
bound_name false = text "unbound"

unfoldable pub check_name : Bool → Text
check_name true = text "ok  "
check_name false = text "FAIL"

unfoldable pub fallen_back : Option EffectiveHop → Text
fallen_back none = []
fallen_back (some EffectiveHop.direct) = []
fallen_back (some EffectiveHop.upstream) = []
fallen_back (some EffectiveHop.fallback_direct) = text " -> direct"

unfoldable pub rule_name : Option ℕ → Option RuleClass → Text
unfolding class_name
rule_name (some index) (some class) =
    text "rule " ++ (show index ++ (text " (" ++ (class_name class ++ text ")")))
rule_name (some index) none = text "no rule"
rule_name none class = text "no rule"

unfoldable pub init_name : Option PathBuf → Text
init_name none = text "none"
init_name (some path) = path

abbrev on_command : Option Text → Text
on_command none = []
on_command (some command) = text ", on " ++ command

unfoldable pub load_name : (SystemTime → Text) → Option LastLoadView → Text
unfolding outcome_name
load_name rfc3339 none = text "never - the ruleset is empty and every connection is direct"
load_name rfc3339 (some load) =
    outcome_name load.outcome ++ (text " at " ++ (rfc3339 load.at ++ on_command load.command))

unfoldable pub proxy_name : Option Text → Text
proxy_name none = text "off"
proxy_name (some proxy) = proxy
