-- ===== src/Daemon/Staging.antt =====
-- nhop/src/daemon/staging.rs: what one run of the init script has built so far.
use nhop.Common.{ℕ, ◌+◌, ◌%◌, ◌^◌, Option, none, some, List, [], ◌∷◌, Result, ok, err}
use nhop.Daemon.FailedCommand.{FailedCommand}
use nhop.Net.{Platform}
use nhop.Wire.{LoadId, RuleClass, RuleKind, RuleValue, UpstreamAddr}
use nhop.Rules.Matcher.{InvalidRule}
use nhop.Rules.Decision.{RuleId}
use nhop.Rules.Ruleset
use nhop.Rules.Ruleset.{Ruleset}
use nhop.Proxy.Forwards
use nhop.Proxy.Forwards.{Forward, Forwards, Listen, DuplicateForward}
use nhop.Proxy.Upstreams
use nhop.Proxy.Upstreams.{Upstreams, UnusableUpstreams}

pub record Committed (N : Type 0) : Type 0 where
  pub rules : Ruleset N
  pub upstream : Option Upstreams
  pub listen : Option Listen
  pub forwards : Forwards

pub record Staging (N : Type 0) : Type 0 where
  pub rules : Ruleset N
  pub upstream : Option Upstreams
  pub listen : Option Listen
  pub forwards : Forwards
  pub failed : Option FailedCommand

-- `Staging::default`
abbrev pub fresh : {N : Type 0} → Staging N
fresh = record { rules = []; upstream = none; listen = none; forwards = []; failed = none }

abbrev pub first_failure : Option FailedCommand → FailedCommand → Option FailedCommand
first_failure (some first) command = some first
first_failure none command = some command

unfoldable pub fail : {N : Type 0} → Staging N → FailedCommand → Staging N
fail s command = record s { failed = first_failure s.failed command }

-- The command that `Command::upstreams` sends for a list with these fallbacks.
abbrev pub sent_for : List UpstreamAddr → FailedCommand
sent_for [] = FailedCommand.set_upstream
sent_for (f ∷ fallbacks) = FailedCommand.set_upstreams

module _ {N : Type 0} where
  -- What `push_rule` makes of the ruleset's answer.
  abbrev pub with_rule :
      Staging N → Ruleset N × Result InvalidRule RuleId → Staging N × Result InvalidRule (Unit {0})
  with_rule s (rules, ok id) = (record s { rules = rules }, ok tt)
  with_rule s (rules, err failure) =
      (fail (record s { rules = rules }) FailedCommand.add_rule, err failure)

  unfoldable pub push_rule :
      Platform N
      → Staging N
      → RuleClass
      → RuleKind
      → RuleValue
      → Staging N × Result InvalidRule (Unit {0})
  unfolding fail
  push_rule p s class kind value = with_rule s (Ruleset.push p s.rules class kind value)

  unfoldable pub clear_rules : Staging N → Staging N
  clear_rules s = record s { rules = [] }

  -- What `set_upstream` makes of the list as it is read.
  abbrev pub with_upstream :
      Staging N
      → List UpstreamAddr
      → Result UnusableUpstreams Upstreams
      → Staging N × Result UnusableUpstreams (Unit {0})
  with_upstream s fallbacks (ok upstreams) = (record s { upstream = some upstreams }, ok tt)
  with_upstream s fallbacks (err failure) = (fail s (sent_for fallbacks), err failure)

  unfoldable pub set_upstream :
      Platform N
      → Staging N
      → UpstreamAddr
      → List UpstreamAddr
      → Staging N × Result UnusableUpstreams (Unit {0})
  unfolding fail
  set_upstream p s first fallbacks = with_upstream s fallbacks (Upstreams.parse p first fallbacks)

  unfoldable pub set_listen : Staging N → Listen → Staging N
  set_listen s listen = record s { listen = some listen }

  -- What `push_forward` makes of the set's answer.
  abbrev pub with_forward :
      Staging N
      → Forwards × Result DuplicateForward (Unit {0})
      → Staging N × Result DuplicateForward (Unit {0})
  with_forward s (forwards, ok _) = (record s { forwards = forwards }, ok tt)
  with_forward s (forwards, err failure) =
      (fail (record s { forwards = forwards }) FailedCommand.add_forward, err failure)

  unfoldable pub push_forward : Staging N → Forward → Staging N × Result DuplicateForward (Unit {0})
  unfolding fail
  push_forward s forward = with_forward s (Forwards.push s.forwards forward)

  unfoldable pub commit : Staging N → Committed N
  commit s = record {
    rules = s.rules;
    upstream = s.upstream;
    listen = s.listen;
    forwards = s.forwards;
  }

-- `LoadIds`, the `u64` last issued, and `issue`.
abbrev pub LoadIds : Type 0
LoadIds = ℕ

unfoldable pub issue : LoadIds → LoadIds × LoadId
issue issued = let next = (issued + 1) % 2 ^ 64 in (next, next)
