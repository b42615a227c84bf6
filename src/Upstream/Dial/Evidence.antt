-- ===== src/Upstream/Dial/Evidence.antt =====
-- nhop/src/upstream/mod.rs: which verdict a dial of a require rule writes.
use nhop.Common.{◌≡◌, Option, none, some, arith, Result, ok, err}
use nhop.Wire.{HealthState, up, down, Host, Port}
use nhop.Rules.Decision.{RuleId}
use nhop.Proxy.Failure.{Stream}
use nhop.Upstream.Health
use nhop.Upstream.Health.{Verdicts, VerdictCause, SystemTime, Duration}
use nhop.Upstream.Entries.{UpstreamEntry}
use nhop.Upstream.Dial.{
  Network, UpstreamBudget, DialFailure, upstream, destination, unsent, through, observed, required,
}

-- What the outcome of a dial says of the upstream: a connection or a reply that it serves, a
-- failure to obtain a reply that it does not, and a dial that was never sent nothing.
abbrev pub evidence : Result DialFailure Stream → Option HealthState
evidence (ok stream) = some up
evidence (err (destination failure)) = some up
evidence (err (unsent failure)) = none
evidence (err (upstream failure)) = some down

abbrev pub judged : Verdicts → UpstreamEntry → SystemTime → Option HealthState → Verdicts
judged v entry now none = v
judged v entry now (some s) = (Health.set v entry.health s VerdictCause.dial now).0

-- The verdict that a require dial through an entry writes is what its outcome shows.
pub required-judged :
    (net : Network) (host : Host) (port : Port) (v : Verdicts) (now : SystemTime) (rule : RuleId)
    (entry : UpstreamEntry)
    → (required net host port v now rule (some entry)).0
      ≡ judged v entry now
          (evidence (through net host port entry.upstream.socket UpstreamBudget.require))
unfolding required observed
required-judged net host port v now rule entry = ground arith
