-- ===== src/Upstream/Dial.antt =====
-- nhop/src/upstream/mod.rs: the dials that a decision leads to. What the network answers is a
-- parameter; what a dial writes is the verdict of the entry that it was made against.
pub mod Evidence
pub mod Way
pub mod Recovery
use nhop.Common.{
  ℕ, Option, none, some, Bool, true, false, List, [], ◌∷◌, leb, if◌then◌else◌, Result, ok, err,
}
use nhop.Net.{SocketAddr}
use nhop.Wire.{EffectiveHop, HealthState, Host, Port, RuleClass, UpstreamAddr}
use nhop.Rules.Decision.{Decision, RuleId}
use nhop.Proxy.Failure.{
  Stream, SocksError, UpstreamDown, IoError, timed_out, upstream_down, no_upstream, Dialled,
}
use nhop.Upstream.Health
use nhop.Upstream.Health.{Verdicts, Turnover, VerdictCause, SystemTime, Duration}
use nhop.Upstream.Entries
use nhop.Upstream.Entries.{UpstreamEntry, UpstreamEntries, entry_at}
use nhop.Upstream.Select.{seconds}
use nhop.Upstream.Selection.{Shared, Observed, SwitchLine, observe}

pub data UpstreamBudget : Type 0 where
  prefer require : UpstreamBudget

abbrev pub prefer_connect_timeout : Duration
prefer_connect_timeout = seconds 2

abbrev pub require_connect_timeout : Duration
require_connect_timeout = seconds 10

unfoldable pub allowance : UpstreamBudget → Duration
allowance UpstreamBudget.prefer = prefer_connect_timeout
allowance UpstreamBudget.require = require_connect_timeout

-- A SOCKS5 handshake as it runs with no time limit.
pub data Answer : Type 0 where
  silent : Answer
  answers : Duration → Result SocksError Stream → Answer

-- The network while a connection is dialled.
pub record Network : Type 0 where
  pub socks : SocketAddr → Host → Port → Answer
  pub connect : Host → Port → Result IoError Stream

pub data DialFailure : Type 0 where
  upstream destination unsent : IoError → DialFailure

unfoldable pub failed_dial : SocksError → DialFailure
failed_dial SocksError.general_socks_server_failure =
    destination (IoError.socks SocksError.general_socks_server_failure)
failed_dial SocksError.connection_not_allowed_by_ruleset =
    destination (IoError.socks SocksError.connection_not_allowed_by_ruleset)
failed_dial SocksError.network_unreachable =
    destination (IoError.socks SocksError.network_unreachable)
failed_dial SocksError.host_unreachable = destination (IoError.socks SocksError.host_unreachable)
failed_dial SocksError.connection_refused =
    destination (IoError.socks SocksError.connection_refused)
failed_dial SocksError.ttl_expired = destination (IoError.socks SocksError.ttl_expired)
failed_dial SocksError.address_type_not_supported =
    destination (IoError.socks SocksError.address_type_not_supported)
failed_dial SocksError.command_not_supported =
    destination (IoError.socks SocksError.command_not_supported)
failed_dial SocksError.unknown_auth_method =
    destination (IoError.socks SocksError.unknown_auth_method)
failed_dial SocksError.invalid_target_address =
    unsent (IoError.socks SocksError.invalid_target_address)
failed_dial failure = upstream (IoError.socks failure)

-- `tokio::time::timeout` over a handshake: what comes in time, or nothing.
unfoldable pub within : Duration → Answer → Option (Result SocksError Stream)
within budget silent = none
within budget (answers after reached) = if leb after budget then some reached else none

unfoldable pub dial_outcome :
    SocketAddr → Duration → Option (Result SocksError Stream) → Result DialFailure Stream
unfolding failed_dial
dial_outcome socket budget none = err (upstream (timed_out socket budget))
dial_outcome socket budget (some (err failure)) = err (failed_dial failure)
dial_outcome socket budget (some (ok stream)) = ok stream

-- `observed`
unfoldable pub observed :
    Verdicts → UpstreamEntry → HealthState → SystemTime → Verdicts × Option Turnover
observed v dialled state now = Health.set v dialled.health state VerdictCause.dial now

abbrev pub carried : UpstreamEntry → Option UpstreamAddr
carried dialled = some dialled.upstream.written

module _ (net : Network) (host : Host) (port : Port) where
  unfoldable pub direct : Result IoError Stream
  direct = net.connect host port

  unfoldable pub through : SocketAddr → UpstreamBudget → Result DialFailure Stream
  unfolding dial_outcome within allowance
  through socket budget =
      dial_outcome socket (allowance budget)
        (within (allowance budget) (net.socks socket host port))

  -- `v` is the store, and `now` the clock, when the handshake has ended.
  unfoldable pub required :
      Verdicts → SystemTime → RuleId → Option UpstreamEntry → Verdicts × Option Turnover × Dialled
  required v now rule none =
      (v, none, Dialled.refused (upstream_down (record { addr = no_upstream; rule = rule })))
  required v now rule (some dialled) =
      let socket = dialled.upstream.socket in
      let reply = λ (next : Result IoError Stream).
        Dialled.attempted EffectiveHop.upstream (carried dialled) next in
      elim (through socket UpstreamBudget.require) [
        | ok next ↦
            let (v', line) = observed v dialled HealthState.up now in (v', line, reply (ok next))
        | err (destination failure) ↦
            let (v', line) = observed v dialled HealthState.up now in
            (v', line, reply (err failure))
        | err (unsent failure) ↦ (v, none, reply (err failure))
        | err (upstream failure) ↦
            let (v', line) = observed v dialled HealthState.down now in
            (v', line, reply (err (upstream_down (record { addr = socket; rule = rule }))))
      ]

  unfoldable pub fallen_back : Dialled
  unfolding direct
  fallen_back = Dialled.attempted EffectiveHop.fallback_direct none direct

  unfoldable pub preferred :
      Verdicts → SystemTime → Option UpstreamEntry → Verdicts × Option Turnover × Dialled
  unfolding fallen_back
  preferred v now none = (v, none, fallen_back)
  preferred v now (some dialled) = elim (through dialled.upstream.socket UpstreamBudget.prefer) [
    | ok next ↦
        let (v', line) = observed v dialled HealthState.up now in
        (v', line, Dialled.attempted EffectiveHop.upstream (carried dialled) (ok next))
    | err (destination failure) ↦
        let (v', line) = observed v dialled HealthState.up now in (v', line, fallen_back)
    | err (unsent failure) ↦ (v, none, fallen_back)
    | err (upstream failure) ↦
        let (v', line) = observed v dialled HealthState.down now in (v', line, fallen_back)
  ]

  abbrev went_direct : Verdicts → Verdicts × Option Turnover × Dialled
  went_direct v = (v, none, Dialled.attempted EffectiveHop.direct none direct)

  -- `v₀` is the store, and `began` the clock, when the snapshot is taken.
  unfoldable pub routed :
      Duration
      → Verdicts
      → SystemTime
      → Observed
      → Shared
      → Verdicts
      → SystemTime
      → RuleClass
      → RuleId
      → Observed × Option SwitchLine × (Verdicts × Option Turnover × Dialled)
  unfolding direct
  routed hold v₀ began seen shared v now class rule =
      let selected = Entries.selected v₀ shared.list began hold in
      let (seen', line) = observe v₀ seen shared selected in
      (
        seen',
        line,
        elim class [
          | RuleClass.never ↦ went_direct v
          | RuleClass.require ↦ required v now rule (Entries.required shared.list selected)
          | RuleClass.prefer ↦ preferred v now (entry_at shared.list selected)
        ],
      )

  unfoldable pub dial :
      Duration
      → Verdicts
      → SystemTime
      → Observed
      → Shared
      → Verdicts
      → SystemTime
      → Decision
      → Observed × Option SwitchLine × (Verdicts × Option Turnover × Dialled)
  unfolding direct routed
  dial hold v₀ began seen shared v now Decision.direct = (seen, none, went_direct v)
  dial hold v₀ began seen shared v now (Decision.never rule) = (seen, none, went_direct v)
  dial hold v₀ began seen shared v now (Decision.upstream class rule) =
      routed hold v₀ began seen shared v now class rule

-- `UpstreamHop::verdict`
unfoldable pub hop_verdict : Verdicts → UpstreamEntries → SystemTime → Duration → HealthState
hop_verdict v list now hold = elim (Entries.selected v list now hold) [
  | none ↦ HealthState.down
  | some index ↦ HealthState.up
]
