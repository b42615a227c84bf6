-- ===== src/Daemon/State.antt =====
-- nhop/src/daemon/state.rs: the task that owns the daemon's state. A request's reply channel is the
-- number that names it, and a handler returns what it sends or starts.
pub mod Publish
pub mod Report
pub mod Handle
pub mod Finish
pub mod Transaction
pub mod Load
pub mod Sound
pub mod Preserved
pub mod Invariant
pub mod Reachable
pub mod Granted
pub mod Refusal
pub mod Rejection
pub mod Outcome
use nhop.Common.{ℕ, Bool, Option, none, some, ◌==◌, nat_eq, if◌then◌else◌}
use nhop.Net.{SocketAddr}
use nhop.Text.{Text}
use nhop.Wire.{ErrKind, LoadId, LoadOutcome}
use nhop.Rules.Ruleset.{Ruleset}
use nhop.Proxy.Failure.{IoError}
use nhop.Proxy.Forwards.{Forwards, Listen}
use nhop.Upstream.Health.{HealthHandle, Health, Verdicts, SystemTime, Duration}
use nhop.Upstream.Entries.{UpstreamEntries}
use nhop.Cli.Status.{PathBuf, BindState, DaemonStatus, LastLoadView}
use nhop.Daemon.FailedCommand.{FailedCommand}
use nhop.Daemon.Reply.{Message, Response, in_progress}
use nhop.Daemon.Staging.{Staging, LoadIds}
use nhop.Daemon.Frontends.{Frontends, Binds}

pub record InFlight (N : Type 0) : Type 0 where
  pub id : LoadId
  pub staged : Staging N
  pub reply : ℕ

pub data Target : Type 0 where
  staged live : Target
  refused : Response → Target

pub record Settled : Type 0 where
  pub outcome : LoadOutcome
  pub command : Option Text
  pub message : Option Message

pub data CannotBind : Type 0 where
  front_ends forward : IoError → CannotBind

unfoldable pub bind_command : CannotBind → FailedCommand
bind_command (front_ends failure) = FailedCommand.set_listen
bind_command (forward failure) = FailedCommand.add_forward

unfoldable pub bind_message : CannotBind → Message
bind_message (front_ends failure) = Message.script_cannot_move failure
bind_message (forward failure) = Message.script_cannot_open failure

-- `live` is `rules` and `upstreams`; the verdicts are the store that the published handles are in.
pub record DaemonState (N : Type 0) : Type 0 where
  pub rules : Ruleset N
  pub upstreams : UpstreamEntries
  pub verdicts : Verdicts
  pub frontends : Frontends
  pub http_listen : SocketAddr
  pub socks_listen : SocketAddr
  pub forwards : Forwards
  pub unconfigured : Health
  pub init_path : Option PathBuf
  pub last_load : Option LastLoadView
  pub load_ids : LoadIds
  pub load : Option (InFlight N)
  pub load_timeout : Duration
  pub hold : Duration

-- What the machine answers while one request is handled: the clock, and the clock as each fresh
-- handle reads it, `is_file`, the binds, the seconds since the start, and the default script.
pub record Machine : Type 0 where
  pub now : SystemTime
  pub judged_at : HealthHandle → SystemTime
  pub is_file : PathBuf → Bool
  pub binds : Binds
  pub uptime_secs : ℕ
  pub init_file : PathBuf

-- What a handler sends or starts.
pub data Effect : Type 0 where
  answered : ℕ → Response → Effect
  running : PathBuf → LoadId → Duration → Effect
  reporting : ℕ → DaemonStatus → Effect
  diagnosing : ℕ → Listen → Forwards → BindState → Option LastLoadView → UpstreamEntries → Effect

abbrev pub target_with : Option LoadId → Option LoadId → Target
target_with none none = live
target_with none (some stale) = refused (in_progress (Message.run_gone stale))
target_with (some id) (some carried) =
    if carried == id then staged else refused (in_progress (Message.other_run id carried))
target_with (some id) none = refused (in_progress (Message.run_in_progress id))

module _ {N : Type 0} where
  abbrev pub run_id : Option (InFlight N) → Option LoadId
  run_id none = none
  run_id (some run) = some run.id

  unfoldable pub in_flight : DaemonState N → Option LoadId
  in_flight s = run_id s.load

  unfoldable pub target : DaemonState N → Option LoadId → Target
  unfolding in_flight
  target s load = target_with (in_flight s) load

  abbrev pub staged_in :
      DaemonState N
      → Option (InFlight N)
      → (Staging N → Staging N × Response)
      → DaemonState N × Response
  staged_in s none apply = (s, Response.err ErrKind.internal Message.vanished)
  staged_in s (some run) apply =
      let (staged', response) = apply run.staged in
      (record s { load = some (record run { staged = staged' }) }, response)

  -- `staged`: what is applied to the run in flight.
  unfoldable pub apply_staged :
      DaemonState N → (Staging N → Staging N × Response) → DaemonState N × Response
  apply_staged s apply = staged_in s s.load apply

  -- A command that changes the state: refused, staged, or applied at once.
  abbrev pub dispatched :
      DaemonState N
      → Target
      → (Staging N → Staging N × Response)
      → DaemonState N × Response
      → DaemonState N × Response
  dispatched s (refused refusal) apply applied = (s, refusal)
  dispatched s staged apply applied = apply_staged s apply
  dispatched s live apply applied = applied
