-- ===== src/Daemon/State/Finish.antt =====
-- nhop/src/daemon/state.rs: how a run of the init script ends.
use nhop.Common.{Option, none, some, nat_eq, Result, ok, err}
use nhop.Text.{Text}
use nhop.Wire.{ErrKind, LoadOutcome}
use nhop.Rules.Ruleset.{Ruleset}
use nhop.Proxy.Failure.{IoError}
use nhop.Proxy.Forwards.{Listen}
use nhop.Proxy.Upstreams.{Upstreams}
use nhop.Cli.Status.{LastLoadView}
use nhop.Daemon.FailedCommand.{FailedCommand, name}
use nhop.Daemon.Reply.{Message, Response, ScriptOutcome}
use nhop.Daemon.Staging.{Staging, Committed, commit}
use nhop.Daemon.State.{
  DaemonState, InFlight, Machine, Effect, Settled, CannotBind, bind_command, bind_message,
}
use nhop.Daemon.State.Publish.{adopt_upstream, rebind, rebind_forwards}
use nhop.Daemon.State.Report.{report}

abbrev pub named : Option FailedCommand → Option Text
named none = none
named (some failed) = some (name failed)

abbrev pub failed_on : FailedCommand → Message → Settled
failed_on command message = record {
  outcome = LoadOutcome.failed;
  command = some (name command);
  message = some message;
}

module _ {N : Type 0} (m : Machine) where
  unfoldable pub publish : DaemonState N → Ruleset N → Option Upstreams → DaemonState N
  unfolding adopt_upstream
  publish s rules upstream = adopt_upstream m (record s { rules = rules }) upstream

  abbrev pub moved_first : DaemonState N → Option Listen → DaemonState N × Result IoError (Unit {0})
  moved_first s none = (s, ok tt)
  moved_first s (some listen) = rebind m s listen

  abbrev pub published_run :
      Committed N
      → DaemonState N × Result IoError (Unit {0})
      → DaemonState N × Result CannotBind (Unit {0})
  published_run c (s, err failure) = (s, err (CannotBind.forward failure))
  published_run c (s, ok _) = (publish s c.rules c.upstream, ok tt)

  abbrev pub opened_run :
      Committed N
      → DaemonState N × Result IoError (Unit {0})
      → DaemonState N × Result CannotBind (Unit {0})
  opened_run c (s, err failure) = (s, err (CannotBind.front_ends failure))
  opened_run c (s, ok _) = published_run c (rebind_forwards m s c.forwards)

  unfoldable pub commit_run :
      DaemonState N → Committed N → DaemonState N × Result CannotBind (Unit {0})
  unfolding publish rebind rebind_forwards
  commit_run s c = opened_run c (moved_first s c.listen)

  -- What a run of a script that succeeded settles as, with no command of it rejected.
  abbrev pub committed : DaemonState N × Result CannotBind (Unit {0}) → DaemonState N × Settled
  committed (s, ok _) = (s, record { outcome = LoadOutcome.ok; command = none; message = none })
  committed (s, err failure) = (s, failed_on (bind_command failure) (bind_message failure))

  -- What a run of a script that succeeded settles as, by the command it was rejected on.
  abbrev pub settle_succeeded :
      DaemonState N → Staging N → Option FailedCommand → DaemonState N × Settled
  settle_succeeded s staged none = committed (commit_run s (commit staged))
  settle_succeeded s staged (some failed) = (s, failed_on failed (Message.rejected_on failed))

  unfoldable pub settle : DaemonState N → Staging N → ScriptOutcome → DaemonState N × Settled
  unfolding commit_run commit
  settle s staged ScriptOutcome.succeeded = settle_succeeded s staged staged.failed
  settle s staged (ScriptOutcome.exited code) = (
    s,
    record {
      outcome = LoadOutcome.failed;
      command = named staged.failed;
      message = some (Message.discarded code);
    },
  )
  settle s staged ScriptOutcome.timed_out = (
    s,
    record {
      outcome = LoadOutcome.timed_out;
      command = none;
      message = some (Message.outlived s.load_timeout);
    },
  )
  settle s staged (ScriptOutcome.not_run failure) = (
    s,
    record {
      outcome = LoadOutcome.failed;
      command = none;
      message = some (Message.script_not_run failure);
    },
  )

  abbrev pub finished_run :
      DaemonState N → InFlight N → DaemonState N × Settled → DaemonState N × Option Effect
  finished_run s run (s', settled) =
      let view : LastLoadView = record {
        at = m.now;
        outcome = settled.outcome;
        command = settled.command;
      } in
      let s'' = record s' { last_load = some view } in
      (
        s'',
        elim settled.message [
          | none ↦ some (report m s'' run.reply)
          | some message ↦ some (Effect.answered run.reply (Response.err ErrKind.internal message))
        ],
      )

  -- What follows `self.load.take()`.
  abbrev pub finish_run :
      DaemonState N → Option (InFlight N) → ScriptOutcome → DaemonState N × Option Effect
  finish_run s none outcome = (s, none)
  finish_run s (some run) outcome =
      finished_run s run (settle (record s { load = none }) run.staged outcome)

  unfoldable pub finish : DaemonState N → ScriptOutcome → DaemonState N × Option Effect
  unfolding settle report
  finish s outcome = finish_run s s.load outcome
