-- ===== src/Daemon/State/Transaction.antt =====
-- nhop/src/daemon/state.rs: a load as one transaction. What the commands of a run stage is defined
-- apart from the handlers, and the handlers are shown to do that and nothing else.
use nhop.Common.{
  ℕ, Bool, false, Option, none, some, List, [], ◌∷◌, ◌==◌, nat_eq, if◌then◌else◌, ◌≡◌, refl, inl,
  inr, Bool-cases,
}
use nhop.Net.{Platform}
use nhop.Wire.{Command, HealthState, LoadId}
use nhop.Upstream.Health.{HealthHandle, VerdictCause, SystemTime, Verdicts, set_at}
use nhop.Daemon.Staging
use nhop.Daemon.Staging.{issue, Staging}
use nhop.Daemon.State.{DaemonState, InFlight, Machine, target, dispatched, apply_staged, in_flight}
use nhop.Daemon.Reply.{Response}
use nhop.Daemon.State.Handle.{
  handle, add_rule, clear_rules, set_upstream, set_listen, add_forward, reload, turn_off,
}

-- One request, with what the machine answers while it is handled.
pub record Request : Type 0 where
  pub machine : Machine
  pub command : Command
  pub reply : ℕ

abbrev pub carries : Option LoadId → LoadId → Bool
carries none id = false
carries (some carried) id = carried == id

-- What happens while a run is in flight: a request is handled, or a dial or the patrol writes a
-- verdict, between two requests.
pub data Event : Type 0 where
  asked : Request → Event
  noticed : HealthHandle → HealthState → VerdictCause → SystemTime → Event

-- The store after the verdicts written.
abbrev pub noticed_all : List Event → Verdicts → Verdicts
noticed_all [] v = v
noticed_all (asked r ∷ events) v = noticed_all events v
noticed_all (noticed handle state cause at ∷ events) v =
    noticed_all events (set_at v handle state cause at).0

module _ {N : Type 0} (p : Platform N) where
  -- What a command adds to the run `id`.
  abbrev pub staged_by : LoadId → Command → Staging N → Staging N
  staged_by id (Command.add_rule class kind value load) st =
      if carries load id then (Staging.push_rule p st class kind value).0 else st
  staged_by id (Command.clear_rules load) st =
      if carries load id then Staging.clear_rules st else st
  staged_by id (Command.set_upstream addr load) st =
      if carries load id then (Staging.set_upstream p st addr []).0 else st
  staged_by id (Command.set_upstreams addr fallbacks load) st =
      if carries load id then (Staging.set_upstream p st addr fallbacks).0 else st
  staged_by id (Command.set_listen http socks load) st =
      if carries load id then Staging.set_listen st (record { http = http; socks = socks }) else st
  staged_by id (Command.add_forward at host port load) st =
      if carries load id
      then (Staging.push_forward st
          (record { listen = at; target = record { host = host; port = port } })).0
      else st
  staged_by id (Command.reload path) st = st
  staged_by id Command.on st = st
  staged_by id Command.off st = st
  staged_by id Command.status st = st
  staged_by id Command.rules st = st
  staged_by id (Command.test host port) st = st
  staged_by id Command.doctor st = st
  staged_by id Command.subscribe st = st

  abbrev pub staged_by_all : LoadId → List Event → Staging N → Staging N
  staged_by_all id [] st = st
  staged_by_all id (asked r ∷ events) st = staged_by_all id events (staged_by id r.command st)
  staged_by_all id (noticed handle state cause at ∷ events) st = staged_by_all id events st

  abbrev pub step : DaemonState N → Event → DaemonState N
  step s (asked r) = (handle p r.machine s r.command r.reply).0
  step s (noticed handle state cause at) = record s {
    verdicts = (set_at s.verdicts handle state cause at).0;
  }

  abbrev pub step_all : DaemonState N → List Event → DaemonState N
  step_all s [] = s
  step_all s (event ∷ events) = step_all (step s event) events

  abbrev pub during : DaemonState N → InFlight N → DaemonState N
  during s run = record s { load = some run }

  abbrev pub with_staged : InFlight N → Staging N → InFlight N
  with_staged run st = record run { staged = st }

  dispatched-during :
      (s : DaemonState N) (run : InFlight N) (load : Option LoadId)
      (apply : Staging N → Staging N × Response) (applied : DaemonState N × Response)
      → (dispatched (during s run) (target (during s run) load) apply applied).0
        ≡ during s
            (with_staged run (if carries load run.id then (apply run.staged).0 else run.staged))
  unfolding target apply_staged in_flight
  dispatched-during s run none apply applied = refl
  dispatched-during s run (some carried) apply applied = elim (Bool-cases (carried == run.id)) [
    | inl e ↦ rw e refl
    | inr e ↦ rw e refl
  ]

  -- During a run, whatever the command, the one change is to what the run has staged.
  pub handle-during :
      (m : Machine) (s : DaemonState N) (run : InFlight N) (c : Command) (reply : ℕ)
      → (handle p m (during s run) c reply).0
        ≡ during s (with_staged run (staged_by run.id c run.staged))
  unfolding handle add_rule clear_rules set_upstream set_listen add_forward reload turn_off
      in_flight
  handle-during m s run (Command.add_rule class kind value load) reply =
      dispatched-during s run load _ _
  handle-during m s run (Command.clear_rules load) reply = dispatched-during s run load _ _
  handle-during m s run (Command.set_upstream addr load) reply = dispatched-during s run load _ _
  handle-during m s run (Command.set_upstreams addr fallbacks load) reply =
      dispatched-during s run load _ _
  handle-during m s run (Command.set_listen http socks load) reply =
      dispatched-during s run load _ _
  handle-during m s run (Command.add_forward at host port load) reply =
      dispatched-during s run load _ _
  handle-during m s run (Command.reload path) reply = refl
  handle-during m s run Command.on reply = refl
  handle-during m s run Command.off reply = refl
  handle-during m s run Command.status reply = refl
  handle-during m s run Command.rules reply = refl
  handle-during m s run (Command.test host port) reply = refl
  handle-during m s run Command.doctor reply = refl
  handle-during m s run Command.subscribe reply = refl

  -- Whatever happens while a run is in flight, in whatever order, the state differs at the end by
  -- the verdicts written meanwhile and by what the commands that carry the run staged, in the
  -- order sent.
  pub step_all-during :
      (s : DaemonState N) (run : InFlight N) (events : List Event)
      → step_all (during s run) events
        ≡ during
            (record s { verdicts = noticed_all events s.verdicts })
            (with_staged run (staged_by_all run.id events run.staged))
  step_all-during s run [] = refl
  step_all-during s run (asked r ∷ events) =
      rw (handle-during r.machine s run r.command r.reply)
        (step_all-during s (with_staged run (staged_by run.id r.command run.staged)) events)
  step_all-during s run (noticed handle state cause at ∷ events) =
      step_all-during (record s { verdicts = (set_at s.verdicts handle state cause at).0 }) run
        events
