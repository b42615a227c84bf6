-- ===== src/Daemon/State/Load.antt =====
-- nhop/src/daemon/state.rs and init_script.rs: a load from `reload` to `finish`, as one transaction.
use nhop.Common.{ℕ, true, Option, none, some, List, nat_eq, ◌≡◌, ◌≢◌, ◌⊎◌, ◌∙◌, ap, inl, inr, refl}
use nhop.Net.{Platform}
use nhop.Wire.{LoadOutcome}
use nhop.Cli.Status
use nhop.Cli.Status.{LastLoadView}
use nhop.Daemon.Reply.{ScriptOutcome}
use nhop.Daemon.Staging.{Staging, fresh, issue}
use nhop.Daemon.State.{DaemonState, InFlight, Machine, Effect, Settled, in_flight}
use nhop.Daemon.State.Handle.{reload, script_of}
use nhop.Daemon.State.Finish.{finish, settle}
use nhop.Daemon.State.Outcome.{Fails, Publishes, Keeps, settle-discards, settle-Settles}
use nhop.Daemon.State.Transaction.{
  Event, noticed_all, staged_by_all, step_all, during, step_all-during,
}
use nhop.Daemon.FailedCommand.{FailedCommand}

module _ {N : Type 0} (p : Platform N) where
  -- A script that `reload` starts, what happens while it runs, and its end.
  abbrev pub load :
      DaemonState N
      → Machine
      → Option Status.PathBuf
      → ℕ
      → List Event
      → Machine
      → ScriptOutcome
      → DaemonState N × Option Effect
  load s m path reply events m' outcome =
      finish m' (step_all p (reload p m s path reply).0 events) outcome

  -- The state, with the verdicts that are written while the run is in flight.
  abbrev pub judged : DaemonState N → List Event → DaemonState N
  judged s events = record s { verdicts = noticed_all events s.verdicts }

  -- The state in which the run of `script` began, but for the run.
  abbrev pub started : DaemonState N → Status.PathBuf → DaemonState N
  started s script = record s {
    load_ids = (issue s.load_ids).0;
    init_path = some script;
    load = none;
  }

  abbrev pub ended_as : Machine → Settled → LastLoadView
  ended_as m settled = record { at = m.now; outcome = settled.outcome; command = settled.command }

  abbrev pub recorded : Machine → DaemonState N × Settled → DaemonState N
  recorded m (s, settled) = record s { last_load = some (ended_as m settled) }

  abbrev pub first_run : DaemonState N → ℕ → InFlight N
  first_run s reply = record { id = (issue s.load_ids).1; staged = fresh; reply = reply }

  reload-during :
      (s : DaemonState N) (m : Machine) (path : Option Status.PathBuf) (reply : ℕ)
      → in_flight s ≡ none
      → m.is_file (script_of p m s path) ≡ true
      → (reload p m s path reply).0
        ≡ during p (started s (script_of p m s path)) (first_run s reply)
  unfolding reload
  reload-during s m path reply idle file = rw (idle, reload) (rw file refl)

  pub load-settle :
      (s : DaemonState N) (m : Machine) (path : Option Status.PathBuf) (reply : ℕ)
      (events : List Event) (m' : Machine) (outcome : ScriptOutcome)
      → in_flight s ≡ none
      → m.is_file (script_of p m s path) ≡ true
      → (load s m path reply events m' outcome).0
        ≡ recorded m' (
            settle m'
              (started (judged s events) (script_of p m s path))
              (staged_by_all p (issue s.load_ids).1 events fresh)
              outcome)
  unfolding finish
  load-settle s m path reply events m' outcome idle file =
      rw (reload-during s m path reply idle file)
        (rw (step_all-during p (started s (script_of p m s path)) (first_run s reply) events) refl)

  -- Everything that a load changes when it fails: the script it remembers, the identifier it used
  -- and the record of how it ended. What serves is as it was.
  pub record Discards (s : DaemonState N) (script : Status.PathBuf) (s' : DaemonState N)
      : Type 0 where
    pub ended : LastLoadView
    pub failed : ended.outcome ≢ LoadOutcome.ok
    pub state : s' ≡ record (started s script) { last_load = some ended }

  module _ (s : DaemonState N) (m : Machine) (path : Option Status.PathBuf) (reply : ℕ)
      (events : List Event) (m' : Machine) (outcome : ScriptOutcome) where
    abbrev pub script : Status.PathBuf
    script = script_of p m s path

    abbrev pub staged : Staging N
    staged = staged_by_all p (issue s.load_ids).1 events fresh

    -- What serves when it ends, before its outcome counts.
    abbrev pub serving : DaemonState N
    serving = judged s events

    -- From a state with no run in flight, with a script that is a file: a load of a script that
    -- does not end well, or with a command of it rejected, changes the script remembered, the
    -- identifier last issued and the record of the load, which is not ok; all else is as it was
    -- when the script ended.
    pub load-Discards :
        in_flight s ≡ none
        → m.is_file script ≡ true
        → Fails staged outcome
        → Discards serving script (load s m path reply events m' outcome).0
    load-Discards idle file fails =
        let (same, failed) = settle-discards m' (started serving script) staged outcome fails in
        let ended = ended_as m' (settle m' (started serving script) staged outcome).1 in
        record {
          ended = ended;
          failed = failed;
          state =
              load-settle s m path reply events m' outcome idle file
              ∙ ap (λ (t : DaemonState N). record t { last_load = some ended }) same;
        }

    -- After a load, what routes is what it staged where it is recorded as ok, and what was there
    -- before where it is not.
    abbrev pub Routes : DaemonState N → Type 0
    Routes s' =
        (ended : LastLoadView) × (s'.last_load ≡ some ended)
        × (((ended.outcome ≡ LoadOutcome.ok) × Publishes m' serving staged.rules staged.upstream s')
            ⊎ ((ended.outcome ≢ LoadOutcome.ok) × Keeps m' serving s'))

    -- From a state with no run in flight, with a script that is a file: after a load, whatever was
    -- asked and judged meanwhile and however the script ended, either it is recorded as ok and the
    -- rules and the upstreams are those that the commands of the run staged, adopted over the list
    -- that served, or it is not recorded as ok and the rules, the upstreams and the verdicts are
    -- those that served when it ended.
    pub load-Routes :
        in_flight s ≡ none
        → m.is_file script ≡ true
        → Routes (load s m path reply events m' outcome).0
    load-Routes idle file = rw (load-settle s m path reply events m' outcome idle file) (
      ended_as m' (settle m' (started serving script) staged outcome).1,
      refl,
      elim (settle-Settles m' (started serving script) staged outcome) [
        | inl (ok, h) ↦
            inl (
              ok,
              record { published = h.published; verdicts = h.verdicts; upstreams = h.upstreams },
            )
        | inr (failed, h) ↦
            inr (failed, record { rules = h.rules; verdicts = h.verdicts; upstreams = h.upstreams })
      ],
    )
