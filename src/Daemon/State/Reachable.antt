-- ===== src/Daemon/State/Reachable.antt =====
-- nhop/src/daemon/state.rs: the daemon's state as a state machine, and what is reached from its
-- start.
use nhop.Common.{
  ℕ, Option, none, some, [], Result, ok, err, ◌≡◌, refl, subst, sym, inl, inr, Bool-cases,
  Option-cases,
}
use nhop.Net.{Platform}
use nhop.Wire.{Command, HealthState}
use nhop.Cli.Status
use nhop.Proxy.Failure.{IoError}
use nhop.Proxy.Forwards.{Listen}
use nhop.Upstream.Health.{HealthHandle, VerdictCause, SystemTime, set_at}
use nhop.Daemon.FailedCommand.{FailedCommand}
use nhop.Daemon.Reply.{ScriptOutcome}
use nhop.Daemon.Staging.{Staging, commit}
use nhop.Daemon.State.{DaemonState, InFlight, Machine, Settled, CannotBind, in_flight}
use nhop.Daemon.State.Publish.{rebind_forwards}
use nhop.Daemon.State.Handle.{handle, reload, turn_off, script_of}
use nhop.Daemon.State.Finish.{
  finish_run, settle_succeeded, finish, finished_run, settle, committed, commit_run, moved_first,
  opened_run, published_run, publish,
}
use nhop.Daemon.State.Transaction.{Event, asked, noticed, step}
use nhop.Daemon.State.Sound.{StagedIsSound, RunIsSound, IsSound}
use nhop.Daemon.State.Preserved.{
  fresh-IsSound, rebind-IsSound, rebind_forwards-IsSound, adopt_upstream-IsSound,
}
use nhop.Daemon.State.Invariant.{
  ruled-IsSound, add_rule-IsSound, clear_rules-IsSound, set_upstream-IsSound, set_listen-IsSound,
  add_forward-IsSound,
}

module _ {N : Type 0} where
  idle-IsSound : (s : DaemonState N) → IsSound s → IsSound (record s { load = none })
  idle-IsSound s h = record {
    numbered = h.numbered;
    published = h.published;
    forwards = h.forwards;
    run = tt;
  }

  turn_off-IsSound : (s : DaemonState N) → IsSound s → IsSound (turn_off s).0
  unfolding turn_off
  turn_off-IsSound s h = elim (Option-cases (in_flight s)) [
    | inl e ↦ subst (λ (t : DaemonState N). IsSound t) (sym (ap_off e)) (ruled-IsSound s [] h tt)
    | inr (id, e) ↦ rw (e, turn_off) h
  ]
    where
      ap_off : in_flight s ≡ none → (turn_off s).0 ≡ record s { rules = [] }
      ap_off e = rw (e, turn_off) refl

module _ {N : Type 0} (p : Platform N) (m : Machine) where
  reload-IsSound :
      (s : DaemonState N) (path : Option Status.PathBuf) (reply : ℕ)
      → IsSound s
      → IsSound (reload p m s path reply).0
  unfolding reload
  reload-IsSound s path reply h = elim (Option-cases (in_flight s)) [
    | inr (id, e) ↦ rw (e, reload) h
    | inl e ↦ elim (Bool-cases (m.is_file (script_of p m s path))) [
      | inr missing ↦ rw (e, reload) (rw missing h)
      | inl there ↦
          rw (e, reload)
            (rw there (record {
              numbered = h.numbered;
              published = h.published;
              forwards = h.forwards;
              run = fresh-IsSound p;
            }))
    ]
  ]

  pub handle-IsSound :
      (s : DaemonState N) (c : Command) (reply : ℕ) → IsSound s → IsSound (handle p m s c reply).0
  unfolding handle
  handle-IsSound s (Command.add_rule class kind value load) reply h =
      add_rule-IsSound p m s class kind value load h
  handle-IsSound s (Command.clear_rules load) reply h = clear_rules-IsSound p m s load h
  handle-IsSound s (Command.set_upstream addr load) reply h =
      set_upstream-IsSound p m s addr [] load h
  handle-IsSound s (Command.set_upstreams addr fallbacks load) reply h =
      set_upstream-IsSound p m s addr fallbacks load h
  handle-IsSound s (Command.set_listen http socks load) reply h = set_listen-IsSound p m s _ load h
  handle-IsSound s (Command.add_forward at host port load) reply h =
      add_forward-IsSound p m s _ load h
  handle-IsSound s (Command.reload path) reply h = reload-IsSound s path reply h
  handle-IsSound s Command.on reply h = reload-IsSound s none reply h
  handle-IsSound s Command.off reply h = turn_off-IsSound s h
  handle-IsSound s Command.status reply h = h
  handle-IsSound s Command.rules reply h = h
  handle-IsSound s (Command.test host port) reply h = h
  handle-IsSound s Command.doctor reply h = h
  handle-IsSound s Command.subscribe reply h = h

module _ {N : Type 0} (m : Machine) where
  published_run-IsSound :
      (st : Staging N) (r : DaemonState N × Result IoError (Unit {0}))
      → StagedIsSound st
      → IsSound r.0
      → IsSound (published_run m (commit st) r).0
  unfolding commit publish
  published_run-IsSound st (s, ok _) k h =
      adopt_upstream-IsSound m (record s { rules = st.rules }) st.upstream
        (ruled-IsSound s st.rules h k.numbered) k.upstream
  published_run-IsSound st (s, err failure) k h = h

  opened_run-IsSound :
      (st : Staging N) (r : DaemonState N × Result IoError (Unit {0}))
      → StagedIsSound st
      → IsSound r.0
      → IsSound (opened_run m (commit st) r).0
  unfolding commit
  opened_run-IsSound st (s, ok _) k h =
      published_run-IsSound st (rebind_forwards m s st.forwards) k
        (rebind_forwards-IsSound m s st.forwards h k.forwards)
  opened_run-IsSound st (s, err failure) k h = h

  moved_first-IsSound :
      (s : DaemonState N) (wanted : Option Listen) → IsSound s → IsSound (moved_first m s wanted).0
  moved_first-IsSound s none h = h
  moved_first-IsSound s (some wanted) h = rebind-IsSound m s wanted h

  committed-IsSound :
      (r : DaemonState N × Result CannotBind (Unit {0})) → IsSound r.0 → IsSound (committed m r).0
  committed-IsSound (s, ok _) h = h
  committed-IsSound (s, err failure) h = h

  settle_succeeded-IsSound :
      (s : DaemonState N) (st : Staging N) (failed : Option FailedCommand)
      → IsSound s
      → StagedIsSound st
      → IsSound (settle_succeeded m s st failed).0
  unfolding commit_run commit
  settle_succeeded-IsSound s st (some f) h k = h
  settle_succeeded-IsSound s st none h k =
      committed-IsSound (commit_run m s (commit st))
        (opened_run-IsSound st (moved_first m s st.listen) k (moved_first-IsSound s st.listen h))

  settle-IsSound :
      (s : DaemonState N) (st : Staging N) (outcome : ScriptOutcome)
      → IsSound s
      → StagedIsSound st
      → IsSound (settle m s st outcome).0
  unfolding settle
  settle-IsSound s st ScriptOutcome.succeeded h k = settle_succeeded-IsSound s st st.failed h k
  settle-IsSound s st (ScriptOutcome.exited code) h k = h
  settle-IsSound s st ScriptOutcome.timed_out h k = h
  settle-IsSound s st (ScriptOutcome.not_run failure) h k = h

  finished_run-IsSound :
      (s : DaemonState N) (run : InFlight N) (r : DaemonState N × Settled)
      → IsSound r.0
      → IsSound (finished_run m s run r).0
  finished_run-IsSound s run (s', settled) h = record {
    numbered = h.numbered;
    published = h.published;
    forwards = h.forwards;
    run = h.run;
  }

  finish_run-IsSound :
      (s : DaemonState N) (run : Option (InFlight N)) (outcome : ScriptOutcome)
      → IsSound s
      → RunIsSound run
      → IsSound (finish_run m s run outcome).0
  finish_run-IsSound s none outcome h k = h
  finish_run-IsSound s (some run) outcome h k =
      finished_run-IsSound s run (settle m (record s { load = none }) run.staged outcome)
        (settle-IsSound (record s { load = none }) run.staged outcome (idle-IsSound s h) k)

  pub finish-IsSound :
      (s : DaemonState N) (outcome : ScriptOutcome) → IsSound s → IsSound (finish m s outcome).0
  unfolding finish
  finish-IsSound s outcome h = finish_run-IsSound s s.load outcome h h.run

-- One step of the daemon: a request is handled or a verdict written, or a run ends.
pub data Step {N : Type 0} (p : Platform N) (s s' : DaemonState N) : Type 0 where
  happens : (event : Event) → s' ≡ step p s event → Step p s s'
  ends : (m : Machine) (outcome : ScriptOutcome) → s' ≡ (finish m s outcome).0 → Step p s s'

-- What is reached from a state by any number of steps.
pub data Reaches {N : Type 0} (p : Platform N) (s : DaemonState N) : DaemonState N → Type 0 where
  here : Reaches p s s
  next : {s₁ s₂ : DaemonState N} → Reaches p s s₁ → Step p s₁ s₂ → Reaches p s s₂

module _ {N : Type 0} (p : Platform N) where
  noticed-IsSound :
      (s : DaemonState N) (handle : HealthHandle) (state : HealthState) (cause : VerdictCause)
      (at : SystemTime)
      → IsSound s
      → IsSound (step p s (noticed handle state cause at))
  unfolding set_at
  noticed-IsSound s handle state cause at h = record {
    numbered = h.numbered;
    published = record {
      sockets = h.published.sockets;
      handles = h.published.handles;
      stored = h.published.stored;
    };
    forwards = h.forwards;
    run = h.run;
  }

  Step-IsSound : (s s' : DaemonState N) → Step p s s' → IsSound s → IsSound s'
  Step-IsSound s s' (happens (asked r) e) h =
      subst (λ (t : DaemonState N). IsSound t) (sym e)
        (handle-IsSound p r.machine s r.command r.reply h)
  Step-IsSound s s' (happens (noticed handle state cause at) e) h =
      subst (λ (t : DaemonState N). IsSound t) (sym e) (noticed-IsSound s handle state cause at h)
  Step-IsSound s s' (ends m outcome e) h =
      subst (λ (t : DaemonState N). IsSound t) (sym e) (finish-IsSound m s outcome h)

  -- Every state reached from a sound one by requests, verdicts written and ends of runs is sound:
  -- rule identifiers are positions, the upstream list names no address and no handle twice and has
  -- a verdict for each entry, no two forwards share an address, and what a run has staged numbers
  -- its rules and names no address twice.
  pub Reaches-IsSound : {s s' : DaemonState N} → Reaches p s s' → IsSound s → IsSound s'
  Reaches-IsSound here h = h
  Reaches-IsSound (next {s₁} {s₂} before last) h =
      Step-IsSound s₁ s₂ last (Reaches-IsSound before h)
