-- ===== src/Daemon/State/Refusal.antt =====
-- nhop/src/daemon/state.rs: which commands are refused, and what a run in flight leaves untouched.
use nhop.Common.{
  ℕ, Option, none, some, ◌==◌, nat_eq, nat_same_iff, ◌≡◌, ◌≢◌, ◌≤◌, ◌<◌, ◌+◌, ◌^◌, ◌%◌, refl, inl,
  inr, arith, Bool-cases, Option-cases,
}
use nhop.Net.{Platform}
use nhop.Wire.{Command, LoadId}
use nhop.Cli.Status
use nhop.Daemon.Reply.{Message, Response, in_progress}
use nhop.Daemon.Staging.{Staging, issue}
use nhop.Daemon.State.{
  DaemonState, InFlight, Machine, Effect, Target, target, target_with, in_flight, dispatched,
}
use nhop.Daemon.State.Handle.{
  answering, handle, add_rule, clear_rules, set_upstream, set_listen, add_forward, reload, turn_off,
  decision_for,
}
use nhop.Daemon.State.Report.{report, doctor}
use nhop.Daemon.State.Transaction.{during, with_staged}
use nhop.Daemon.State.Load.{started, first_run}

-- The load that a command which changes the state carries, `none` for a command that changes none.
-- `reload`, `on` and `off` carry no load.
abbrev pub carried : Command → Option (Option LoadId)
carried (Command.add_rule class kind value load) = some load
carried (Command.clear_rules load) = some load
carried (Command.set_upstream addr load) = some load
carried (Command.set_upstreams addr fallbacks load) = some load
carried (Command.set_listen http socks load) = some load
carried (Command.add_forward at host port load) = some load
carried (Command.reload path) = some none
carried Command.on = some none
carried Command.off = some none
carried Command.status = none
carried Command.rules = none
carried (Command.test host port) = none
carried Command.doctor = none
carried Command.subscribe = none

target_with-refused :
    (id load : Option LoadId)
    → load ≢ id
    → (message : Message) × (target_with id load ≡ Target.refused (in_progress message))
target_with-refused none none h = absurd (h refl)
target_with-refused none (some stale) h = (_, refl)
target_with-refused (some id) none h = (_, refl)
target_with-refused (some id) (some carried) h = elim (Bool-cases (carried == id)) [
  | inl e ↦ absurd (h (cc ((nat_same_iff carried id).0 e)))
  | inr e ↦ (Message.other_run id carried, rw e refl)
]

module _ {N : Type 0} (p : Platform N) (m : Machine) where
  -- The command is refused: it changes nothing, and is answered that a load is in progress.
  abbrev pub Refuses : DaemonState N → Command → ℕ → Type 0
  Refuses s c reply =
      (message : Message) × (handle p m s c reply
        ≡ (s, Effect.answered reply (in_progress message)))

  dispatched-refused :
      (s : DaemonState N) (load : Option LoadId) (apply : Staging N → Staging N × Response)
      (applied : DaemonState N × Response) (reply : ℕ)
      → load ≢ in_flight s
      → (message : Message) × (answering p m reply (dispatched s (target s load) apply applied)
          ≡ (s, Effect.answered reply (in_progress message)))
  unfolding target
  dispatched-refused s load apply applied reply h =
      let (message, e) = target_with-refused (in_flight s) load h in (message, rw e refl)

  reload-refused :
      (s : DaemonState N) (path : Option Status.PathBuf) (reply : ℕ)
      → none ≢ in_flight s
      → (message : Message) × (reload p m s path reply
          ≡ (s, Effect.answered reply (in_progress message)))
  unfolding reload
  reload-refused s path reply h = elim (Option-cases (in_flight s)) [
    | inl e ↦ absurd (h (cc))
    | inr (id, e) ↦ (Message.run_in_progress id, rw (e, reload) refl)
  ]

  turn_off-refused :
      (s : DaemonState N) (reply : ℕ)
      → none ≢ in_flight s
      → (message : Message) × (answering p m reply (turn_off s)
          ≡ (s, Effect.answered reply (in_progress message)))
  unfolding turn_off
  turn_off-refused s reply h = elim (Option-cases (in_flight s)) [
    | inl e ↦ absurd (h (cc))
    | inr (id, e) ↦ (Message.run_in_progress id, rw (e, turn_off) refl)
  ]

  -- A command that changes the state and does not carry the run in flight, or carries one while
  -- none is, changes nothing and is answered that a load is in progress; reload, on and off carry
  -- none.
  pub handle-Refuses :
      (s : DaemonState N) (c : Command) (reply : ℕ) {load : Option LoadId}
      → carried c ≡ some load
      → load ≢ in_flight s
      → Refuses s c reply
  unfolding handle add_rule clear_rules set_upstream set_listen add_forward reload turn_off target
  handle-Refuses s (Command.add_rule class kind value load) reply e h =
      dispatched-refused s load _ _ reply (λ q. h (cc))
  handle-Refuses s (Command.clear_rules load) reply e h =
      dispatched-refused s load _ _ reply (λ q. h (cc))
  handle-Refuses s (Command.set_upstream addr load) reply e h =
      dispatched-refused s load _ _ reply (λ q. h (cc))
  handle-Refuses s (Command.set_upstreams addr fallbacks load) reply e h =
      dispatched-refused s load _ _ reply (λ q. h (cc))
  handle-Refuses s (Command.set_listen http socks load) reply e h =
      dispatched-refused s load _ _ reply (λ q. h (cc))
  handle-Refuses s (Command.add_forward at host port load) reply e h =
      dispatched-refused s load _ _ reply (λ q. h (cc))
  handle-Refuses s (Command.reload path) reply e h = reload-refused s path reply (λ q. h (cc))
  handle-Refuses s Command.on reply e h = reload-refused s none reply (λ q. h (cc))
  handle-Refuses s Command.off reply e h = turn_off-refused s reply (λ q. h (cc))
  handle-Refuses s Command.status reply e h = cc
  handle-Refuses s Command.rules reply e h = cc
  handle-Refuses s (Command.test host port) reply e h = cc
  handle-Refuses s Command.doctor reply e h = cc
  handle-Refuses s Command.subscribe reply e h = cc

  -- A command that changes nothing is answered during a run as it is with none in flight, whatever
  -- the run has staged.
  pub handle-serving :
      (s : DaemonState N) (run : InFlight N) (c : Command) (reply : ℕ)
      → carried c ≡ none
      → handle p m (during p s run) c reply
        ≡ (during p s run, (handle p m (record s { load = none }) c reply).1)
  unfolding handle report doctor decision_for
  handle-serving s run (Command.add_rule class kind value load) reply e = cc
  handle-serving s run (Command.clear_rules load) reply e = cc
  handle-serving s run (Command.set_upstream addr load) reply e = cc
  handle-serving s run (Command.set_upstreams addr fallbacks load) reply e = cc
  handle-serving s run (Command.set_listen http socks load) reply e = cc
  handle-serving s run (Command.add_forward at host port load) reply e = cc
  handle-serving s run (Command.reload path) reply e = cc
  handle-serving s run Command.on reply e = cc
  handle-serving s run Command.off reply e = cc
  handle-serving s run Command.status reply e = refl
  handle-serving s run Command.rules reply e = refl
  handle-serving s run (Command.test host port) reply e = refl
  handle-serving s run Command.doctor reply e = refl
  handle-serving s run Command.subscribe reply e = refl

  -- While fewer than 2^64 - 1 runs were issued, a command that carries an identifier issued before
  -- is refused by the run that is started next, whatever that has staged by then.
  pub handle-stale :
      (s : DaemonState N) (script : Status.PathBuf) (reply : ℕ) (st : Staging N) (c : Command)
      (asked : ℕ) {stale : LoadId}
      → s.load_ids + 1 < 2 ^ 64
      → stale ≤ s.load_ids
      → carried c ≡ some (some stale)
      → Refuses (during p (started p s script) (with_staged p (first_run p s reply) st)) c asked
  unfolding issue in_flight
  handle-stale s script reply st c asked {stale} below old e =
      handle-Refuses (during p (started p s script) (with_staged p (first_run p s reply) st)) c
        asked e (λ q. let same : stale ≡ (s.load_ids + 1) % 2 ^ 64 = cc in omega (arith, same))
