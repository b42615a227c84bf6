-- ===== src/Daemon/State/Granted.antt =====
-- nhop/src/daemon/state.rs: a load whose addresses can all be bound.
use nhop.Common.{true, ℕ, Option, none, some, List, ok, ◌≡◌, refl, sym, subst}
use nhop.Net.{Platform, SocketAddr, socket_eq}
use nhop.Wire.{LoadOutcome}
use nhop.Proxy.Forwards.{Forwards, Listen, target_of}
use nhop.Rules.Ruleset.{Ruleset}
use nhop.Proxy.Upstreams.{Upstreams}
use nhop.Daemon.Reply.{ScriptOutcome}
use nhop.Daemon.Frontends.{Frontends}
use nhop.Daemon.Frontends.Granted.{
  Grants, listen_after, moved_frontends, Accepts, moved-Accepts, unmoved, rebind-granted,
  rebind_forwards-granted,
}
use nhop.Daemon.Staging.{Staging, commit, fresh, issue}
use nhop.Daemon.State.{DaemonState, Machine, Settled, in_flight}
use nhop.Daemon.State.Publish.{adopt_upstream, rebind, rebind_forwards}
use nhop.Daemon.State.Finish.{committed, moved_first, commit_run, settle, publish}
use nhop.Cli.Status
use nhop.Daemon.State.Load.{load, recorded, started, judged, load-settle}
use nhop.Daemon.State.Handle.{script_of}
use nhop.Daemon.State.Transaction.{Event, staged_by_all}
use nhop.Daemon.State.Outcome.{publish-Publishes, Publishes}

-- The addresses of the front ends, as the state records them.
abbrev pub listen_of : {N : Type 0} → DaemonState N → Listen
listen_of s = record { http = s.http_listen; socks = s.socks_listen }

publish-listeners :
    {N : Type 0} (m : Machine) (s : DaemonState N) (rules : Ruleset N) (upstream : Option Upstreams)
    → (listen_of (publish m s rules upstream) ≡ listen_of s)
      × ((publish m s rules upstream).forwards ≡ s.forwards)
      × ((publish m s rules upstream).frontends ≡ s.frontends)
unfolding publish adopt_upstream
publish-listeners m s rules none = (refl, refl, refl)
publish-listeners m s rules (some next) = (refl, refl, refl)

module _ {N : Type 0} (m : Machine) (granted : Grants m.binds) where
  abbrev moved_state : DaemonState N → Frontends → Option Listen → DaemonState N
  moved_state s f wanted = record s {
    frontends = f;
    http_listen = (listen_after (listen_of s) wanted).http;
    socks_listen = (listen_after (listen_of s) wanted).socks;
  }

  moved_first-granted :
      (s : DaemonState N) (wanted : Option Listen)
      → moved_first m s wanted ≡ (moved_state s (moved_frontends s.frontends wanted) wanted, ok tt)
  unfolding rebind
  moved_first-granted s none = rw (unmoved s.frontends) refl
  moved_first-granted s (some wanted) = rw (rebind-granted m.binds granted s.frontends wanted) refl

  opened-granted :
      (s : DaemonState N) (wanted : Forwards)
      → (f : Frontends) × (answer : Forwards) × (rebind_forwards m s wanted
          ≡ (record s { frontends = f; forwards = answer }, ok tt))
        × Accepts s.frontends none wanted f
        × ((listen : SocketAddr) → target_of answer listen ≡ target_of wanted listen)
  unfolding rebind_forwards
  opened-granted s wanted =
      let (f, answer, e, accepts, h) = rebind_forwards-granted m.binds granted s.frontends wanted in
      (f, answer, rw e refl, accepts, h)

  -- The run is recorded as ok, and all that it staged is in place.
  pub record Commits (s : DaemonState N) (st : Staging N) (result : DaemonState N × Settled)
      : Type 0 where
    pub outcome : result.1.outcome ≡ LoadOutcome.ok
    pub routing : Publishes m s st.rules st.upstream result.0
    pub addresses : listen_of result.0 ≡ listen_after (listen_of s) st.listen
    pub forwards :
        (listen : SocketAddr) → target_of result.0.forwards listen ≡ target_of st.forwards listen
    pub listeners : Accepts s.frontends st.listen st.forwards result.0.frontends

  commit_run-granted :
      (s : DaemonState N) (st : Staging N) → Commits s st (committed m (commit_run m s (commit st)))
  unfolding commit_run commit publish
  commit_run-granted s st =
      let f = moved_frontends s.frontends st.listen in
      let moved = moved_first-granted s st.listen in
      let (g, answer, opened, accepts, h) =
        opened-granted (moved_state s f st.listen) st.forwards in
      let s₂ : DaemonState N = record (moved_state s f st.listen) {
        frontends = g;
        forwards = answer;
      } in
      rw (moved) (
        rw (opened) (record {
          outcome = refl;
          routing =
              publish-Publishes m s s₂ st.rules st.upstream
                (record { rules = refl; verdicts = refl; upstreams = refl });
          addresses = (publish-listeners m s₂ st.rules st.upstream).0;
          forwards = λ listen. rw ((publish-listeners m s₂ st.rules st.upstream).1) (h listen);
          listeners =
              subst (Accepts s.frontends st.listen st.forwards)
                (sym (publish-listeners m s₂ st.rules st.upstream).2)
                (moved-Accepts s.frontends st.listen st.forwards g accepts);
        }))

  settle-accepted :
      (s : DaemonState N) (st : Staging N)
      → st.failed ≡ none
      → settle m s st ScriptOutcome.succeeded ≡ committed m (commit_run m s (commit st))
  unfolding settle
  settle-accepted s st e = rw (e, settle) refl

  settle-Commits :
      (s : DaemonState N) (st : Staging N)
      → st.failed ≡ none
      → Commits s st (settle m s st ScriptOutcome.succeeded)
  settle-Commits s st e =
      subst (Commits s st) (sym (settle-accepted s st e)) (commit_run-granted s st)

-- From a state with no run in flight, with a script that is a file and every address free at the
-- end: a load whose script succeeds and whose commands were all read is recorded as ok, its rules
-- and upstreams are published, the addresses of the front ends and the forwards that it declared
-- are recorded, and the listeners, where they are bound, are moved: the front ends accept on the
-- declared addresses, or where they did if none were declared, and a forward on every declared
-- address, for its destination, and on no other.
pub load-Commits :
    {N : Type 0} (p : Platform N) (s : DaemonState N) (m : Machine) (path : Option Status.PathBuf)
    (reply : ℕ) (events : List Event) (m' : Machine) (granted : Grants m'.binds)
    → in_flight s ≡ none
    → m.is_file (script_of p m s path) ≡ true
    → (staged_by_all p (issue s.load_ids).1 events fresh).failed ≡ none
    → (result : DaemonState N × Settled) × ((load p s m path reply events m'
          ScriptOutcome.succeeded).0
        ≡ recorded p m' result)
      × Commits m' granted
          (started p (judged p s events) (script_of p m s path))
          (staged_by_all p (issue s.load_ids).1 events fresh)
          result
load-Commits p s m path reply events m' granted idle file accepted = (
  _,
  load-settle p s m path reply events m' ScriptOutcome.succeeded idle file,
  settle-Commits m' granted (started p (judged p s events) (script_of p m s path))
      (staged_by_all p (issue s.load_ids).1 events fresh) accepted,
)
