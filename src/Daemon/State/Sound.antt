-- ===== src/Daemon/State/Sound.antt =====
-- nhop/src/daemon/: what holds of the daemon's state whatever it is asked and however its runs end.
use nhop.Common.{
  Option, none, some, List, [], ◌∷◌, Result, ok, err, inl, inr, DistinctBy, Result-cases,
}
use nhop.Rules.Push.{IsNumberedFrom}
use nhop.Proxy.Failure.{IoError}
use nhop.Proxy.Forwards
use nhop.Proxy.Forwards.{Forward, Forwards}
use nhop.Proxy.Forwards.Pushed.{IsDistinct, push-IsDistinct}
use nhop.Proxy.Upstreams.{Upstream, Upstreams}
use nhop.Upstream.Entries.Adopted.{IsPublished}
use nhop.Daemon.Frontends
use nhop.Daemon.Frontends.{
  Frontends, Bound, Binds, unbound, bound, declared, accepted, rebind_bound_forwards, bind_fresh,
  accept_fresh, kept_forwards,
}
use nhop.Daemon.Staging.{Staging}
use nhop.Daemon.State.{DaemonState, InFlight}

-- A list of upstreams that no two entries of dial one socket.
abbrev pub OneSocketEach : Option Upstreams → Type 0
OneSocketEach none = Unit
OneSocketEach (some list) = DistinctBy (λ (u : Upstream). u.socket) list

-- What a run has staged: rules that are numbered, and addresses named once.
pub record StagedIsSound {N : Type 0} (st : Staging N) : Type 0 where
  pub numbered : IsNumberedFrom 0 st.rules
  pub upstream : OneSocketEach st.upstream
  pub forwards : IsDistinct st.forwards

abbrev pub RunIsSound : {N : Type 0} → Option (InFlight N) → Type 0
RunIsSound none = Unit
RunIsSound (some run) = StagedIsSound run.staged

-- What serves: rules whose identifiers are their positions, a published list of upstreams with a
-- verdict for each entry, and forwards on addresses that differ.
pub record IsSound {N : Type 0} (s : DaemonState N) : Type 0 where
  pub numbered : IsNumberedFrom 0 s.rules
  pub published : IsPublished s.verdicts s.upstreams.entries
  pub forwards : IsDistinct s.forwards
  pub run : RunIsSound s.load

declared-IsDistinct : (fs gs : Forwards) → IsDistinct gs → IsDistinct (declared fs gs)
unfolding declared
declared-IsDistinct [] gs d = d
declared-IsDistinct (f ∷ fs) gs d =
    declared-IsDistinct fs (Forwards.push gs f).0 (push-IsDistinct gs f d)

-- What the listeners answer, where they answer forwards.
abbrev pub AnswerIsDistinct : Result IoError Forwards → Type 0
AnswerIsDistinct (ok held) = IsDistinct held
AnswerIsDistinct (err failure) = Unit

accepted-IsDistinct :
    (b : Bound) (r : List Forward × Result IoError (Unit {0})) → AnswerIsDistinct (accepted b r).1
accepted-IsDistinct b (forwards, ok _) = declared-IsDistinct forwards [] tt
accepted-IsDistinct b (forwards, err failure) = tt

rebind_bound_forwards-IsDistinct :
    (binds : Binds) (b : Bound) (wanted : Forwards)
    → AnswerIsDistinct (rebind_bound_forwards binds b wanted).1
unfolding rebind_bound_forwards
rebind_bound_forwards-IsDistinct binds b wanted =
    elim (Result-cases (bind_fresh binds 2 b wanted)) [
      | inl (fresh, e) ↦
          rw (e, rebind_bound_forwards)
            (accepted-IsDistinct b (accept_fresh (kept_forwards wanted b.forwards) fresh))
      | inr (failure, e) ↦ rw (e, rebind_bound_forwards) tt
    ]

pub rebind_forwards-IsDistinct :
    (binds : Binds) (f : Frontends) (wanted : Forwards)
    → IsDistinct wanted
    → AnswerIsDistinct (Frontends.rebind_forwards binds f wanted).1
unfolding Frontends.rebind_forwards
rebind_forwards-IsDistinct binds unbound wanted d = d
rebind_forwards-IsDistinct binds (bound b) wanted d =
    rebind_bound_forwards-IsDistinct binds b wanted
