-- ===== src/Daemon/State/Invariant.antt =====
-- nhop/src/daemon/state.rs: the invariant of the daemon's state, over every request, every verdict
-- that is written meanwhile and every end of a run.
use nhop.Common.{Option, none, some, List, [], Result, ok, err}
use nhop.Net.{Platform}
use nhop.Wire.{LoadId, RuleClass, RuleKind, RuleValue, UpstreamAddr}
use nhop.Rules.Decision.{RuleId}
use nhop.Rules.Matcher.{InvalidRule}
use nhop.Rules.Ruleset
use nhop.Rules.Ruleset.{Ruleset}
use nhop.Rules.Push.{IsNumberedFrom, push-IsNumbered}
use nhop.Proxy.Failure.{IoError}
use nhop.Proxy.Forwards
use nhop.Proxy.Forwards.{Forward, Forwards, Listen, DuplicateForward}
use nhop.Proxy.Forwards.Pushed.{IsDistinct, push-IsDistinct}
use nhop.Proxy.Upstreams
use nhop.Proxy.Upstreams.{Upstreams, UnusableUpstreams}
use nhop.Daemon.Reply.{Response}
use nhop.Daemon.Staging
use nhop.Daemon.Staging.{Staging, Committed, commit, fresh}
use nhop.Daemon.State.{
  DaemonState, InFlight, Machine, Target, target, dispatched, apply_staged, staged_in,
}
use nhop.Daemon.State.Publish.{rebind, rebind_forwards}
use nhop.Daemon.State.Handle.{
  add_rule, clear_rules, set_upstream, set_listen, add_forward, with_rule, with_upstreams,
  with_forward, replied,
}
use nhop.Daemon.State.Sound.{StagedIsSound, RunIsSound, IsSound}
use nhop.Daemon.State.Preserved.{
  ReadIsDistinct, parse-ReadIsDistinct, staged_rule-IsSound, staged_upstream-IsSound,
  staged_forward-IsSound, rebind-IsSound, rebind_forwards-IsSound, adopt_upstream-IsSound,
}

module _ {N : Type 0} where
  abbrev pub Stages : (Staging N → Staging N × Response) → Type 0
  Stages apply = (st : Staging N) → StagedIsSound st → StagedIsSound (apply st).0

  staged_in-IsSound :
      (s : DaemonState N) (run : Option (InFlight N)) (apply : Staging N → Staging N × Response)
      → IsSound s
      → RunIsSound run
      → Stages apply
      → IsSound (staged_in s run apply).0
  staged_in-IsSound s none apply h r k = h
  staged_in-IsSound s (some run) apply h r k = record {
    numbered = h.numbered;
    published = h.published;
    forwards = h.forwards;
    run = k run.staged r;
  }

  dispatched-IsSound :
      (s : DaemonState N) (t : Target) (apply : Staging N → Staging N × Response)
      (applied : DaemonState N × Response)
      → IsSound s
      → Stages apply
      → IsSound applied.0
      → IsSound (dispatched s t apply applied).0
  unfolding apply_staged
  dispatched-IsSound s (Target.refused refusal) apply applied h k a = h
  dispatched-IsSound s Target.staged apply applied h k a =
      staged_in-IsSound s s.load apply h h.run k
  dispatched-IsSound s Target.live apply applied h k a = a

  pub ruled-IsSound :
      (s : DaemonState N) (rules : Ruleset N)
      → IsSound s
      → IsNumberedFrom 0 rules
      → IsSound (record s { rules = rules })
  ruled-IsSound s rules h n = record {
    numbered = n;
    published = h.published;
    forwards = h.forwards;
    run = h.run;
  }

module _ {N : Type 0} (p : Platform N) (m : Machine) where
  with_rule-IsSound :
      (s : DaemonState N) (r : Ruleset N × Result InvalidRule RuleId)
      → IsSound s
      → IsNumberedFrom 0 r.0
      → IsSound (with_rule p m s r).0
  with_rule-IsSound s (rules, ok id) h n = ruled-IsSound s rules h n
  with_rule-IsSound s (rules, err failure) h n = h

  with_upstreams-IsSound :
      (s : DaemonState N) (r : Result UnusableUpstreams Upstreams)
      → IsSound s
      → ReadIsDistinct r
      → IsSound (with_upstreams p m s r).0
  with_upstreams-IsSound s (ok list) h d = adopt_upstream-IsSound m s (some list) h d
  with_upstreams-IsSound s (err failure) h d = h

  replied-IsSound :
      (refusal : IoError → Response) (r : DaemonState N × Result IoError (Unit {0}))
      → IsSound r.0
      → IsSound (replied p m refusal r).0
  replied-IsSound refusal (s, ok _) h = h
  replied-IsSound refusal (s, err failure) h = h

  with_forward-IsSound :
      (s : DaemonState N) (r : Forwards × Result DuplicateForward (Unit {0}))
      → IsSound s
      → IsDistinct r.0
      → IsSound (with_forward p m s r).0
  with_forward-IsSound s (forwards, ok _) h d =
      replied-IsSound _ (rebind_forwards m s forwards) (rebind_forwards-IsSound m s forwards h d)
  with_forward-IsSound s (forwards, err failure) h d = h

  pub add_rule-IsSound :
      (s : DaemonState N) (class : RuleClass) (kind : RuleKind) (value : RuleValue)
      (load : Option LoadId)
      → IsSound s
      → IsSound (add_rule p m s class kind value load).0
  unfolding add_rule Staging.push_rule
  add_rule-IsSound s class kind value load h =
      dispatched-IsSound s (target s load) _ _ h
        (λ st k.
          staged_rule-IsSound p st (Ruleset.push p st.rules class kind value) k
            (push-IsNumbered p st.rules class kind value k.numbered))
        (with_rule-IsSound s (Ruleset.push p s.rules class kind value) h
          (push-IsNumbered p s.rules class kind value h.numbered))

  pub clear_rules-IsSound :
      (s : DaemonState N) (load : Option LoadId) → IsSound s → IsSound (clear_rules p m s load).0
  unfolding clear_rules Staging.clear_rules
  clear_rules-IsSound s load h =
      dispatched-IsSound s (target s load) _ _ h
        (λ st k. record { numbered = tt; upstream = k.upstream; forwards = k.forwards })
        (ruled-IsSound s [] h tt)

  pub set_upstream-IsSound :
      (s : DaemonState N) (addr : UpstreamAddr) (fallbacks : List UpstreamAddr)
      (load : Option LoadId)
      → IsSound s
      → IsSound (set_upstream p m s addr fallbacks load).0
  unfolding set_upstream Staging.set_upstream
  set_upstream-IsSound s addr fallbacks load h =
      dispatched-IsSound s (target s load) _ _ h
        (λ st k.
          staged_upstream-IsSound p st fallbacks (Upstreams.parse p addr fallbacks) k
            (parse-ReadIsDistinct p addr fallbacks))
        (with_upstreams-IsSound s (Upstreams.parse p addr fallbacks) h
          (parse-ReadIsDistinct p addr fallbacks))

  pub set_listen-IsSound :
      (s : DaemonState N) (wanted : Listen) (load : Option LoadId)
      → IsSound s
      → IsSound (set_listen p m s wanted load).0
  unfolding set_listen Staging.set_listen
  set_listen-IsSound s wanted load h =
      dispatched-IsSound s (target s load) _ _ h
        (λ st k. record { numbered = k.numbered; upstream = k.upstream; forwards = k.forwards })
        (replied-IsSound _ (rebind m s wanted) (rebind-IsSound m s wanted h))

  pub add_forward-IsSound :
      (s : DaemonState N) (forward : Forward) (load : Option LoadId)
      → IsSound s
      → IsSound (add_forward p m s forward load).0
  unfolding add_forward Staging.push_forward
  add_forward-IsSound s forward load h =
      dispatched-IsSound s (target s load) _ _ h
        (λ st k.
          staged_forward-IsSound p st (Forwards.push st.forwards forward) k
            (push-IsDistinct st.forwards forward k.forwards))
        (with_forward-IsSound s (Forwards.push s.forwards forward) h
          (push-IsDistinct s.forwards forward h.forwards))
