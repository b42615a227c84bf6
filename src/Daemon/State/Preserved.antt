-- ===== src/Daemon/State/Preserved.antt =====
-- nhop/src/daemon/state.rs: every request, every verdict written and every end of a run keeps the
-- daemon's state sound.
use nhop.Common.{Option, none, some, List, Result, ok, err, inl, inr, Result-cases}
use nhop.Net.{Platform}
use nhop.Wire.{UpstreamAddr}
use nhop.Rules.Decision.{RuleId}
use nhop.Rules.Matcher.{InvalidRule}
use nhop.Rules.Ruleset.{Ruleset}
use nhop.Rules.Push.{IsNumberedFrom}
use nhop.Proxy.Failure.{IoError}
use nhop.Proxy.Forwards.{Forwards, Listen, DuplicateForward}
use nhop.Proxy.Forwards.Pushed.{IsDistinct}
use nhop.Proxy.Upstreams
use nhop.Proxy.Upstreams.{Upstream, Upstreams, UnusableUpstreams}
use nhop.Proxy.Upstreams.Listed.{parse_iff}
use nhop.Upstream.Entries.Reload.{adopted-Adopts}
use nhop.Daemon.Frontends
use nhop.Daemon.Frontends.{Frontends}
use nhop.Daemon.Staging
use nhop.Daemon.Staging.{Staging, Committed, commit, fresh}
use nhop.Daemon.State.{DaemonState, Machine}
use nhop.Daemon.State.Publish.{adopt_upstream, rebind, rebind_forwards, moved_to, opened_as}
use nhop.Daemon.State.Sound.{
  OneSocketEach, StagedIsSound, IsSound, AnswerIsDistinct, rebind_forwards-IsDistinct,
}

-- What `Upstreams::parse` reads.
abbrev pub ReadIsDistinct : Result UnusableUpstreams Upstreams → Type 0
ReadIsDistinct (ok list) = OneSocketEach (some list)
ReadIsDistinct (err failure) = Unit

module _ {N : Type 0} (p : Platform N) where
  pub parse-ReadIsDistinct :
      (first : UpstreamAddr) (fallbacks : List UpstreamAddr)
      → ReadIsDistinct (Upstreams.parse p first fallbacks)
  parse-ReadIsDistinct first fallbacks = elim (Result-cases (Upstreams.parse p first fallbacks)) [
    | inl (list, e) ↦ rw e (((parse_iff p first fallbacks list).0 e).distinct)
    | inr (failure, e) ↦ rw e tt
  ]

  pub staged_rule-IsSound :
      (st : Staging N) (r : Ruleset N × Result InvalidRule RuleId)
      → StagedIsSound st
      → IsNumberedFrom 0 r.0
      → StagedIsSound (Staging.with_rule st r).0
  unfolding Staging.fail
  staged_rule-IsSound st (rules, ok id) h n = record {
    numbered = n;
    upstream = h.upstream;
    forwards = h.forwards;
  }
  staged_rule-IsSound st (rules, err failure) h n = record {
    numbered = n;
    upstream = h.upstream;
    forwards = h.forwards;
  }

  pub staged_upstream-IsSound :
      (st : Staging N) (fallbacks : List UpstreamAddr) (r : Result UnusableUpstreams Upstreams)
      → StagedIsSound st
      → ReadIsDistinct r
      → StagedIsSound (Staging.with_upstream st fallbacks r).0
  unfolding Staging.fail
  staged_upstream-IsSound st fallbacks (ok list) h d = record {
    numbered = h.numbered;
    upstream = d;
    forwards = h.forwards;
  }
  staged_upstream-IsSound st fallbacks (err failure) h d = record {
    numbered = h.numbered;
    upstream = h.upstream;
    forwards = h.forwards;
  }

  pub staged_forward-IsSound :
      (st : Staging N) (r : Forwards × Result DuplicateForward (Unit {0}))
      → StagedIsSound st
      → IsDistinct r.0
      → StagedIsSound (Staging.with_forward st r).0
  unfolding Staging.fail
  staged_forward-IsSound st (forwards, ok _) h d = record {
    numbered = h.numbered;
    upstream = h.upstream;
    forwards = d;
  }
  staged_forward-IsSound st (forwards, err failure) h d = record {
    numbered = h.numbered;
    upstream = h.upstream;
    forwards = d;
  }

  pub fresh-IsSound : StagedIsSound (fresh {N = N})
  fresh-IsSound = record { numbered = tt; upstream = tt; forwards = tt }

module _ {N : Type 0} (m : Machine) where
  moved_to-IsSound :
      (s : DaemonState N) (answer : Frontends × Result IoError Listen)
      → IsSound s
      → IsSound (moved_to m s answer).0
  moved_to-IsSound s (frontends, ok held) h = record {
    numbered = h.numbered;
    published = h.published;
    forwards = h.forwards;
    run = h.run;
  }
  moved_to-IsSound s (frontends, err failure) h = record {
    numbered = h.numbered;
    published = h.published;
    forwards = h.forwards;
    run = h.run;
  }

  opened_as-IsSound :
      (s : DaemonState N) (answer : Frontends × Result IoError Forwards)
      → IsSound s
      → AnswerIsDistinct answer.1
      → IsSound (opened_as m s answer).0
  opened_as-IsSound s (frontends, ok held) h d = record {
    numbered = h.numbered;
    published = h.published;
    forwards = d;
    run = h.run;
  }
  opened_as-IsSound s (frontends, err failure) h d = record {
    numbered = h.numbered;
    published = h.published;
    forwards = h.forwards;
    run = h.run;
  }

  pub rebind-IsSound :
      (s : DaemonState N) (listen : Listen) → IsSound s → IsSound (rebind m s listen).0
  unfolding rebind
  rebind-IsSound s listen h = moved_to-IsSound s (Frontends.rebind m.binds s.frontends listen) h

  pub rebind_forwards-IsSound :
      (s : DaemonState N) (wanted : Forwards)
      → IsSound s
      → IsDistinct wanted
      → IsSound (rebind_forwards m s wanted).0
  unfolding rebind_forwards
  rebind_forwards-IsSound s wanted h d =
      opened_as-IsSound s (Frontends.rebind_forwards m.binds s.frontends wanted) h
        (rebind_forwards-IsDistinct m.binds s.frontends wanted d)

  pub adopt_upstream-IsSound :
      (s : DaemonState N) (upstream : Option Upstreams)
      → IsSound s
      → OneSocketEach upstream
      → IsSound (adopt_upstream m s upstream)
  unfolding adopt_upstream
  adopt_upstream-IsSound s none h d = h
  adopt_upstream-IsSound s (some next) h d = record {
    numbered = h.numbered;
    published = (adopted-Adopts m.judged_at s.verdicts s.upstreams next h.published d).published;
    forwards = h.forwards;
    run = h.run;
  }
