-- ===== src/Daemon/State/Outcome.antt =====
-- nhop/src/daemon/state.rs: what a run leaves behind, on each way that it can end.
use nhop.Common.{
  Option, none, some, nat_eq, Result, ok, err, ◌≡◌, ◌≢◌, ◌⊎◌, inl, inr, Option-cases, refl, ◌∙◌,
}
use nhop.Wire.{LoadOutcome}
use nhop.Rules.Ruleset.{Ruleset}
use nhop.Proxy.Failure.{IoError}
use nhop.Proxy.Forwards.{Forwards, Listen}
use nhop.Daemon.Frontends
use nhop.Daemon.Frontends.{Frontends}
use nhop.Proxy.Upstreams.{Upstreams}
use nhop.Upstream.Health.{Verdicts}
use nhop.Upstream.Entries.{UpstreamEntries, adopted}
use nhop.Daemon.FailedCommand.{FailedCommand}
use nhop.Daemon.Reply.{ScriptOutcome}
use nhop.Daemon.Staging.{Staging, Committed, commit}
use nhop.Daemon.State.{DaemonState, Machine, Settled, CannotBind}
use nhop.Daemon.State.Publish.{moved_to, opened_as, adopt_upstream, rebind, rebind_forwards}
use nhop.Daemon.State.Finish.{
  committed, opened_run, published_run, commit_run, moved_first, settle, publish,
}

-- The script did not end well, or a command of it was rejected.
abbrev pub Fails : {N : Type 0} → Staging N → ScriptOutcome → Type 0
Fails st outcome =
    (outcome ≢ ScriptOutcome.succeeded) ⊎ ((f : FailedCommand) × (st.failed ≡ some f))

-- The store and the list after `adopt_upstream`.
module _ (m : Machine) where
  abbrev upstream_after : Verdicts → UpstreamEntries → Option Upstreams → Verdicts × UpstreamEntries
  upstream_after v list none = (v, list)
  upstream_after v list (some next) = adopted m.judged_at v list next

module _ {N : Type 0} (m : Machine) where
  -- A run that fails changes nothing, and is not recorded as one that succeeded.
  pub settle-discards :
      (s : DaemonState N) (st : Staging N) (outcome : ScriptOutcome)
      → Fails st outcome
      → ((settle m s st outcome).0 ≡ s) × ((settle m s st outcome).1.outcome ≢ LoadOutcome.ok)
  unfolding settle
  settle-discards s st ScriptOutcome.succeeded (inl h) = absurd (h refl)
  settle-discards s st ScriptOutcome.succeeded (inr (f, e)) = rw (e, settle) (refl, λ x. cc)
  settle-discards s st (ScriptOutcome.exited code) h = (refl, λ e. cc)
  settle-discards s st ScriptOutcome.timed_out h = (refl, λ e. cc)
  settle-discards s st (ScriptOutcome.not_run failure) h = (refl, λ e. cc)

  -- The rules and the upstreams after a commit that succeeded.
  pub record Publishes (s : DaemonState N) (rules : Ruleset N) (upstream : Option Upstreams)
      (s' : DaemonState N) : Type 0 where
    pub published : s'.rules ≡ rules
    pub verdicts : s'.verdicts ≡ (upstream_after m s.verdicts s.upstreams upstream).0
    pub upstreams : s'.upstreams ≡ (upstream_after m s.verdicts s.upstreams upstream).1

  -- The rules and the upstreams are those of before.
  pub record Keeps (s s' : DaemonState N) : Type 0 where
    pub rules : s'.rules ≡ s.rules
    pub verdicts : s'.verdicts ≡ s.verdicts
    pub upstreams : s'.upstreams ≡ s.upstreams

  pub Keeps-refl : (s : DaemonState N) → Keeps s s
  Keeps-refl s = record { rules = refl; verdicts = refl; upstreams = refl }

  moved_to-Keeps :
      (s : DaemonState N) (answer : Frontends × Result IoError Listen)
      → Keeps s (moved_to m s answer).0
  moved_to-Keeps s (frontends, err failure) = record {
    rules = refl;
    verdicts = refl;
    upstreams = refl;
  }
  moved_to-Keeps s (frontends, ok held) = record { rules = refl; verdicts = refl; upstreams = refl }

  moved_first-Keeps :
      (s : DaemonState N) (listen : Option Listen) → Keeps s (moved_first m s listen).0
  unfolding rebind
  moved_first-Keeps s none = Keeps-refl s
  moved_first-Keeps s (some listen) = moved_to-Keeps s _

  Keeps-trans : (s s₁ s₂ : DaemonState N) → Keeps s s₁ → Keeps s₁ s₂ → Keeps s s₂
  Keeps-trans s s₁ s₂ k l = record {
    rules = l.rules ∙ k.rules;
    verdicts = l.verdicts ∙ k.verdicts;
    upstreams = l.upstreams ∙ k.upstreams;
  }

  opened_as-Keeps :
      (s : DaemonState N) (answer : Frontends × Result IoError Forwards)
      → Keeps s (opened_as m s answer).0
  opened_as-Keeps s (frontends, err failure) = record {
    rules = refl;
    verdicts = refl;
    upstreams = refl;
  }
  opened_as-Keeps s (frontends, ok held) = record {
    rules = refl;
    verdicts = refl;
    upstreams = refl;
  }

  pub publish-Publishes :
      (s s₂ : DaemonState N) (rules : Ruleset N) (upstream : Option Upstreams)
      → Keeps s s₂
      → Publishes s rules upstream (publish m s₂ rules upstream)
  unfolding publish adopt_upstream
  publish-Publishes s s₂ rules none k = record {
    published = refl;
    verdicts = k.verdicts;
    upstreams = k.upstreams;
  }
  publish-Publishes s s₂ rules (some next) k =
      rw (k.verdicts, k.upstreams) (record { published = refl; verdicts = refl; upstreams = refl })

  abbrev pub Atomic :
      DaemonState N → Committed N → DaemonState N × Result CannotBind (Unit {0}) → Type 0
  Atomic s c (s', ok _) = Publishes s c.rules c.upstream s'
  Atomic s c (s', err failure) = Keeps s s'

  published_run-Atomic :
      (s : DaemonState N) (c : Committed N) (r : DaemonState N × Result IoError (Unit {0}))
      → Keeps s r.0
      → Atomic s c (published_run m c r)
  published_run-Atomic s c (s₂, err failure) k = k
  published_run-Atomic s c (s₂, ok _) k = publish-Publishes s s₂ c.rules c.upstream k

  opened_run-Atomic :
      (s : DaemonState N) (c : Committed N) (r : DaemonState N × Result IoError (Unit {0}))
      → Keeps s r.0
      → Atomic s c (opened_run m c r)
  unfolding rebind_forwards
  opened_run-Atomic s c (s₁, err failure) k = k
  opened_run-Atomic s c (s₁, ok _) k =
      published_run-Atomic s c
        (opened_as m s₁ (Frontends.rebind_forwards m.binds s₁.frontends c.forwards))
        (Keeps-trans s s₁ _ k (opened_as-Keeps s₁ _))

  -- Whatever the listeners answer, a commit that succeeds publishes the rules and the upstreams
  -- that were staged, and one that fails publishes neither.
  pub commit_run-Atomic : (s : DaemonState N) (c : Committed N) → Atomic s c (commit_run m s c)
  unfolding commit_run
  commit_run-Atomic s c =
      opened_run-Atomic s c (moved_first m s c.listen) (moved_first-Keeps s c.listen)

  -- A run that is recorded as ok published what it staged, and any other changed no route.
  abbrev pub Settles : DaemonState N → Staging N → DaemonState N × Settled → Type 0
  Settles s st (s', settled) =
      ((settled.outcome ≡ LoadOutcome.ok) × Publishes s st.rules st.upstream s')
      ⊎ ((settled.outcome ≢ LoadOutcome.ok) × Keeps s s')

  committed-Settles :
      (s : DaemonState N) (st : Staging N) (r : DaemonState N × Result CannotBind (Unit {0}))
      → Atomic s (commit st) r
      → Settles s st (committed m r)
  unfolding commit
  committed-Settles s st (s', ok _) h = inl (refl, h)
  committed-Settles s st (s', err failure) h = inr ((λ e. cc), h)

  pub settle-Settles :
      (s : DaemonState N) (st : Staging N) (outcome : ScriptOutcome)
      → Settles s st (settle m s st outcome)
  unfolding settle
  settle-Settles s st ScriptOutcome.succeeded = elim (Option-cases st.failed) [
    | inl e ↦
        rw (e, settle)
          (committed-Settles s st (commit_run m s (commit st)) (commit_run-Atomic s (commit st)))
    | inr (f, e) ↦ rw (e, settle) (inr ((λ x. cc), Keeps-refl s))
  ]
  settle-Settles s st (ScriptOutcome.exited code) = inr ((λ e. cc), Keeps-refl s)
  settle-Settles s st ScriptOutcome.timed_out = inr ((λ e. cc), Keeps-refl s)
  settle-Settles s st (ScriptOutcome.not_run failure) = inr ((λ e. cc), Keeps-refl s)
