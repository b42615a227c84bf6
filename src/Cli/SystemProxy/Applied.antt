-- ===== src/Cli/SystemProxy/Applied.antt =====
-- nhop/src/cli/system_proxy.rs: how far `apply` goes.
use nhop.Common.{◌≡◌, refl, ap, List, [], ◌∷◌, ◌++◌, All, Result, ok, err}
use nhop.Text.{Text}
use nhop.Cli.SystemProxy.{Invocation, ProxyFailure, Ran, argv, apply, judged, then_rest}

module _ (run : List Text → Ran) where
  abbrev outcome : Invocation → Result ProxyFailure (Unit {0})
  outcome i = judged i.flag (run (argv i))

  abbrev pub Succeeds : Invocation → Type 0
  Succeeds i = outcome i ≡ ok tt

  -- What was run and how it ended: every invocation, each with success; or those before one that
  -- fails and that one, and none behind it.
  abbrev pub Stops : List Invocation → List Invocation × Result ProxyFailure (Unit {0}) → Type 0
  Stops is (ran, ok done) = (ran ≡ is) × All Succeeds is
  Stops is (ran, err failure) =
      (before : List Invocation) × (last : Invocation) × (behind : List Invocation) × (is
        ≡ before ++ last ∷ behind)
      × (ran ≡ before ++ last ∷ [])
      × All Succeeds before
      × (outcome last ≡ err failure)

  Stops-first :
      (i : Invocation) (is : List Invocation) (first : Result ProxyFailure (Unit {0}))
      (rest : List Invocation × Result ProxyFailure (Unit {0}))
      → outcome i ≡ first
      → Stops is rest
      → Stops (i ∷ is) (then_rest i first rest)
  Stops-first i is (err failure) rest s h = ([], i, is, refl, refl, tt, s)
  Stops-first i is (ok done) (ran, ok more) s (e, h) = (ap (λ l. i ∷ l) e, (s, h))
  Stops-first i is (ok done) (ran, err failure) s (before, last, behind, e, e', h, failed) =
      (i ∷ before, last, behind, ap (λ l. i ∷ l) e, ap (λ l. i ∷ l) e', (s, h), failed)

  -- The writes of the system proxy run in order, all with success or up to the first that fails,
  -- whose failure is returned, and none behind it.
  pub apply-Stops : (is : List Invocation) → Stops is (apply run is)
  unfolding apply
  apply-Stops [] = (refl, tt)
  apply-Stops (i ∷ is) = Stops-first i is (outcome i) (apply run is) refl (apply-Stops is)
