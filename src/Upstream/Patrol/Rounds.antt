-- ===== src/Upstream/Patrol/Rounds.antt =====
-- nhop/src/upstream/mod.rs: a verdict moves on two probes that agree, and never on one.
use nhop.Common.{
  ◌≡◌, refl, sym, ap, ◌∙◌, subst, ◌≢◌, ◌⊎◌, inl, inr, Option, none, some, List, [], ◌∷◌, ◌++◌,
  arith, All, All-zip, DistinctBy, Bool-cases, if◌then◌else◌, nat_eq, nat_same_iff,
}
use nhop.Net.{SocketAddr}
use nhop.Wire.{HealthState}
use nhop.Upstream.Health.{
  Verdicts, Health, HealthHandle, SystemTime, state_same, state_same_iff, state, verdict, set_at,
  same,
}
use nhop.Upstream.Entries.{UpstreamEntry}
use nhop.Upstream.Dial.{Answer}
use nhop.Upstream.Patrol.{Pending, probe, advance, banked_for, fold_in, round, left_pending}

state_of_verdict :
    (v w : Verdicts) (h : HealthHandle) → verdict v h ≡ verdict w h → state v h ≡ state w h
unfolding state
state_of_verdict v w h e = ap (λ (t : Health). t.state) e

module _ (probes : SocketAddr → Answer) where
  abbrev pub seen_of : UpstreamEntry → HealthState
  seen_of e = probe probes e.upstream.socket

  -- The entry is in agreement with its probe, or the sequence banked for it is.
  abbrev Ready : List Pending → Verdicts → UpstreamEntry → Type 0
  Ready pending v e =
      (state v e.health ≡ seen_of e) ⊎ (banked_for pending e.health ≡ some (seen_of e))

  module _ (at : SystemTime) (pending : List Pending) where
    fold_in-others :
        (v : Verdicts) (e : UpstreamEntry) (g : HealthHandle)
        → g ≢ e.health
        → verdict (fold_in probes at pending v e).0 g ≡ verdict v g
    unfolding fold_in advance set_at verdict
    fold_in-others v e g n = ground arith

    fold_in-settles :
        (v : Verdicts) (e : UpstreamEntry)
        → Ready pending v e
        → state (fold_in probes at pending v e).0 e.health ≡ seen_of e
    unfolding fold_in advance set_at state
    fold_in-settles v e r = ground (
      arith,
      state_same_iff (state v e.health) (seen_of e),
      state_same_iff (seen_of e) (seen_of e),
    )

    round_cons :
        (v : Verdicts) (e : UpstreamEntry) (es : List UpstreamEntry)
        → (round probes at pending v (e ∷ es)).0
          ≡ (round probes at pending (fold_in probes at pending v e).0 es).0
    unfolding round
    round_cons v e es = refl

    round-others :
        (v : Verdicts) (es : List UpstreamEntry) (g : HealthHandle)
        → All (λ (e : UpstreamEntry). g ≢ e.health) es
        → verdict (round probes at pending v es).0 g ≡ verdict v g
    round-others v [] g a = unfold round in refl
    round-others v (e ∷ es) g (n, a) =
        rw (round_cons v e es)
          (round-others (fold_in probes at pending v e).0 es g a ∙ fold_in-others v e g n)

    Ready-kept :
        (v : Verdicts) (e y : UpstreamEntry)
        → e.health ≢ y.health
        → Ready pending v y
        → Ready pending (fold_in probes at pending v e).0 y
    Ready-kept v e y n (inr b) = inr b
    Ready-kept v e y n (inl s) =
        inl (state_of_verdict _ v y.health (fold_in-others v e y.health (λ q. n (sym q))) ∙ s)

    -- Every entry that is ready ends the round with the verdict that its probe saw.
    round-settles :
        (v : Verdicts) (es : List UpstreamEntry)
        → DistinctBy (λ (e : UpstreamEntry). e.health) es
        → All (Ready pending v) es
        → All (λ e. state (round probes at pending v es).0 e.health ≡ seen_of e) es
    round-settles v [] d r = tt
    round-settles v (e ∷ es) (d, ds) (r, rs) =
        subst (λ w. All (λ (y : UpstreamEntry). state w y.health ≡ seen_of y) (e ∷ es))
          (sym (round_cons v e es))
          (
            state_of_verdict _ (fold_in probes at pending v e).0 e.health
                  (round-others (fold_in probes at pending v e).0 es e.health d)
                ∙ fold_in-settles v e r,
            round-settles (fold_in probes at pending v e).0 es ds
                (All-zip es (λ y n ready. Ready-kept v e y n ready) d rs),
          )

  -- With nothing banked a round moves no verdict, and banks what contradicts one.
  abbrev contradicted : Verdicts → UpstreamEntry → Option HealthState
  contradicted v e = if state_same (state v e.health) (seen_of e) then none else some (seen_of e)

  fold_in-first :
      (at : SystemTime) (v : Verdicts) (e : UpstreamEntry)
      → fold_in probes at [] v e ≡ (v, left_pending (contradicted v e) e.health)
  unfolding fold_in advance banked_for
  fold_in-first at v e = ground arith

  abbrev all_contradicted : Verdicts → List UpstreamEntry → List Pending
  all_contradicted v [] = []
  all_contradicted v (e ∷ es) = left_pending (contradicted v e) e.health ++ all_contradicted v es

  round-first :
      (at : SystemTime) (v : Verdicts) (es : List UpstreamEntry)
      → round probes at [] v es ≡ (v, all_contradicted v es)
  unfolding round
  round-first at v [] = refl
  round-first at v (e ∷ es) = rw (fold_in-first at v e, round-first at v es)

  banked_for-other :
      (target : Option HealthState) (h g : HealthHandle) (more : List Pending)
      → h ≢ g
      → banked_for (left_pending target h ++ more) g ≡ banked_for more g
  unfolding banked_for
  banked_for-other none h g more n = refl
  banked_for-other (some target) h g more n = ground (arith, nat_same_iff h g)

  banked_for-this :
      (target : HealthState) (h : HealthHandle) (more : List Pending)
      → banked_for (left_pending (some target) h ++ more) h ≡ some target
  unfolding banked_for
  banked_for-this target h more = ground (arith, nat_same_iff h h)

  Ready-here :
      (v : Verdicts) (e : UpstreamEntry) (es : List UpstreamEntry)
      → Ready (all_contradicted v (e ∷ es)) v e
  Ready-here v e es = elim (Bool-cases (state_same (state v e.health) (seen_of e))) [
    | inl same ↦ inl ((state_same_iff _ _).0 same)
    | inr other ↦ inr (rw other (banked_for-this (seen_of e) e.health (all_contradicted v es)))
  ]

  Ready-later :
      (v : Verdicts) (e y : UpstreamEntry) (es : List UpstreamEntry)
      → e.health ≢ y.health
      → Ready (all_contradicted v es) v y
      → Ready (all_contradicted v (e ∷ es)) v y
  Ready-later v e y es n (inl s) = inl s
  Ready-later v e y es n (inr b) =
      inr (banked_for-other (contradicted v e) e.health y.health (all_contradicted v es) n ∙ b)

  All-Ready :
      (v : Verdicts) (es : List UpstreamEntry)
      → DistinctBy (λ (e : UpstreamEntry). e.health) es
      → All (Ready (all_contradicted v es) v) es
  All-Ready v [] d = tt
  All-Ready v (e ∷ es) (d, ds) =
      (Ready-here v e es, All-zip es (λ y n r. Ready-later v e y es n r) d (All-Ready v es ds))

  -- A patrol round that starts with no sequence pending moves no verdict, whatever its probes see.
  pub round-first_keeps :
      (at : SystemTime) (v : Verdicts) (es : List UpstreamEntry) → (round probes at [] v es).0 ≡ v
  round-first_keeps at v es = ap (λ t. t.0) (round-first at v es)

  -- Two patrol rounds in a row that see the same on every entry, the first with nothing pending,
  -- leave every entry of a list with one handle to an entry at the verdict that its probe saw.
  pub two_rounds-settle :
      (at at' : SystemTime) (v : Verdicts) (es : List UpstreamEntry)
      → DistinctBy (λ (e : UpstreamEntry). e.health) es
      → All
          (λ e.
            state
              (round probes at' (round probes at [] v es).1 (round probes at [] v es).0 es).0
              e.health
            ≡ seen_of e)
          es
  two_rounds-settle at at' v es d =
      rw (round-first at v es) (round-settles at' (all_contradicted v es) v es d (All-Ready v es d))
