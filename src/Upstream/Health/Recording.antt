-- ===== src/Upstream/Health/Recording.antt =====
-- nhop/src/upstream/health.rs: what one observation changes, and when a run of them settles.
use nhop.Common.{◌≡◌, refl, ◌≢◌, ◌∙◌, none, some, List, [], ◌∷◌, arith, All, nat_eq}
use nhop.Wire.{HealthState}
use nhop.Upstream.Health.{
  Verdicts, HealthHandle, VerdictCause, SystemTime, verdict, state, changed_at, set_at,
}

-- What an observation leaves: the state observed, every other verdict as it was, and on a turnover
-- alone a new instant and a line.
pub record Recorded (v : Verdicts) (h : HealthHandle) (observed : HealthState)
    (cause : VerdictCause) (at : SystemTime) : Type 0 where
  pub now_observed : state (set_at v h observed cause at).0 h ≡ observed
  pub others : (g : HealthHandle) → g ≢ h → verdict (set_at v h observed cause at).0 g ≡ verdict v g
  pub agreed :
      state v h ≡ observed
      → (changed_at (set_at v h observed cause at).0 h ≡ changed_at v h)
        × ((set_at v h observed cause at).1 ≡ none)
  pub turned :
      state v h ≢ observed
      → (changed_at (set_at v h observed cause at).0 h ≡ at)
        × ((set_at v h observed cause at).1
            ≡ some (record {
              upstream = v.judged h;
              verdict_from = state v h;
              verdict_to = observed;
              cause = cause;
            }))

-- An observation leaves the state observed and every other verdict as it was; a verdict that
-- agrees keeps its instant and logs nothing, and one that turns over takes the new instant and
-- logs the turnover.
pub set_at-Recorded :
    (v : Verdicts) (h : HealthHandle) (observed : HealthState) (cause : VerdictCause)
    (at : SystemTime)
    → Recorded v h observed cause at
unfolding set_at state changed_at
set_at-Recorded v h observed cause at = record {
  now_observed = ground arith;
  others = λ g n. ground arith;
  agreed = λ e. (ground arith, ground arith);
  turned = λ n. (ground arith, ground arith);
}

-- An observation: what was seen, and when.
abbrev pub Observation : Type 0
Observation = HealthState × SystemTime

unfoldable pub record_all : Verdicts → HealthHandle → VerdictCause → List Observation → Verdicts
record_all v h cause [] = v
record_all v h cause ((seen, at) ∷ more) = record_all (set_at v h seen cause at).0 h cause more

record_all-steady :
    (v : Verdicts) (h : HealthHandle) (cause : VerdictCause) (seen : HealthState)
    (run : List Observation)
    → state v h ≡ seen
    → All (λ o. o.0 ≡ seen) run
    → (state (record_all v h cause run) h ≡ seen)
      × (changed_at (record_all v h cause run) h ≡ changed_at v h)
unfolding record_all
record_all-steady v h cause seen [] e a = (e, refl)
record_all-steady v h cause seen ((s, at) ∷ run) e (q, a) =
    let r = set_at-Recorded v h s cause at in
    let (state', changed') =
      record_all-steady (set_at v h s cause at).0 h cause seen run (r.now_observed ∙ q) a in
    (state', changed' ∙ (r.agreed (cc (e, q))).0)

-- A run of agreeing observations that turns a verdict over settles at the instant of its first
-- one, however many follow.
pub run-settles_at_first :
    (v : Verdicts) (h : HealthHandle) (cause : VerdictCause) (seen : HealthState) (at : SystemTime)
    (run : List Observation)
    → state v h ≢ seen
    → All (λ o. o.0 ≡ seen) run
    → (state (record_all v h cause ((seen, at) ∷ run)) h ≡ seen)
      × (changed_at (record_all v h cause ((seen, at) ∷ run)) h ≡ at)
unfolding record_all
run-settles_at_first v h cause seen at run n a =
    let r = set_at-Recorded v h seen cause at in
    let (state', changed') =
      record_all-steady (set_at v h seen cause at).0 h cause seen run r.now_observed a in
    (state', changed' ∙ (r.turned n).0)
