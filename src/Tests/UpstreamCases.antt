-- ===== src/Tests/UpstreamCases.antt =====
-- nhop/src/upstream/: cases of the verdicts, the choice and the reload.
use nhop.Common.{ℕ, ◌≤◌, ◌≡◌, refl, ◌↔◌, inl, inr, none, some, List, [], ◌∷◌, arith}
use mathlib.Core.Bool.{false≢true}
use nhop.Net.{socket_same_iff}
use nhop.Wire.{up}
use nhop.Upstream.Health.{probe, state, changed_at}
use nhop.Upstream.Health.Recording.{Observation, record_all, run-settles_at_first}
use nhop.Upstream.Select.{select, seconds, return_hold}
use nhop.Upstream.Select.Correct.{Chosen}
use nhop.Upstream.Select.Stable.{select_iff, select-stable}
use nhop.Upstream.Entries.Adopted.{IsPublished}
use nhop.Upstream.Entries.Reload.{Adopts, adopted-Adopts}
use nhop.Upstream.Selection.{Shared, Observed, observe}
use nhop.Upstream.Selection.Once.{observe-once}
use nhop.Tests.Fixtures.{
  primary, cold, entries, up_since, down_since, fallback, fallback_text, upstream_of,
}

-- A returning primary waits out the hold behind the fallback that serves.
primary_waits : select (up_since (seconds 50) ∷ up_since 0 ∷ []) (seconds 60) return_hold ≡ some 1
unfolding select nhop.Upstream.Select.held
primary_waits = refl

primary_returns :
    select (up_since (seconds 50) ∷ up_since 0 ∷ []) (seconds 110) return_hold ≡ some 0
unfolding select nhop.Upstream.Select.held
primary_returns = refl

abbrev later_answers : List Observation
later_answers = (up, 9) ∷ (up, 12) ∷ []

run-settles_at_first_example :
    (state (record_all cold 0 probe ((up, 7) ∷ later_answers)) 0 ≡ up)
    × (changed_at (record_all cold 0 probe ((up, 7) ∷ later_answers)) 0 ≡ 7)
unfolding state
run-settles_at_first_example =
    run-settles_at_first cold 0 probe up 7 later_answers (λ e. cc) (refl, (refl, tt))

select_iff_example :
    (select (up_since 50 ∷ up_since 0 ∷ []) 60 60 ≡ some 1)
    ↔ Chosen 60 60 (up_since 50 ∷ up_since 0 ∷ []) (some 1)
select_iff_example = select_iff 60 60 (up_since 50 ∷ up_since 0 ∷ []) (some 1)

select-stable_example :
    (j : ℕ) × (select (up_since 3 ∷ up_since 1 ∷ down_since 12 ∷ []) 60 60 ≡ some j) × (j ≤ 1)
unfolding select nhop.Upstream.Select.held
select-stable_example =
    select-stable 5 60 60 (down_since 0 ∷ up_since 1 ∷ up_since 2 ∷ [])
      (up_since 3 ∷ up_since 1 ∷ down_since 12 ∷ []) 1 (up_since 1) (omega arith)
      (inr (omega arith), (inl refl, (inr (omega arith), tt))) refl refl refl

pub entries_IsPublished : IsPublished cold entries.entries
entries_IsPublished = record {
  sockets = (((λ e. false≢true ((socket_same_iff primary fallback).1 e)), tt), (tt, tt));
  handles = (((λ e. omega arith), tt), (tt, tt));
  stored = (omega arith, (omega arith, tt));
}

adopted-Adopts_example : Adopts (λ h. 20) cold entries (upstream_of fallback_text fallback ∷ [])
adopted-Adopts_example =
    adopted-Adopts (λ h. 20) cold entries (upstream_of fallback_text fallback ∷ [])
      entries_IsPublished (tt, tt)

abbrev pub here : Shared
here = record { address = 1; list = entries }

abbrev pub before_load : Observed
before_load = record {
  shared = record { address = 0; list = record { entries = []; publication = 0 } };
  selected = none;
}

observe-once_example :
    observe cold (observe cold before_load here (some 1)).0 here (some 1)
    ≡ ((observe cold before_load here (some 1)).0, none)
observe-once_example = observe-once cold cold before_load here (some 1)
