-- ===== src/Upstream/Select.antt =====
-- nhop/src/upstream/select.rs: `select`, the entry that new connections go through.
pub mod Correct
pub mod Stable
use nhop.Common.{
  ℕ, zero, suc, ◌+◌, ◌-◌, ◌*◌, ◌^◌, Bool, true, false, Option, none, some, List, [], ◌∷◌, ltb, leb,
  if◌then◌else◌, ◌&&◌,
}
use nhop.Wire.{HealthState, up, down}
use nhop.Upstream.Health.{Health, SystemTime, Duration}

-- Durations are counted in nanoseconds.
abbrev pub seconds : ℕ → Duration
seconds n = n * 10 ^ 9

abbrev pub return_hold : Duration
return_hold = seconds 60

-- `held`: `duration_since` fails where the verdict settled after `now`.
unfoldable pub held : SystemTime → SystemTime → Duration → Bool
held changed_at now hold = leb changed_at now && leb hold (now - changed_at)

-- One `Up` verdict that is not held, against the longest seen.
abbrev pub longer : Option (ℕ × SystemTime) → ℕ → SystemTime → Option (ℕ × SystemTime)
longer none index changed_at = some (index, changed_at)
longer (some (earliest, since)) index changed_at =
    if ltb changed_at since then some (index, changed_at) else some (earliest, since)

abbrev pub index_of : Option (ℕ × SystemTime) → Option ℕ
index_of none = none
index_of (some (index, since)) = some index

module _ (now : SystemTime) (hold : Duration) where
  -- The loop, from an index and the longest seen before it.
  unfoldable pub select_from : ℕ → Option (ℕ × SystemTime) → List Health → Option ℕ
  select_from index longest [] = index_of longest
  select_from index longest (v ∷ entries) = elim v.state [
    | down ↦ select_from (suc index) longest entries
    | up ↦ elim (held v.changed_at now hold) [
      | true ↦ some index
      | false ↦ select_from (suc index) (longer longest index v.changed_at) entries
    ]
  ]

unfoldable pub select : List Health → SystemTime → Duration → Option ℕ
unfolding select_from
select entries now hold = select_from now hold 0 none entries
