-- ===== src/Upstream/Health.antt =====
-- nhop/src/upstream/health.rs: the verdicts. A handle is shared, so verdicts live in a store and a
-- handle is a place in it; a time is a count of the clock's ticks.
pub mod Recording
use nhop.Common.{
  ℕ, zero, suc, ◌+◌, ◌<◌, ◌≡◌, ◌↔◌, arith, Bool, true, false, Option, none, some, ◌==◌, Eq, nat_eq,
  if◌then◌else◌,
}
use nhop.Wire.{HealthState, UpstreamAddr}

abbrev pub SystemTime : Type 0
SystemTime = ℕ

abbrev pub Duration : Type 0
Duration = ℕ

pub data VerdictCause : Type 0 where
  probe dial : VerdictCause

pub data SwitchCause : Type 0 where
  down held recovered reload : SwitchCause

pub record Health : Type 0 where
  pub state : HealthState
  pub changed_at : SystemTime

abbrev pub HealthHandle : Type 0
HealthHandle = ℕ

-- Every handle below `next` has been given out.
pub record Verdicts : Type 0 where
  pub next : ℕ
  pub judged : HealthHandle → UpstreamAddr
  pub health : HealthHandle → Health

-- The log line of a turnover.
pub record Turnover : Type 0 where
  pub upstream : UpstreamAddr
  pub verdict_from : HealthState
  pub verdict_to : HealthState
  pub cause : VerdictCause

abbrev pub write {ℓ} : {A : Type ℓ} → (ℕ → A) → ℕ → A → ℕ → A
write f n a m = if n == m then a else f m

abbrev pub state_same : HealthState → HealthState → Bool
state_same HealthState.up HealthState.up = true
state_same HealthState.down HealthState.down = true
state_same _ _ = false

pub state_same_iff : (a b : HealthState) → (state_same a b ≡ true) ↔ (a ≡ b)
state_same_iff a b = ground arith

instance abbrev pub state_eq : Eq HealthState
state_eq = record { same = state_same; same_iff = state_same_iff }

-- `HealthHandle::judging`; `now` is the clock that `Health::default` reads.
unfoldable pub judging : Verdicts → UpstreamAddr → SystemTime → Verdicts × HealthHandle
judging v upstream now = (
  record {
    next = suc v.next;
    judged = write v.judged v.next upstream;
    health = write v.health v.next (record { state = HealthState.down; changed_at = now });
  },
  v.next,
)

unfoldable pub verdict : Verdicts → HealthHandle → Health
verdict v handle = v.health handle

unfoldable pub state : Verdicts → HealthHandle → HealthState
unfolding verdict
state v handle = (verdict v handle).state

unfoldable pub changed_at : Verdicts → HealthHandle → SystemTime
unfolding verdict
changed_at v handle = (verdict v handle).changed_at

-- `HealthHandle::same`: both handles are one place.
abbrev pub same : HealthHandle → HealthHandle → Bool
same a b = a == b

-- The closure that `settle` swaps by.
unfoldable pub settled : Health → HealthState → SystemTime → Health
settled h observed at = record {
  state = observed;
  changed_at = if h.state == observed then h.changed_at else at;
}

unfoldable pub settle : Verdicts → HealthHandle → HealthState → SystemTime → Verdicts × Health
unfolding settled
settle v handle observed at = (
  record v { health = write v.health handle (settled (v.health handle) observed at) },
  v.health handle,
)

unfoldable pub set_at :
    Verdicts → HealthHandle → HealthState → VerdictCause → SystemTime → Verdicts × Option Turnover
unfolding settle
set_at v handle observed cause at =
    let (v', previous) = settle v handle observed at in
    (
      v',
      if previous.state == observed
          then none
          else some (record {
            upstream = v.judged handle;
            verdict_from = previous.state;
            verdict_to = observed;
            cause = cause;
          }),
    )

-- `set` is `set_at` at the clock's reading.
unfoldable pub set :
    Verdicts → HealthHandle → HealthState → VerdictCause → SystemTime → Verdicts × Option Turnover
unfolding set_at
set v handle observed cause now = set_at v handle observed cause now

unfoldable pub seed : Verdicts → HealthHandle → HealthState → SystemTime → Verdicts
unfolding settle
seed v handle observed now = (settle v handle observed now).0
