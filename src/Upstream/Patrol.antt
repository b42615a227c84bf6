-- ===== src/Upstream/Patrol.antt =====
-- nhop/src/upstream/mod.rs: the patrol, which probes every published upstream. A round takes the
-- entries in the order in which their probes return; a probe that is lost returns nothing.
pub mod Rounds
use nhop.Common.{
  ℕ, ◌+◌, ◌-◌, ◌*◌, ◌^◌, Option, none, some, Bool, true, false, List, [], ◌∷◌, ◌++◌, leb, ltb, ◌==◌,
  if◌then◌else◌, Result, ok, err, min,
}
use nhop.Net.{SocketAddr}
use nhop.Wire.{HealthState}
use nhop.Proxy.Failure.{Stream, SocksError}
use nhop.Upstream.Health
use nhop.Upstream.Health.{
  Verdicts, HealthHandle, Turnover, VerdictCause, SystemTime, Duration, state_same, same,
}
use nhop.Upstream.Entries
use nhop.Upstream.Entries.{UpstreamEntry, UpstreamEntries}
use nhop.Upstream.Select.{seconds}
use nhop.Upstream.Dial.{Answer, DialFailure, failed_dial, within}
use nhop.Upstream.Selection.{Shared, Observed, SwitchLine, observe}

abbrev pub probe_interval : Duration
probe_interval = seconds 5

abbrev pub probe_timeout : Duration
probe_timeout = seconds 2

abbrev pub probe_confirm_delay : Duration
probe_confirm_delay = seconds 1

abbrev pub no_upstream_tick : Duration
no_upstream_tick = 250 * 10 ^ 6

-- LOAD_TIMEOUT and the interval.
abbrev pub no_upstream_eager : Duration
no_upstream_eager = seconds 30 + probe_interval

abbrev pub answered : DialFailure → HealthState
answered (DialFailure.destination failure) = HealthState.up
answered (DialFailure.unsent failure) = HealthState.down
answered (DialFailure.upstream failure) = HealthState.down

abbrev pub judged_by : Option (Result SocksError Stream) → HealthState
judged_by none = HealthState.down
judged_by (some (ok stream)) = HealthState.up
judged_by (some (err failure)) = answered (failed_dial failure)

-- `probes` is the handshake that asks an upstream for its own address.
unfoldable pub probe : (SocketAddr → Answer) → SocketAddr → HealthState
unfolding failed_dial within
probe probes socket = judged_by (within probe_timeout (probes socket))

pub record Pending : Type 0 where
  pub target : HealthState
  pub health : HealthHandle

abbrev pub is_banked : Option HealthState → HealthState → Bool
is_banked none seen = false
is_banked (some target) seen = state_same target seen

-- The store and its log line, and the sequence that is left.
unfoldable pub advance :
    Option HealthState
    → HealthState
    → Verdicts
    → HealthHandle
    → SystemTime
    → Verdicts × Option Turnover × Option HealthState
advance banked seen v health started =
    if state_same (Health.state v health) seen
    then (v, none, none)
    else if is_banked banked seen
    then (let (v', line) = Health.set_at v health seen VerdictCause.probe started in
        (v', line, none))
    else (v, none, some seen)

-- The search for the sequence banked for a handle.
unfoldable pub banked_for : List Pending → HealthHandle → Option HealthState
banked_for [] health = none
banked_for (p ∷ pending) health =
    if same p.health health then some p.target else banked_for pending health

abbrev pub left_pending : Option HealthState → HealthHandle → List Pending
left_pending none health = []
left_pending (some target) health = record { target = target; health = health } ∷ []

module _ (probes : SocketAddr → Answer) (started : SystemTime) (pending : List Pending) where
  -- One turn of the loop over the returned probes, against the store as it then is.
  unfoldable pub fold_in : Verdicts → UpstreamEntry → Verdicts × List Pending
  fold_in v entry =
      let (v', line, target) =
        advance (banked_for pending entry.health) (probe probes entry.upstream.socket) v
          entry.health started in
      (v', left_pending target entry.health)

  unfoldable pub round : Verdicts → List UpstreamEntry → Verdicts × List Pending
  round v [] = (v, [])
  round v (entry ∷ returned) =
      let (v₁, left) = fold_in v entry in let (v', next) = round v₁ returned in (v', left ++ next)

-- `Duration::MAX`
abbrev duration_max : Duration
duration_max = seconds (2 ^ 64 - 1) + (10 ^ 9 - 1)

pub record PatrolState : Type 0 where
  pub pending : List Pending
  pub looking : Duration

abbrev is_empty {ℓ} : {A : Type ℓ} → List A → Bool
is_empty [] = true
is_empty (x ∷ xs) = false

-- A turn of the loop of `patrol` that finds nothing published: the state that it leaves, and how
-- long it sleeps.
unfoldable pub look_again : Duration → PatrolState → PatrolState × Duration
look_again interval s =
    let tick =
      if ltb s.looking no_upstream_eager then min no_upstream_tick interval else interval in
    (record { pending = []; looking = min (s.looking + tick) duration_max }, tick)

unfoldable pub waited : Duration → Duration → List Pending → Duration
waited interval confirm_delay pending = if is_empty pending then interval else confirm_delay

-- What a turn of the loop leaves, and how long it sleeps.
pub record Turn : Type 0 where
  pub verdicts : Verdicts
  pub state : PatrolState
  pub observed : Observed
  pub line : Option SwitchLine
  pub sleeps : Duration

-- What a turn meets: the list published as it begins and the instant, the order in which the probes
-- of the entries return, and the list published and the instant once they have.
pub record Meets : Type 0 where
  pub snapshot : UpstreamEntries
  pub started : SystemTime
  pub returned : List UpstreamEntry
  pub later : Shared
  pub now : SystemTime

module _ (interval confirm_delay hold : Duration) (probes : SocketAddr → Answer) where
  abbrev observing : Observed → Meets → Verdicts × List Pending → Turn
  observing observed m (v, pending) =
      let (observed', line) =
        observe v observed m.later (Entries.selected v m.later.list m.now hold) in
      record {
        verdicts = v;
        state = record { pending = pending; looking = 0 };
        observed = observed';
        line = line;
        sleeps = waited interval confirm_delay pending;
      }

  abbrev resting : Verdicts → Observed → PatrolState × Duration → Turn
  resting v observed (state, tick) = record {
    verdicts = v;
    state = state;
    observed = observed;
    line = none;
    sleeps = tick;
  }

  -- One turn of the loop of `patrol`.
  unfoldable pub turn : Verdicts → Observed → PatrolState → Meets → Turn
  turn v observed s m =
      if is_empty m.snapshot.entries
      then resting v observed (look_again interval s)
      else observing observed m (round probes m.started s.pending v m.returned)
