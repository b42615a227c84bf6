-- ===== src/Upstream/Entries.antt =====
-- nhop/src/upstream/entries.rs: the published list of upstreams, each with its verdict's handle.
pub mod Adopted
pub mod Reload
use nhop.Common.{
  ℕ, suc, ◌+◌, ◌^◌, ◌-◌, Bool, true, false, Option, none, some, List, [], ◌∷◌, map, ltb, ◌==◌,
  if◌then◌else◌, get_elem?, min,
}
use nhop.Net.{SocketAddr, socket_eq}
use nhop.Proxy.Upstreams.{Upstream, Upstreams}
use nhop.Upstream.Health.{Health, HealthHandle, Verdicts, SystemTime, Duration, judging, verdict}
use nhop.Upstream.Select.{select}

pub record UpstreamEntry : Type 0 where
  pub upstream : Upstream
  pub health : HealthHandle

-- `publication` is a `u64` that saturates.
pub record UpstreamEntries : Type 0 where
  pub entries : List UpstreamEntry
  pub publication : ℕ

abbrev pub u64_max : ℕ
u64_max = 2 ^ 64 - 1

abbrev pub empty : UpstreamEntries
empty = record { entries = []; publication = 0 }

-- The inner loop of `adopted`.
unfoldable pub kept_handle : List UpstreamEntry → SocketAddr → Option HealthHandle
kept_handle [] socket = none
kept_handle (kept ∷ more) socket =
    if kept.upstream.socket == socket then some kept.health else kept_handle more socket

-- The outer loop. `clock` is what a fresh handle's `Health::default` reads.
unfoldable pub adopt :
    (HealthHandle → SystemTime)
    → List UpstreamEntry
    → Verdicts
    → Upstreams
    → Verdicts × List UpstreamEntry
adopt clock kept v [] = (v, [])
adopt clock kept v (upstream ∷ next) = elim (kept_handle kept upstream.socket) [
  | some handle ↦
      let (v', entries) = adopt clock kept v next in
      (v', record { upstream = upstream; health = handle } ∷ entries)
  | none ↦
      let (v₁, handle) = judging v upstream.written (clock v.next) in
      let (v', entries) = adopt clock kept v₁ next in
      (v', record { upstream = upstream; health = handle } ∷ entries)
]

unfoldable pub adopted :
    (HealthHandle → SystemTime)
    → Verdicts
    → UpstreamEntries
    → Upstreams
    → Verdicts × UpstreamEntries
unfolding adopt
adopted clock v kept next =
    let (v', entries) = adopt clock kept.entries v next in
    (v', record { entries = entries; publication = min (kept.publication + 1) u64_max })

unfoldable pub published_before : UpstreamEntries → UpstreamEntries → Bool
published_before list other = ltb list.publication other.publication

unfoldable pub first : UpstreamEntries → Option UpstreamEntry
first list = get_elem? list.entries 0

unfoldable pub entry_at : UpstreamEntries → Option ℕ → Option UpstreamEntry
entry_at list none = none
entry_at list (some selected) = get_elem? list.entries selected

unfoldable pub required : UpstreamEntries → Option ℕ → Option UpstreamEntry
unfolding entry_at first
required list selected = elim (entry_at list selected) [
  | none ↦ first list
  | some entry ↦ some entry
]

unfoldable pub verdicts : Verdicts → List UpstreamEntry → List Health
unfolding verdict
verdicts v entries = map (λ (entry : UpstreamEntry). verdict v entry.health) entries

unfoldable pub selected : Verdicts → UpstreamEntries → SystemTime → Duration → Option ℕ
unfolding verdicts
selected v list now hold = select (verdicts v list.entries) now hold
