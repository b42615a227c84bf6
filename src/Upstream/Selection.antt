-- ===== src/Upstream/Selection.antt =====
-- nhop/src/upstream/select.rs: the log of every move of new connections between upstreams. An
-- `Arc` is an address with the list behind it.
pub mod Once
use nhop.Common.{
  ℕ, Bool, true, false, Option, none, some, List, [], ◌∷◌, ltb, ◌==◌, nat_eq, if◌then◌else◌,
  get_elem?,
}
use nhop.Net.{SocketAddr, socket_eq}
use nhop.Wire.{HealthState, UpstreamAddr}
use nhop.Text.{Text}
use nhop.Proxy.Upstreams.{Upstream}
use nhop.Upstream.Health
use nhop.Upstream.Health.{Verdicts, SwitchCause}
use nhop.Upstream.Entries.{UpstreamEntry, UpstreamEntries, published_before, empty}

pub record Shared : Type 0 where
  pub address : ℕ
  pub list : UpstreamEntries

pub record Observed : Type 0 where
  pub shared : Shared
  pub selected : Option ℕ

pub record Switch : Type 0 where
  pub from : Option UpstreamAddr
  pub to : Option UpstreamAddr
  pub cause : SwitchCause

abbrev written_of : Option Upstream → Option UpstreamAddr
written_of none = none
written_of (some upstream) = some upstream.written

unfoldable pub upstream_at : UpstreamEntries → Option ℕ → Option Upstream
upstream_at list none = none
upstream_at list (some index) = elim (get_elem? list.entries index) [
  | none ↦ none
  | some entry ↦ some entry.upstream
]

unfoldable pub same_socket : Option Upstream → Option Upstream → Bool
same_socket (some from) (some to) = from.socket == to.socket
same_socket none none = true
same_socket (some from) none = false
same_socket none (some to) = false

abbrev state_at : Verdicts → Option UpstreamEntry → HealthState
state_at v none = HealthState.down
state_at v (some entry) = Health.state v entry.health

unfoldable pub cause : Verdicts → UpstreamEntries → Option ℕ → Option ℕ → SwitchCause
cause v list none new = SwitchCause.recovered
cause v list (some previous) new = elim (state_at v (get_elem? list.entries previous)) [
  | HealthState.down ↦ SwitchCause.down
  | HealthState.up ↦ elim new [
    | none ↦ SwitchCause.down
    | some index ↦ if ltb index previous then SwitchCause.held else SwitchCause.down
  ]
]

-- The closure that `switched` swaps by.
unfoldable pub replaced : Observed → Shared → Option ℕ → Observed
replaced current shared new =
    if published_before shared.list current.shared.list
    then current
    else record { shared = shared; selected = new }

unfoldable pub switched : Verdicts → Observed → Shared → Option ℕ → Observed × Option Switch
switched v previous shared new =
    let from = upstream_at previous.shared.list previous.selected in
    let to = upstream_at shared.list new in
    (
      replaced previous shared new,
      if published_before shared.list previous.shared.list
          then none
          else if same_socket from to
          then none
          else some (record {
            from = written_of from;
            to = written_of to;
            cause =
                if previous.shared.address == shared.address
                then cause v shared.list previous.selected new
                else SwitchCause.reload;
          }),
    )

-- The fields of the line that `observe` logs.
pub record SwitchLine : Type 0 where
  pub upstream_from : Text
  pub upstream_to : Text
  pub switch_cause : SwitchCause

unfoldable pub logged_addr : Option UpstreamAddr → Text
logged_addr none = []
logged_addr (some addr) = addr

unfoldable pub observe : Verdicts → Observed → Shared → Option ℕ → Observed × Option SwitchLine
observe v previous shared new =
    let (next, moved) = switched v previous shared new in
    (
      next,
      elim moved [
        | none ↦ none
        | some s ↦ some (record {
          upstream_from = logged_addr s.from;
          upstream_to = logged_addr s.to;
          switch_cause = s.cause;
        })
      ],
    )
