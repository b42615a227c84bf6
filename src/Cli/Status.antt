-- ===== src/Cli/Status.antt =====
-- nhop/src/cli/status.rs and nhop-ipc/src/view.rs: what `status` reports of the daemon's own state.
use nhop.Common.{ℕ, suc, Bool, true, false, Option, some, List, [], ◌∷◌, nat_eq, option_same}
use nhop.Text.{Text}
use nhop.Wire.{HealthState, LoadOutcome, UpstreamAddr}
use nhop.Proxy.Forwards.{Listen, Forwards}
use nhop.Upstream.Health.{Health, Verdicts, SystemTime, verdict}
use nhop.Upstream.Entries.{UpstreamEntry, UpstreamEntries}

abbrev pub PathBuf : Type 0
PathBuf = Text

pub data BindState : Type 0 where
  bound unbound : BindState

abbrev pub is_bound : BindState → Bool
is_bound bound = true
is_bound unbound = false

pub record LastLoadView : Type 0 where
  pub at : SystemTime
  pub outcome : LoadOutcome
  pub command : Option Text

pub record RuleCountsView : Type 0 where
  pub require : ℕ
  pub prefer : ℕ
  pub never : ℕ

pub record UpstreamView : Type 0 where
  pub addr : UpstreamAddr
  pub health : HealthState
  pub health_changed_at : SystemTime
  pub selected : Bool

pub record DaemonStatus : Type 0 where
  pub uptime_secs : ℕ
  pub listen : Listen
  pub bound : BindState
  pub forwards : Forwards
  pub upstream : UpstreamAddr
  pub health : Health
  pub upstreams : List UpstreamView
  pub init_path : Option PathBuf
  pub last_load : Option LastLoadView
  pub rules : RuleCountsView

-- The loop of `upstream_views`, from an index.
unfoldable pub views_from : Verdicts → Option ℕ → ℕ → List UpstreamEntry → List UpstreamView
views_from v selected index [] = []
views_from v selected index (entry ∷ entries) =
    record {
      addr = entry.upstream.written;
      health = (verdict v entry.health).state;
      health_changed_at = (verdict v entry.health).changed_at;
      selected = option_same selected (some index);
    }
    ∷ views_from v selected (suc index) entries

unfoldable pub upstream_views : Verdicts → UpstreamEntries → Option ℕ → List UpstreamView
unfolding views_from
upstream_views v list selected = views_from v selected 0 list.entries
