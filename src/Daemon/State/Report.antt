-- ===== src/Daemon/State/Report.antt =====
-- nhop/src/daemon/state.rs: what `status` and `doctor` read of the state.
use nhop.Common.{ℕ, none, some, [], nat_eq, min}
use nhop.Wire.{RuleClass, UpstreamAddr}
use nhop.Rules.Ruleset
use nhop.Rules.Ruleset.{Ruleset}
use nhop.Proxy.Forwards.{Listen}
use nhop.Upstream.Health.{Health, verdict}
use nhop.Upstream.Entries
use nhop.Upstream.Entries.{UpstreamEntry, UpstreamEntries, adopted, selected}
use nhop.Cli.Explain.{u32_max}
use nhop.Cli.Status.{BindState, DaemonStatus, upstream_views}
use nhop.Daemon.Frontends.{Frontends}
use nhop.Daemon.State.{DaemonState, Machine, Effect}

abbrev pub counted : ℕ → ℕ
counted count = min count u32_max

module _ {N : Type 0} where
  -- `first`: the pair that `status` reports of the preferred upstream.
  unfoldable pub first : DaemonState N → UpstreamAddr × Health
  first s = elim (Entries.first s.upstreams) [
    | none ↦ ([], s.unconfigured)
    | some entry ↦ (entry.upstream.written, verdict s.verdicts entry.health)
  ]

  unfoldable pub bind_state : DaemonState N → BindState
  bind_state s = elim s.frontends [
    | Frontends.unbound ↦ BindState.unbound
    | Frontends.bound b ↦ BindState.bound
  ]

  unfoldable pub listen : DaemonState N → Listen
  listen s = record { http = s.http_listen; socks = s.socks_listen }

  unfoldable pub doctor : DaemonState N → ℕ → Effect
  unfolding listen bind_state
  doctor s reply =
      Effect.diagnosing reply (listen s) s.forwards (bind_state s) s.last_load s.upstreams

module _ {N : Type 0} (m : Machine) where
  unfoldable pub daemon_status : DaemonState N → DaemonStatus
  unfolding first bind_state listen
  daemon_status s =
      let (upstream, health) = first s in
      record {
        uptime_secs = m.uptime_secs;
        listen = listen s;
        bound = bind_state s;
        forwards = s.forwards;
        upstream = upstream;
        health = health;
        upstreams =
            upstream_views s.verdicts s.upstreams (selected s.verdicts s.upstreams m.now s.hold);
        init_path = s.init_path;
        last_load = s.last_load;
        rules = record {
          require = counted (Ruleset.count s.rules RuleClass.require);
          prefer = counted (Ruleset.count s.rules RuleClass.prefer);
          never = counted (Ruleset.count s.rules RuleClass.never);
        };
      }

  unfoldable pub report : DaemonState N → ℕ → Effect
  unfolding daemon_status
  report s reply = Effect.reporting reply (daemon_status s)
