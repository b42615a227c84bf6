-- ===== src/Cli/StatusView.antt =====
-- nhop/src/cli/status.rs and nhop-ipc/src/view.rs: the status as the client receives it.
use nhop.Common.{ℕ, Bool, Option, List}
use nhop.Net.{SocketAddr}
use nhop.Wire.{HealthState, UpstreamAddr}
use nhop.Proxy.Forwards.{ForwardView, views}
use nhop.Upstream.Health.{SystemTime}
use nhop.Cli.Status.{PathBuf, DaemonStatus, LastLoadView, RuleCountsView, UpstreamView, is_bound}
use nhop.Cli.SystemProxy
use nhop.Cli.SystemProxy.{SystemProxy, SystemProxyView}

pub record StatusView : Type 0 where
  pub uptime_secs : ℕ
  pub http_listen : SocketAddr
  pub http_bound : Bool
  pub socks_listen : SocketAddr
  pub socks_bound : Bool
  pub forwards : List ForwardView
  pub upstream : UpstreamAddr
  pub health : HealthState
  pub health_changed_at : SystemTime
  pub upstreams : List UpstreamView
  pub init_path : Option PathBuf
  pub last_load : Option LastLoadView
  pub rules : RuleCountsView
  pub system_proxy : SystemProxyView

unfoldable pub status_view : DaemonStatus → SystemProxy → StatusView
unfolding views SystemProxy.view
status_view state proxy = record {
  uptime_secs = state.uptime_secs;
  http_listen = state.listen.http;
  http_bound = is_bound state.bound;
  socks_listen = state.listen.socks;
  socks_bound = is_bound state.bound;
  forwards = views state.forwards;
  upstream = state.upstream;
  health = state.health.state;
  health_changed_at = state.health.changed_at;
  upstreams = state.upstreams;
  init_path = state.init_path;
  last_load = state.last_load;
  rules = state.rules;
  system_proxy = SystemProxy.view proxy;
}
