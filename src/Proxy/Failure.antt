-- ===== src/Proxy/Failure.antt =====
-- nhop/src/proxy/mod.rs: why a dial fails, and what it reports. An `io::Error` keeps what it
-- carries and not its rendering; a stream is the number that names it.
use nhop.Common.{ℕ, Option, none, some, Result, err}
use nhop.Net.{SocketAddr, socket_v4, localhost_v4}
use nhop.Wire.{EffectiveHop, UpstreamAddr}
use nhop.Rules.Decision.{RuleId}

abbrev pub Stream : Type 0
Stream = ℕ

-- `tokio_socks::Error`
pub data SocksError : Type 0 where
  general_socks_server_failure connection_not_allowed_by_ruleset network_unreachable : SocksError
  host_unreachable connection_refused ttl_expired address_type_not_supported : SocksError
  command_not_supported unknown_auth_method : SocksError
  invalid_target_address : SocksError
  io parse_error proxy_server_unreachable invalid_response_version : SocksError
  no_acceptable_auth_methods unknown_error invalid_reserved_byte unknown_address_type : SocksError
  invalid_auth_values password_auth_failure authorization_required : SocksError
  identd_auth_failure invalid_user_id_auth_failure : SocksError

pub record UpstreamDown : Type 0 where
  pub addr : SocketAddr
  pub rule : RuleId

pub data IoError : Type 0 where
  os : ℕ → IoError
  socks : SocksError → IoError
  timed_out : SocketAddr → ℕ → IoError
  upstream_down : UpstreamDown → IoError
  dials_itself : SocketAddr → IoError
  unexpected_eof : IoError

-- `UpstreamDown::carried_by`
unfoldable pub carried_by : IoError → Option UpstreamDown
carried_by (upstream_down d) = some d
carried_by failure = none

abbrev pub no_upstream : SocketAddr
no_upstream = socket_v4 localhost_v4 0

pub data Dialled : Type 0 where
  refused : IoError → Dialled
  attempted : EffectiveHop → Option UpstreamAddr → Result IoError Stream → Dialled

pub data Connect : Type 0 where
  refused : Connect
  attempted : ℕ → EffectiveHop → Option UpstreamAddr → Connect

unfoldable pub timed : Dialled → ℕ → Connect × Result IoError Stream
timed (Dialled.refused failure) took = (Connect.refused, err failure)
timed (Dialled.attempted hop via next) took = (Connect.attempted took hop via, next)
