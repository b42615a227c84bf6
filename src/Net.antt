-- ===== src/Net.antt =====
-- `std::net` addresses, and what the router takes from code that is not its own.
use nhop.Common.{
  ℕ, ◌+◌, ◌*◌, ◌/◌, ◌%◌, ◌^◌, ◌≡◌, ◌↔◌, arith, Bool, true, false, ◌&&◌, Option, none, some, ◌==◌,
  Eq, nat_eq, if◌then◌else◌,
}
use nhop.Text.{Text}

-- An address is its bits, read as one number.
pub data IpAddr : Type 0 where
  v4 : ℕ → IpAddr
  v6 : ℕ → IpAddr

abbrev pub ip_same : IpAddr → IpAddr → Bool
ip_same (v4 a) (v4 b) = a == b
ip_same (v6 a) (v6 b) = a == b
ip_same _ _ = false

pub ip_same_iff : (a b : IpAddr) → (ip_same a b ≡ true) ↔ (a ≡ b)
ip_same_iff (v4 a) (v4 b) = ground arith
ip_same_iff (v4 a) (v6 b) = ground arith
ip_same_iff (v6 a) (v4 b) = ground arith
ip_same_iff (v6 a) (v6 b) = ground arith

instance abbrev pub ip_eq : Eq IpAddr
ip_eq = record { same = ip_same; same_iff = ip_same_iff }

-- `to_ipv4_mapped`: the addresses ::ffff:a.b.c.d.
unfoldable pub to_ipv4_mapped : ℕ → Option ℕ
to_ipv4_mapped bits = if bits / 2 ^ 32 == 0xffff then some (bits % 2 ^ 32) else none

unfoldable pub is_loopback : IpAddr → Bool
is_loopback (v4 a) = a / 2 ^ 24 == 127
is_loopback (v6 a) = a == 1

unfoldable pub is_unspecified : IpAddr → Bool
is_unspecified (v4 a) = a == 0
is_unspecified (v6 a) = a == 0

-- The flow label and the scope of an IPv6 socket address count in its equality.
pub record SocketAddr : Type 0 where
  pub ip : IpAddr
  pub port : ℕ
  pub flowinfo : ℕ
  pub scope_id : ℕ

abbrev pub socket_same : SocketAddr → SocketAddr → Bool
socket_same a b =
    ip_same a.ip b.ip && a.port == b.port && a.flowinfo == b.flowinfo && a.scope_id == b.scope_id

pub socket_same_iff : (a b : SocketAddr) → (socket_same a b ≡ true) ↔ (a ≡ b)
socket_same_iff a b = ground (arith, ip_same_iff a.ip b.ip)

instance abbrev pub socket_eq : Eq SocketAddr
socket_eq = record { same = socket_same; same_iff = socket_same_iff }

-- `SocketAddr::new` of an IPv4 address.
abbrev pub socket_v4 : ℕ → ℕ → SocketAddr
socket_v4 ip port = record { ip = v4 ip; port = port; flowinfo = 0; scope_id = 0 }

abbrev pub localhost_v4 : ℕ
localhost_v4 = 127 * 2 ^ 24 + 1

-- `Ipv6Addr::to_string` and the readers of addresses, the networks of the crate `ipnet`, and the
-- case tables of Unicode.
pub record Platform (Network : Type 0) : Type 0 where
  pub parse_ip : Text → Option IpAddr
  pub parse_socket : Text → Option SocketAddr
  pub show_v6 : ℕ → Text
  pub parse_network : Text → Option Network
  pub network_contains : Network → IpAddr → Bool
  pub unicode_lowercase : Text → Text
