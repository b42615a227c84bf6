-- ===== src/Proxy/Guard.antt =====
-- nhop/src/proxy/mod.rs: the loop guard, which sees that a front end would dial itself.
pub mod Reached
use nhop.Common.{
  ℕ, Bool, true, false, ◌&&◌, ◌||◌, Option, none, some, ◌==◌, nat_eq, list_eq, if◌then◌else◌,
  Result, ok, err,
}
use nhop.Net.{
  IpAddr, v4, v6, ip_eq, SocketAddr, Platform, to_ipv4_mapped, is_loopback, is_unspecified,
}
use nhop.Text.{Text, text}
use nhop.Wire.{Host, Port}
use nhop.Rules.Matcher.{normalized}
use nhop.Proxy.Failure.{IoError}

abbrev pub localhost : Text
localhost = text "localhost"

unfoldable pub canonical : IpAddr → IpAddr
unfolding to_ipv4_mapped
canonical (v4 a) = v4 a
canonical (v6 a) = elim (to_ipv4_mapped a) [ some mapped ↦ v4 mapped | none ↦ v6 a ]

pub data Loop : Type 0 where
  own : SocketAddr → Loop
  elsewhere : Loop

-- Where the destination is no address, and where it is one.
unfoldable pub names_itself : Text → IpAddr → Option IpAddr → Bool
unfolding canonical is_loopback is_unspecified
names_itself host listening none = host == localhost && is_loopback listening
names_itself host listening (some address) =
    is_unspecified (canonical address) || canonical address == listening

module _ {N : Type 0} (p : Platform N) where
  unfoldable pub dials_itself : Host → Port → SocketAddr → Bool
  unfolding names_itself
  dials_itself destination port listening =
      if port == listening.port
      then names_itself (normalized p destination).host (canonical listening.ip)
          (normalized p destination).address
      else false

  -- The argument is what `local_addr` of the accepted socket answers.
  unfoldable pub own_address : Result IoError SocketAddr → Host → Port → Loop
  unfolding dials_itself
  own_address (err failure) host port = Loop.elsewhere
  own_address (ok listening) host port =
      if dials_itself host port listening then Loop.own listening else Loop.elsewhere
