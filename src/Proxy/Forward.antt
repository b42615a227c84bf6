-- ===== src/Proxy/Forward.antt =====
-- nhop/src/proxy/forward.rs: the forward front end, whose every connection goes to one destination.
pub mod Honest
use nhop.Common.{ℕ, Option, none, some, Result, ok, err}
use nhop.Net.{SocketAddr, Platform}
use nhop.Text.{Text}
use nhop.Wire.{HealthState, Host, Port}
use nhop.Rules.Decision.{Decision}
use nhop.Rules.Ruleset.{Ruleset, decide}
use nhop.Proxy.Failure.{Stream, IoError, dials_itself, Dialled, Connect, timed}
use nhop.Proxy.Forwards.{Target}
use nhop.Proxy.Guard.{Loop, own_address}
use nhop.Proxy.Events.{EventView}
use nhop.Proxy.Routed.{Routed, begun, dialled, ended}

-- The event that the connection leaves, the stream that it was relayed to, and what it failed with.
pub record Served : Type 0 where
  pub event : EventView
  pub relays : Option Stream
  pub failure : Option IoError

-- What happens outside of the front end while it serves: what `local_addr` of the accepted socket
-- answers, the verdict of the selected upstream, the dial and how long it took, what relaying to a
-- stream fails with, and the clock when the connection begins and ends.
pub record Outside : Type 0 where
  pub local_addr : Result IoError SocketAddr
  pub verdict : HealthState
  pub dial : Host → Port → Decision → Dialled
  pub took : ℕ
  pub copied : Stream → Option IoError
  pub began : ℕ
  pub now : ℕ
  pub display : IoError → Text

unfoldable pub refuse_loop : Outside → SocketAddr → Routed → Served
unfolding ended dialled
refuse_loop o listening routed = record {
  event = ended o.display (dialled routed Connect.refused) (some (dials_itself listening)) o.now;
  relays = none;
  failure = some (dials_itself listening);
}

unfoldable pub relay : Outside → Routed → Connect × Result IoError Stream → Served
unfolding ended dialled
relay o routed (connect, ok next) = record {
  event = ended o.display (dialled routed connect) (o.copied next) o.now;
  relays = some next;
  failure = o.copied next;
}
relay o routed (connect, err failure) = record {
  event = ended o.display (dialled routed connect) (some failure) o.now;
  relays = none;
  failure = some failure;
}

abbrev pub guarded : Outside → Routed → Connect × Result IoError Stream → Loop → Served
guarded o routed reached (Loop.own listening) = refuse_loop o listening routed
guarded o routed reached Loop.elsewhere = relay o routed reached

unfoldable pub serve : {N : Type 0} → Platform N → Ruleset N → Outside → Target → Served
unfolding begun refuse_loop relay timed
serve p rules o target =
    let decision = decide p rules target.host target.port in
    guarded o (begun o.verdict target.host target.port decision o.began)
      (timed (o.dial target.host target.port decision) o.took)
      (own_address p o.local_addr target.host target.port)
