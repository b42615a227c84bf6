-- ===== src/Proxy/Forwards.antt =====
-- nhop/src/proxy/mod.rs: what a forward is, and the set of forwards that a load declares.
pub mod Pushed
use nhop.Common.{
  Bool, Option, none, some, List, [], ◌∷◌, ◌++◌, map, ◌==◌, if◌then◌else◌, any, Result, ok, err,
}
use nhop.Net.{SocketAddr, socket_eq}
use nhop.Wire.{Host, Port}

pub record Listen : Type 0 where
  pub http : SocketAddr
  pub socks : SocketAddr

pub record Target : Type 0 where
  pub host : Host
  pub port : Port

pub record Forward : Type 0 where
  pub listen : SocketAddr
  pub target : Target

pub record ForwardView : Type 0 where
  pub listen : SocketAddr
  pub host : Host
  pub port : Port

pub data DuplicateForward : Type 0 where
  duplicate_forward : SocketAddr → DuplicateForward

-- `Forwards` holds its forwards and nothing else.
abbrev pub Forwards : Type 0
Forwards = List Forward

-- The loop of `push`.
unfoldable pub declares : Forwards → SocketAddr → Bool
declares forwards listen = any (λ (declared : Forward). declared.listen == listen) forwards

unfoldable pub push : Forwards → Forward → Forwards × Result DuplicateForward (Unit {0})
unfolding declares
push forwards forward =
    if declares forwards forward.listen
    then (forwards, err (duplicate_forward forward.listen))
    else (forwards ++ forward ∷ [], ok tt)

unfoldable pub target_of : Forwards → SocketAddr → Option Target
target_of [] listen = none
target_of (forward ∷ forwards) listen =
    if forward.listen == listen then some forward.target else target_of forwards listen

unfoldable pub view : Forward → ForwardView
view forward = record {
  listen = forward.listen;
  host = forward.target.host;
  port = forward.target.port;
}

unfoldable pub views : Forwards → List ForwardView
unfolding view
views forwards = map view forwards
