-- ===== src/Daemon/Frontends.antt =====
-- nhop/src/daemon/mod.rs: the listeners. What the system answers to the binds of one request is a
-- parameter, by the position of the bind: 0 and 1 are the front ends, the forwards start at 2. A
-- listener is what its `local_addr` answers.
pub mod Wanted
pub mod Granted
use nhop.Common.{
  ℕ, suc, Bool, Option, none, some, List, [], ◌∷◌, ◌++◌, ◌==◌, any, if◌then◌else◌, Result, ok, err,
}
use nhop.Net.{SocketAddr, socket_eq}
use nhop.Proxy.Failure.{IoError}
use nhop.Proxy.Forwards
use nhop.Proxy.Forwards.{Forward, Forwards, Listen, Target, target_of}

abbrev pub Listener : Type 0
Listener = Result IoError SocketAddr

abbrev pub Binds : Type 0
Binds = ℕ → SocketAddr → Result IoError Listener

-- A `Forwarding` is the address that it accepts on and the destination that it holds now.
pub record Bound : Type 0 where
  pub http : SocketAddr
  pub socks : SocketAddr
  pub forwards : List Forward

pub data Frontends : Type 0 where
  unbound : Frontends
  bound : Bound → Frontends

unfoldable pub listen : Bound → Listen
listen b = record { http = b.http; socks = b.socks }

unfoldable pub bind_unless_held :
    Binds → ℕ → SocketAddr → SocketAddr → Result IoError (Option Listener)
bind_unless_held binds n addr held =
    if addr == held
    then ok none
    else elim (binds n addr) [ ok listener ↦ ok (some listener) | err failure ↦ err failure ]

-- `accept_http` and `accept_socks` fail where the listener cannot name itself.
unfoldable pub move_http : Bound → Option Listener → Bound × Result IoError (Unit {0})
move_http b none = (b, ok tt)
move_http b (some (ok addr)) = (record b { http = addr }, ok tt)
move_http b (some (err failure)) = (b, err failure)

unfoldable pub move_socks : Bound → Option Listener → Bound × Result IoError (Unit {0})
move_socks b none = (b, ok tt)
move_socks b (some (ok addr)) = (record b { socks = addr }, ok tt)
move_socks b (some (err failure)) = (b, err failure)

abbrev answer_moved : Bound × Result IoError (Unit {0}) → Bound × Result IoError Listen
answer_moved (b, ok _) = (b, ok (listen b))
answer_moved (b, err failure) = (b, err failure)

abbrev then_socks :
    Option Listener → Bound × Result IoError (Unit {0}) → Bound × Result IoError Listen
then_socks socks (b, ok _) = answer_moved (move_socks b socks)
then_socks socks (b, err failure) = (b, err failure)

unfoldable pub moved : Bound → Option Listener → Option Listener → Bound × Result IoError Listen
unfolding move_http move_socks listen
moved b http socks = then_socks socks (move_http b http)

-- `Bound::rebind`
unfoldable pub rebind_bound : Binds → Bound → Listen → Bound × Result IoError Listen
unfolding bind_unless_held moved
rebind_bound binds b wanted = elim (bind_unless_held binds 0 wanted.http b.http) [
  | err failure ↦ (b, err failure)
  | ok http ↦ elim (bind_unless_held binds 1 wanted.socks b.socks) [
    | err failure ↦ (b, err failure)
    | ok socks ↦ moved b http socks
  ]
]

unfoldable pub held : Bound → SocketAddr → Bool
held b listen = any (λ (forwarding : Forward). forwarding.listen == listen) b.forwards

-- The first loop of `rebind_forwards`: what is bound before anything is closed.
unfoldable pub bind_fresh :
    Binds → ℕ → Bound → List Forward → Result IoError (List (Listener × Target))
bind_fresh binds n b [] = ok []
bind_fresh binds n b (forward ∷ wanted) =
    let kept = bind_fresh binds n b wanted in
    let more = bind_fresh binds (suc n) b wanted in
    if held b forward.listen then kept else elim (binds n forward.listen) [
      | err failure ↦ err failure
      | ok listener ↦ elim more [
        | err failure ↦ err failure
        | ok fresh ↦ ok ((listener, forward.target) ∷ fresh)
      ]
    ]

-- `retain`, and the loop that stores the wanted destinations.
unfoldable pub kept_forwards : Forwards → List Forward → List Forward
kept_forwards wanted [] = []
kept_forwards wanted (forwarding ∷ forwards) =
    let rest = kept_forwards wanted forwards in
    elim (target_of wanted forwarding.listen) [
      | none ↦ rest
      | some target ↦ record { listen = forwarding.listen; target = target } ∷ rest
    ]

-- The last loop.
unfoldable pub accept_fresh :
    List Forward → List (Listener × Target) → List Forward × Result IoError (Unit {0})
accept_fresh forwards [] = (forwards, ok tt)
accept_fresh forwards ((err failure, target) ∷ fresh) = (forwards, err failure)
accept_fresh forwards ((ok addr, target) ∷ fresh) =
    accept_fresh (forwards ++ record { listen = addr; target = target } ∷ []) fresh

-- `Bound::forwards`
unfoldable pub declared : List Forward → Forwards → Forwards
declared [] forwards = forwards
declared (forwarding ∷ more) forwards = declared more (Forwards.push forwards forwarding).0

-- What `rebind_forwards` leaves and answers.
abbrev pub accepted :
    Bound → List Forward × Result IoError (Unit {0}) → Bound × Result IoError Forwards
accepted b (forwards, ok _) = (record b { forwards = forwards }, ok (declared forwards []))
accepted b (forwards, err failure) = (record b { forwards = forwards }, err failure)

unfoldable pub rebind_bound_forwards : Binds → Bound → Forwards → Bound × Result IoError Forwards
unfolding bind_fresh kept_forwards accept_fresh declared
rebind_bound_forwards binds b wanted = elim (bind_fresh binds 2 b wanted) [
  | err failure ↦ (b, err failure)
  | ok fresh ↦ accepted b (accept_fresh (kept_forwards wanted b.forwards) fresh)
]

-- `Frontends::bind`, and `listening`.
unfoldable pub bind : Binds → Listen → Result IoError Frontends
bind binds wanted = elim (binds 0 wanted.http) [
  | err failure ↦ err failure
  | ok http ↦ elim (binds 1 wanted.socks) [
    | err failure ↦ err failure
    | ok socks ↦ elim http [
      | err failure ↦ err failure
      | ok http_addr ↦ elim socks [
        | err failure ↦ err failure
        | ok socks_addr ↦
            ok (bound (record { http = http_addr; socks = socks_addr; forwards = [] }))
      ]
    ]
  ]
]

unfoldable pub listening : Frontends → Option Listen
unfolding listen
listening unbound = none
listening (bound b) = some (listen b)

unfoldable pub rebind : Binds → Frontends → Listen → Frontends × Result IoError Listen
unfolding rebind_bound
rebind binds unbound wanted = (unbound, ok wanted)
rebind binds (bound b) wanted = let (b', answer) = rebind_bound binds b wanted in (bound b', answer)

unfoldable pub rebind_forwards : Binds → Frontends → Forwards → Frontends × Result IoError Forwards
unfolding rebind_bound_forwards
rebind_forwards binds unbound wanted = (unbound, ok wanted)
rebind_forwards binds (bound b) wanted =
    let (b', answer) = rebind_bound_forwards binds b wanted in (bound b', answer)
