-- ===== src/Proxy/Socks5.antt =====
-- nhop/src/proxy/socks5.rs: the SOCKS5 front end. What the client sends before it closes is a list
-- of bytes, and a read that it does not fill ends the connection; what the front end writes is a
-- list of bytes too.
pub mod Reads
pub mod Requests
pub mod Greetings
pub mod Answers
use nhop.Common.{
  ℕ, zero, suc, ◌+◌, ◌*◌, ◌/◌, ◌%◌, ◌^◌, Bool, true, false, Option, none, some, List, [], ◌∷◌, ◌++◌,
  ◌==◌, nat_eq, any, if◌then◌else◌, Result, ok, err, not,
}
use nhop.Net.{Platform, SocketAddr}
use nhop.Text.{Text, text}
use nhop.Text.Numbers.{show}
use nhop.Text.Utf8.{Bytes, from_utf8}
use nhop.Wire.{Host, Port}
use nhop.Rules.Decision.{Decision}
use nhop.Rules.Ruleset.{Ruleset, decide}
use nhop.Proxy.Failure.{IoError, dials_itself, carried_by, Stream, Dialled, Connect, timed}
use nhop.Proxy.Guard
use nhop.Proxy.Guard.{Loop, own_address}

abbrev pub version : ℕ
version = 5

abbrev pub no_auth_method : ℕ
no_auth_method = 0

abbrev pub no_acceptable_method : ℕ
no_acceptable_method = 0xff

abbrev pub connect_command : ℕ
connect_command = 1

abbrev pub atyp_ipv4 : ℕ
atyp_ipv4 = 1

abbrev pub atyp_domain : ℕ
atyp_domain = 3

abbrev pub atyp_ipv6 : ℕ
atyp_ipv6 = 4

pub data Greeting : Type 0 where
  no_auth rejected : Greeting

pub data Reply : Type 0 where
  granted failure not_allowed host_unreachable command_not_supported address_not_supported : Reply

unfoldable pub code : Reply → ℕ
code Reply.granted = 0x00
code Reply.failure = 0x01
code Reply.not_allowed = 0x02
code Reply.host_unreachable = 0x04
code Reply.command_not_supported = 0x07
code Reply.address_not_supported = 0x08

pub data Requested : Type 0 where
  connect : Host → Port → Requested
  refused : Reply → Requested

abbrev pub behind : ℕ → Option (Bytes × Bytes) → Option (Bytes × Bytes)
behind b none = none
behind b (some (taken, rest)) = some (b ∷ taken, rest)

-- `read_exact` of a number of bytes: they and what is left, or nothing where the client ends first.
unfoldable pub read_exact : ℕ → Bytes → Option (Bytes × Bytes)
read_exact zero input = some ([], input)
read_exact (suc n) [] = none
read_exact (suc n) (b ∷ input) = behind b (read_exact n input)

abbrev pub greeting_of : Bytes → Greeting
greeting_of offered =
    if any (λ (method : ℕ). method == no_auth_method) offered
    then Greeting.no_auth
    else Greeting.rejected

abbrev pub greeted : Option (Bytes × Bytes) → Option (Greeting × Bytes)
greeted none = none
greeted (some (offered, rest)) = some (greeting_of offered, rest)

unfoldable pub greet : Bytes → Option (Greeting × Bytes)
unfolding read_exact
greet (got ∷ count ∷ input) =
    let offered = greeted (read_exact count input) in
    if got == version then offered else some (Greeting.rejected, input)
greet (_ ∷ []) = none
greet [] = none

-- `u16::from_be_bytes`, behind the host.
abbrev pub with_port : Host → Bytes → Option (Requested × Bytes)
with_port host (high ∷ low ∷ rest) = some (Requested.connect host (high * 2 ^ 8 + low), rest)
with_port host (_ ∷ []) = none
with_port host [] = none

-- `Ipv4Addr::to_string`, and the number that 16 octets are.
abbrev pub show_v4 : ℕ → ℕ → ℕ → ℕ → Text
show_v4 a b c d = show a ++ (text "." ++ (show b ++ (text "." ++ (show c ++ (text "." ++ show d)))))

abbrev pub from_octets : ℕ → Bytes → ℕ
from_octets bits [] = bits
from_octets bits (octet ∷ octets) = from_octets (bits * 2 ^ 8 + octet) octets

abbrev pub with_name : Option Text → Bytes → Option (Requested × Bytes)
with_name none rest = some (Requested.refused Reply.failure, rest)
with_name (some []) rest = some (Requested.refused Reply.failure, rest)
with_name (some (c ∷ name)) rest = with_port (c ∷ name) rest

abbrev pub named : Option (Bytes × Bytes) → Option (Requested × Bytes)
named none = none
named (some (name, rest)) = with_name (from_utf8 name) rest

module _ {N : Type 0} (p : Platform N) where
  abbrev pub addressed : Option (Bytes × Bytes) → Option (Requested × Bytes)
  addressed none = none
  addressed (some (octets, rest)) = with_port (p.show_v6 (from_octets 0 octets)) rest

  unfoldable pub request_ipv4 : Bytes → Option (Requested × Bytes)
  request_ipv4 (a ∷ b ∷ c ∷ d ∷ rest) = with_port (show_v4 a b c d) rest
  request_ipv4 (a ∷ b ∷ c ∷ []) = none
  request_ipv4 (a ∷ b ∷ []) = none
  request_ipv4 (a ∷ []) = none
  request_ipv4 [] = none

  unfoldable pub request_domain : Bytes → Option (Requested × Bytes)
  unfolding read_exact from_utf8
  request_domain (length ∷ input) = named (read_exact length input)
  request_domain [] = none

  unfoldable pub request_ipv6 : Bytes → Option (Requested × Bytes)
  unfolding read_exact
  request_ipv6 input = addressed (read_exact 16 input)

  unfoldable pub request : Bytes → Option (Requested × Bytes)
  unfolding request_ipv4 request_domain request_ipv6
  request (got ∷ command ∷ reserved ∷ atyp ∷ input) =
      if not (got == version)
      then some (Requested.refused Reply.failure, input)
      else if not (command == connect_command)
      then some (Requested.refused Reply.command_not_supported, input)
      else if atyp == atyp_ipv4
      then request_ipv4 input
      else if atyp == atyp_domain
      then request_domain input
      else if atyp == atyp_ipv6
      then request_ipv6 input
      else some (Requested.refused Reply.address_not_supported, input)
  request (_ ∷ _ ∷ _ ∷ []) = none
  request (_ ∷ _ ∷ []) = none
  request (_ ∷ []) = none
  request [] = none

unfoldable pub refusal : IoError → Reply
unfolding carried_by
refusal reason = elim (carried_by reason) [
  | none ↦ Reply.failure
  | some down ↦ Reply.host_unreachable
]

-- What `chosen` and `answer` write; the address bound is not told.
abbrev pub chosen : ℕ → Bytes
chosen method = version ∷ method ∷ []

unfoldable pub answer : Reply → Bytes
unfolding code
answer reply = version ∷ code reply ∷ 0 ∷ atyp_ipv4 ∷ 0 ∷ 0 ∷ 0 ∷ 0 ∷ 0 ∷ 0 ∷ []

-- What a connection was routed by, as its event reports it.
pub record RoutedBy : Type 0 where
  pub host : Host
  pub port : Port
  pub decision : Decision
  pub connect : Connect

-- What the front end wrote, how the connection was routed, if it was, the stream it relays, and
-- what it failed with.
pub record Served : Type 0 where
  pub written : Bytes
  pub routed : Option RoutedBy
  pub relays : Option Stream
  pub failure : Option IoError

abbrev ends_early : Bytes → Served
ends_early written = record {
  written = written;
  routed = none;
  relays = none;
  failure = some IoError.unexpected_eof;
}

abbrev refuses : Bytes → Served
refuses written = record { written = written; routed = none; relays = none; failure = none }

abbrev pub after : Bytes → Served → Served
after written served = record served { written = written ++ served.written }

abbrev routed_by : Host → Port → Decision → Connect → Option RoutedBy
routed_by host port decision how =
    some (record { host = host; port = port; decision = decision; connect = how })

-- `relay`, on what the dial gave and how long it took.
unfoldable pub relay : Host → Port → Decision → Connect × Result IoError Stream → Served
unfolding answer refusal
relay host port decision (how, ok next) = record {
  written = answer Reply.granted;
  routed = routed_by host port decision how;
  relays = some next;
  failure = none;
}
relay host port decision (how, err reason) = record {
  written = answer (refusal reason);
  routed = routed_by host port decision how;
  relays = none;
  failure = some reason;
}

unfoldable pub refuse_loop : Host → Port → Decision → SocketAddr → Served
unfolding answer
refuse_loop host port decision listening = record {
  written = answer Reply.not_allowed;
  routed = routed_by host port decision Connect.refused;
  relays = none;
  failure = some (dials_itself listening);
}

-- A destination that is the front end itself is not dialled.
abbrev pub guarded : Host → Port → Decision → Connect × Result IoError Stream → Loop → Served
guarded host port decision dialled (Loop.own listening) = refuse_loop host port decision listening
guarded host port decision dialled Loop.elsewhere = relay host port decision dialled

-- `local` is what `local_addr` of the client's socket answers, `hop` the dial, `took` its time.
module _ {N : Type 0} (p : Platform N) (rules : Ruleset N) (local : Result IoError SocketAddr)
    (hop : Host → Port → Decision → Dialled) (took : ℕ) where
  unfoldable pub route : Host → Port → Served
  unfolding relay refuse_loop
  route host port =
      let decision = decide p rules host port in
      guarded host port decision (timed (hop host port decision) took)
        (own_address p local host port)

  abbrev pub requested : Option (Requested × Bytes) → Served
  requested none = ends_early []
  requested (some (Requested.refused reply, rest)) = refuses (answer reply)
  requested (some (Requested.connect host port, rest)) = route host port

  abbrev pub after_greeting : Option (Greeting × Bytes) → Served
  after_greeting none = ends_early []
  after_greeting (some (Greeting.rejected, rest)) = refuses (chosen no_acceptable_method)
  after_greeting (some (Greeting.no_auth, rest)) =
      after (chosen no_auth_method) (requested (request p rest))

  unfoldable pub serve : Bytes → Served
  unfolding greet request route
  serve input = after_greeting (greet input)
