-- ===== src/Proxy/Http/Serving.antt =====
-- nhop/src/proxy/http.rs: one connection of the HTTP front end. What the front end writes to the
-- client before it relays is a text, and writing it succeeds; the bytes relayed are left out.
pub mod Events
use nhop.Common.{
  ℕ, Bool, Option, none, some, List, [], ◌∷◌, ◌++◌, take, drop, length, Result, ok, err,
}
use nhop.Net.{SocketAddr, Platform}
use nhop.Text.{Text, text}
use nhop.Text.Numbers.{show}
use nhop.Text.Utf8.{Bytes, byte_len}
use nhop.Wire.{Host, Port}
use nhop.Rules.Decision.{Decision}
use nhop.Rules.Ruleset.{Ruleset, decide}
use nhop.Proxy.Failure.{Stream, IoError, UpstreamDown, dials_itself, carried_by, Connect, timed}
use nhop.Proxy.Guard.{Loop, own_address}
use nhop.Proxy.Events.{EventView}
use nhop.Proxy.Routed.{Routed, begun, dialled, ended}
use nhop.Proxy.Forward.{Outside}
use nhop.Proxy.Http.{Method, Request, Rest, behind_the_head, crlf, limit, parse_head, rest_of_body}
use nhop.Proxy.Http.Rewritten.{rewritten}
use nhop.Proxy.Http.Reading.{Head, read_head}

abbrev established : Text
established = text "HTTP/1.1 200 Connection established" ++ (crlf ++ crlf)

-- `respond`
unfoldable pub response : Text → Text → Text
response status body =
    text "HTTP/1.1 "
    ++ (status
        ++ (crlf
            ++ (text "Content-Type: text/plain"
                ++ (crlf
                    ++ (text "Content-Length: "
                        ++ (show (byte_len body)
                            ++ (crlf
                                ++ (text "Connection: close" ++ (crlf ++ (crlf ++ body))))))))))

abbrev bad_request : Text
bad_request = response (text "400 Bad Request") (text "nhop: malformed request")

abbrev bad_gateway : Text → Text
bad_gateway body = response (text "502 Bad Gateway") body

-- The bytes of one request, as the next hop receives them: a head, what was read behind it, and as
-- many bytes of the client as the rest allows.
pub record Forward : Type 0 where
  pub method : Method
  pub head : Text
  pub behind : Bytes
  pub rest : Rest

-- What was answered, the event that the connection leaves, if it was routed, the stream and the
-- request that it is sent, and what the connection failed with.
pub record Served : Type 0 where
  pub answered : Text
  pub event : Option EventView
  pub relays : Option (Stream × Forward)
  pub failure : Option IoError

abbrev unrouted : Text → Served
unrouted answered = record { answered = answered; event = none; relays = none; failure = none }

unfoldable pub head_of : Method → Bytes → Host → Port → Option Text
unfolding rewritten
head_of Method.connect head host port = some []
head_of Method.absolute head host port = rewritten head host port

abbrev greeted : Method → Text
greeted Method.connect = established
greeted Method.absolute = []

abbrev down_text : (SocketAddr → Text) → Host → Port → Option UpstreamDown → Text
down_text show_socket host port none =
    text "nhop: cannot reach " ++ (host ++ (text ":" ++ show port))
down_text show_socket host port (some down) =
    text "nhop: upstream "
    ++ (show_socket down.addr ++ (text " is down (require rule " ++ (show down.rule ++ text ")")))

module _ (o : Outside) (show_socket : SocketAddr → Text) where
  unfoldable pub refuse : IoError → Host → Port → Text
  unfolding response carried_by
  refuse failure host port = bad_gateway (down_text show_socket host port (carried_by failure))

  unfoldable pub refuse_loop : SocketAddr → Routed → Served
  unfolding response ended dialled
  refuse_loop listening routed = record {
    answered = bad_gateway (o.display (dials_itself listening));
    event =
        some
          (ended o.display (dialled routed Connect.refused) (some (dials_itself listening)) o.now);
    relays = none;
    failure = some (dials_itself listening);
  }

  unfoldable pub relay : Forward → Routed → Connect × Result IoError Stream → Served
  unfolding refuse ended dialled
  relay forward routed (connect, ok next) = record {
    answered = greeted forward.method;
    event = some (ended o.display (dialled routed connect) (o.copied next) o.now);
    relays = some (next, forward);
    failure = o.copied next;
  }
  relay forward routed (connect, err failure) = record {
    answered = refuse failure routed.host routed.port;
    event = some (ended o.display (dialled routed connect) (some failure) o.now);
    relays = none;
    failure = some failure;
  }

  abbrev pub guarded : Forward → Routed → Connect × Result IoError Stream → Loop → Served
  guarded forward routed reached (Loop.own listening) = refuse_loop listening routed
  guarded forward routed reached Loop.elsewhere = relay forward routed reached

  module _ {N : Type 0} (p : Platform N) (rules : Ruleset N) where
    -- A request with the head that its next hop receives.
    unfoldable pub route : Request → Text → Bytes → Served
    unfolding begun refuse_loop relay timed behind_the_head rest_of_body
    route request head rest =
        let decision = decide p rules request.host request.port in
        let behind = behind_the_head rest request.method request.body in
        let forward : Forward = record {
          method = request.method;
          head = head;
          behind = behind;
          rest = rest_of_body request.method request.body behind;
        } in
        guarded forward (begun o.verdict request.host request.port decision o.began)
          (timed (o.dial request.host request.port decision) o.took)
          (own_address p o.local_addr request.host request.port)

    abbrev pub rebuilt : Request → Bytes → Option Text → Served
    unfolding response route
    rebuilt request rest none = unrouted bad_request
    rebuilt request rest (some head) = route request head rest

    abbrev pub requested : Bytes → Bytes → Option Request → Served
    unfolding rebuilt head_of response
    requested head rest none = unrouted bad_request
    requested head rest (some request) =
        rebuilt request rest (head_of request.method head request.host request.port)

    abbrev pub on_head : Option Head → Served
    unfolding requested parse_head
    on_head none = unrouted []
    on_head (some h) =
        requested (take h.end h.read) (drop h.end h.read) (parse_head (take h.end h.read))

    unfoldable pub serve : List Bytes → Served
    unfolding read_head on_head
    serve arrivals = on_head (read_head arrivals)
