-- ===== src/Proxy/Http/Serving/Events.antt =====
-- nhop/src/proxy/http.rs with nhop/src/upstream/mod.rs: the event of a routed request says the way
-- that it went.
use nhop.Common.{ℕ, ◌≡◌, refl, ap, ◌∙◌, Option, none, some, List, take, drop, ok, err}
use nhop.Net.{SocketAddr, Platform}
use nhop.Text.{Text}
use nhop.Text.Utf8.{Bytes}
use nhop.Rules.Ruleset.{Ruleset, decide}
use nhop.Proxy.Failure.{Stream, Dialled, dials_itself, timed}
use nhop.Proxy.Guard.{Loop, own_address}
use nhop.Proxy.Events.{EventView}
use nhop.Proxy.Routed.{Routed, begun, dialled, ended}
use nhop.Proxy.Forward.{Outside}
use nhop.Proxy.Forward.Honest.{with_dialer}
use nhop.Proxy.Http.{Request, parse_head, behind_the_head, rest_of_body}
use nhop.Proxy.Http.Reading.{Head, read_head}
use nhop.Proxy.Http.Serving.{
  Served, Forward, head_of, on_head, requested, rebuilt, route, guarded, relay, refuse_loop, serve,
}
use nhop.Upstream.Health.{Verdicts, SystemTime, Duration}
use nhop.Upstream.Selection.{Shared, Observed}
use nhop.Upstream.Entries
use nhop.Upstream.Dial.{Network, dial}
use nhop.Upstream.Dial.Way.{Way, way, way_of, dial-way}

-- The stream that the connection is relayed to.
abbrev pub carrier : Option (Stream × Forward) → Option Stream
carrier none = none
carrier (some (stream, forward)) = some stream

abbrev told_by : Option EventView → Option Stream → Option Way
told_by none stream = none
told_by (some event) stream = some (event.hop, event.via, stream)

-- The hop and the upstream that the event tells, and the stream that the connection is relayed to.
abbrev pub told : Served → Option Way
told s = told_by s.event (carrier s.relays)

-- What the event tells and what is relayed, where the destination is the front end itself and where
-- it is not.
abbrev pub Reported : Loop → Way → Served → Type 0
Reported (Loop.own listening) way s =
    (told s ≡ some (none, none, none)) × (s.failure ≡ some (dials_itself listening))
Reported Loop.elsewhere way s = told s ≡ some way

module _ (o : Outside) (show_socket : SocketAddr → Text) where
  relay-told :
      (forward : Forward) (r : Routed) (reached : Dialled) (took : ℕ)
      → told (relay o show_socket forward r (timed reached took)) ≡ some (way_of reached)
  unfolding relay timed dialled ended
  relay-told forward r (Dialled.refused failure) took = refl
  relay-told forward r (Dialled.attempted hop via (ok next)) took = refl
  relay-told forward r (Dialled.attempted hop via (err failure)) took = refl

  guarded-Reported :
      (forward : Forward) (r : Routed) (reached : Dialled) (took : ℕ) (loop : Loop) (way : Way)
      → way_of reached ≡ way
      → Reported loop way (guarded o show_socket forward r (timed reached took) loop)
  unfolding refuse_loop dialled ended
  guarded-Reported forward r reached took (Loop.own listening) way h = (refl, refl)
  guarded-Reported forward r reached took Loop.elsewhere way h =
      relay-told forward r reached took ∙ ap (λ w. some w) h

module _ (o : Outside) (show_socket : SocketAddr → Text) {N : Type 0} (p : Platform N)
    (rules : Ruleset N) (net : Network) (hold : Duration) (v₀ : Verdicts) (began : SystemTime)
    (seen : Observed) (shared : Shared) (v : Verdicts) (now : SystemTime) where
  abbrev outside : Outside
  outside = with_dialer o net hold v₀ began seen shared v now

  route-Reported :
      (request : Request) (head : Text) (rest : Bytes)
      → Reported
          (own_address p o.local_addr request.host request.port)
          (way net request.host request.port shared.list
            (Entries.selected v₀ shared.list began hold)
            (decide p rules request.host request.port))
          (route outside show_socket p rules request head rest)
  unfolding route
  route-Reported request head rest =
      let decision = decide p rules request.host request.port in
      let behind = behind_the_head rest request.method request.body in
      let forward : Forward = record {
        method = request.method;
        head = head;
        behind = behind;
        rest = rest_of_body request.method request.body behind;
      } in
      guarded-Reported outside show_socket forward
        (begun o.verdict request.host request.port decision o.began)
        (dial net request.host request.port hold v₀ began seen shared v now decision).2.2 o.took
        (own_address p o.local_addr request.host request.port) _
        (dial-way net request.host request.port v now hold v₀ began seen shared decision)

  -- With the router's own dialer, a connection of the HTTP front end whose head is found, is a
  -- request and can be rewritten leaves an event. Its hop and its upstream, and the stream that
  -- the request is relayed to, are none where the destination is the front end itself, and
  -- otherwise those of its decision: a direct connection for a direct or never decision, the
  -- stream of the SOCKS handshake with the named upstream or no stream for a require rule, and
  -- that stream or else a direct connection told as the fallback for a prefer rule.
  pub serve-Reported :
      (arrivals : List Bytes) (h : Head) (request : Request) (head : Text)
      → read_head arrivals ≡ some h
      → parse_head (take h.end h.read) ≡ some request
      → head_of request.method (take h.end h.read) request.host request.port ≡ some head
      → Reported
          (own_address p o.local_addr request.host request.port)
          (way net request.host request.port shared.list
            (Entries.selected v₀ shared.list began hold)
            (decide p rules request.host request.port))
          (serve outside show_socket p rules arrivals)
  unfolding serve on_head requested rebuilt
  serve-Reported arrivals h request head found read built =
      rw (found, serve)
        (rw (read, requested)
          (rw (built, rebuilt) (route-Reported request head (drop h.end h.read))))
