-- ===== src/Proxy/Socks5/Answers.antt =====
-- nhop/src/proxy/socks5.rs: what the client is answered, and what its connection is dialled to.
use nhop.Common.{
  ℕ, ◌≡◌, ◌≢◌, ◌⊎◌, inl, inr, refl, Option, none, some, [], ◌∷◌, nat_eq, Result, ok, err,
}
use nhop.Net.{Platform, SocketAddr}
use nhop.Text.Utf8.{Bytes}
use nhop.Wire.{Host, Port}
use nhop.Rules.Decision.{Decision}
use nhop.Rules.Ruleset.{Ruleset, decide}
use nhop.Proxy.Failure.{IoError, UpstreamDown, Stream, Dialled, Connect, timed, carried_by}
use nhop.Proxy.Guard.{Loop, own_address}
use nhop.Proxy.Socks5.{
  after, chosen, guarded, Greeting, Requested, Served, greet, request, relay, refuse_loop, route,
  serve, code, answer, refusal,
}

-- The six bytes behind the reply's code: no address is told.
abbrev pub nothing_bound : Bytes
nothing_bound = 0 ∷ 1 ∷ 0 ∷ 0 ∷ 0 ∷ 0 ∷ 0 ∷ 0 ∷ []

-- The method chosen, then a reply with this code.
abbrev pub replies : ℕ → Bytes
replies reply = 5 ∷ 0 ∷ 5 ∷ reply ∷ nothing_bound

abbrev pub Ends : Served → ℕ → Option Stream → Option IoError → Type 0
Ends s reply stream reason =
    (s.written ≡ replies reply) × (s.relays ≡ stream) × (s.failure ≡ reason)

-- What the dial led to: a stream, an upstream that is down, or another failure.
abbrev pub Relays : Served → Result IoError Stream → Type 0
Relays s (ok stream) = Ends s 0 (some stream) none
Relays s (err reason) =
    ((down : UpstreamDown) × (reason ≡ IoError.upstream_down down) × Ends s 4 none (some reason))
    ⊎ (((down : UpstreamDown) → reason ≢ IoError.upstream_down down) × Ends s 1 none (some reason))

-- What a client that is asked for a tunnel is answered, by what the guard and the dial say.
abbrev pub Answers : Loop → Result IoError Stream → Served → Type 0
Answers (Loop.own listening) dialled s = Ends s 2 none (some (IoError.dials_itself listening))
Answers Loop.elsewhere dialled s = Relays s dialled

relay-Relays :
    (host : Host) (port : Port) (decision : Decision) (how : Connect)
    (dialled : Result IoError Stream)
    → Relays (after (chosen 0) (relay host port decision (how, dialled))) dialled
unfolding relay answer code refusal carried_by
relay-Relays host port decision how (ok stream) = (refl, refl, refl)
relay-Relays host port decision how (err (IoError.upstream_down down)) =
    inl (down, refl, (refl, refl, refl))
relay-Relays host port decision how (err (IoError.os n)) = inr ((λ d e. cc), (refl, refl, refl))
relay-Relays host port decision how (err (IoError.socks failure)) =
    inr ((λ d e. cc), (refl, refl, refl))
relay-Relays host port decision how (err (IoError.timed_out socket limit)) =
    inr ((λ d e. cc), (refl, refl, refl))
relay-Relays host port decision how (err (IoError.dials_itself socket)) =
    inr ((λ d e. cc), (refl, refl, refl))
relay-Relays host port decision how (err IoError.unexpected_eof) =
    inr ((λ d e. cc), (refl, refl, refl))

guarded-Answers :
    (host : Host) (port : Port) (decision : Decision) (dialled : Connect × Result IoError Stream)
    (loop : Loop)
    → Answers loop dialled.1 (after (chosen 0) (guarded host port decision dialled loop))
unfolding refuse_loop answer code
guarded-Answers host port decision dialled (Loop.own listening) = (refl, refl, refl)
guarded-Answers host port decision (how, dialled) Loop.elsewhere =
    relay-Relays host port decision how dialled

module _ {N : Type 0} (p : Platform N) (rules : Ruleset N) (local : Result IoError SocketAddr)
    (hop : Host → Port → Decision → Dialled) (took : ℕ) where
  -- A client that is greeted and asks for a tunnel is answered 0x02 and relayed nowhere where the
  -- destination is the front end itself; else it is answered 0x00 and relayed to the stream
  -- dialled, 0x04 where a require rule found its upstream down, and 0x01 on any other failure,
  -- each failure being what the connection ends with.
  pub serve-Answers :
      (host : Host) (port : Port) (input more rest : Bytes)
      → greet input ≡ some (Greeting.no_auth, more)
      → request p more ≡ some (Requested.connect host port, rest)
      → Answers
          (own_address p local host port)
          (timed (hop host port (decide p rules host port)) took).1
          (serve p rules local hop took input)
  unfolding serve route
  serve-Answers host port input more rest greeted asked =
      rw (greeted, serve)
        (rw asked (
          guarded-Answers host port (decide p rules host port)
            (timed (hop host port (decide p rules host port)) took)
            (own_address p local host port)))
