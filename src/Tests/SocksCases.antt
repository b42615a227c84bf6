-- ===== src/Tests/SocksCases.antt =====
-- nhop/src/proxy/: cases of the loop guard and of the SOCKS5 front end.
use nhop.Common.{ℕ, none, some, [], ◌∷◌, ◌++◌, ok, ◌≡◌, ◌↔◌, refl, true}
use nhop.Net.{v4, SocketAddr, socket_v4, localhost_v4}
use nhop.Text.{text}
use nhop.Text.Utf8.{Bytes}
use nhop.Wire.{Host, Port, EffectiveHop}
use nhop.Rules.Decision.{Decision}
use nhop.Rules.Matcher.{normalized}
use nhop.Rules.Ruleset.{decide}
use nhop.Proxy.Failure.{Dialled, timed}
use nhop.Proxy.Guard.{dials_itself, own_address}
use nhop.Proxy.Guard.Reached.{IsOwn, dials_itself_iff}
use nhop.Proxy.Socks5.{Requested, greet, request, serve}
use nhop.Proxy.Socks5.{Greeting, greet}
use nhop.Proxy.Socks5.Greetings.{Offers, greet_iff}
use nhop.Proxy.Socks5.Requests.{IsConnect, request_iff}
use nhop.Proxy.Socks5.Answers.{Answers, serve-Answers}
use nhop.Tests.Fixtures.{platform, rules}

abbrev listening : SocketAddr
listening = socket_v4 localhost_v4 1080

dials_itself_iff_example : (dials_itself platform (text "localhost") 1080 listening ≡ true) ↔ (
    ◌≡◌ {A = ℕ} 1080 1080
    × IsOwn
        (normalized platform (text "localhost")).host
        (normalized platform (text "localhost")).address
        (v4 localhost_v4))
dials_itself_iff_example = dials_itself_iff platform (text "localhost") 1080 listening

abbrev greeting : Bytes
greeting = 5 ∷ 1 ∷ 0 ∷ []

-- A request for port 443 of the host of a fixture's rule.
abbrev asks : Bytes
asks = 5 ∷ 1 ∷ 0 ∷ 3 ∷ 7 ∷ (text "example" ++ (1 ∷ 187 ∷ []))

greet_iff_example :
    (greet (greeting ++ asks) ≡ some (Greeting.no_auth, asks)) ↔ Offers (greeting ++ asks) asks
greet_iff_example = greet_iff (greeting ++ asks) asks

request_iff_example :
    (request platform asks ≡ some (Requested.connect (text "example") 443, []))
    ↔ IsConnect platform (text "example") 443 asks []
request_iff_example = request_iff platform (text "example") 443 asks []

abbrev connects : Host → Port → Decision → Dialled
connects host port decision = Dialled.attempted EffectiveHop.direct none (ok 6)

serve-Answers_example :
    Answers
      (own_address platform (ok listening) (text "example") 443)
      (timed (connects (text "example") 443 (decide platform rules (text "example") 443)) 3).1
      (serve platform rules (ok listening) connects 3 (greeting ++ asks))
unfolding greet request
serve-Answers_example =
    serve-Answers platform rules (ok listening) connects 3 (text "example") 443 (greeting ++ asks)
      asks [] refl refl
