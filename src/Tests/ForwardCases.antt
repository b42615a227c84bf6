-- ===== src/Tests/ForwardCases.antt =====
-- nhop/src/proxy/mod.rs and forward.rs: cases of the events and of the forward front end.
use nhop.Common.{◌≡◌, refl, none, some, List, [], ◌∷◌, ok}
use nhop.Net.{socket_v4, localhost_v4}
use nhop.Text.{Text, text}
use nhop.Wire.{DecisionKind, EffectiveHop, RuleClass, up}
use nhop.Proxy.Failure.{IoError, Dialled}
use nhop.Proxy.Forwards.{Target}
use nhop.Proxy.Events.{EventView, Subscriber}
use nhop.Proxy.Events.Counted.{Room, offer_all}
use nhop.Proxy.Forward.{Outside}
use nhop.Upstream.Entries

abbrev event : EventView
event = record {
  host = text "www.example";
  port = 443;
  decision = DecisionKind.upstream;
  rule_index = some 0;
  class = some RuleClass.require;
  upstream = up;
  connect_ms = some 12;
  hop = some EffectiveHop.upstream;
  via = some (text "192.0.2.10:1080");
  duration_ms = 90;
  error = none;
}

abbrev subscriber : Subscriber
subscriber = record { events = 0; dropped = 0 }

abbrev full_then_room : List (EventView × Room)
full_then_room = (event, Room.no_room) ∷ (event, Room.no_room) ∷ (event, Room.room) ∷ []

-- The third event tells of the two before it.
dropped_two :
    (offer_all subscriber full_then_room).1 ≡ record event { error = some (text "dropped 2") } ∷ []
unfolding offer_all nhop.Text.Numbers.show
dropped_two = refl

abbrev pub outside : Outside
outside = record {
  local_addr = ok (socket_v4 localhost_v4 19000);
  verdict = up;
  dial = λ host port decision. Dialled.refused IoError.unexpected_eof;
  took = 5;
  copied = λ stream. none;
  began = 0;
  now = 7;
  display = λ failure. text "failed";
}

abbrev target : Target
target = record { host = text "www.example"; port = 443 }
