-- ===== src/Proxy/Events/Counted.antt =====
-- nhop/src/proxy/mod.rs: no event is lost to a slow subscriber without being counted.
use nhop.Common.{◌≡◌, List, [], ◌∷◌, ◌++◌, map, length}
use nhop.Proxy.Events.{EventView, TrySend, Subscriber, offer, offered}

-- A channel that is open takes an event or has no room for it.
pub data Room : Type 0 where
  room no_room : Room

abbrev pub answer : Room → TrySend
answer Room.room = TrySend.sent
answer Room.no_room = TrySend.full

-- One subscriber through a run of events, each with the state of its channel: what it is owed at
-- the end, and what its channel has taken.
unfoldable pub offer_all : Subscriber → List (EventView × Room) → Subscriber × List EventView
unfolding offer
offer_all s [] = (s, [])
offer_all s ((event, r) ∷ run) =
    let step = offer s event (answer r) in
    let rest = offer_all step.0 run in (rest.0, step.2 ++ rest.1)

-- The events lost before one that is delivered, and that one.
abbrev pub Stretch : Type 0
Stretch = List EventView × EventView

-- Events that found no room.
abbrev pub losing : List EventView → List (EventView × Room)
losing lost = map (λ event. (event, Room.no_room)) lost

abbrev pub flat : List Stretch → List (EventView × Room)
flat [] = []
flat ((lost, event) ∷ stretches) = losing lost ++ (event, Room.room) ∷ flat stretches

abbrev pub delivered : Stretch → EventView
delivered (lost, event) = offered (length lost) event

-- A run is stretches of events that found no room, each up to one that found room, and some behind
-- the last of these: the channel has taken the ones that found room, and those behind are owed.
abbrev pub Accounts : List (EventView × Room) → Subscriber × List EventView → Type 0
Accounts run (s, taken) =
    (stretches : List Stretch) × (owed : List EventView) × (run ≡ flat stretches ++ losing owed)
    × (taken ≡ map delivered stretches)
    × (s.dropped ≡ length owed)
