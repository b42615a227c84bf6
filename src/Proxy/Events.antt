-- ===== src/Proxy/Events.antt =====
-- nhop/src/proxy/mod.rs: the subscribers to the stream of decisions. A channel is the number that
-- names it, and what it answers to an event that is offered is an argument.
pub mod Counted
use nhop.Common.{
  ℕ, zero, suc, ◌+◌, ◌^◌, ◌-◌, min, Bool, true, false, Option, none, some, List, [], ◌∷◌, ◌++◌,
}
use nhop.Text.{Text, text}
use nhop.Text.Numbers.{show}
use nhop.Wire.{DecisionKind, EffectiveHop, HealthState, Host, Port, RuleClass, UpstreamAddr}

pub record EventView : Type 0 where
  pub host : Host
  pub port : Port
  pub decision : DecisionKind
  pub rule_index : Option ℕ
  pub class : Option RuleClass
  pub upstream : HealthState
  pub connect_ms : Option ℕ
  pub hop : Option EffectiveHop
  pub via : Option UpstreamAddr
  pub duration_ms : ℕ
  pub error : Option Text

-- What `mpsc::Sender::try_send` answers.
pub data TrySend : Type 0 where
  sent full closed : TrySend

abbrev pub Sender : Type 0
Sender = ℕ

pub record Subscriber : Type 0 where
  pub events : Sender
  pub dropped : ℕ

pub data Delivery : Type 0 where
  kept gone : Delivery

abbrev told : ℕ → Option Text → Text
told dropped none = text "dropped " ++ show dropped
told dropped (some error) = text "dropped " ++ (show dropped ++ (text ": " ++ error))

unfoldable pub reporting : EventView → ℕ → EventView
reporting event dropped = record event { error = some (told dropped event.error) }

-- The event as it is put into the channel.
unfoldable pub offered : ℕ → EventView → EventView
unfolding reporting
offered zero event = event
offered (suc dropped) event = reporting event (suc dropped)

abbrev u64_max : ℕ
u64_max = 2 ^ 64 - 1

-- The subscriber after `offer`, whether it is still listening, and what its channel has taken.
unfoldable pub offer : Subscriber → EventView → TrySend → Subscriber × Delivery × List EventView
unfolding offered
offer s event TrySend.sent = (record s { dropped = 0 }, Delivery.kept, offered s.dropped event ∷ [])
offer s event TrySend.full = (record s { dropped = min (s.dropped + 1) u64_max }, Delivery.kept, [])
offer s event TrySend.closed = (s, Delivery.gone, [])

abbrev pub EventTx : Type 0
EventTx = List Subscriber

-- `subscribe`, given the channel that it opens.
unfoldable pub subscribe : EventTx → Sender → EventTx
subscribe subscribers events = subscribers ++ record { events = events; dropped = 0 } ∷ []

abbrev pub retained : Subscriber × Delivery × List EventView → EventTx → EventTx
retained (s, Delivery.kept, taken) subscribers = s ∷ subscribers
retained (s, Delivery.gone, taken) subscribers = subscribers

unfoldable pub publish : (Sender → TrySend) → EventView → EventTx → EventTx
unfolding offer
publish answer event [] = []
publish answer event (s ∷ subscribers) =
    retained (offer s event (answer s.events)) (publish answer event subscribers)
