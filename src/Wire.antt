-- ===== src/Wire.antt =====
-- nhop-ipc/src/command.rs and view.rs: the values that travel between the parts.
use nhop.Common.{ℕ, ◌≡◌, ◌↔◌, arith, Bool, true, false, Option, List, [], ◌∷◌, some, Eq, nat_eq}
use nhop.Net.{SocketAddr}
use nhop.Text.{Text, text}

pub data RuleClass : Type 0 where
  require prefer never : RuleClass

abbrev pub class_same : RuleClass → RuleClass → Bool
class_same require require = true
class_same prefer prefer = true
class_same never never = true
class_same _ _ = false

pub class_same_iff : (a b : RuleClass) → (class_same a b ≡ true) ↔ (a ≡ b)
class_same_iff a b = ground arith

instance abbrev pub class_eq : Eq RuleClass
class_eq = record { same = class_same; same_iff = class_same_iff }

pub data RuleKind : Type 0 where
  suffix cidr port keyword : RuleKind

pub data DecisionKind : Type 0 where
  direct never upstream : DecisionKind

pub data EffectiveHop : Type 0 where
  direct upstream fallback_direct : EffectiveHop

pub data HealthState : Type 0 where
  up down : HealthState

pub data LoadOutcome : Type 0 where
  ok failed timed_out : LoadOutcome

pub data ErrKind : Type 0 where
  not_found upstream_down invalid_args load_in_progress internal : ErrKind

-- A load's identifier, a port, a host, a rule's value and an upstream's address are the number or
-- the text that each wraps.
abbrev pub LoadId : Type 0
LoadId = ℕ

abbrev pub Port : Type 0
Port = ℕ

abbrev pub Host : Type 0
Host = Text

abbrev pub RuleValue : Type 0
RuleValue = Text

abbrev pub UpstreamAddr : Type 0
UpstreamAddr = Text

pub data Command : Type 0 where
  add_rule : RuleClass → RuleKind → RuleValue → Option LoadId → Command
  clear_rules : Option LoadId → Command
  set_upstream : UpstreamAddr → Option LoadId → Command
  set_upstreams : UpstreamAddr → List UpstreamAddr → Option LoadId → Command
  set_listen : SocketAddr → SocketAddr → Option LoadId → Command
  add_forward : SocketAddr → Host → Port → Option LoadId → Command
  reload : Option Text → Command
  on off status rules : Command
  test : Host → Port → Command
  doctor subscribe : Command

-- `Command::upstreams` and `Command::unreadable_upstream`.
unfoldable pub upstreams : UpstreamAddr → List UpstreamAddr → Option LoadId → Command
upstreams addr [] load = set_upstream addr load
upstreams addr (f ∷ fallbacks) load = set_upstreams addr (f ∷ fallbacks) load

unfoldable pub unreadable_upstream : LoadId → Command
unreadable_upstream load =
    set_upstream (text "upstream fallbacks need a newer nhop daemon") (some load)
