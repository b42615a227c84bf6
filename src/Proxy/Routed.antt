-- ===== src/Proxy/Routed.antt =====
-- nhop/src/proxy/mod.rs: one connection, from the decision that routed it to the event it leaves.
-- Times are counted in nanoseconds; `display` renders an `io::Error`.
use nhop.Common.{ℕ, ◌-◌, ◌/◌, ◌^◌, min, Option, none, some}
use nhop.Text.{Text}
use nhop.Wire.{EffectiveHop, HealthState, Host, Port, UpstreamAddr}
use nhop.Rules.Decision.{Decision, RuleId, kind, rule, class}
use nhop.Proxy.Failure.{IoError, Connect}
use nhop.Proxy.Events.{EventView}
use nhop.Upstream.Health.{Duration}

pub record Routed : Type 0 where
  pub host : Host
  pub port : Port
  pub decision : Decision
  pub upstream : HealthState
  pub connect : Option Duration
  pub hop : Option EffectiveHop
  pub via : Option UpstreamAddr
  pub started : ℕ

unfoldable pub begun : HealthState → Host → Port → Decision → ℕ → Routed
begun upstream host port decision now = record {
  host = host;
  port = port;
  decision = decision;
  upstream = upstream;
  connect = none;
  hop = none;
  via = none;
  started = now;
}

unfoldable pub dialled : Routed → Connect → Routed
dialled r Connect.refused = record r { connect = none; hop = none; via = none }
dialled r (Connect.attempted took hop via) = record r {
  connect = some took;
  hop = some hop;
  via = via;
}

abbrev millis_bound : ℕ
millis_bound = 2 ^ 64 - 1

unfoldable pub millis : Duration → ℕ
millis took = min (took / 10 ^ 6) millis_bound

abbrev index_bound : ℕ
index_bound = 2 ^ 32 - 1

abbrev narrowed : Option RuleId → Option ℕ
narrowed none = none
narrowed (some index) = some (min index index_bound)

unfoldable pub matched_index : Decision → Option ℕ
matched_index decision = narrowed (rule decision)

abbrev pub mapped {ℓ κ} : {A : Type ℓ} {B : Type κ} → (A → B) → Option A → Option B
mapped f none = none
mapped f (some a) = some (f a)

-- What `ended` writes to the log and publishes; `now` is the clock when the connection has ended.
unfoldable pub ended : (IoError → Text) → Routed → Option IoError → ℕ → EventView
unfolding kind class matched_index millis
ended display r failure now = record {
  host = r.host;
  port = r.port;
  decision = kind r.decision;
  rule_index = matched_index r.decision;
  class = class r.decision;
  upstream = r.upstream;
  connect_ms = mapped millis r.connect;
  hop = r.hop;
  via = r.via;
  duration_ms = millis (now - r.started);
  error = mapped display failure;
}
