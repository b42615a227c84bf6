-- ===== src/Proxy/Forward/Honest.antt =====
-- nhop/src/proxy/forward.rs with nhop/src/upstream/mod.rs: the event of a connection says the way
-- that it went.
use nhop.Common.{◌≡◌, none, some}
use nhop.Rules.Ruleset.{Ruleset}
use nhop.Proxy.Failure.{dials_itself}
use nhop.Proxy.Guard.{Loop}
use nhop.Proxy.Routed.{Routed}
use nhop.Proxy.Forward.{Served, Outside}
use nhop.Upstream.Health.{Verdicts, SystemTime, Duration}
use nhop.Upstream.Entries.{UpstreamEntry}
use nhop.Upstream.Selection.{Shared, Observed}
use nhop.Upstream.Entries
use nhop.Upstream.Dial.Way.{Way, way}
use nhop.Upstream.Dial.{Network, dial}

-- The hop and the upstream that the event tells, and the stream that the connection is relayed to.
abbrev pub told : Served → Way
told s = (s.event.hop, s.event.via, s.relays)

-- What the event tells and what is relayed, where the destination is the front end itself and where
-- it is not.
abbrev pub Tells : Loop → Way → Served → Type 0
Tells (Loop.own listening) way s =
    (told s ≡ (none, none, none)) × (s.failure ≡ some (dials_itself listening))
Tells Loop.elsewhere way s = told s ≡ way

-- The front end with the router's own dialer.
abbrev pub with_dialer :
    Outside
    → Network
    → Duration
    → Verdicts
    → SystemTime
    → Observed
    → Shared
    → Verdicts
    → SystemTime
    → Outside
with_dialer o net hold v₀ began seen shared v now = record o {
  dial = λ host port decision. (dial net host port hold v₀ began seen shared v now decision).2.2;
}
