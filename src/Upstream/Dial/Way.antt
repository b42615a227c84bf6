-- ===== src/Upstream/Dial/Way.antt =====
-- nhop/src/upstream/mod.rs: the way that a dial goes. A way is the hop and the upstream that are
-- reported, and the stream that carries the connection.
use nhop.Common.{
  ◌≡◌, refl, ap, ◌∙◌, arith, Option, none, some, leb, if◌then◌else◌, ℕ, Result, ok, err,
}
use nhop.Net.{SocketAddr}
use nhop.Wire.{EffectiveHop, Host, Port, RuleClass, UpstreamAddr}
use nhop.Rules.Decision.{Decision, RuleId}
use nhop.Proxy.Failure.{Stream, IoError, Dialled}
use nhop.Upstream.Health.{Verdicts, SystemTime, Duration}
use nhop.Upstream.Entries
use nhop.Upstream.Entries.{UpstreamEntry, UpstreamEntries, entry_at}
use nhop.Upstream.Select.{seconds}
use nhop.Upstream.Selection.{Shared, Observed}
use nhop.Upstream.Dial.{
  Network, Answer, UpstreamBudget, DialFailure, upstream, destination, unsent, within, dial_outcome,
  through, required, preferred, routed, dial,
}

abbrev pub Way : Type 0
Way = Option EffectiveHop × Option UpstreamAddr × Option Stream

-- The stream that a handshake gives within a time.
abbrev pub obtained : Duration → Answer → Option Stream
obtained budget Answer.silent = none
obtained budget (Answer.answers after (err failure)) = none
obtained budget (Answer.answers after (ok stream)) = if leb after budget then some stream else none

abbrev pub stream_of : {E : Type 0} → Result E Stream → Option Stream
stream_of (ok stream) = some stream
stream_of (err failure) = none

abbrev pub way_of : Dialled → Way
way_of (Dialled.refused failure) = (none, none, none)
way_of (Dialled.attempted hop via next) = (some hop, via, stream_of next)

outcome-obtained :
    (socket : SocketAddr) (budget : Duration) (a : Answer)
    → stream_of (dial_outcome socket budget (within budget a)) ≡ obtained budget a
unfolding dial_outcome within
outcome-obtained socket budget Answer.silent = refl
outcome-obtained socket budget (Answer.answers after (err failure)) = ground arith
outcome-obtained socket budget (Answer.answers after (ok stream)) = ground arith

module _ (net : Network) (host : Host) (port : Port) where
  abbrev pub directly : EffectiveHop → Way
  directly hop = (some hop, none, stream_of (net.connect host port))

  abbrev pub carried_way : UpstreamEntry → Option Stream → Way
  carried_way entry stream = (some EffectiveHop.upstream, some entry.upstream.written, stream)

  -- A require rule: the stream of the handshake, or none.
  abbrev pub required_way : Option UpstreamEntry → Way
  required_way none = (none, none, none)
  required_way (some entry) =
      carried_way entry (obtained (seconds 10) (net.socks entry.upstream.socket host port))

  abbrev pub or_directly : UpstreamEntry → Option Stream → Way
  or_directly entry none = directly EffectiveHop.fallback_direct
  or_directly entry (some stream) = carried_way entry (some stream)

  -- A prefer rule: the stream of the handshake, or else a direct one.
  abbrev pub preferred_way : Option UpstreamEntry → Way
  preferred_way none = directly EffectiveHop.fallback_direct
  preferred_way (some entry) =
      or_directly entry (obtained (seconds 2) (net.socks entry.upstream.socket host port))

  -- The way of a decision, given the list and the index selected in it.
  abbrev pub way : UpstreamEntries → Option ℕ → Decision → Way
  way list selected Decision.direct = directly EffectiveHop.direct
  way list selected (Decision.never rule) = directly EffectiveHop.direct
  way list selected (Decision.upstream RuleClass.never rule) = directly EffectiveHop.direct
  way list selected (Decision.upstream RuleClass.require rule) =
      required_way (Entries.required list selected)
  way list selected (Decision.upstream RuleClass.prefer rule) =
      preferred_way (entry_at list selected)

  module _ (v : Verdicts) (now : SystemTime) where
    required-carried :
        (rule : RuleId) (entry : UpstreamEntry) (reached : Result DialFailure Stream)
        → through net host port entry.upstream.socket UpstreamBudget.require ≡ reached
        → way_of (required net host port v now rule (some entry)).2
          ≡ carried_way entry (stream_of reached)
    unfolding required
    required-carried rule entry (ok next) e = rw (e, way_of) refl
    required-carried rule entry (err (destination failure)) e = rw (e, way_of) refl
    required-carried rule entry (err (unsent failure)) e = rw (e, way_of) refl
    required-carried rule entry (err (upstream failure)) e = rw (e, way_of) refl

    pub required-way :
        (rule : RuleId) (entry : Option UpstreamEntry)
        → way_of (required net host port v now rule entry).2 ≡ required_way entry
    unfolding required through
    required-way rule none = refl
    required-way rule (some entry) =
        required-carried rule entry _ refl
        ∙ ap (carried_way entry) (
            outcome-obtained entry.upstream.socket (seconds 10)
              (net.socks entry.upstream.socket host port))

    preferred-carried :
        (entry : UpstreamEntry) (reached : Result DialFailure Stream)
        → through net host port entry.upstream.socket UpstreamBudget.prefer ≡ reached
        → way_of (preferred net host port v now (some entry)).2
          ≡ or_directly entry (stream_of reached)
    unfolding preferred
    preferred-carried entry (ok next) e = rw (e, way_of) refl
    preferred-carried entry (err (destination failure)) e = rw (e, way_of) refl
    preferred-carried entry (err (unsent failure)) e = rw (e, way_of) refl
    preferred-carried entry (err (upstream failure)) e = rw (e, way_of) refl

    pub preferred-way :
        (entry : Option UpstreamEntry)
        → way_of (preferred net host port v now entry).2 ≡ preferred_way entry
    unfolding preferred through
    preferred-way none = refl
    preferred-way (some entry) =
        preferred-carried entry _ refl
        ∙ ap (or_directly entry) (
            outcome-obtained entry.upstream.socket (seconds 2)
              (net.socks entry.upstream.socket host port))

    pub dial-way :
        (hold : Duration) (v₀ : Verdicts) (began : SystemTime) (seen : Observed) (shared : Shared)
        (decision : Decision)
        → way_of (dial net host port hold v₀ began seen shared v now decision).2.2
          ≡ way shared.list (Entries.selected v₀ shared.list began hold) decision
    unfolding dial routed
    dial-way hold v₀ began seen shared Decision.direct = refl
    dial-way hold v₀ began seen shared (Decision.never rule) = refl
    dial-way hold v₀ began seen shared (Decision.upstream RuleClass.never rule) = refl
    dial-way hold v₀ began seen shared (Decision.upstream RuleClass.require rule) =
        required-way rule _
    dial-way hold v₀ began seen shared (Decision.upstream RuleClass.prefer rule) = preferred-way _

    -- What a require dial comes to: its way, and that no answer of the network to a direct
    -- connection has a part in it.
    pub record GoesUpstream (hold : Duration) (v₀ : Verdicts) (began : SystemTime) (seen : Observed)
        (shared : Shared) (rule : RuleId) : Type 0 where
      pub way :
          way_of
            (dial net host port hold v₀ began seen shared v now
              (Decision.upstream RuleClass.require rule)).2.2
          ≡ required_way (Entries.required shared.list (Entries.selected v₀ shared.list began hold))
      pub undirected :
          (connect : Host → Port → Result IoError Stream)
          → dial
              (record net { connect = connect })
              host
              port
              hold
              v₀
              began
              seen
              shared
              v
              now
              (Decision.upstream RuleClass.require rule)
            ≡ dial net host port hold v₀ began seen shared v now
                (Decision.upstream RuleClass.require rule)
