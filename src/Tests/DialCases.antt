-- ===== src/Tests/DialCases.antt =====
-- nhop/src/upstream/mod.rs: cases of the dials and of the patrol.
use nhop.Common.{◌≡◌, refl, none, some, [], ◌∷◌, All, ◌==◌, nat_eq, if◌then◌else◌, ok, err}
use nhop.Net.{SocketAddr, socket_eq}
use nhop.Text.{text}
use nhop.Wire.{RuleClass, EffectiveHop, Host}
use nhop.Rules.Decision.{Decision}
use nhop.Proxy.Failure.{SocksError, Dialled}
use nhop.Upstream.Health.{state}
use nhop.Upstream.Select.{seconds}
use nhop.Upstream.Entries
use nhop.Upstream.Entries.{selected}
use nhop.Upstream.Dial.{Network, Answer, answers, silent, UpstreamBudget, through, required, dial}
use nhop.Upstream.Dial.Recovery.{required-recovers}
use nhop.Upstream.Patrol.{round}
use nhop.Upstream.Patrol.Rounds.{seen_of, two_rounds-settle}
use nhop.Tests.Fixtures.{cold, entries, primary_entry, fallback_entry, primary}
use nhop.Tests.UpstreamCases.{entries_IsPublished, here, before_load}

-- The primary connects after three seconds, the fallback is black-holed, and names resolve.
abbrev slow_primary : SocketAddr → Answer
slow_primary socket = if socket == primary then answers (seconds 3) (ok 17) else silent

abbrev pub net : Network
net = record { socks = λ socket host port. slow_primary socket; connect = λ host port. ok 23 }

abbrev host : Host
host = text "www.example"

-- A `prefer` dial gives the slow primary up, where a `require` dial waits for it.
prefer_gives_up :
    (dial net host 443 60 cold 0 before_load here cold 5 (Decision.upstream RuleClass.prefer 0)).2.2
    ≡ Dialled.attempted EffectiveHop.fallback_direct none (ok 23)
unfolding dial nhop.Upstream.Dial.preferred Entries.entry_at selected nhop.Upstream.Select.select
prefer_gives_up = refl

require_waits :
    (required net host 443 cold 5 0 (some primary_entry)).2
    ≡ Dialled.attempted EffectiveHop.upstream (some primary_entry.upstream.written) (ok 17)
unfolding required through
require_waits = refl

required-recovers_example :
    selected
      (required net host 443 cold 5 0 (Entries.required entries (selected cold entries 1 60))).0
      entries
      6
      60
    ≡ some 0
unfolding selected through nhop.Upstream.Select.select
required-recovers_example =
    required-recovers net host 443 cold 60 1 5 6 0 primary_entry (fallback_entry ∷ []) 1 17
      entries_IsPublished refl refl

-- The primary answers its probe.
abbrev answering : SocketAddr → Answer
answering socket =
    if socket == primary then answers (seconds 1) (err SocksError.connection_refused) else silent

two_rounds-settle_example :
    All
      (λ e.
        state
          (round answering 15
            (round answering 9 [] cold entries.entries).1
            (round answering 9 [] cold entries.entries).0
            entries.entries).0
          e.health
        ≡ seen_of answering e)
      entries.entries
two_rounds-settle_example =
    two_rounds-settle answering 9 15 cold entries.entries entries_IsPublished.handles
