-- ===== src/Tests/Fixtures.antt =====
-- Concrete inputs: a platform that reads two sockets, one address and no network, and the values
-- that the cases share.
use nhop.Common.{
  ℕ, ◌+◌, ◌*◌, ◌^◌, Bool, Option, none, some, [], ◌∷◌, ◌==◌, list_eq, nat_eq, if◌then◌else◌,
}
use nhop.Net.{IpAddr, v4, SocketAddr, socket_v4, Platform, localhost_v4}
use nhop.Text.{Text, text}
use nhop.Wire.{RuleClass, require, prefer, never, up, down}
use nhop.Rules.Matcher.{Matcher}
use nhop.Rules.Ruleset.{Rule, Ruleset}
use nhop.Proxy.Upstreams.{Upstream}
use nhop.Upstream.Health.{Health, Verdicts}
use nhop.Upstream.Entries.{UpstreamEntry, UpstreamEntries}

abbrev pub primary : SocketAddr
primary = socket_v4 (192 * 2 ^ 24 + 2 * 2 ^ 8 + 10) 1080

abbrev pub fallback : SocketAddr
fallback = socket_v4 (192 * 2 ^ 24 + 2 * 2 ^ 8 + 11) 1080

abbrev pub primary_text : Text
primary_text = text "192.0.2.10:1080"

abbrev pub fallback_text : Text
fallback_text = text "192.0.2.11:1080"

abbrev read_socket : Text → Option SocketAddr
read_socket s =
    if s == primary_text then some primary else if s == fallback_text then some fallback else none

abbrev read_ip : Text → Option IpAddr
read_ip s = if s == text "127.0.0.1" then some (v4 localhost_v4) else none

abbrev pub platform : Platform Bool
platform = record {
  parse_ip = read_ip;
  parse_socket = read_socket;
  show_v6 = λ bits. text "::1";
  parse_network = λ s. none;
  network_contains = λ network address. network;
  unicode_lowercase = λ s. s;
}

abbrev rule : ℕ → RuleClass → Matcher Bool → Text → Rule Bool
rule id class matcher value = record { id = id; class = class; matcher = matcher; value = value }

abbrev pub private_rule : Rule Bool
private_rule = rule 1 never (Matcher.suffix (text "private.example")) (text "private.example")

abbrev pub rules : Ruleset Bool
rules =
    rule 0 require (Matcher.suffix (text "example")) (text "example")
    ∷ private_rule
    ∷ rule 2 prefer (Matcher.keyword (text "media")) (text "media")
    ∷ []

abbrev pub upstream_of : Text → SocketAddr → Upstream
upstream_of written socket = record { written = written; socket = socket }

abbrev pub primary_entry : UpstreamEntry
primary_entry = record { upstream = upstream_of primary_text primary; health = 0 }

abbrev pub fallback_entry : UpstreamEntry
fallback_entry = record { upstream = upstream_of fallback_text fallback; health = 1 }

abbrev pub entries : UpstreamEntries
entries = record { entries = primary_entry ∷ fallback_entry ∷ []; publication = 1 }

abbrev pub up_since : ℕ → Health
up_since at = record { state = up; changed_at = at }

abbrev pub down_since : ℕ → Health
down_since at = record { state = down; changed_at = at }

-- Both upstreams down since the start.
abbrev pub cold : Verdicts
cold = record {
  next = 2;
  judged = λ h. if h == 0 then primary_text else fallback_text;
  health = λ h. down_since 0;
}
