-- ===== src/Tests/RulesCases.antt =====
-- nhop/src/rules/: cases.
use nhop.Common.{
  ◌+◌, ◌≡◌, refl, ◌↔◌, ◌⊎◌, Bool, true, false, Option, none, some, List, [], ◌∷◌, ◌++◌, length,
  arith, map, Result, ok, err,
}
use nhop.Text.{Text, text, is_ascii, lower, dot, ends_with}
use nhop.Wire.{never, prefer, RuleKind}
use nhop.Rules.Decision.{Decision}
use nhop.Rules.Matcher.{Matcher, NormalizedHost, normalized, suffix_matches, keyword_matches}
use nhop.Rules.Ruleset.{decide, push}
use nhop.Rules.Decide.{Routes, decide_iff}
use nhop.Rules.Hosts.{suffix_matches_iff}
use nhop.Tests.Fixtures.{platform, rules}

-- A rule file that was declared earlier and a `never` rule behind it.
never_first : decide platform rules (text "a.private.example") 443 ≡ Decision.never 1
unfolding decide nhop.Rules.Matcher.matches nhop.Common.list_same normalized
    nhop.Rules.Matcher.lowercase nhop.Text.without_dot lower ends_with
never_first = refl

media_host : decide platform rules (text "Media.test.") 443 ≡ Decision.upstream prefer 2
unfolding decide nhop.Rules.Matcher.matches nhop.Common.list_same normalized
    nhop.Rules.Matcher.lowercase nhop.Text.without_dot lower nhop.Text.contains
media_host = refl

not_on_a_dot : decide platform rules (text "badexample") 443 ≡ Decision.direct
unfolding decide nhop.Rules.Matcher.matches nhop.Common.list_same normalized
    nhop.Rules.Matcher.lowercase nhop.Text.without_dot lower ends_with nhop.Text.contains
not_on_a_dot = refl

rejected_port : (push platform rules never RuleKind.port (text "65536")).0 ≡ rules
unfolding push nhop.Rules.Matcher.parse nhop.Text.Numbers.parse_u16
rejected_port = refl

decide_iff_example :
    (decide platform rules (text "a.private.example") 443 ≡ Decision.never 1)
    ↔ Routes platform (normalized platform (text "a.private.example")) 443 rules (Decision.never 1)
decide_iff_example = decide_iff platform rules (text "a.private.example") 443 (Decision.never 1)

abbrev www : NormalizedHost
www = record { host = text "www.example"; address = none }

suffix_matches_iff_example : (suffix_matches (text "example") www ≡ true) ↔ (
    (text "www.example" ≡ text "example")
    ⊎ ((sub : Text) × (text "www.example" ≡ sub ++ text ".example")))
suffix_matches_iff_example = suffix_matches_iff (text "example") www
