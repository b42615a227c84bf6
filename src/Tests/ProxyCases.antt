-- ===== src/Tests/ProxyCases.antt =====
-- nhop/src/proxy/: cases.
use nhop.Common.{◌≡◌, refl, ◌↔◌, List, [], ◌∷◌, Result, ok, err}
use nhop.Text.{text}
use nhop.Proxy.Upstreams.{Upstreams, UnusableUpstreams, duplicate, invalid, parse}
use nhop.Proxy.Upstreams.Listed.{IsListed, parse_iff}
use nhop.Tests.Fixtures.{platform, primary, fallback, primary_text, fallback_text, upstream_of}

abbrev both : Upstreams
both = upstream_of primary_text primary ∷ upstream_of fallback_text fallback ∷ []

listed_twice :
    parse platform primary_text (text " socks5://192.0.2.10:1080 " ∷ []) ≡ err (duplicate primary)
unfolding parse nhop.Proxy.Upstreams.parse_upstream nhop.Common.list_same
    nhop.Proxy.Upstreams.without_scheme nhop.Text.strip_prefix nhop.Proxy.Upstreams.lists
listed_twice = refl

a_name :
    parse platform primary_text (text "socks5://proxy.test:1080" ∷ [])
    ≡ err (invalid (text "proxy.test:1080"))
unfolding parse nhop.Proxy.Upstreams.parse_upstream nhop.Common.list_same
    nhop.Proxy.Upstreams.without_scheme nhop.Text.strip_prefix nhop.Proxy.Upstreams.lists
a_name = refl

parse_iff_example :
    (parse platform primary_text (fallback_text ∷ []) ≡ ok both)
    ↔ IsListed platform (primary_text ∷ fallback_text ∷ []) both
parse_iff_example = parse_iff platform primary_text (fallback_text ∷ []) both
