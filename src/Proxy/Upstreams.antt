-- ===== src/Proxy/Upstreams.antt =====
-- nhop/src/proxy/mod.rs: an upstream's address as it is written and dialled, and the ordered list
-- that one command sets.
pub mod Listed
use nhop.Common.{
  ℕ, ◌≡◌, refl, ◌≢◌, ◌⊎◌, inl, inr, Bool, true, false, ◌||◌, Option, none, some, List, [], ◌∷◌,
  ◌++◌, map, arith, ◌==◌, if◌then◌else◌, any, All, Result, ok, err,
}
use nhop.Net.{Platform, SocketAddr, socket_eq}
use nhop.Text.{Text, text, trim, strip_prefix}
use nhop.Wire.{UpstreamAddr}

pub record Upstream : Type 0 where
  pub written : UpstreamAddr
  pub socket : SocketAddr

pub data UnusableUpstreams : Type 0 where
  invalid : Text → UnusableUpstreams
  duplicate : SocketAddr → UnusableUpstreams

-- `Upstreams` holds its entries and nothing else.
abbrev pub Upstreams : Type 0
Upstreams = List Upstream

unfoldable pub without_scheme : Text → Text
unfolding trim
without_scheme written = elim (strip_prefix (trim written) (text "socks5://")) [
  | none ↦ trim written
  | some rest ↦ rest
]

-- The inner loop of `Upstreams::parse`.
unfoldable pub lists : List Upstream → SocketAddr → Bool
lists entries socket = any (λ (listed : Upstream). listed.socket == socket) entries

module _ {N : Type 0} (p : Platform N) where
  -- `Upstream::parse`; the failure carries the text that is no socket address.
  unfoldable pub parse_upstream : UpstreamAddr → Result Text Upstream
  parse_upstream written =
      let rest = without_scheme written in
      elim (p.parse_socket rest) [
        | none ↦ err rest
        | some socket ↦ ok (record { written = written; socket = socket })
      ]

  unfoldable pub parse_all : List Upstream → List UpstreamAddr → Result UnusableUpstreams Upstreams
  parse_all entries [] = ok entries
  parse_all entries (written ∷ more) = elim (parse_upstream written) [
    | err rest ↦ err (UnusableUpstreams.invalid rest)
    | ok upstream ↦ elim (lists entries upstream.socket) [
      | true ↦ err (UnusableUpstreams.duplicate upstream.socket)
      | false ↦ parse_all (entries ++ upstream ∷ []) more
    ]
  ]

  -- `Upstreams::parse`
  unfoldable pub parse : UpstreamAddr → List UpstreamAddr → Result UnusableUpstreams Upstreams
  unfolding parse_all
  parse first fallbacks = parse_all [] (first ∷ fallbacks)
