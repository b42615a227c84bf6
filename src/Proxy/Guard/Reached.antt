-- ===== src/Proxy/Guard/Reached.antt =====
-- nhop/src/proxy/mod.rs: which destinations the loop guard takes for the front end itself.
use nhop.Common.{
  ℕ, ◌+◌, ◌*◌, ◌/◌, ◌%◌, ◌^◌, ◌<◌, ◌≡◌, ◌≢◌, ◌↔◌, ◌⊎◌, inl, inr, refl, sym, subst, ◌∙◌, ap, arith,
  true, Option, none, some, ◌==◌, nat_eq, list_eq, list_same_iff, nat_same_iff, Bool-cases,
}
use nhop.Net.{IpAddr, v4, v6, ip_eq, ip_same_iff, SocketAddr, Platform, is_loopback, is_unspecified}
use nhop.Text.{Text}
use nhop.Wire.{Host, Port}
use nhop.Rules.Matcher.{normalized}
use nhop.Proxy.Guard.{canonical, localhost, names_itself, dials_itself}

-- The address that an address stands for: an IPv6 address ::ffff:a.b.c.d stands for a.b.c.d, and
-- any other address for itself.
abbrev pub StandsFor : IpAddr → IpAddr → Type 0
StandsFor a c =
    ((n : ℕ) × (n < 2 ^ 32) × (a ≡ v6 (0xffff * 2 ^ 32 + n)) × (c ≡ v4 n))
    ⊎ (((n : ℕ) → n < 2 ^ 32 → a ≢ v6 (0xffff * 2 ^ 32 + n)) × (c ≡ a))

canonical-StandsFor : (a : IpAddr) → StandsFor a (canonical a)
unfolding canonical
canonical-StandsFor (v4 a) = inr ((λ n l e. cc), refl)
canonical-StandsFor (v6 a) = elim (Bool-cases (a / 2 ^ 32 == 0xffff)) [
  | inl e ↦ inl (a % 2 ^ 32, omega arith, ap v6 (ground arith), ground arith)
  | inr e ↦ inr ((λ n l q. let same : a ≡ 0xffff * 2 ^ 32 + n = cc in ground arith), ground arith)
]

canonical_mapped : (n : ℕ) → n < 2 ^ 32 → canonical (v6 (0xffff * 2 ^ 32 + n)) ≡ v4 n
unfolding canonical
canonical_mapped n l = ground arith

StandsFor-canonical : (a c : IpAddr) → StandsFor a c → c ≡ canonical a
StandsFor-canonical a c (inl (n, l, e, f)) = rw e (f ∙ sym (canonical_mapped n l))
StandsFor-canonical a c (inr (plain, f)) = elim (canonical-StandsFor a) [
  | inl (n, l, e, g) ↦ absurd (plain n l e)
  | inr (_, g) ↦ f ∙ sym g
]

abbrev pub IsUnspecified : IpAddr → Type 0
IsUnspecified c = (c ≡ v4 0) ⊎ (c ≡ v6 0)

abbrev pub IsLoopback : IpAddr → Type 0
IsLoopback c = ((n : ℕ) × (n < 2 ^ 24) × (c ≡ v4 (127 * 2 ^ 24 + n))) ⊎ (c ≡ v6 1)

is_unspecified_iff : (c : IpAddr) → (is_unspecified c ≡ true) ↔ IsUnspecified c
unfolding is_unspecified
is_unspecified_iff (v4 a) = ground arith
is_unspecified_iff (v6 a) = ground arith

is_loopback_iff : (c : IpAddr) → (is_loopback c ≡ true) ↔ IsLoopback c
unfolding is_loopback
is_loopback_iff (v4 a) = (
  (λ e. inl (a % 2 ^ 24, omega arith, ap v4 (ground arith))),
  λ h. elim h [ inl (n, l, e) ↦ let same : a ≡ 127 * 2 ^ 24 + n = cc in ground arith | inr e ↦ cc ],
)
is_loopback_iff (v6 a) = (
  (λ e. inr (ap v6 (ground arith))),
  λ h. elim h [ inl (n, l, e) ↦ cc | inr e ↦ let same : a ≡ 1 = cc in ground arith ],
)

-- The front end itself: on its port, an address that stands for what the listening address stands
-- for or for no address at all, or the name localhost where it listens on a loopback address.
abbrev pub IsOwn : Text → Option IpAddr → IpAddr → Type 0
IsOwn host none listening = (host ≡ localhost) × (c : IpAddr) × StandsFor listening c × IsLoopback c
IsOwn host (some a) listening =
    (c : IpAddr) × StandsFor a c × (IsUnspecified c ⊎ StandsFor listening c)

names_itself_iff :
    (host : Text) (listening : IpAddr) (address : Option IpAddr)
    → (names_itself host (canonical listening) address ≡ true) ↔ IsOwn host address listening
unfolding names_itself
names_itself_iff host listening none = (
  (λ e. (
    (list_same_iff host localhost).0 (ground arith),
    canonical listening,
    canonical-StandsFor listening,
    (is_loopback_iff (canonical listening)).0 (ground arith),
  )),
  λ (h, c, stands, loopback).
      let same : c ≡ canonical listening = StandsFor-canonical listening c stands in
      ground (
        arith,
        (list_same_iff host localhost).1 h,
        (is_loopback_iff (canonical listening)).1 (subst IsLoopback same loopback),
      ),
)
names_itself_iff host listening (some a) = (
  (λ e. elim (Bool-cases (is_unspecified (canonical a))) [
    | inl u ↦ (canonical a, canonical-StandsFor a, inl ((is_unspecified_iff (canonical a)).0 u))
    | inr n ↦
        let same : canonical a ≡ canonical listening = (ip_same_iff _ _).0 (ground arith) in
        (
          canonical a,
          canonical-StandsFor a,
          inr (subst (StandsFor listening) (sym same) (canonical-StandsFor listening)),
        )
  ]),
  λ (c, stands, h).
      let same : c ≡ canonical a = StandsFor-canonical a c stands in
      elim h [
        | inl u ↦ ground (arith, (is_unspecified_iff (canonical a)).1 (subst IsUnspecified same u))
        | inr l ↦ ground (
          arith,
          (ip_same_iff (canonical a) (canonical listening)).1
              (sym same ∙ StandsFor-canonical listening c l),
        )
      ],
)

module _ {N : Type 0} (p : Platform N) where
  -- The guard takes a destination for the front end itself exactly when its port is the listening
  -- one and it is, as normalized, an address that stands for what the listening address stands for
  -- or for the unspecified address, or the name localhost where the listening address stands for a
  -- loopback address; an IPv4-mapped address stands for the IPv4 address in it.
  pub dials_itself_iff :
      (destination : Host) (port : Port) (listening : SocketAddr)
      → (dials_itself p destination port listening ≡ true) ↔ (
          (port ≡ listening.port)
          × IsOwn (normalized p destination).host (normalized p destination).address listening.ip)
  unfolding dials_itself
  dials_itself_iff destination port listening =
      let h =
        names_itself_iff (normalized p destination).host listening.ip
          (normalized p destination).address in
      (
        (λ e. (ground arith, h.0 (ground arith))),
        λ (same, own). ground (arith, h.1 own, (nat_same_iff port listening.port).1 same),
      )
