-- ===== src/Proxy/Socks5/Requests.antt =====
-- nhop/src/proxy/socks5.rs: what a client has to send to be asked for a tunnel, and for which.
use nhop.Common.{
  ℕ, ◌+◌, ◌*◌, ◌^◌, ◌≡◌, ◌≢◌, ◌↔◌, inl, inr, refl, sym, subst, ap, arith, true, Option, none, some,
  [], ◌∷◌, ◌++◌, ◌==◌, nat_eq, length, Bool-cases,
}
use nhop.Net.{Platform}
use nhop.Text.{Text}
use nhop.Text.Utf8.{Bytes, from_utf8}
use nhop.Wire.{Host, Port}
use nhop.Proxy.Socks5.Reads.{read_exact-append, read_exact-split, with_port-inv}
use nhop.Proxy.Socks5.{
  Requested, read_exact, with_port, with_name, named, show_v4, from_octets, addressed, request,
  request_ipv4, request_domain, request_ipv6,
}

module _ {N : Type 0} (p : Platform N) where
  -- The address of a request, from its type on, and the host that it names.
  pub data Spells (host : Host) (spec : Bytes) : Type 0 where
    ipv4 : (a b c d : ℕ) → spec ≡ 1 ∷ a ∷ b ∷ c ∷ d ∷ [] → host ≡ show_v4 a b c d → Spells host spec
    domain :
        (name : Bytes)
        → spec ≡ 3 ∷ length name ∷ name
        → from_utf8 name ≡ some host
        → host ≢ []
        → Spells host spec
    ipv6 :
        (octets : Bytes)
        → spec ≡ 4 ∷ octets
        → length octets ≡ 16
        → host ≡ p.show_v6 (from_octets 0 octets)
        → Spells host spec

  -- A request to connect: the version, the command, a byte that is not looked at, the address and
  -- the port, high byte first.
  pub record IsConnect (host : Host) (port : Port) (input rest : Bytes) : Type 0 where
    pub reserved : ℕ
    pub spec : Bytes
    pub high : ℕ
    pub low : ℕ
    pub bytes : input ≡ 5 ∷ 1 ∷ reserved ∷ (spec ++ (high ∷ low ∷ rest))
    pub port_bytes : port ≡ high * 2 ^ 8 + low
    pub spells : Spells host spec

  with_name-some :
      (host : Host) (input : Bytes) → host ≢ [] → with_name (some host) input ≡ with_port host input
  with_name-some [] input h = absurd (h refl)
  with_name-some (c ∷ host) input h = refl

  request_complete :
      (host : Host) (port : Port) (reserved high low : ℕ) (spec rest : Bytes)
      → port ≡ high * 2 ^ 8 + low
      → Spells host spec
      → request p (5 ∷ 1 ∷ reserved ∷ (spec ++ (high ∷ low ∷ rest)))
        ≡ some (Requested.connect host port, rest)
  unfolding request request_ipv4 request_domain request_ipv6
  request_complete host port reserved high low spec rest e (Spells.ipv4 a b c d s h) =
      rw (s, e, h) refl
  request_complete host port reserved high low spec rest e (Spells.domain name s decoded n) =
      rw (s, e)
        (rw (read_exact-append name (high ∷ low ∷ rest))
          (rw decoded (with_name-some host (high ∷ low ∷ rest) n)))
  request_complete host port reserved high low spec rest e (Spells.ipv6 octets s l h) =
      let read : read_exact 16 (octets ++ (high ∷ low ∷ rest)) ≡ some (octets, high ∷ low ∷ rest) =
        subst
          (λ (n : ℕ).
            read_exact n (octets ++ (high ∷ low ∷ rest)) ≡ some (octets, high ∷ low ∷ rest))
          l (read_exact-append octets (high ∷ low ∷ rest)) in
      rw (s, e) (rw read (rw h refl))

  with_name-connect :
      (name : Option Text) (host : Host) (port : Port) (input rest : Bytes)
      → with_name name input ≡ some (Requested.connect host port, rest)
      → (name ≡ some host)
        × (host ≢ [])
        × (with_port host input ≡ some (Requested.connect host port, rest))
  with_name-connect none host port input rest e = cc
  with_name-connect (some []) host port input rest e = cc
  with_name-connect (some (c ∷ name)) host port input rest e =
      let (high, low, bytes, port_bytes, same) = with_port-inv (c ∷ name) host port input rest e in
      (
        ap some (sym same),
        (λ q. cc),
        subst (λ (h : Host). with_port h input ≡ some (Requested.connect host port, rest))
            (sym same) e,
      )

  named-connect :
      (read : Option (Bytes × Bytes)) (host : Host) (port : Port) (rest : Bytes)
      → named read ≡ some (Requested.connect host port, rest)
      → (name : Bytes) × (high : ℕ) × (low : ℕ) × (read ≡ some (name, high ∷ low ∷ rest))
        × (port ≡ high * 2 ^ 8 + low)
        × (from_utf8 name ≡ some host)
        × (host ≢ [])
  named-connect none host port rest e = cc
  named-connect (some (name, input)) host port rest e =
      let (decoded, some_name, ported) =
        with_name-connect (from_utf8 name) host port input rest e in
      let (high, low, bytes, port_bytes, same) = with_port-inv host host port input rest ported in
      (name, high, low, rw bytes refl, port_bytes, decoded, some_name)

  addressed-connect :
      (read : Option (Bytes × Bytes)) (host : Host) (port : Port) (rest : Bytes)
      → addressed p read ≡ some (Requested.connect host port, rest)
      → (octets : Bytes) × (high : ℕ) × (low : ℕ) × (read ≡ some (octets, high ∷ low ∷ rest))
        × (port ≡ high * 2 ^ 8 + low)
        × (host ≡ p.show_v6 (from_octets 0 octets))
  addressed-connect none host port rest e = cc
  addressed-connect (some (octets, input)) host port rest e =
      let (high, low, bytes, port_bytes, same) =
        with_port-inv (p.show_v6 (from_octets 0 octets)) host port input rest e in
      (octets, high, low, rw bytes refl, port_bytes, same)

  -- What follows the third byte of a request to connect.
  abbrev Names : Host → Port → ℕ → Bytes → Bytes → Type 0
  Names host port atyp more rest =
      (spec : Bytes) × (high : ℕ) × (low : ℕ) × (atyp ∷ more ≡ spec ++ (high ∷ low ∷ rest))
      × (port ≡ high * 2 ^ 8 + low)
      × Spells host spec

  request_ipv4-Names :
      (host : Host) (port : Port) (more rest : Bytes)
      → request_ipv4 p more ≡ some (Requested.connect host port, rest)
      → Names host port 1 more rest
  unfolding request_ipv4
  request_ipv4-Names host port [] rest e = cc
  request_ipv4-Names host port (a ∷ []) rest e = cc
  request_ipv4-Names host port (a ∷ b ∷ []) rest e = cc
  request_ipv4-Names host port (a ∷ b ∷ c ∷ []) rest e = cc
  request_ipv4-Names host port (a ∷ b ∷ c ∷ d ∷ more) rest e =
      let (high, low, bytes, port_bytes, same) =
        with_port-inv (show_v4 a b c d) host port more rest e in
      (
        1 ∷ a ∷ b ∷ c ∷ d ∷ [],
        high,
        low,
        ap (λ (t : Bytes). 1 ∷ a ∷ b ∷ c ∷ d ∷ t) bytes,
        port_bytes,
        Spells.ipv4 a b c d refl same,
      )

  request_domain-Names :
      (host : Host) (port : Port) (more rest : Bytes)
      → request_domain p more ≡ some (Requested.connect host port, rest)
      → Names host port 3 more rest
  unfolding request_domain
  request_domain-Names host port [] rest e = cc
  request_domain-Names host port (n ∷ more) rest e =
      let (name, high, low, read, port_bytes, decoded, some_name) =
        named-connect (read_exact n more) host port rest e in
      let (bytes, counted) = read_exact-split n more name (high ∷ low ∷ rest) read in
      (
        3 ∷ length name ∷ name,
        high,
        low,
        rw counted (ap (λ (t : Bytes). 3 ∷ length name ∷ t) bytes),
        port_bytes,
        Spells.domain name refl decoded some_name,
      )

  request_ipv6-Names :
      (host : Host) (port : Port) (more rest : Bytes)
      → request_ipv6 p more ≡ some (Requested.connect host port, rest)
      → Names host port 4 more rest
  unfolding request_ipv6
  request_ipv6-Names host port more rest e =
      let (octets, high, low, read, port_bytes, same) =
        addressed-connect (read_exact 16 more) host port rest e in
      let (bytes, counted) = read_exact-split 16 more octets (high ∷ low ∷ rest) read in
      (
        4 ∷ octets,
        high,
        low,
        ap (λ (t : Bytes). 4 ∷ t) bytes,
        port_bytes,
        Spells.ipv6 octets refl (sym counted) same,
      )

  Names-IsConnect :
      (host : Host) (port : Port) (got command reserved atyp known : ℕ) (more rest : Bytes)
      → (got == 5) ≡ true
      → (command == 1) ≡ true
      → (atyp == known) ≡ true
      → Names host port known more rest
      → IsConnect host port (got ∷ command ∷ reserved ∷ atyp ∷ more) rest
  Names-IsConnect host port got command reserved atyp known more rest g c a
        (spec, high, low, bytes, port_bytes, spells) =
      let same : got ≡ 5 = ground arith in
      let same_command : command ≡ 1 = ground arith in
      let same_atyp : atyp ≡ known = ground arith in
      record {
        reserved = reserved;
        spec = spec;
        high = high;
        low = low;
        bytes = rw (same, same_command, same_atyp) (ap (λ (t : Bytes). 5 ∷ 1 ∷ reserved ∷ t) bytes);
        port_bytes = port_bytes;
        spells = spells;
      }

  request_sound :
      (host : Host) (port : Port) (input rest : Bytes)
      → request p input ≡ some (Requested.connect host port, rest)
      → IsConnect host port input rest
  unfolding request
  request_sound host port [] rest e = cc
  request_sound host port (got ∷ []) rest e = cc
  request_sound host port (got ∷ command ∷ []) rest e = cc
  request_sound host port (got ∷ command ∷ reserved ∷ []) rest e = cc
  request_sound host port (got ∷ command ∷ reserved ∷ atyp ∷ more) rest e =
      elim (Bool-cases (got == 5)) [
        | inr g ↦ absurd (ground arith)
        | inl g ↦ elim (Bool-cases (command == 1)) [
          | inr c ↦ absurd (ground arith)
          | inl c ↦ elim (Bool-cases (atyp == 1)) [
            | inl a ↦
                Names-IsConnect host port got command reserved atyp 1 more rest g c a
                  (request_ipv4-Names host port more rest (ground arith))
            | inr a ↦ elim (Bool-cases (atyp == 3)) [
              | inl b ↦
                  Names-IsConnect host port got command reserved atyp 3 more rest g c b
                    (request_domain-Names host port more rest (ground arith))
              | inr b ↦ elim (Bool-cases (atyp == 4)) [
                | inl d ↦
                    Names-IsConnect host port got command reserved atyp 4 more rest g c d
                      (request_ipv6-Names host port more rest (ground arith))
                | inr d ↦ absurd (ground arith)
              ]
            ]
          ]
        ]
      ]

  -- A request is read as one to connect to a host and a port exactly when it is the version, the
  -- command, one byte more, an address that spells the host (four octets, a name of the length
  -- told that is UTF-8 and not empty, or sixteen octets) and the port, high byte first.
  pub request_iff :
      (host : Host) (port : Port) (input rest : Bytes)
      → (request p input ≡ some (Requested.connect host port, rest))
        ↔ IsConnect host port input rest
  request_iff host port input rest = (
    request_sound host port input rest,
    λ h.
        rw (h.bytes)
          (request_complete host port h.reserved h.high h.low h.spec rest h.port_bytes h.spells),
  )
