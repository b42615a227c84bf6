-- ===== src/Cli/Doctor/Pointed.antt =====
-- nhop/src/cli/doctor.rs with nhop/src/cli/system_proxy.rs: whether the check of the system proxy
-- passes on settings that name the addresses of the front ends.
use nhop.Common.{
  ℕ, ◌≡◌, refl, ap, ◌∙◌, sym, ◌≢◌, ◌↔◌, arith, Bool, true, false, ◌&&◌, some, List, [], ◌∷◌, ◌++◌,
  ◌==◌, list_eq, nat_eq, list_same_iff, ok,
}
use nhop.Net.{IpAddr, v4, v6, SocketAddr}
use nhop.Text.{Text, text}
use nhop.Text.Numbers.{show}
use nhop.Proxy.Forwards.{Listen}
use nhop.Cli.Printer.{Printer}
use nhop.Cli.SystemProxy.{ProxyEndpoint, NetworkService, SystemProxy, show_endpoint}
use nhop.Cli.Doctor.{Outcome}
use nhop.Cli.Doctor.Checks.{misdirected, misdirections, directed, system_proxy}

-- How the standard library renders addresses: a socket address of IPv4 as its address, a colon
-- and its port, one of IPv6 in brackets, and an IPv6 address without them.
pub record Renders (pr : Printer) : Type 0 where
  pub socket_v4 :
      (bits port flowinfo scope_id : ℕ)
      → pr.show_socket
          (record { ip = v4 bits; port = port; flowinfo = flowinfo; scope_id = scope_id })
        ≡ pr.show_ip (v4 bits) ++ (text ":" ++ show port)
  pub socket_v6 :
      (bits port flowinfo scope_id : ℕ)
      → (rest : Text) × (pr.show_socket
            (record { ip = v6 bits; port = port; flowinfo = flowinfo; scope_id = scope_id })
          ≡ b'[' ∷ rest)
  pub ip_v6 : (bits : ℕ) → (c : ℕ) × (rest : Text) × (pr.show_ip (v6 bits) ≡ c ∷ rest) × (c ≢ b'[')

abbrev pub is_v4 : IpAddr → Bool
is_v4 (v4 bits) = true
is_v4 (v6 bits) = false

module _ (pr : Printer) where
  -- The address and the port that enabling points a setting at.
  abbrev pub set_to : SocketAddr → ProxyEndpoint
  set_to addr = record { host = pr.show_ip addr.ip; port = addr.port }

  abbrev pub switched_on : Listen → SystemProxy
  switched_on listen = record {
    http = some (set_to listen.http);
    https = some (set_to listen.http);
    socks = some (set_to listen.socks);
  }

  abbrev empty : List Text → Bool
  empty [] = true
  empty (s ∷ more) = false

  abbrev at : IpAddr → ℕ → ℕ → ℕ → SocketAddr
  at ip port flowinfo scope_id = record {
    ip = ip;
    port = port;
    flowinfo = flowinfo;
    scope_id = scope_id;
  }

  abbrev compared : SocketAddr → Bool
  compared addr = show_endpoint (set_to addr) == pr.show_socket addr

  told_apart : (a b : Text) → a ≢ b → (a == b) ≡ false
  told_apart a b n = ground (arith, list_same_iff a b)

  compared-is_v4 : Renders pr → (ip : IpAddr) (port f s : ℕ) → compared (at ip port f s) ≡ is_v4 ip
  unfolding show_endpoint
  compared-is_v4 r (v4 bits) port f s = (list_same_iff _ _).1 (sym (r.socket_v4 bits port f s))
  compared-is_v4 r (v6 bits) port f s =
      let (rest, socket) = r.socket_v6 bits port f s in
      let (c, more, ip, n) = r.ip_v6 bits in
      told_apart _ _ (λ e.
        let heads : c ∷ (more ++ (text ":" ++ show port)) ≡ b'[' ∷ rest =
          ap (λ t. t ++ (text ":" ++ show port)) (sym ip) ∙ e ∙ socket in
        n cc)

  compared-empty :
      (name : Text) (addr : SocketAddr)
      → empty (misdirected pr name (some (set_to addr)) addr) ≡ compared addr
  unfolding misdirected
  compared-empty name addr = ground arith

  setting_told :
      Renders pr
      → (name : Text) (addr : SocketAddr)
      → empty (misdirected pr name (some (set_to addr)) addr) ≡ is_v4 addr.ip
  unfolding misdirected
  setting_told r name addr =
      compared-empty name addr ∙ compared-is_v4 r addr.ip addr.port addr.flowinfo addr.scope_id

  empty-append : (xs ys : List Text) → empty (xs ++ ys) ≡ (empty xs && empty ys)
  empty-append [] ys = refl
  empty-append (x ∷ xs) ys = refl

  abbrev passed : Outcome → Bool
  passed Outcome.passed = true
  passed Outcome.failed = false

  directed-empty :
      (listen : Listen) (service : NetworkService) (wrong : List Text)
      → (((directed pr listen service wrong).outcome ≡ Outcome.passed) ↔ (empty wrong ≡ true))
  directed-empty listen service [] = ground arith
  directed-empty listen service (s ∷ more) = ground arith

  -- On settings that are on with the address and the port of each front end, the check of the system
  -- proxy passes exactly where both addresses are of IPv4.
  pub switched_on_passes_iff :
      Renders pr
      → (listen : Listen) (service : NetworkService)
      → (((system_proxy pr (ok (switched_on listen)) listen service).outcome ≡ Outcome.passed)
          ↔ ((is_v4 listen.http.ip && is_v4 listen.socks.ip) ≡ true))
  unfolding system_proxy misdirections
  switched_on_passes_iff r listen service =
      let web = setting_told r (text "http") listen.http in
      let secure = setting_told r (text "https") listen.http in
      let firewall = setting_told r (text "socks") listen.socks in
      let two =
        empty-append (misdirected pr (text "http") (some (set_to listen.http)) listen.http) (
          misdirected pr (text "https") (some (set_to listen.http)) listen.http
          ++ misdirected pr (text "socks") (some (set_to listen.socks)) listen.socks) in
      let one =
        empty-append (misdirected pr (text "https") (some (set_to listen.http)) listen.http)
          (misdirected pr (text "socks") (some (set_to listen.socks)) listen.socks) in
      let told : empty (misdirections pr (switched_on listen) listen)
          ≡ (is_v4 listen.http.ip && (is_v4 listen.http.ip && is_v4 listen.socks.ip)) =
        cc in
      ground
        (arith, told, directed-empty listen service (misdirections pr (switched_on listen) listen))
