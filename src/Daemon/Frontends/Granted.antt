-- ===== src/Daemon/Frontends/Granted.antt =====
-- nhop/src/daemon/mod.rs: listeners whose addresses can all be bound.
use nhop.Common.{
  ℕ, suc, Option, none, some, List, [], ◌∷◌, ok, ◌≡◌, inl, inr, refl, sym, ◌∙◌, All, Bool-cases,
}
use nhop.Net.{SocketAddr, socket_eq, socket_same, socket_same_iff}
use nhop.Proxy.Forwards.{Forward, Forwards, Listen, Target, target_of}
use nhop.Daemon.Frontends
use nhop.Daemon.Frontends.{
  Frontends, unbound, bound, Binds, Bound, Listener, held, listen, bind_fresh, bind_unless_held,
  move_http, move_socks, moved, rebind_bound, rebind_bound_forwards,
}
use nhop.Daemon.Frontends.Wanted.{Names, Serves, bind_fresh-Serves}
use nhop.Daemon.Staging.{fresh}

-- Every address asked for is free, and a listener holds the address that it was asked for.
abbrev pub Grants : Binds → Type 0
Grants binds = (n : ℕ) (addr : SocketAddr) → binds n addr ≡ ok (ok addr)

abbrev pub listen_after : Listen → Option Listen → Listen
listen_after before none = before
listen_after before (some wanted) = wanted

-- The set of listeners with its front ends moved.
abbrev pub moved_frontends : Frontends → Option Listen → Frontends
moved_frontends unbound wanted = unbound
moved_frontends (bound b) wanted = bound (record b {
  http = (listen_after (listen b) wanted).http;
  socks = (listen_after (listen b) wanted).socks;
})

-- The listeners themselves: the front ends accept on the two addresses, and the forwards on every
-- address that is declared, for its destination, and on no other.
abbrev pub Holds : Listen → Forwards → Bound → Type 0
Holds front_ends wanted b =
    (b.http ≡ front_ends.http)
    × (b.socks ≡ front_ends.socks)
    × ((listen : SocketAddr) → target_of b.forwards listen ≡ target_of wanted listen)

-- What a set of listeners has become; one that is not bound yet stays so.
abbrev pub Accepts : Frontends → Option Listen → Forwards → Frontends → Type 0
Accepts unbound moves wanted after = after ≡ unbound
Accepts (bound b) moves wanted unbound = ⊥
Accepts (bound b) moves wanted (bound b') = Holds (listen_after (listen b) moves) wanted b'

pub moved-Accepts :
    (f : Frontends) (moves : Option Listen) (wanted : Forwards) (after : Frontends)
    → Accepts (moved_frontends f moves) none wanted after
    → Accepts f moves wanted after
unfolding listen
moved-Accepts unbound moves wanted after h = h
moved-Accepts (bound b) moves wanted unbound h = h
moved-Accepts (bound b) moves wanted (bound b') h = h

pub unmoved : (f : Frontends) → moved_frontends f none ≡ f
unfolding listen
unmoved unbound = refl
unmoved (bound b) = refl

module _ (binds : Binds) (granted : Grants binds) where
  move_http-granted :
      (b : Bound) (n : ℕ) (addr : SocketAddr)
      → (l : Option Listener) × (bind_unless_held binds n addr b.http ≡ ok l)
        × (move_http b l ≡ (record b { http = addr }, ok tt))
  unfolding bind_unless_held move_http
  move_http-granted b n addr = elim (Bool-cases (socket_same addr b.http)) [
    | inl e ↦ (none, rw e refl, rw (sym ((socket_same_iff addr b.http).0 e)) refl)
    | inr e ↦ (some (ok addr), rw (e, granted n addr) refl, refl)
  ]

  move_socks-granted :
      (b : Bound) (n : ℕ) (addr : SocketAddr)
      → (l : Option Listener) × (bind_unless_held binds n addr b.socks ≡ ok l)
        × (move_socks b l ≡ (record b { socks = addr }, ok tt))
  unfolding bind_unless_held move_socks
  move_socks-granted b n addr = elim (Bool-cases (socket_same addr b.socks)) [
    | inl e ↦ (none, rw e refl, rw (sym ((socket_same_iff addr b.socks).0 e)) refl)
    | inr e ↦ (some (ok addr), rw (e, granted n addr) refl, refl)
  ]

  rebind_bound-granted :
      (b : Bound) (wanted : Listen)
      → rebind_bound binds b wanted
        ≡ (record b { http = wanted.http; socks = wanted.socks }, ok wanted)
  unfolding rebind_bound moved listen
  rebind_bound-granted b wanted =
      let (http, bound_http, moved_http) = move_http-granted b 0 wanted.http in
      let (socks, bound_socks, moved_socks) =
        move_socks-granted (record b { http = wanted.http }) 1 wanted.socks in
      rw (bound_http, rebind_bound) (rw bound_socks (rw (moved_http, moved) (rw moved_socks refl)))

  bind_fresh-granted :
      (n : ℕ) (b : Bound) (wanted : List Forward)
      → (fresh : List (Listener × Target)) × (bind_fresh binds n b wanted ≡ ok fresh)
  unfolding bind_fresh
  bind_fresh-granted n b [] = ([], refl)
  bind_fresh-granted n b (f ∷ wanted) = elim (Bool-cases (held b f.listen)) [
    | inl h ↦ let (fresh, e) = bind_fresh-granted n b wanted in (fresh, rw h e)
    | inr h ↦
        let (fresh, e) = bind_fresh-granted (suc n) b wanted in
        ((ok f.listen, f.target) ∷ fresh, rw (h, granted n f.listen) (rw e refl))
  ]

  Names-granted : (wanted : List Forward) → All (λ (f : Forward). Names binds f.listen) wanted
  Names-granted [] = tt
  Names-granted (f ∷ wanted) = (
    (λ n listener e.
        let same : ok (ok f.listen) ≡ ok listener = sym (granted n f.listen) ∙ e in cc),
    Names-granted wanted,
  )

  rebind_bound_forwards-granted :
      (b : Bound) (wanted : Forwards) → Serves binds b wanted (rebind_bound_forwards binds b wanted)
  rebind_bound_forwards-granted b wanted =
      let (fresh, opened) = bind_fresh-granted 2 b wanted in
      bind_fresh-Serves binds b wanted {fresh = fresh} (Names-granted wanted) opened

  pub rebind-granted :
      (f : Frontends) (wanted : Listen)
      → Frontends.rebind binds f wanted ≡ (moved_frontends f (some wanted), ok wanted)
  unfolding Frontends.rebind
  rebind-granted unbound wanted = refl
  rebind-granted (bound b) wanted = rw (rebind_bound-granted b wanted) refl

  pub rebind_forwards-granted :
      (f : Frontends) (wanted : Forwards)
      → (f' : Frontends) × (answer : Forwards) × (Frontends.rebind_forwards binds f wanted
          ≡ (f', ok answer))
        × Accepts f none wanted f'
        × ((listen : SocketAddr) → target_of answer listen ≡ target_of wanted listen)
  unfolding Frontends.rebind_forwards listen
  rebind_forwards-granted unbound wanted = (unbound, wanted, refl, refl, λ listen. refl)
  rebind_forwards-granted (bound b) wanted =
      let h = rebind_bound_forwards-granted b wanted in
      (
        bound (rebind_bound_forwards binds b wanted).0,
        h.answer,
        rw h.answered refl,
        (h.front_ends.0, h.front_ends.1, h.held_now),
        h.listed,
      )
