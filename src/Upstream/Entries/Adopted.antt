-- ===== src/Upstream/Entries/Adopted.antt =====
-- nhop/src/upstream/entries.rs: what a reload keeps of the verdicts, and what it starts afresh.
use nhop.Common.{
  ℕ, suc, ◌≤◌, ◌<◌, ◌≡◌, refl, sym, ◌≢◌, ap, ◌∙◌, subst, ◌⊎◌, inl, inr, none, some, List, [], ◌∷◌,
  map, arith, All, All-weaken, All-zip, All-of_map, DistinctBy, DistinctBy-of_map, Bool-cases,
  Option-cases,
}
use nhop.Net.{SocketAddr, socket_eq, socket_same, socket_same_iff}
use nhop.Wire.{down}
use nhop.Proxy.Upstreams.{Upstream, Upstreams}
use nhop.Upstream.Health.{Verdicts, Health, HealthHandle, SystemTime, judging, state, verdict}
use nhop.Upstream.Entries.{UpstreamEntry, kept_handle, adopt}

abbrev pub socket_of : UpstreamEntry → SocketAddr
socket_of e = e.upstream.socket

-- A published list: no address twice, no handle twice, and every handle is of the store.
pub record IsPublished (v : Verdicts) (entries : List UpstreamEntry) : Type 0 where
  pub sockets : DistinctBy socket_of entries
  pub handles : DistinctBy (λ (e : UpstreamEntry). e.health) entries
  pub stored : All (λ e. e.health < v.next) entries

-- An entry holds the handle that the list before it had for its address, one of the first `n`; or
-- the list had none, and the handle is fresh, from `m` on, and starts `Down`.
abbrev pub Keeps : List UpstreamEntry → ℕ → ℕ → Verdicts → UpstreamEntry → Type 0
Keeps kept n m v' e =
    ((kept_handle kept (socket_of e) ≡ some e.health) × (e.health < n))
    ⊎ ((kept_handle kept (socket_of e) ≡ none)
        × (m ≤ e.health)
        × (e.health < v'.next)
        × (state v' e.health ≡ down))

kept_handle-below :
    (n : ℕ) (kept : List UpstreamEntry) (socket : SocketAddr) {h : HealthHandle}
    → All (λ e. e.health < n) kept
    → kept_handle kept socket ≡ some h
    → h < n
unfolding kept_handle
kept_handle-below n [] socket a e = cc
kept_handle-below n (k ∷ kept) socket {h} (l, a) e =
    ground (arith, kept_handle-below n kept socket {h = h} a)

judging_next :
    (v : Verdicts) (w : List ℕ) (now : SystemTime)
    → ((judging v w now).0.next ≡ suc v.next) × ((judging v w now).1 ≡ v.next)
unfolding judging
judging_next v w now = (refl, refl)

judging_keeps :
    (v : Verdicts) (w : List ℕ) (now : SystemTime) (h : HealthHandle)
    → h < v.next
    → verdict (judging v w now).0 h ≡ verdict v h
unfolding judging verdict
judging_keeps v w now h l = ground arith

judging_down :
    (v : Verdicts) (w : List ℕ) (now : SystemTime) → state (judging v w now).0 v.next ≡ down
unfolding judging state
judging_down v w now = ground arith

state_of_verdict :
    (v w : Verdicts) (h : HealthHandle) → verdict v h ≡ verdict w h → state v h ≡ state w h
unfolding state
state_of_verdict v w h e = ap (λ (t : Health). t.state) e

kept_handle-Listed :
    (kept : List UpstreamEntry) (socket : SocketAddr) {h : HealthHandle}
    → kept_handle kept socket ≡ some h
    → (P : UpstreamEntry → Type 0) → All P kept
    → (e : UpstreamEntry) × P e × (socket_of e ≡ socket) × (e.health ≡ h)
unfolding kept_handle
kept_handle-Listed [] socket e P a = cc
kept_handle-Listed (k ∷ kept) socket {h} e P (p, a) =
    elim (Bool-cases (socket_same k.upstream.socket socket)) [
      | inl t ↦ (k, p, (socket_same_iff _ _).0 t, ground arith)
      | inr f ↦ kept_handle-Listed kept socket (ground arith) P a
    ]

not_kept_again :
    (kept : List UpstreamEntry) (socket : SocketAddr) (h : HealthHandle)
    → All (λ e. h ≢ e.health) kept
    → kept_handle kept socket ≡ some h
    → ⊥
not_kept_again kept socket h a e =
    let (y, ne, s, same) = kept_handle-Listed kept socket e (λ e. h ≢ e.health) a in ne (sym same)

-- With one entry to a handle, a handle is kept for one address only.
kept_handle-injective :
    (kept : List UpstreamEntry) (s t : SocketAddr) {h : HealthHandle}
    → DistinctBy (λ (e : UpstreamEntry). e.health) kept
    → kept_handle kept s ≡ some h
    → kept_handle kept t ≡ some h
    → s ≡ t
unfolding kept_handle
kept_handle-injective [] s t d e f = cc
kept_handle-injective (k ∷ kept) s t {h} (d, ds) e f =
    elim (Bool-cases (socket_same k.upstream.socket s)) [
      | inl a ↦ elim (Bool-cases (socket_same k.upstream.socket t)) [
        | inl b ↦ sym ((socket_same_iff _ _).0 a) ∙ (socket_same_iff _ _).0 b
        | inr b ↦ absurd (not_kept_again kept t k.health d (ground arith))
      ]
      | inr a ↦ elim (Bool-cases (socket_same k.upstream.socket t)) [
        | inl b ↦ absurd (not_kept_again kept s k.health d (ground arith))
        | inr b ↦ kept_handle-injective kept s t {h = h} ds (ground arith) (ground arith)
      ]
    ]

module _ (clock : HealthHandle → SystemTime) (kept : List UpstreamEntry) where
  abbrev made : Verdicts → Upstream → Verdicts
  made v u = (judging v u.written (clock v.next)).0

  adopt_kept :
      (v : Verdicts) (u : Upstream) (next : Upstreams) {h : HealthHandle}
      → kept_handle kept u.socket ≡ some h
      → adopt clock kept v (u ∷ next) ≡ (
        (adopt clock kept v next).0,
        record { upstream = u; health = h } ∷ (adopt clock kept v next).1,
      )
  unfolding adopt
  adopt_kept v u next e = rw (e, adopt)

  adopt_fresh :
      (v : Verdicts) (u : Upstream) (next : Upstreams)
      → kept_handle kept u.socket ≡ none
      → adopt clock kept v (u ∷ next) ≡ (
        (adopt clock kept (made v u) next).0,
        record { upstream = u; health = v.next } ∷ (adopt clock kept (made v u) next).1,
      )
  unfolding adopt judging
  adopt_fresh v u next e = rw (e, adopt)

  -- The entries are the upstreams that the load names, in its order.
  pub adopt-upstreams :
      (v : Verdicts) (next : Upstreams)
      → map (λ (e : UpstreamEntry). e.upstream) (adopt clock kept v next).1 ≡ next
  adopt-upstreams v [] = unfold adopt in refl
  adopt-upstreams v (u ∷ next) = elim (Option-cases (kept_handle kept u.socket)) [
    | inl e ↦ rw (adopt_fresh v u next e) (ap (λ t. u ∷ t) (adopt-upstreams (made v u) next))
    | inr (h, e) ↦ rw (adopt_kept v u next e) (ap (λ t. u ∷ t) (adopt-upstreams v next))
  ]

  -- The store only grows, and no verdict that was there moves.
  pub adopt-grows :
      (v : Verdicts) (next : Upstreams)
      → (v.next ≤ (adopt clock kept v next).0.next)
        × ((h : HealthHandle) → h < v.next → verdict (adopt clock kept v next).0 h ≡ verdict v h)
  adopt-grows v [] = unfold adopt in (omega arith, λ h l. refl)
  adopt-grows v (u ∷ next) = elim (Option-cases (kept_handle kept u.socket)) [
    | inr (h, e) ↦ rw (adopt_kept v u next e) (adopt-grows v next)
    | inl e ↦
        let (grew, kept_all) = adopt-grows (made v u) next in
        let one_more = (judging_next v u.written (clock v.next)).0 in
        rw (adopt_fresh v u next e) (
          omega (arith, grew, one_more),
          λ h l.
              kept_all h (omega (arith, one_more)) ∙ judging_keeps v u.written (clock v.next) h l,
        )
  ]

  Keeps-later :
      (n m m' : ℕ) (v' : Verdicts) (e : UpstreamEntry)
      → m ≤ m'
      → Keeps kept n m' v' e
      → Keeps kept n m v' e
  Keeps-later n m m' v' e l (inl k) = inl k
  Keeps-later n m m' v' e l (inr (none_kept, fresh, stored, d)) =
      inr (none_kept, omega arith, stored, d)

  fresh-Keeps :
      (n : ℕ) (v : Verdicts) (u : Upstream) (next : Upstreams)
      → kept_handle kept u.socket ≡ none
      → Keeps kept n v.next
          (adopt clock kept (made v u) next).0
          (record { upstream = u; health = v.next })
  fresh-Keeps n v u next e =
      let (grew, kept_all) = adopt-grows (made v u) next in
      let one_more = (judging_next v u.written (clock v.next)).0 in
      inr (
        e,
        omega arith,
        omega (arith, grew, one_more),
        state_of_verdict _ (made v u) v.next (kept_all v.next (omega (arith, one_more)))
            ∙ judging_down v u.written (clock v.next),
      )

  pub adopt-Keeps :
      (n : ℕ) (v : Verdicts) (next : Upstreams)
      → n ≤ v.next
      → All (λ e. e.health < n) kept
      → All (Keeps kept n v.next (adopt clock kept v next).0) (adopt clock kept v next).1
  adopt-Keeps n v [] l a = unfold adopt in tt
  adopt-Keeps n v (u ∷ next) l a = elim (Option-cases (kept_handle kept u.socket)) [
    | inr (h, e) ↦
        rw (adopt_kept v u next e)
          (inl (e, kept_handle-below n kept u.socket a e), adopt-Keeps n v next l a)
    | inl e ↦
        let one_more = (judging_next v u.written (clock v.next)).0 in
        let more : v.next ≤ (made v u).next = omega (arith, one_more) in
        rw (adopt_fresh v u next e) (
          fresh-Keeps n v u next e,
          All-weaken _ (λ y k. Keeps-later n v.next (made v u).next _ y more k)
              (adopt-Keeps n (made v u) next (omega arith) a),
        )
  ]

  kept-ne :
      (n m : ℕ) (v' : Verdicts) (socket : SocketAddr) (h : HealthHandle) (y : UpstreamEntry)
      → DistinctBy (λ (e : UpstreamEntry). e.health) kept
      → kept_handle kept socket ≡ some h
      → h < m
      → socket ≢ socket_of y
      → Keeps kept n m v' y
      → h ≢ y.health
  kept-ne n m v' socket h y d e l ne (inl (k, below)) same =
      ne (kept_handle-injective kept socket (socket_of y) d e (cc (k, same)))
  kept-ne n m v' socket h y d e l ne (inr (k, fresh, below, dn)) same = omega arith

  fresh-ne :
      (n m h : ℕ) (v' : Verdicts) (y : UpstreamEntry)
      → n ≤ h
      → h < m
      → Keeps kept n m v' y
      → h ≢ y.health
  fresh-ne n m h v' y l l' (inl (k, below)) same = omega arith
  fresh-ne n m h v' y l l' (inr (k, fresh, below, dn)) same = omega arith

  adopt-sockets :
      (v : Verdicts) (next : Upstreams) (P : SocketAddr → Type 0)
      → All (λ (t : Upstream). P t.socket) next
      → All (λ y. P (socket_of y)) (adopt clock kept v next).1
  adopt-sockets v next P n =
      All-of_map (λ (t : Upstream). P t.socket) (λ (y : UpstreamEntry). y.upstream)
        (adopt clock kept v next).1
        (subst (All (λ (t : Upstream). P t.socket)) (sym (adopt-upstreams v next)) n)

  -- No two entries share a handle, if the addresses differ and no two entries shared one before.
  pub adopt-DistinctBy :
      (n : ℕ) (v : Verdicts) (next : Upstreams)
      → n ≤ v.next
      → All (λ e. e.health < n) kept
      → DistinctBy (λ (e : UpstreamEntry). e.health) kept
      → DistinctBy (λ (u : Upstream). u.socket) next
      → DistinctBy (λ (e : UpstreamEntry). e.health) (adopt clock kept v next).1
  adopt-DistinctBy n v [] l a d ne = unfold adopt in tt
  adopt-DistinctBy n v (u ∷ next) l a d (ne, nes) =
      elim (Option-cases (kept_handle kept u.socket)) [
        | inr (h, e) ↦
            let below = kept_handle-below n kept u.socket a e in
            rw (adopt_kept v u next e) (
              All-zip _ (λ y k other. kept-ne n v.next _ u.socket h y d e (omega arith) other k)
                  (adopt-Keeps n v next l a) (adopt-sockets v next (λ t. u.socket ≢ t) ne),
              adopt-DistinctBy n v next l a d nes,
            )
        | inl e ↦
            let one_more = (judging_next v u.written (clock v.next)).0 in
            let more : v.next < (made v u).next = omega (arith, one_more) in
            rw (adopt_fresh v u next e) (
              All-weaken _ (λ y k. fresh-ne n (made v u).next v.next _ y l more k)
                  (adopt-Keeps n (made v u) next (omega arith) a),
              adopt-DistinctBy n (made v u) next (omega arith) a d nes,
            )
      ]

  pub adopt-DistinctBy_sockets :
      (v : Verdicts) (next : Upstreams)
      → DistinctBy (λ (u : Upstream). u.socket) next
      → DistinctBy socket_of (adopt clock kept v next).1
  adopt-DistinctBy_sockets v next d =
      DistinctBy-of_map (λ (u : Upstream). u.socket) (λ (y : UpstreamEntry). y.upstream)
        (adopt clock kept v next).1
        (subst (DistinctBy (λ (u : Upstream). u.socket)) (sym (adopt-upstreams v next)) d)
