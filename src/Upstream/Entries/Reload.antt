-- ===== src/Upstream/Entries/Reload.antt =====
-- nhop/src/upstream/entries.rs: what a published list is, and what `adopted` makes of one.
use mathlib.Core.List.{◌∷◌, Memᴰ}
use nhop.Net.{SocketAddr, socket_same, socket_same_iff}
use nhop.Wire.{down}
use nhop.Common.{
  refl, [], ◌∷◌, ℕ, ◌≢◌, ◌⊎◌, none, some, Bool-cases, ◌≤◌, ◌<◌, ◌≡◌, arith, All, All-weaken,
  DistinctBy, map, List, inl, inr, true,
}
use nhop.Proxy.Upstreams.{Upstream, Upstreams}
use nhop.Upstream.Health.{Verdicts, HealthHandle, SystemTime, verdict, state}
use nhop.Upstream.Entries.{
  UpstreamEntry, UpstreamEntries, kept_handle, adopt, adopted, published_before, u64_max,
}
use nhop.Upstream.Entries.Adopted.{
  socket_of, Keeps, IsPublished, adopt-upstreams, adopt-grows, adopt-Keeps, adopt-DistinctBy,
  adopt-DistinctBy_sockets,
}

-- An entry holds the handle of an entry of the list before it with the same address; or that list
-- had no such entry, and the handle is fresh, from `m` on, and starts `Down`.
abbrev pub Inherits : List UpstreamEntry → ℕ → Verdicts → UpstreamEntry → Type 0
Inherits kept m v' e =
    ((k : UpstreamEntry) × Memᴰ k kept × (socket_of k ≡ socket_of e) × (k.health ≡ e.health))
    ⊎ (All (λ k. socket_of k ≢ socket_of e) kept
        × (m ≤ e.health)
        × (e.health < v'.next)
        × (state v' e.health ≡ down))

kept_handle-none :
    (kept : List UpstreamEntry) (socket : SocketAddr)
    → kept_handle kept socket ≡ none
    → All (λ k. socket_of k ≢ socket) kept
unfolding kept_handle
kept_handle-none [] socket e = tt
kept_handle-none (k ∷ kept) socket e = (
  (λ same. ground (arith, socket_same_iff k.upstream.socket socket)),
  kept_handle-none kept socket (ground arith),
)

kept_handle-some :
    (kept : List UpstreamEntry) (socket : SocketAddr) {h : HealthHandle}
    → kept_handle kept socket ≡ some h
    → (k : UpstreamEntry) × Memᴰ k kept × (socket_of k ≡ socket) × (k.health ≡ h)
unfolding kept_handle
kept_handle-some [] socket e = cc
kept_handle-some (k ∷ kept) socket {h} e =
    elim (Bool-cases (socket_same k.upstream.socket socket)) [
      | inl t ↦ (k, Memᴰ.head refl, (socket_same_iff _ _).0 t, ground arith)
      | inr f ↦
          let (y, m, s, same) = kept_handle-some kept socket {h = h} (ground arith) in
          (y, Memᴰ.tail m, s, same)
    ]

Keeps-Inherits :
    (n : ℕ) (v' : Verdicts) (kept : List UpstreamEntry) (e : UpstreamEntry)
    → Keeps kept n n v' e
    → Inherits kept n v' e
Keeps-Inherits n v' kept e (inl (q, below)) = inl (kept_handle-some kept (socket_of e) q)
Keeps-Inherits n v' kept e (inr (q, fresh, stored, d)) =
    inr (kept_handle-none kept (socket_of e) q, fresh, stored, d)

module _ (clock : HealthHandle → SystemTime) where
  -- The load's upstreams in its order; a list that is again sound; every verdict of the store as it
  -- was; and to each entry the handle that the replaced list had for its address, or a fresh one
  -- that starts `Down`.
  pub record Adopts (v : Verdicts) (kept : UpstreamEntries) (next : Upstreams) : Type 0 where
    pub upstreams :
        map (λ (e : UpstreamEntry). e.upstream) (adopted clock v kept next).1.entries ≡ next
    pub published : IsPublished (adopted clock v kept next).0 (adopted clock v kept next).1.entries
    pub verdicts :
        (h : HealthHandle) → h < v.next → verdict (adopted clock v kept next).0 h ≡ verdict v h
    pub handles :
        All
          (Inherits kept.entries v.next (adopted clock v kept next).0)
          (adopted clock v kept next).1.entries

  Keeps-stored :
      (v v' : Verdicts) (kept : List UpstreamEntry) (e : UpstreamEntry)
      → v.next ≤ v'.next
      → Keeps kept v.next v.next v' e
      → e.health < v'.next
  Keeps-stored v v' kept e l (inl (k, below)) = omega arith
  Keeps-stored v v' kept e l (inr (k, fresh, stored, d)) = stored

  -- A reload of a published list by addresses that differ lists the new upstreams in order, keeps
  -- the list sound (no address and no handle twice, every handle stored), moves no verdict in the
  -- store, and gives each entry the handle that the replaced list had for its address or a fresh
  -- one that starts Down.
  pub adopted-Adopts :
      (v : Verdicts) (kept : UpstreamEntries) (next : Upstreams)
      → IsPublished v kept.entries
      → DistinctBy (λ (u : Upstream). u.socket) next
      → Adopts v kept next
  unfolding adopted
  adopted-Adopts v kept next p d =
      let keeps = adopt-Keeps clock kept.entries v.next v next (omega arith) p.stored in
      record {
        upstreams = adopt-upstreams clock kept.entries v next;
        published = record {
          sockets = adopt-DistinctBy_sockets clock kept.entries v next d;
          handles =
              adopt-DistinctBy clock kept.entries v.next v next (omega arith) p.stored p.handles d;
          stored =
              All-weaken _
                (λ e k.
                  Keeps-stored v (adopt clock kept.entries v next).0 kept.entries e
                    (adopt-grows clock kept.entries v next).0 k)
                keeps;
        };
        verdicts = (adopt-grows clock kept.entries v next).1;
        handles =
            All-weaken _
              (λ e k. Keeps-Inherits v.next (adopt clock kept.entries v next).0 kept.entries e k)
              keeps;
      }

  -- A list that is adopted counts as published after the one it replaces, as long as the count of
  -- publications is below the end of its u64.
  pub adopted-published_after :
      (v : Verdicts) (kept : UpstreamEntries) (next : Upstreams)
      → kept.publication < u64_max
      → published_before kept (adopted clock v kept next).1 ≡ true
  unfolding adopted published_before
  adopted-published_after v kept next h = ground arith
