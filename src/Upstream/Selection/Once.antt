-- ===== src/Upstream/Selection/Once.antt =====
-- nhop/src/upstream/select.rs: which moves are logged, how often, and under which cause.
use nhop.Common.{
  ℕ, ◌≡◌, refl, ap, ◌∙◌, inl, inr, true, false, Option, none, some, arith, nat_eq, Bool-cases,
}
use nhop.Net.{socket_eq, socket_same_iff}
use nhop.Proxy.Upstreams.{Upstream}
use nhop.Upstream.Health.{Verdicts}
use nhop.Upstream.Entries.{UpstreamEntries, published_before}
use nhop.Upstream.Selection.{
  Shared, Observed, upstream_at, same_socket, replaced, switched, observe,
}

published_before_itself : (list : UpstreamEntries) → published_before list list ≡ false
unfolding published_before
published_before_itself list = ground arith

same_socket_itself : (u : Option Upstream) → same_socket u u ≡ true
unfolding same_socket
same_socket_itself none = refl
same_socket_itself (some u) = ground (arith, socket_same_iff u.socket u.socket)

replaced_stale :
    (previous : Observed) (shared : Shared) (new : Option ℕ)
    → published_before shared.list previous.shared.list ≡ true
    → replaced previous shared new ≡ previous
unfolding replaced
replaced_stale previous shared new h = rw h

replaced_live :
    (previous : Observed) (shared : Shared) (new : Option ℕ)
    → published_before shared.list previous.shared.list ≡ false
    → replaced previous shared new ≡ record { shared = shared; selected = new }
unfolding replaced
replaced_live previous shared new h = rw h

switched_stale :
    (v : Verdicts) (previous : Observed) (shared : Shared) (new : Option ℕ)
    → published_before shared.list previous.shared.list ≡ true
    → switched v previous shared new ≡ (previous, none)
unfolding switched
switched_stale v previous shared new h = rw (h, replaced_stale previous shared new h)

switched_alike :
    (v : Verdicts) (previous : Observed) (shared : Shared) (new : Option ℕ)
    → same_socket (upstream_at previous.shared.list previous.selected) (upstream_at shared.list new)
      ≡ true
    → switched v previous shared new ≡ (replaced previous shared new, none)
unfolding switched
switched_alike v previous shared new h = rw h (ground arith)

observe-none :
    (v : Verdicts) (previous next : Observed) (shared : Shared) (new : Option ℕ)
    → switched v previous shared new ≡ (next, none)
    → observe v previous shared new ≡ (next, none)
unfolding observe
observe-none v previous next shared new e = rw (e, observe)

observe_next :
    (v : Verdicts) (previous : Observed) (shared : Shared) (new : Option ℕ)
    → (observe v previous shared new).0 ≡ replaced previous shared new
unfolding observe switched
observe_next v previous shared new = refl

-- An observation made from a list published before the one last observed records nothing and logs
-- nothing.
pub observe-stale :
    (v : Verdicts) (previous : Observed) (shared : Shared) (new : Option ℕ)
    → published_before shared.list previous.shared.list ≡ true
    → observe v previous shared new ≡ (previous, none)
observe-stale v previous shared new h =
    observe-none v previous previous shared new (switched_stale v previous shared new h)

switched-again :
    (v : Verdicts) (previous : Observed) (shared : Shared) (new : Option ℕ)
    → switched v (replaced previous shared new) shared new ≡ (replaced previous shared new, none)
switched-again v previous shared new =
    elim (Bool-cases (published_before shared.list previous.shared.list)) [
      | inl h ↦ rw (replaced_stale previous shared new h) (switched_stale v previous shared new h)
      | inr h ↦
          let here : Observed = record { shared = shared; selected = new } in
          rw (replaced_live previous shared new h) (
            switched_alike v here shared new (same_socket_itself (upstream_at shared.list new))
            ∙ ap (λ (o : Observed). (o, none))
                (replaced_live here shared new (published_before_itself shared.list)))
    ]

-- Of two callers that observe one selection of one list, the second changes nothing and logs
-- nothing, whatever the verdicts have become.
pub observe-once :
    (v v' : Verdicts) (previous : Observed) (shared : Shared) (new : Option ℕ)
    → observe v' (observe v previous shared new).0 shared new
      ≡ ((observe v previous shared new).0, none)
observe-once v v' previous shared new = rw (observe_next v previous shared new) (
    observe-none v' (replaced previous shared new) (replaced previous shared new) shared new
      (switched-again v' previous shared new))
