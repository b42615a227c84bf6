-- ===== src/Daemon/Frontends/Wanted.antt =====
-- nhop/src/daemon/mod.rs: what `rebind_forwards` makes of the forwards held.
use nhop.Common.{
  ℕ, suc, Bool, true, false, Option, none, some, List, [], ◌∷◌, ◌++◌, ◌==◌, any, if◌then◌else◌,
  Result, ok, err, ◌≡◌, ◌⊎◌, inl, inr, refl, ◌∙◌, arith, All, Bool-cases, Result-cases, map,
}
use mathlib.Core.List.{append_assoc, append-nil}
use nhop.Net.{SocketAddr, socket_eq, socket_same_iff}
use nhop.Proxy.Failure.{IoError}
use nhop.Proxy.Forwards
use nhop.Proxy.Forwards.Pushed.{or_else, target_of-push, target_of-append}
use nhop.Proxy.Forwards.{Forward, Forwards, Target, target_of}
use nhop.Daemon.Frontends.{
  Binds, Bound, Listener, held, bind_fresh, kept_forwards, accept_fresh, declared,
  rebind_bound_forwards,
}

abbrev holds : List Forward → SocketAddr → Bool
holds forwards listen = any (λ (forwarding : Forward). forwarding.listen == listen) forwards

-- A held forward that stays declared takes the declared destination.
target_of-kept_forwards :
    (wanted : Forwards) (fs : List Forward) (listen : SocketAddr)
    → target_of (kept_forwards wanted fs) listen
      ≡ (if holds fs listen then target_of wanted listen else none)
unfolding kept_forwards target_of
target_of-kept_forwards wanted [] listen = refl
target_of-kept_forwards wanted (f ∷ fs) listen =
    ground (arith, target_of-kept_forwards wanted fs listen, socket_same_iff f.listen listen)

-- What an address that binds answers for itself: the kernel gives a listener the address asked for,
-- unless that asks for any port.
abbrev pub Names : Binds → SocketAddr → Type 0
Names binds addr = (n : ℕ) (listener : Listener) → binds n addr ≡ ok listener → listener ≡ ok addr

-- The forwards that `rebind_forwards` has to open.
abbrev unheld : Bound → List Forward → List Forward
unheld b [] = []
unheld b (f ∷ wanted) = let rest = unheld b wanted in if held b f.listen then rest else f ∷ rest

abbrev named : Forward → Listener × Target
named f = (ok f.listen, f.target)

bind_fresh-unheld :
    (binds : Binds) (n : ℕ) (b : Bound) (wanted : List Forward) (fresh : List (Listener × Target))
    → All (λ (f : Forward). Names binds f.listen) wanted
    → bind_fresh binds n b wanted ≡ ok fresh
    → fresh ≡ map named (unheld b wanted)
unfolding bind_fresh
bind_fresh-unheld binds n b [] fresh names e = cc
bind_fresh-unheld binds n b (f ∷ wanted) fresh (name, names) e =
    elim (Bool-cases (held b f.listen)) [
      | inl h ↦ rw h (bind_fresh-unheld binds n b wanted fresh names (ground arith))
      | inr h ↦ elim (Result-cases (binds n f.listen)) [
        | inl (listener, e₁) ↦ elim (Result-cases (bind_fresh binds (suc n) b wanted)) [
          | inl (more, e₂) ↦ rw h (
              ground
                (arith, name n listener e₁, bind_fresh-unheld binds (suc n) b wanted more names e₂))
          | inr (failure, e₂) ↦ ground arith
        ]
        | inr (failure, e₁) ↦ ground arith
      ]
    ]

accept_fresh-named : (fs gs : List Forward) → accept_fresh fs (map named gs) ≡ (fs ++ gs, ok tt)
unfolding accept_fresh
accept_fresh-named fs [] = rw append-nil refl
accept_fresh-named fs (g ∷ gs) = rw (accept_fresh-named (fs ++ g ∷ []) gs, append_assoc) refl

target_of-unheld :
    (b : Bound) (wanted : List Forward) (listen : SocketAddr)
    → target_of (unheld b wanted) listen ≡ (if held b listen then none else target_of wanted listen)
unfolding target_of
target_of-unheld b [] listen = ground arith
target_of-unheld b (f ∷ wanted) listen =
    ground (arith, target_of-unheld b wanted listen, socket_same_iff f.listen listen)

or_else-if :
    (before : Option Target) (target : Target) (after : Option Target) (same : Bool)
    → or_else (or_else before (if same then some target else none)) after
      ≡ or_else before (if same then some target else after)
or_else-if none target after true = refl
or_else-if none target after false = refl
or_else-if (some t) target after same = refl

target_of-declared :
    (fs gs : List Forward) (listen : SocketAddr)
    → target_of (declared fs gs) listen ≡ or_else (target_of gs listen) (target_of fs listen)
unfolding declared target_of
target_of-declared [] gs listen = ground arith
target_of-declared (f ∷ fs) gs listen =
    target_of-declared fs (Forwards.push gs f).0 listen
    ∙ rw (target_of-push gs f listen)
        (or_else-if (target_of gs listen) f.target (target_of fs listen) (f.listen == listen))

or_else-split :
    (h : Bool) (target : Option Target)
    → or_else (if h then target else none) (if h then none else target) ≡ target
or_else-split true none = refl
or_else-split true (some t) = refl
or_else-split false target = refl

module _ (binds : Binds) (b : Bound) (wanted : Forwards) where
  -- The forwards held are those wanted: every address is accepted on exactly where it is declared,
  -- for the destination declared, and the answer lists them.
  pub record Serves (result : Bound × Result IoError Forwards) : Type 0 where
    pub held_now :
        (listen : SocketAddr) → target_of result.0.forwards listen ≡ target_of wanted listen
    pub front_ends : (result.0.http ≡ b.http) × (result.0.socks ≡ b.socks)
    pub answer : Forwards
    pub answered : result.1 ≡ ok answer
    pub listed : (listen : SocketAddr) → target_of answer listen ≡ target_of wanted listen

  forwards_after :
      (listen : SocketAddr)
      → target_of (kept_forwards wanted b.forwards ++ unheld b wanted) listen
        ≡ target_of wanted listen
  unfolding held
  forwards_after listen =
      target_of-append (kept_forwards wanted b.forwards) (unheld b wanted) listen
      ∙ rw (target_of-kept_forwards wanted b.forwards listen, target_of-unheld b wanted listen)
          (or_else-split (held b listen) (target_of wanted listen))

  rebind_bound_forwards-opened :
      {fresh : List (Listener × Target)}
      → All (λ (f : Forward). Names binds f.listen) wanted
      → bind_fresh binds 2 b wanted ≡ ok fresh
      → rebind_bound_forwards binds b wanted ≡ (
        record b { forwards = kept_forwards wanted b.forwards ++ unheld b wanted },
        ok (declared (kept_forwards wanted b.forwards ++ unheld b wanted) []),
      )
  unfolding rebind_bound_forwards
  rebind_bound_forwards-opened {fresh} names e =
      rw (e, rebind_bound_forwards)
        (rw (bind_fresh-unheld binds 2 b wanted fresh names e)
          (rw (accept_fresh-named (kept_forwards wanted b.forwards) (unheld b wanted)) refl))

  pub bind_fresh-Serves :
      {fresh : List (Listener × Target)}
      → All (λ (f : Forward). Names binds f.listen) wanted
      → bind_fresh binds 2 b wanted ≡ ok fresh
      → Serves (rebind_bound_forwards binds b wanted)
  unfolding rebind_bound_forwards target_of
  bind_fresh-Serves names e = rw (rebind_bound_forwards-opened names e) (record {
    held_now = forwards_after;
    front_ends = (refl, refl);
    answer = declared (kept_forwards wanted b.forwards ++ unheld b wanted) [];
    answered = refl;
    listed = λ listen. target_of-declared _ [] listen ∙ forwards_after listen;
  })

  -- Where every wanted address that binds is the address asked for: rebind_forwards either fails
  -- and leaves the held set as it was, or the forwards held and those answered are the ones
  -- wanted, address by address, and the front ends stay.
  pub rebind_bound_forwards-Serves :
      All (λ (f : Forward). Names binds f.listen) wanted
      → ((failure : IoError) × (rebind_bound_forwards binds b wanted ≡ (b, err failure)))
        ⊎ Serves (rebind_bound_forwards binds b wanted)
  unfolding rebind_bound_forwards
  rebind_bound_forwards-Serves names = elim (Result-cases (bind_fresh binds 2 b wanted)) [
    | inr (failure, e) ↦ inl (failure, rw (e, rebind_bound_forwards) refl)
    | inl (fresh, e) ↦ inr (bind_fresh-Serves names e)
  ]
