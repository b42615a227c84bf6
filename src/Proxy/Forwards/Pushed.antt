-- ===== src/Proxy/Forwards/Pushed.antt =====
-- nhop/src/proxy/mod.rs: what a forward that is declared adds to a set.
use nhop.Common.{
  false, ◌≢◌, All, DistinctBy, DistinctBy-append_last, true, Option, none, some, List, [], ◌∷◌,
  ◌++◌, ◌==◌, if◌then◌else◌, ◌≡◌, refl, inl, inr, arith, Bool-cases,
}
use nhop.Net.{SocketAddr, socket_eq, socket_same, socket_same_iff}
use nhop.Proxy.Forwards.{Forward, Forwards, Target, declares, push, target_of}

abbrev pub or_else : Option Target → Option Target → Option Target
or_else none other = other
or_else (some target) other = some target

pub target_of-append :
    (fs gs : List Forward) (listen : SocketAddr)
    → target_of (fs ++ gs) listen ≡ or_else (target_of fs listen) (target_of gs listen)
unfolding target_of
target_of-append [] gs listen = refl
target_of-append (f ∷ fs) gs listen = ground (arith, target_of-append fs gs listen)

target_of-declares :
    (fs : List Forward) (listen : SocketAddr)
    → declares fs listen ≡ true
    → (t : Target) × (target_of fs listen ≡ some t)
unfolding declares target_of
target_of-declares [] listen e = cc
target_of-declares (f ∷ fs) listen e = elim (Bool-cases (socket_same f.listen listen)) [
  | inl h ↦ (f.target, rw h refl)
  | inr h ↦ let (t, found) = target_of-declares fs listen (ground arith) in (t, rw h found)
]

-- A declared forward adds its address and destination where the address is new, and changes the
-- destination of no address that is declared already.
pub target_of-push :
    (fs : Forwards) (f : Forward) (listen : SocketAddr)
    → target_of (push fs f).0 listen
      ≡ or_else (target_of fs listen) (if f.listen == listen then some f.target else none)
unfolding push target_of
target_of-push fs f listen = elim (Bool-cases (declares fs f.listen)) [
  | inl h ↦
      let (t, found) = target_of-declares fs f.listen h in
      ground (arith, found, socket_same_iff f.listen listen)
  | inr h ↦ rw h (target_of-append fs (f ∷ []) listen)
]

-- No address twice.
abbrev pub IsDistinct : Forwards → Type 0
IsDistinct fs = DistinctBy (λ (f : Forward). f.listen) fs

declares-All :
    (fs : Forwards) (listen : SocketAddr)
    → declares fs listen ≡ false
    → All (λ (f : Forward). f.listen ≢ listen) fs
unfolding declares
declares-All [] listen e = tt
declares-All (f ∷ fs) listen e = (
  (λ same. ground (arith, socket_same_iff f.listen listen)),
  declares-All fs listen (ground arith),
)

-- A set that declares no address twice stays so, whatever is declared.
pub push-IsDistinct : (fs : Forwards) (f : Forward) → IsDistinct fs → IsDistinct (push fs f).0
unfolding push
push-IsDistinct fs f d = elim (Bool-cases (declares fs f.listen)) [
  | inl h ↦ rw h d
  | inr h ↦
      rw h (DistinctBy-append_last (λ (g : Forward). g.listen) fs f d (declares-All fs f.listen h))
]
