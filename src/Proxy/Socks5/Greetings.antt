-- ===== src/Proxy/Socks5/Greetings.antt =====
-- nhop/src/proxy/socks5.rs: which greetings the front end accepts.
use nhop.Common.{
  ℕ, ◌≡◌, ◌↔◌, inl, inr, refl, arith, true, Option, none, some, [], ◌∷◌, ◌++◌, ◌==◌, nat_eq, length,
  any, Bool-cases,
}
use mathlib.Core.List.{Memᴰ}
use nhop.Text.Utf8.{Bytes}
use nhop.Proxy.Socks5.{Greeting, read_exact, greeted, greet}
use nhop.Proxy.Socks5.Reads.{read_exact-append, read_exact-split}

any_iff : (offered : Bytes) → (any (λ (method : ℕ). method == 0) offered ≡ true) ↔ Memᴰ 0 offered
any_iff [] = ((λ e. cc), λ m. elim m [ ])
any_iff (x ∷ offered) = (
  (λ e. elim (Bool-cases (x == 0)) [
    | inl h ↦ Memᴰ.head (ground arith)
    | inr h ↦ Memᴰ.tail ((any_iff offered).0 (ground arith))
  ]),
  λ m. elim m [ Memᴰ.head h ↦ ground arith | Memᴰ.tail h ↦ ground (arith, (any_iff offered).1 h) ],
)

greeted-accepts :
    (read : Option (Bytes × Bytes)) (more : Bytes)
    → greeted read ≡ some (Greeting.no_auth, more)
    → (offered : Bytes) × (read ≡ some (offered, more)) × Memᴰ 0 offered
greeted-accepts none more e = cc
greeted-accepts (some (offered, rest)) more e =
    elim (Bool-cases (any (λ (method : ℕ). method == 0) offered)) [
      | inl h ↦ (offered, ground arith, (any_iff offered).0 h)
      | inr h ↦ absurd (ground arith)
    ]

-- A greeting of version 5 with as many methods as it tells, no authentication among them.
abbrev pub Offers : Bytes → Bytes → Type 0
Offers input more =
    (offered : Bytes) × (input ≡ 5 ∷ length offered ∷ (offered ++ more)) × Memᴰ 0 offered

greet_sound : (input more : Bytes) → greet input ≡ some (Greeting.no_auth, more) → Offers input more
unfolding greet
greet_sound [] more e = cc
greet_sound (got ∷ []) more e = cc
greet_sound (got ∷ count ∷ input) more e = elim (Bool-cases (got == 5)) [
  | inr h ↦ absurd (ground arith)
  | inl h ↦
      let (offered, read, m) = greeted-accepts (read_exact count input) more (ground arith) in
      let (bytes, counted) = read_exact-split count input offered more read in
      let same : got ≡ 5 = ground arith in (offered, cc, m)
]

-- A greeting is accepted exactly when it is version 5, as many methods as it tells, and no
-- authentication among them.
pub greet_iff :
    (input more : Bytes) → (greet input ≡ some (Greeting.no_auth, more)) ↔ Offers input more
unfolding greet
greet_iff input more = (
  greet_sound input more,
  λ (offered, bytes, m).
      rw (bytes) (rw (read_exact-append offered more) (rw ((any_iff offered).1 m) refl)),
)
