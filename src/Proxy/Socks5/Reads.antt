-- ===== src/Proxy/Socks5/Reads.antt =====
-- nhop/src/proxy/socks5.rs: what is read of a client, and the bytes that it was.
use nhop.Common.{
  ℕ, zero, suc, ◌+◌, ◌*◌, ◌^◌, ◌≡◌, refl, Option, none, some, [], ◌∷◌, ◌++◌, nat_eq, length,
}
use nhop.Text.Utf8.{Bytes}
use nhop.Wire.{Host, Port}
use nhop.Proxy.Socks5.{behind, Requested, read_exact, with_port}

pub read_exact-append : (xs ys : Bytes) → read_exact (length xs) (xs ++ ys) ≡ some (xs, ys)
unfolding read_exact
read_exact-append [] ys = refl
read_exact-append (x ∷ xs) ys = rw (read_exact-append xs ys) refl

behind-inv :
    (b : ℕ) (read : Option (Bytes × Bytes)) (xs ys : Bytes)
    → behind b read ≡ some (xs, ys)
    → (taken : Bytes) × (read ≡ some (taken, ys)) × (xs ≡ b ∷ taken)
behind-inv b none xs ys e = cc
behind-inv b (some (taken, rest)) xs ys e = (taken, cc, cc)

pub read_exact-split :
    (n : ℕ) (input xs ys : Bytes)
    → read_exact n input ≡ some (xs, ys)
    → (input ≡ xs ++ ys) × (n ≡ length xs)
unfolding read_exact
read_exact-split zero input [] ys e = (cc, refl)
read_exact-split zero input (x ∷ xs) ys e = cc
read_exact-split (suc n) [] xs ys e = cc
read_exact-split (suc n) (b ∷ input) xs ys e =
    let (taken, read, longer) = behind-inv b (read_exact n input) xs ys e in
    let (same, counted) = read_exact-split n input taken ys read in
    (rw (same, longer) refl, rw (counted, longer) refl)

pub with_port-inv :
    (spelled host : Host) (port : Port) (input rest : Bytes)
    → with_port spelled input ≡ some (Requested.connect host port, rest)
    → (high : ℕ) × (low : ℕ) × (input ≡ high ∷ low ∷ rest)
      × (port ≡ high * 2 ^ 8 + low)
      × (host ≡ spelled)
with_port-inv spelled host port [] rest e = cc
with_port-inv spelled host port (h ∷ []) rest e = cc
with_port-inv spelled host port (h ∷ l ∷ input) rest e = (h, l, cc, cc, cc)
