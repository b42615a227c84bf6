-- ===== src/Proxy/Http/Framed.antt =====
-- nhop/src/proxy/http.rs: how much of what a client sends belongs to its one request.
use nhop.Common.{ℕ, zero, suc, ◌-◌, ◌≤◌, ◌≡◌, refl, ap, arith, [], ◌∷◌, ◌++◌, length, take, min}
use nhop.Text.Utf8.{Bytes}
use nhop.Proxy.Http.{Method, Body, limit, u64_max, behind_the_head, rest_of_body}

-- What reaches the origin of a body of which `rest` was read with the head and `later` follows.
abbrev pub body_sent : Method → Body → Bytes → Bytes → Bytes
body_sent method body rest later =
    let behind = behind_the_head rest method body in
    behind ++ take (limit (rest_of_body method body behind)) later

take-min : (n : ℕ) (xs : Bytes) → take (min n (length xs)) xs ≡ take n xs
take-min zero xs = ground arith
take-min (suc n) [] = ground arith
take-min (suc n) (x ∷ xs) =
    let same : min (suc n) (suc (length xs)) ≡ suc (min n (length xs)) = ground arith in
    rw same (ap (λ (t : Bytes). x ∷ t) (take-min n xs))

pub take-split :
    (n : ℕ) (xs ys : Bytes) → take n xs ++ take (n - length (take n xs)) ys ≡ take n (xs ++ ys)
take-split zero xs ys = refl
take-split (suc n) [] ys = let same : suc n - 0 ≡ suc n = omega arith in rw same refl
take-split (suc n) (x ∷ xs) ys =
    let same : suc n - suc (length (take n xs)) ≡ n - length (take n xs) = omega arith in
    rw same (ap (λ (t : Bytes). x ∷ t) (take-split n xs ys))

-- For a Content-Length that a u64 holds, the origin is sent the first bytes behind the head, as
-- many as the length tells or as the client sends, however many of them arrive with the head: no
-- byte of a later request, and none missing.
pub body_sent-sized :
    (len : ℕ) (rest later : Bytes)
    → len ≤ u64_max
    → body_sent Method.absolute (Body.sized len) rest later ≡ take len (rest ++ later)
unfolding behind_the_head rest_of_body limit
body_sent-sized len rest later h = rw (take-min len rest) (
    let fits : min (len - length (take len rest)) u64_max ≡ len - length (take len rest) =
      ground arith in
    rw fits (take-split len rest later))
