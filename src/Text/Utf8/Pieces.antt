-- ===== src/Text/Utf8/Pieces.antt =====
-- Bytes that encode a text, with bytes behind them and without the bytes of its beginning.
use nhop.Common.{
  ℕ, suc, ◌+◌, ◌≤◌, ◌≡◌, ap, ◌∙◌, sym, arith, some, [], ◌∷◌, ◌++◌, length, length-append,
  append_assoc, drop,
}
use nhop.Text.{Text}
use nhop.Text.Utf8.{Bytes, from_utf8, and_then, char_len, byte_len}
use nhop.Text.Utf8.Steps.{first, after, after_cons, after_nil, empty_only}

pub zero_plus : (n : ℕ) → (0 + n) ≡ n
zero_plus n = omega arith

suc_plus : (m n : ℕ) → (suc m + n) ≡ suc (m + n)
suc_plus m n = omega arith

drop-append : (head rest : Bytes) (n : ℕ) → drop (length head + n) (head ++ rest) ≡ drop n rest
drop-append [] rest n = ap (λ k. drop k rest) (zero_plus n)
drop-append (b ∷ head) rest n =
    ap (λ k. drop k (b ∷ (head ++ rest))) (suc_plus (length head) n) ∙ drop-append head rest n

pub byte_len-append : (p q : Text) → byte_len (p ++ q) ≡ byte_len p + byte_len q
byte_len-append [] q = omega arith
byte_len-append (c ∷ p) q = omega (arith, byte_len-append p q)

no_bytes : (s : ℕ) (t : Text) → from_utf8 [] ≡ some (s ∷ t) → ⊥
unfolding from_utf8
no_bytes s t e = cc

-- What bytes behind those of a text add to it.
pub from_utf8-append :
    (t : Text) (f g : Bytes) → from_utf8 f ≡ some t → from_utf8 (f ++ g) ≡ after t (from_utf8 g)
from_utf8-append [] [] g e = after_nil (from_utf8 g)
from_utf8-append [] (a ∷ f) g e = absurd (empty_only a f e)
from_utf8-append (s ∷ t) [] g e = absurd (no_bytes s t e)
from_utf8-append (s ∷ t) (a ∷ f) g e =
    let r = first (s ∷ t) a f e in
    let whole = r.whole in
    let same : r.scalar ≡ s = cc in
    let more : r.more ≡ t = cc in
    ap (λ b. from_utf8 (b ++ g)) r.split
    ∙ ap from_utf8 (append_assoc r.head r.rest g)
    ∙ r.step (r.rest ++ g)
    ∙ ap (λ x. and_then x (from_utf8 (r.rest ++ g))) same
    ∙ ap (and_then s) (from_utf8-append t r.rest g (r.behind ∙ ap some more))
    ∙ after_cons s t (from_utf8 g)

-- Without the bytes of a beginning of the text, bytes encode the rest of it.
pub from_utf8-drop :
    (p q : Text) (f : Bytes)
    → from_utf8 f ≡ some (p ++ q)
    → (from_utf8 (drop (byte_len p) f) ≡ some q) × (byte_len p ≤ length f)
from_utf8-drop [] q f e = (e, omega arith)
from_utf8-drop (s ∷ p) q [] e = absurd (no_bytes s (p ++ q) e)
from_utf8-drop (s ∷ p) q (a ∷ f) e =
    let r = first (s ∷ (p ++ q)) a f e in
    let whole = r.whole in
    let same : r.scalar ≡ s = cc in
    let more : r.more ≡ p ++ q = cc in
    let (behind, shorter) = from_utf8-drop p q r.rest (r.behind ∙ ap some more) in
    let n : length r.head ≡ char_len s = r.sized ∙ ap char_len same in
    let taken : drop (char_len s + byte_len p) (a ∷ f) ≡ drop (byte_len p) r.rest =
      ap (drop (char_len s + byte_len p)) r.split
      ∙ ap (λ k. drop (k + byte_len p) (r.head ++ r.rest)) (sym n)
      ∙ drop-append r.head r.rest (byte_len p) in
    let long : length (a ∷ f) ≡ length r.head + length r.rest =
      ap length r.split ∙ length-append r.head r.rest in
    (ap from_utf8 taken ∙ behind, omega (arith, long, n, shorter))
