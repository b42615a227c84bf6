-- ===== src/Proxy/Http/Reading.antt =====
-- nhop/src/proxy/http.rs: `read_head`. What arrives of the client is a list of chunks, of which a
-- read takes the first as far as the buffer has room; the end of the list is the end of the stream.
use nhop.Common.{
  ℕ, zero, suc, ◌-◌, ◌≤◌, ◌≡◌, refl, ap, ◌∙◌, sym, arith, Bool, true, false, Option, none, some,
  List, [], ◌∷◌, ◌++◌, ◌==◌, nat_eq, if◌then◌else◌, take, length, length-append, append_assoc,
  append_nil, nat_same_iff,
}
use nhop.Text.Utf8.{Bytes}
use nhop.Proxy.Http.Framed.{take-split}
use nhop.Proxy.Http.{head_end, head_end_from}

abbrev pub head_limit : ℕ
head_limit = 8192

-- The end of the head, and all that has been read.
pub record Head : Type 0 where
  pub end : ℕ
  pub read : Bytes

abbrev pub filled : Bytes → Bytes → Bytes
filled buffer chunk = buffer ++ take (head_limit - length buffer) chunk

abbrev pub head_in : Bytes → Option ℕ → Option Head → Option Head
head_in buffer none later = later
head_in buffer (some end) later = some (record { end = end; read = buffer })

-- The loop, from what the buffer holds.
unfoldable pub read_from : Bytes → List Bytes → Option Head
unfolding head_end
read_from buffer [] = none
read_from buffer ([] ∷ more) = none
read_from buffer ((b ∷ chunk) ∷ more) =
    let buffer' = filled buffer (b ∷ chunk) in
    let later = read_from buffer' more in
    if length buffer == head_limit then none else head_in buffer' (head_end buffer') later

unfoldable pub read_head : List Bytes → Option Head
unfolding read_from
read_head arrivals = read_from [] arrivals

abbrev pub flat : List Bytes → Bytes
flat [] = []
flat (chunk ∷ more) = chunk ++ flat more

-- No read that is not the last one gives nothing.
abbrev pub Arrive : List Bytes → Type 0
Arrive [] = Unit
Arrive ([] ∷ more) = ⊥
Arrive ((b ∷ chunk) ∷ more) = Arrive more

abbrev pub ends : Option Head → Option ℕ
ends none = none
ends (some head) = some head.end

-- An end that is found stays the first one, whatever follows.
end-append :
    (index : ℕ) (buffer more : Bytes) (end : ℕ)
    → head_end_from index buffer ≡ some end
    → head_end_from index (buffer ++ more) ≡ some end
unfolding head_end_from
end-append index [] more end e = ground arith
end-append index (a ∷ []) more end e = ground arith
end-append index (a ∷ b ∷ []) more end e = ground arith
end-append index (a ∷ b ∷ c ∷ []) more end e = ground arith
end-append index (a ∷ b ∷ c ∷ d ∷ rest) more end e =
    ground (arith, end-append (suc index) (b ∷ c ∷ d ∷ rest) more end)

length-take_le : (n : ℕ) (xs : Bytes) → length (take n xs) ≤ n
length-take_le zero xs = omega arith
length-take_le (suc n) [] = omega arith
length-take_le (suc n) (x ∷ xs) = omega (arith, length-take_le n xs)

filled_le : (buffer x : Bytes) → length buffer ≤ head_limit → length (filled buffer x) ≤ head_limit
filled_le buffer x h = omega (
  arith,
  length-append buffer (take (head_limit - length buffer) x),
  length-take_le (head_limit - length buffer) x,
)

-- The bytes that fit, with one chunk taken.
filled-more :
    (buffer x rest : Bytes)
    → buffer ++ take (head_limit - length buffer) (x ++ rest)
      ≡ filled buffer x ++ take (head_limit - length (filled buffer x)) rest
filled-more buffer x rest =
    let n = head_limit - length buffer in
    let room : n - length (take n x) ≡ head_limit - length (filled buffer x) =
      omega (arith, length-append buffer (take n x)) in
    ap (λ l. buffer ++ l) (sym (take-split n x rest))
    ∙ sym (append_assoc buffer (take n x) (take (n - length (take n x)) rest))
    ∙ ap (λ k. filled buffer x ++ take k rest) room

take_nil : (n : ℕ) → take {A = ℕ} n [] ≡ []
take_nil zero = refl
take_nil (suc n) = refl

full-none :
    (buffer rest : Bytes) (n : ℕ)
    → n ≡ 0
    → head_end buffer ≡ none
    → head_end (buffer ++ take n rest) ≡ none
full-none buffer rest n e h =
    ap (λ k. head_end (buffer ++ take k rest)) e ∙ ap head_end (append_nil buffer) ∙ h

found-or_later :
    (buffer rest : Bytes) (found : Option ℕ) (later : Option Head)
    → head_end buffer ≡ found
    → (head_end buffer ≡ none → ends later ≡ head_end (buffer ++ rest))
    → ends (head_in buffer found later) ≡ head_end (buffer ++ rest)
unfolding head_end
found-or_later buffer rest none later e h = h e
found-or_later buffer rest (some end) later e h = sym (end-append 0 buffer rest end e)

one_read :
    (buffer x rest : Bytes) (later : Option Head) (full : Bool)
    → (length buffer == head_limit) ≡ full
    → head_end buffer ≡ none
    → (head_end (filled buffer x) ≡ none
        → ends later
          ≡ head_end (filled buffer x ++ take (head_limit - length (filled buffer x)) rest))
    → ends (if full then none else head_in (filled buffer x) (head_end (filled buffer x)) later)
      ≡ head_end (buffer ++ take (head_limit - length buffer) (x ++ rest))
one_read buffer x rest later true e h k =
    let at_limit : length buffer ≡ head_limit = (nat_same_iff (length buffer) head_limit).0 e in
    sym (full-none buffer (x ++ rest) (head_limit - length buffer) (omega (arith, at_limit)) h)
one_read buffer x rest later false e h k =
    found-or_later (filled buffer x) (take (head_limit - length (filled buffer x)) rest)
      (head_end (filled buffer x)) later refl k
    ∙ ap head_end (sym (filled-more buffer x rest))

reads-found :
    (buffer : Bytes) (arrivals : List Bytes)
    → Arrive arrivals
    → length buffer ≤ head_limit
    → head_end buffer ≡ none
    → ends (read_from buffer arrivals)
      ≡ head_end (buffer ++ take (head_limit - length buffer) (flat arrivals))
unfolding read_from
reads-found buffer [] a h e = sym (
    ap (λ l. head_end (buffer ++ l)) (take_nil (head_limit - length buffer))
    ∙ ap head_end (append_nil buffer)
    ∙ e)
reads-found buffer ([] ∷ more) a h e = elim a [ ]
reads-found buffer ((b ∷ chunk) ∷ more) a h e =
    one_read buffer (b ∷ chunk) (flat more) (read_from (filled buffer (b ∷ chunk)) more)
      (length buffer == head_limit) refl e
      (λ none_yet.
        reads-found (filled buffer (b ∷ chunk)) more a (filled_le buffer (b ∷ chunk) h) none_yet)

-- However the bytes of a client are cut into reads, the head of a request is found where the first
-- blank line ends within the first 8192 bytes, and is not found where none does.
pub read_head-head_end :
    (arrivals : List Bytes)
    → Arrive arrivals
    → ends (read_head arrivals) ≡ head_end (take head_limit (flat arrivals))
unfolding read_head head_end
read_head-head_end arrivals a = reads-found [] arrivals a (omega arith) refl
