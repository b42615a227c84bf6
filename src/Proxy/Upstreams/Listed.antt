-- ===== src/Proxy/Upstreams/Listed.antt =====
-- nhop/src/proxy/mod.rs: which lists of addresses `Upstreams::parse` reads, and what it makes of them.
use nhop.Common.{
  ◌≡◌, refl, sym, ap, ◌∙◌, ◌≢◌, ◌↔◌, inl, inr, true, false, List, [], ◌∷◌, ◌++◌, map, arith, All,
  All-append_last, DistinctBy, DistinctBy-append_last, Bool-cases, ok, err, Result-cases,
  Option-cases, subst,
}
use mathlib.Core.List.{append_assoc, append-nil}
use nhop.Net.{Platform, SocketAddr, socket_eq, socket_same_iff}
use nhop.Text.{Text}
use nhop.Wire.{UpstreamAddr}
use nhop.Proxy.Upstreams.{
  Upstream, Upstreams, UnusableUpstreams, without_scheme, lists, parse_upstream, parse_all, parse,
}

All-middle :
    {A : Type 0} (P : A → Type 0) (xs : List A) (x : A) (ys : List A) → All P (xs ++ (x ∷ ys)) → P x
All-middle P [] x ys (h, hs) = h
All-middle P (y ∷ xs) x ys (h, hs) = All-middle P xs x ys hs

lists_iff :
    (entries : List Upstream) (s : SocketAddr)
    → (lists entries s ≡ false) ↔ All (λ (u : Upstream). u.socket ≢ s) entries
unfolding lists
lists_iff [] s = ((λ e. tt), λ a. refl)
lists_iff (u ∷ entries) s = (
  (λ e. (
    (λ same. ground (arith, socket_same_iff u.socket s)),
    (lists_iff entries s).0 (ground arith),
  )),
  λ (n, a). ground (arith, socket_same_iff u.socket s, (lists_iff entries s).1 a),
)

module _ {N : Type 0} (p : Platform N) where
  abbrev pub Reads : Upstream → Type 0
  Reads u = parse_upstream p u.written ≡ ok u

  -- A list is what was written, read entry by entry, with no address twice.
  pub record IsListed (written : List UpstreamAddr) (ups : Upstreams) : Type 0 where
    pub spelled : map (λ (u : Upstream). u.written) ups ≡ written
    pub read : All Reads ups
    pub distinct : DistinctBy (λ (u : Upstream). u.socket) ups

  parse_upstream-written :
      (written : UpstreamAddr) (u : Upstream)
      → parse_upstream p written ≡ ok u
      → u.written ≡ written
  unfolding parse_upstream
  parse_upstream-written written u e =
      elim (Option-cases (p.parse_socket (without_scheme written))) [
        | inl missed ↦ absurd (cc (rw (missed, parse_upstream) at e))
        | inr (socket, found) ↦ ground arith
      ]

  parse_all-invalid :
      (entries : List Upstream) (w : UpstreamAddr) (written : List UpstreamAddr) {rest : Text}
      → parse_upstream p w ≡ err rest
      → parse_all p entries (w ∷ written) ≡ err (UnusableUpstreams.invalid rest)
  unfolding parse_all
  parse_all-invalid entries w written f = rw (f, parse_all)

  parse_all_twice :
      (entries : List Upstream) (w : UpstreamAddr) (written : List UpstreamAddr) {u : Upstream}
      → parse_upstream p w ≡ ok u
      → lists entries u.socket ≡ true
      → parse_all p entries (w ∷ written) ≡ err (UnusableUpstreams.duplicate u.socket)
  unfolding parse_all
  parse_all_twice entries w written f t = rw (f, t, parse_all)

  parse_all_read :
      (entries : List Upstream) (w : UpstreamAddr) (written : List UpstreamAddr) {u : Upstream}
      → parse_upstream p w ≡ ok u
      → lists entries u.socket ≡ false
      → parse_all p entries (w ∷ written) ≡ parse_all p (entries ++ u ∷ []) written
  unfolding parse_all
  parse_all_read entries w written f n = rw (f, n, parse_all)

  abbrev spelling : List Upstream → List UpstreamAddr
  spelling = map (λ (u : Upstream). u.written)

  spelling-append :
      (entries : List Upstream) (u : Upstream) (w : UpstreamAddr) (written : List UpstreamAddr)
      → u.written ≡ w
      → spelling (entries ++ u ∷ []) ++ written ≡ spelling entries ++ (w ∷ written)
  spelling-append [] u w written e = ap (λ (t : UpstreamAddr). t ∷ written) e
  spelling-append (x ∷ entries) u w written e =
      ap (λ (t : List UpstreamAddr). x.written ∷ t) (spelling-append entries u w written e)

  parse_all_sound :
      (entries : List Upstream) (written : List UpstreamAddr) (ups : Upstreams)
      → DistinctBy (λ (u : Upstream). u.socket) entries
      → All Reads entries
      → parse_all p entries written ≡ ok ups
      → (spelling ups ≡ spelling entries ++ written)
        × All Reads ups
        × DistinctBy (λ (u : Upstream). u.socket) ups
  parse_all_sound entries [] ups d a e =
      let done : parse_all p entries [] ≡ ok entries = unfold parse_all in refl in
      let same : entries ≡ ups = cc (done, e) in
      (
        ap spelling (sym same) ∙ sym (append-nil (spelling entries)),
        subst (All Reads) same a,
        subst (DistinctBy (λ (u : Upstream). u.socket)) same d,
      )
  parse_all_sound entries (w ∷ written) ups d a e = elim (Result-cases (parse_upstream p w)) [
    | inr (failure, f) ↦ absurd (cc (e, parse_all-invalid entries w written f))
    | inl (u, f) ↦ elim (Bool-cases (lists entries u.socket)) [
      | inl t ↦ absurd (cc (e, parse_all_twice entries w written f t))
      | inr n ↦
          let at : u.written ≡ w = parse_upstream-written w u f in
          let (spelled, read, distinct) =
            parse_all_sound (entries ++ u ∷ []) written ups
              (DistinctBy-append_last (λ (t : Upstream). t.socket) entries u d
                ((lists_iff entries u.socket).0 n))
              (All-append_last Reads entries a (ap (parse_upstream p) at ∙ f))
              (sym (parse_all_read entries w written f n) ∙ e) in
          (spelled ∙ spelling-append entries u w written at, read, distinct)
    ]
  ]

  DistinctBy-middle :
      (entries : List Upstream) (u : Upstream) (ups : Upstreams)
      → DistinctBy (λ (t : Upstream). t.socket) (entries ++ (u ∷ ups))
      → All (λ (t : Upstream). t.socket ≢ u.socket) entries
  DistinctBy-middle [] u ups d = tt
  DistinctBy-middle (t ∷ entries) u ups (d, ds) = (
    All-middle (λ (y : Upstream). t.socket ≢ y.socket) entries u ups d,
    DistinctBy-middle entries u ups ds,
  )

  parse_all_complete :
      (entries : List Upstream) (ups : Upstreams)
      → All Reads ups
      → DistinctBy (λ (u : Upstream). u.socket) (entries ++ ups)
      → parse_all p entries (spelling ups) ≡ ok (entries ++ ups)
  parse_all_complete entries [] a d = unfold parse_all in ap ok (sym (append-nil entries))
  parse_all_complete entries (u ∷ ups) (r, a) d =
      let regroup : (entries ++ u ∷ []) ++ ups ≡ entries ++ (u ∷ ups) =
        append_assoc entries (u ∷ []) ups in
      parse_all_read entries u.written (spelling ups) r
        ((lists_iff entries u.socket).1 (DistinctBy-middle entries u ups d))
      ∙ (parse_all_complete (entries ++ u ∷ []) ups a
            (subst (DistinctBy (λ (t : Upstream). t.socket)) (sym regroup) d)
          ∙ ap ok regroup)

  -- Upstreams::parse reads a list exactly when each address is read by Upstream::parse and no two
  -- dial one socket, and the result is then what was written, in its order.
  pub parse_iff :
      (first : UpstreamAddr) (fallbacks : List UpstreamAddr) (ups : Upstreams)
      → (parse p first fallbacks ≡ ok ups) ↔ IsListed (first ∷ fallbacks) ups
  unfolding parse
  parse_iff first fallbacks ups = (
    (λ e.
        let (s, r, d) = parse_all_sound [] (first ∷ fallbacks) ups tt tt e in
        record { spelled = s; read = r; distinct = d }),
    λ l.
        subst (λ w. parse_all p [] w ≡ ok ups) l.spelled
          (parse_all_complete [] ups l.read l.distinct),
  )
