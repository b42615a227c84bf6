-- ===== src/Rules/Hosts.antt =====
-- nhop/src/rules/matcher.rs: which hosts a suffix and a keyword match, and which spellings of a host
-- are one host.
use nhop.Common.{
  ℕ, ◌≡◌, sym, ap, ◌∙◌, ◌↔◌, ◌⊎◌, inl, inr, true, false, Option, none, some, [], ◌∷◌, ◌++◌, map,
  arith, ◌==◌, all, list_eq, list_same, list_same_iff, nat_eq, Bool-cases, Option-cases,
}
use mathlib.Core.List.{append_assoc}
use nhop.Net.{Platform}
use nhop.Text.{Text, dot, is_ascii, lower, to_lowercase, without_dot, strip_suffix, ends_with}
use nhop.Text.Affixes.{strip_suffix-append, strip_suffix-of_append, contains_sound, contains-append}
use nhop.Wire.{Host, Port}
use nhop.Rules.Decision.{Decision}
use nhop.Rules.Matcher.{NormalizedHost, suffix_matches, keyword_matches, lowercase, normalized}
use nhop.Rules.Ruleset.{Ruleset, decide, first_never, first_upstream}

ends_with_sound :
    (s : Text) → ends_with s (dot ∷ []) ≡ true → (head : Text) × (s ≡ head ++ dot ∷ [])
unfolding ends_with
ends_with_sound s h = elim (Option-cases (strip_suffix s (dot ∷ []))) [
  | inl missed ↦ cc (h, missed)
  | inr (head, e) ↦ (head, strip_suffix-append s (dot ∷ []) e)
]

ends_with-append : (head : Text) → ends_with (head ++ dot ∷ []) (dot ∷ []) ≡ true
unfolding ends_with
ends_with-append head = rw (strip_suffix-of_append head (dot ∷ []))

suffix_step :
    (s : Text) (h : NormalizedHost) {head : Text}
    → list_same h.host s ≡ false
    → strip_suffix h.host s ≡ some head
    → suffix_matches s h ≡ ends_with head (dot ∷ [])
unfolding suffix_matches
suffix_step s h other found = rw (other, found, suffix_matches)

suffix_missed :
    (s : Text) (h : NormalizedHost)
    → list_same h.host s ≡ false
    → strip_suffix h.host s ≡ none
    → suffix_matches s h ≡ false
unfolding suffix_matches
suffix_missed s h other missed = rw (other, missed, suffix_matches)

suffix_same : (s : Text) (h : NormalizedHost) → h.host ≡ s → suffix_matches s h ≡ true
unfolding suffix_matches
suffix_same s h e = rw ((list_same_iff h.host s).1 e, suffix_matches)

below_append : (sub s : Text) → (sub ++ dot ∷ []) ++ s ≡ sub ++ (dot ∷ s)
below_append sub s = append_assoc sub (dot ∷ []) s

suffix_matches_sound :
    (s : Text) (h : NormalizedHost)
    → suffix_matches s h ≡ true
    → (h.host ≡ s) ⊎ ((sub : Text) × (h.host ≡ sub ++ (dot ∷ s)))
suffix_matches_sound s h e = elim (Bool-cases (list_same h.host s)) [
  | inl same ↦ inl ((list_same_iff h.host s).0 same)
  | inr other ↦ elim (Option-cases (strip_suffix h.host s)) [
    | inl missed ↦ absurd (cc (e, suffix_missed s h other missed))
    | inr (head, found) ↦
        let (sub, below) = ends_with_sound head (sym (suffix_step s h other found) ∙ e) in
        inr (
          sub,
          strip_suffix-append h.host s found
              ∙ (ap (λ (t : Text). t ++ s) below ∙ below_append sub s),
        )
  ]
]

suffix_matches_complete :
    (s : Text) (h : NormalizedHost) (sub : Text)
    → h.host ≡ sub ++ (dot ∷ s)
    → suffix_matches s h ≡ true
suffix_matches_complete s h sub e = elim (Bool-cases (list_same h.host s)) [
  | inl same ↦ suffix_same s h ((list_same_iff h.host s).0 same)
  | inr other ↦
      let found : strip_suffix h.host s ≡ some (sub ++ dot ∷ []) =
        ap (λ (t : Text). strip_suffix t s) (e ∙ sym (below_append sub s))
        ∙ strip_suffix-of_append (sub ++ dot ∷ []) s in
      suffix_step s h other found ∙ ends_with-append sub
]

-- A suffix matches exactly the host that it spells and the hosts that end in a dot and the suffix.
pub suffix_matches_iff :
    (s : Text) (h : NormalizedHost)
    → (suffix_matches s h ≡ true) ↔ ((h.host ≡ s) ⊎ ((sub : Text) × (h.host ≡ sub ++ (dot ∷ s))))
suffix_matches_iff s h = (
  suffix_matches_sound s h,
  elim [ inl e ↦ suffix_same s h e | inr (sub, e) ↦ suffix_matches_complete s h sub e ],
)

-- A keyword matches exactly the hosts that contain it as a substring.
pub keyword_matches_iff :
    (k : Text) (h : NormalizedHost)
    → (keyword_matches k h ≡ true)
      ↔ ((before : Text) × (after : Text) × (h.host ≡ before ++ (k ++ after)))
unfolding keyword_matches
keyword_matches_iff k h =
    (contains_sound h.host k, λ (before, after, e). rw e (contains-append before k after))

-- Spellings of a host.

lower-dot : (c : ℕ) → (lower c == dot) ≡ (c == dot)
unfolding lower
lower-dot c = ground arith

abbrev map_option : Option Text → Option Text
map_option none = none
map_option (some s) = some (map lower s)

lower_is_dot :
    (c : ℕ) (s : Text) → list_same (lower c ∷ map lower s) (dot ∷ []) ≡ list_same (c ∷ s) (dot ∷ [])
unfolding list_same
lower_is_dot c [] = rw (lower-dot c)
lower_is_dot c (d ∷ s) = rw (lower-dot c)

strip_dot-lower :
    (s : Text) → strip_suffix (map lower s) (dot ∷ []) ≡ map_option (strip_suffix s (dot ∷ []))
unfolding strip_suffix
strip_dot-lower [] = ground arith
strip_dot-lower (c ∷ s) = ground (arith, lower_is_dot c s, strip_dot-lower s)

without_dot-lower : (s : Text) → without_dot (map lower s) ≡ map lower (without_dot s)
unfolding without_dot
without_dot-lower s = ground (arith, strip_dot-lower s)

strip_dot-all_ascii :
    (s : Text) {head : Text}
    → strip_suffix s (dot ∷ []) ≡ some head
    → all is_ascii s ≡ true
    → all is_ascii head ≡ true
unfolding strip_suffix
strip_dot-all_ascii [] e h = ground arith
strip_dot-all_ascii (c ∷ s) {head} e h = elim (Option-cases (strip_suffix s (dot ∷ []))) [
  | inl missed ↦ ground arith
  | inr (rest, found) ↦ ground (arith, strip_dot-all_ascii s found)
]

without_dot-all_ascii : (s : Text) → all is_ascii s ≡ true → all is_ascii (without_dot s) ≡ true
unfolding without_dot
without_dot-all_ascii s h = elim (Option-cases (strip_suffix s (dot ∷ []))) [
  | inl missed ↦ rw (missed, without_dot) h
  | inr (head, found) ↦ rw (found, without_dot) (strip_dot-all_ascii s found h)
]

without_dot-append : (s : Text) → without_dot (s ++ dot ∷ []) ≡ s
unfolding without_dot
without_dot-append s = rw (strip_suffix-of_append s (dot ∷ []), without_dot)

without_dot_none : (s : Text) → ends_with s (dot ∷ []) ≡ false → without_dot s ≡ s
unfolding without_dot ends_with
without_dot_none s h = ground arith

module _ {N : Type 0} (p : Platform N) where
  lowercase_ascii : (s : Text) → all is_ascii s ≡ true → lowercase p s ≡ map lower s
  unfolding lowercase
  lowercase_ascii s h = rw (h, to_lowercase)

  normalized_same :
      (host host' : Host)
      → lowercase p (without_dot host) ≡ lowercase p (without_dot host')
      → normalized p host ≡ normalized p host'
  unfolding normalized
  normalized_same host host' e =
      ap {B = NormalizedHost} (λ (s : Text). record { host = s; address = p.parse_ip s }) e

  decide_same_host :
      (rules : Ruleset N) (host host' : Host) (port : Port)
      → lowercase p (without_dot host) ≡ lowercase p (without_dot host')
      → decide p rules host port ≡ decide p rules host' port
  unfolding decide
  decide_same_host rules host host' port e =
      ap {B = Decision}
        (λ (n : NormalizedHost). elim (first_never p n port rules) [
          | some id ↦ Decision.never id
          | none ↦ first_upstream p n port rules
        ])
        (normalized_same host host' e)

  -- Two ASCII spellings of a host that differ in letter case alone are routed alike by every
  -- ruleset.
  pub decide-case :
      (rules : Ruleset N) (host host' : Host) (port : Port)
      → all is_ascii host ≡ true
      → all is_ascii host' ≡ true
      → map lower host ≡ map lower host'
      → decide p rules host port ≡ decide p rules host' port
  decide-case rules host host' port a a' e = decide_same_host rules host host' port (
      lowercase_ascii (without_dot host) (without_dot-all_ascii host a)
      ∙ (sym (without_dot-lower host)
          ∙ (ap without_dot e
              ∙ (without_dot-lower host'
                  ∙ sym (lowercase_ascii (without_dot host') (without_dot-all_ascii host' a'))))))

  -- A dot behind a host that does not end in one changes no route.
  pub decide-trailing_dot :
      (rules : Ruleset N) (host : Host) (port : Port)
      → ends_with host (dot ∷ []) ≡ false
      → decide p rules (host ++ dot ∷ []) port ≡ decide p rules host port
  decide-trailing_dot rules host port h =
      decide_same_host rules (host ++ dot ∷ []) host port
        (ap (lowercase p) (without_dot-append host ∙ sym (without_dot_none host h)))
