-- ===== src/Logging/Parts.antt =====
-- nhop/src/logging.rs: the complete lines of a text, and those of what is behind them.
use nhop.Common.{
  ℕ, ◌+◌, ◌≡◌, refl, ap, ◌∙◌, sym, subst, arith, Bool, true, false, not, Option, none, some, List,
  [], ◌∷◌, ◌++◌, ◌==◌, nat_eq, all, append_assoc, append_nil, Bool-cases, inl, inr,
}
use nhop.Text.{Text, strip_suffix, ends_with, trim_end, is_some}
use nhop.Text.Affixes.{strip_suffix-append, strip_suffix-of_append}
use nhop.Text.Utf8.{byte_len}
use nhop.Text.Utf8.Pieces.{byte_len-append, zero_plus}
use nhop.Logging.{split_inclusive, complete}

abbrev feed_free : ℕ → Bool
feed_free c = not (c == 10)

abbrev pub joined : List Text → ℕ → List Text × ℕ → List Text × ℕ
joined lines n (more, m) = (lines ++ more, n + m)

no_feed_last : (head : Text) → all feed_free (head ++ 10 ∷ []) ≡ true → ⊥
no_feed_last [] h = ground arith
no_feed_last (c ∷ head) h = no_feed_last head (ground arith)

ends-feed : (line : Text) → ends_with (line ++ 10 ∷ []) (10 ∷ []) ≡ true
unfolding ends_with
ends-feed line = ap is_some (strip_suffix-of_append line (10 ∷ []))

is_some-cases :
    (line : Text) (o : Option Text)
    → all feed_free line ≡ true
    → strip_suffix line (10 ∷ []) ≡ o
    → is_some o ≡ false
is_some-cases line none h e = refl
is_some-cases line (some head) h e =
    absurd (no_feed_last head (ap (all feed_free) (sym (strip_suffix-append line (10 ∷ []) e)) ∙ h))

ends-no_feed : (line : Text) → all feed_free line ≡ true → ends_with line (10 ∷ []) ≡ false
unfolding ends_with
ends-no_feed line h = is_some-cases line (strip_suffix line (10 ∷ [])) h refl

complete-feed :
    (line : Text) (more : List Text)
    → complete ((line ++ 10 ∷ []) ∷ more)
      ≡ joined (trim_end (line ++ 10 ∷ []) ∷ []) (byte_len (line ++ 10 ∷ [])) (complete more)
unfolding complete
complete-feed line more = rw (ends-feed line) refl

complete-open :
    (current : Text)
    → all feed_free current ≡ true
    → complete (split_inclusive current []) ≡ ([], 0)
unfolding complete split_inclusive
complete-open [] h = refl
complete-open (d ∷ current) h = rw (ends-no_feed (d ∷ current) h) refl

split-feed :
    (current s : Text)
    → split_inclusive current (10 ∷ s) ≡ (current ++ 10 ∷ []) ∷ split_inclusive [] s
unfolding split_inclusive
split-feed [] s = refl
split-feed (d ∷ current) s = refl

split-on :
    (current : Text) (c : ℕ) (s : Text)
    → feed_free c ≡ true
    → split_inclusive current (c ∷ s) ≡ split_inclusive (current ++ c ∷ []) s
unfolding split_inclusive
split-on [] c s h = ground arith
split-on (d ∷ current) c s h = ground arith

split-line :
    (current line rest : Text)
    → all feed_free line ≡ true
    → split_inclusive current (line ++ 10 ∷ rest)
      ≡ ((current ++ line) ++ 10 ∷ []) ∷ split_inclusive [] rest
split-line current [] rest h =
    split-feed current rest
    ∙ ap (λ l. (l ++ 10 ∷ []) ∷ split_inclusive [] rest) (sym (append_nil current))
split-line current (c ∷ line) rest h =
    split-on current c (line ++ 10 ∷ rest) (ground arith)
    ∙ split-line (current ++ c ∷ []) line rest (ground arith)
    ∙ ap (λ l. (l ++ 10 ∷ []) ∷ split_inclusive [] rest) (append_assoc current (c ∷ []) line)

free-append_last :
    (current : Text) (c : ℕ)
    → all feed_free current ≡ true
    → feed_free c ≡ true
    → all feed_free (current ++ c ∷ []) ≡ true
free-append_last [] c h k = ground arith
free-append_last (d ∷ current) c h k = ground (arith, free-append_last current c)

-- A text in two parts: its complete lines, and what is behind them. Whatever follows is read as
-- if the first part had not been there.
pub record Parts (current t : Text) : Type 0 where
  pub lines : Text
  pub behind : Text
  pub split : (current ++ t) ≡ lines ++ behind
  pub taken : (complete (split_inclusive current t)).1 ≡ byte_len lines
  pub onward :
      (u : Text)
      → complete (split_inclusive [] (lines ++ u))
        ≡ joined
            (complete (split_inclusive current t)).0
            (byte_len lines)
            (complete (split_inclusive [] u))

joined_nothing : (r : List Text × ℕ) → r ≡ joined [] 0 r
joined_nothing (lines, n) = ap (λ k. (lines, k)) (sym (zero_plus n))

plus_assoc : (n m k : ℕ) → (n + (m + k)) ≡ (n + m) + k
plus_assoc n m k = omega arith

joined_twice :
    (x : Text) (n m : ℕ) (lines : List Text) (r : List Text × ℕ)
    → joined (x ∷ []) n (joined lines m r) ≡ joined (x ∷ lines) (n + m) r
joined_twice x n m lines (more, k) = ap (λ i. (x ∷ (lines ++ more), i)) (plus_assoc n m k)

Parts-line : (current s : Text) → all feed_free current ≡ true → Parts [] s → Parts current (10 ∷ s)
Parts-line current s h r =
    let line = current ++ 10 ∷ [] in
    let head : complete (split_inclusive current (10 ∷ s))
        ≡ joined (trim_end line ∷ []) (byte_len line) (complete (split_inclusive [] s)) =
      ap complete (split-feed current s) ∙ complete-feed current (split_inclusive [] s) in
    record {
      lines = line ++ r.lines;
      behind = r.behind;
      split =
          sym (append_assoc current (10 ∷ []) s)
          ∙ ap (λ l. line ++ l) r.split
          ∙ sym (append_assoc line r.lines r.behind);
      taken =
          ap (λ (x : List Text × ℕ). x.1) head
          ∙ ap (λ n. byte_len line + n) r.taken
          ∙ sym (byte_len-append line r.lines);
      onward = λ u.
          ap (λ l. complete (split_inclusive [] l))
            (append_assoc line r.lines u ∙ append_assoc current (10 ∷ []) (r.lines ++ u))
          ∙ ap complete (split-line [] current (r.lines ++ u) h)
          ∙ complete-feed current (split_inclusive [] (r.lines ++ u))
          ∙ ap (joined (trim_end line ∷ []) (byte_len line)) (r.onward u)
          ∙ joined_twice (trim_end line) (byte_len line) (byte_len r.lines)
              (complete (split_inclusive [] s)).0 (complete (split_inclusive [] u))
          ∙ ap
              (λ n.
                joined (trim_end line ∷ (complete (split_inclusive [] s)).0) n
                  (complete (split_inclusive [] u)))
              (sym (byte_len-append line r.lines))
          ∙ ap
              (λ (x : List Text × ℕ).
                joined x.0 (byte_len (line ++ r.lines)) (complete (split_inclusive [] u)))
              (sym head);
    }

pub parts : (current t : Text) → all feed_free current ≡ true → Parts current t
parts current [] h =
    let nothing = complete-open current h in
    record {
      lines = [];
      behind = current;
      split = append_nil current;
      taken = ap (λ (x : List Text × ℕ). x.1) nothing;
      onward = λ u.
          joined_nothing (complete (split_inclusive [] u))
          ∙ ap (λ (x : List Text × ℕ). joined x.0 0 (complete (split_inclusive [] u)))
              (sym nothing);
    }
parts current (c ∷ t) h = elim (Bool-cases (feed_free c)) [
  | inl on ↦
      let r = parts (current ++ c ∷ []) t (free-append_last current c h on) in
      let same = split-on current c t on in
      record {
        lines = r.lines;
        behind = r.behind;
        split = sym (append_assoc current (c ∷ []) t) ∙ r.split;
        taken = ap (λ l. (complete l).1) same ∙ r.taken;
        onward = λ u.
            r.onward u
            ∙ ap (λ l. joined (complete l).0 (byte_len r.lines) (complete (split_inclusive [] u)))
                (sym same);
      }
  | inr feed ↦
      let is_feed : 10 ≡ c = ground arith in
      subst (λ d. Parts current (d ∷ t)) is_feed (Parts-line current t h (parts [] t refl))
]
