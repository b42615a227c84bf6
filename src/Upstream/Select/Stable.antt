-- ===== src/Upstream/Select/Stable.antt =====
-- nhop/src/upstream/select.rs: the choice is one only, and a selected upstream keeps its traffic
-- until it turns down or a higher-ranked one has held.
use nhop.Common.{
  ℕ, zero, suc, ◌+◌, ◌≤◌, ◌<◌, ◌≡◌, refl, ap, subst, ◌↔◌, ◌⊎◌, inl, inr, Option, some, List, [],
  ◌∷◌, arith, get_elem?, All, Before, All-get_elem?, Before-get_elem?,
}
use nhop.Wire.{up, down}
use nhop.Upstream.Health.{Health, SystemTime, Duration}
use nhop.Upstream.Select.{select}
use nhop.Upstream.Select.Correct.{Chosen, Unheld, NotOlder, Younger, select-Chosen}

eq_of_not_lt : (a b : ℕ) → (a < b → ⊥) → (b < a → ⊥) → a ≡ b
eq_of_not_lt a b h k = omega arith

same_index : (a b : ℕ) → (a < b → ⊥) → (b < a → ⊥) → some a ≡ some b
same_index a b h k = ap {B = Option ℕ} some (eq_of_not_lt a b h k)

module _ (now : SystemTime) (hold : Duration) (entries : List Health) where
  held-not-Before :
      (k k' : ℕ) (v : Health)
      → get_elem? entries k ≡ some v
      → v.state ≡ up
      → v.changed_at + hold ≤ now
      → Before (Unheld now hold) k' entries
      → k < k'
      → ⊥
  held-not-Before k k' v g u h b l =
      let late = Before-get_elem? (Unheld now hold) entries k k' b l g u in omega (arith, late)

  held-not-All :
      (k : ℕ) (v : Health)
      → get_elem? entries k ≡ some v
      → v.state ≡ up
      → v.changed_at + hold ≤ now
      → All (Unheld now hold) entries
      → ⊥
  held-not-All k v g u h a =
      let late = All-get_elem? (Unheld now hold) entries k a g u in omega (arith, late)

  up-not-All_down :
      (k : ℕ) (v : Health)
      → get_elem? entries k ≡ some v
      → v.state ≡ up
      → All (λ w. w.state ≡ down) entries
      → ⊥
  up-not-All_down k v g u a = let d = All-get_elem? (λ w. w.state ≡ down) entries k a g in cc (u, d)

  longest-not-Before :
      (k k' : ℕ) (v v' : Health)
      → get_elem? entries k ≡ some v
      → get_elem? entries k' ≡ some v'
      → v.state ≡ up
      → v'.state ≡ up
      → All (NotOlder now hold v.changed_at) entries
      → Before (Younger now hold v'.changed_at) k' entries
      → k < k'
      → ⊥
  longest-not-Before k k' v v' g g' u u' a b l =
      let later = Before-get_elem? (Younger now hold v'.changed_at) entries k k' b l g u in
      let older = All-get_elem? (NotOlder now hold v.changed_at) entries k' a g' u' in
      omega (arith, later, older)

  Chosen-unique :
      {r r' : Option ℕ} → Chosen now hold entries r → Chosen now hold entries r' → r ≡ r'
  Chosen-unique (Chosen.held_first k v g u h b) (Chosen.held_first k' v' g' u' h' b') =
      same_index k k' (held-not-Before k k' v g u h b') (held-not-Before k' k v' g' u' h' b)
  Chosen-unique (Chosen.held_first k v g u h b) (Chosen.longest_up k' v' g' u' a' l' b') =
      absurd (held-not-All k v g u h a')
  Chosen-unique (Chosen.held_first k v g u h b) (Chosen.all_down a') =
      absurd (up-not-All_down k v g u a')
  Chosen-unique (Chosen.longest_up k v g u a l b) (Chosen.held_first k' v' g' u' h' b') =
      absurd (held-not-All k' v' g' u' h' a)
  Chosen-unique (Chosen.longest_up k v g u a l b) (Chosen.longest_up k' v' g' u' a' l' b') =
      same_index k k' (longest-not-Before k k' v v' g g' u u' l b')
        (longest-not-Before k' k v' v g' g u' u l' b)
  Chosen-unique (Chosen.longest_up k v g u a l b) (Chosen.all_down a') =
      absurd (up-not-All_down k v g u a')
  Chosen-unique (Chosen.all_down a) (Chosen.held_first k' v' g' u' h' b') =
      absurd (up-not-All_down k' v' g' u' a)
  Chosen-unique (Chosen.all_down a) (Chosen.longest_up k' v' g' u' a' l' b') =
      absurd (up-not-All_down k' v' g' u' a)
  Chosen-unique (Chosen.all_down a) (Chosen.all_down a') = refl

  -- For every list of verdicts, clock and hold, select answers an index exactly when it is the
  -- documented choice: the first entry up for the whole hold, else the entry up longest with ties
  -- to list order, else nothing.
  pub select_iff : (r : Option ℕ) → (select entries now hold ≡ r) ↔ Chosen now hold entries r
  select_iff r = (
    λ e. subst (Chosen now hold entries) e (select-Chosen now hold entries),
    λ c. Chosen-unique (select-Chosen now hold entries) c,
  )

-- Between two readings of one list each verdict stays as it was, or has turned over and is stamped
-- no earlier than `since`.
abbrev pub Settles : SystemTime → List Health → List Health → Type 0
Settles since [] [] = Unit
Settles since [] (w ∷ ws) = ⊥
Settles since (v ∷ vs) [] = ⊥
Settles since (v ∷ vs) (w ∷ ws) = ((v ≡ w) ⊎ (since ≤ w.changed_at)) × Settles since vs ws

Settles-get_elem? :
    (since : SystemTime) (vs ws : List Health) (j : ℕ) {w : Health}
    → Settles since vs ws
    → get_elem? ws j ≡ some w
    → (get_elem? vs j ≡ some w) ⊎ (since ≤ w.changed_at)
Settles-get_elem? since [] [] j s g = cc
Settles-get_elem? since [] (w ∷ ws) j s g = absurd s
Settles-get_elem? since (v ∷ vs) [] j s g = absurd s
Settles-get_elem? since (v ∷ vs) (w ∷ ws) zero {w = x} (s, ss) g = elim s [
  | inl same ↦ inl (cc)
  | inr late ↦ let e : w ≡ x = cc in inr (subst (λ (t : Health). since ≤ t.changed_at) e late)
]
Settles-get_elem? since (v ∷ vs) (w ∷ ws) (suc j) (s, ss) g = Settles-get_elem? since vs ws j ss g

-- What the choice says of the entry that it selects.
abbrev Selected : SystemTime → Duration → List Health → Health → Type 0
Selected now hold vs v =
    (v.state ≡ up) × ((v.changed_at + hold ≤ now) ⊎ All (NotOlder now hold v.changed_at) vs)

Chosen-Selected :
    (now : SystemTime) (hold : Duration) (vs : List Health) (i : ℕ) (v : Health) {r : Option ℕ}
    → Chosen now hold vs r
    → r ≡ some i
    → get_elem? vs i ≡ some v
    → Selected now hold vs v
Chosen-Selected now hold vs i v (Chosen.held_first k w g u h b) e s =
    let at : get_elem? vs k ≡ get_elem? vs i = ap (get_elem? vs) (ground arith) in
    let same : w ≡ v = cc in subst (Selected now hold vs) same (u, inl h)
Chosen-Selected now hold vs i v (Chosen.longest_up k w g u a l b) e s =
    let at : get_elem? vs k ≡ get_elem? vs i = ap (get_elem? vs) (ground arith) in
    let same : w ≡ v = cc in subst (Selected now hold vs) same (u, inr l)
Chosen-Selected now hold vs i v (Chosen.all_down a) e s = cc

module _ (now now' : SystemTime) (hold : Duration) (vs ws : List Health) (i : ℕ) (v : Health)
    (clock : now ≤ now') (settles : Settles v.changed_at vs ws) (still : get_elem? ws i ≡ some v)
    (selected : Selected now hold vs v) where
  -- Any entry that is `Up` later came up no earlier than the selected one, if that one has not held.
  other_is_younger :
      (j : ℕ) (w : Health)
      → get_elem? ws j ≡ some w
      → w.state ≡ up
      → now' < v.changed_at + hold
      → v.changed_at ≤ w.changed_at
  other_is_younger j w g u n = elim (Settles-get_elem? v.changed_at vs ws j settles g) [
    | inr late ↦ late
    | inl before ↦ elim selected.1 [
      | inl h ↦ absurd (omega arith)
      | inr oldest ↦ All-get_elem? (NotOlder now hold v.changed_at) vs j oldest before u
    ]
  ]

  held-stays :
      (j : ℕ) (w : Health)
      → get_elem? ws j ≡ some w
      → w.state ≡ up
      → w.changed_at + hold ≤ now'
      → Before (Unheld now' hold) j ws
      → i < j
      → ⊥
  held-stays j w g u h b l =
      let unheld = Before-get_elem? (Unheld now' hold) ws i j b l still selected.0 in
      omega (arith, unheld, other_is_younger j w g u unheld)

  longest-stays :
      (j : ℕ) (w : Health)
      → get_elem? ws j ≡ some w
      → w.state ≡ up
      → All (Unheld now' hold) ws
      → Before (Younger now' hold w.changed_at) j ws
      → i < j
      → ⊥
  longest-stays j w g u a b l =
      let unheld = All-get_elem? (Unheld now' hold) ws i a still selected.0 in
      let younger = Before-get_elem? (Younger now' hold w.changed_at) ws i j b l still selected.0 in
      omega (arith, younger, other_is_younger j w g u unheld)

  stays : {r : Option ℕ} → Chosen now' hold ws r → (j : ℕ) × (r ≡ some j) × (j ≤ i)
  stays (Chosen.held_first j w g u h b) =
      (j, refl, (let no = held-stays j w g u h b in omega arith))
  stays (Chosen.longest_up j w g u a l b) =
      (j, refl, (let no = longest-stays j w g u a b in omega arith))
  stays (Chosen.all_down a) =
      absurd (cc (selected.0, All-get_elem? (λ w. w.state ≡ down) ws i a still))

-- While the clock does not move back, the verdict of the selected entry stands, and every other
-- verdict that turned over meanwhile is stamped no earlier than the selected entry came up, a
-- later selection is that entry or one ranked above it.
pub select-stable :
    (now now' : SystemTime) (hold : Duration) (vs ws : List Health) (i : ℕ) (v : Health)
    → now ≤ now'
    → Settles v.changed_at vs ws
    → get_elem? vs i ≡ some v
    → get_elem? ws i ≡ some v
    → select vs now hold ≡ some i
    → (j : ℕ) × (select ws now' hold ≡ some j) × (j ≤ i)
select-stable now now' hold vs ws i v clock settles at still e =
    stays now now' hold vs ws i v clock settles still
      (Chosen-Selected now hold vs i v (select-Chosen now hold vs) e at)
      (select-Chosen now' hold ws)
