-- ===== src/Upstream/Select/Correct.antt =====
-- nhop/src/upstream/select.rs: the three steps by which `select` is documented, and that it takes
-- them.
use nhop.Common.{
  ℕ, suc, ◌+◌, ◌≤◌, ◌<◌, ◌≡◌, refl, subst, ◌↔◌, ◌⊎◌, inl, inr, true, false, Option, none, some,
  List, [], ◌∷◌, arith, get_elem?, All, Before, Bool-cases, ltb,
}
use nhop.Wire.{HealthState, up, down}
use nhop.Upstream.Health.{Health, SystemTime, Duration}
use nhop.Upstream.Select.{held, select, select_from, longer}

pub held_iff : (c now hold : ℕ) → (held c now hold ≡ true) ↔ (c + hold ≤ now)
unfolding held
held_iff c now hold = ground arith

module _ (now : SystemTime) (hold : Duration) where
  abbrev pub Unheld : Health → Type 0
  Unheld v = v.state ≡ up → now < v.changed_at + hold

  abbrev pub NotOlder : SystemTime → Health → Type 0
  NotOlder since v = v.state ≡ up → since ≤ v.changed_at

  abbrev pub Younger : SystemTime → Health → Type 0
  Younger since v = v.state ≡ up → since < v.changed_at

  -- The documented choice: the first `Up` entry that has been for the whole hold; failing that the
  -- `Up` entry that has been up longest, the first of those that tie; failing that nothing.
  pub data Chosen (entries : List Health) : Option ℕ → Type 0 where
    held_first :
        (k : ℕ) (v : Health)
        → get_elem? entries k ≡ some v
        → v.state ≡ up
        → v.changed_at + hold ≤ now
        → Before Unheld k entries
        → Chosen entries (some k)
    longest_up :
        (k : ℕ) (v : Health)
        → get_elem? entries k ≡ some v
        → v.state ≡ up
        → All Unheld entries
        → All (NotOlder v.changed_at) entries
        → Before (Younger v.changed_at) k entries
        → Chosen entries (some k)
    all_down : All (λ v. v.state ≡ down) entries → Chosen entries none

  -- What the loop has found from an index on, given the longest seen before.
  data Found (index : ℕ) (longest : Option (ℕ × SystemTime)) (entries : List Health)
      : Option ℕ → Type 0 where
    at_held :
        (r k : ℕ) (v : Health)
        → r ≡ k + index
        → get_elem? entries k ≡ some v
        → v.state ≡ up
        → v.changed_at + hold ≤ now
        → Before Unheld k entries
        → Found index longest entries (some r)
    kept :
        (e since : ℕ)
        → longest ≡ some (e, since)
        → All Unheld entries
        → All (NotOlder since) entries
        → Found index longest entries (some e)
    moved :
        (r k : ℕ) (v : Health)
        → r ≡ k + index
        → get_elem? entries k ≡ some v
        → v.state ≡ up
        → All Unheld entries
        → ((e since : ℕ) → longest ≡ some (e, since) → v.changed_at < since)
        → All (NotOlder v.changed_at) entries
        → Before (Younger v.changed_at) k entries
        → Found index longest entries (some r)
    nothing : longest ≡ none → All (λ v. v.state ≡ down) entries → Found index longest entries none

  down_ne_up : {P : Type 0} (v : Health) → v.state ≡ down → v.state ≡ up → P
  down_ne_up v d u = absurd (cc (d, u))

  Found-down :
      (index : ℕ) (longest : Option (ℕ × SystemTime)) (v : Health) (entries : List Health)
      (r : Option ℕ)
      → v.state ≡ down
      → Found (suc index) longest entries r
      → Found index longest (v ∷ entries) r
  Found-down index longest v entries _ d (Found.at_held r k w q g u h b) =
      Found.at_held r (suc k) w (omega arith) g u h (down_ne_up v d, b)
  Found-down index longest v entries _ d (Found.kept e since q a l) =
      Found.kept e since q (down_ne_up v d, a) (down_ne_up v d, l)
  Found-down index longest v entries _ d (Found.moved r k w q g u a s l b) =
      Found.moved r (suc k) w (omega arith) g u (down_ne_up v d, a) s (down_ne_up v d, l)
        (down_ne_up v d, b)
  Found-down index longest v entries _ d (Found.nothing q a) = Found.nothing q (d, a)

  -- An `Up` entry that is not held, ahead of the rest.
  module _ (index : ℕ) (v : Health) (entries : List Health) (u : v.state ≡ up)
      (n : now < v.changed_at + hold) where
    longer-some :
        (longest : Option (ℕ × SystemTime)) (e since : ℕ)
        → longer longest index v.changed_at ≡ some (e, since)
        → since ≤ v.changed_at
    longer-some none e since q = ground arith
    longer-some (some (e', since')) e since q = ground arith

    longer-le :
        (longest : Option (ℕ × SystemTime)) (e since e' since' : ℕ)
        → longer longest index v.changed_at ≡ some (e, since)
        → longest ≡ some (e', since')
        → since ≤ since'
    longer-le none e since e' since' q q' = ground arith
    longer-le (some (a, b)) e since e' since' q q' = ground arith

    longer-is_some :
        (longest : Option (ℕ × SystemTime))
        → (e : ℕ) × (since : ℕ) × (longer longest index v.changed_at ≡ some (e, since))
    longer-is_some none = (index, v.changed_at, refl)
    longer-is_some (some (e, since)) = elim (Bool-cases (ltb v.changed_at since)) [
      | inl t ↦ (index, v.changed_at, rw t)
      | inr f ↦ (e, since, rw f)
    ]

    -- The longest seen is now this entry, or it is the one seen before.
    longer-cases :
        (longest : Option (ℕ × SystemTime)) (e since : ℕ)
        → longer longest index v.changed_at ≡ some (e, since)
        → ((e ≡ index)
            × (since ≡ v.changed_at)
            × ((e' since' : ℕ) → longest ≡ some (e', since') → v.changed_at < since'))
          ⊎ (longest ≡ some (e, since))
    longer-cases none e since q = inl (ground arith, ground arith, λ e' since' p. cc)
    longer-cases (some (a, b)) e since q = elim (Bool-cases (ltb v.changed_at b)) [
      | inl t ↦ inl (ground arith, ground arith, λ e' since' p. ground arith)
      | inr f ↦ inr (rw f at q)
    ]

    Found-kept :
        (longest : Option (ℕ × SystemTime)) (e since : ℕ)
        → longer longest index v.changed_at ≡ some (e, since)
        → All Unheld entries
        → All (NotOlder since) entries
        → Found index longest (v ∷ entries) (some e)
    Found-kept longest e since q a l = elim (longer-cases longest e since q) [
      | inl (at, is, s) ↦
          Found.moved e 0 v (omega (arith, at)) refl u ((λ _. n), a) s
            ((λ _. omega arith), subst (λ t. All (NotOlder t) entries) is l) tt
      | inr p ↦ Found.kept e since p ((λ _. n), a) ((λ _. longer-some longest e since q), l)
    ]

    Found-unheld :
        (longest : Option (ℕ × SystemTime)) (r : Option ℕ)
        → Found (suc index) (longer longest index v.changed_at) entries r
        → Found index longest (v ∷ entries) r
    Found-unheld longest _ (Found.at_held r k w q g u h b) =
        Found.at_held r (suc k) w (omega arith) g u h ((λ _. n), b)
    Found-unheld longest _ (Found.kept e since q a l) = Found-kept longest e since q a l
    Found-unheld longest _ (Found.moved r k w q g u a s l b) =
        let (e, since, q') = longer-is_some longest in
        Found.moved r (suc k) w (omega arith) g u ((λ _. n), a)
          (λ e' since' p. omega (arith, s e since q', longer-le longest e since e' since' q' p))
          ((λ _. omega (arith, s e since q', longer-some longest e since q')), l)
          ((λ _. omega (arith, s e since q', longer-some longest e since q')), b)
    Found-unheld longest _ (Found.nothing q a) =
        let (e, since, q') = longer-is_some longest in absurd (cc (q, q'))

  select_from-up :
      (index : ℕ) (longest : Option (ℕ × SystemTime)) (v : Health) (entries : List Health)
      → v.state ≡ up
      → held v.changed_at now hold ≡ false
      → select_from now hold index longest (v ∷ entries)
        ≡ select_from now hold (suc index) (longer longest index v.changed_at) entries
  unfolding select_from
  select_from-up index longest v entries u f = rw (u, f, select_from)

  select_from-held :
      (index : ℕ) (longest : Option (ℕ × SystemTime)) (v : Health) (entries : List Health)
      → v.state ≡ up
      → held v.changed_at now hold ≡ true
      → select_from now hold index longest (v ∷ entries) ≡ some index
  unfolding select_from
  select_from-held index longest v entries u t = rw (u, t, select_from)

  select_from-down :
      (index : ℕ) (longest : Option (ℕ × SystemTime)) (v : Health) (entries : List Health)
      → v.state ≡ down
      → select_from now hold index longest (v ∷ entries)
        ≡ select_from now hold (suc index) longest entries
  unfolding select_from
  select_from-down index longest v entries d = rw (d, select_from)

  state-cases : (v : Health) → (v.state ≡ up) ⊎ (v.state ≡ down)
  state-cases v = go v.state refl
    where
      go : (s : HealthState) → v.state ≡ s → (v.state ≡ up) ⊎ (v.state ≡ down)
      go up e = inl e
      go down e = inr e

  not_held : (c : SystemTime) → held c now hold ≡ false → now < c + hold
  not_held c f = ground (arith, held_iff c now hold)

  select_from-Found :
      (index : ℕ) (longest : Option (ℕ × SystemTime)) (entries : List Health)
      → Found index longest entries (select_from now hold index longest entries)
  select_from-Found index none [] = unfold select_from in Found.nothing refl tt
  select_from-Found index (some (e, since)) [] = unfold select_from in Found.kept e since refl tt tt
  select_from-Found index longest (v ∷ entries) = elim (state-cases v) [
    | inr d ↦
        rw (select_from-down index longest v entries d)
          (Found-down index longest v entries _ d (select_from-Found (suc index) longest entries))
    | inl u ↦ elim (Bool-cases (held v.changed_at now hold)) [
      | inl t ↦
          rw (select_from-held index longest v entries u t)
            (Found.at_held index 0 v (omega arith) refl u ((held_iff v.changed_at now hold).0 t) tt)
      | inr f ↦ rw (select_from-up index longest v entries u f) (
          Found-unheld index v entries u (not_held v.changed_at f) longest _
            (select_from-Found (suc index) (longer longest index v.changed_at) entries))
    ]
  ]

  Found→Chosen : (entries : List Health) {r : Option ℕ} → Found 0 none entries r → Chosen entries r
  Found→Chosen entries (Found.at_held r k v q g u h b) =
      subst (λ t. Chosen entries (some t)) (omega (arith, q)) (Chosen.held_first k v g u h b)
  Found→Chosen entries (Found.kept e since q a l) = absurd (cc q)
  Found→Chosen entries (Found.moved r k v q g u a s l b) =
      subst (λ t. Chosen entries (some t)) (omega (arith, q)) (Chosen.longest_up k v g u a l b)
  Found→Chosen entries (Found.nothing q a) = Chosen.all_down a

  -- `select` takes the documented choice, for every list of verdicts.
  pub select-Chosen : (entries : List Health) → Chosen entries (select entries now hold)
  unfolding select
  select-Chosen entries = Found→Chosen entries (select_from-Found 0 none entries)
