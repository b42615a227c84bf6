-- ===== src/Upstream/Dial/Recovery.antt =====
-- nhop/src/upstream/mod.rs: how the first upstream is won back, and what a `never` rule spares.
use nhop.Common.{
  ℕ, ◌+◌, ◌≡◌, refl, sym, ap, ◌∙◌, subst, ◌≢◌, Option, none, some, List, [], ◌∷◌, arith, All,
  All-weaken, ok,
}
use native.Mathlib.Decide.{dec_le}
use nhop.Net.{Platform}
use nhop.Wire.{HealthState, up, down, EffectiveHop, Host, Port}
use nhop.Rules.Decision.{Decision, RuleId}
use nhop.Rules.Ruleset.{Rule, Ruleset, decide}
use nhop.Rules.Matcher.{normalized}
use nhop.Rules.Decide.{First, is_never, Routes, decide_iff}
use nhop.Proxy.Failure.{Stream, Dialled}
use nhop.Upstream.Health.{Verdicts, Health, VerdictCause, SystemTime, Duration, verdict, set}
use nhop.Upstream.Select.{select}
use nhop.Upstream.Select.Correct.{Chosen, select-Chosen}
use nhop.Upstream.Select.Stable.{select_iff}
use nhop.Upstream.Entries
use nhop.Upstream.Entries.{UpstreamEntry, UpstreamEntries, verdicts, selected}
use nhop.Upstream.Entries.Adopted.{IsPublished}
use nhop.Upstream.Selection.{Shared, Observed}
use nhop.Upstream.Dial.{Network, UpstreamBudget, through, required, dial}
use nhop.Upstream.Dial.Evidence.{evidence, judged, required-judged}

-- Where everything but the first entry is down, and the first is up, the first is selected.
first_up-selected :
    (now : SystemTime) (hold : Duration) (w : Health) (vs : List Health)
    → w.state ≡ up
    → All (λ x. x.state ≡ down) vs
    → select (w ∷ vs) now hold ≡ some 0
first_up-selected now hold w vs u a = elim (dec_le (w.changed_at + hold) now) [
  | yes h ↦ (select_iff now hold (w ∷ vs) (some 0)).1 (Chosen.held_first 0 w refl u h tt)
  | no h ↦ (select_iff now hold (w ∷ vs) (some 0)).1 (
      Chosen.longest_up 0 w refl u
        ((λ _. omega (arith, h)), All-weaken vs (λ x d u'. absurd (cc (d, u'))) a)
        ((λ _. omega arith), All-weaken vs (λ x d u'. absurd (cc (d, u'))) a) tt)
]

-- A dial's verdict is recorded at its own handle alone.
set_elsewhere :
    (v : Verdicts) (h g : ℕ) (s : HealthState) (now : SystemTime)
    → h ≢ g
    → verdict (set v h s VerdictCause.dial now).0 g ≡ verdict v g
unfolding set verdict
set_elsewhere v h g s now n = ground arith

set_here :
    (v : Verdicts) (h : ℕ) (s : HealthState) (now : SystemTime)
    → (verdict (set v h s VerdictCause.dial now).0 h).state ≡ s
unfolding set verdict
set_here v h s now = ground arith

verdicts-set :
    (v : Verdicts) (h : ℕ) (s : HealthState) (now : SystemTime) (es : List UpstreamEntry)
    → All (λ (e : UpstreamEntry). h ≢ e.health) es
    → verdicts (set v h s VerdictCause.dial now).0 es ≡ verdicts v es
unfolding verdicts
verdicts-set v h s now [] a = refl
verdicts-set v h s now (e ∷ es) (n, a) =
    cc (set_elsewhere v h e.health s now n, verdicts-set v h s now es a)

none-Chosen-down :
    (now : SystemTime) (hold : Duration) (vs : List Health) {r : Option ℕ}
    → Chosen now hold vs r
    → r ≡ none
    → All (λ x. x.state ≡ down) vs
none-Chosen-down now hold vs (Chosen.held_first k v g u h b) e = absurd (cc e)
none-Chosen-down now hold vs (Chosen.longest_up k v g u a l b) e = absurd (cc e)
none-Chosen-down now hold vs (Chosen.all_down a) e = a

none_selected-down :
    (v : Verdicts) (list : UpstreamEntries) (now : SystemTime) (hold : Duration)
    → selected v list now hold ≡ none
    → All (λ x. x.state ≡ down) (verdicts v list.entries)
unfolding selected
none_selected-down v list now hold e =
    none-Chosen-down now hold _ (select-Chosen now hold (verdicts v list.entries)) e

up-selected :
    (v : Verdicts) (e : UpstreamEntry) (es : List UpstreamEntry) (at : SystemTime)
    (now : SystemTime) (hold : Duration)
    → All (λ (y : UpstreamEntry). e.health ≢ y.health) es
    → All (λ x. x.state ≡ down) (verdicts v (e ∷ es))
    → select (verdicts (set v e.health up VerdictCause.dial at).0 (e ∷ es)) now hold ≡ some 0
unfolding verdicts
up-selected v e es at now hold n (d, ds) =
    first_up-selected now hold _ _ (set_here v e.health up at)
      (subst (All (λ x. x.state ≡ down)) (sym (verdicts-set v e.health up at es n)) ds)

abbrev listing : UpstreamEntry → List UpstreamEntry → ℕ → UpstreamEntries
listing e es n = record { entries = e ∷ es; publication = n }

first_required :
    (e : UpstreamEntry) (es : List UpstreamEntry) (n : ℕ)
    → Entries.required (listing e es n) none ≡ some e
unfolding Entries.required
first_required e es n = refl

up-selected_list :
    (v : Verdicts) (e : UpstreamEntry) (es : List UpstreamEntry) (n : ℕ) (at now : SystemTime)
    (hold : Duration)
    → All (λ (y : UpstreamEntry). e.health ≢ y.health) es
    → All (λ x. x.state ≡ down) (verdicts v (e ∷ es))
    → selected (set v e.health up VerdictCause.dial at).0 (listing e es n) now hold ≡ some 0
unfolding selected
up-selected_list v e es n at now hold ne d = up-selected v e es at now hold ne d

module _ (net : Network) (host : Host) (port : Port) (v : Verdicts) (hold : Duration) where
  reached-set :
      (at : SystemTime) (rule : RuleId) (e : UpstreamEntry) (s : Stream)
      (entry : Option UpstreamEntry)
      → entry ≡ some e
      → through net host port e.upstream.socket UpstreamBudget.require ≡ ok s
      → (required net host port v at rule entry).0 ≡ (set v e.health up VerdictCause.dial at).0
  reached-set at rule e s entry q reached =
      ap (λ t. (required net host port v at rule t).0) q
      ∙ (required-judged net host port v at rule e ∙ ap (λ t. judged v e at (evidence t)) reached)

  -- With no upstream up, a require dial that connects through the first entry of a published list
  -- makes that entry the selected one afterwards, at any clock.
  pub required-recovers :
      (began at now : SystemTime) (rule : RuleId) (e : UpstreamEntry) (es : List UpstreamEntry)
      (n : ℕ) (s : Stream)
      → IsPublished v (e ∷ es)
      → selected v (listing e es n) began hold ≡ none
      → through net host port e.upstream.socket UpstreamBudget.require ≡ ok s
      → selected
          (required net host port v at rule
            (Entries.required (listing e es n) (selected v (listing e es n) began hold))).0
          (listing e es n)
          now
          hold
        ≡ some 0
  required-recovers began at now rule e es n s p none_up reached =
      ap (λ w. selected w (listing e es n) now hold)
        (reached-set at rule e s _
          (ap (Entries.required (listing e es n)) none_up ∙ first_required e es n) reached)
      ∙ up-selected_list v e es n at now hold p.handles.0
          (none_selected-down v (listing e es n) began hold none_up)

  -- A destination for which a never rule applies is dialled directly by a dial that moves no
  -- selection, logs no switch and writes no verdict, whatever the other rules say.
  pub never_rule-bypasses :
      {N : Type 0} (pl : Platform N) (rules : Ruleset N) (r : Rule N) (v₀ : Verdicts)
      (began now : SystemTime) (seen : Observed) (shared : Shared)
      → First pl (normalized pl host) port is_never r rules
      → dial net host port hold v₀ began seen shared v now (decide pl rules host port) ≡ (
        seen,
        none,
        (v, none, Dialled.attempted EffectiveHop.direct none (net.connect host port)),
      )
  unfolding dial
  never_rule-bypasses pl rules r v₀ began now seen shared f =
      rw ((decide_iff pl rules host port (Decision.never r.id)).1 (Routes.refused_upstream r f))
