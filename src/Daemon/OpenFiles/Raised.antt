-- ===== src/Daemon/OpenFiles/Raised.antt =====
-- nhop/src/daemon/open_files.rs: what raising the limit comes to.
use nhop.Common.{
  ℕ, ◌≡◌, refl, sym, ap, ◌∙◌, ◌≤◌, inl, inr, arith, true, false, Bool-cases, min, leb, Result, ok,
  err,
}
use nhop.Proxy.Failure.{IoError}
use nhop.Daemon.OpenFiles.{Limits, System, target, wanted, written, raise_from, raise}

-- A system that does what setrlimit documents below the ceiling: it sets what getrlimit reads.
pub record Sets {S : Type 0} (system : System S) : Type 0 where
  pub sets :
      (s s' : S) (soft hard : ℕ) (done : Unit {0})
      → system.write soft hard s ≡ (s', ok done)
      → system.read s' ≡ ok (record { soft = soft; hard = hard })

module _ {S : Type 0} (system : System S) where
  -- The limits cover the target as far as the ceiling lets them.
  abbrev pub Covers : Limits → Type 0
  Covers limits = leb (min target limits.hard) limits.soft ≡ true

  raise-covered :
      (s : S) (current : Limits)
      → system.read s ≡ ok current
      → Covers current
      → raise system s ≡ (s, ok current)
  unfolding raise raise_from wanted
  raise-covered s current e h = rw (e, h) refl

  raise-short :
      (s : S) (current : Limits)
      → system.read s ≡ ok current
      → leb (min target current.hard) current.soft ≡ false
      → raise system s ≡ written system (system.write (min target current.hard) current.hard s)
  unfolding raise raise_from wanted
  raise-short s current e h = rw (e, h) refl

  written-inv :
      (w : S × Result IoError (Unit {0})) (s' : S) (after : Limits)
      → written system w ≡ (s', ok after)
      → (done : Unit {0}) × (w ≡ (s', ok done)) × (system.read s' ≡ ok after)
  written-inv (s, err failure) s' after h =
      let refused : (err failure) ≡ (ok after) = ap (λ (w : S × Result IoError Limits). w.1) h in
      absurd cc
  written-inv (s, ok done) s' after h =
      let kept : s ≡ s' = ap (λ (w : S × Result IoError Limits). w.0) h in
      let read : system.read s ≡ ok after = ap (λ (w : S × Result IoError Limits). w.1) h in
      (done, ap (λ t. (t, ok done)) kept, ap system.read (sym kept) ∙ read)

  covered_by : (n : ℕ) → leb n n ≡ true
  covered_by n = ground arith

  -- What raising leaves behind: the ceiling is kept, nothing is lowered, the target is covered as far
  -- as the ceiling lets it, and raising once more changes nothing.
  abbrev pub Raised : Limits → S → Limits → Type 0
  Raised current s' after =
      (after.hard ≡ current.hard)
      × (current.soft ≤ after.soft)
      × Covers after
      × (raise system s' ≡ (s', ok after))

  capped-Raised :
      (current after : Limits) (s' : S)
      → leb (min target current.hard) current.soft ≡ false
      → after ≡ record { soft = min target current.hard; hard = current.hard }
      → system.read s' ≡ ok after
      → Raised current s' after
  capped-Raised current after s' short e read =
      let covers : Covers after = rw e (covered_by _) in
      (
        ap (λ (l : Limits). l.hard) e,
        rw e (ground (arith, short)),
        covers,
        raise-covered s' after read covers,
      )

  unchanged-Raised :
      (s s' : S) (current after : Limits)
      → system.read s ≡ ok current
      → Covers current
      → s ≡ s'
      → system.read s ≡ ok after
      → Raised current s' after
  unchanged-Raised s s' current after e covers kept told =
      let same : after ≡ current = cc in
      let read : system.read s' ≡ ok after = ap system.read (sym kept) ∙ told in
      let covered : Covers after = rw same covers in
      (
        ap (λ (l : Limits). l.hard) same,
        rw same (omega arith),
        covered,
        raise-covered s' after read covered,
      )

  set_by : {s : S} {a b : Limits} → system.read s ≡ ok a → system.read s ≡ ok b → b ≡ a
  set_by e f = cc

  -- Over a system whose setrlimit, where it succeeds, sets what getrlimit reads: raising that
  -- answers limits has kept the ceiling, has lowered nothing, covers the target of 16384 as far as
  -- the ceiling lets it, and answers the same and changes nothing when it is run once more.
  pub raise-Raised :
      Sets system
      → (s s' : S) (current after : Limits) → system.read s ≡ ok current
      → raise system s ≡ (s', ok after)
      → Raised current s' after
  raise-Raised sets s s' current after e h =
      elim (Bool-cases (leb (min target current.hard) current.soft)) [
        | inl covers ↦
            let same : (s, ok current) ≡ (s', ok after) =
              sym (raise-covered s current e covers) ∙ h in
            unchanged-Raised s s' current after e covers
              (ap (λ (w : S × Result IoError Limits). w.0) same)
              (e ∙ ap (λ (w : S × Result IoError Limits). w.1) same)
        | inr short ↦
            let (done, w, read) =
              written-inv (system.write (min target current.hard) current.hard s) s' after
                (sym (raise-short s current e short) ∙ h) in
            capped-Raised current after s' short (set_by (sets.sets s s' _ _ done w) read) read
      ]
