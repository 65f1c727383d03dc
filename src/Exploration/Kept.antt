-- ===== src/Exploration/Kept.antt =====
-- What the loop over the active successors of a state returns or keeps, and what `add_exited` and the
-- callback of `gen_paths` are given.
use mathlib.Core.List.{Memᴰ, append_assoc, append-nil}
use mathlib.Core.List.Memᴰ
use naaz.Base.{ℕ, ◌≤◌, arith, ◌≡◌, refl, sym, ◌∙◌, ap, inl, inr, ◌⊎◌, true, false, Bool-cases}
use naaz.Base.{List, [], ◌∷◌, ◌++◌, if◌then◌else◌}
use naaz.Base.{Outcome, ok, exit_fail, undefined}
use naaz.Exploration.{Engine, ExecutorResult, hit, keep, has, scan}
use naaz.Exploration.Vectors.{weigh}

-- the states that a block gives, none where its execution ends the process
abbrev pub results_of : {S : Type 0} → Outcome (ExecutorResult S) → ExecutorResult S
results_of (ok r) = r
results_of exit_fail = record { active = []; exited = [] }
results_of undefined = record { active = []; exited = [] }

abbrev pub Returns : {S : Type 0} → Outcome (ExecutorResult S) → Type 0
Returns (ok r) = Unit
Returns exit_fail = ⊥
Returns undefined = ⊥

abbrev pub results : {S : Type 0} → Engine S → S → ExecutorResult S
results e s = results_of (e.execute_basic_block s)

-- Executing the block of the state returns.
abbrev pub Runs : {S : Type 0} → Engine S → S → Type 0
Runs e s = Returns (e.execute_basic_block s)

returned :
    {S : Type 0} (o : Outcome (ExecutorResult S))
    → ((o ≡ ok (results_of o)) × Returns o) ⊎ (Returns o → ⊥)
returned (ok r) = inl (refl, tt)
returned exit_fail = inr (λ h. h)
returned undefined = inr (λ h. h)

pub Runs-cases :
    {S : Type 0} (e : Engine S) (s : S)
    → ((e.execute_basic_block s ≡ ok (results e s)) × Runs e s) ⊎ (Runs e s → ⊥)
Runs-cases e s = returned (e.execute_basic_block s)

module _ {S : Type 0} (e : Engine S) (find avoid : List ℕ) where
  abbrev pub IsTarget : S → Type 0
  IsTarget s = (has find (e.pc s) ≡ true) × (e.satisfiable s ≡ true)

  abbrev pub IsKept : S → Type 0
  IsKept s = (has find (e.pc s) ≡ false) × (has avoid (e.pc s) ≡ false)

  -- those that are kept, in the order of the successors
  abbrev pub kept : List S → List S
  kept [] = []
  kept (s ∷ states) =
      let rest = kept states in
      if has find (e.pc s) then rest else (if has avoid (e.pc s) then rest else s ∷ rest)

  pub Memᴰ-kept : (states : List S) (s : S) → Memᴰ s (kept states) → Memᴰ s states × IsKept s
  Memᴰ-kept [] s m = absurd (Memᴰ.not-nil m)
  Memᴰ-kept (t ∷ states) s m = elim (Bool-cases (has find (e.pc t))) [
    | inl target ↦
        let (in_rest, is) = Memᴰ-kept states s (rw target at m) in (Memᴰ.tail in_rest, is)
    | inr other ↦ elim (Bool-cases (has avoid (e.pc t))) [
      | inl avoided ↦
          let (in_rest, is) = Memᴰ-kept states s (rw (other, avoided) at m) in
          (Memᴰ.tail in_rest, is)
      | inr allowed ↦ elim (Memᴰ.cases_cons (rw (other, allowed) at m)) [
        | inl same ↦ (
          Memᴰ.head same,
          (ap (λ u. has find (e.pc u)) same ∙ other, ap (λ u. has avoid (e.pc u)) same ∙ allowed),
        )
        | inr in_rest ↦
            let (in_states, is) = Memᴰ-kept states s in_rest in (Memᴰ.tail in_states, is)
      ]
    ]
  ]

  pub kept-Memᴰ : (states : List S) (s : S) → Memᴰ s states → IsKept s → Memᴰ s (kept states)
  kept-Memᴰ [] s m is = absurd (Memᴰ.not-nil m)
  kept-Memᴰ (t ∷ states) s (Memᴰ.head same) (other, allowed) =
      let t_other : has find (e.pc t) ≡ false = sym (ap (λ u. has find (e.pc u)) same) ∙ other in
      let t_allowed : has avoid (e.pc t) ≡ false =
        sym (ap (λ u. has avoid (e.pc u)) same) ∙ allowed in
      rw (t_other, t_allowed) (Memᴰ.head same)
  kept-Memᴰ (t ∷ states) s (Memᴰ.tail m) is = elim (Bool-cases (has find (e.pc t))) [
    | inl target ↦ rw target (kept-Memᴰ states s m is)
    | inr other ↦ elim (Bool-cases (has avoid (e.pc t))) [
      | inl avoided ↦ rw (other, avoided) (kept-Memᴰ states s m is)
      | inr allowed ↦ rw (other, allowed) (Memᴰ.tail (kept-Memᴰ states s m is))
    ]
  ]

  abbrev pub NoTarget : List S → Type 0
  NoTarget states = (s : S) → Memᴰ s states → has find (e.pc s) ≡ true → e.satisfiable s ≡ false

  cons-NoTarget :
      (s : S) (states : List S)
      → (has find (e.pc s) ≡ true → e.satisfiable s ≡ false)
      → NoTarget states
      → NoTarget (s ∷ states)
  cons-NoTarget s states h k t (Memᴰ.head same) target =
      ap e.satisfiable same ∙ h (sym (ap (λ u. has find (e.pc u)) same) ∙ target)
  cons-NoTarget s states h k t (Memᴰ.tail m) target = k t m target

  abbrev pub ScanEnds : List S → List S → Type 0
  ScanEnds states active =
      ((t : S) × (scan e find avoid states active ≡ hit t) × Memᴰ t states × IsTarget t)
      ⊎ ((scan e find avoid states active ≡ keep (active ++ kept states)) × NoTarget states)

  onward :
      (s : S) (states active next : List S)
      → scan e find avoid (s ∷ states) active ≡ scan e find avoid states next
      → next ++ kept states ≡ active ++ kept (s ∷ states)
      → (has find (e.pc s) ≡ true → e.satisfiable s ≡ false)
      → ScanEnds states next
      → ScanEnds (s ∷ states) active
  onward s states active next same all clear ends = elim ends [
    | inl (t, stops, m, is) ↦ inl (t, same ∙ stops, Memᴰ.tail m, is)
    | inr (goes, none_found) ↦
        inr (same ∙ goes ∙ ap keep all, cons-NoTarget s states clear none_found)
  ]

  pub scan-Ends : (states active : List S) → ScanEnds states active
  unfolding scan
  scan-Ends [] active = inr (ap keep (sym (append-nil active)), λ s m. absurd (Memᴰ.not-nil m))
  scan-Ends (s ∷ states) active = elim (Bool-cases (has find (e.pc s))) [
    | inl target ↦ elim (Bool-cases (e.satisfiable s)) [
      | inl sat ↦ inl (s, rw (target, sat) refl, Memᴰ.head refl, (target, sat))
      | inr unsat ↦
          onward s states active active (rw (target, unsat) refl) (rw target refl) (λ _. unsat)
            (scan-Ends states active)
    ]
    | inr other ↦ elim (Bool-cases (has avoid (e.pc s))) [
      | inl avoided ↦
          onward s states active active (rw (other, avoided) refl) (rw (other, avoided) refl)
            (λ target. absurd (cc)) (scan-Ends states active)
      | inr allowed ↦
          onward s states active (active ++ s ∷ []) (rw (other, allowed) refl)
            (rw (other, allowed) (append_assoc active (s ∷ []) (kept states)))
            (λ target. absurd (cc)) (scan-Ends states (active ++ s ∷ []))
    ]
  ]

  pub weigh-kept : (f : S → ℕ) (states : List S) → weigh f (kept states) ≤ weigh f states
  weigh-kept f [] = omega arith
  weigh-kept f (s ∷ states) = elim (Bool-cases (has find (e.pc s))) [
    | inl target ↦ rw target (omega (arith, weigh-kept f states))
    | inr other ↦ elim (Bool-cases (has avoid (e.pc s))) [
      | inl avoided ↦ rw (other, avoided) (omega (arith, weigh-kept f states))
      | inr allowed ↦ rw (other, allowed) (omega (arith, weigh-kept f states))
    ]
  ]
