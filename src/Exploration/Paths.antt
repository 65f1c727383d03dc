-- ===== src/Exploration/Paths.antt =====
-- `gen_paths`: the states that the callback is given.
use mathlib.Core.List.{Memᴰ, Permᴰ}
use mathlib.Core.List.Memᴰ
use naaz.Base.{ℕ, zero, suc, ◌<◌, ◌≡◌, refl, sym, ◌∙◌, ap, subst, inl, inr, arith, Option-cases}
use naaz.Base.{◌≢◌, ◌⊎◌, Outcome, ok, exit_fail, undefined}
use naaz.Base.{List, [], ◌∷◌, ◌++◌, none, some, ◌↔◌, Bool-cases, true}
use naaz.Exploration.{ExecutorResult, path_round_of}
use naaz.Exploration.{Engine, Policy, Generated, paths, exits, path_round, paths_from, gen_paths}
use naaz.Exploration.Kept.{results, Runs, Returns, Runs-cases, kept}
use naaz.Exploration.Search.{Visited, Inv, Inv-start, Inv-round, Visited-taken}
use naaz.Exploration.Answers.{lighter}
use naaz.Exploration.Vectors.{weigh, Memᴰ-Permᴰ, Permᴰ-sym}

module _ {S : Type 0} (e : Engine S) where
  exits-Memᴰ :
      (states : List S) (t : S)
      → Memᴰ t (exits e states) ↔ (Memᴰ t states × (e.satisfiable t ≡ true))
  unfolding exits
  exits-Memᴰ states t = (forth states, λ h. back states h.0 h.1)
    where
      forth : (states : List S) → Memᴰ t (exits e states) → Memᴰ t states × (e.satisfiable t ≡ true)
      forth [] m = absurd (Memᴰ.not-nil m)
      forth (s ∷ states) m = elim (Bool-cases (e.satisfiable s)) [
        | inr unsat ↦ let (k, sat) = forth states (rw (exits, unsat) at m) in (Memᴰ.tail k, sat)
        | inl sat ↦ elim (Memᴰ.cases_cons (rw (exits, sat) at m)) [
          | inl same ↦ (Memᴰ.head same, ap e.satisfiable same ∙ sat)
          | inr k ↦ let (l, is) = forth states k in (Memᴰ.tail l, is)
        ]
      ]

      back : (states : List S) → Memᴰ t states → e.satisfiable t ≡ true → Memᴰ t (exits e states)
      back [] m sat = absurd (Memᴰ.not-nil m)
      back (s ∷ states) (Memᴰ.head same) sat =
          let first : e.satisfiable s ≡ true = sym (ap e.satisfiable same) ∙ sat in
          rw (exits, first) (Memᴰ.head same)
      back (s ∷ states) (Memᴰ.tail m) sat = elim (Bool-cases (e.satisfiable s)) [
        | inr unsat ↦ rw (exits, unsat) (back states m sat)
        | inl is ↦ rw (exits, is) (Memᴰ.tail (back states m sat))
      ]

  kept_all : (states : List S) → kept e [] [] states ≡ states
  kept_all [] = refl
  kept_all (s ∷ states) = ap (λ l. s ∷ l) (kept_all states)

  module _ (p : Policy S) where
    abbrev next_states : S → List S
    next_states s = (results e s).active

    abbrev pub called_by : S → List S
    called_by s = exits e (results e s).exited

    abbrev pub IsPaths : S → Generated S → Type 0
    IsPaths initial (paths called) =
        (t : S)
        → Memᴰ t called ↔ (
            (s : S) × Visited e [] [] initial s
            × Memᴰ t (results e s).exited
            × (e.satisfiable t ≡ true))
    IsPaths initial Generated.fault = (s : S) × Visited e [] [] initial s × (Runs e s → ⊥)
    IsPaths initial Generated.out_of_fuel = Unit

    path_round-fault :
        (rest : p.Queue → List S → Generated S) (r : p.Queue) (called : List S)
        (o : Outcome (ExecutorResult S))
        → (Returns o → ⊥)
        → path_round_of e p rest r called o ≡ Generated.fault
    unfolding path_round_of
    path_round-fault rest r called (ok next) h = absurd (h tt)
    path_round-fault rest r called exit_fail h = refl
    path_round-fault rest r called undefined h = refl

    -- A round goes on with all successors, or the process ends in the block.
    abbrev Goes : S → p.Queue → List S → Type 0
    Goes s r called =
        (next : p.Queue) × Runs e s
        × Permᴰ (p.held next) (kept e [] [] (next_states s) ++ p.held r)
        × ((rest : p.Queue → List S → Generated S)
            → path_round e p rest s r called ≡ rest next (called ++ called_by s))

    path_round_lem :
        (s : S) (r : p.Queue) (called : List S)
        → Goes s r called
          ⊎ ((Runs e s → ⊥)
              × ((rest : p.Queue → List S → Generated S)
                  → path_round e p rest s r called ≡ Generated.fault))
    unfolding path_round path_round_of
    path_round_lem s r called = elim (Runs-cases e s) [
      | inr stuck ↦
          inr (stuck, λ rest. path_round-fault rest r called (e.execute_basic_block s) stuck)
      | inl (is, runs) ↦
          let (next, added, bag) = p.add_law (next_states s) r in
          inl (
            next,
            runs,
            subst (λ l. Permᴰ (p.held next) (l ++ p.held r)) (sym (kept_all (next_states s))) bag,
            λ rest. ap (path_round_of e p rest r called) is ∙ rw (path_round_of, added) refl,
          )
    ]

    paths_from-none :
        (fuel : ℕ) (called : List S) (q : p.Queue)
        → p.get_next q ≡ none
        → paths_from e p (suc fuel) q called ≡ paths called
    unfolding paths_from
    paths_from-none fuel called q next = rw (paths_from, next) refl

    paths_from-some :
        (fuel : ℕ) (called : List S) (q r : p.Queue) (s : S)
        → p.get_next q ≡ some (s, r)
        → paths_from e p (suc fuel) q called ≡ path_round e p (paths_from e p fuel) s r called
    unfolding paths_from
    paths_from-some fuel called q r s next = rw (paths_from, next) refl

    ended :
        (initial : S) (taken called : List S) (q : p.Queue)
        → p.get_next q ≡ none
        → Inv e [] [] initial p called_by taken called q
        → IsPaths initial (paths called)
    ended initial taken called q next h t =
        let all = Visited-taken e [] [] initial p called_by taken called q (p.none_law q next) h in
        (
          λ m.
              let (s, in_taken, by) = h.given_by t m in
              let (k, sat) = (exits-Memᴰ _ t).0 by in (s, h.visited s (inl in_taken), k, sat),
          λ (s, v, m, sat). h.gives s t (all s v) ((exits-Memᴰ _ t).1 (m, sat)),
        )

    paths_from-IsPaths :
        (initial : S) (fuel : ℕ) (taken called : List S) (q : p.Queue)
        → Inv e [] [] initial p called_by taken called q
        → IsPaths initial (paths_from e p fuel q called)
    unfolding paths_from
    paths_from-IsPaths initial zero taken called q h = tt
    paths_from-IsPaths initial (suc fuel) taken called q h = elim (Option-cases (p.get_next q)) [
      | inl next ↦
          subst (IsPaths initial) (sym (paths_from-none fuel called q next))
            (ended initial taken called q next h)
      | inr ((s, r), next) ↦ elim (path_round_lem s r called) [
        | inl (q', runs, bag, goes) ↦
            subst (IsPaths initial) (sym (paths_from-some fuel called q r s next ∙ goes _)) (
              paths_from-IsPaths initial fuel (s ∷ taken) _ q' (
                Inv-round e [] [] initial p called_by s taken called q r q' (p.some_law q s r next)
                  bag runs (λ t m f. absurd (cc)) h))
        | inr (stuck, ends) ↦
            subst (IsPaths initial) (sym (paths_from-some fuel called q r s next ∙ ends _)) (
              s,
              h.visited s (inr (Memᴰ-Permᴰ (Permᴰ-sym (p.some_law q s r next)) (Memᴰ.head refl))),
              stuck,
            )
      ]
    ]

    -- For every technique, when `gen_paths` returns, the callback was given exactly the satisfiable
    -- states with which the blocks of the reachable states exit; the process ends in it only in a
    -- block of a reachable state. No access is out of bounds.
    pub gen_paths-IsPaths : (initial : S) (fuel : ℕ) → IsPaths initial (gen_paths e p fuel initial)
    unfolding gen_paths
    gen_paths-IsPaths initial fuel =
        paths_from-IsPaths initial fuel [] [] (p.start initial)
          (Inv-start e [] [] initial p called_by)

    paths_from_ends :
        (weight : S → ℕ)
        → ((s : S) → weigh weight (next_states s) < weight s)
        → (fuel : ℕ) (called : List S) (q : p.Queue) → weigh weight (p.held q) < fuel
        → paths_from e p fuel q called ≢ Generated.out_of_fuel
    paths_from_ends weight falls zero called q h out = absurd (omega arith)
    paths_from_ends weight falls (suc fuel) called q h out = elim (Option-cases (p.get_next q)) [
      | inl next ↦
          let clash : paths called ≡ Generated.out_of_fuel =
            sym (paths_from-none fuel called q next) ∙ out in
          cc
      | inr ((s, r), next) ↦ elim (path_round_lem s r called) [
        | inl (q', runs, bag, goes) ↦
            let less = lighter e p [] [] weight falls s q r q' (p.some_law q s r next) bag in
            paths_from_ends weight falls fuel (called ++ called_by s) q' (omega (arith, less))
              (sym (paths_from-some fuel called q r s next ∙ goes _) ∙ out)
        | inr (stuck, ends) ↦
            let clash : Generated.fault ≡ Generated.out_of_fuel =
              sym (paths_from-some fuel called q r s next ∙ ends _) ∙ out in
            cc
      ]
    ]

    -- Where each block's successors weigh less together than the state, `gen_paths` is over for every
    -- technique within as many rounds as the first state weighs, and one more.
    pub gen_paths_terminates :
        (weight : S → ℕ)
        → ((s : S) → weigh weight (next_states s) < weight s)
        → (initial : S) (fuel : ℕ) → weight initial < fuel
        → gen_paths e p fuel initial ≢ Generated.out_of_fuel
    unfolding gen_paths
    gen_paths_terminates weight falls initial fuel h =
        paths_from_ends weight falls fuel [] (p.start initial)
          (omega (arith, ap (weigh weight) (p.start_law initial)))
