-- ===== src/Exploration/Answers.antt =====
-- What the result of `explore` says of the executions of the program.
use mathlib.Core.List.{Memᴰ, Permᴰ, append-nil, append_assoc}
use naaz.Base.{
  ℕ, zero, suc, ◌<◌, ◌≡◌, ◌≢◌, refl, sym, ◌∙◌, ap, subst, inl, inr, arith, Option-cases,
}
use naaz.Base.{List, [], ◌∷◌, ◌++◌, none, some, Outcome, ok, exit_fail, undefined}
use naaz.Exploration.{
  Engine, ExecutorResult, Policy, Explored, found, finished, round, round_of, explore_from, explore,
  add_exited, add_all_exited,
}
use naaz.Exploration.Kept.{
  results, Runs, Returns, Runs-cases, IsTarget, kept, NoTarget, scan-Ends, weigh-kept,
}
use naaz.Exploration.Search.{Visited, Inv, Inv-start, Inv-round, Visited-taken}
use naaz.Exploration.Vectors.{weigh, weigh-append, weigh-Permᴰ, Memᴰ-Permᴰ, Permᴰ-sym}

add_all_exited_lem :
    {S : Type 0} (states given : List S) → add_all_exited states given ≡ given ++ states
unfolding add_all_exited add_exited
add_all_exited_lem [] given = sym (append-nil given)
add_all_exited_lem (s ∷ states) given =
    add_all_exited_lem states (add_exited s given) ∙ append_assoc given (s ∷ []) states

module _ {S : Type 0} (e : Engine S) (p : Policy S) (find avoid : List ℕ) where
  abbrev pub next_states : S → List S
  next_states s = (results e s).active

  -- A round ends with a target, goes on with what is kept, or the process ends in the block.
  pub data Rounds (s : S) (r : p.Queue) (given : List S) : Type 0 where
    stops :
        (t : S)
        → Runs e s
        → Memᴰ t (next_states s)
        → IsTarget e find avoid t
        → ((rest : p.Queue → List S → Explored S)
            → round e p find avoid rest s r given ≡ found t (given ++ (results e s).exited))
        → Rounds s r given
    goes :
        (next : p.Queue)
        → Runs e s
        → NoTarget e find avoid (next_states s)
        → p.add_actives (kept e find avoid (next_states s)) r ≡ ok next
        → Permᴰ (p.held next) (kept e find avoid (next_states s) ++ p.held r)
        → ((rest : p.Queue → List S → Explored S)
            → round e p find avoid rest s r given ≡ rest next (given ++ (results e s).exited))
        → Rounds s r given
    fails :
        (Runs e s → ⊥)
        → ((rest : p.Queue → List S → Explored S)
            → round e p find avoid rest s r given ≡ Explored.fault)
        → Rounds s r given

  all_given :
      (s : S) (given : List S)
      → add_all_exited (results e s).exited given ≡ given ++ (results e s).exited
  all_given s given = add_all_exited_lem (results e s).exited given

  round-fault :
      (rest : p.Queue → List S → Explored S) (r : p.Queue) (given : List S)
      (o : Outcome (ExecutorResult S))
      → (Returns o → ⊥)
      → round_of e p find avoid rest r given o ≡ Explored.fault
  unfolding round_of
  round-fault rest r given (ok next) h = absurd (h tt)
  round-fault rest r given exit_fail h = refl
  round-fault rest r given undefined h = refl

  module _ (s : S) (r : p.Queue) (given : List S) (is : e.execute_basic_block s ≡ ok (results e s))
      (runs : Runs e s) where
    round_runs :
        (rest : p.Queue → List S → Explored S)
        → round e p find avoid rest s r given
          ≡ round_of e p find avoid rest r given (ok (results e s))
    unfolding round
    round_runs rest = ap (round_of e p find avoid rest r given) is

    ran_cases : Rounds s r given
    unfolding round_of
    ran_cases = elim (scan-Ends e find avoid (next_states s) []) [
      | inl (t, ends, m, target) ↦
          stops t runs m target
            (λ rest. round_runs rest ∙ rw (round_of, ends) (ap (found t) (all_given s given)))
      | inr (ends, clear) ↦
          let (next, added, bag) = p.add_law (kept e find avoid (next_states s)) r in
          goes next runs clear added bag (λ rest.
            round_runs rest ∙ rw (round_of, ends, added) (ap (rest next) (all_given s given)))
    ]

  pub round_cases : (s : S) (r : p.Queue) (given : List S) → Rounds s r given
  unfolding round
  round_cases s r given = elim (Runs-cases e s) [
    | inl (is, runs) ↦ ran_cases s r given is runs
    | inr stuck ↦ fails stuck (λ rest. round-fault rest r given (e.execute_basic_block s) stuck)
  ]

  -- What a result means for a search from `initial`.
  abbrev pub IsAnswer : S → Explored S → Type 0
  IsAnswer initial (found t exited) =
      ((s : S) × Visited e find avoid initial s × Memᴰ t (results e s).active)
      × IsTarget e find avoid t
  IsAnswer initial (finished exited) =
      ((s : S)
        → Visited e find avoid initial s
        → Runs e s
          × NoTarget e find avoid (results e s).active
          × ((t : S) → Memᴰ t (results e s).exited → Memᴰ t exited))
      × ((t : S)
          → Memᴰ t exited
          → (s : S) × Visited e find avoid initial s × Memᴰ t (results e s).exited)
  IsAnswer initial Explored.fault = (s : S) × Visited e find avoid initial s × (Runs e s → ⊥)
  IsAnswer initial Explored.out_of_fuel = Unit

  pub explore_from-none :
      (fuel : ℕ) (given : List S) (q : p.Queue)
      → p.get_next q ≡ none
      → explore_from e p (suc fuel) find avoid q given ≡ finished given
  unfolding explore_from
  explore_from-none fuel given q next = rw (explore_from, next) refl

  pub explore_from-some :
      (fuel : ℕ) (given : List S) (q r : p.Queue) (s : S)
      → p.get_next q ≡ some (s, r)
      → explore_from e p (suc fuel) find avoid q given
        ≡ round e p find avoid (explore_from e p fuel find avoid) s r given
  unfolding explore_from
  explore_from-some fuel given q r s next = rw (explore_from, next) refl

  ended :
      (initial : S) (taken given : List S) (q : p.Queue)
      → p.get_next q ≡ none
      → Inv e find avoid initial p (λ s. (results e s).exited) taken given q
      → IsAnswer initial (finished given)
  ended initial taken given q next h =
      let all = Visited-taken e find avoid initial p _ taken given q (p.none_law q next) h in
      (
        λ s v. (h.ran s (all s v), h.clear s (all s v), λ t m. h.gives s t (all s v) m),
        λ t m. let (s, in_taken, by) = h.given_by t m in (s, h.visited s (inl in_taken), by),
      )

  explore_from-IsAnswer :
      (initial : S) (fuel : ℕ) (taken given : List S) (q : p.Queue)
      → Inv e find avoid initial p (λ s. (results e s).exited) taken given q
      → IsAnswer initial (explore_from e p fuel find avoid q given)
  unfolding explore_from
  explore_from-IsAnswer initial zero taken given q h = tt
  explore_from-IsAnswer initial (suc fuel) taken given q h = elim (Option-cases (p.get_next q)) [
    | inl next ↦
        subst (IsAnswer initial) (sym (explore_from-none fuel given q next))
          (ended initial taken given q next h)
    | inr ((s, r), next) ↦ elim (round_cases s r given) [
      | stops t runs m is ends ↦
          subst (IsAnswer initial) (sym (explore_from-some fuel given q r s next ∙ ends _)) (
            (
              s,
              h.visited s (inr (Memᴰ-Permᴰ (Permᴰ-sym (p.some_law q s r next)) (Memᴰ.head refl))),
              m,
            ),
            is,
          )
      | goes q' runs clear added bag ends ↦
          subst (IsAnswer initial) (sym (explore_from-some fuel given q r s next ∙ ends _)) (
            explore_from-IsAnswer initial fuel (s ∷ taken) _ q' (
              Inv-round e find avoid initial p _ s taken given q r q' (p.some_law q s r next) bag
                runs clear h))
      | fails stuck ends ↦
          subst (IsAnswer initial) (sym (explore_from-some fuel given q r s next ∙ ends _)) (
            s,
            h.visited s (inr (Memᴰ-Permᴰ (Permᴰ-sym (p.some_law q s r next)) (Memᴰ.head refl))),
            stuck,
          )
    ]
  ]

  -- For every technique, a state that `explore` returns has an address of `find`, is satisfiable,
  -- and is a successor of a state that an execution visits without passing `find` or `avoid`. When
  -- the search ends without one, no visited state has such a successor, and the block of each
  -- visited state was executed, and the states added as exited are exactly the exited ones of the
  -- visited states. The process ends in the search only in a block of a visited state. No access is
  -- out of bounds.
  pub explore-IsAnswer :
      (initial : S) (fuel : ℕ) → IsAnswer initial (explore e p fuel find avoid initial)
  unfolding explore
  explore-IsAnswer initial fuel =
      explore_from-IsAnswer initial fuel [] [] (p.start initial)
        (Inv-start e find avoid initial p _)

  module _ (weight : S → ℕ) (falls : (s : S) → weigh weight (next_states s) < weight s) where
    pub lighter :
        (s : S) (q r next : p.Queue)
        → Permᴰ (p.held q) (s ∷ p.held r)
        → Permᴰ (p.held next) (kept e find avoid (next_states s) ++ p.held r)
        → weigh weight (p.held next) < weigh weight (p.held q)
    lighter s q r next popped queued =
        let before = weigh-Permᴰ weight popped in
        let after = weigh-Permᴰ weight queued in
        let split = weigh-append weight (kept e find avoid (next_states s)) (p.held r) in
        let least = weigh-kept e find avoid weight (next_states s) in
        omega (arith, before, after, split, least, falls s)

    explore_from_ends :
        (fuel : ℕ) (given : List S) (q : p.Queue)
        → weigh weight (p.held q) < fuel
        → explore_from e p fuel find avoid q given ≢ Explored.out_of_fuel
    explore_from_ends zero given q h out = absurd (omega arith)
    explore_from_ends (suc fuel) given q h out = elim (Option-cases (p.get_next q)) [
      | inl next ↦
          let clash : finished given ≡ Explored.out_of_fuel =
            sym (explore_from-none fuel given q next) ∙ out in
          cc
      | inr ((s, r), next) ↦ elim (round_cases s r given) [
        | stops t runs m is ends ↦
            let clash : found t (given ++ (results e s).exited) ≡ Explored.out_of_fuel =
              sym (explore_from-some fuel given q r s next ∙ ends _) ∙ out in
            cc
        | goes q' runs clear added bag ends ↦
            explore_from_ends fuel _ q'
              (omega (arith, lighter s q r q' (p.some_law q s r next) bag))
              (sym (explore_from-some fuel given q r s next ∙ ends _) ∙ out)
        | fails stuck ends ↦
            let clash : Explored.fault ≡ Explored.out_of_fuel =
              sym (explore_from-some fuel given q r s next ∙ ends _) ∙ out in
            cc
      ]
    ]

    -- Where the successors of each block weigh less together than the state, the search of
    -- `explore` is over, for every technique, within as many rounds as the first state weighs, and
    -- one more.
    pub explore_terminates :
        (initial : S) (fuel : ℕ)
        → weight initial < fuel
        → explore e p fuel find avoid initial ≢ Explored.out_of_fuel
    unfolding explore
    explore_terminates initial fuel h =
        explore_from_ends fuel [] (p.start initial)
          (omega (arith, ap (weigh weight) (p.start_law initial)))
