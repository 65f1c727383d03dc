-- ===== src/Exploration/Finds.antt =====
-- `explore` with BFSExplorationTechnique ends a level of the tree of executions before the next, so it
-- meets each block, also where some executions never end, unless the process ends before.
use mathlib.Core.List.{Memᴰ, append-nil, append_assoc}
use mathlib.Core.List.Memᴰ
use naaz.Base.{ℕ, zero, suc, ◌+◌, ◌≤◌, ◌≡◌, refl, sym, ◌∙◌, ap, subst, inl, inr, arith}
use naaz.Base.{List, [], ◌∷◌, ◌++◌, some, false, length, length-append}
use naaz.Exploration.{Engine, Explored, found, round, explore_from, explore}
use naaz.Exploration.Kept.{results, Runs, IsTarget, kept}
use naaz.Exploration.Answers.{round_cases, stops, goes, fails, explore_from-some}
use naaz.Exploration.Policies.{bfs}
use naaz.Exploration.Shortest.{
  VisitedIn, Levels, Levels-start, Levels-shift, Levels-round, bfs_add-append, same_ok,
}
use naaz.Exploration.Techniques.{bfs_add}
use naaz.Exploration.Vectors.{pop_back, pop_back-append, pop_back_cases}

module _ {S : Type 0} (e : Engine S) (find avoid : List ℕ) (initial : S) where
  abbrev run : ℕ → List S → List S → Explored S
  run fuel q given = explore_from e bfs fuel find avoid q given

  -- After some rounds, the search has returned a state, or handed out all of level `n`.
  data Ends (n : ℕ) (q given : List S) : Type 0 where
    returns :
        (rounds : ℕ) (t : S) (exited : List S)
        → ((more : ℕ) → run (rounds + more) q given ≡ found t exited)
        → Ends n q given
    empties :
        (rounds : ℕ) (later all : List S)
        → ((more : ℕ) → run (rounds + more) q given ≡ run more later all)
        → Levels e find avoid initial n [] later
        → Ends n q given

  same_rounds : (k l : ℕ) (q given : List S) → k ≡ l → run k q given ≡ run l q given
  same_rounds k l q given h = ap (λ fuel. run fuel q given) h

  -- The rounds of `first` come before those of the rest.
  rounds_before :
      (n first : ℕ) (q r given all : List S)
      → ((more : ℕ) → run (first + more) q given ≡ run more r all)
      → Ends n r all
      → Ends n q given
  rounds_before n first q r given all go (returns rounds t exited h) =
      returns (first + rounds) t exited (λ more.
        same_rounds (first + rounds + more) (first + (rounds + more)) q given (omega arith)
        ∙ go (rounds + more)
        ∙ h more)
  rounds_before n first q r given all go (empties rounds later last h levels) =
      empties (first + rounds) later last
        (λ more.
          same_rounds (first + rounds + more) (first + (rounds + more)) q given (omega arith)
          ∙ go (rounds + more)
          ∙ h more)
        levels

  back_at :
      (now later rest : List S) (s : S)
      → now ≡ rest ++ s ∷ []
      → pop_back (later ++ now) ≡ some (s, later ++ rest)
  back_at now later rest s split =
      ap pop_back (ap (λ l. later ++ l) split ∙ sym (append_assoc later rest (s ∷ [])))
      ∙ pop_back-append (later ++ rest) s

  round_at :
      (now later rest : List S) (s : S) (given : List S)
      → now ≡ rest ++ s ∷ []
      → (fuel : ℕ)
      → run (1 + fuel) (later ++ now) given
        ≡ round e bfs find avoid (explore_from e bfs fuel find avoid) s (later ++ rest) given
  round_at now later rest s given split fuel =
      same_rounds (1 + fuel) (suc fuel) (later ++ now) given (omega arith)
      ∙ explore_from-some e bfs find avoid fuel given (later ++ now) (later ++ rest) s
          (back_at now later rest s split)

  level_over :
      (n : ℕ) (later given : List S)
      → Levels e find avoid initial n [] later
      → Ends n (later ++ []) given
  level_over n later given h =
      empties 0 later given
        (λ more.
          same_rounds (0 + more) more (later ++ []) given (omega arith)
          ∙ ap (λ l. run more l given) (append-nil later))
        h

  -- No execution ends the process in its first blocks, up to the one after `n` of them.
  abbrev pub NoneFails : ℕ → Type 0
  NoneFails n = (m : ℕ) (s : S) → m ≤ n → VisitedIn e find avoid initial m s → Runs e s

  level_empties :
      (size n : ℕ) (now later given : List S)
      → NoneFails n
      → length now ≡ size
      → Levels e find avoid initial n now later
      → Ends n (later ++ now) given
  level_empties zero n [] later given none sized h = level_over n later given h
  level_empties zero n (s ∷ now) later given none sized h = absurd (omega (arith, sized))
  level_empties (suc size) n now later given none sized h = elim (pop_back_cases now) [
    | inl (empty, _) ↦
        subst (λ l. Ends n (later ++ l) given) (sym empty)
          (level_over n later given (subst (λ l. Levels e find avoid initial n l later) empty h))
    | inr (s, rest, split, _) ↦
        let states : List S = (results e s).active in
        let levels : Levels e find avoid initial n (rest ++ s ∷ []) later =
          subst (λ l. Levels e find avoid initial n l later) split h in
        let all : List S = given ++ (results e s).exited in
        let next : List S = bfs_add (kept e find avoid states) later in
        let less : length rest ≡ size =
          omega (arith, ap length split, length-append rest (s ∷ []), sized) in
        elim (round_cases e bfs find avoid s (later ++ rest) given) [
          | stops t runs m is hits ↦
              returns 1 t all (λ more. round_at now later rest s given split more ∙ hits _)
          | goes r runs clear added bag on ↦
              let same : next ++ rest ≡ r =
                sym (bfs_add-append e find avoid initial _ later rest)
                ∙ same_ok e find avoid initial _ r added in
              rounds_before n 1 (later ++ now) (next ++ rest) given all
                (λ more.
                  round_at now later rest s given split more
                  ∙ on _
                  ∙ ap (λ l. run more l all) (sym same))
                (level_empties size n rest next all none less
                  (Levels-round e find avoid initial n rest later s clear levels))
          | fails stuck over ↦ absurd (
              stuck (
                none n s (omega arith)
                  (levels.now_level s (Memᴰ.append_right rest (Memᴰ.head refl)))))
        ]
  ]

  -- all levels up to `n`
  levels_end : (n : ℕ) → NoneFails n → Ends n (initial ∷ []) []
  levels_end zero none =
      level_empties 1 0 (initial ∷ []) [] [] none (omega arith) (Levels-start e find avoid initial)
  levels_end (suc n) none = elim (levels_end n (λ m s least. none m s (omega (arith, least)))) [
    | returns rounds t exited h ↦ returns rounds t exited h
    | empties rounds later all h levels ↦
        rounds_before (suc n) rounds (initial ∷ []) later [] all h (
          level_empties (length later) (suc n) later [] all none refl
            (Levels-shift e find avoid initial n later levels))
  ]

  -- With breadth first search, where an execution meets a target, `explore` returns a state within
  -- some number of rounds, however many rounds follow, where no execution ends the process in a
  -- block as early as the one that meets the target.
  pub bfs_finds :
      (n : ℕ) (s t : S)
      → VisitedIn e find avoid initial n s
      → Memᴰ t (results e s).active
      → IsTarget e find avoid t
      → NoneFails n
      → (rounds : ℕ) × (u : S) × (exited : List S) × ((more : ℕ)
          → explore e bfs (rounds + more) find avoid initial ≡ found u exited)
  unfolding explore
  bfs_finds n s t v m (target, sat) none = elim (levels_end n none) [
    | returns rounds u exited h ↦ (rounds, u, exited, h)
    | empties rounds later all h levels ↦
        let unsat : e.satisfiable t ≡ false =
          (Levels-shift e find avoid initial n later levels).before n s (omega arith) v t m
            target in
        absurd (cc)
  ]
