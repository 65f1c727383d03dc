-- ===== src/Tests/Searches.antt =====
-- executor/ExecutorManager.hpp on a program of four blocks: the first goes to the second and to the
-- third, the second to the fourth, and the others exit.
use mathlib.Core.List.{Memᴰ, Permᴰ}
use naaz.Base.{ℕ, ◌+◌, ◌<◌, ◌≡◌, ◌≢◌, refl, arith, inl, inr, not, ◌==◌, Bool-cases, if◌then◌else◌}
use naaz.Base.{List, [], ◌∷◌, ok}
use naaz.Exploration.{
  add_all_exited, add_exited, Engine, Explored, found, explore, explore_from, round, round_of, scan,
  gen_paths,
}
use naaz.Exploration.Vectors.{weigh, pop_back}
use naaz.Exploration.Techniques.{RandSource, shuffle, bfs_add}
use naaz.Exploration.Policies.{bfs, dfs}
use naaz.Exploration.Coverage.{cov}
use naaz.Exploration.Answers.{IsAnswer}
use naaz.Exploration.Paths.{IsPaths}
use naaz.Exploration.Shortest.{VisitedIn, here, step, IsNearest}
use naaz.Exploration.Policies
use naaz.Exploration.Answers
use naaz.Exploration.Paths
use naaz.Exploration.Shortest
use naaz.Exploration.Finds

abbrev blocks : ℕ → List ℕ
blocks s = if s == 0 then 1 ∷ 2 ∷ [] else (if s == 1 then 3 ∷ [] else [])

abbrev toy : Engine ℕ
toy = record {
  pc = λ s. s;
  stacktrace = λ s. [];
  satisfiable = λ s. not (s == 2);
  execute_basic_block = λ s. ok (record { active = blocks s; exited = s ∷ [] });
}

abbrev weight : ℕ → ℕ
weight s = if s == 0 then 4 else (if s == 1 then 2 else 1)

weight_falls : (s : ℕ) → weigh weight (blocks s) < weight s
weight_falls s = elim (Bool-cases (s == 0)) [
  | inl first ↦ rw first (omega arith)
  | inr other ↦ elim (Bool-cases (s == 1)) [
    | inl second ↦ rw (other, second) (omega arith)
    | inr last ↦ rw (other, last) (omega arith)
  ]
]

explore-IsAnswer_example :
    IsAnswer toy dfs (3 ∷ []) (2 ∷ []) 0 (explore toy dfs 5 (3 ∷ []) (2 ∷ []) 0)
explore-IsAnswer_example = Answers.explore-IsAnswer toy dfs (3 ∷ []) (2 ∷ []) 0 5

explore_terminates_example : explore toy (cov toy (λ l. 0)) 5 (2 ∷ []) [] 0 ≢ Explored.out_of_fuel
explore_terminates_example =
    Answers.explore_terminates toy (cov toy (λ l. 0)) (2 ∷ []) [] weight weight_falls 0 5
      (omega arith)

gen_paths-IsPaths_example : IsPaths toy bfs 0 (gen_paths toy bfs 5 0)
gen_paths-IsPaths_example = Paths.gen_paths-IsPaths toy bfs 0 5

-- The third state is met first, but it is not satisfiable.
run_finds : explore toy bfs 3 (2 ∷ 3 ∷ []) [] 0 ≡ found 3 (0 ∷ 1 ∷ [])
unfolding explore explore_from round round_of add_all_exited add_exited scan bfs_add pop_back
run_finds = refl

bfs-IsNearest_example : IsNearest toy (2 ∷ 3 ∷ []) [] 0 3
bfs-IsNearest_example = Shortest.bfs-IsNearest toy (2 ∷ 3 ∷ []) [] 0 3 3 (0 ∷ 1 ∷ []) run_finds

second_visited : VisitedIn toy (3 ∷ []) [] 0 1 1
second_visited = step here (Memᴰ.head refl) (refl, refl)

bfs_finds_example :
    (rounds : ℕ) × (u : ℕ) × (exited : List ℕ) × ((more : ℕ)
      → explore toy bfs (rounds + more) (3 ∷ []) [] 0 ≡ found u exited)
bfs_finds_example =
    Finds.bfs_finds toy (3 ∷ []) [] 0 1 1 3 second_visited (Memᴰ.head refl) (refl, refl)
      (λ m s least v. tt)

abbrev draws : RandSource
draws = record { rand = λ i. 2; rand_max = 7; rand_law = λ i. omega arith }

shuffle-Permᴰ_example :
    (r : List ℕ × ℕ) × (shuffle draws (1 ∷ 2 ∷ 3 ∷ []) 0 ≡ ok r) × Permᴰ r.0 (1 ∷ 2 ∷ 3 ∷ [])
shuffle-Permᴰ_example = Policies.shuffle-Permᴰ draws (1 ∷ 2 ∷ 3 ∷ []) 0
