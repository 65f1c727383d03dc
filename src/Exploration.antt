-- ===== src/Exploration.antt =====
-- executor/ExecutorManager.hpp and executor/ExplorationTechnique.hpp: the search for a state. What
-- `PCodeExecutor::execute_basic_block` and `State::satisfiable` compute is an interface; the order of
-- the search is another, which the techniques fill.
pub mod Vectors
pub mod Techniques
pub mod Policies
pub mod Coverage
pub mod Kept
pub mod Search
pub mod Answers
pub mod Paths
pub mod Shortest
pub mod Finds
use mathlib.Core.List.{Permᴰ}
use naaz.Base.{
  ℕ, zero, suc, ◌+◌, ◌≡◌, Bool, true, false, ◌||◌, ◌==◌, if◌then◌else◌, List, [], ◌∷◌, ◌++◌,
}
use naaz.Base.{Option, none, some, Outcome, ok, exit_fail, undefined, length}

pub record ExecutorResult (S : Type 0) : Type 0 where
  pub active : List S
  pub exited : List S

-- What the manager asks of a state and of the executor.
pub record Engine (S : Type 0) : Type 0 where
  pub pc : S → ℕ
  pub stacktrace : S → List ℕ
  pub satisfiable : S → Bool
  -- It ends the process where the code at the address cannot be fetched or translated.
  pub execute_basic_block : S → Outcome (ExecutorResult S)

-- The virtual functions of `ExplorationTechnique` and what they promise: a technique holds the states
-- that it was given, and hands each out once. `held` is the bag of them.
pub record Policy (S : Type 0) : Type 1 where
  pub Queue : Type 0
  pub held : Queue → List S
  pub start : S → Queue
  pub add_actives : List S → Queue → Outcome Queue
  pub get_next : Queue → Option (S × Queue)
  pub start_law : (s : S) → held (start s) ≡ s ∷ []
  pub add_law :
      (states : List S) (q : Queue)
      → (r : Queue) × (add_actives states q ≡ ok r) × Permᴰ (held r) (states ++ held q)
  pub none_law : (q : Queue) → get_next q ≡ none → held q ≡ []
  pub some_law :
      (q : Queue) (s : S) (r : Queue) → get_next q ≡ some (s, r) → Permᴰ (held q) (s ∷ held r)

-- `std::set<uint64_t>::contains`
abbrev pub has : List ℕ → ℕ → Bool
has [] a = false
has (x ∷ xs) a = x == a || has xs a

-- The loop over the active successors: it returns a state, or ends with those to keep.
pub data Scan (S : Type 0) : Type 0 where
  hit : S → Scan S
  keep : List S → Scan S

-- The end of `explore`, with the states added by `add_exited` so far.
pub data Explored (S : Type 0) : Type 0 where
  found : S → List S → Explored S
  finished : List S → Explored S
  fault out_of_fuel : Explored S

-- The end of `gen_paths`, with the states given to the callback.
pub data Generated (S : Type 0) : Type 0 where
  paths : List S → Generated S
  fault out_of_fuel : Generated S

module _ {S : Type 0} where
  -- `add_exited` and `add_avoided` of ExplorationTechnique: `push_back`
  unfoldable pub add_exited : S → List S → List S
  add_exited s exited_states = exited_states ++ s ∷ []

  unfoldable pub add_avoided : S → List S → List S
  add_avoided s avoided_states = avoided_states ++ s ∷ []

  -- `for (auto s : next_states.exited) m_exploration.add_exited(s)`
  unfoldable pub add_all_exited : List S → List S → List S
  add_all_exited [] exited_states = exited_states
  add_all_exited (s ∷ states) exited_states = add_all_exited states (add_exited s exited_states)

module _ {S : Type 0} (e : Engine S) where
  unfoldable pub scan : List ℕ → List ℕ → List S → List S → Scan S
  scan find avoid [] active = keep active
  scan find avoid (s ∷ states) active =
      let skipped = scan find avoid states active in
      let pushed = scan find avoid states (active ++ s ∷ []) in
      if has find (e.pc s)
      then (if e.satisfiable s then hit s else skipped)
      else (if has avoid (e.pc s) then skipped else pushed)

  -- `for (auto s : next_states.exited) if (s->satisfiable() == SAT) callback (s)`
  unfoldable pub exits : List S → List S
  exits [] = []
  exits (s ∷ states) = if e.satisfiable s then s ∷ exits states else exits states

  module _ (p : Policy S) where
    -- the rest of a round of `explore`, once the block was executed; `rest` runs the further rounds
    unfoldable pub round_of :
        List ℕ
        → List ℕ
        → (p.Queue → List S → Explored S)
        → p.Queue
        → List S
        → Outcome (ExecutorResult S)
        → Explored S
    round_of find avoid rest q exited (ok next_states) =
        let all_exited = add_all_exited next_states.exited exited in
        elim (scan find avoid next_states.active []) [
          | hit t ↦ found t all_exited
          | keep active ↦ elim (p.add_actives active q) [
            | ok r ↦ rest r all_exited
            | exit_fail ↦ Explored.fault
            | undefined ↦ Explored.fault
          ]
        ]
    round_of find avoid rest q exited exit_fail = Explored.fault
    round_of find avoid rest q exited undefined = Explored.fault

    -- one round of `explore` for a state that `get_next` returned
    unfoldable pub round :
        List ℕ → List ℕ → (p.Queue → List S → Explored S) → S → p.Queue → List S → Explored S
    round find avoid rest s q exited = round_of find avoid rest q exited (e.execute_basic_block s)

    unfoldable pub explore_from : ℕ → List ℕ → List ℕ → p.Queue → List S → Explored S
    explore_from zero find avoid q exited = Explored.out_of_fuel
    explore_from (suc fuel) find avoid q exited = elim (p.get_next q) [
      | none ↦ finished exited
      | some (s, r) ↦ round find avoid (explore_from fuel find avoid) s r exited
    ]

    -- `explore (find, avoid)` of a manager for `initial_state`
    unfoldable pub explore : ℕ → List ℕ → List ℕ → S → Explored S
    explore fuel find avoid initial_state = explore_from fuel find avoid (p.start initial_state) []

    unfoldable pub path_round_of :
        (p.Queue → List S → Generated S)
        → p.Queue
        → List S
        → Outcome (ExecutorResult S)
        → Generated S
    path_round_of rest q called (ok next_states) = elim (p.add_actives next_states.active q) [
      | ok r ↦ rest r (called ++ exits next_states.exited)
      | exit_fail ↦ Generated.fault
      | undefined ↦ Generated.fault
    ]
    path_round_of rest q called exit_fail = Generated.fault
    path_round_of rest q called undefined = Generated.fault

    unfoldable pub path_round :
        (p.Queue → List S → Generated S) → S → p.Queue → List S → Generated S
    path_round rest s q called = path_round_of rest q called (e.execute_basic_block s)

    unfoldable pub paths_from : ℕ → p.Queue → List S → Generated S
    paths_from zero q called = Generated.out_of_fuel
    paths_from (suc fuel) q called = elim (p.get_next q) [
      | none ↦ paths called
      | some (s, r) ↦ path_round (paths_from fuel) s r called
    ]

    unfoldable pub gen_paths : ℕ → S → Generated S
    gen_paths fuel initial_state = paths_from fuel (p.start initial_state) []

    -- `num_states` of a technique, with the states of its base class
    unfoldable pub num_states : p.Queue → List S → List S → ℕ
    num_states q exited avoided = length (p.held q) + (length exited + length avoided)
