-- ===== src/Exploration/Techniques.antt =====
-- The four techniques of executor/: breadth first, depth first, depth first with shuffled successors
-- and coverage first. A vector or list stands from its front to its back.
use naaz.Base.{ℕ, zero, suc, ◌+◌, ◌-◌, ◌/◌, ◌≤◌, not, leb, if◌then◌else◌}
use naaz.Base.{
  List, [], ◌∷◌, ◌++◌, Option, none, some, Outcome, ok, undefined, ◌>>=◌, length, get_elem?,
}
use naaz.Exploration.{Engine, has}
use naaz.Exploration.Vectors.{pop_back, set}

module _ {S : Type 0} where
  -- BFSExplorationTechnique: `push_front` of each state
  unfoldable pub bfs_add : List S → List S → List S
  bfs_add [] active = active
  bfs_add (s ∷ states) active = bfs_add states (s ∷ active)

  -- DFSExplorationTechnique and RandDFSExplorationTechnique: `push_back` of each state
  unfoldable pub dfs_add : List S → List S → List S
  dfs_add [] active = active
  dfs_add (s ∷ states) active = dfs_add states (active ++ s ∷ [])

-- `std::rand` after a fixed seed: the i-th number, which is at most `RAND_MAX`.
pub record RandSource : Type 0 where
  pub rand : ℕ → ℕ
  pub rand_max : ℕ
  pub rand_law : (i : ℕ) → rand i ≤ rand_max

-- `tmp = vec[j]; vec[j] = vec[i]; vec[i] = tmp`; an index out of range is undefined behaviour.
unfoldable pub exchange {ℓ} : {A : Type ℓ} → List A → ℕ → ℕ → Outcome (List A)
exchange vec i j = elim (get_elem? vec j) [
  | none ↦ undefined
  | some tmp ↦ elim (get_elem? vec i) [ none ↦ undefined | some a ↦ ok (set (set vec j a) i tmp) ]
]

module _ {S : Type 0} (r : RandSource) where
  -- The loop of `shuffle` for `count` more rounds; `calls` numbers were taken from `std::rand`.
  unfoldable pub shuffle_from : ℕ → ℕ → List S → ℕ → Outcome (List S × ℕ)
  shuffle_from zero i vec calls = ok (vec, calls)
  shuffle_from (suc count) i vec calls = do
    swapped ← exchange vec i (i + r.rand calls / (r.rand_max / (length vec - i) + 1))
    shuffle_from count (i + 1) swapped (calls + 1)

  unfoldable pub shuffle : List S → ℕ → Outcome (List S × ℕ)
  shuffle vec calls =
      if leb (length vec) 1 then ok (vec, calls) else shuffle_from (length vec - 1) 0 vec calls

  unfoldable pub rand_dfs_add : List S → List S × ℕ → Outcome (List S × ℕ)
  rand_dfs_add states (active, calls) = do
    shuffled ← shuffle states calls
    ok (dfs_add shuffled.0 active, shuffled.1)

unfoldable pub rand_dfs_next : {S : Type 0} → List S × ℕ → Option (S × (List S × ℕ))
rand_dfs_next (active, calls) = elim (pop_back active) [
  | none ↦ none
  | some (s, rest) ↦ some (s, (rest, calls))
]

-- CovExplorationTechnique
pub record CovQueue (S : Type 0) : Type 0 where
  pub visited_addrs : List ℕ
  pub visited_contexts : List ℕ
  pub new_addr_queue : List S
  pub new_context_queue : List S
  pub other_queue : List S

-- `checksum` is what XXH64 gives for the numbers that it was fed.
module _ {S : Type 0} (e : Engine S) (checksum : List ℕ → ℕ) where
  unfoldable pub context_checksum : S → ℕ
  context_checksum s = checksum (e.pc s ∷ e.stacktrace s)

  unfoldable pub cov_start : S → CovQueue S
  cov_start s = record {
    visited_addrs = e.pc s ∷ [];
    visited_contexts = context_checksum s ∷ [];
    new_addr_queue = s ∷ [];
    new_context_queue = [];
    other_queue = [];
  }

  -- one round of `add_actives`
  unfoldable pub cov_push : S → CovQueue S → CovQueue S
  cov_push s q =
      let context_chk = context_checksum s in
      let queued =
        (if not (has q.visited_addrs (e.pc s))
          then record q { new_addr_queue = q.new_addr_queue ++ s ∷ [] }
          else (if not (has q.visited_contexts context_chk)
              then record q { new_context_queue = q.new_context_queue ++ s ∷ [] }
              else record q { other_queue = q.other_queue ++ s ∷ [] })) in
      record queued {
        visited_addrs = e.pc s ∷ queued.visited_addrs;
        visited_contexts = context_chk ∷ queued.visited_contexts;
      }

  unfoldable pub cov_add : List S → CovQueue S → CovQueue S
  cov_add [] q = q
  cov_add (s ∷ states) q = cov_add states (cov_push s q)

unfoldable pub cov_next : {S : Type 0} → CovQueue S → Option (S × CovQueue S)
cov_next q = elim (pop_back q.new_addr_queue) [
  | some (s, rest) ↦ some (s, record q { new_addr_queue = rest })
  | none ↦ elim (pop_back q.new_context_queue) [
    | some (s, rest) ↦ some (s, record q { new_context_queue = rest })
    | none ↦ elim (pop_back q.other_queue) [
      | some (s, rest) ↦ some (s, record q { other_queue = rest })
      | none ↦ none
    ]
  ]
]
