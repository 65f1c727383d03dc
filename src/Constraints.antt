-- ===== src/Constraints.antt =====
-- solver/ConstraintManager.cpp: the constraints of a path, indexed by their symbols, and the part of
-- them that an expression depends on.
pub mod Sets
pub mod Agree
pub mod Cache
pub mod Remembered
pub mod Waiting
pub mod Closure
pub mod Filed
pub mod Conjoined
pub mod Slices
use naaz.Base.{ℕ, zero, suc, Bool, true, false, ◌==◌, ltb, if◌then◌else◌, List, [], ◌∷◌, ◌++◌}
use mathlib.Core.Option
use naaz.Base.{Option, none, some}
use naaz.Expr.{BvExpr, BoolExpr, BvList, BoolList}
use naaz.Builder.Relational.{insert, insert_all, of_bool_list, mk_bool_and}
use naaz.Exploration.{has}
use naaz.Exploration.Vectors.{pop_back}

-- insertion into a `std::set<uint32_t>`, in ascending order
unfoldable pub insert_sym : ℕ → List ℕ → List ℕ
insert_sym i [] = i ∷ []
insert_sym i (x ∷ xs) =
    let rest = insert_sym i xs in
    if x == i then x ∷ xs else (if ltb i x then i ∷ x ∷ xs else x ∷ rest)

-- `for (auto& sym : syms) res.insert(sym)`
unfoldable pub union : List ℕ → List ℕ → List ℕ
union [] res = res
union (i ∷ syms) res = union syms (insert_sym i res)

-- `get_involved_inputs` without its cache, on the children of each class
unfoldable mutual
  pub inputs : BvExpr → List ℕ
  inputs (BvExpr.sym id n) = insert_sym id []
  inputs (BvExpr.const c) = []
  inputs (BvExpr.ite g t e) = union (inputs e) (union (inputs t) (union (test_inputs g) []))
  inputs (BvExpr.extract e high low) = union (inputs e) []
  inputs (BvExpr.concat els) = list_inputs els []
  inputs (BvExpr.zext e n) = union (inputs e) []
  inputs (BvExpr.sext e n) = union (inputs e) []
  inputs (BvExpr.shl e v) = union (inputs v) (union (inputs e) [])
  inputs (BvExpr.lshr e v) = union (inputs v) (union (inputs e) [])
  inputs (BvExpr.ashr e v) = union (inputs v) (union (inputs e) [])
  inputs (BvExpr.sdiv l r m_size) = union (inputs r) (union (inputs l) [])
  inputs (BvExpr.udiv l r m_size) = union (inputs r) (union (inputs l) [])
  inputs (BvExpr.srem l r m_size) = union (inputs r) (union (inputs l) [])
  inputs (BvExpr.urem l r m_size) = union (inputs r) (union (inputs l) [])
  inputs (BvExpr.neg e) = union (inputs e) []
  inputs (BvExpr.not e) = union (inputs e) []
  inputs (BvExpr.and els) = list_inputs els []
  inputs (BvExpr.or els) = list_inputs els []
  inputs (BvExpr.xor els) = list_inputs els []
  inputs (BvExpr.add els) = list_inputs els []
  inputs (BvExpr.mul els) = list_inputs els []

  pub test_inputs : BoolExpr → List ℕ
  test_inputs (BoolExpr.bool_const b) = []
  test_inputs (BoolExpr.bool_not e) = union (test_inputs e) []
  test_inputs (BoolExpr.ult l r) = union (inputs r) (union (inputs l) [])
  test_inputs (BoolExpr.ule l r) = union (inputs r) (union (inputs l) [])
  test_inputs (BoolExpr.ugt l r) = union (inputs r) (union (inputs l) [])
  test_inputs (BoolExpr.uge l r) = union (inputs r) (union (inputs l) [])
  test_inputs (BoolExpr.slt l r) = union (inputs r) (union (inputs l) [])
  test_inputs (BoolExpr.sle l r) = union (inputs r) (union (inputs l) [])
  test_inputs (BoolExpr.sgt l r) = union (inputs r) (union (inputs l) [])
  test_inputs (BoolExpr.sge l r) = union (inputs r) (union (inputs l) [])
  test_inputs (BoolExpr.eq l r) = union (inputs r) (union (inputs l) [])
  test_inputs (BoolExpr.bool_and els) = tests_inputs els []
  test_inputs (BoolExpr.bool_or els) = tests_inputs els []

  pub list_inputs : BvList → List ℕ → List ℕ
  list_inputs BvList.nil res = res
  list_inputs (BvList.cons e els) res = list_inputs els (union (inputs e) res)

  pub tests_inputs : BoolList → List ℕ → List ℕ
  tests_inputs BoolList.end res = res
  tests_inputs (BoolList.item e els) res = tests_inputs els (union (test_inputs e) res)

-- A `std::map` from symbols to sets: a missing key is an empty set, which `operator[]` creates.
abbrev pub at {ℓ} : {A : Type ℓ} → List (ℕ × List A) → ℕ → List A
at [] i = []
at ((k, v) ∷ m) i = let rest = at m i in if k == i then v else rest

-- `m[i].insert(...)`
abbrev pub change {ℓ} : {A : Type ℓ} → (List A → List A) → ℕ → List (ℕ × List A) → List (ℕ × List A)
change f i [] = (i, f []) ∷ []
change f i ((k, v) ∷ m) = let rest = change f i m in if k == i then (k, f v) ∷ m else (k, v) ∷ rest

pub record ConstraintManager : Type 0 where
  pub constraint_map : List (ℕ × List BoolExpr)
  pub constraints : List BoolExpr
  pub dependencies : List (ℕ × List ℕ)

unfoldable pub empty_manager : ConstraintManager
empty_manager = record { constraint_map = []; constraints = []; dependencies = [] }

-- `for (uint32_t next : m_dependencies.at(curr)) if (!res.contains(next)) queue.push_back(next)`
unfoldable pub push_new : List ℕ → List ℕ → List ℕ → List ℕ
push_new res [] queue = queue
push_new res (next ∷ nexts) queue =
    let skipped = push_new res nexts queue in
    let pushed = push_new res nexts (queue ++ next ∷ []) in if has res next then skipped else pushed

-- The loop of `get_dependencies`; `none` is the end of the fuel.
unfoldable pub close : ℕ → List (ℕ × List ℕ) → List ℕ → List ℕ → Option (List ℕ)
close zero deps queue res = none
close (suc fuel) deps queue res = elim (pop_back queue) [
  | none ↦ some res
  | some (curr, rest) ↦
      let skipped = close fuel deps rest res in
      let added = insert_sym curr res in
      let followed = close fuel deps (push_new added (at deps curr) rest) added in
      if has res curr then skipped else followed
]

-- `involved_inputs` are those of the expression.
unfoldable pub get_dependencies : ℕ → ConstraintManager → List ℕ → Option (List ℕ)
get_dependencies fuel cm involved_inputs = close fuel cm.dependencies involved_inputs []

module _ (addr : BoolExpr → ℕ) where
  -- the loop of `add` over the symbols
  unfoldable pub file_under : BoolExpr → List ℕ → List ℕ → ConstraintManager → ConstraintManager
  file_under constraint involved_inputs [] cm = cm
  file_under constraint involved_inputs (sym ∷ syms) cm =
      file_under constraint involved_inputs syms (record cm {
        constraint_map = change (insert addr constraint) sym cm.constraint_map;
        dependencies = change (union involved_inputs) sym cm.dependencies;
      })

  unfoldable pub add : BoolExpr → ConstraintManager → ConstraintManager
  add constraint cm =
      let involved_inputs = test_inputs constraint in
      let filed = file_under constraint involved_inputs involved_inputs cm in
      record filed { constraints = insert addr constraint filed.constraints }

  -- the set of constraints that `pi(expr)` collects
  unfoldable pub collect : List (ℕ × List BoolExpr) → List ℕ → List BoolExpr → List BoolExpr
  collect map [] constraints = constraints
  collect map (sym ∷ syms) constraints = collect map syms (insert_all addr (at map sym) constraints)

  -- `mk_bool_and_no_simpl` of expr/ExprBuilder.cpp
  unfoldable pub mk_bool_and_no_simpl : List BoolExpr → BoolExpr
  mk_bool_and_no_simpl [] = BoolExpr.bool_const true
  mk_bool_and_no_simpl (e ∷ []) = e
  mk_bool_and_no_simpl (e ∷ x ∷ xs) = BoolExpr.bool_and (of_bool_list (e ∷ x ∷ xs))

  -- `pi(expr)` for an expression with the symbols `involved_inputs`
  unfoldable pub pi_of : ℕ → ConstraintManager → List ℕ → Option BoolExpr
  pi_of fuel cm involved_inputs =
      Option.map (λ deps. mk_bool_and_no_simpl (collect cm.constraint_map deps []))
        (get_dependencies fuel cm involved_inputs)

  unfoldable pub conjoin : BoolExpr → List BoolExpr → BoolExpr
  conjoin e [] = e
  conjoin e (c ∷ cs) = conjoin (mk_bool_and addr e c) cs

  unfoldable pub pi : ConstraintManager → BoolExpr
  pi cm = elim cm.constraints [ [] ↦ BoolExpr.bool_const true | c ∷ cs ↦ conjoin c cs ]
