-- ===== src/Constraints/Cache.antt =====
-- `get_involved_inputs` with the cache that all constraint managers share.
use naaz.Base.{ℕ, Bool, false, if◌then◌else◌, List, [], ◌∷◌}
use naaz.Base.{Option, none, some}
use naaz.Expr.{BvExpr, BoolExpr, BvList, BoolList, same, same_bool}
use naaz.Constraints.{insert_sym, union}

-- An `ExprPtr`, which is the key of the cache.
pub data Node : Type 0 where
  vector : BvExpr → Node
  test : BoolExpr → Node

unfoldable pub same_node : Node → Node → Bool
same_node (vector a) (vector b) = same a b
same_node (test a) (test b) = same_bool a b
same_node a b = false

abbrev pub Involved : Type 0
Involved = List (Node × List ℕ)

unfoldable pub lookup : Involved → Node → Option (List ℕ)
lookup [] e = none
lookup ((k, v) ∷ involved) e =
    let rest = lookup involved e in if same_node k e then some v else rest

-- A visit reads and extends the cache.
abbrev pub Visit : Type 0
Visit = Involved → List ℕ × Involved

-- `contains` and `at`, or the loop over the children and the new entry
unfoldable pub remember : Node → Visit → Visit
remember constraint children involved = elim (lookup involved constraint) [
  | some res ↦ (res, involved)
  | none ↦ let (res, after) = children involved in (res, (constraint, res) ∷ after)
]

-- One more child: `for (auto& sym : get_involved_inputs(e)) res.insert(sym)`.
unfoldable pub and_child : Visit → Visit → Visit
and_child child before involved =
    let (res, between) = before involved in
    let (syms, after) = child between in (union syms res, after)

unfoldable pub no_child : Visit
no_child involved = ([], involved)

unfoldable mutual
  pub get_involved_inputs : BvExpr → Visit
  get_involved_inputs (BvExpr.sym id n) =
      remember (vector (BvExpr.sym id n)) (λ involved. (insert_sym id [], involved))
  get_involved_inputs (BvExpr.const c) = remember (vector (BvExpr.const c)) no_child
  get_involved_inputs (BvExpr.ite g t e) = remember (vector (BvExpr.ite g t e)) (
      and_child (get_involved_inputs e)
        (and_child (get_involved_inputs t) (and_child (get_test_inputs g) no_child)))
  get_involved_inputs (BvExpr.extract e high low) =
      remember (vector (BvExpr.extract e high low)) (and_child (get_involved_inputs e) no_child)
  get_involved_inputs (BvExpr.concat els) =
      remember (vector (BvExpr.concat els)) (visit_list els no_child)
  get_involved_inputs (BvExpr.zext e n) =
      remember (vector (BvExpr.zext e n)) (and_child (get_involved_inputs e) no_child)
  get_involved_inputs (BvExpr.sext e n) =
      remember (vector (BvExpr.sext e n)) (and_child (get_involved_inputs e) no_child)
  get_involved_inputs (BvExpr.shl l r) =
      remember (vector (BvExpr.shl l r))
        (and_child (get_involved_inputs r) (and_child (get_involved_inputs l) no_child))
  get_involved_inputs (BvExpr.lshr l r) =
      remember (vector (BvExpr.lshr l r))
        (and_child (get_involved_inputs r) (and_child (get_involved_inputs l) no_child))
  get_involved_inputs (BvExpr.ashr l r) =
      remember (vector (BvExpr.ashr l r))
        (and_child (get_involved_inputs r) (and_child (get_involved_inputs l) no_child))
  get_involved_inputs (BvExpr.sdiv l r m_size) =
      remember (vector (BvExpr.sdiv l r m_size))
        (and_child (get_involved_inputs r) (and_child (get_involved_inputs l) no_child))
  get_involved_inputs (BvExpr.udiv l r m_size) =
      remember (vector (BvExpr.udiv l r m_size))
        (and_child (get_involved_inputs r) (and_child (get_involved_inputs l) no_child))
  get_involved_inputs (BvExpr.srem l r m_size) =
      remember (vector (BvExpr.srem l r m_size))
        (and_child (get_involved_inputs r) (and_child (get_involved_inputs l) no_child))
  get_involved_inputs (BvExpr.urem l r m_size) =
      remember (vector (BvExpr.urem l r m_size))
        (and_child (get_involved_inputs r) (and_child (get_involved_inputs l) no_child))
  get_involved_inputs (BvExpr.neg e) =
      remember (vector (BvExpr.neg e)) (and_child (get_involved_inputs e) no_child)
  get_involved_inputs (BvExpr.not e) =
      remember (vector (BvExpr.not e)) (and_child (get_involved_inputs e) no_child)
  get_involved_inputs (BvExpr.and els) =
      remember (vector (BvExpr.and els)) (visit_list els no_child)
  get_involved_inputs (BvExpr.or els) = remember (vector (BvExpr.or els)) (visit_list els no_child)
  get_involved_inputs (BvExpr.xor els) =
      remember (vector (BvExpr.xor els)) (visit_list els no_child)
  get_involved_inputs (BvExpr.add els) =
      remember (vector (BvExpr.add els)) (visit_list els no_child)
  get_involved_inputs (BvExpr.mul els) =
      remember (vector (BvExpr.mul els)) (visit_list els no_child)

  pub get_test_inputs : BoolExpr → Visit
  get_test_inputs (BoolExpr.bool_const b) = remember (test (BoolExpr.bool_const b)) no_child
  get_test_inputs (BoolExpr.bool_not e) =
      remember (test (BoolExpr.bool_not e)) (and_child (get_test_inputs e) no_child)
  get_test_inputs (BoolExpr.ult l r) =
      remember (test (BoolExpr.ult l r))
        (and_child (get_involved_inputs r) (and_child (get_involved_inputs l) no_child))
  get_test_inputs (BoolExpr.ule l r) =
      remember (test (BoolExpr.ule l r))
        (and_child (get_involved_inputs r) (and_child (get_involved_inputs l) no_child))
  get_test_inputs (BoolExpr.ugt l r) =
      remember (test (BoolExpr.ugt l r))
        (and_child (get_involved_inputs r) (and_child (get_involved_inputs l) no_child))
  get_test_inputs (BoolExpr.uge l r) =
      remember (test (BoolExpr.uge l r))
        (and_child (get_involved_inputs r) (and_child (get_involved_inputs l) no_child))
  get_test_inputs (BoolExpr.slt l r) =
      remember (test (BoolExpr.slt l r))
        (and_child (get_involved_inputs r) (and_child (get_involved_inputs l) no_child))
  get_test_inputs (BoolExpr.sle l r) =
      remember (test (BoolExpr.sle l r))
        (and_child (get_involved_inputs r) (and_child (get_involved_inputs l) no_child))
  get_test_inputs (BoolExpr.sgt l r) =
      remember (test (BoolExpr.sgt l r))
        (and_child (get_involved_inputs r) (and_child (get_involved_inputs l) no_child))
  get_test_inputs (BoolExpr.sge l r) =
      remember (test (BoolExpr.sge l r))
        (and_child (get_involved_inputs r) (and_child (get_involved_inputs l) no_child))
  get_test_inputs (BoolExpr.eq l r) =
      remember (test (BoolExpr.eq l r))
        (and_child (get_involved_inputs r) (and_child (get_involved_inputs l) no_child))
  get_test_inputs (BoolExpr.bool_and els) =
      remember (test (BoolExpr.bool_and els)) (visit_tests els no_child)
  get_test_inputs (BoolExpr.bool_or els) =
      remember (test (BoolExpr.bool_or els)) (visit_tests els no_child)

  pub visit_list : BvList → Visit → Visit
  visit_list BvList.nil before = before
  visit_list (BvList.cons e els) before = visit_list els (and_child (get_involved_inputs e) before)

  pub visit_tests : BoolList → Visit → Visit
  visit_tests BoolList.end before = before
  visit_tests (BoolList.item e els) before = visit_tests els (and_child (get_test_inputs e) before)
