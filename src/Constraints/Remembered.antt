-- ===== src/Constraints/Remembered.antt =====
-- The cache of `get_involved_inputs` never changes a result.
use naaz.Base.{ℕ, ◌≡◌, refl, sym, ◌∙◌, ap, ap₂, true, List, [], ◌∷◌}
use naaz.Base.{some, Option-cases, inl, inr, Bool-cases}
use naaz.Expr.{BvExpr, BoolExpr, BvList, BoolList, same→eq, same_bool→eq}
use naaz.Constraints.{union, inputs, test_inputs, list_inputs, tests_inputs}
use naaz.Constraints.Cache.{
  Node, vector, test, same_node, Involved, lookup, Visit, remember, and_child, no_child,
  get_involved_inputs, get_test_inputs, visit_list, visit_tests,
}

-- the symbols of a node
abbrev pub symbols : Node → List ℕ
symbols (vector e) = inputs e
symbols (test e) = test_inputs e

-- Every entry of the cache has the symbols of its key.
abbrev pub IsRight : Involved → Type 0
IsRight involved = (e : Node) (v : List ℕ) → lookup involved e ≡ some v → v ≡ symbols e

-- A visit of_vector these symbols and keeps the cache right.
abbrev pub Gives : Visit → List ℕ → Type 0
Gives visit syms =
    (involved : Involved)
    → IsRight involved
    → ((visit involved).0 ≡ syms) × IsRight (visit involved).1

same_node→eq : (a b : Node) → same_node a b ≡ true → a ≡ b
unfolding same_node
same_node→eq (vector a) (vector b) h = ap vector (same→eq a b h)
same_node→eq (vector a) (test b) h = absurd (cc)
same_node→eq (test a) (vector b) h = absurd (cc)
same_node→eq (test a) (test b) h = ap test (same_bool→eq a b h)

same_some : (x y : List ℕ) → some x ≡ some y → x ≡ y
same_some x y h = cc

IsRight-cons :
    (e : Node) (v : List ℕ) (involved : Involved)
    → v ≡ symbols e
    → IsRight involved
    → IsRight ((e, v) ∷ involved)
unfolding lookup
IsRight-cons e v involved h right k w found = elim (Bool-cases (same_node e k)) [
  | inl is ↦ same_some w v (sym found ∙ rw (lookup, is) refl) ∙ h ∙ ap symbols (same_node→eq e k is)
  | inr is ↦ right k w (rw (lookup, is) at found)
]

pub nothing_cached : IsRight []
unfolding lookup
nothing_cached e v h = absurd (cc)

remember-Gives :
    (e : Node) (children : Visit)
    → Gives children (symbols e)
    → Gives (remember e children) (symbols e)
unfolding remember
remember-Gives e children right_syms involved right = elim (Option-cases (lookup involved e)) [
  | inl new ↦
      let (value, after) = right_syms involved right in
      rw (remember, new) (value, IsRight-cons e _ _ value after)
  | inr (v, known) ↦ rw (remember, known) (right e v known, right)
]

and_child-Gives :
    (child before : Visit) (syms res : List ℕ)
    → Gives child syms
    → Gives before res
    → Gives (and_child child before) (union syms res)
unfolding and_child
and_child-Gives child before syms res c b involved right =
    let (first, between) = b involved right in
    let (second, after) = c (before involved).1 between in (ap₂ union second first, after)

no_child-Gives : Gives no_child []
unfolding no_child
no_child-Gives involved right = (refl, right)

one_child :
    (child : Visit) (syms : List ℕ)
    → Gives child syms
    → Gives (and_child child no_child) (union syms [])
one_child child syms c = and_child-Gives child no_child syms [] c no_child-Gives

two_children :
    (l r : Visit) (ls rs : List ℕ)
    → Gives l ls
    → Gives r rs
    → Gives (and_child r (and_child l no_child)) (union rs (union ls []))
two_children l r ls rs h k =
    and_child-Gives r (and_child l no_child) rs (union ls []) k (one_child l ls h)

mutual
  unfolding get_involved_inputs inputs

  of_vector : (e : BvExpr) → Gives (get_involved_inputs e) (inputs e)
  of_vector (BvExpr.sym id n) =
      remember-Gives (vector (BvExpr.sym id n)) _ (λ involved right. (refl, right))
  of_vector (BvExpr.const c) = remember-Gives (vector (BvExpr.const c)) no_child no_child-Gives
  of_vector (BvExpr.ite g t e) = remember-Gives (vector (BvExpr.ite g t e)) _ (
      and_child-Gives (get_involved_inputs e) _ (inputs e) _ (of_vector e)
        (two_children (get_test_inputs g) (get_involved_inputs t) _ _ (of_test g) (of_vector t)))
  of_vector (BvExpr.extract e high low) =
      remember-Gives (vector (BvExpr.extract e high low)) _ (one_child _ _ (of_vector e))
  of_vector (BvExpr.concat els) =
      remember-Gives (vector (BvExpr.concat els)) _ (of_list els no_child [] no_child-Gives)
  of_vector (BvExpr.zext e n) =
      remember-Gives (vector (BvExpr.zext e n)) _ (one_child _ _ (of_vector e))
  of_vector (BvExpr.sext e n) =
      remember-Gives (vector (BvExpr.sext e n)) _ (one_child _ _ (of_vector e))
  of_vector (BvExpr.shl l r) =
      remember-Gives (vector (BvExpr.shl l r)) _ (two_children _ _ _ _ (of_vector l) (of_vector r))
  of_vector (BvExpr.lshr l r) =
      remember-Gives (vector (BvExpr.lshr l r)) _ (two_children _ _ _ _ (of_vector l) (of_vector r))
  of_vector (BvExpr.ashr l r) =
      remember-Gives (vector (BvExpr.ashr l r)) _ (two_children _ _ _ _ (of_vector l) (of_vector r))
  of_vector (BvExpr.sdiv l r m_size) =
      remember-Gives (vector (BvExpr.sdiv l r m_size)) _
        (two_children _ _ _ _ (of_vector l) (of_vector r))
  of_vector (BvExpr.udiv l r m_size) =
      remember-Gives (vector (BvExpr.udiv l r m_size)) _
        (two_children _ _ _ _ (of_vector l) (of_vector r))
  of_vector (BvExpr.srem l r m_size) =
      remember-Gives (vector (BvExpr.srem l r m_size)) _
        (two_children _ _ _ _ (of_vector l) (of_vector r))
  of_vector (BvExpr.urem l r m_size) =
      remember-Gives (vector (BvExpr.urem l r m_size)) _
        (two_children _ _ _ _ (of_vector l) (of_vector r))
  of_vector (BvExpr.neg e) = remember-Gives (vector (BvExpr.neg e)) _ (one_child _ _ (of_vector e))
  of_vector (BvExpr.not e) = remember-Gives (vector (BvExpr.not e)) _ (one_child _ _ (of_vector e))
  of_vector (BvExpr.and els) =
      remember-Gives (vector (BvExpr.and els)) _ (of_list els no_child [] no_child-Gives)
  of_vector (BvExpr.or els) =
      remember-Gives (vector (BvExpr.or els)) _ (of_list els no_child [] no_child-Gives)
  of_vector (BvExpr.xor els) =
      remember-Gives (vector (BvExpr.xor els)) _ (of_list els no_child [] no_child-Gives)
  of_vector (BvExpr.add els) =
      remember-Gives (vector (BvExpr.add els)) _ (of_list els no_child [] no_child-Gives)
  of_vector (BvExpr.mul els) =
      remember-Gives (vector (BvExpr.mul els)) _ (of_list els no_child [] no_child-Gives)

  of_test : (e : BoolExpr) → Gives (get_test_inputs e) (test_inputs e)
  of_test (BoolExpr.bool_const b) =
      remember-Gives (test (BoolExpr.bool_const b)) no_child no_child-Gives
  of_test (BoolExpr.bool_not e) =
      remember-Gives (test (BoolExpr.bool_not e)) _ (one_child _ _ (of_test e))
  of_test (BoolExpr.ult l r) =
      remember-Gives (test (BoolExpr.ult l r)) _ (two_children _ _ _ _ (of_vector l) (of_vector r))
  of_test (BoolExpr.ule l r) =
      remember-Gives (test (BoolExpr.ule l r)) _ (two_children _ _ _ _ (of_vector l) (of_vector r))
  of_test (BoolExpr.ugt l r) =
      remember-Gives (test (BoolExpr.ugt l r)) _ (two_children _ _ _ _ (of_vector l) (of_vector r))
  of_test (BoolExpr.uge l r) =
      remember-Gives (test (BoolExpr.uge l r)) _ (two_children _ _ _ _ (of_vector l) (of_vector r))
  of_test (BoolExpr.slt l r) =
      remember-Gives (test (BoolExpr.slt l r)) _ (two_children _ _ _ _ (of_vector l) (of_vector r))
  of_test (BoolExpr.sle l r) =
      remember-Gives (test (BoolExpr.sle l r)) _ (two_children _ _ _ _ (of_vector l) (of_vector r))
  of_test (BoolExpr.sgt l r) =
      remember-Gives (test (BoolExpr.sgt l r)) _ (two_children _ _ _ _ (of_vector l) (of_vector r))
  of_test (BoolExpr.sge l r) =
      remember-Gives (test (BoolExpr.sge l r)) _ (two_children _ _ _ _ (of_vector l) (of_vector r))
  of_test (BoolExpr.eq l r) =
      remember-Gives (test (BoolExpr.eq l r)) _ (two_children _ _ _ _ (of_vector l) (of_vector r))
  of_test (BoolExpr.bool_and els) =
      remember-Gives (test (BoolExpr.bool_and els)) _ (of_tests els no_child [] no_child-Gives)
  of_test (BoolExpr.bool_or els) =
      remember-Gives (test (BoolExpr.bool_or els)) _ (of_tests els no_child [] no_child-Gives)

  of_list :
      (els : BvList) (before : Visit) (res : List ℕ)
      → Gives before res
      → Gives (visit_list els before) (list_inputs els res)
  of_list BvList.nil before res h = h
  of_list (BvList.cons e els) before res h =
      of_list els _ (union (inputs e) res)
        (and_child-Gives (get_involved_inputs e) before (inputs e) res (of_vector e) h)

  of_tests :
      (els : BoolList) (before : Visit) (res : List ℕ)
      → Gives before res
      → Gives (visit_tests els before) (tests_inputs els res)
  of_tests BoolList.end before res h = h
  of_tests (BoolList.item e els) before res h =
      of_tests els _ (union (test_inputs e) res)
        (and_child-Gives (get_test_inputs e) before (test_inputs e) res (of_test e) h)

-- Where every entry of the shared cache has the symbols of its key, `get_involved_inputs` of a test
-- gives the symbols that the walk without a cache finds, and every entry is still right afterwards.
pub get_test_inputs-Gives : (e : BoolExpr) → Gives (get_test_inputs e) (test_inputs e)
get_test_inputs-Gives e = of_test e
