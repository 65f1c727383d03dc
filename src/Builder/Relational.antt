-- ===== src/Builder/Relational.antt =====
-- The comparisons and the Boolean operations of expr/ExprBuilder.cpp.
use naaz.Base.{ℕ, Bool, true, false, ltb}
use naaz.Base.{if◌then◌else◌, List, [], ◌∷◌, ◌++◌}
use naaz.Base.{Outcome, ok, ◌>>=◌, ◌>>◌}
use mathlib.Core.Bool.{not}
use mathlib.Core.Option
use mathlib.Core.Option.{Option, none, some}
use naaz.Platform.{Platform}
use naaz.BvConst.Compare
use naaz.Expr.{BvExpr, BoolExpr, BoolList, same_bool}
use naaz.Builder.{check_size_or_fail}

unfoldable pub mk_bool_not : BoolExpr → BoolExpr
mk_bool_not (BoolExpr.bool_const true) = BoolExpr.bool_const false
mk_bool_not (BoolExpr.bool_const false) = BoolExpr.bool_const true
mk_bool_not (BoolExpr.bool_not e) = e
mk_bool_not e = BoolExpr.bool_not e

module _ ⦃p : Platform⦄ where
  unfoldable pub fold_ult : BvExpr → BvExpr → Outcome BoolExpr
  fold_ult (BvExpr.const l) (BvExpr.const r) = do b ← Compare.ult l r; ok (BoolExpr.bool_const b)
  fold_ult lhs rhs = ok (BoolExpr.ult lhs rhs)

  unfoldable pub mk_ult : BvExpr → BvExpr → Outcome BoolExpr
  unfolding fold_ult
  mk_ult lhs rhs = do check_size_or_fail lhs rhs; fold_ult lhs rhs

module _ ⦃p : Platform⦄ where
  unfoldable pub fold_ule : BvExpr → BvExpr → Outcome BoolExpr
  fold_ule (BvExpr.const l) (BvExpr.const r) = do b ← Compare.ule l r; ok (BoolExpr.bool_const b)
  fold_ule lhs rhs = ok (BoolExpr.ule lhs rhs)

  unfoldable pub mk_ule : BvExpr → BvExpr → Outcome BoolExpr
  unfolding fold_ule
  mk_ule lhs rhs = do check_size_or_fail lhs rhs; fold_ule lhs rhs

module _ ⦃p : Platform⦄ where
  unfoldable pub fold_ugt : BvExpr → BvExpr → Outcome BoolExpr
  fold_ugt (BvExpr.const l) (BvExpr.const r) = do b ← Compare.ugt l r; ok (BoolExpr.bool_const b)
  fold_ugt lhs rhs = ok (BoolExpr.ugt lhs rhs)

  unfoldable pub mk_ugt : BvExpr → BvExpr → Outcome BoolExpr
  unfolding fold_ugt
  mk_ugt lhs rhs = do check_size_or_fail lhs rhs; fold_ugt lhs rhs

module _ ⦃p : Platform⦄ where
  unfoldable pub fold_uge : BvExpr → BvExpr → Outcome BoolExpr
  fold_uge (BvExpr.const l) (BvExpr.const r) = do b ← Compare.uge l r; ok (BoolExpr.bool_const b)
  fold_uge lhs rhs = ok (BoolExpr.uge lhs rhs)

  unfoldable pub mk_uge : BvExpr → BvExpr → Outcome BoolExpr
  unfolding fold_uge
  mk_uge lhs rhs = do check_size_or_fail lhs rhs; fold_uge lhs rhs

module _ ⦃p : Platform⦄ where
  unfoldable pub fold_slt : BvExpr → BvExpr → Outcome BoolExpr
  fold_slt (BvExpr.const l) (BvExpr.const r) = do b ← Compare.slt l r; ok (BoolExpr.bool_const b)
  fold_slt lhs rhs = ok (BoolExpr.slt lhs rhs)

  unfoldable pub mk_slt : BvExpr → BvExpr → Outcome BoolExpr
  unfolding fold_slt
  mk_slt lhs rhs = do check_size_or_fail lhs rhs; fold_slt lhs rhs

module _ ⦃p : Platform⦄ where
  unfoldable pub fold_sle : BvExpr → BvExpr → Outcome BoolExpr
  fold_sle (BvExpr.const l) (BvExpr.const r) = do b ← Compare.sle l r; ok (BoolExpr.bool_const b)
  fold_sle lhs rhs = ok (BoolExpr.sle lhs rhs)

  unfoldable pub mk_sle : BvExpr → BvExpr → Outcome BoolExpr
  unfolding fold_sle
  mk_sle lhs rhs = do check_size_or_fail lhs rhs; fold_sle lhs rhs

module _ ⦃p : Platform⦄ where
  unfoldable pub fold_sgt : BvExpr → BvExpr → Outcome BoolExpr
  fold_sgt (BvExpr.const l) (BvExpr.const r) = do b ← Compare.sgt l r; ok (BoolExpr.bool_const b)
  fold_sgt lhs rhs = ok (BoolExpr.sgt lhs rhs)

  unfoldable pub mk_sgt : BvExpr → BvExpr → Outcome BoolExpr
  unfolding fold_sgt
  mk_sgt lhs rhs = do check_size_or_fail lhs rhs; fold_sgt lhs rhs

module _ ⦃p : Platform⦄ where
  unfoldable pub fold_sge : BvExpr → BvExpr → Outcome BoolExpr
  fold_sge (BvExpr.const l) (BvExpr.const r) = do b ← Compare.sge l r; ok (BoolExpr.bool_const b)
  fold_sge lhs rhs = ok (BoolExpr.sge lhs rhs)

  unfoldable pub mk_sge : BvExpr → BvExpr → Outcome BoolExpr
  unfolding fold_sge
  mk_sge lhs rhs = do check_size_or_fail lhs rhs; fold_sge lhs rhs

abbrev pub equal_bool : Bool → Bool → Bool
equal_bool true b = b
equal_bool false b = not b

unfoldable pub bool_elements : BoolList → List BoolExpr
bool_elements BoolList.end = []
bool_elements (BoolList.item e els) = e ∷ bool_elements els

unfoldable pub of_bool_list : List BoolExpr → BoolList
of_bool_list [] = BoolList.end
of_bool_list (e ∷ els) = BoolList.item e (of_bool_list els)

unfoldable pub flat_bool_and : BoolExpr → List BoolExpr
flat_bool_and (BoolExpr.bool_and els) = bool_elements els
flat_bool_and e = e ∷ []

unfoldable pub flat_bool_or : BoolExpr → List BoolExpr
flat_bool_or (BoolExpr.bool_or els) = bool_elements els
flat_bool_or e = e ∷ []

-- The loop of `mk_bool_and` and `mk_bool_or`: a constant equal to `stop` decides the result, any
-- other constant is dropped.
unfoldable pub drop_consts : Bool → List BoolExpr → Option (List BoolExpr)
drop_consts stop [] = some []
drop_consts stop (BoolExpr.bool_const b ∷ els) =
    let rest = drop_consts stop els in if equal_bool b stop then none else rest
drop_consts stop (e ∷ els) = Option.map (λ rest. e ∷ rest) (drop_consts stop els)

module _ (addr : BoolExpr → ℕ) where
  -- insertion into a `std::set<BoolExprPtr>`, which is ordered by address and keeps one copy
  unfoldable pub insert : BoolExpr → List BoolExpr → List BoolExpr
  insert e [] = e ∷ []
  insert e (x ∷ xs) =
      if same_bool x e
      then x ∷ xs
      else (if ltb (addr e) (addr x) then e ∷ x ∷ xs else x ∷ insert e xs)

  unfoldable pub insert_all : List BoolExpr → List BoolExpr → List BoolExpr
  insert_all [] exprs = exprs
  insert_all (e ∷ els) exprs = insert_all els (insert e exprs)

  unfoldable pub bool_place : BoolExpr → List BoolExpr → List BoolExpr
  bool_place e [] = e ∷ []
  bool_place e (x ∷ xs) = if ltb (addr e) (addr x) then e ∷ x ∷ xs else x ∷ bool_place e xs

  unfoldable pub bool_sort : List BoolExpr → List BoolExpr
  bool_sort [] = []
  bool_sort (e ∷ els) = bool_place e (bool_sort els)

  -- the final checks; `neutral` is the value of an empty operation
  unfoldable pub bool_combine : (BoolList → BoolExpr) → Bool → List BoolExpr → BoolExpr
  bool_combine node neutral [] = BoolExpr.bool_const neutral
  bool_combine node neutral (e ∷ []) = e
  bool_combine node neutral (e ∷ x ∷ xs) = node (of_bool_list (bool_sort (e ∷ x ∷ xs)))

  unfoldable pub decide_bool : (BoolList → BoolExpr) → Bool → Option (List BoolExpr) → BoolExpr
  decide_bool node neutral none = BoolExpr.bool_const (not neutral)
  decide_bool node neutral (some actual_exprs) = bool_combine node neutral actual_exprs

  unfoldable pub mk_bool_and : BoolExpr → BoolExpr → BoolExpr
  mk_bool_and e1 e2 =
      decide_bool BoolExpr.bool_and true
        (drop_consts false (insert_all (flat_bool_and e1 ++ flat_bool_and e2) []))

  unfoldable pub mk_bool_or : BoolExpr → BoolExpr → BoolExpr
  mk_bool_or e1 e2 =
      decide_bool BoolExpr.bool_or false
        (drop_consts true (insert_all (flat_bool_or e1 ++ flat_bool_or e2) []))
