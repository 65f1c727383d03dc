-- ===== src/Builder/Division.antt =====
-- Division and remainder of expr/ExprBuilder.cpp.
use naaz.Base.{ℕ, Bool, false, if◌then◌else◌, negsuc}
use naaz.Base.{Outcome, ok, ◌>>=◌, ◌>>◌}
use naaz.Platform.{Platform}
use naaz.BvConst.{BvConst, of_number, copy}
use naaz.BvConst.Arith
use naaz.BvConst.Compare
use naaz.Expr.{BvExpr, size, same}
use naaz.Builder.{mk_const, mk_number, mk_ite, check_size_or_fail}
use naaz.Builder.Relational.{mk_sge}

-- `rhs->kind() == CONST && test (rhs->val())`
abbrev const_is : (BvConst → Outcome Bool) → BvExpr → Outcome Bool
const_is test (BvExpr.const c) = test c
const_is test e = ok false

module _ ⦃p : Platform⦄ where
  -- `mk_const (BVConst ("-1", size))`
  abbrev mk_ones : ℕ → Outcome BvExpr
  mk_ones n = do c ← of_number (negsuc 0) n; ok (mk_const c)

  unfoldable pub sdiv_nonzero : BvExpr → BvExpr → Outcome BvExpr
  sdiv_nonzero (BvExpr.const l) (BvExpr.const r) = do v ← Arith.sdiv (copy l) r; ok (mk_const v)
  sdiv_nonzero lhs rhs =
      if same lhs rhs then mk_number 1 (size lhs) else ok (BvExpr.sdiv lhs rhs p.indeterminate)

  unfoldable pub mk_sdiv : BvExpr → BvExpr → Outcome BvExpr
  mk_sdiv lhs rhs = do
    check_size_or_fail lhs rhs
    by_zero ← const_is Compare.is_zero rhs
    if by_zero
        then (do
          none_set ← mk_number 0 (size lhs)
          min1 ← mk_ones (size lhs)
          positive ← mk_sge lhs none_set
          mk_ite positive min1 none_set)
        else sdiv_nonzero lhs rhs

  unfoldable pub udiv_nonzero : BvExpr → BvExpr → Outcome BvExpr
  udiv_nonzero (BvExpr.const l) (BvExpr.const r) = do v ← Arith.udiv (copy l) r; ok (mk_const v)
  udiv_nonzero lhs rhs =
      if same lhs rhs then mk_number 1 (size lhs) else ok (BvExpr.udiv lhs rhs p.indeterminate)

  unfoldable pub mk_udiv : BvExpr → BvExpr → Outcome BvExpr
  mk_udiv lhs rhs = do
    check_size_or_fail lhs rhs
    by_zero ← const_is Compare.is_zero rhs
    if by_zero then mk_ones (size lhs) else udiv_nonzero lhs rhs

  unfoldable pub srem_nonzero : BvExpr → BvExpr → Outcome BvExpr
  srem_nonzero (BvExpr.const l) (BvExpr.const r) = do v ← Arith.srem (copy l) r; ok (mk_const v)
  srem_nonzero lhs rhs = do
    by_one ← const_is Compare.is_one rhs
    ok (if by_one then lhs else BvExpr.srem lhs rhs p.indeterminate)

  unfoldable pub mk_srem : BvExpr → BvExpr → Outcome BvExpr
  mk_srem lhs rhs = do
    check_size_or_fail lhs rhs
    by_zero ← const_is Compare.is_zero rhs
    if by_zero then ok lhs else srem_nonzero lhs rhs

  unfoldable pub urem_nonzero : BvExpr → BvExpr → Outcome BvExpr
  urem_nonzero (BvExpr.const l) (BvExpr.const r) = do v ← Arith.urem (copy l) r; ok (mk_const v)
  urem_nonzero lhs rhs = do
    by_one ← const_is Compare.is_one rhs
    ok (if by_one then lhs else BvExpr.urem lhs rhs p.indeterminate)

  unfoldable pub mk_urem : BvExpr → BvExpr → Outcome BvExpr
  mk_urem lhs rhs = do
    check_size_or_fail lhs rhs
    by_zero ← const_is Compare.is_zero rhs
    if by_zero then ok lhs else urem_nonzero lhs rhs
