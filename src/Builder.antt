-- ===== src/Builder.antt =====
-- expr/ExprBuilder.cpp: the constructors of expressions, which simplify as they build. A result
-- stands for the canonical object that `get_or_create` returns for it.
pub mod Nary
pub mod Relational
pub mod Division
pub mod Fold
pub mod Propagation
pub mod Children
pub mod Products
pub mod Loops
pub mod Nodes
pub mod Masks
pub mod Toggles
pub mod Widths
pub mod Junctions
pub mod Comparisons
use naaz.Base.{ℕ, zero, suc, ◌+◌, ◌-◌, ◌*◌, ◌<◌, Bool, true, false, ◌&&◌, ◌||◌, ltb, leb, ◌==◌}
use naaz.Base.{if◌then◌else◌, List, [], ◌∷◌, ◌++◌, ℤ, pos, negsuc}
use naaz.Base.{Outcome, ok, exit_fail, undefined, ◌>>=◌, ◌>>◌, require, assuming}
use naaz.Platform.{Platform}
use naaz.BvConst.{BvConst, of_u64, of_number, copy}
use naaz.BvConst.Arith
use naaz.BvConst.Resize
use naaz.BvConst.Shift
use naaz.BvConst.Compare
use naaz.Expr.{BvExpr, BoolExpr, BvList, BoolList, size, same}

module _ ⦃p : Platform⦄ where
  -- `mk_const (const BVConst& val)`
  unfoldable pub mk_const : BvConst → BvExpr
  mk_const val = BvExpr.const (copy val)

  -- `mk_const (uint64_t val, size_t size)`
  unfoldable pub mk_number : ℕ → ℕ → Outcome BvExpr
  mk_number val n = do c ← of_u64 val n; ok (mk_const c)

unfoldable pub check_size_or_fail : BvExpr → BvExpr → Outcome (Unit {0})
check_size_or_fail lhs rhs = require (size lhs == size rhs)

module _ ⦃p : Platform⦄ where
  -- what is left of `mk_zext` once the width grows
  unfoldable pub zero_extend : BvExpr → ℕ → Outcome BvExpr
  zero_extend (BvExpr.zext e m) n = ok (BvExpr.zext e n)
  zero_extend (BvExpr.const c) n = do tmp ← Resize.zext (copy c) n; ok (mk_const tmp)
  zero_extend e n = ok (BvExpr.zext e n)

  unfoldable pub mk_zext : BvExpr → ℕ → Outcome BvExpr
  mk_zext e n = do require (leb (size e) n); if n == size e then ok e else zero_extend e n

  unfoldable pub sign_extend : BvExpr → ℕ → Outcome BvExpr
  sign_extend (BvExpr.sext e m) n = ok (BvExpr.sext e n)
  sign_extend (BvExpr.const c) n = do tmp ← Resize.sext (copy c) n; ok (mk_const tmp)
  sign_extend e n = ok (BvExpr.sext e n)

  unfoldable pub mk_sext : BvExpr → ℕ → Outcome BvExpr
  mk_sext e n = do require (leb (size e) n); if n == size e then ok e else sign_extend e n

-- the choice of `mk_ite` on its guard
unfoldable pub choose : BoolExpr → BvExpr → BvExpr → BvExpr
choose (BoolExpr.bool_const b) iftrue iffalse = if b then iftrue else iffalse
choose guard iftrue iffalse = BvExpr.ite guard iftrue iffalse

unfoldable pub mk_ite : BoolExpr → BvExpr → BvExpr → Outcome BvExpr
mk_ite guard iftrue iffalse = do check_size_or_fail iftrue iffalse; ok (choose guard iftrue iffalse)

module _ ⦃p : Platform⦄ where
  unfoldable pub mk_neg : BvExpr → Outcome BvExpr
  mk_neg (BvExpr.const c) = do tmp ← Arith.neg (copy c); ok (mk_const tmp)
  mk_neg e = ok (BvExpr.neg e)

  unfoldable pub mk_not : BvExpr → Outcome BvExpr
  mk_not (BvExpr.const c) = do tmp ← Arith.bit_not (copy c); ok (mk_const tmp)
  mk_not e = ok (BvExpr.not e)
