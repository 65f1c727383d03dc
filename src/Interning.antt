-- ===== src/Interning.antt =====
-- The store of expr/ExprBuilder.cpp that keeps one live object for each expression, and the `eq` of the
-- classes of expr/Expr.cpp, by which it finds them.
pub mod Alike
pub mod Store
pub mod Canonical
pub mod Interned
pub mod Vectors
use naaz.Base.{ℕ, ◌+◌, ◌==◌, Bool, true, false, not, ◌&&◌, if◌then◌else◌, List, [], ◌∷◌, ◌++◌}
use naaz.Base.{Option, none, some, Outcome, ok, exit_fail, ◌>>=◌}
use naaz.Platform.{Platform}
use naaz.BvConst.{BvConst}
use naaz.BvConst.Compare
use naaz.Expr.{BvExpr, BoolExpr, BvList, BoolList, size, total_size, first_size, same, same_bool}

-- `m_children.size()`
abbrev pub count : BvList → ℕ
count BvList.nil = 0
count (BvList.cons e els) = 1 + count els

abbrev pub count_tests : BoolList → ℕ
count_tests BoolList.end = 0
count_tests (BoolList.item e els) = 1 + count_tests els

-- the loop over two vectors of one length
abbrev pub same_elements : BvList → BvList → Bool
same_elements BvList.nil ys = true
same_elements (BvList.cons x xs) BvList.nil = false
same_elements (BvList.cons x xs) (BvList.cons y ys) = same x y && same_elements xs ys

abbrev pub same_tests : BoolList → BoolList → Bool
same_tests BoolList.end ys = true
same_tests (BoolList.item x xs) BoolList.end = false
same_tests (BoolList.item x xs) (BoolList.item y ys) = same_bool x y && same_tests xs ys

abbrev pub same_children : BvList → BvList → Bool
same_children xs ys = if count xs == count ys then same_elements xs ys else false

abbrev pub same_exprs : BoolList → BoolList → Bool
same_exprs xs ys = if count_tests xs == count_tests ys then same_tests xs ys else false

-- `eq` of each class: an object of another kind is never equal. `AShrExpr::ekind` is `LSHR`,
-- `SRemExpr::ekind` is `SDIV` and `URemExpr::ekind` is `UDIV`, so these classes take the objects of
-- the other class for their own, whose fields are laid out alike.
unfoldable pub eq_sym : ℕ → ℕ → BvExpr → Bool
eq_sym id n (BvExpr.sym id' n') = id == id'
eq_sym id n other = false

unfoldable pub eq_ite : BoolExpr → BvExpr → BvExpr → BvExpr → Bool
eq_ite g t e (BvExpr.ite g' t' e') =
    size t == size t' && (same_bool g g' && (same t t' && same e e'))
eq_ite g t e other = false

unfoldable pub eq_extract : BvExpr → ℕ → ℕ → BvExpr → Bool
eq_extract e high low (BvExpr.extract e' high' low') = high == high' && (low == low' && same e e')
eq_extract e high low other = false

unfoldable pub eq_concat : BvList → BvExpr → Bool
eq_concat els (BvExpr.concat els') = total_size els == total_size els' && same_children els els'
eq_concat els other = false

unfoldable pub eq_zext : BvExpr → ℕ → BvExpr → Bool
eq_zext e n (BvExpr.zext e' n') = n == n' && same e e'
eq_zext e n other = false

unfoldable pub eq_sext : BvExpr → ℕ → BvExpr → Bool
eq_sext e n (BvExpr.sext e' n') = n == n' && same e e'
eq_sext e n other = false

unfoldable pub eq_neg : BvExpr → BvExpr → Bool
eq_neg e (BvExpr.neg e') = size e == size e' && same e e'
eq_neg e other = false

unfoldable pub eq_not : BvExpr → BvExpr → Bool
eq_not e (BvExpr.not e') = size e == size e' && same e e'
eq_not e other = false

unfoldable pub eq_shl : BvExpr → BvExpr → BvExpr → Bool
eq_shl e v (BvExpr.shl e' v') = size e == size e' && (same e e' && same v v')
eq_shl e v other = false

unfoldable pub eq_lshr : BvExpr → BvExpr → BvExpr → Bool
eq_lshr e v (BvExpr.lshr e' v') = size e == size e' && (same e e' && same v v')
eq_lshr e v (BvExpr.ashr e' v') = size e == size e' && (same e e' && same v v')
eq_lshr e v other = false

unfoldable pub eq_ashr : BvExpr → BvExpr → BvExpr → Bool
eq_ashr e v (BvExpr.ashr e' v') = size e == size e' && (same e e' && same v v')
eq_ashr e v (BvExpr.lshr e' v') = size e == size e' && (same e e' && same v v')
eq_ashr e v other = false

unfoldable pub eq_add : BvList → BvExpr → Bool
eq_add els (BvExpr.add els') = first_size els == first_size els' && same_children els els'
eq_add els other = false

unfoldable pub eq_mul : BvList → BvExpr → Bool
eq_mul els (BvExpr.mul els') = first_size els == first_size els' && same_children els els'
eq_mul els other = false

unfoldable pub eq_sdiv : BvExpr → BvExpr → ℕ → BvExpr → Bool
eq_sdiv l r m_size (BvExpr.sdiv l' r' m_size') = m_size == m_size' && (same l l' && same r r')
eq_sdiv l r m_size (BvExpr.srem l' r' m_size') = m_size == m_size' && (same l l' && same r r')
eq_sdiv l r m_size other = false

unfoldable pub eq_udiv : BvExpr → BvExpr → ℕ → BvExpr → Bool
eq_udiv l r m_size (BvExpr.udiv l' r' m_size') = m_size == m_size' && (same l l' && same r r')
eq_udiv l r m_size (BvExpr.urem l' r' m_size') = m_size == m_size' && (same l l' && same r r')
eq_udiv l r m_size other = false

unfoldable pub eq_srem : BvExpr → BvExpr → ℕ → BvExpr → Bool
eq_srem l r m_size (BvExpr.srem l' r' m_size') = m_size == m_size' && (same l l' && same r r')
eq_srem l r m_size (BvExpr.sdiv l' r' m_size') = m_size == m_size' && (same l l' && same r r')
eq_srem l r m_size other = false

unfoldable pub eq_urem : BvExpr → BvExpr → ℕ → BvExpr → Bool
eq_urem l r m_size (BvExpr.urem l' r' m_size') = m_size == m_size' && (same l l' && same r r')
eq_urem l r m_size (BvExpr.udiv l' r' m_size') = m_size == m_size' && (same l l' && same r r')
eq_urem l r m_size other = false

unfoldable pub eq_and : BvList → BvExpr → Bool
eq_and els (BvExpr.and els') = first_size els == first_size els' && same_children els els'
eq_and els other = false

unfoldable pub eq_or : BvList → BvExpr → Bool
eq_or els (BvExpr.or els') = first_size els == first_size els' && same_children els els'
eq_or els other = false

unfoldable pub eq_xor : BvList → BvExpr → Bool
eq_xor els (BvExpr.xor els') = first_size els == first_size els' && same_children els els'
eq_xor els other = false

-- `clone` makes an object of the same fields; the constructors of these four classes leave `m_size` at
-- what the new memory holds.
unfoldable pub clone : ℕ → BvExpr → BvExpr
clone junk (BvExpr.sdiv l r m_size) = BvExpr.sdiv l r junk
clone junk (BvExpr.udiv l r m_size) = BvExpr.udiv l r junk
clone junk (BvExpr.srem l r m_size) = BvExpr.srem l r junk
clone junk (BvExpr.urem l r m_size) = BvExpr.urem l r junk
clone junk e = e

unfoldable pub eq_const : ⦃p : Platform⦄ → BvConst → BvExpr → Outcome Bool
eq_const c (BvExpr.const c') = if c.size == c'.size then Compare.eq c c' else ok false
eq_const c other = ok false

-- `e.eq(other)`: the method of the class of the first expression
unfoldable pub eq : ⦃p : Platform⦄ → BvExpr → BvExpr → Outcome Bool
eq (BvExpr.const c) other = eq_const c other
eq (BvExpr.sym id n) other = ok (eq_sym id n other)
eq (BvExpr.ite g t e) other = ok (eq_ite g t e other)
eq (BvExpr.extract e high low) other = ok (eq_extract e high low other)
eq (BvExpr.concat els) other = ok (eq_concat els other)
eq (BvExpr.zext e n) other = ok (eq_zext e n other)
eq (BvExpr.sext e n) other = ok (eq_sext e n other)
eq (BvExpr.neg e) other = ok (eq_neg e other)
eq (BvExpr.not e) other = ok (eq_not e other)
eq (BvExpr.shl e v) other = ok (eq_shl e v other)
eq (BvExpr.lshr e v) other = ok (eq_lshr e v other)
eq (BvExpr.ashr e v) other = ok (eq_ashr e v other)
eq (BvExpr.add els) other = ok (eq_add els other)
eq (BvExpr.mul els) other = ok (eq_mul els other)
eq (BvExpr.sdiv l r m_size) other = ok (eq_sdiv l r m_size other)
eq (BvExpr.udiv l r m_size) other = ok (eq_udiv l r m_size other)
eq (BvExpr.srem l r m_size) other = ok (eq_srem l r m_size other)
eq (BvExpr.urem l r m_size) other = ok (eq_urem l r m_size other)
eq (BvExpr.and els) other = ok (eq_and els other)
eq (BvExpr.or els) other = ok (eq_or els other)
eq (BvExpr.xor els) other = ok (eq_xor els other)

abbrev pub equal_values : Bool → Bool → Bool
equal_values true b = b
equal_values false b = not b

unfoldable pub eq_bool_const : Bool → BoolExpr → Bool
eq_bool_const b (BoolExpr.bool_const b') = equal_values b b'
eq_bool_const b other = false

unfoldable pub eq_bool_not : BoolExpr → BoolExpr → Bool
eq_bool_not e (BoolExpr.bool_not e') = same_bool e e'
eq_bool_not e other = false

unfoldable pub eq_bool_and : BoolList → BoolExpr → Bool
eq_bool_and els (BoolExpr.bool_and els') = same_exprs els els'
eq_bool_and els other = false

unfoldable pub eq_bool_or : BoolList → BoolExpr → Bool
eq_bool_or els (BoolExpr.bool_or els') = same_exprs els els'
eq_bool_or els other = false

-- The comparisons are the classes of one macro.
unfoldable pub eq_test : BoolExpr → BoolExpr → Bool
eq_test (BoolExpr.bool_const b) other = eq_bool_const b other
eq_test (BoolExpr.bool_not e) other = eq_bool_not e other
eq_test (BoolExpr.bool_and els) other = eq_bool_and els other
eq_test (BoolExpr.bool_or els) other = eq_bool_or els other
eq_test (BoolExpr.ult l r) (BoolExpr.ult l' r') = same l l' && same r r'
eq_test (BoolExpr.ule l r) (BoolExpr.ule l' r') = same l l' && same r r'
eq_test (BoolExpr.ugt l r) (BoolExpr.ugt l' r') = same l l' && same r r'
eq_test (BoolExpr.uge l r) (BoolExpr.uge l' r') = same l l' && same r r'
eq_test (BoolExpr.slt l r) (BoolExpr.slt l' r') = same l l' && same r r'
eq_test (BoolExpr.sle l r) (BoolExpr.sle l' r') = same l l' && same r r'
eq_test (BoolExpr.sgt l r) (BoolExpr.sgt l' r') = same l l' && same r r'
eq_test (BoolExpr.sge l r) (BoolExpr.sge l' r') = same l l' && same r r'
eq_test (BoolExpr.eq l r) (BoolExpr.eq l' r') = same l l' && same r r'
eq_test e other = false
