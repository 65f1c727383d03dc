-- ===== src/Expr.antt =====
-- expr/Expr.hpp: bit-vector and Boolean expressions, without the floating point nodes. A node is a
-- constructor with the fields of its class; a vector of children is a list type of the block.
-- `get_or_create` keeps one live object for each expression, so `==` of two pointers is equality
-- of the trees, and `same` decides it. A tree has the `m_size` of its divisions and remainders, of which
-- there may be two objects with the same fields; `same` takes these for one.
pub mod Meaning
pub mod Bounds
use native.Mathlib.Decide.{ℕ_discrete}
use mathlib.Core.Bool.{decide, false≢true}
use naaz.Base.{◌≡◌, refl, ℕ, ◌+◌, ◌-◌, Bool, true, false, if◌then◌else◌, List, [], ◌∷◌}
use naaz.BvConst.{BvConst}

mutual
  pub data BvExpr : Type 0 where
    sym : ℕ → ℕ → BvExpr
    const : BvConst → BvExpr
    ite : BoolExpr → BvExpr → BvExpr → BvExpr
    extract : BvExpr → ℕ → ℕ → BvExpr
    concat : BvList → BvExpr
    zext sext : BvExpr → ℕ → BvExpr
    shl lshr ashr : BvExpr → BvExpr → BvExpr
    -- the number is `m_size`, which no constructor of these four classes sets
    sdiv udiv srem urem : BvExpr → BvExpr → ℕ → BvExpr
    neg not : BvExpr → BvExpr
    and or xor add mul : BvList → BvExpr

  pub data BoolExpr : Type 0 where
    bool_const : Bool → BoolExpr
    bool_not : BoolExpr → BoolExpr
    ult ule ugt uge slt sle sgt sge eq : BvExpr → BvExpr → BoolExpr
    bool_and bool_or : BoolList → BoolExpr

  pub data BvList : Type 0 where
    nil : BvList
    cons : BvExpr → BvList → BvList

  pub data BoolList : Type 0 where
    end : BoolList
    item : BoolExpr → BoolList → BoolList

-- `size()` of each class, and the sum that the constructor of `ConcatExpr` takes. An operation on
-- several children takes the width of the first; a division or remainder gives the field as it is.
unfoldable mutual
  pub size : BvExpr → ℕ
  size (BvExpr.sym id n) = n
  size (BvExpr.const c) = c.size
  size (BvExpr.ite g t e) = size t
  size (BvExpr.extract e high low) = high - low + 1
  size (BvExpr.concat els) = total_size els
  size (BvExpr.zext e n) = n
  size (BvExpr.sext e n) = n
  size (BvExpr.shl e v) = size e
  size (BvExpr.lshr e v) = size e
  size (BvExpr.ashr e v) = size e
  size (BvExpr.sdiv l r m_size) = m_size
  size (BvExpr.udiv l r m_size) = m_size
  size (BvExpr.srem l r m_size) = m_size
  size (BvExpr.urem l r m_size) = m_size
  size (BvExpr.neg e) = size e
  size (BvExpr.not e) = size e
  size (BvExpr.and els) = first_size els
  size (BvExpr.or els) = first_size els
  size (BvExpr.xor els) = first_size els
  size (BvExpr.add els) = first_size els
  size (BvExpr.mul els) = first_size els

  pub total_size : BvList → ℕ
  total_size BvList.nil = 0
  total_size (BvList.cons e els) = size e + total_size els

  pub first_size : BvList → ℕ
  first_size BvList.nil = 0
  first_size (BvList.cons e els) = size e

BvExpr-discrete : Discrete BvExpr
BvExpr-discrete = hlevel ℕ_discrete

-- `a == b` of two pointers
unfoldable pub same : BvExpr → BvExpr → Bool
unfolding BvExpr-discrete ℕ_discrete
same a b = decide (BvExpr-discrete a b)

decided {ℓ} : {A : Type ℓ} (d : Dec A) → decide d ≡ true → A
unfolding decide
decided (yes a) h = a
decided (no n) h = absurd (false≢true h)

pub same→eq : (a b : BvExpr) → same a b ≡ true → a ≡ b
unfolding same
same→eq a b h = decided (BvExpr-discrete a b) h

undecided {ℓ} : {A : Type ℓ} (d : Dec A) → A → decide d ≡ true
unfolding decide
undecided (yes a) h = refl
undecided (no n) h = absurd (n h)

pub same_refl : (a : BvExpr) → same a a ≡ true
unfolding same
same_refl a = undecided (BvExpr-discrete a a) refl

BoolExpr-discrete : Discrete BoolExpr
BoolExpr-discrete = hlevel ℕ_discrete

unfoldable pub same_bool : BoolExpr → BoolExpr → Bool
unfolding BoolExpr-discrete ℕ_discrete
same_bool a b = decide (BoolExpr-discrete a b)

pub same_bool→eq : (a b : BoolExpr) → same_bool a b ≡ true → a ≡ b
unfolding same_bool
same_bool→eq a b h = decided (BoolExpr-discrete a b) h
