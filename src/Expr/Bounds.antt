-- ===== src/Expr/Bounds.antt =====
-- The widths of the expressions of expr/Expr.hpp and the bounds they put on values.
use native.Mathlib.Nat.{div-le_self}
use naaz.Base.{ℕ, ◌+◌, ◌-◌, ◌*◌, ◌/◌, ◌^◌, ◌<◌, ◌≤◌, sym, subst, arith}
use naaz.Base.{inl, inr}
use naaz.Base.{ltb, Bool-cases}
use naaz.Base.Pow.{pow-pos, pow-add, pow_mono, mod-pow-lt}
use naaz.Base.Bits.{bit_and-lt, bit_or-lt, bit_xor-lt}
use naaz.BvConst.Represents.{mod_ℤ-lt}
use naaz.BvConst.Signed.{sign_extended}
use naaz.Expr.{BvExpr, BvList, size, total_size, first_size}
use naaz.Expr.Meaning.{
  Assignment, meaning, holds, joined, conjunction, disjunction, parity, sum, product,
}
use naaz.Expr.Meaning.{WellSized, AnyWidth, OfWidth}

joined-fits : (a w u b : ℕ) → a < 2 ^ w → b < 2 ^ u → a * 2 ^ u + b < 2 ^ (w + u)
joined-fits a w u b h k = rw (pow-add w u) (grind arith)

extended-fits : (w n v : ℕ) → w ≤ n → v < 2 ^ w → sign_extended w n v < 2 ^ n
extended-fits w n v h k = elim (Bool-cases (ltb v (2 ^ (w - 1)))) [
  | inl low ↦ rw low (omega (arith, pow_mono w n h))
  | inr high ↦ rw high (omega (arith, pow_mono w n h))
]

-- Every well-sized expression has at least one digit.
pub size-pos : (e : BvExpr) → WellSized e → 0 < size e
unfolding WellSized size
size-pos (BvExpr.sym id n) h = h
size-pos (BvExpr.const c) h = h.positive
size-pos (BvExpr.ite g t e) h = size-pos t h.1
size-pos (BvExpr.extract e high low) h = omega arith
size-pos (BvExpr.concat els) h = h.1
size-pos (BvExpr.zext e n) h = omega (arith, size-pos e h.0, h.1)
size-pos (BvExpr.sext e n) h = omega (arith, size-pos e h.0, h.1)
size-pos (BvExpr.shl e v) h = size-pos e h.0
size-pos (BvExpr.lshr e v) h = size-pos e h.0
size-pos (BvExpr.ashr e v) h = size-pos e h.0
size-pos (BvExpr.sdiv l r m_size) h = absurd h
size-pos (BvExpr.udiv l r m_size) h = absurd h
size-pos (BvExpr.srem l r m_size) h = absurd h
size-pos (BvExpr.urem l r m_size) h = absurd h
size-pos (BvExpr.neg e) h = size-pos e h
size-pos (BvExpr.not e) h = size-pos e h
size-pos (BvExpr.and els) h = h.1
size-pos (BvExpr.or els) h = h.1
size-pos (BvExpr.xor els) h = h.1
size-pos (BvExpr.add els) h = h.1
size-pos (BvExpr.mul els) h = h.1

mutual
  unfolding meaning WellSized size

  fits : (env : Assignment) (e : BvExpr) → WellSized e → meaning env e < 2 ^ size e
  fits env (BvExpr.sym id n) h = mod-pow-lt (env id) n
  fits env (BvExpr.const c) h = h.fits
  fits env (BvExpr.ite g t e) h = elim (Bool-cases (holds env g)) [
    | inl b ↦ rw b (fits env t h.1)
    | inr b ↦ rw b (subst (λ w. meaning env e < 2 ^ w) (sym h.3) (fits env e h.2))
  ]
  fits env (BvExpr.extract e high low) h = mod-pow-lt (meaning env e / 2 ^ low) (high - low + 1)
  fits env (BvExpr.concat els) h = joined-lt env els h.0
  fits env (BvExpr.zext e n) h = omega (arith, fits env e h.0, pow_mono (size e) n h.1)
  fits env (BvExpr.sext e n) h = extended-fits (size e) n (meaning env e) h.1 (fits env e h.0)
  fits env (BvExpr.shl e v) h = mod-pow-lt (meaning env e * 2 ^ meaning env v) (size e)
  fits env (BvExpr.lshr e v) h =
      omega (arith, fits env e h.0, div-le_self (meaning env e) (2 ^ meaning env v))
  fits env (BvExpr.ashr e v) h = mod_ℤ-lt _ (size e)
  fits env (BvExpr.sdiv l r m_size) h = absurd h
  fits env (BvExpr.udiv l r m_size) h = absurd h
  fits env (BvExpr.srem l r m_size) h = absurd h
  fits env (BvExpr.urem l r m_size) h = absurd h
  fits env (BvExpr.neg e) h = mod-pow-lt (2 ^ size e - meaning env e) (size e)
  fits env (BvExpr.not e) h = omega (arith, pow-pos (size e))
  fits env (BvExpr.and els) h = conjunction-lt env (first_size els) els h.0
  fits env (BvExpr.or els) h = disjunction-lt env (first_size els) els h.0
  fits env (BvExpr.xor els) h = parity-lt env (first_size els) els h.0
  fits env (BvExpr.add els) h = mod-pow-lt (sum env els) (first_size els)
  fits env (BvExpr.mul els) h = mod-pow-lt (product env els) (first_size els)

  joined-lt : (env : Assignment) (els : BvList) → AnyWidth els → joined env els < 2 ^ total_size els
  joined-lt env BvList.nil h = omega arith
  joined-lt env (BvList.cons e els) h =
      joined-fits (meaning env e) (size e) (total_size els) (joined env els) (fits env e h.0)
        (joined-lt env els h.1)

  conjunction-lt :
      (env : Assignment) (w : ℕ) (els : BvList) → OfWidth w els → conjunction env w els < 2 ^ w
  conjunction-lt env w BvList.nil h = omega (arith, pow-pos w)
  conjunction-lt env w (BvList.cons e els) h =
      bit_and-lt w (meaning env e) (conjunction env w els)
        (subst (λ n. meaning env e < 2 ^ n) h.1 (fits env e h.0))

  disjunction-lt :
      (env : Assignment) (w : ℕ) (els : BvList) → OfWidth w els → disjunction env els < 2 ^ w
  disjunction-lt env w BvList.nil h = pow-pos w
  disjunction-lt env w (BvList.cons e els) h =
      bit_or-lt w (meaning env e) (disjunction env els)
        (subst (λ n. meaning env e < 2 ^ n) h.1 (fits env e h.0)) (disjunction-lt env w els h.2)

  parity-lt : (env : Assignment) (w : ℕ) (els : BvList) → OfWidth w els → parity env els < 2 ^ w
  parity-lt env w BvList.nil h = pow-pos w
  parity-lt env w (BvList.cons e els) h =
      bit_xor-lt w (meaning env e) (parity env els)
        (subst (λ n. meaning env e < 2 ^ n) h.1 (fits env e h.0)) (parity-lt env w els h.2)

-- The value of a well-sized expression is, under every assignment of the symbols, below 2 ^ size.
pub meaning-lt : (env : Assignment) (e : BvExpr) → WellSized e → meaning env e < 2 ^ size e
meaning-lt env e h = fits env e h
