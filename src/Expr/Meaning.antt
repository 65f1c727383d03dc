-- ===== src/Expr/Meaning.antt =====
-- What an expression means under an assignment of its symbols: the SMT-LIB theory of bit vectors, to
-- which solver/Z3Solver.cpp translates expressions. A vector of width w is a number below 2 ^ w.
use naaz.Base.{ℕ, ◌+◌, ◌-◌, ◌*◌, ◌/◌, ◌%◌, ◌^◌, ◌<◌, ◌≤◌, ◌≡◌, bit_and, bit_or, bit_xor}
use naaz.Base.{Bool, true, false, not, ◌&&◌, ◌||◌, ltb, leb, ◌==◌, if◌then◌else◌}
use naaz.Base.{mod_ℤ, tdiv, trem, ltb_ℤ, pos_part}
use naaz.BvConst.{BvConst}
use naaz.BvConst.Word.{shr_ℤ}
use naaz.BvConst.Represents.{Represents}
use naaz.BvConst.Signed.{to_signed, sign_extended}
use naaz.Expr.{BvExpr, BoolExpr, BvList, BoolList, size, total_size, first_size}

-- The assignment of the symbols by their ids.
abbrev pub Assignment : Type 0
Assignment = ℕ → ℕ

abbrev pub const_value : BvConst → ℕ
const_value c = if leb c.size 64 then c.small_val else pos_part c.big_val

abbrev pub udiv_value : ℕ → ℕ → ℕ → ℕ
udiv_value w a b = if b == 0 then 2 ^ w - 1 else a / b

abbrev pub urem_value : ℕ → ℕ → ℕ
urem_value a b = if b == 0 then a else a % b

abbrev pub sdiv_value : ℕ → ℕ → ℕ → ℕ
sdiv_value w a b =
    if b == 0
    then (if ltb a (2 ^ (w - 1)) then 2 ^ w - 1 else 1)
    else mod_ℤ (tdiv (to_signed w a) (to_signed w b)) (2 ^ w)

abbrev pub srem_value : ℕ → ℕ → ℕ → ℕ
srem_value w a b = if b == 0 then a else mod_ℤ (trem (to_signed w a) (to_signed w b)) (2 ^ w)

unfoldable mutual
  pub meaning : Assignment → BvExpr → ℕ
  meaning env (BvExpr.sym id n) = env id % 2 ^ n
  meaning env (BvExpr.const c) = const_value c
  meaning env (BvExpr.ite g t e) = if holds env g then meaning env t else meaning env e
  meaning env (BvExpr.extract e high low) = meaning env e / 2 ^ low % 2 ^ (high - low + 1)
  meaning env (BvExpr.concat els) = joined env els
  meaning env (BvExpr.zext e n) = meaning env e
  meaning env (BvExpr.sext e n) = sign_extended (size e) n (meaning env e)
  meaning env (BvExpr.shl e v) = meaning env e * 2 ^ meaning env v % 2 ^ size e
  meaning env (BvExpr.lshr e v) = meaning env e / 2 ^ meaning env v
  meaning env (BvExpr.ashr e v) =
      mod_ℤ (shr_ℤ (to_signed (size e) (meaning env e)) (meaning env v)) (2 ^ size e)
  meaning env (BvExpr.sdiv l r m_size) = sdiv_value (size l) (meaning env l) (meaning env r)
  meaning env (BvExpr.udiv l r m_size) = udiv_value (size l) (meaning env l) (meaning env r)
  meaning env (BvExpr.srem l r m_size) = srem_value (size l) (meaning env l) (meaning env r)
  meaning env (BvExpr.urem l r m_size) = urem_value (meaning env l) (meaning env r)
  meaning env (BvExpr.neg e) = (2 ^ size e - meaning env e) % 2 ^ size e
  meaning env (BvExpr.not e) = 2 ^ size e - 1 - meaning env e
  meaning env (BvExpr.and els) = conjunction env (first_size els) els
  meaning env (BvExpr.or els) = disjunction env els
  meaning env (BvExpr.xor els) = parity env els
  meaning env (BvExpr.add els) = sum env els % 2 ^ first_size els
  meaning env (BvExpr.mul els) = product env els % 2 ^ first_size els

  pub holds : Assignment → BoolExpr → Bool
  holds env (BoolExpr.bool_const b) = b
  holds env (BoolExpr.bool_not e) = not (holds env e)
  holds env (BoolExpr.ult l r) = ltb (meaning env l) (meaning env r)
  holds env (BoolExpr.ule l r) = leb (meaning env l) (meaning env r)
  holds env (BoolExpr.ugt l r) = ltb (meaning env r) (meaning env l)
  holds env (BoolExpr.uge l r) = leb (meaning env r) (meaning env l)
  holds env (BoolExpr.slt l r) =
      ltb_ℤ (to_signed (size l) (meaning env l)) (to_signed (size l) (meaning env r))
  holds env (BoolExpr.sle l r) =
      not (ltb_ℤ (to_signed (size l) (meaning env r)) (to_signed (size l) (meaning env l)))
  holds env (BoolExpr.sgt l r) =
      ltb_ℤ (to_signed (size l) (meaning env r)) (to_signed (size l) (meaning env l))
  holds env (BoolExpr.sge l r) =
      not (ltb_ℤ (to_signed (size l) (meaning env l)) (to_signed (size l) (meaning env r)))
  holds env (BoolExpr.eq l r) = meaning env l == meaning env r
  holds env (BoolExpr.bool_and els) = all_hold env els
  holds env (BoolExpr.bool_or els) = some_holds env els

  pub joined : Assignment → BvList → ℕ
  joined env BvList.nil = 0
  joined env (BvList.cons e els) = meaning env e * 2 ^ total_size els + joined env els

  pub conjunction : Assignment → ℕ → BvList → ℕ
  conjunction env w BvList.nil = 2 ^ w - 1
  conjunction env w (BvList.cons e els) = bit_and (meaning env e) (conjunction env w els)

  pub disjunction : Assignment → BvList → ℕ
  disjunction env BvList.nil = 0
  disjunction env (BvList.cons e els) = bit_or (meaning env e) (disjunction env els)

  pub parity : Assignment → BvList → ℕ
  parity env BvList.nil = 0
  parity env (BvList.cons e els) = bit_xor (meaning env e) (parity env els)

  pub sum : Assignment → BvList → ℕ
  sum env BvList.nil = 0
  sum env (BvList.cons e els) = meaning env e + sum env els

  pub product : Assignment → BvList → ℕ
  product env BvList.nil = 1
  product env (BvList.cons e els) = meaning env e * product env els

  pub all_hold : Assignment → BoolList → Bool
  all_hold env BoolList.end = true
  all_hold env (BoolList.item e els) = holds env e && all_hold env els

  pub some_holds : Assignment → BoolList → Bool
  some_holds env BoolList.end = false
  some_holds env (BoolList.item e els) = holds env e || some_holds env els

-- Widths agree as Z3 requires, each constant is a value of its width, and there is no node of the four
-- classes of division and remainder, whose own width is not set.
abbrev pub IsConst : BvConst → Type 0
IsConst c = Represents c.size (const_value c) c

unfoldable mutual
  pub WellSized : BvExpr → Type 0
  WellSized (BvExpr.sym id n) = 0 < n
  WellSized (BvExpr.const c) = IsConst c
  WellSized (BvExpr.ite g t e) = WellSizedTest g × WellSized t × WellSized e × (size t ≡ size e)
  WellSized (BvExpr.extract e high low) = WellSized e × (low ≤ high) × (high < size e)
  WellSized (BvExpr.concat els) = AnyWidth els × (0 < total_size els)
  WellSized (BvExpr.zext e n) = WellSized e × (size e ≤ n)
  WellSized (BvExpr.sext e n) = WellSized e × (size e ≤ n)
  WellSized (BvExpr.shl e v) = WellSized e × WellSized v × (size e ≡ size v)
  WellSized (BvExpr.lshr e v) = WellSized e × WellSized v × (size e ≡ size v)
  WellSized (BvExpr.ashr e v) = WellSized e × WellSized v × (size e ≡ size v)
  WellSized (BvExpr.sdiv l r m_size) = ⊥
  WellSized (BvExpr.udiv l r m_size) = ⊥
  WellSized (BvExpr.srem l r m_size) = ⊥
  WellSized (BvExpr.urem l r m_size) = ⊥
  WellSized (BvExpr.neg e) = WellSized e
  WellSized (BvExpr.not e) = WellSized e
  WellSized (BvExpr.and els) = OfWidth (first_size els) els × (0 < first_size els)
  WellSized (BvExpr.or els) = OfWidth (first_size els) els × (0 < first_size els)
  WellSized (BvExpr.xor els) = OfWidth (first_size els) els × (0 < first_size els)
  WellSized (BvExpr.add els) = OfWidth (first_size els) els × (0 < first_size els)
  WellSized (BvExpr.mul els) = OfWidth (first_size els) els × (0 < first_size els)

  pub WellSizedTest : BoolExpr → Type 0
  WellSizedTest (BoolExpr.bool_const b) = Unit
  WellSizedTest (BoolExpr.bool_not e) = WellSizedTest e
  WellSizedTest (BoolExpr.ult l r) = WellSized l × WellSized r × (size l ≡ size r)
  WellSizedTest (BoolExpr.ule l r) = WellSized l × WellSized r × (size l ≡ size r)
  WellSizedTest (BoolExpr.ugt l r) = WellSized l × WellSized r × (size l ≡ size r)
  WellSizedTest (BoolExpr.uge l r) = WellSized l × WellSized r × (size l ≡ size r)
  WellSizedTest (BoolExpr.slt l r) = WellSized l × WellSized r × (size l ≡ size r)
  WellSizedTest (BoolExpr.sle l r) = WellSized l × WellSized r × (size l ≡ size r)
  WellSizedTest (BoolExpr.sgt l r) = WellSized l × WellSized r × (size l ≡ size r)
  WellSizedTest (BoolExpr.sge l r) = WellSized l × WellSized r × (size l ≡ size r)
  WellSizedTest (BoolExpr.eq l r) = WellSized l × WellSized r × (size l ≡ size r)
  WellSizedTest (BoolExpr.bool_and els) = AllWellSized els
  WellSizedTest (BoolExpr.bool_or els) = AllWellSized els

  pub AnyWidth : BvList → Type 0
  AnyWidth BvList.nil = Unit
  AnyWidth (BvList.cons e els) = WellSized e × AnyWidth els

  pub OfWidth : ℕ → BvList → Type 0
  OfWidth w BvList.nil = Unit
  OfWidth w (BvList.cons e els) = WellSized e × (size e ≡ w) × OfWidth w els

  pub AllWellSized : BoolList → Type 0
  AllWellSized BoolList.end = Unit
  AllWellSized (BoolList.item e els) = WellSizedTest e × AllWellSized els
