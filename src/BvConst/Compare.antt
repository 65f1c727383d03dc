-- ===== src/BvConst/Compare.antt =====
-- The comparisons and tests of expr/BVConst.cpp.
use naaz.Base.{ℕ, ◌-◌, ◌^◌}
use naaz.Base.{Bool, true, not}
use naaz.Base.{pos, negsuc, ltb, ltb_ℤ, ◌==◌, magnitude}
use naaz.Base.{if◌then◌else◌}
use naaz.Base.{Outcome, ok, ◌>>=◌, ◌>>◌, require}
use naaz.Platform.{Platform}
use naaz.BvConst.{BvConst, is_big, check_size_or_die, of_u64, of_number}
use naaz.BvConst.Word.{signed64, sext_word}

-- `a || b` of two calls, the second made only where the first is false
abbrev either : Outcome Bool → Outcome Bool → Outcome Bool
either a b = do x ← a; if x then ok true else b

abbrev negate : Outcome Bool → Outcome Bool
negate a = do x ← a; ok (not x)

module _ ⦃p : Platform⦄ where
  unfoldable pub eq : BvConst → BvConst → Outcome Bool
  eq this other = do
    check_size_or_die this other
    ok (
        if is_big this
        then magnitude (p.mpz_cmp this.big_val other.big_val) == 0
        else this.small_val == other.small_val)

  unfoldable pub ult : BvConst → BvConst → Outcome Bool
  ult this other = do
    check_size_or_die this other
    ok (
        if is_big this
        then ltb_ℤ (p.mpz_cmpabs this.big_val other.big_val) (pos 0)
        else ltb this.small_val other.small_val)

  unfoldable pub ule : BvConst → BvConst → Outcome Bool
  ule this other = either (eq this other) (ult this other)

  unfoldable pub ugt : BvConst → BvConst → Outcome Bool
  ugt this other = negate (ule this other)

  unfoldable pub uge : BvConst → BvConst → Outcome Bool
  uge this other = negate (ult this other)

  unfoldable pub slt : BvConst → BvConst → Outcome Bool
  slt this other = do
    check_size_or_die this other
    let below = ltb_ℤ (p.mpz_cmpabs this.big_val other.big_val) (pos 0)
    if is_big this
        then (if not (p.mpz_tstbit this.big_val (this.size - 1) == 0)
            then (if not (p.mpz_tstbit other.big_val (this.size - 1) == 0)
                then ok below
                else ok true)
            else (if not (p.mpz_tstbit other.big_val (this.size - 1) == 0)
                then ok true
                else ok below))
        else (do
          lhs ← sext_word this.small_val this.size
          rhs ← sext_word other.small_val this.size
          ok (ltb_ℤ (signed64 lhs) (signed64 rhs)))

  unfoldable pub sle : BvConst → BvConst → Outcome Bool
  sle this other = either (eq this other) (slt this other)

  unfoldable pub sgt : BvConst → BvConst → Outcome Bool
  sgt this other = negate (sle this other)

  unfoldable pub sge : BvConst → BvConst → Outcome Bool
  sge this other = negate (slt this other)

  unfoldable pub is_zero : BvConst → Outcome Bool
  is_zero this =
      if is_big this
      then (do zero_val ← of_u64 0 this.size; eq this zero_val)
      else ok (this.small_val == 0)

  unfoldable pub is_one : BvConst → Outcome Bool
  is_one this =
      if is_big this
      then (do one_val ← of_u64 1 this.size; eq this one_val)
      else ok (this.small_val == 1)

  unfoldable pub has_all_bit_set : BvConst → Outcome Bool
  has_all_bit_set this = do ones ← of_number (negsuc 0) this.size; eq this ones

  -- `fit_in_u64`, with `ugt (BVConst ("0xffffffffffffffff", m_size))`
  unfoldable pub fit_in_u64 : BvConst → Outcome Bool
  fit_in_u64 this = do limit ← of_number (pos (2 ^ 64 - 1)) this.size; negate (ugt this limit)

  unfoldable pub as_u64 : BvConst → Outcome ℕ
  as_u64 this = do fits ← fit_in_u64 this; require fits; ok this.small_val
