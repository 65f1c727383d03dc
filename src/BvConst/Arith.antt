-- ===== src/BvConst/Arith.antt =====
-- The arithmetic and bitwise operations of expr/BVConst.cpp.
use naaz.Base.{ℕ, ◌+◌, ◌-◌, ◌*◌, ◌/◌, ◌%◌, ◌^◌, bit_and, bit_or, bit_xor}
use naaz.Base.{not, ◌&&◌}
use naaz.Base.{pos, leb, ◌==◌, ◌*ℤ◌, ◌-ℤ◌, tdiv, trem, magnitude}
use naaz.Base.{if◌then◌else◌}
use naaz.Base.{Outcome, ok, ◌>>=◌, ◌>>◌, assuming}
use naaz.Platform.{Platform}
use naaz.BvConst.{BvConst, u64, is_big, check_size_or_die, adjust_bits, as_mpz}
use naaz.BvConst.Word.{signed64, pattern64, fits_s64, sext_word, mpz_as_signed}

module _ ⦃p : Platform⦄ where
  unfoldable pub add : BvConst → BvConst → Outcome BvConst
  add this other = do
    check_size_or_die this other
    adjust_bits (
        if is_big this
        then record this { big_val = p.mpz_add this.big_val other.big_val }
        else record this { small_val = u64 (this.small_val + other.small_val) })

  unfoldable pub sub : BvConst → BvConst → Outcome BvConst
  sub this other = do
    check_size_or_die this other
    adjust_bits (
        if is_big this
        then record this { big_val = p.mpz_sub this.big_val other.big_val }
        else record this { small_val = u64 (this.small_val + 2 ^ 64 - other.small_val) })

  unfoldable pub mul : BvConst → BvConst → Outcome BvConst
  mul this other = do
    check_size_or_die this other
    adjust_bits (
        if is_big this
        then record this { big_val = p.mpz_mul this.big_val other.big_val }
        else record this { small_val = u64 (this.small_val * other.small_val) })

  unfoldable pub band : BvConst → BvConst → Outcome BvConst
  band this other = do
    check_size_or_die this other
    adjust_bits (
        if is_big this
        then record this { big_val = p.mpz_and this.big_val other.big_val }
        else record this { small_val = bit_and this.small_val other.small_val })

  unfoldable pub bor : BvConst → BvConst → Outcome BvConst
  bor this other = do
    check_size_or_die this other
    adjust_bits (
        if is_big this
        then record this { big_val = p.mpz_ior this.big_val other.big_val }
        else record this { small_val = bit_or this.small_val other.small_val })

  unfoldable pub bxor : BvConst → BvConst → Outcome BvConst
  bxor this other = do
    check_size_or_die this other
    adjust_bits (
        if is_big this
        then record this { big_val = p.mpz_xor this.big_val other.big_val }
        else record this { small_val = bit_xor this.small_val other.small_val })

  unfoldable pub umul : BvConst → BvConst → Outcome BvConst
  umul this other = do
    check_size_or_die this other
    let new_size = this.size * 2
    adjust_bits (
        if leb new_size 64
        then record this { size = new_size; small_val = u64 (this.small_val * other.small_val) }
        else record this { size = new_size; big_val = p.mpz_mul this.big_val other.big_val })

  -- the product of the two sign-extended words, where it does not overflow
  smul_small : BvConst → BvConst → Outcome ℕ
  smul_small this other = do
    lhs ← sext_word this.small_val this.size
    rhs ← sext_word other.small_val this.size
    assuming (fits_s64 (signed64 lhs *ℤ signed64 rhs))
    ok (pattern64 (signed64 lhs *ℤ signed64 rhs))

  unfoldable pub smul : BvConst → BvConst → Outcome BvConst
  unfolding smul_small
  smul this other = do
    check_size_or_die this other
    let new_size = this.size * 2
    let lhs_signed = mpz_as_signed (as_mpz this) this.size
    let rhs_signed = mpz_as_signed (as_mpz other) this.size
    if leb new_size 64
        then (do
          product ← smul_small this other
          adjust_bits (record this { size = new_size; small_val = product }))
        else adjust_bits
            (record this { size = new_size; big_val = p.mpz_mul lhs_signed rhs_signed })

  unfoldable pub udiv : BvConst → BvConst → Outcome BvConst
  udiv this other = do
    check_size_or_die this other
    if is_big this
        then (do
          assuming (not (magnitude other.big_val == 0))
          adjust_bits (record this { big_val = p.mpz_tdiv_q this.big_val other.big_val }))
        else (do
          assuming (not (other.small_val == 0))
          adjust_bits (record this { small_val = this.small_val / other.small_val }))

  unfoldable pub urem : BvConst → BvConst → Outcome BvConst
  urem this other = do
    check_size_or_die this other
    if is_big this
        then (do
          assuming (not (magnitude other.big_val == 0))
          adjust_bits (record this { big_val = p.mpz_tdiv_r this.big_val other.big_val }))
        else (do
          assuming (not (other.small_val == 0))
          adjust_bits (record this { small_val = this.small_val % other.small_val }))

  unfoldable pub sdiv : BvConst → BvConst → Outcome BvConst
  sdiv this other = do
    check_size_or_die this other
    let lhs_signed = mpz_as_signed this.big_val this.size
    let rhs_signed = mpz_as_signed other.big_val this.size
    if leb this.size 64
        then (do
          lhs ← sext_word this.small_val this.size
          rhs ← sext_word other.small_val this.size
          assuming (not (rhs == 0) && fits_s64 (tdiv (signed64 lhs) (signed64 rhs)))
          adjust_bits (record this { small_val = pattern64 (tdiv (signed64 lhs) (signed64 rhs)) }))
        else (do
          assuming (not (magnitude rhs_signed == 0))
          adjust_bits (record this { big_val = p.mpz_tdiv_q lhs_signed rhs_signed }))

  unfoldable pub srem : BvConst → BvConst → Outcome BvConst
  srem this other = do
    check_size_or_die this other
    let lhs_signed = mpz_as_signed this.big_val this.size
    let rhs_signed = mpz_as_signed other.big_val this.size
    if leb this.size 64
        then (do
          lhs ← sext_word this.small_val this.size
          rhs ← sext_word other.small_val this.size
          assuming (not (rhs == 0) && fits_s64 (tdiv (signed64 lhs) (signed64 rhs)))
          adjust_bits (record this { small_val = pattern64 (trem (signed64 lhs) (signed64 rhs)) }))
        else (do
          assuming (not (magnitude rhs_signed == 0))
          adjust_bits (record this { big_val = p.mpz_tdiv_r lhs_signed rhs_signed }))

  unfoldable pub neg : BvConst → Outcome BvConst
  neg this =
      if leb this.size 64
      then (do
        v ← sext_word this.small_val this.size
        assuming (fits_s64 (pos 0 -ℤ signed64 v))
        adjust_bits (record this { small_val = pattern64 (pos 0 -ℤ signed64 v) }))
      else adjust_bits (record this { big_val = p.mpz_neg (mpz_as_signed this.big_val this.size) })

  -- `bit_not` and `bnot` have the same body.
  unfoldable pub bit_not : BvConst → Outcome BvConst
  bit_not this = adjust_bits (
      if leb this.size 64
      then record this { small_val = 2 ^ 64 - 1 - this.small_val }
      else record this { big_val = p.mpz_com this.big_val })
