-- ===== src/BvConst/Shift.antt =====
-- `ashr`, `lshr` and `shl` of expr/BVConst.cpp.
use naaz.Base.{ℕ, zero, suc, ◌+◌, ◌-◌, ◌*◌, ◌/◌, ◌^◌}
use naaz.Base.{ℤ, pos, ltb, leb, ◌==◌}
use naaz.Base.{if◌then◌else◌}
use naaz.Base.{Outcome, ok, ◌>>=◌, ◌>>◌, assuming}
use naaz.Platform.{Platform}
use naaz.BvConst.{BvConst, u64, is_big, copy_bits, adjust_bits}
use naaz.BvConst.Word.{signed64, pattern64, shr_ℤ, sext_word}
use naaz.BvConst.Resize.{set_bits}

module _ ⦃p : Platform⦄ where
  -- The loop of `shl`, which reads `v` bits below the one that it writes.
  unfoldable pub copy_bits_up : ℤ → ℕ → ℕ → ℕ → ℤ → ℤ
  copy_bits_up src v zero i tmp = tmp
  copy_bits_up src v (suc count) i tmp =
      copy_bits_up src v count (i + 1)
        (if p.mpz_tstbit src (i - v) == 1 then p.mpz_setbit tmp i else p.mpz_clrbit tmp i)

  unfoldable pub ashr : BvConst → ℕ → Outcome BvConst
  ashr this v =
      let kept = this.size - v in
      let tmp = copy_bits this.big_val v kept 0 (pos 0) in
      let extended =
        if p.mpz_tstbit this.big_val (this.size - 1) == 0
        then tmp
        else set_bits (this.size - kept) kept tmp in
      if v == 0
      then ok this
      else if is_big this
      then ok (record this { big_val = extended })
      else (do
        w ← sext_word this.small_val this.size
        assuming (ltb v 64)
        adjust_bits (record this { small_val = pattern64 (shr_ℤ (signed64 w) v) }))

  unfoldable pub lshr : BvConst → ℕ → Outcome BvConst
  lshr this v =
      if v == 0
      then ok this
      else if leb this.size v
      then ok
          (if is_big this then record this { big_val = pos 0 } else record this { small_val = 0 })
      else if is_big this
      then ok (record this { big_val = copy_bits this.big_val v (this.size - v) 0 (pos 0) })
      else adjust_bits (record this { small_val = this.small_val / 2 ^ v })

  unfoldable pub shl : BvConst → ℕ → Outcome BvConst
  shl this v =
      if v == 0
      then ok this
      else if leb this.size v
      then ok
          (if is_big this then record this { big_val = pos 0 } else record this { small_val = 0 })
      else if is_big this
      then ok (record this { big_val = copy_bits_up this.big_val v (this.size - v) v this.big_val })
      else adjust_bits (record this { small_val = u64 (this.small_val * 2 ^ v) })
