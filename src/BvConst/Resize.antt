-- ===== src/BvConst/Resize.antt =====
-- `concat`, `zext`, `sext` and `extract` of expr/BVConst.cpp.
use naaz.Base.{ℕ, zero, suc, ◌+◌, ◌-◌, ◌*◌, ◌/◌, ◌^◌, bit_and, bit_or}
use naaz.Base.{◌||◌}
use naaz.Base.{ℤ, pos, ltb, leb, ◌==◌}
use naaz.Base.{if◌then◌else◌}
use naaz.Base.{Outcome, ok, ◌>>=◌, ◌>>◌, require, assuming}
use naaz.Platform.{Platform}
use naaz.BvConst.{BvConst, u64, is_big, bitmask, copy_bits, adjust_bits, as_mpz}
use naaz.BvConst.Word.{sext_word}

module _ ⦃p : Platform⦄ where
  -- `for (i = ...; count rounds; ++i) setbit (tmp, i)`
  unfoldable pub set_bits : ℕ → ℕ → ℤ → ℤ
  set_bits zero i tmp = tmp
  set_bits (suc count) i tmp = set_bits count (i + 1) (p.mpz_setbit tmp i)

  unfoldable pub concat : BvConst → BvConst → Outcome BvConst
  concat this other =
      let new_size = this.size + other.size in
      let shifted = p.mpz_mul_2exp (as_mpz this) other.size in
      adjust_bits (
        if leb new_size 64
        then record this {
          size = new_size;
          small_val = bit_or (u64 (this.small_val * 2 ^ other.size)) other.small_val;
        }
        else record this { size = new_size; big_val = p.mpz_ior shifted (as_mpz other) })

  unfoldable pub zext : BvConst → ℕ → Outcome BvConst
  zext this size = do
    require (leb this.size size)
    ok (
        if leb size 64 || is_big this
        then record this { size = size }
        else record this { size = size; big_val = pos this.small_val })

  unfoldable pub sext : BvConst → ℕ → Outcome BvConst
  sext this size = do
    require (leb this.size size)
    let big = as_mpz this
    let extended =
        if p.mpz_tstbit big (this.size - 1) == 1
        then set_bits (size - this.size) this.size big
        else big
    if size == this.size
        then ok this
        else (if leb size 64
            then (do
              v ← sext_word this.small_val this.size
              adjust_bits (record this { size = size; small_val = v }))
            else ok (record this { size = size; big_val = extended }))

  unfoldable pub extract : BvConst → ℕ → ℕ → Outcome BvConst
  extract this high low = do
    require (leb low high)
    let new_size = high - low + 1
    let tmp = copy_bits this.big_val low new_size 0 (pos 0)
    if is_big this
        then (if leb new_size 64
            then ok (record this { size = new_size; small_val = p.mpz_get_ui tmp })
            else ok (record this { size = new_size; big_val = tmp }))
        else (do
          assuming (ltb low 64)
          mask ← bitmask new_size
          ok (record this { size = new_size; small_val = bit_and (this.small_val / 2 ^ low) mask }))
