-- ===== src/BvConst/Word.antt =====
-- `int64_t` values as bit patterns below 2 ^ 64, and the sign extensions `_sext` and
-- `_mpz_as_signed` of expr/BVConst.cpp.
use naaz.Base.{ℕ, ◌+◌, ◌-◌, ◌*◌, ◌/◌, ◌^◌, bit_and, bit_or}
use naaz.Base.{Bool}
use naaz.Base.{ℤ, pos, negsuc, mod_ℤ, ltb, leb, ◌==◌}
use naaz.Base.{if◌then◌else◌}
use naaz.Base.{Outcome, ok, ◌>>◌, require}
use naaz.Platform.{Platform}
use naaz.BvConst.{u64}

-- the integer that a pattern stands for
abbrev pub signed64 : ℕ → ℤ
signed64 w = if ltb w (2 ^ 63) then pos w else negsuc (2 ^ 64 - w - 1)

-- the pattern of an integer
abbrev pub pattern64 : ℤ → ℕ
pattern64 z = mod_ℤ z (2 ^ 64)

-- A signed result outside this range is undefined behaviour.
abbrev pub fits_s64 : ℤ → Bool
fits_s64 (pos n) = ltb n (2 ^ 63)
fits_s64 (negsuc n) = ltb n (2 ^ 63)

-- `>>` of a signed number
abbrev pub shr_ℤ : ℤ → ℕ → ℤ
shr_ℤ (pos n) v = pos (n / 2 ^ v)
shr_ℤ (negsuc n) v = negsuc (n / 2 ^ v)

-- `((2UL << (64UL - size)) - 1UL) << size`
abbrev pub sign_mask : ℕ → ℕ
sign_mask size = u64 (u64 (u64 (2 * 2 ^ (64 - size)) + 2 ^ 64 - 1) * 2 ^ size)

unfoldable pub sext_word : ℕ → ℕ → Outcome ℕ
sext_word v size = do
  require (leb size 64)
  ok (
      if size == 64
      then v
      else (if bit_and v (2 ^ (size - 1)) == 0 then v else bit_or v (sign_mask size)))

module _ ⦃p : Platform⦄ where
  unfoldable pub mpz_as_signed : ℤ → ℕ → ℤ
  mpz_as_signed val size =
      if p.mpz_tstbit val (size - 1) == 0
      then val
      else p.mpz_neg (p.mpz_sub (p.mpz_setbit (pos 0) size) val)
