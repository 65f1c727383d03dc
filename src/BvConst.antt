-- ===== src/BvConst.antt =====
-- expr/BVConst.hpp and the constructors and `adjust_bits` of expr/BVConst.cpp: a constant of any
-- width, in `m_small_val` up to 64 bits and in `m_big_val` above. A `uint64_t` is a number below
-- 2 ^ 64 with its wrap-around written out; widths are numbers of any size. An operation returns
-- the new value of the receiver.
pub mod Represents
pub mod Modular
pub mod Bitwise
pub mod Fields
pub mod Signed
pub mod Extensions
pub mod Order
pub mod Shifted
pub mod Word
pub mod Arith
pub mod Resize
pub mod Shift
pub mod Compare
use naaz.Base.{
  ℕ, zero, suc, ◌+◌, ◌-◌, ◌*◌, ◌/◌, ◌%◌, ◌^◌, bit_and, bit_or, Bool, true, false, not, ◌&&◌, ◌||◌,
}
use naaz.Base.{ℤ, pos, negsuc, mod_ℤ, magnitude, ltb, leb, ◌==◌, if◌then◌else◌}
use naaz.Base.{List, [], ◌∷◌, Option, none, some}
use naaz.Base.{Outcome, ok, exit_fail, undefined, ◌>>=◌, ◌>>◌, require, assuming}
use naaz.Platform.{Platform}

pub record BvConst : Type 0 where
  pub size : ℕ
  pub small_val : ℕ
  pub big_val : ℤ

abbrev pub u64 : ℕ → ℕ
u64 n = n % 2 ^ 64

abbrev pub is_big : BvConst → Bool
is_big c = ltb 64 c.size

unfoldable pub check_size_or_die : BvConst → BvConst → Outcome (Unit {0})
check_size_or_die lhs rhs = require (lhs.size == rhs.size)

-- `(2UL << (size - 1)) - 1UL`
unfoldable pub bitmask : ℕ → Outcome ℕ
bitmask size = do
  require (leb size 64)
  assuming (ltb 0 size)
  ok (u64 (u64 (2 * 2 ^ (size - 1)) + 2 ^ 64 - 1))

-- what `std::stoul` accepts of a number with an optional minus sign
abbrev pub stoul_fits : ℤ → Bool
stoul_fits value = ltb (magnitude value) (2 ^ 64)

-- `std::stoul` and the constructor of `mpz_class`: the integer that a text spells in a base, and none
-- where they throw since there is none. A character is its code.
pub record NumberReader : Type 0 where
  pub stoul : List ℕ → ℕ → Option ℤ
  pub mpz_class : List ℕ → ℕ → Option ℤ

-- The base that the prefix `0x` or `0b` chooses, and the text after the prefix.
unfoldable pub base_of : List ℕ → ℕ × List ℕ
base_of (first ∷ second ∷ num) =
    if first == 48 && second == 120
    then (16, num)
    else if first == 48 && second == 98
    then (2, num)
    else (10, first ∷ second ∷ num)
base_of num = (10, num)

module _ ⦃p : Platform⦄ where
  -- `for (i = ...; count rounds; ++i) if tstbit (src, i + off) setbit (tmp, i) else clrbit (tmp, i)`
  unfoldable pub copy_bits : ℤ → ℕ → ℕ → ℕ → ℤ → ℤ
  copy_bits src off zero i tmp = tmp
  copy_bits src off (suc count) i tmp =
      copy_bits src off count (i + 1)
        (if p.mpz_tstbit src (i + off) == 0 then p.mpz_clrbit tmp i else p.mpz_setbit tmp i)

  -- the branch of `adjust_bits` above 64 bits, with its final assertion
  unfoldable pub adjust_big : ℤ → ℕ → Outcome ℤ
  adjust_big val size =
      let cleared = p.mpz_clrbit val size in
      let tmp = p.mpz_clrbit (copy_bits cleared 0 size 0 (pos 0)) size in
      if ltb size (p.mpz_size cleared)
      then (do require (leb (p.mpz_size tmp) size); ok tmp)
      else ok cleared

  unfoldable pub adjust_bits : BvConst → Outcome BvConst
  adjust_bits c =
      if c.size == 64
      then ok c
      else if is_big c
      then (do big ← adjust_big c.big_val c.size; ok (record c { big_val = big }))
      else (do mask ← bitmask c.size; ok (record c { small_val = bit_and c.small_val mask }))

  -- `BVConst (uint64_t value, ssize_t size)`
  unfoldable pub of_u64 : ℕ → ℕ → Outcome BvConst
  of_u64 value size = do
    require (not (size == 0))
    adjust_bits (
        if leb size 64
        then record { size = size; small_val = value; big_val = pos 0 }
        else record { size = size; small_val = p.indeterminate; big_val = pos value })

  -- What the constructor from text stores of the number that it read: `std::stoul` gives a number
  -- modulo 2 ^ 64, and throws where the magnitude does not fit.
  unfoldable pub of_number : ℤ → ℕ → Outcome BvConst
  of_number value size = do
    require (not (size == 0))
    require (ltb 64 size || stoul_fits value)
    adjust_bits (
        if leb size 64
        then record { size = size; small_val = mod_ℤ value (2 ^ 64); big_val = pos 0 }
        else record { size = size; small_val = p.indeterminate; big_val = value })

  -- `BVConst (const std::string& value, ssize_t size)`; an exception ends the process.
  unfoldable pub of_text : NumberReader → List ℕ → ℕ → Outcome BvConst
  of_text reader value size = do
    require (not (size == 0))
    let prefixed = base_of value
    elim (if leb size 64
        then reader.stoul prefixed.1 prefixed.0
        else reader.mpz_class prefixed.1 prefixed.0) [
          | none ↦ exit_fail
          | some number ↦ of_number number size
        ]

  -- `BVConst (const BVConst& other)`
  unfoldable pub copy : BvConst → BvConst
  copy other =
      if leb other.size 64
      then record { size = other.size; small_val = other.small_val; big_val = pos 0 }
      else record { size = other.size; small_val = p.indeterminate; big_val = other.big_val }

  unfoldable pub as_mpz : BvConst → ℤ
  as_mpz c = if is_big c then c.big_val else pos c.small_val
