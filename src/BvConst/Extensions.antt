-- ===== src/BvConst/Extensions.antt =====
-- `zext` and `sext` of expr/BVConst.cpp together, and `extract`, `concat` and `lshr`.
use naaz.Base.{ℕ, ◌+◌, ◌-◌, ◌*◌, ◌/◌, ◌%◌, ◌^◌, ◌≤◌, ◌<◌}
use naaz.Platform.{Platform}
use naaz.BvConst.{BvConst}
use naaz.BvConst.Resize.{zext, sext, extract, concat}
use naaz.BvConst.Shift.{lshr}
use naaz.BvConst.Shifted.{lshr_refines}
use naaz.BvConst.Represents.{Represents, Yields}
use naaz.BvConst.Fields.{zext_refines, extract_refines, concat_refines}
use naaz.BvConst.Signed.{sign_extended, sext_refines}

module _ ⦃p : Platform⦄ (w a : ℕ) {x : BvConst} (rx : Represents w a x) where
  -- `zext` and `sext` of a constant of width w that holds a to a width n that is not smaller give
  -- the constants of width n that hold a and the sign extension of a, also from at most 64 bits to
  -- more.
  pub extensions_refine :
      (n : ℕ) → w ≤ n → Yields (zext x n) n a × Yields (sext x n) n (sign_extended w n a)
  extensions_refine n h = (zext_refines w a rx n h, sext_refines w a rx n h)

module _ ⦃p : Platform⦄ (w a u b : ℕ) {x y : BvConst} (rx : Represents w a x)
    (ry : Represents u b y) where
  -- Of a constant of width w that holds a, `extract` with low ≤ high < w gives the constant of high
  -- - low + 1 bits that holds the bits of a from low to high, `lshr` by any count gives the one of
  -- width w that holds a / 2 ^ count, and `concat` with one of width u that holds b gives the one
  -- of width w + u that holds a * 2 ^ u + b, on the 64-bit and on the GMP representation.
  pub pieces_refine :
      (high low count : ℕ)
      → low ≤ high
      → high < w
      → Yields (extract x high low) (high - low + 1) (a / 2 ^ low % 2 ^ (high - low + 1))
        × Yields (lshr x count) w (a / 2 ^ count)
        × Yields (concat x y) (w + u) (a * 2 ^ u + b)
  pieces_refine high low count h k =
      (extract_refines w a rx high low h k, lshr_refines w a rx count, concat_refines w a u b rx ry)
