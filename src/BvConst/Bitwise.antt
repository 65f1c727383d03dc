-- ===== src/BvConst/Bitwise.antt =====
-- The bitwise operations of `BVConst` at every width.
use native.Mathlib.Nat.{mod-eq_of_lt}
use naaz.Base.{ℕ, suc, ◌+◌, ◌-◌, ◌%◌, ◌^◌, ◌≤◌, ◌<◌, ◌≡◌, ◌∙◌, ap, arith}
use naaz.Base.{bit_and, bit_or, bit_xor}
use naaz.Base.{mod_ℤ}
use naaz.Base.Pow.{mod-u64_sub}
use naaz.Base.Bits.{bit_and-lt, bit_or-lt, bit_xor-lt}
use naaz.Platform.{Platform}
use naaz.BvConst.{BvConst}
use naaz.BvConst.Represents.{
  Represents, Yields, adjust_split, adjust_split_le, small_of, wide_of, same_size, below_u64,
}
use naaz.BvConst.Arith.{band, bor, bxor, bit_not}

module _ ⦃p : Platform⦄ (w a b : ℕ) {x y : BvConst} (rx : Represents w a x)
    (ry : Represents w b y) where
  -- Of two constants of one width w that hold a and b, `band` gives the constant of width w that
  -- holds their bitwise conjunction, on the 64-bit and on the GMP representation.
  pub band_refines : Yields (band x y) w (bit_and a b)
  unfolding band
  band_refines =
      rw (same_size rx ry)
        (adjust_split _ _ x.size w _ rx.width rx.positive rx.width rx.width wide small)
    where
      fits : bit_and a b < 2 ^ w
      fits = bit_and-lt w a b rx.fits

      wide : 64 < w → mod_ℤ (p.mpz_and x.big_val y.big_val) (2 ^ w) ≡ bit_and a b
      wide h = rw (wide_of rx h, wide_of ry h, p.and_law a b) (mod-eq_of_lt fits)

      small :
          w ≤ 64
          → (bit_and x.small_val y.small_val < 2 ^ 64)
            × (bit_and x.small_val y.small_val % 2 ^ w ≡ bit_and a b)
      small h =
          rw (small_of rx h, small_of ry h) (below_u64 w (bit_and a b) h fits, mod-eq_of_lt fits)

module _ ⦃p : Platform⦄ (w a b : ℕ) {x y : BvConst} (rx : Represents w a x)
    (ry : Represents w b y) where
  -- Of two constants of one width w that hold a and b, `bor` gives the constant of width w that
  -- holds their bitwise disjunction, on the 64-bit and on the GMP representation.
  pub bor_refines : Yields (bor x y) w (bit_or a b)
  unfolding bor
  bor_refines =
      rw (same_size rx ry)
        (adjust_split _ _ x.size w _ rx.width rx.positive rx.width rx.width wide small)
    where
      fits : bit_or a b < 2 ^ w
      fits = bit_or-lt w a b rx.fits ry.fits

      wide : 64 < w → mod_ℤ (p.mpz_ior x.big_val y.big_val) (2 ^ w) ≡ bit_or a b
      wide h = rw (wide_of rx h, wide_of ry h, p.ior_law a b) (mod-eq_of_lt fits)

      small :
          w ≤ 64
          → (bit_or x.small_val y.small_val < 2 ^ 64)
            × (bit_or x.small_val y.small_val % 2 ^ w ≡ bit_or a b)
      small h =
          rw (small_of rx h, small_of ry h) (below_u64 w (bit_or a b) h fits, mod-eq_of_lt fits)

module _ ⦃p : Platform⦄ (w a b : ℕ) {x y : BvConst} (rx : Represents w a x)
    (ry : Represents w b y) where
  -- Of two constants of one width w that hold a and b, `bxor` gives the constant of width w that
  -- holds their exclusive or, on the 64-bit and on the GMP representation.
  pub bxor_refines : Yields (bxor x y) w (bit_xor a b)
  unfolding bxor
  bxor_refines =
      rw (same_size rx ry)
        (adjust_split _ _ x.size w _ rx.width rx.positive rx.width rx.width wide small)
    where
      fits : bit_xor a b < 2 ^ w
      fits = bit_xor-lt w a b rx.fits ry.fits

      wide : 64 < w → mod_ℤ (p.mpz_xor x.big_val y.big_val) (2 ^ w) ≡ bit_xor a b
      wide h = rw (wide_of rx h, wide_of ry h, p.xor_law a b) (mod-eq_of_lt fits)

      small :
          w ≤ 64
          → (bit_xor x.small_val y.small_val < 2 ^ 64)
            × (bit_xor x.small_val y.small_val % 2 ^ w ≡ bit_xor a b)
      small h =
          rw (small_of rx h, small_of ry h) (below_u64 w (bit_xor a b) h fits, mod-eq_of_lt fits)

module _ ⦃p : Platform⦄ (w a : ℕ) {x : BvConst} (rx : Represents w a x) where
  -- Of a constant of width w that holds a, `bit_not` gives the constant of width w that holds 2 ^ w
  -- - 1 - a, on the 64-bit and on the GMP representation.
  pub bit_not_refines : Yields (bit_not x) w (2 ^ w - 1 - a)
  unfolding bit_not
  bit_not_refines = adjust_split_le _ _ x.size w _ rx.width rx.positive rx.width rx.width small wide
    where
      wide : 64 < w → mod_ℤ (p.mpz_com x.big_val) (2 ^ w) ≡ 2 ^ w - 1 - a
      wide h = rw (wide_of rx h, p.com_law a) (ap (λ (t : ℕ). 2 ^ w - 1 - t) (mod-eq_of_lt rx.fits))

      complement : w ≤ 64 → (2 ^ 64 - 1 - a) % 2 ^ w ≡ 2 ^ w - 1 - a
      complement h =
          ap (λ t. t % 2 ^ w) (let e : 2 ^ 64 - 1 - a ≡ 0 + 2 ^ 64 - suc a = omega arith in e)
          ∙ mod-u64_sub 0 (suc a) w h rx.fits
          ∙ mod-eq_of_lt (omega (arith, rx.fits))
          ∙ omega arith

      small :
          w ≤ 64
          → (2 ^ 64 - 1 - x.small_val < 2 ^ 64)
            × ((2 ^ 64 - 1 - x.small_val) % 2 ^ w ≡ 2 ^ w - 1 - a)
      small h = rw (small_of rx h) (omega arith, complement h)

module _ ⦃p : Platform⦄ (w a b : ℕ) {x y : BvConst} (rx : Represents w a x)
    (ry : Represents w b y) where
  -- Of two constants of one width w that hold a and b, `band`, `bor` and `bxor` give the constants
  -- of width w that hold the bitwise conjunction, disjunction and exclusive or, and `bit_not` of
  -- the first gives the one that holds 2 ^ w - 1 - a, on the 64-bit and on the GMP representation.
  pub bitwise_refines :
      Yields (band x y) w (bit_and a b)
      × Yields (bor x y) w (bit_or a b)
      × Yields (bxor x y) w (bit_xor a b)
      × Yields (bit_not x) w (2 ^ w - 1 - a)
  bitwise_refines = (
    band_refines w a b rx ry,
    bor_refines w a b rx ry,
    bxor_refines w a b rx ry,
    bit_not_refines w a rx,
  )
