-- ===== src/BvConst/Modular.antt =====
-- The operations of `BVConst` whose result is the arithmetic of naturals modulo 2 ^ w.
use naaz.Base.{ℕ, ◌+◌, ◌-◌, ◌*◌, ◌%◌, ◌^◌, ◌≤◌, ◌<◌, ◌≡◌, refl, ◌∙◌, ap₂, arith}
use naaz.Base.{pos, mod_ℤ, pos_add, pos_mul, sub_residue}
use naaz.Base.Pow.{mod-u64_sub}
use naaz.Platform.{Platform}
use naaz.BvConst.{BvConst, u64}
use naaz.BvConst.Represents.{
  Represents, Yields, adjust_split, mod-u64, small_of, wide_of, same_size,
}
use naaz.BvConst.Arith.{add, sub, mul}

module _ ⦃p : Platform⦄ (w a b : ℕ) {x y : BvConst} (rx : Represents w a x)
    (ry : Represents w b y) where
  -- Of two constants of one width w that hold a and b, `add` gives the constant of width w that
  -- holds (a + b) % 2 ^ w, on the 64-bit and on the GMP representation.
  pub add_refines : Yields (add x y) w ((a + b) % 2 ^ w)
  unfolding add
  add_refines =
      rw (same_size rx ry)
        (adjust_split _ _ x.size w _ rx.width rx.positive rx.width rx.width wide small)
    where
      wide : 64 < w → mod_ℤ (p.mpz_add x.big_val y.big_val) (2 ^ w) ≡ (a + b) % 2 ^ w
      wide h = rw (wide_of rx h, wide_of ry h, p.add_law (pos a) (pos b), pos_add a b) refl

      small :
          w ≤ 64
          → (u64 (x.small_val + y.small_val) < 2 ^ 64)
            × (u64 (x.small_val + y.small_val) % 2 ^ w ≡ (a + b) % 2 ^ w)
      small narrow = (
        omega arith,
        ap₂ (λ s t. u64 (s + t) % 2 ^ w) (small_of rx narrow) (small_of ry narrow)
            ∙ mod-u64 (a + b) w narrow,
      )

module _ ⦃p : Platform⦄ (w a b : ℕ) {x y : BvConst} (rx : Represents w a x)
    (ry : Represents w b y) where
  -- Of two constants of one width w that hold a and b, `sub` gives the constant of width w that
  -- holds (a + 2 ^ w - b) % 2 ^ w, on the 64-bit and on the GMP representation.
  pub sub_refines : Yields (sub x y) w ((a + 2 ^ w - b) % 2 ^ w)
  unfolding sub
  sub_refines =
      rw (same_size rx ry)
        (adjust_split _ _ x.size w _ rx.width rx.positive rx.width rx.width wide small)
    where
      wide : 64 < w → mod_ℤ (p.mpz_sub x.big_val y.big_val) (2 ^ w) ≡ (a + 2 ^ w - b) % 2 ^ w
      wide h =
          rw (wide_of rx h, wide_of ry h, p.sub_law (pos a) (pos b))
            (sub_residue a b (2 ^ w) rx.fits ry.fits)

      small :
          w ≤ 64
          → (u64 (x.small_val + 2 ^ 64 - y.small_val) < 2 ^ 64)
            × (u64 (x.small_val + 2 ^ 64 - y.small_val) % 2 ^ w ≡ (a + 2 ^ w - b) % 2 ^ w)
      small narrow = (
        omega arith,
        ap₂ (λ s t. u64 (s + 2 ^ 64 - t) % 2 ^ w) (small_of rx narrow) (small_of ry narrow)
            ∙ mod-u64 (a + 2 ^ 64 - b) w narrow
            ∙ mod-u64_sub a b w narrow (omega (arith, ry.fits)),
      )

module _ ⦃p : Platform⦄ (w a b : ℕ) {x y : BvConst} (rx : Represents w a x)
    (ry : Represents w b y) where
  -- Of two constants of one width w that hold a and b, `mul` gives the constant of width w that
  -- holds a * b % 2 ^ w, on the 64-bit and on the GMP representation.
  pub mul_refines : Yields (mul x y) w (a * b % 2 ^ w)
  unfolding mul
  mul_refines =
      rw (same_size rx ry)
        (adjust_split _ _ x.size w _ rx.width rx.positive rx.width rx.width wide small)
    where
      wide : 64 < w → mod_ℤ (p.mpz_mul x.big_val y.big_val) (2 ^ w) ≡ a * b % 2 ^ w
      wide h = rw (wide_of rx h, wide_of ry h, p.mul_law (pos a) (pos b), pos_mul a b) refl

      small :
          w ≤ 64
          → (u64 (x.small_val * y.small_val) < 2 ^ 64)
            × (u64 (x.small_val * y.small_val) % 2 ^ w ≡ a * b % 2 ^ w)
      small narrow = (
        omega arith,
        ap₂ (λ s t. u64 (s * t) % 2 ^ w) (small_of rx narrow) (small_of ry narrow)
            ∙ mod-u64 (a * b) w narrow,
      )

module _ ⦃p : Platform⦄ (w a b : ℕ) {x y : BvConst} (rx : Represents w a x)
    (ry : Represents w b y) where
  -- Of two constants of one width w that hold a and b, `add`, `sub` and `mul` give the constants of
  -- width w that hold (a + b) % 2 ^ w, (a + 2 ^ w - b) % 2 ^ w and a * b % 2 ^ w, on the 64-bit and
  -- on the GMP representation.
  pub modular_refines :
      Yields (add x y) w ((a + b) % 2 ^ w)
      × Yields (sub x y) w ((a + 2 ^ w - b) % 2 ^ w)
      × Yields (mul x y) w (a * b % 2 ^ w)
  modular_refines = (add_refines w a b rx ry, sub_refines w a b rx ry, mul_refines w a b rx ry)
