-- ===== src/BvConst/Fields.antt =====
-- `concat`, `zext` and `extract` of `BVConst`.
use native.Mathlib.Nat.{mod-eq_of_lt}
use naaz.Base.{ℕ, ◌+◌, ◌-◌, ◌*◌, ◌/◌, ◌%◌, ◌^◌, ◌≤◌, ◌<◌, ◌≡◌, refl, ◌∙◌, ap, ap₂, arith}
use naaz.Base.{inl, inr, bit_and, bit_or, ltb, leb, Bool-cases}
use naaz.Base.{ltb→lt, lt→ltb, ge→ltb, ltb→ge, leb→le, le→leb, leb→gt}
use naaz.Base.{pos, mod_ℤ}
use naaz.Base.Pow.{pow-add, pow_mono, mod-pow-lt}
use naaz.Base.Bits.{bit_and_mask, bit_or_disjoint}
use naaz.Platform.{Platform}
use naaz.BvConst.{BvConst, u64, copy_bits, as_mpz}
use naaz.BvConst.Represents.{
  bitmask_ok, copy_bits_lem, Represents, Yields, adjust_split_le, as_mpz_of, small_of, wide_of,
  below_u64,
}
use naaz.BvConst.Resize.{concat, zext, extract}

concat_fits : (a w u b : ℕ) → a < 2 ^ w → b < 2 ^ u → a * 2 ^ u + b < 2 ^ (w + u)
concat_fits a w u b h k = rw (pow-add w u) (grind arith)

module _ ⦃p : Platform⦄ (w a u b : ℕ) {x y : BvConst} (rx : Represents w a x)
    (ry : Represents u b y) where
  -- `concat` of a constant of width w that holds a with one of width u that holds b gives the
  -- constant of width w + u that holds a * 2 ^ u + b, also where the result is wider than 64 bits
  -- and the operands are not.
  pub concat_refines : Yields (concat x y) (w + u) (a * 2 ^ u + b)
  unfolding concat
  concat_refines =
      adjust_split_le _ _ (x.size + y.size) (w + u) _ sizes (omega (arith, rx.positive)) sizes sizes
        small wide
    where
      sizes : x.size + y.size ≡ w + u
      sizes = ap₂ ◌+◌ rx.width ry.width

      fits : a * 2 ^ u + b < 2 ^ (w + u)
      fits = concat_fits a w u b rx.fits ry.fits

      wide :
          64 < w + u
          → mod_ℤ (p.mpz_ior (p.mpz_mul_2exp (as_mpz x) y.size) (as_mpz y)) (2 ^ (w + u))
            ≡ a * 2 ^ u + b
      wide h =
          rw
            (
              as_mpz_of rx,
              as_mpz_of ry,
              ry.width,
              p.mul_2exp_law a u,
              p.ior_law (a * 2 ^ u) b,
              bit_or_disjoint u a b ry.fits,
            )
            (mod-eq_of_lt fits)

      joined : w + u ≤ 64 → bit_or (u64 (x.small_val * 2 ^ y.size)) y.small_val ≡ a * 2 ^ u + b
      joined h =
          rw
            (
              small_of rx (omega arith),
              small_of ry (omega arith),
              ry.width,
              mod-eq_of_lt (below_u64 (w + u) (a * 2 ^ u) h (omega (arith, fits))),
            )
            (bit_or_disjoint u a b ry.fits)

      small :
          w + u ≤ 64
          → (bit_or (u64 (x.small_val * 2 ^ y.size)) y.small_val < 2 ^ 64)
            × (bit_or (u64 (x.small_val * 2 ^ y.size)) y.small_val % 2 ^ (w + u) ≡ a * 2 ^ u + b)
      small h = rw (joined h) (below_u64 (w + u) _ h fits, mod-eq_of_lt fits)

module _ ⦃p : Platform⦄ (w a : ℕ) {x : BvConst} (rx : Represents w a x) where
  -- The digits that the loops of `extract` and `lshr` copy out of a wide constant.
  pub copied :
      64 < w → (low n : ℕ) → copy_bits x.big_val low n 0 (pos 0) ≡ pos (a / 2 ^ low % 2 ^ n)
  copied wide low n = rw (wide_of rx wide) (
      copy_bits_lem (pos a) low n 0 0 (omega arith)
      ∙ ap pos
          (omega (arith, ap (λ t. a / 2 ^ t % 2 ^ n) (let e : 0 + low ≡ low = omega arith in e))))

  -- `zext` of a constant of width w that holds a to a width n that is not smaller gives the
  -- constant of width n that holds a, also from at most 64 bits to more.
  pub zext_refines : (n : ℕ) → w ≤ n → Yields (zext x n) n a
  unfolding zext
  zext_refines n h = elim (Bool-cases (leb n 64)) [
    | inl narrow ↦
        rw (le→leb x.size n (rw rx.width h), narrow)
          (
            record x { size = n },
            refl,
            record {
              width = refl;
              positive = omega (arith, rx.positive);
              fits = fits_n;
              holds = inl (leb→le n 64 narrow, small_of rx (omega (arith, leb→le n 64 narrow)));
            },
          )
    | inr wide ↦ elim (Bool-cases (ltb 64 x.size)) [
      | inl big ↦
          rw (le→leb x.size n (rw rx.width h), wide, big)
            (
              record x { size = n },
              refl,
              record {
                width = refl;
                positive = omega (arith, rx.positive);
                fits = fits_n;
                holds = inr (leb→gt n 64 wide, wide_of rx (rw rx.width at (ltb→lt 64 x.size big)));
              },
            )
      | inr small ↦
          rw (le→leb x.size n (rw rx.width h), wide, small)
            (
              record { size = n; small_val = x.small_val; big_val = pos x.small_val },
              refl,
              record {
                width = refl;
                positive = omega (arith, rx.positive);
                fits = fits_n;
                holds = inr (
                  leb→gt n 64 wide,
                  ap pos (small_of rx (rw rx.width at (ltb→ge 64 x.size small))),
                );
              },
            )
    ]
  ]
    where
      fits_n : a < 2 ^ n
      fits_n = omega (arith, rx.fits, pow_mono w n h)

  -- `extract` of a constant of width w that holds a, with low ≤ high < w, gives the constant of
  -- high - low + 1 bits that holds the bits of a from low to high, on the 64-bit and on the GMP
  -- representation.
  pub extract_refines :
      (high low : ℕ)
      → low ≤ high
      → high < w
      → Yields (extract x high low) (high - low + 1) (a / 2 ^ low % 2 ^ (high - low + 1))
  unfolding extract
  extract_refines high low h k = elim rx.holds [
    | inl (narrow, e) ↦
        rw
          (
            le→leb low high h,
            ge→ltb 64 x.size (rw rx.width narrow),
            lt→ltb low 64 (omega arith),
            bitmask_ok (high - low + 1) (omega arith) (omega arith),
            e,
          )
          (
            record {
              size = high - low + 1;
              small_val = bit_and (a / 2 ^ low) (2 ^ (high - low + 1) - 1);
              big_val = x.big_val;
            },
            refl,
            record {
              width = refl;
              positive = omega arith;
              fits = mod-pow-lt (a / 2 ^ low) (high - low + 1);
              holds = inl (omega arith, bit_and_mask (high - low + 1) (a / 2 ^ low));
            },
          )
    | inr (wide, e) ↦ elim (Bool-cases (leb (high - low + 1) 64)) [
      | inl s ↦
          rw
            (
              le→leb low high h,
              lt→ltb 64 x.size (rw rx.width wide),
              copied wide low (high - low + 1),
              s,
              p.get_ui_law (a / 2 ^ low % 2 ^ (high - low + 1)),
            )
            (
              record {
                size = high - low + 1;
                small_val = a / 2 ^ low % 2 ^ (high - low + 1) % 2 ^ 64;
                big_val = x.big_val;
              },
              refl,
              record {
                width = refl;
                positive = omega arith;
                fits = mod-pow-lt (a / 2 ^ low) (high - low + 1);
                holds = inl (
                  leb→le _ 64 s,
                  mod-eq_of_lt (
                      below_u64 (high - low + 1) _ (leb→le _ 64 s)
                        (mod-pow-lt (a / 2 ^ low) (high - low + 1))),
                );
              },
            )
      | inr l ↦
          rw
            (
              le→leb low high h,
              lt→ltb 64 x.size (rw rx.width wide),
              copied wide low (high - low + 1),
              l,
            )
            (
              record {
                size = high - low + 1;
                small_val = x.small_val;
                big_val = pos (a / 2 ^ low % 2 ^ (high - low + 1));
              },
              refl,
              record {
                width = refl;
                positive = omega arith;
                fits = mod-pow-lt (a / 2 ^ low) (high - low + 1);
                holds = inr (leb→gt _ 64 l, refl);
              },
            )
    ]
  ]
