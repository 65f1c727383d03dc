-- ===== src/BvConst/Shifted.antt =====
-- `lshr` of `BVConst`.
use native.Mathlib.Nat.{div-one, div-le_self, div-eq_of_lt, mod-eq_of_lt}
use naaz.Base.{ℕ, ◌+◌, ◌-◌, ◌/◌, ◌^◌, ◌≤◌, ◌<◌, ◌≡◌, refl, ◌∙◌, ap, subst, arith}
use naaz.Base.{inl, inr, if◌then◌else◌, leb, ◌==◌, Bool-cases}
use naaz.Base.{lt→ltb, ge→ltb, leb→le, leb→gt, ==→eq}
use naaz.Base.{pos, ok}
use naaz.Base.Pow.{pow-pos, pow_mono, div-pow-lt}
use naaz.Platform.{Platform}
use naaz.BvConst.{BvConst, is_big, copy_bits, adjust_bits}
use naaz.BvConst.Represents.{Represents, Yields, adjust-small, below_u64}
use naaz.BvConst.Fields.{copied}
use naaz.BvConst.Shift.{lshr}

module _ ⦃p : Platform⦄ (w a : ℕ) {x : BvConst} (rx : Represents w a x) (v : ℕ) where
  -- Every digit is shifted out.
  emptied : w ≤ v → a / 2 ^ v ≡ 0
  emptied h = div-eq_of_lt (omega (arith, rx.fits, pow_mono w v h))

  kept : v < w → a / 2 ^ v < 2 ^ (w - v)
  kept h =
      div-pow-lt a v (w - v)
        (subst (λ t. a < 2 ^ t) (let e : w ≡ v + (w - v) = omega arith in e) rx.fits)

  same_fits : a / 2 ^ v < 2 ^ w
  same_fits = omega (arith, rx.fits, div-le_self a (2 ^ v))

  cleared :
      w ≤ v
      → Yields
          (ok (if is_big x then record x { big_val = pos 0 } else record x { small_val = 0 }))
          w
          (a / 2 ^ v)
  cleared h = elim rx.holds [
    | inl (narrow, e) ↦
        rw (ge→ltb 64 x.size (rw rx.width narrow), emptied h)
          (
            record x { small_val = 0 },
            refl,
            record {
              width = rx.width;
              positive = rx.positive;
              fits = pow-pos w;
              holds = inl (narrow, refl);
            },
          )
    | inr (wide, e) ↦
        rw (lt→ltb 64 x.size (rw rx.width wide), emptied h)
          (
            record x { big_val = pos 0 },
            refl,
            record {
              width = rx.width;
              positive = rx.positive;
              fits = pow-pos w;
              holds = inr (wide, refl);
            },
          )
  ]

  divided :
      v < w
      → Yields
          (if is_big x
            then ok (record x { big_val = copy_bits x.big_val v (x.size - v) 0 (pos 0) })
            else adjust_bits (record x { small_val = x.small_val / 2 ^ v }))
          w
          (a / 2 ^ v)
  divided h = elim rx.holds [
    | inl (narrow, e) ↦ rw (ge→ltb 64 x.size (rw rx.width narrow)) (
        adjust-small (record x { small_val = x.small_val / 2 ^ v }) w (a / 2 ^ v) rx.width
          rx.positive narrow (rw e (below_u64 w (a / 2 ^ v) narrow same_fits))
          (rw e (mod-eq_of_lt same_fits)))
    | inr (wide, e) ↦ rw (lt→ltb 64 x.size (rw rx.width wide)) (
      record x { big_val = copy_bits x.big_val v (x.size - v) 0 (pos 0) },
      refl,
      record {
        width = rx.width;
        positive = rx.positive;
        fits = same_fits;
        holds = inr (
          wide,
          ap (λ t. copy_bits x.big_val v (t - v) 0 (pos 0)) rx.width
              ∙ copied w a rx wide v (w - v)
              ∙ ap pos (mod-eq_of_lt (kept h)),
        );
      },
    )
  ]

  -- Of a constant of width w that holds a, `lshr` by any count v gives the constant of width w that
  -- holds a / 2 ^ v, on the 64-bit and on the GMP representation.
  pub lshr_refines : Yields (lshr x v) w (a / 2 ^ v)
  unfolding lshr
  lshr_refines = elim (Bool-cases (v == 0)) [
    | inl none_shifted ↦ rw (none_shifted, ==→eq v 0 none_shifted, div-one a) (x, refl, rx)
    | inr some_shifted ↦ elim (Bool-cases (leb x.size v)) [
      | inl out ↦ rw (some_shifted, out) (cleared (rw rx.width at (leb→le x.size v out)))
      | inr inside ↦ rw (some_shifted, inside) (divided (rw rx.width at (leb→gt x.size v inside)))
    ]
  ]
