-- ===== src/BvConst/Signed.antt =====
-- The signed reading of a `BVConst`: sign extension and, up to 64 bits, the signed order.
use native.Mathlib.Numerals.{add-one}
use native.Mathlib.Nat.{add-zero, div-eq_of_lt, div-eq_of_lt-le, mod-eq_of_lt}
use naaz.Base.{
  ℕ, zero, suc, ◌+◌, ◌-◌, ◌*◌, ◌/◌, ◌%◌, ◌^◌, ◌≤◌, ◌<◌, ◌≡◌, refl, sym, ◌∙◌, ap, ap₂, subst, arith,
}
use naaz.Base.{
  inl, inr, bit_and, bit_or, Bool, true, if◌then◌else◌, ltb, leb, ◌==◌, Bool-cases, ◌&&◌,
}
use naaz.Base.{ltb→lt, lt→ltb, ge→ltb, ltb→ge, leb→le, le→leb, leb→gt, ==→eq, ne→==, eq→ne}
use naaz.Base.{ℤ, pos, negsuc, ok}
use naaz.Base.Pow.{pow-pos, pow-add, pow_suc, pow_mono, mod-u64_sub}
use naaz.Base.Bits.{bit_or_disjoint, bit_or_comm, bit_and_single}
use naaz.Platform.{Platform}
use naaz.BvConst.{BvConst}
use naaz.Base.{ltb_ℤ}
use naaz.BvConst.Represents.{
  Represents, Yields, adjust-small, setbit_above, as_mpz_of, small_of, wide_of, same_size,
}
use naaz.BvConst.Word.{signed64, sign_mask, sext_word}
use naaz.BvConst.Resize.{set_bits, sext}
use naaz.BvConst.Compare.{slt}

-- The integer that `v` stands for at width `w`, in two's complement.
abbrev pub to_signed : ℕ → ℕ → ℤ
to_signed w v = if ltb v (2 ^ (w - 1)) then pos v else negsuc (2 ^ w - v - 1)

-- The value of the extension from `w` to `n` digits.
abbrev pub sign_extended : ℕ → ℕ → ℕ → ℕ
sign_extended w n v = if ltb v (2 ^ (w - 1)) then v else v + (2 ^ n - 2 ^ w)

all_below : ℕ → (ℕ → Bool) → Bool
all_below zero test = true
all_below (suc n) test = test n && all_below n test

all_below_sound :
    (n : ℕ) (test : ℕ → Bool) (i : ℕ) → all_below n test ≡ true → i < n → test i ≡ true
unfolding all_below
all_below_sound zero test i h lt = absurd (omega arith)
all_below_sound (suc n) test i h lt = ground (arith, all_below_sound n test i)

sign_masks : all_below 63 (λ i. sign_mask (suc i) == 2 ^ 64 - 2 ^ suc i) ≡ true
unfolding all_below
sign_masks = refl

sign_mask_value : (i : ℕ) → i < 63 → sign_mask (suc i) ≡ 2 ^ 64 - 2 ^ suc i
sign_mask_value i h = ==→eq _ _ (all_below_sound 63 _ i sign_masks h)

half_of : (i : ℕ) → 2 ^ suc i ≡ 2 * 2 ^ i
half_of i = pow_suc i

top_digit_clear : (i v : ℕ) → v < 2 ^ i → bit_and v (2 ^ i) ≡ 0
top_digit_clear i v h = bit_and_single i v ∙ ap (λ t. t % 2 * 2 ^ i) (div-eq_of_lt h) ∙ omega arith

top_digit_set : (i v : ℕ) → 2 ^ i ≤ v → v < 2 ^ suc i → bit_and v (2 ^ i) ≡ 2 ^ i
top_digit_set i v h k = bit_and_single i v ∙ ap (λ t. t % 2 * 2 ^ i) one_above ∙ omega arith
  where
    one_above : v / 2 ^ i ≡ 1
    one_above = div-eq_of_lt-le {k = 1} (2 ^ i) (omega arith) (omega (arith, half_of i))

-- The sign bits above the digits of `v`.
or_mask :
    (i v : ℕ) → i < 63 → v < 2 ^ suc i → bit_or v (sign_mask (suc i)) ≡ v + (2 ^ 64 - 2 ^ suc i)
or_mask i v h k =
    ap (bit_or v) (sign_mask_value i h ∙ as_field)
    ∙ bit_or_comm v ((2 ^ (63 - i) - 1) * 2 ^ suc i)
    ∙ bit_or_disjoint (suc i) (2 ^ (63 - i) - 1) v k
    ∙ omega (arith, as_field)
  where
    total : 63 - i + suc i ≡ 64
    total = omega arith

    split : 2 ^ (63 - i) * 2 ^ suc i ≡ 2 ^ 64
    split = sym (pow-add (63 - i) (suc i)) ∙ ap (λ t. 2 ^ t) total

    predecessor : 2 ^ (63 - i) ≡ suc (2 ^ (63 - i) - 1)
    predecessor = omega (arith, pow-pos (63 - i))

    as_field : 2 ^ 64 - 2 ^ suc i ≡ (2 ^ (63 - i) - 1) * 2 ^ suc i
    as_field = omega (arith, split, ap (λ (t : ℕ). t * 2 ^ suc i) predecessor)

less_one : (i : ℕ) → suc i - 1 ≡ i
less_one i = omega arith

unextended : (i v : ℕ) → suc i ≡ 64 → v ≡ sign_extended (suc i) 64 v
unextended i v h = elim (Bool-cases (ltb v (2 ^ (suc i - 1)))) [
  | inl low ↦ rw low
  | inr high ↦ rw (high, h) (omega arith)
]

pub sext_word_lem :
    (w v : ℕ) → 0 < w → w ≤ 64 → v < 2 ^ w → sext_word v w ≡ ok (sign_extended w 64 v)
unfolding sext_word
sext_word_lem zero v h k fits = absurd (omega arith)
sext_word_lem (suc i) v h k fits = elim (Bool-cases (suc i == 64)) [
  | inl full ↦ rw (le→leb (suc i) 64 k, full) (ap ok (unextended i v (==→eq _ _ full)))
  | inr part ↦ elim (Bool-cases (ltb v (2 ^ i))) [
    | inl low ↦
        rw (le→leb (suc i) 64 k, part, less_one i, top_digit_clear i v (ltb→lt _ _ low), low)
    | inr high ↦
        rw
          (
            le→leb (suc i) 64 k,
            part,
            less_one i,
            top_digit_set i v (ltb→ge _ _ high) fits,
            ne→== (2 ^ i) 0 (omega (arith, pow-pos i)),
            high,
          )
          (ap ok (or_mask i v (omega (arith, eq→ne _ _ part)) fits))
  ]
]

signed_word :
    (w v : ℕ) → 0 < w → w ≤ 64 → v < 2 ^ w → signed64 (sign_extended w 64 v) ≡ to_signed w v
signed_word zero v h k fits = absurd (omega arith)
signed_word (suc i) v h k fits = elim (Bool-cases (ltb v (2 ^ (suc i - 1)))) [
  | inl low ↦ rw (
    low,
    lt→ltb v (2 ^ 63)
        (omega (arith, rw (less_one i) at (ltb→lt _ _ low), pow_mono i 63 (omega arith))),
  )
  | inr high ↦
      rw
        (
          high,
          ge→ltb (v + (2 ^ 64 - 2 ^ suc i)) (2 ^ 63) (
              omega (
                arith,
                rw (less_one i) at (ltb→ge _ _ high),
                half_of i,
                pow_mono i 63 (omega arith),
              )),
        )
        (ap negsuc (omega (arith, pow_mono (suc i) 64 k)))
]

-- The digit that the source reads as the sign.
sign_digit_low : (w v : ℕ) → v < 2 ^ (w - 1) → v / 2 ^ (w - 1) % 2 ≡ 0
sign_digit_low w v h = ap (λ t. t % 2) (div-eq_of_lt h)

sign_digit_high : (w v : ℕ) → 0 < w → 2 ^ (w - 1) ≤ v → v < 2 ^ w → v / 2 ^ (w - 1) % 2 ≡ 1
sign_digit_high zero v h k fits = absurd (omega arith)
sign_digit_high (suc i) v h k fits = rw (less_one i) (
    ap (λ t. t % 2)
      (div-eq_of_lt-le {k = 1} (2 ^ i) (omega (arith, rw (less_one i) at k))
        (omega (arith, half_of i))))

module _ ⦃p : Platform⦄ where
  set_bits_lem :
      (count i t : ℕ) → t < 2 ^ i → set_bits count i (pos t) ≡ pos (t + (2 ^ (i + count) - 2 ^ i))
  unfolding set_bits
  set_bits_lem zero i t h = ap pos (omega (arith, ap (λ e. 2 ^ e) (add-zero i)))
  set_bits_lem (suc count) i t h = rw (setbit_above t i h) (
      set_bits_lem count (i + 1) (t + 2 ^ i) (omega (arith, next_power))
      ∙ ap pos (
          omega (
            arith,
            ap (λ e. 2 ^ e) exponents,
            next_power,
            pow_mono (i + 1) (i + 1 + count) (omega arith),
          )))
    where
      next_power : 2 ^ (i + 1) ≡ 2 * 2 ^ i
      next_power = rw (add-one i) (pow_suc i)

      exponents : i + 1 + count ≡ i + suc count
      exponents = omega arith

module _ ⦃p : Platform⦄ (w a b : ℕ) {x y : BvConst} (rx : Represents w a x)
    (ry : Represents w b y) where
  -- Of two constants of one width w of at most 64 bits that hold a and b, `slt` tells whether the
  -- integer that a stands for in two's complement is below that of b.
  pub slt_refines : w ≤ 64 → slt x y ≡ ok (ltb_ℤ (to_signed w a) (to_signed w b))
  unfolding slt
  slt_refines narrow =
      rw
        (
          same_size rx ry,
          ge→ltb 64 x.size (rw rx.width narrow),
          small_of rx narrow,
          small_of ry narrow,
          rx.width,
          sext_word_lem w a rx.positive narrow rx.fits,
          sext_word_lem w b rx.positive narrow ry.fits,
        )
        (ap₂ (λ s t. ok (ltb_ℤ s t)) (signed_word w a rx.positive narrow rx.fits)
          (signed_word w b rx.positive narrow ry.fits))

  sign_of_x : 64 < w → p.mpz_tstbit x.big_val (x.size - 1) ≡ a / 2 ^ (w - 1) % 2
  sign_of_x wide = rw (wide_of rx wide, rx.width) (p.tstbit_pos a (w - 1))

  sign_of_y : 64 < w → p.mpz_tstbit y.big_val (x.size - 1) ≡ b / 2 ^ (w - 1) % 2
  sign_of_y wide = rw (wide_of ry wide, rx.width) (p.tstbit_pos b (w - 1))

  -- Of two constants of one width above 64 bits, `slt` returns true where the first is non-negative
  -- and the second negative, although the first is then the greater integer.
  pub slt_wide_wrong : 64 < w → a < 2 ^ (w - 1) → 2 ^ (w - 1) ≤ b → slt x y ≡ ok true
  unfolding slt
  slt_wide_wrong wide low high = rw (
    same_size rx ry,
    lt→ltb 64 x.size (rw rx.width wide),
    sign_of_x wide,
    sign_of_y wide,
    sign_digit_low w a low,
    sign_digit_high w b rx.positive high ry.fits,
  )

  pub slt_wide_negative : 64 < w → 2 ^ (w - 1) ≤ a → b < 2 ^ (w - 1) → slt x y ≡ ok true
  unfolding slt
  slt_wide_negative wide high low = rw (
    same_size rx ry,
    lt→ltb 64 x.size (rw rx.width wide),
    sign_of_x wide,
    sign_of_y wide,
    sign_digit_low w b low,
    sign_digit_high w a rx.positive high rx.fits,
  )

module _ ⦃p : Platform⦄ (w a : ℕ) {x : BvConst} (rx : Represents w a x) where
  extended_digits :
      (n : ℕ)
      → w ≤ n
      → (if p.mpz_tstbit (pos a) (w - 1) == 1 then set_bits (n - w) w (pos a) else pos a)
        ≡ pos (sign_extended w n a)
  extended_digits n h = elim (Bool-cases (ltb a (2 ^ (w - 1)))) [
    | inl low ↦ rw (p.tstbit_pos a (w - 1), sign_digit_low w a (ltb→lt _ _ low), low)
    | inr high ↦
        rw (p.tstbit_pos a (w - 1), sign_digit_high w a rx.positive (ltb→ge _ _ high) rx.fits, high)
          (set_bits_lem (n - w) w a rx.fits ∙ ap (λ e. pos (a + (2 ^ e - 2 ^ w))) reached)
  ]
    where
      reached : w + (n - w) ≡ n
      reached = omega arith

  sign_extended-lt : (n : ℕ) → w ≤ n → sign_extended w n a < 2 ^ n
  sign_extended-lt n h = elim (Bool-cases (ltb a (2 ^ (w - 1)))) [
    | inl low ↦ rw low (omega (arith, rx.fits, pow_mono w n h))
    | inr high ↦ rw high (omega (arith, rx.fits, pow_mono w n h))
  ]

  sign_extended-same : sign_extended w w a ≡ a
  sign_extended-same = elim (Bool-cases (ltb a (2 ^ (w - 1)))) [
    | inl low ↦ rw low
    | inr high ↦ rw high (omega arith)
  ]

  narrowed : (n : ℕ) → w ≤ n → n ≤ 64 → sign_extended w 64 a % 2 ^ n ≡ sign_extended w n a
  narrowed n h k = elim (Bool-cases (ltb a (2 ^ (w - 1)))) [
    | inl low ↦ rw low (mod-eq_of_lt (omega (arith, rx.fits, pow_mono w n h)))
    | inr high ↦ rw high (
        ap (λ t. t % 2 ^ n)
          (let e : a + (2 ^ 64 - 2 ^ w) ≡ a + 2 ^ 64 - 2 ^ w =
              omega (arith, pow_mono w 64 (omega arith)) in
            e)
        ∙ mod-u64_sub a (2 ^ w) n k (pow_mono w n h)
        ∙ mod-eq_of_lt (omega (arith, rx.fits, pow_mono w n h))
        ∙ omega (arith, pow_mono w n h))
  ]

  -- `sext` of a constant of width w that holds a to a width n that is not smaller gives the
  -- constant of width n that holds the sign extension of a, also from at most 64 bits to more.
  pub sext_refines : (n : ℕ) → w ≤ n → Yields (sext x n) n (sign_extended w n a)
  unfolding sext
  sext_refines n h = elim (Bool-cases (n == x.size)) [
    | inl same ↦
        let at_w : n ≡ w = ==→eq n x.size same ∙ rx.width in
        rw (le→leb x.size n (rw rx.width h), same) (x, refl, rw (at_w, sign_extended-same) rx)
    | inr grown ↦ elim (Bool-cases (leb n 64)) [
      | inl narrow ↦
          let below : n ≤ 64 = leb→le n 64 narrow in
          rw
            (
              le→leb x.size n (rw rx.width h),
              grown,
              narrow,
              small_of rx (omega arith),
              ap (sext_word a) rx.width ∙ sext_word_lem w a rx.positive (omega arith) rx.fits,
            )
            (adjust-small (record x { size = n; small_val = sign_extended w 64 a }) n
              (sign_extended w n a) refl (omega (arith, rx.positive)) below
              (sign_extended-lt 64 (omega arith)) (narrowed n h below))
      | inr wide ↦
          rw (le→leb x.size n (rw rx.width h), grown, wide, as_mpz_of rx)
            (
              _,
              refl,
              record {
                width = refl;
                positive = omega (arith, rx.positive);
                fits = sign_extended-lt n h;
                holds = inr (
                  leb→gt n 64 wide,
                  subst
                      (λ s.
                        (if p.mpz_tstbit (pos a) (s - 1) == 1
                          then set_bits (n - s) s (pos a)
                          else pos a)
                        ≡ pos (sign_extended w n a))
                      (sym rx.width) (extended_digits n h),
                );
              },
            )
    ]
  ]
