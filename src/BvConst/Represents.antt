-- ===== src/BvConst/Represents.antt =====
-- A constant against the abstract bit vector of width `w` and value `v`, and what `adjust_bits`
-- makes of any contents of the fields.
use native.Mathlib.Nat.{mod-mod_of_dvd, mod-eq_of_lt, div-eq_of_lt, dvd-mul_right, mod-le, mod-mod}
use native.Mathlib.Nat.{add-mul-mod_self_right, mul-add-mod_self_right, div-add-mod', div-one}
use native.Mathlib.Numerals.{add-one}
use Prim.Native.Nat.{◌∣◌}
use naaz.Base.{
  ℕ, zero, suc, ◌+◌, ◌-◌, ◌*◌, ◌/◌, ◌%◌, ◌^◌, ◌≤◌, ◌<◌, ◌≡◌, refl, sym, ◌∙◌, ap, subst, arith,
}
use naaz.Base.{◌⊎◌, inl, inr, bit_and, false, if◌then◌else◌, ltb, leb, ◌==◌, Bool-cases}
use naaz.Base.{ltb→lt, lt→ltb, ge→ltb, ltb→ge, leb→le, le→leb, leb→gt, ==_refl, ==→eq, ne→==}
use naaz.Base.{ℤ, pos, negsuc, mod_ℤ, magnitude, Outcome, ok}
use naaz.Base.Pow.{pow-pos, pow-add, pow_suc, pow_mono, mod-pow-lt, div-pow-suc, mod-pow-suc_low}
use naaz.Base.Bits.{bit_and_mask}
use naaz.Platform.{Platform}
use naaz.BvConst.{
  BvConst, u64, bitmask, copy_bits, adjust_big, adjust_bits, check_size_or_die, as_mpz,
}

pub record Represents (w v : ℕ) (c : BvConst) : Type 0 where
  pub width : c.size ≡ w
  pub positive : 0 < w
  pub fits : v < 2 ^ w
  pub holds : ((w ≤ 64) × (c.small_val ≡ v)) ⊎ ((64 < w) × (c.big_val ≡ pos v))

-- The call returns a constant of width `w` and value `v`.
abbrev pub Yields : Outcome BvConst → ℕ → ℕ → Type 0
Yields r w v = (c : BvConst) × (r ≡ ok c) × Represents w v c

pub bitmask_ok : (s : ℕ) → 0 < s → s ≤ 64 → bitmask s ≡ ok (2 ^ s - 1)
unfolding bitmask
bitmask_ok zero h k = absurd (omega arith)
bitmask_ok (suc s) h k = rw (le→leb (suc s) 64 k, lt→ltb 0 (suc s) h) (ap ok masked)
  where
    small : 2 ^ s ≤ 2 ^ 63
    small = pow_mono s 63 (omega arith)

    masked : u64 (u64 (2 * 2 ^ (suc s - 1)) + 2 ^ 64 - 1) ≡ 2 ^ suc s - 1
    masked =
        rw (let e : suc s - 1 ≡ s = omega arith in e) (omega (arith, small, pow_suc s, pow-pos s))

-- A value below 2 ^ 64 keeps its residue at a smaller width.
pub mod-u64 : (n w : ℕ) → w ≤ 64 → n % 2 ^ 64 % 2 ^ w ≡ n % 2 ^ w
mod-u64 n w h =
    mod-mod_of_dvd (2 ^ w) n (subst (λ t. 2 ^ w ∣ t) split (dvd-mul_right (2 ^ w) (2 ^ (64 - w))))
  where
    total : w + (64 - w) ≡ 64
    total = omega arith

    split : 2 ^ w * 2 ^ (64 - w) ≡ 2 ^ 64
    split = sym (pow-add w (64 - w)) ∙ ap (λ t. 2 ^ t) total

-- The digit that `mpz_tstbit` reads.
abbrev pub bit_ℤ : ℤ → ℕ → ℕ
bit_ℤ (pos n) i = n / 2 ^ i % 2
bit_ℤ (negsuc n) i = 1 - n / 2 ^ i % 2

-- `z` without its lowest `i` digits.
abbrev pub drop_ℤ : ℤ → ℕ → ℤ
drop_ℤ (pos n) i = pos (n / 2 ^ i)
drop_ℤ (negsuc n) i = negsuc (n / 2 ^ i)

next_digit : (n off : ℕ) → n / 2 ^ off / 2 ≡ n / 2 ^ (off + 1)
next_digit n off = sym (rw (add-one off) (div-pow-suc n off))

mod_ℤ-pow-suc :
    (z : ℤ) (off count : ℕ)
    → mod_ℤ (drop_ℤ z off) (2 ^ suc count)
      ≡ bit_ℤ z off + 2 * mod_ℤ (drop_ℤ z (off + 1)) (2 ^ count)
mod_ℤ-pow-suc (pos n) off count =
    mod-pow-suc_low (n / 2 ^ off) count
    ∙ ap (λ t. n / 2 ^ off % 2 + 2 * (t % 2 ^ count)) (next_digit n off)
mod_ℤ-pow-suc (negsuc n) off count = omega (
  arith,
  mod-pow-suc_low (n / 2 ^ off) count,
  ap (λ t. t % 2 ^ count) (next_digit n off),
  pow_suc count,
  mod-pow-lt (n / 2 ^ (off + 1)) count,
)

bit_ℤ-lt : (z : ℤ) (i : ℕ) → bit_ℤ z i < 2
bit_ℤ-lt (pos n) i = omega arith
bit_ℤ-lt (negsuc n) i = omega arith

pub mod_ℤ-lt : (z : ℤ) (w : ℕ) → mod_ℤ z (2 ^ w) < 2 ^ w
mod_ℤ-lt (pos n) w = mod-pow-lt n w
mod_ℤ-lt (negsuc n) w = omega (arith, pow-pos w)

pow_add_one : (i : ℕ) → 2 ^ (i + 1) ≡ 2 * 2 ^ i
pow_add_one i = rw (add-one i) (pow_suc i)

digit_fits : (b t i : ℕ) → b < 2 → t < 2 ^ i → t + b * 2 ^ i < 2 ^ (i + 1)
digit_fits zero t i hb h = omega (arith, pow_add_one i)
digit_fits (suc zero) t i hb h = omega (arith, pow_add_one i)
digit_fits (suc (suc b)) t i hb h = absurd (omega arith)

drop_multiple : (n m d : ℕ) → d ≤ n / m → (n - d * m) % m ≡ n % m
drop_multiple n m d h =
    ap (λ t. t % m) regrouped ∙ mul-add-mod_self_right (n / m - d) m (n % m) ∙ mod-mod n m
  where
    regrouped : n - d * m ≡ (n / m - d) * m + n % m
    regrouped = grind (
      arith,
      div-add-mod' n m,
      ap (λ (t : ℕ). t * m) (let e : n / m ≡ (n / m - d) + d = omega arith in e),
    )

too_long : (n m : ℕ) → 0 < m → suc (n + (1 - n / m % 2) * m) < m → ⊥
too_long n m h short = grind (arith, div-add-mod' n m)

drop-zero : (z : ℤ) → drop_ℤ z 0 ≡ z
drop-zero (pos n) = ap pos (div-one n)
drop-zero (negsuc n) = ap negsuc (div-one n)

module _ ⦃p : Platform⦄ where
  pub tstbit_bit : (z : ℤ) (i : ℕ) → p.mpz_tstbit z i ≡ bit_ℤ z i
  tstbit_bit (pos n) i = p.tstbit_pos n i
  tstbit_bit (negsuc n) i = p.tstbit_negsuc n i

  -- Above its digits a number reads 0, so a write there adds the digit or changes nothing.
  pub setbit_above : (t i : ℕ) → t < 2 ^ i → p.mpz_setbit (pos t) i ≡ pos (t + 2 ^ i)
  setbit_above t i h = rw (p.setbit_law t i, div-eq_of_lt h) (ap pos (omega arith))

  pub clrbit_above : (t i : ℕ) → t < 2 ^ i → p.mpz_clrbit (pos t) i ≡ pos t
  clrbit_above t i h = rw (p.clrbit_pos t i, div-eq_of_lt h) (ap pos (omega arith))

  put_digit :
      (b t i : ℕ)
      → b < 2
      → t < 2 ^ i
      → (if b == 0 then p.mpz_clrbit (pos t) i else p.mpz_setbit (pos t) i) ≡ pos (t + b * 2 ^ i)
  put_digit zero t i hb h = clrbit_above t i h ∙ ap pos (omega arith)
  put_digit (suc zero) t i hb h = setbit_above t i h ∙ ap pos (omega arith)
  put_digit (suc (suc b)) t i hb h = absurd (omega arith)

  -- The loop that copies digits writes those of `src` from `i + off` on above the digits of `t`.
  pub copy_bits_lem :
      (src : ℤ) (off count i t : ℕ)
      → t < 2 ^ i
      → copy_bits src off count i (pos t)
        ≡ pos (t + mod_ℤ (drop_ℤ src (i + off)) (2 ^ count) * 2 ^ i)
  unfolding copy_bits
  copy_bits_lem src off zero i t h = ap pos (omega (arith, ap (λ (m : ℕ). m * 2 ^ i) nothing))
    where
      nothing : mod_ℤ (drop_ℤ src (i + off)) (2 ^ 0) ≡ 0
      nothing = omega (arith, mod_ℤ-lt (drop_ℤ src (i + off)) 0)
  copy_bits_lem src off (suc count) i t h =
      let b = bit_ℤ src (i + off) in
      rw (tstbit_bit src (i + off), put_digit b t i (bit_ℤ-lt src (i + off)) h)
        (copy_bits_lem src off count (i + 1) (t + b * 2 ^ i)
            (digit_fits b t i (bit_ℤ-lt src (i + off)) h)
          ∙ ap pos (
              omega (
                arith,
                ap (λ (m : ℕ). m * 2 ^ i) (mod_ℤ-pow-suc src (i + off) count),
                ap (λ (m : ℕ). mod_ℤ (drop_ℤ src m) (2 ^ count) * 2 ^ (i + 1)) shifted,
                ap (λ (m : ℕ). mod_ℤ (drop_ℤ src (i + off + 1)) (2 ^ count) * m) (pow_add_one i),
              )))
    where
      shifted : i + 1 + off ≡ i + off + 1
      shifted = omega arith

  -- Clearing bit `w` keeps the residue modulo 2 ^ w.
  clrbit-mod : (z : ℤ) (w : ℕ) → mod_ℤ (p.mpz_clrbit z w) (2 ^ w) ≡ mod_ℤ z (2 ^ w)
  clrbit-mod (pos n) w =
      rw (p.clrbit_pos n w) (drop_multiple n (2 ^ w) (n / 2 ^ w % 2) (mod-le (n / 2 ^ w) 2))
  clrbit-mod (negsuc n) w =
      rw (p.clrbit_negsuc n w)
        (ap (λ (t : ℕ). 2 ^ w - 1 - t) (add-mul-mod_self_right n (1 - n / 2 ^ w % 2) (2 ^ w)))

  -- What is left fits in `w` digits only if it is the residue.
  short_is_residue :
      (z : ℤ) (w : ℕ)
      → magnitude (p.mpz_clrbit z w) < 2 ^ w
      → p.mpz_clrbit z w ≡ pos (mod_ℤ z (2 ^ w))
  short_is_residue (pos n) w h =
      p.clrbit_pos n w
      ∙ ap pos (
          sym (mod-eq_of_lt (rw (p.clrbit_pos n w) at h))
          ∙ drop_multiple n (2 ^ w) (n / 2 ^ w % 2) (mod-le (n / 2 ^ w) 2))
  short_is_residue (negsuc n) w h =
      absurd (too_long n (2 ^ w) (pow-pos w) (rw (p.clrbit_negsuc n w) at h))

  rebuilt :
      (z : ℤ) (w : ℕ)
      → p.mpz_clrbit (copy_bits (p.mpz_clrbit z w) 0 w 0 (pos 0)) w ≡ pos (mod_ℤ z (2 ^ w))
  rebuilt z w = ap (λ t. p.mpz_clrbit t w) copied ∙ clrbit_above (mod_ℤ z (2 ^ w)) w (mod_ℤ-lt z w)
    where
      copied : copy_bits (p.mpz_clrbit z w) 0 w 0 (pos 0) ≡ pos (mod_ℤ z (2 ^ w))
      copied =
          copy_bits_lem (p.mpz_clrbit z w) 0 w 0 0 (omega arith)
          ∙ ap pos (
              omega
                (arith, ap (λ t. mod_ℤ t (2 ^ w)) (drop-zero (p.mpz_clrbit z w)), clrbit-mod z w))

  -- `adjust_bits` above 64 bits turns any integer, negative ones too, into its residue modulo 2 ^ w
  -- at a width w above 0, and its assertion holds.
  pub adjust_big_lem : (z : ℤ) (w : ℕ) → 0 < w → adjust_big z w ≡ ok (pos (mod_ℤ z (2 ^ w)))
  unfolding adjust_big
  adjust_big_lem z w h = elim (Bool-cases (ltb w (p.mpz_size (p.mpz_clrbit z w)))) [
    | inl long ↦ rw (
      long,
      rebuilt z w,
      le→leb (p.mpz_size (pos (mod_ℤ z (2 ^ w)))) w
          ((p.size_law (pos (mod_ℤ z (2 ^ w))) w h).1 (mod_ℤ-lt z w)),
    )
    | inr short ↦
        rw short
          (ap ok (short_is_residue z w ((p.size_law (p.mpz_clrbit z w) w h).0 (ltb→ge _ _ short))))
  ]

  -- What `adjust_bits` returns, by the width.
  pub adjust-small :
      (c : BvConst) (w v : ℕ)
      → c.size ≡ w
      → 0 < w
      → w ≤ 64
      → c.small_val < 2 ^ 64
      → c.small_val % 2 ^ w ≡ v
      → Yields (adjust_bits c) w v
  unfolding adjust_bits
  adjust-small c w v width positive narrow fits e = elim (Bool-cases (c.size == 64)) [
    | inl full ↦
        let at_64 : w ≡ 64 = sym width ∙ ==→eq _ _ full in
        let kept : c.small_val ≡ v = sym (mod-eq_of_lt (rw at_64 fits)) ∙ e in
        rw full (
          c,
          refl,
          record {
            width = width;
            positive = positive;
            fits = rw (← e) (mod-pow-lt c.small_val w);
            holds = inl (narrow, kept);
          },
        )
    | inr part ↦
        rw
          (
            part,
            ge→ltb 64 c.size (rw width narrow),
            ap bitmask width ∙ bitmask_ok w positive narrow,
          )
          (
            record c { small_val = bit_and c.small_val (2 ^ w - 1) },
            refl,
            record {
              width = width;
              positive = positive;
              fits = rw (← e) (mod-pow-lt c.small_val w);
              holds = inl (narrow, bit_and_mask w c.small_val ∙ e);
            },
          )
  ]

  pub adjust-wide :
      (c : BvConst) (w v : ℕ)
      → c.size ≡ w
      → 64 < w
      → mod_ℤ c.big_val (2 ^ w) ≡ v
      → Yields (adjust_bits c) w v
  unfolding adjust_bits
  adjust-wide c w v width wide e =
      let adjusted : adjust_big c.big_val c.size ≡ ok (pos (mod_ℤ c.big_val (2 ^ w))) =
        ap (adjust_big c.big_val) width ∙ adjust_big_lem c.big_val w (omega arith) in
      let not_64 : (c.size == 64) ≡ false = ne→== c.size 64 (rw width (omega arith)) in
      rw (not_64, lt→ltb 64 c.size (rw width wide), adjusted)
        (
          record c { big_val = pos (mod_ℤ c.big_val (2 ^ w)) },
          refl,
          record {
            width = width;
            positive = omega arith;
            fits = rw (← e) (mod_ℤ-lt c.big_val w);
            holds = inr (wide, ap pos e);
          },
        )

  -- A test of the width picks the fields that `adjust_bits` gets.
  pub adjust_split :
      (wide_case small_case : BvConst) (x w v : ℕ)
      → x ≡ w
      → 0 < w
      → wide_case.size ≡ w
      → small_case.size ≡ w
      → (64 < w → mod_ℤ wide_case.big_val (2 ^ w) ≡ v)
      → (w ≤ 64 → (small_case.small_val < 2 ^ 64) × (small_case.small_val % 2 ^ w ≡ v))
      → Yields (adjust_bits (if ltb 64 x then wide_case else small_case)) w v
  adjust_split l r x w v e positive el er wide small = elim (Bool-cases (ltb 64 x)) [
    | inl h ↦
        let above : 64 < w = rw e at (ltb→lt 64 x h) in
        rw h (adjust-wide l w v el above (wide above))
    | inr h ↦
        let below : w ≤ 64 = rw e at (ltb→ge 64 x h) in
        rw h (adjust-small r w v er positive below (small below).0 (small below).1)
  ]

  -- The same where the source tests `<= 64`.
  pub adjust_split_le :
      (small_case wide_case : BvConst) (x w v : ℕ)
      → x ≡ w
      → 0 < w
      → small_case.size ≡ w
      → wide_case.size ≡ w
      → (w ≤ 64 → (small_case.small_val < 2 ^ 64) × (small_case.small_val % 2 ^ w ≡ v))
      → (64 < w → mod_ℤ wide_case.big_val (2 ^ w) ≡ v)
      → Yields (adjust_bits (if leb x 64 then small_case else wide_case)) w v
  adjust_split_le l r x w v e positive el er small wide = elim (Bool-cases (leb x 64)) [
    | inl h ↦
        let below : w ≤ 64 = rw e at (leb→le x 64 h) in
        rw h (adjust-small l w v el positive below (small below).0 (small below).1)
    | inr h ↦
        let above : 64 < w = rw e at (leb→gt x 64 h) in
        rw h (adjust-wide r w v er above (wide above))
  ]

pub small_of : {w v : ℕ} {c : BvConst} → Represents w v c → w ≤ 64 → c.small_val ≡ v
small_of r h = elim r.holds [ inl e ↦ e.1 | inr e ↦ absurd (omega (arith, e.0)) ]

pub wide_of : {w v : ℕ} {c : BvConst} → Represents w v c → 64 < w → c.big_val ≡ pos v
wide_of r h = elim r.holds [ inl e ↦ absurd (omega (arith, e.0)) | inr e ↦ e.1 ]

pub same_size :
    {w a b : ℕ} {x y : BvConst}
    → Represents w a x
    → Represents w b y
    → check_size_or_die x y ≡ ok tt
unfolding check_size_or_die
same_size rx ry = rw (rx.width, ry.width, ==_refl _)

pub below_u64 : (w v : ℕ) → w ≤ 64 → v < 2 ^ w → v < 2 ^ 64
below_u64 w v h k = omega (arith, pow_mono w 64 h)

pub as_mpz_of : ⦃p : Platform⦄ {w v : ℕ} {c : BvConst} → Represents w v c → as_mpz c ≡ pos v
unfolding as_mpz
as_mpz_of {c} r = elim r.holds [
  | inl e ↦ rw (ge→ltb 64 c.size (rw r.width e.0)) (ap pos e.1)
  | inr e ↦ rw (lt→ltb 64 c.size (rw r.width e.0)) e.1
]
