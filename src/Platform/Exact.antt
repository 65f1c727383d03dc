-- ===== src/Platform/Exact.antt =====
-- A platform that meets the laws: integer arithmetic itself, and zeroed memory.
use Prim.Native.Nat.{zero, suc}
use naaz.Base.{ℕ, ◌+◌, ◌-◌, ◌*◌, ◌/◌, ◌%◌, ◌^◌, ◌<◌, ◌≤◌, ◌≡◌, ◌↔◌, refl, bit_and, bit_or, bit_xor}
use naaz.Base.{
  ℤ, pos, negsuc, ◌+ℤ◌, ◌-ℤ◌, ◌*ℤ◌, tdiv, trem, magnitude, sub_ℕ, ltb, pos_mul, if◌then◌else◌,
  arith,
}
use naaz.Base.{Bool-cases, inl, inr, ltb→lt, ltb→ge}
use naaz.Base.Pow.{pow_suc, pow-pos}
use naaz.Platform.{Platform}

-- The number of binary digits, at least 1; `n` rounds are enough for `n`.
unfoldable pub digit_count : ℕ → ℕ → ℕ
digit_count zero n = 1
digit_count (suc fuel) n = let rest = digit_count fuel (n / 2) in if ltb n 2 then 1 else suc rest

digit_count-pos : (f n : ℕ) → 0 < digit_count f n
unfolding digit_count
digit_count-pos zero n = omega arith
digit_count-pos (suc f) n = ground arith

digit_count_fits : (f n k : ℕ) → n ≤ f → digit_count f n ≤ suc k → n < 2 ^ suc k
unfolding digit_count
digit_count_fits zero n k h d = omega (arith, pow-pos (suc k))
digit_count_fits (suc f) n zero h d = elim (Bool-cases (ltb n 2)) [
  | inl small ↦ omega (arith, ltb→lt n 2 small)
  | inr large ↦ absurd (omega (arith, rw large at d, digit_count-pos f (n / 2)))
]
digit_count_fits (suc f) n (suc k) h d = elim (Bool-cases (ltb n 2)) [
  | inl small ↦ omega (arith, ltb→lt n 2 small, pow_suc (suc k), pow_suc k, pow-pos k)
  | inr large ↦ omega (
    arith,
    pow_suc (suc k),
    digit_count_fits f (n / 2) k (omega (arith, ltb→ge n 2 large)) (omega (arith, rw large at d)),
  )
]

fits_digit_count : (f n k : ℕ) → n ≤ f → n < 2 ^ suc k → digit_count f n ≤ suc k
unfolding digit_count
fits_digit_count zero n k h d = omega arith
fits_digit_count (suc f) n zero h d = ground arith
fits_digit_count (suc f) n (suc k) h d = elim (Bool-cases (ltb n 2)) [
  | inl small ↦ rw small (omega arith)
  | inr large ↦ rw large (
      omega (
        arith,
        fits_digit_count f (n / 2) k (omega (arith, ltb→ge n 2 large))
            (omega (arith, pow_suc (suc k))),
      ))
]

pub digit_count_iff : (n k : ℕ) → 0 < k → (digit_count n n ≤ k) ↔ (n < 2 ^ k)
digit_count_iff n zero h = absurd (omega arith)
digit_count_iff n (suc k) h =
    (digit_count_fits n n k (omega arith), fits_digit_count n n k (omega arith))

abbrev pub on_pos : (ℕ → ℕ → ℕ) → ℤ → ℤ → ℤ
on_pos f (pos a) (pos b) = pos (f a b)
on_pos f a b = pos 0

abbrev pub complement : ℤ → ℤ
complement (pos n) = negsuc n
complement (negsuc n) = pos n

abbrev pub scale : ℤ → ℕ → ℤ
scale z k = z *ℤ pos (2 ^ k)

abbrev pub digit : ℤ → ℕ → ℕ
digit (pos n) i = n / 2 ^ i % 2
digit (negsuc n) i = 1 - n / 2 ^ i % 2

abbrev pub put_one : ℤ → ℕ → ℤ
put_one (pos n) i = pos (n + (1 - n / 2 ^ i % 2) * 2 ^ i)
put_one (negsuc n) i = negsuc (n - n / 2 ^ i % 2 * 2 ^ i)

abbrev pub put_zero : ℤ → ℕ → ℤ
put_zero (pos n) i = pos (n - n / 2 ^ i % 2 * 2 ^ i)
put_zero (negsuc n) i = negsuc (n + (1 - n / 2 ^ i % 2) * 2 ^ i)

pub scale_law : (a k : ℕ) → scale (pos a) k ≡ pos (a * 2 ^ k)
scale_law a k = pos_mul a (2 ^ k)

pub cmp_iff : (a b : ℤ) → (a -ℤ b ≡ pos 0) ↔ (a ≡ b)
cmp_iff a b = ground arith

pub below :
    (a b : ℤ) → magnitude a < magnitude b → (n : ℕ) × (sub_ℕ (magnitude a) (magnitude b) ≡ negsuc n)
below a b h = (magnitude b - magnitude a - 1, ground arith)

pub above :
    (a b : ℤ) → magnitude b ≤ magnitude a → (n : ℕ) × (sub_ℕ (magnitude a) (magnitude b) ≡ pos n)
above a b h = (magnitude a - magnitude b, ground arith)

instance abbrev pub exact : Platform
exact = record {
  indeterminate = 0;
  mpz_add = ◌+ℤ◌;
  mpz_sub = ◌-ℤ◌;
  mpz_mul = ◌*ℤ◌;
  mpz_tdiv_q = tdiv;
  mpz_tdiv_r = trem;
  mpz_neg = λ z. pos 0 -ℤ z;
  mpz_and = on_pos bit_and;
  mpz_ior = on_pos bit_or;
  mpz_xor = on_pos bit_xor;
  mpz_com = complement;
  mpz_mul_2exp = scale;
  mpz_tstbit = digit;
  mpz_setbit = put_one;
  mpz_clrbit = put_zero;
  mpz_size = λ z. digit_count (magnitude z) (magnitude z);
  mpz_cmp = ◌-ℤ◌;
  mpz_cmpabs = λ a b. sub_ℕ (magnitude a) (magnitude b);
  mpz_get_ui = λ z. magnitude z % 2 ^ 64;
  add_law = λ a b. refl;
  sub_law = λ a b. refl;
  mul_law = λ a b. refl;
  neg_law = λ a. refl;
  tdiv_q_law = λ a b h. refl;
  tdiv_r_law = λ a b h. refl;
  and_law = λ a b. refl;
  ior_law = λ a b. refl;
  xor_law = λ a b. refl;
  com_law = λ a. refl;
  mul_2exp_law = scale_law;
  tstbit_pos = λ n i. refl;
  tstbit_negsuc = λ n i. refl;
  setbit_law = λ n i. refl;
  clrbit_pos = λ n i. refl;
  clrbit_negsuc = λ n i. refl;
  size_law = λ z k h. digit_count_iff (magnitude z) k h;
  cmp_law = cmp_iff;
  cmpabs_lt = below;
  cmpabs_ge = above;
  get_ui_law = λ n. refl;
}
