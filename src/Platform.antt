-- ===== src/Platform.antt =====
-- What expr/BVConst.cpp uses and does not implement: GMP's integers (gmpxx.h) and the bytes that
-- a field holds before it is first written. An `mpz_class` is the integer that it stands for; the
-- laws are those of the GMP manual, where bit functions read a negative number in two's complement.
pub mod Exact
use naaz.Base.{ℕ, ◌+◌, ◌-◌, ◌*◌, ◌/◌, ◌%◌, ◌^◌, ◌<◌, ◌≤◌, ◌≡◌, ◌↔◌, bit_and, bit_or, bit_xor}
use naaz.Base.{ℤ, pos, negsuc, ◌+ℤ◌, ◌-ℤ◌, ◌*ℤ◌, tdiv, trem, magnitude}

pub record Platform : Type 0 where
  -- what an uninitialised `uint64_t` field holds
  pub indeterminate : ℕ
  pub mpz_add : ℤ → ℤ → ℤ
  pub mpz_sub : ℤ → ℤ → ℤ
  pub mpz_mul : ℤ → ℤ → ℤ
  pub mpz_tdiv_q : ℤ → ℤ → ℤ
  pub mpz_tdiv_r : ℤ → ℤ → ℤ
  pub mpz_neg : ℤ → ℤ
  pub mpz_and : ℤ → ℤ → ℤ
  pub mpz_ior : ℤ → ℤ → ℤ
  pub mpz_xor : ℤ → ℤ → ℤ
  pub mpz_com : ℤ → ℤ
  pub mpz_mul_2exp : ℤ → ℕ → ℤ
  pub mpz_tstbit : ℤ → ℕ → ℕ
  pub mpz_setbit : ℤ → ℕ → ℤ
  pub mpz_clrbit : ℤ → ℕ → ℤ
  -- `mpz_sizeinbase (z, 2)`
  pub mpz_size : ℤ → ℕ
  pub mpz_cmp : ℤ → ℤ → ℤ
  pub mpz_cmpabs : ℤ → ℤ → ℤ
  pub mpz_get_ui : ℤ → ℕ
  pub add_law : (a b : ℤ) → mpz_add a b ≡ a +ℤ b
  pub sub_law : (a b : ℤ) → mpz_sub a b ≡ a -ℤ b
  pub mul_law : (a b : ℤ) → mpz_mul a b ≡ a *ℤ b
  pub neg_law : (a : ℤ) → mpz_neg a ≡ pos 0 -ℤ a
  pub tdiv_q_law : (a b : ℤ) → 0 < magnitude b → mpz_tdiv_q a b ≡ tdiv a b
  pub tdiv_r_law : (a b : ℤ) → 0 < magnitude b → mpz_tdiv_r a b ≡ trem a b
  pub and_law : (a b : ℕ) → mpz_and (pos a) (pos b) ≡ pos (bit_and a b)
  pub ior_law : (a b : ℕ) → mpz_ior (pos a) (pos b) ≡ pos (bit_or a b)
  pub xor_law : (a b : ℕ) → mpz_xor (pos a) (pos b) ≡ pos (bit_xor a b)
  pub com_law : (a : ℕ) → mpz_com (pos a) ≡ negsuc a
  pub mul_2exp_law : (a k : ℕ) → mpz_mul_2exp (pos a) k ≡ pos (a * 2 ^ k)
  pub tstbit_pos : (n i : ℕ) → mpz_tstbit (pos n) i ≡ n / 2 ^ i % 2
  pub tstbit_negsuc : (n i : ℕ) → mpz_tstbit (negsuc n) i ≡ 1 - n / 2 ^ i % 2
  pub setbit_law : (n i : ℕ) → mpz_setbit (pos n) i ≡ pos (n + (1 - n / 2 ^ i % 2) * 2 ^ i)
  pub clrbit_pos : (n i : ℕ) → mpz_clrbit (pos n) i ≡ pos (n - n / 2 ^ i % 2 * 2 ^ i)
  pub clrbit_negsuc : (n i : ℕ) → mpz_clrbit (negsuc n) i ≡ negsuc (n + (1 - n / 2 ^ i % 2) * 2 ^ i)
  pub size_law : (z : ℤ) (k : ℕ) → 0 < k → (mpz_size z ≤ k) ↔ (magnitude z < 2 ^ k)
  pub cmp_law : (a b : ℤ) → (mpz_cmp a b ≡ pos 0) ↔ (a ≡ b)
  pub cmpabs_lt : (a b : ℤ) → magnitude a < magnitude b → (n : ℕ) × (mpz_cmpabs a b ≡ negsuc n)
  pub cmpabs_ge : (a b : ℤ) → magnitude b ≤ magnitude a → (n : ℕ) × (mpz_cmpabs a b ≡ pos n)
  pub get_ui_law : (n : ℕ) → mpz_get_ui (pos n) ≡ n % 2 ^ 64
