-- ===== src/Base/Bits.antt =====
-- `&`, `|` and `^` on numbers: the law of the lowest digit, masks, disjoint fields and bounds.
use Prim.Native.Nat.{
  min, max, differ, digits, bitwise, bit_and-bitwise, bit_or-bitwise, bit_xor-bitwise,
}
use naaz.Base.{
  ℕ, zero, suc, ◌+◌, ◌-◌, ◌*◌, ◌/◌, ◌%◌, ◌^◌, ◌≤◌, ◌<◌, ◌≡◌, refl, sym, ◌∙◌, ap, arith, bit_and,
  bit_or, bit_xor,
}
use native.Mathlib.Nat.{div-div-eq-div-mul}
use naaz.Base.{Bool-cases, ltb, ltb→lt, ltb→ge, inl, inr}
use naaz.Base.Pow.{pow-pos, pow_suc, mod-pow-suc_low}

-- The native operations mean `digits`, whose first number is a bound on the rounds. A round that the
-- bound allows for nothing changes nothing, so every bound from the operand up gives one result.
module _ (rest : ℕ → ℕ) (digit : ℕ → ℕ → ℕ) where
  idle_round :
      (rounds m n : ℕ)
      → m ≤ rounds
      → digits rest digit (suc rounds) m n ≡ digits rest digit rounds m n
  idle_round rounds zero n enough = spent rounds
    where
      spent : (k : ℕ) → digits rest digit (suc k) 0 n ≡ digits rest digit k 0 n
      spent zero = refl
      spent (suc k) = refl
  idle_round zero (suc m) n enough = absurd (omega arith)
  idle_round (suc rounds) (suc m) n enough =
      rw (idle_round rounds (suc m / 2) (n / 2) (omega arith))

  enough_rounds :
      (rounds m n : ℕ) → m ≤ rounds → digits rest digit rounds m n ≡ bitwise rest digit m n
  enough_rounds zero m n enough = let none_left : m ≡ 0 = omega arith in rw none_left refl
  enough_rounds (suc rounds) m n enough = elim (Bool-cases (ltb m (suc rounds))) [
    | inl spare ↦
        let kept : m ≤ rounds = omega (arith, ltb→lt m (suc rounds) spare) in
        idle_round rounds m n kept ∙ enough_rounds rounds m n kept
    | inr exact ↦
        let all_used : m ≡ suc rounds = omega (arith, ltb→ge m (suc rounds) exact) in
        ap (λ k. digits rest digit k m n) (sym all_used)
  ]

  lowest_digit :
      (m n : ℕ)
      → digits rest digit (suc m) (suc m) n
        ≡ bitwise rest digit (suc m / 2) (n / 2) * 2 + digit (suc m % 2) (n % 2)
  lowest_digit m n =
      ap (λ high. high * 2 + digit (suc m % 2) (n % 2))
        (enough_rounds m (suc m / 2) (n / 2) (omega arith))

pub bit_xor_step : (m n : ℕ) → bit_xor m n ≡ bit_xor (m / 2) (n / 2) * 2 + differ (m % 2) (n % 2)
bit_xor_step (suc m) n = simp bit_xor-bitwise (lowest_digit (λ n. n) differ m n)
bit_xor_step zero n = simp bit_xor-bitwise (omega arith)

pub bit_and_step : (m n : ℕ) → bit_and m n ≡ bit_and (m / 2) (n / 2) * 2 + min (m % 2) (n % 2)
bit_and_step (suc m) n = simp bit_and-bitwise (lowest_digit (λ n. 0) min m n)
bit_and_step zero n = simp bit_and-bitwise (omega arith)

pub bit_or_step : (m n : ℕ) → bit_or m n ≡ bit_or (m / 2) (n / 2) * 2 + max (m % 2) (n % 2)
bit_or_step (suc m) n = simp bit_or-bitwise (lowest_digit (λ n. n) max m n)
bit_or_step zero n = simp bit_or-bitwise (omega arith)

-- Induction on a bound: every law below goes from `a / 2` to `a`.
and_zero_below : (n a : ℕ) → a ≤ n → bit_and a 0 ≡ 0
and_zero_below n zero h = refl
and_zero_below zero (suc a) h = absurd (omega arith)
and_zero_below (suc n) (suc a) h =
    omega (arith, bit_and_step (suc a) 0, and_zero_below n (suc a / 2) (omega arith))

pub bit_and-zero : (a : ℕ) → bit_and a 0 ≡ 0
bit_and-zero a = and_zero_below a a (omega arith)

or_comm_below : (n a b : ℕ) → a ≤ n → b ≤ n → bit_or a b ≡ bit_or b a
or_comm_below n zero zero p q = refl
or_comm_below zero zero (suc b) p q = absurd (omega arith)
or_comm_below zero (suc a) b p q = absurd (omega arith)
or_comm_below (suc n) a b p q = omega (
  arith,
  bit_or_step a b,
  bit_or_step b a,
  or_comm_below n (a / 2) (b / 2) (omega arith) (omega arith),
)

pub bit_or_comm : (a b : ℕ) → bit_or a b ≡ bit_or b a
bit_or_comm a b = or_comm_below (a + b) a b (omega arith) (omega arith)

pub bit_or-zero : (a : ℕ) → bit_or a 0 ≡ a
bit_or-zero a = bit_or_comm a 0 ∙ omega (arith, bit_or-bitwise 0 a)

-- `&` with `k` ones is the remainder by `2 ^ k`.
pub bit_and_mask : (k a : ℕ) → bit_and a (2 ^ k - 1) ≡ a % 2 ^ k
bit_and_mask zero a = omega (arith, bit_and-zero a)
bit_and_mask (suc k) a = omega (
  arith,
  bit_and_step a (2 ^ suc k - 1),
  halved,
  pow_suc k,
  pow-pos k,
  mod-pow-suc_low a k,
  bit_and_mask k (a / 2),
)
  where
    halved : bit_and (a / 2) ((2 ^ suc k - 1) / 2) ≡ bit_and (a / 2) (2 ^ k - 1)
    halved = ap (λ t. bit_and (a / 2) t) (omega (arith, pow_suc k, pow-pos k))

-- `&` with one set bit selects a digit.
pub bit_and_single : (k a : ℕ) → bit_and a (2 ^ k) ≡ a / 2 ^ k % 2 * 2 ^ k
bit_and_single zero a = omega (arith, bit_and_step a 1, bit_and-zero (a / 2))
bit_and_single (suc k) a = omega (
  arith,
  bit_and_step a (2 ^ suc k),
  halved,
  pow_suc k,
  bit_and_single k (a / 2),
  ap (λ (t : ℕ). t % 2 * 2 ^ k) same_digit,
  ap (λ (t : ℕ). a / 2 ^ suc k % 2 * t) (pow_suc k),
)
  where
    halved : bit_and (a / 2) (2 ^ suc k / 2) ≡ bit_and (a / 2) (2 ^ k)
    halved = ap (λ t. bit_and (a / 2) t) (omega (arith, pow_suc k))

    same_digit : a / 2 ^ suc k ≡ a / 2 / 2 ^ k
    same_digit = rw (pow_suc k) (sym (div-div-eq-div-mul a 2 (2 ^ k)))

-- `|` adds a number below 2 ^ k to a multiple of 2 ^ k.
pub bit_or_disjoint :
    (k high low : ℕ) → low < 2 ^ k → bit_or (high * 2 ^ k) low ≡ high * 2 ^ k + low
bit_or_disjoint (suc k) high low h = omega (
  arith,
  bit_or_step (high * 2 ^ suc k) low,
  ap (λ t. bit_or t (low / 2))
      (let e : high * 2 ^ suc k / 2 ≡ high * 2 ^ k = omega (arith, doubled) in e),
  doubled,
  bit_or_disjoint k high (low / 2) (omega (arith, pow_suc k)),
)
  where
    doubled : high * 2 ^ suc k ≡ 2 * (high * 2 ^ k)
    doubled = omega (arith, ap (λ (t : ℕ). high * t) (pow_suc k))
bit_or_disjoint zero high low h = ground (arith, bit_or-zero high)

pub bit_and-lt : (k a b : ℕ) → a < 2 ^ k → bit_and a b < 2 ^ k
bit_and-lt zero a b h = omega (arith, zero_left)
  where
    zero_left : bit_and a b ≡ 0
    zero_left = rw (let e : a ≡ 0 = omega arith in e) (bit_and-bitwise 0 b)
bit_and-lt (suc k) a b h =
    omega
      (arith, bit_and_step a b, pow_suc k, bit_and-lt k (a / 2) (b / 2) (omega (arith, pow_suc k)))

pub bit_or-lt : (k a b : ℕ) → a < 2 ^ k → b < 2 ^ k → bit_or a b < 2 ^ k
bit_or-lt zero a b h h' = omega (arith, zero_left)
  where
    zero_left : bit_or a b ≡ b
    zero_left = rw (let e : a ≡ 0 = omega arith in e) (bit_or-bitwise 0 b)
bit_or-lt (suc k) a b h h' = omega (
  arith,
  bit_or_step a b,
  pow_suc k,
  bit_or-lt k (a / 2) (b / 2) (omega (arith, pow_suc k)) (omega (arith, pow_suc k)),
)

differ-lt : (a b : ℕ) → a < 2 → b < 2 → differ a b < 2
differ-lt zero b h k = k
differ-lt (suc a) zero h k = omega arith
differ-lt (suc zero) (suc zero) h k = omega arith
differ-lt (suc zero) (suc (suc b)) h k = absurd (omega arith)
differ-lt (suc (suc a)) (suc b) h k = absurd (omega arith)

pub bit_xor-lt : (k a b : ℕ) → a < 2 ^ k → b < 2 ^ k → bit_xor a b < 2 ^ k
bit_xor-lt zero a b h h' = omega (arith, zero_left)
  where
    zero_left : bit_xor a b ≡ b
    zero_left = rw (let e : a ≡ 0 = omega arith in e) (bit_xor-bitwise 0 b)
bit_xor-lt (suc k) a b h h' = omega (
  arith,
  bit_xor_step a b,
  differ-lt (a % 2) (b % 2) (omega arith) (omega arith),
  pow_suc k,
  bit_xor-lt k (a / 2) (b / 2) (omega (arith, pow_suc k)) (omega (arith, pow_suc k)),
)
