-- ===== src/Base/Pow.antt =====
-- Powers of two, and quotients and remainders by them: what a shift or a mask computes.
use native.Mathlib.Nat.{
  mul_comm, pow-suc, one-le-pow, div-div-eq-div-mul, pow-le-pow_right, div-lt_iff_lt-mul,
}
use native.Mathlib.Nat.{
  add-zero, add-suc, div-add-mod', add-mul-mod_self_right, mul-add-mod_self_right, mod-eq_of_lt,
  mod-lt,
}
use naaz.Base.{
  ℕ, zero, suc, ◌+◌, ◌-◌, ◌*◌, ◌/◌, ◌%◌, ◌^◌, ◌≤◌, ◌<◌, ◌≡◌, sym, ◌∙◌, subst, ap, arith,
}

pub pow-pos : (k : ℕ) → 0 < 2 ^ k
pow-pos k = one-le-pow k 2 (omega arith)

pub pow_suc : (k : ℕ) → 2 ^ suc k ≡ 2 * 2 ^ k
pow_suc k = omega (arith, pow-suc 2 k)

pub pow-add : (a b : ℕ) → 2 ^ (a + b) ≡ 2 ^ a * 2 ^ b
pow-add a zero = rw (add-zero a) (omega arith)
pow-add a (suc b) = rw (add-suc a b) (
    omega (
      arith,
      pow_suc (a + b),
      ap (λ (t : ℕ). 2 ^ a * t) (pow_suc b),
      ap (λ (t : ℕ). 2 * t) (pow-add a b),
    ))

pub pow_mono : (a b : ℕ) → a ≤ b → 2 ^ a ≤ 2 ^ b
pow_mono a b h = pow-le-pow_right (omega arith) h

pub div-pow-add : (n a b : ℕ) → n / 2 ^ (a + b) ≡ n / 2 ^ a / 2 ^ b
div-pow-add n a b = rw (pow-add a b) (sym (div-div-eq-div-mul n (2 ^ a) (2 ^ b)))

pub div-pow-suc : (n k : ℕ) → n / 2 ^ suc k ≡ n / 2 ^ k / 2
div-pow-suc n k = rw (pow-suc 2 k) (sym (div-div-eq-div-mul n (2 ^ k) 2))

-- Taking the digit at the top.
pub mod-pow-suc_high : (n k : ℕ) → n % 2 ^ suc k ≡ n % 2 ^ k + n / 2 ^ k % 2 * 2 ^ k
mod-pow-suc_high n k = omega (
  arith,
  div-add-mod' n (2 ^ k),
  rw (pow_suc k) at (rw (div-pow-suc n k) at (div-add-mod' n (2 ^ suc k))),
  ap (λ (t : ℕ). n % t) (pow_suc k),
  ap (λ (t : ℕ). t * 2 ^ k) (div-add-mod' (n / 2 ^ k) 2),
)

-- Taking the digit at the bottom.
pub mod-pow-suc_low : (n k : ℕ) → n % 2 ^ suc k ≡ n % 2 + 2 * (n / 2 % 2 ^ k)
mod-pow-suc_low n k = omega (
  arith,
  div-add-mod' (n / 2) (2 ^ k),
  rw (pow_suc k) at (rw half at (div-add-mod' n (2 ^ suc k))),
  ap (λ (t : ℕ). n % t) (pow_suc k),
)
  where
    half : n / 2 ^ suc k ≡ n / 2 / 2 ^ k
    half = rw (pow_suc k) (sym (div-div-eq-div-mul n 2 (2 ^ k)))

pub mod-pow-lt : (n k : ℕ) → n % 2 ^ k < 2 ^ k
mod-pow-lt n k = omega (arith, pow-pos k)

pub div-pow-lt : (n a b : ℕ) → n < 2 ^ (a + b) → n / 2 ^ a < 2 ^ b
div-pow-lt n a b h = (div-lt_iff_lt-mul (pow-pos a)).1 (omega (arith, pow-add a b))

-- A multiple of 2 ^ w more or less changes no residue; 2 ^ 64 is one for w ≤ 64.
pub mod-u64_sub :
    (a b w : ℕ) → w ≤ 64 → b ≤ 2 ^ w → (a + 2 ^ 64 - b) % 2 ^ w ≡ (a + 2 ^ w - b) % 2 ^ w
mod-u64_sub a b w h k =
    ap (λ t. t % 2 ^ w) regrouped
    ∙ add-mul-mod_self_right (a + 2 ^ w - b) (2 ^ (64 - w) - 1) (2 ^ w)
  where
    total : w + (64 - w) ≡ 64
    total = omega arith

    split : 2 ^ w * 2 ^ (64 - w) ≡ 2 ^ 64
    split = sym (pow-add w (64 - w)) ∙ ap (λ t. 2 ^ t) total

    predecessor : 2 ^ (64 - w) ≡ suc (2 ^ (64 - w) - 1)
    predecessor = omega (arith, pow-pos (64 - w))

    regrouped : a + 2 ^ 64 - b ≡ a + 2 ^ w - b + (2 ^ (64 - w) - 1) * 2 ^ w
    regrouped = omega (arith, split, ap (λ (t : ℕ). t * 2 ^ w) predecessor)

complement_mod : (q m r : ℕ) → 0 < m → r < q * m → (q * m - 1 - r) % m ≡ m - 1 - r % m
complement_mod q m r h k =
    ap (λ t. t % m) regrouped
    ∙ mul-add-mod_self_right (q - 1 - r / m) m (m - 1 - r % m)
    ∙ mod-eq_of_lt (omega arith)
  where
    quotient : q ≡ q - 1 - r / m + (r / m + 1)
    quotient = omega (arith, (div-lt_iff_lt-mul h).1 k)

    regrouped : q * m - 1 - r ≡ (q - 1 - r / m) * m + (m - 1 - r % m)
    regrouped = omega (arith, div-add-mod' r m, mod-lt r h, ap (λ (t : ℕ). t * m) quotient)

-- The complement of a word, at a smaller width.
pub mod-u64_complement :
    (n w : ℕ) → w ≤ 64 → (2 ^ 64 - 1 - n % 2 ^ 64) % 2 ^ w ≡ 2 ^ w - 1 - n % 2 ^ 64 % 2 ^ w
mod-u64_complement n w h =
    subst (λ t. n % 2 ^ 64 < t → (t - 1 - n % 2 ^ 64) % 2 ^ w ≡ 2 ^ w - 1 - n % 2 ^ 64 % 2 ^ w)
      split (complement_mod (2 ^ (64 - w)) (2 ^ w) (n % 2 ^ 64) (pow-pos w)) (omega arith)
  where
    total : 64 - w + w ≡ 64
    total = omega arith

    split : 2 ^ (64 - w) * 2 ^ w ≡ 2 ^ 64
    split = sym (pow-add (64 - w) w) ∙ ap (λ t. 2 ^ t) total

distribute : (q r b m : ℕ) → r * b + q * b * m ≡ (q * m + r) * b
distribute q r b m = grind arith

-- A factor may be reduced before the product is.
pub mul_mod-left : (a b m : ℕ) → a % m * b % m ≡ a * b % m
mul_mod-left a b m =
    sym (add-mul-mod_self_right (a % m * b) (a / m * b) m)
    ∙ ap (λ t. t % m) (distribute (a / m) (a % m) b m ∙ ap (λ t. t * b) (div-add-mod' a m))

pub mul_mod-right : (a b m : ℕ) → a * (b % m) % m ≡ a * b % m
mul_mod-right a b m =
    ap (λ t. t % m) (mul_comm a (b % m)) ∙ mul_mod-left b a m ∙ ap (λ t. t % m) (mul_comm b a)
