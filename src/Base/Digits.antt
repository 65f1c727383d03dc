-- ===== src/Base/Digits.antt =====
-- Operations that work on each binary digit: commutativity, associativity and a neutral operand.
use Prim.Native.Nat.{min, max, differ}
use native.Mathlib.Nat.{mod-eq_of_lt}
use naaz.Base.{
  ℕ, zero, suc, ◌+◌, ◌-◌, ◌*◌, ◌/◌, ◌%◌, ◌^◌, ◌≤◌, ◌<◌, ◌≡◌, refl, sym, ◌∙◌, ap, ap₂, arith,
}
use naaz.Base.{bit_and, bit_or, bit_xor}
use naaz.Base.Pow.{pow_suc, pow-pos}
use naaz.Base.Bits.{
  bit_and_step, bit_or_step, bit_xor_step, bit_and_mask, bit_and-zero, bit_or_comm, bit_or-zero,
}

-- `f` on one digit.
record IsDigitwise (op f : ℕ → ℕ → ℕ) : Type 0 where
  step : (a b : ℕ) → op a b ≡ op (a / 2) (b / 2) * 2 + f (a % 2) (b % 2)
  nothing : op 0 0 ≡ 0
  digit : (i j : ℕ) → i < 2 → j < 2 → f i j < 2
  digit_comm : (i j : ℕ) → i < 2 → j < 2 → f i j ≡ f j i
  digit_assoc : (i j k : ℕ) → i < 2 → j < 2 → k < 2 → f (f i j) k ≡ f i (f j k)

module _ (op f : ℕ → ℕ → ℕ) (d : IsDigitwise op f) where
  low-lt : (a b : ℕ) → f (a % 2) (b % 2) < 2
  low-lt a b = d.digit (a % 2) (b % 2) (omega arith) (omega arith)

  high : (a b : ℕ) → op a b / 2 ≡ op (a / 2) (b / 2)
  high a b = omega (arith, d.step a b, low-lt a b)

  low : (a b : ℕ) → op a b % 2 ≡ f (a % 2) (b % 2)
  low a b = omega (arith, d.step a b, low-lt a b)

  comm_below : (n a b : ℕ) → a ≤ n → b ≤ n → op a b ≡ op b a
  comm_below n zero zero h k = refl
  comm_below zero zero (suc b) h k = absurd (omega arith)
  comm_below zero (suc a) b h k = absurd (omega arith)
  comm_below (suc n) a b h k =
      d.step a b
      ∙ ap₂ (λ s t. s * 2 + t) (comm_below n (a / 2) (b / 2) (omega arith) (omega arith))
          (d.digit_comm (a % 2) (b % 2) (omega arith) (omega arith))
      ∙ sym (d.step b a)

  digitwise_comm : (a b : ℕ) → op a b ≡ op b a
  digitwise_comm a b = comm_below (a + b) a b (omega arith) (omega arith)

  assoc_below : (n a b c : ℕ) → a ≤ n → b ≤ n → c ≤ n → op (op a b) c ≡ op a (op b c)
  assoc_below zero a b c h k l =
      let (az, bz, cz) : (a ≡ 0) × (b ≡ 0) × (c ≡ 0) = (omega arith, omega arith, omega arith) in
      rw (az, bz, cz, d.nothing) refl
  assoc_below (suc n) a b c h k l =
      d.step (op a b) c
      ∙ ap₂ (λ s t. s * 2 + t)
          (ap (λ t. op t (c / 2)) (high a b)
            ∙ assoc_below n (a / 2) (b / 2) (c / 2) (omega arith) (omega arith) (omega arith)
            ∙ ap (op (a / 2)) (sym (high b c)))
          (ap (λ t. f t (c % 2)) (low a b)
            ∙ d.digit_assoc (a % 2) (b % 2) (c % 2) (omega arith) (omega arith) (omega arith)
            ∙ ap (f (a % 2)) (sym (low b c)))
      ∙ sym (d.step a (op b c))

  digitwise_assoc : (a b c : ℕ) → op (op a b) c ≡ op a (op b c)
  digitwise_assoc a b c = assoc_below (a + b + c) a b c (omega arith) (omega arith) (omega arith)

-- A law of one digit is checked at 0 and at 1.
on_digit : (P : ℕ → Type 0) → P 0 → P 1 → (i : ℕ) → i < 2 → P i
on_digit P p q zero h = p
on_digit P p q (suc zero) h = q
on_digit P p q (suc (suc i)) h = absurd (omega arith)

on_digits : (P : ℕ → ℕ → Type 0) → P 0 0 → P 0 1 → P 1 0 → P 1 1 → (i j : ℕ) → i < 2 → j < 2 → P i j
on_digits P a b c d i j h k =
    on_digit (λ i. (j : ℕ) → j < 2 → P i j) (on_digit (P 0) a b) (on_digit (P 1) c d) i h j k

and_IsDigitwise : IsDigitwise bit_and min
and_IsDigitwise = record {
  step = bit_and_step;
  nothing = refl;
  digit = on_digits (λ i j. min i j < 2) (omega arith) (omega arith) (omega arith) (omega arith);
  digit_comm = on_digits (λ i j. min i j ≡ min j i) refl refl refl refl;
  digit_assoc = λ i j k h l m.
      on_digits (λ i j. min (min i j) k ≡ min i (min j k))
        (on_digit (λ k. min (min 0 0) k ≡ min 0 (min 0 k)) refl refl k m)
        (on_digit (λ k. min (min 0 1) k ≡ min 0 (min 1 k)) refl refl k m)
        (on_digit (λ k. min (min 1 0) k ≡ min 1 (min 0 k)) refl refl k m)
        (on_digit (λ k. min (min 1 1) k ≡ min 1 (min 1 k)) refl refl k m) i j h l;
}

or_IsDigitwise : IsDigitwise bit_or max
or_IsDigitwise = record {
  step = bit_or_step;
  nothing = refl;
  digit = on_digits (λ i j. max i j < 2) (omega arith) (omega arith) (omega arith) (omega arith);
  digit_comm = on_digits (λ i j. max i j ≡ max j i) refl refl refl refl;
  digit_assoc = λ i j k h l m.
      on_digits (λ i j. max (max i j) k ≡ max i (max j k))
        (on_digit (λ k. max (max 0 0) k ≡ max 0 (max 0 k)) refl refl k m)
        (on_digit (λ k. max (max 0 1) k ≡ max 0 (max 1 k)) refl refl k m)
        (on_digit (λ k. max (max 1 0) k ≡ max 1 (max 0 k)) refl refl k m)
        (on_digit (λ k. max (max 1 1) k ≡ max 1 (max 1 k)) refl refl k m) i j h l;
}

xor-IsDigitwise : IsDigitwise bit_xor differ
xor-IsDigitwise = record {
  step = bit_xor_step;
  nothing = refl;
  digit = on_digits (λ i j. differ i j < 2) (omega arith) (omega arith) (omega arith) (omega arith);
  digit_comm = on_digits (λ i j. differ i j ≡ differ j i) refl refl refl refl;
  digit_assoc = λ i j k h l m.
      on_digits (λ i j. differ (differ i j) k ≡ differ i (differ j k))
        (on_digit (λ k. differ (differ 0 0) k ≡ differ 0 (differ 0 k)) refl refl k m)
        (on_digit (λ k. differ (differ 0 1) k ≡ differ 0 (differ 1 k)) refl refl k m)
        (on_digit (λ k. differ (differ 1 0) k ≡ differ 1 (differ 0 k)) refl refl k m)
        (on_digit (λ k. differ (differ 1 1) k ≡ differ 1 (differ 1 k)) refl refl k m) i j h l;
}

pub bit_and_comm : (a b : ℕ) → bit_and a b ≡ bit_and b a
bit_and_comm = digitwise_comm bit_and min and_IsDigitwise

pub bit_and_assoc : (a b c : ℕ) → bit_and (bit_and a b) c ≡ bit_and a (bit_and b c)
bit_and_assoc = digitwise_assoc bit_and min and_IsDigitwise

pub bit_or_assoc : (a b c : ℕ) → bit_or (bit_or a b) c ≡ bit_or a (bit_or b c)
bit_or_assoc = digitwise_assoc bit_or max or_IsDigitwise

pub bit_xor_comm : (a b : ℕ) → bit_xor a b ≡ bit_xor b a
bit_xor_comm = digitwise_comm bit_xor differ xor-IsDigitwise

pub bit_xor_assoc : (a b c : ℕ) → bit_xor (bit_xor a b) c ≡ bit_xor a (bit_xor b c)
bit_xor_assoc = digitwise_assoc bit_xor differ xor-IsDigitwise

pub ones-bit_and : (w a : ℕ) → a < 2 ^ w → bit_and (2 ^ w - 1) a ≡ a
ones-bit_and w a h = bit_and_comm (2 ^ w - 1) a ∙ bit_and_mask w a ∙ mod-eq_of_lt h

pub zero-bit_or : (a : ℕ) → bit_or 0 a ≡ a
zero-bit_or a = bit_or_comm 0 a ∙ bit_or-zero a

-- `n` bounds the number of digits of a.
zero_xor_below : (n a : ℕ) → a ≤ n → bit_xor 0 a ≡ a
zero_xor_below n zero h = refl
zero_xor_below zero (suc a) h = absurd (omega arith)
zero_xor_below (suc n) (suc a) h =
    omega (arith, bit_xor_step 0 (suc a), zero_xor_below n (suc a / 2) (omega arith), digit)
  where
    digit : differ (0 % 2) (suc a % 2) ≡ suc a % 2
    digit = on_digit (λ j. differ 0 j ≡ j) refl refl (suc a % 2) (omega arith)

pub zero-bit_xor : (a : ℕ) → bit_xor 0 a ≡ a
zero-bit_xor a = zero_xor_below a a (omega arith)

self_xor_below : (n a : ℕ) → a ≤ n → bit_xor a a ≡ 0
self_xor_below n zero h = refl
self_xor_below zero (suc a) h = absurd (omega arith)
self_xor_below (suc n) (suc a) h =
    omega (arith, bit_xor_step (suc a) (suc a), self_xor_below n (suc a / 2) (omega arith), digit)
  where
    digit : differ (suc a % 2) (suc a % 2) ≡ 0
    digit = on_digit (λ j. differ j j ≡ 0) refl refl (suc a % 2) (omega arith)

pub bit_xor_self : (a : ℕ) → bit_xor a a ≡ 0
bit_xor_self a = self_xor_below a a (omega arith)

pub zero-bit_and : (a : ℕ) → bit_and 0 a ≡ 0
zero-bit_and a = bit_and_comm 0 a ∙ bit_and-zero a

pub ones-bit_or : (w a : ℕ) → a < 2 ^ w → bit_or (2 ^ w - 1) a ≡ 2 ^ w - 1
ones-bit_or zero a h = let e : a ≡ 0 = omega arith in rw e refl
ones-bit_or (suc w) a h = omega (
  arith,
  bit_or_step (2 ^ suc w - 1) a,
  ap (λ t. bit_or t (a / 2)) halved,
  ones-bit_or w (a / 2) (omega (arith, pow_suc w)),
  pow_suc w,
  pow-pos w,
  digit,
)
  where
    halved : (2 ^ suc w - 1) / 2 ≡ 2 ^ w - 1
    halved = omega (arith, pow_suc w, pow-pos w)

    one : (2 ^ suc w - 1) % 2 ≡ 1
    one = omega (arith, pow_suc w, pow-pos w)

    digit : max ((2 ^ suc w - 1) % 2) (a % 2) ≡ 1
    digit =
        ap (λ t. max t (a % 2)) one ∙ on_digit (λ j. max 1 j ≡ 1) refl refl (a % 2) (omega arith)
