-- ===== src/BvConst/Order.antt =====
-- The constructors from numbers, the unsigned comparisons and the tests of `BVConst`.
use native.Mathlib.Nat.{zero-mod, mod-eq_of_lt}
use naaz.Base.{ℕ, ◌-◌, ◌%◌, ◌^◌, ◌≤◌, ◌<◌, ◌≡◌, refl, ◌∙◌, ap, arith}
use naaz.Base.{List, [], ◌∷◌, some, ok, sym, subst}
use naaz.Base.{inl, inr, false, ltb, leb, ◌==◌, Bool-cases}
use naaz.Base.{ltb→lt, lt→ltb, ge→ltb, ltb→ge, leb→le, leb→gt, ==→eq, ne→==, eq→ne}
use naaz.Base.{ℤ, pos, negsuc, mod_ℤ, magnitude, ltb_ℤ}
use naaz.Base.Pow.{pow_mono, mod-u64_complement}
use naaz.Platform.{Platform}
use naaz.BvConst.{BvConst}
use naaz.BvConst.Represents.{
  Represents, Yields, adjust-small, adjust-wide, mod_ℤ-lt, mod-u64, small_of, wide_of, same_size,
}
use naaz.BvConst.{NumberReader, base_of, of_text, of_u64, of_number}
use naaz.BvConst.Compare.{eq, ult, ule, ugt, uge, is_zero, is_one, has_all_bit_set}

mod_ℤ-u64 : (z : ℤ) (w : ℕ) → w ≤ 64 → mod_ℤ z (2 ^ 64) % 2 ^ w ≡ mod_ℤ z (2 ^ w)
mod_ℤ-u64 (pos n) w h = mod-u64 n w h
mod_ℤ-u64 (negsuc n) w h = mod-u64_complement n w h ∙ ap (λ (t : ℕ). 2 ^ w - 1 - t) (mod-u64 n w h)

zero_of : {z : ℤ} → magnitude z ≡ 0 → z ≡ pos 0
zero_of {z = pos n} h = ap pos h
zero_of {z = negsuc n} h = absurd (omega arith)

pos_injective : {a b : ℕ} → pos a ≡ pos b → a ≡ b
pos_injective h = cc

module _ ⦃p : Platform⦄ where
  cmp_test : (a b : ℕ) → (magnitude (p.mpz_cmp (pos a) (pos b)) == 0) ≡ (a == b)
  cmp_test a b = elim (Bool-cases (a == b)) [
    | inl same ↦ rw ((p.cmp_law (pos a) (pos b)).1 (ap pos (==→eq a b same)), same)
    | inr other ↦ rw other (
        ne→== _ 0 (λ z.
          absurd (eq→ne a b other (pos_injective ((p.cmp_law (pos a) (pos b)).0 (zero_of z))))))
  ]

  cmpabs_test : (a b : ℕ) → ltb_ℤ (p.mpz_cmpabs (pos a) (pos b)) (pos 0) ≡ ltb a b
  cmpabs_test a b = elim (Bool-cases (ltb a b)) [
    | inl below ↦ rw ((p.cmpabs_lt (pos a) (pos b) (ltb→lt a b below)).1, below) (ground arith)
    | inr above ↦ rw ((p.cmpabs_ge (pos a) (pos b) (ltb→ge a b above)).1, above) (ground arith)
  ]

module _ ⦃p : Platform⦄ (w : ℕ) (positive : 0 < w) where
  not_empty : (w == 0) ≡ false
  not_empty = ne→== w 0 (omega arith)

  -- At every width w above 0 the constructor from a `uint64_t` value gives the constant of width w
  -- that holds value % 2 ^ w.
  pub of_u64_refines : (value : ℕ) → value < 2 ^ 64 → Yields (of_u64 value w) w (value % 2 ^ w)
  unfolding of_u64
  of_u64_refines value h = elim (Bool-cases (leb w 64)) [
    | inl narrow ↦
        rw (not_empty, narrow)
          (adjust-small (record { size = w; small_val = value; big_val = pos 0 }) w (value % 2 ^ w)
            refl positive (leb→le w 64 narrow) h refl)
    | inr wide ↦
        rw (not_empty, wide)
          (adjust-wide (record { size = w; small_val = p.indeterminate; big_val = pos value }) w
            (value % 2 ^ w) refl (leb→gt w 64 wide) refl)
  ]

  -- At every width w above 0 the constructor from the text of an integer whose magnitude is below 2
  -- ^ 64 gives the constant of width w that holds the residue of the integer modulo 2 ^ w.
  pub of_number_refines :
      (value : ℤ) → magnitude value < 2 ^ 64 → Yields (of_number value w) w (mod_ℤ value (2 ^ w))
  unfolding of_number
  of_number_refines value h = elim (Bool-cases (leb w 64)) [
    | inl narrow ↦
        rw
          (not_empty, narrow, ge→ltb 64 w (leb→le w 64 narrow), lt→ltb (magnitude value) (2 ^ 64) h)
          (adjust-small (record { size = w; small_val = mod_ℤ value (2 ^ 64); big_val = pos 0 }) w
            (mod_ℤ value (2 ^ w)) refl positive (leb→le w 64 narrow) (mod_ℤ-lt value 64)
            (mod_ℤ-u64 value w (leb→le w 64 narrow)))
    | inr wide ↦
        rw (not_empty, wide, lt→ltb 64 w (leb→gt w 64 wide))
          (adjust-wide (record { size = w; small_val = p.indeterminate; big_val = value }) w
            (mod_ℤ value (2 ^ w)) refl (leb→gt w 64 wide) refl)
  ]

module _ ⦃p : Platform⦄ (w a b : ℕ) {x y : BvConst} (rx : Represents w a x)
    (ry : Represents w b y) where
  -- Of two constants of one width w that hold a and b, `eq` returns whether a and b are equal.
  pub eq_refines : eq x y ≡ ok (a == b)
  unfolding eq
  eq_refines = elim rx.holds [
    | inl (narrow, e) ↦
        rw (same_size rx ry, ge→ltb 64 x.size (rw rx.width narrow), e, small_of ry narrow)
    | inr (wide, e) ↦
        rw (same_size rx ry, lt→ltb 64 x.size (rw rx.width wide), e, wide_of ry wide)
          (ap ok (cmp_test a b))
  ]

  -- Of two constants of one width w that hold a and b, `ult` returns whether a is below b.
  pub ult_refines : ult x y ≡ ok (ltb a b)
  unfolding ult
  ult_refines = elim rx.holds [
    | inl (narrow, e) ↦
        rw (same_size rx ry, ge→ltb 64 x.size (rw rx.width narrow), e, small_of ry narrow)
    | inr (wide, e) ↦
        rw (same_size rx ry, lt→ltb 64 x.size (rw rx.width wide), e, wide_of ry wide)
          (ap ok (cmpabs_test a b))
  ]

  -- Of two constants of one width w that hold a and b, `ule` returns whether a is at most b.
  pub ule_refines : ule x y ≡ ok (leb a b)
  unfolding ule
  ule_refines = rw (eq_refines, ult_refines) (ground arith)

  pub ugt_refines : ugt x y ≡ ok (ltb b a)
  unfolding ugt
  ugt_refines = rw ule_refines (ground arith)

  pub uge_refines : uge x y ≡ ok (leb b a)
  unfolding uge
  uge_refines = rw ult_refines (ground arith)

module _ ⦃p : Platform⦄ (w a : ℕ) {x : BvConst} (rx : Represents w a x) where
  pub is_zero_refines : is_zero x ≡ ok (a == 0)
  unfolding is_zero
  is_zero_refines = elim rx.holds [
    | inl (narrow, e) ↦ rw (ge→ltb 64 x.size (rw rx.width narrow), e)
    | inr (wide, e) ↦
        let (c, made, rc) = of_u64_refines w rx.positive 0 (omega arith) in
        rw (lt→ltb 64 x.size (rw rx.width wide), ap (of_u64 0) rx.width ∙ made)
          (eq_refines w a (0 % 2 ^ w) rx rc ∙ ap (λ t. ok (a == t)) (zero-mod (2 ^ w)))
  ]

  pub is_one_refines : is_one x ≡ ok (a == 1)
  unfolding is_one
  is_one_refines = elim rx.holds [
    | inl (narrow, e) ↦ rw (ge→ltb 64 x.size (rw rx.width narrow), e)
    | inr (wide, e) ↦
        let (c, made, rc) = of_u64_refines w rx.positive 1 (omega arith) in
        rw (lt→ltb 64 x.size (rw rx.width wide), ap (of_u64 1) rx.width ∙ made)
          (eq_refines w a (1 % 2 ^ w) rx rc
            ∙ ap (λ t. ok (a == t)) (mod-eq_of_lt (omega (arith, pow_mono 1 w rx.positive))))
  ]

  -- Of a constant of width w that holds a, `has_all_bit_set` returns whether a is 2 ^ w - 1.
  pub has_all_bit_set_refines : has_all_bit_set x ≡ ok (a == 2 ^ w - 1)
  unfolding has_all_bit_set
  has_all_bit_set_refines =
      let (c, made, rc) = of_number_refines w rx.positive (negsuc 0) (omega arith) in
      rw (ap (of_number (negsuc 0)) rx.width ∙ made) (
        eq_refines w a (2 ^ w - 1 - 0 % 2 ^ w) rx rc
        ∙ ap (λ t. ok (a == t)) (omega (arith, zero-mod (2 ^ w))))

-- A text with its prefix, and the integer that both readers find in the base of the prefix.
pub data Spells (reader : NumberReader) : List ℕ → ℤ → Type 0 where
  hexadecimal :
      (num : List ℕ) (number : ℤ)
      → reader.stoul num 16 ≡ some number
      → reader.mpz_class num 16 ≡ some number
      → Spells reader (48 ∷ 120 ∷ num) number
  binary :
      (num : List ℕ) (number : ℤ)
      → reader.stoul num 2 ≡ some number
      → reader.mpz_class num 2 ≡ some number
      → Spells reader (48 ∷ 98 ∷ num) number
  one_digit :
      (first : ℕ) (number : ℤ)
      → reader.stoul (first ∷ []) 10 ≡ some number
      → reader.mpz_class (first ∷ []) 10 ≡ some number
      → Spells reader (first ∷ []) number
  decimal :
      (first second : ℕ) (num : List ℕ) (number : ℤ)
      → (first == 48) ≡ false
      → reader.stoul (first ∷ second ∷ num) 10 ≡ some number
      → reader.mpz_class (first ∷ second ∷ num) 10 ≡ some number
      → Spells reader (first ∷ second ∷ num) number

-- The constructor reads the text after its prefix, in the base of the prefix.
base_of-Spells :
    (reader : NumberReader) (text : List ℕ) (number : ℤ)
    → Spells reader text number
    → (reader.stoul (base_of text).1 (base_of text).0 ≡ some number)
      × (reader.mpz_class (base_of text).1 (base_of text).0 ≡ some number)
unfolding base_of
base_of-Spells reader text number (hexadecimal num n small big) = (small, big)
base_of-Spells reader text number (binary num n small big) = (small, big)
base_of-Spells reader text number (one_digit first n small big) = (small, big)
base_of-Spells reader text number (decimal first second num n other small big) =
    (rw other small, rw other big)

module _ ⦃p : Platform⦄ (w : ℕ) (positive : 0 < w) where
  of_text-of_number :
      (reader : NumberReader) (text : List ℕ) (number : ℤ)
      → Spells reader text number
      → of_text reader text w ≡ of_number number w
  unfolding of_text
  of_text-of_number reader text number h =
      let (small, big) = base_of-Spells reader text number h in
      let nonzero = ne→== w 0 (λ e. omega (arith, positive, e)) in
      elim (Bool-cases (leb w 64)) [
        | inl narrow ↦ rw (of_text, nonzero, narrow, small) refl
        | inr wide ↦ rw (of_text, nonzero, wide, big) refl
      ]

  -- At every width w above 0 the constructor from a `uint64_t` value gives the constant of width w
  -- that holds value % 2 ^ w, and the constructor from a text, with the prefix `0x` or `0b` or of
  -- one character or with a first character that is not `0`, gives the one that holds the residue
  -- modulo 2 ^ w of the integer that both readers find after the prefix, in its base, where the
  -- magnitude of the integer is below 2 ^ 64.
  pub constructors_refine :
      (reader : NumberReader) (value : ℕ) (text : List ℕ) (number : ℤ)
      → value < 2 ^ 64
      → Spells reader text number
      → magnitude number < 2 ^ 64
      → Yields (of_u64 value w) w (value % 2 ^ w)
        × Yields (of_text reader text w) w (mod_ℤ number (2 ^ w))
  constructors_refine reader value text number h spelled k = (
    of_u64_refines w positive value h,
    subst (λ r. Yields r w (mod_ℤ number (2 ^ w)))
        (sym (of_text-of_number reader text number spelled))
        (of_number_refines w positive number k),
  )

module _ ⦃p : Platform⦄ (w a b : ℕ) {x y : BvConst} (rx : Represents w a x)
    (ry : Represents w b y) where
  -- Of two constants of one width w that hold a and b, `eq`, `ult` and `ule` return whether a
  -- equals, is below and is at most b, and `has_all_bit_set` of the first returns whether a is 2 ^
  -- w - 1.
  pub tests_refine :
      (eq x y ≡ ok (a == b))
      × (ult x y ≡ ok (ltb a b))
      × (ule x y ≡ ok (leb a b))
      × (has_all_bit_set x ≡ ok (a == 2 ^ w - 1))
  tests_refine = (
    eq_refines w a b rx ry,
    ult_refines w a b rx ry,
    ule_refines w a b rx ry,
    has_all_bit_set_refines w a rx,
  )
