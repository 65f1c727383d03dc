-- ===== src/Tests/Constants.antt =====
-- expr/BVConst.cpp at constants of 8, 32 and 72 bits.
use naaz.Base.{
  ℕ, ◌+◌, ◌-◌, ◌*◌, ◌/◌, ◌%◌, ◌^◌, ◌≡◌, refl, inl, inr, arith, bit_and, bit_or, bit_xor, ◌==◌, true,
}
use naaz.Base.{pos, mod_ℤ, ltb_ℤ, ltb, leb, ok, exit_fail}
use naaz.Platform.Exact.{exact}
use naaz.Base.{List, [], ◌∷◌, some, ◌*◌, ◌+◌, ◌-◌, if◌then◌else◌}
use naaz.BvConst.{BvConst, NumberReader, of_u64, of_text, adjust_big}
use naaz.BvConst.Order.{hexadecimal}
use naaz.BvConst.Arith.{add, sub, mul, band, bor, bxor, bit_not}
use naaz.BvConst.Resize.{concat, zext, sext, extract}
use naaz.BvConst.Shift.{lshr}
use naaz.BvConst.Compare.{eq, ult, ule, slt, has_all_bit_set}
use naaz.BvConst.Represents.{Represents, Yields}
use naaz.BvConst.Modular
use naaz.BvConst.Bitwise
use naaz.BvConst.Order
use naaz.BvConst.Extensions
use naaz.BvConst.Signed
use naaz.BvConst.Signed.{to_signed, sign_extended}

abbrev byte : ℕ → BvConst
byte v = record { size = 8; small_val = v; big_val = pos 0 }

abbrev wide : ℕ → BvConst
wide v = record { size = 72; small_val = 0; big_val = pos v }

byte_200 : Represents 8 200 (byte 200)
byte_200 = record {
  width = refl;
  positive = omega arith;
  fits = omega arith;
  holds = inl (omega arith, refl);
}

byte_100 : Represents 8 100 (byte 100)
byte_100 = record {
  width = refl;
  positive = omega arith;
  fits = omega arith;
  holds = inl (omega arith, refl);
}

wide_five : Represents 72 5 (wide 5)
wide_five = record {
  width = refl;
  positive = omega arith;
  fits = omega arith;
  holds = inr (omega arith, refl);
}

wide_top : Represents 72 (2 ^ 71 + 1) (wide (2 ^ 71 + 1))
wide_top = record {
  width = refl;
  positive = omega arith;
  fits = omega arith;
  holds = inr (omega arith, refl);
}

slt_refines_example : slt (byte 200) (byte 100) ≡ ok (ltb_ℤ (to_signed 8 200) (to_signed 8 100))
slt_refines_example = Signed.slt_refines 8 200 100 byte_200 byte_100 (omega arith)

slt_wide_wrong_example : slt (wide 5) (wide (2 ^ 71 + 1)) ≡ ok true
slt_wide_wrong_example =
    Signed.slt_wide_wrong 72 5 (2 ^ 71 + 1) wide_five wide_top (omega arith) (omega arith)
      (omega arith)

sum_of_bytes : add (byte 200) (byte 100) ≡ ok (byte 44)
unfolding add naaz.BvConst.check_size_or_die naaz.BvConst.adjust_bits naaz.BvConst.bitmask
sum_of_bytes = refl

sizes_differ : add (byte 200) (wide 5) ≡ exit_fail
unfolding add naaz.BvConst.check_size_or_die
sizes_differ = refl

modular_refines_example :
    Yields (add (wide 5) (wide (2 ^ 71 + 1))) 72 ((5 + (2 ^ 71 + 1)) % 2 ^ 72)
    × Yields (sub (wide 5) (wide (2 ^ 71 + 1))) 72 ((5 + 2 ^ 72 - (2 ^ 71 + 1)) % 2 ^ 72)
    × Yields (mul (wide 5) (wide (2 ^ 71 + 1))) 72 (5 * (2 ^ 71 + 1) % 2 ^ 72)
modular_refines_example = Modular.modular_refines 72 5 (2 ^ 71 + 1) wide_five wide_top

bitwise_refines_example :
    Yields (band (byte 200) (byte 100)) 8 (bit_and 200 100)
    × Yields (bor (byte 200) (byte 100)) 8 (bit_or 200 100)
    × Yields (bxor (byte 200) (byte 100)) 8 (bit_xor 200 100)
    × Yields (bit_not (byte 200)) 8 (2 ^ 8 - 1 - 200)
bitwise_refines_example = Bitwise.bitwise_refines 8 200 100 byte_200 byte_100

abbrev digits : ℕ → List ℕ → ℕ → ℕ
digits base [] read = read
digits base (c ∷ text) read = digits base text (read * base + (if ltb c 97 then c - 48 else c - 87))

abbrev reader : NumberReader
reader = record {
  stoul = λ text base. some (pos (digits base text 0));
  mpz_class = λ text base. some (pos (digits base text 0));
}

-- `0x1f` at 72 bits
constructors_refine_example :
    Yields (of_u64 300 72) 72 (300 % 2 ^ 72)
    × Yields (of_text reader (48 ∷ 120 ∷ 49 ∷ 102 ∷ []) 72) 72 (mod_ℤ (pos 31) (2 ^ 72))
constructors_refine_example =
    Order.constructors_refine 72 (omega arith) reader 300 (48 ∷ 120 ∷ 49 ∷ 102 ∷ []) (pos 31)
      (omega arith) (hexadecimal (49 ∷ 102 ∷ []) (pos 31) refl refl) (omega arith)

tests_refine_example :
    (eq (wide 5) (wide (2 ^ 71 + 1)) ≡ ok (5 == 2 ^ 71 + 1))
    × (ult (wide 5) (wide (2 ^ 71 + 1)) ≡ ok (ltb 5 (2 ^ 71 + 1)))
    × (ule (wide 5) (wide (2 ^ 71 + 1)) ≡ ok (leb 5 (2 ^ 71 + 1)))
    × (has_all_bit_set (wide 5) ≡ ok (5 == 2 ^ 72 - 1))
tests_refine_example = Order.tests_refine 72 5 (2 ^ 71 + 1) wide_five wide_top

extensions_refine_example :
    Yields (zext (byte 200) 72) 72 200 × Yields (sext (byte 200) 72) 72 (sign_extended 8 72 200)
extensions_refine_example = Extensions.extensions_refine 8 200 byte_200 72 (omega arith)

pieces_refine_example :
    Yields
      (extract (wide (2 ^ 71 + 1)) 71 64)
      (71 - 64 + 1)
      ((2 ^ 71 + 1) / 2 ^ 64 % 2 ^ (71 - 64 + 1))
    × Yields (lshr (wide (2 ^ 71 + 1)) 4) 72 ((2 ^ 71 + 1) / 2 ^ 4)
    × Yields (concat (wide (2 ^ 71 + 1)) (byte 200)) (72 + 8) ((2 ^ 71 + 1) * 2 ^ 8 + 200)
pieces_refine_example =
    Extensions.pieces_refine 72 (2 ^ 71 + 1) 8 200 wide_top byte_200 71 64 4 (omega arith)
      (omega arith)
