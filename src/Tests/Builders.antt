-- ===== src/Tests/Builders.antt =====
-- expr/ExprBuilder.cpp at expressions over a symbol of 8 bits.
use naaz.Base.{◌↔◌}
use naaz.Base.{
  ℕ, ◌-◌, ◌*◌, ◌%◌, ◌^◌, ◌<◌, ◌≤◌, ◌≡◌, refl, inl, arith, bit_and, bit_or, bit_xor, pos, ltb, leb,
  ◌&&◌, ◌||◌,
}
use naaz.Base.{not, ltb_ℤ, if◌then◌else◌}
use naaz.Platform.Exact.{exact}
use naaz.BvConst.Signed.{to_signed, sign_extended}
use naaz.Expr.{BvExpr, BoolExpr, BvList, size}
use naaz.Expr.Meaning.{Assignment, meaning, holds, WellSized, WellSizedTest}
use naaz.Builder.{mk_zext, mk_sext, mk_not, mk_ite}
use naaz.Builder.Nary.{mk_mul, mk_and, mk_or, mk_xor}
use naaz.Builder.Relational.{
  mk_ult, mk_ule, mk_ugt, mk_uge, mk_slt, mk_bool_not, mk_bool_and, mk_bool_or,
}
use naaz.Builder.Fold.{Builds}
use naaz.Builder.{check_size_or_fail}
use naaz.Builder.Division.{mk_urem, urem_nonzero}
use naaz.BvConst.Compare.{is_zero, is_one}
use naaz.Base.{ok}
use naaz.Builder.Products
use naaz.Builder.Masks
use naaz.Builder.Toggles
use naaz.Builder.Widths
use naaz.Builder.Comparisons
use naaz.Builder.Comparisons.{Decides}
use naaz.Builder.Junctions

abbrev x : BvExpr
x = BvExpr.sym 1 8

abbrev number : ℕ → BvExpr
number v = BvExpr.const (record { size = 8; small_val = v; big_val = pos 0 })

-- (x * 3)
abbrev triple : BvExpr
triple = BvExpr.mul (BvList.cons x (BvList.cons (number 3) BvList.nil))

abbrev masked : BvExpr
masked = BvExpr.and (BvList.cons x (BvList.cons (number 15) BvList.nil))

abbrev marked : BvExpr
marked = BvExpr.or (BvList.cons x (BvList.cons (number 1) BvList.nil))

abbrev flipped : BvExpr
flipped = BvExpr.xor (BvList.cons x (BvList.cons (number 6) BvList.nil))

small : (v : ℕ) → v < 2 ^ 8 → WellSized (number v)
unfolding WellSized
small v h = record {
  width = refl;
  positive = omega arith;
  fits = h;
  holds = inl (omega arith, refl);
}

x_sized : WellSized x
unfolding WellSized
x_sized = omega arith

eight : (v : ℕ) → size (number v) ≡ 8
unfolding size
eight v = refl

triple_sized : WellSized triple
unfolding WellSized size
triple_sized = ((x_sized, refl, (small 3 (omega arith), refl, tt)), omega arith)

masked_sized : WellSized masked
unfolding WellSized size
masked_sized = ((x_sized, refl, (small 15 (omega arith), refl, tt)), omega arith)

marked_sized : WellSized marked
unfolding WellSized size
marked_sized = ((x_sized, refl, (small 1 (omega arith), refl, tt)), omega arith)

flipped_sized : WellSized flipped
unfolding WellSized size
flipped_sized = ((x_sized, refl, (small 6 (omega arith), refl, tt)), omega arith)

same_widths :
    (v : ℕ)
    → (size triple ≡ size (number v))
      × (size masked ≡ size (number v))
      × (size marked ≡ size (number v))
      × (size flipped ≡ size x)
      × (size x ≡ size (number v))
unfolding size
same_widths v = (refl, refl, refl, refl, refl)

mk_mul_means_example :
    Builds
      (mk_mul size triple (number 5))
      (size triple)
      (λ env. meaning env triple * meaning env (number 5) % 2 ^ size triple)
mk_mul_means_example =
    Products.mk_mul_means size triple (number 5) triple_sized (small 5 (omega arith))
      (same_widths 5).0

mk_and_means_example :
    Builds
      (mk_and size masked (number 60))
      (size masked)
      (λ env. bit_and (meaning env masked) (meaning env (number 60)))
mk_and_means_example =
    Masks.mk_and_means size masked (number 60) masked_sized (small 60 (omega arith))
      (same_widths 60).1

mk_or_means_example :
    Builds
      (mk_or size marked (number 2))
      (size marked)
      (λ env. bit_or (meaning env marked) (meaning env (number 2)))
mk_or_means_example =
    Masks.mk_or_means size marked (number 2) marked_sized (small 2 (omega arith)) (same_widths 2).2

mk_xor_means_example :
    Builds
      (mk_xor size flipped x)
      (size flipped)
      (λ env. bit_xor (meaning env flipped) (meaning env x))
mk_xor_means_example = Toggles.mk_xor_means size flipped x flipped_sized x_sized (same_widths 0).3

grows : (e : BvExpr) → size e ≡ 8 → size e ≤ 16
grows e h = omega (arith, h)

same_widths_of : (a b : ℕ) → size (number a) ≡ size (number b)
unfolding size
same_widths_of a b = refl

byte_of_x : size x ≡ 8
unfolding size
byte_of_x = refl

widened : WellSized (BvExpr.zext x 12)
unfolding WellSized
widened = (x_sized, omega (arith, byte_of_x))

twelve : size (BvExpr.zext x 12) ≡ 12
unfolding size
twelve = refl

mk_extensions_mean_example :
    Builds (mk_zext (number 200) 16) 16 (λ env. meaning env (number 200))
    × Builds
        (mk_sext (number 200) 16)
        16
        (λ env. sign_extended (size (number 200)) 16 (meaning env (number 200)))
mk_extensions_mean_example =
    Widths.mk_extensions_mean (number 200) 16 (small 200 (omega arith))
      (grows (number 200) (eight 200))

mk_not_means_example :
    Builds
      (mk_not (number 200))
      (size (number 200))
      (λ env. 2 ^ size (number 200) - 1 - meaning env (number 200))
mk_not_means_example = Widths.mk_not_means (number 200) (small 200 (omega arith))

below_5 : WellSizedTest (BoolExpr.ult x (number 5))
unfolding WellSized size
below_5 = (x_sized, small 5 (omega arith), refl)

mk_ite_means_example :
    Builds (mk_ite (BoolExpr.ult x (number 5)) x (number 9)) (size x) (λ env.
      if holds env (BoolExpr.ult x (number 5)) then meaning env x else meaning env (number 9))
mk_ite_means_example =
    Widths.mk_ite_means (BoolExpr.ult x (number 5)) x (number 9) below_5 x_sized
      (small 9 (omega arith)) (same_widths 9).4

mk_bool_not_means_example :
    (WellSizedTest (mk_bool_not (BoolExpr.ult x (number 5)))
      ↔ WellSizedTest (BoolExpr.ult x (number 5)))
    × ((env : Assignment)
        → holds env (mk_bool_not (BoolExpr.ult x (number 5)))
          ≡ not (holds env (BoolExpr.ult x (number 5))))
mk_bool_not_means_example = Comparisons.mk_bool_not_means (BoolExpr.ult x (number 5))

mk_slt_means_example : Decides (mk_slt (number 3) (number 200)) (λ env.
    ltb_ℤ
      (to_signed (size (number 3)) (meaning env (number 3)))
      (to_signed (size (number 3)) (meaning env (number 200))))
mk_slt_means_example =
    Comparisons.mk_slt_means (number 3) (number 200) (small 3 (omega arith))
      (small 200 (omega arith)) (same_widths_of 3 200) (omega (arith, eight 3))

mk_bool_and_holds_example :
    holds (λ i. 7) (mk_bool_and (λ e. 0) (BoolExpr.ult x (number 5)) (BoolExpr.ult (number 3) x))
    ≡ (holds (λ i. 7) (BoolExpr.ult x (number 5)) && holds (λ i. 7) (BoolExpr.ult (number 3) x))
mk_bool_and_holds_example =
    Junctions.mk_bool_and_holds (λ e. 0) (BoolExpr.ult x (number 5)) (BoolExpr.ult (number 3) x)
      (λ i. 7)

mk_bool_or_holds_example :
    holds (λ i. 7) (mk_bool_or (λ e. 0) (BoolExpr.ult x (number 5)) (BoolExpr.ult (number 3) x))
    ≡ (holds (λ i. 7) (BoolExpr.ult x (number 5)) || holds (λ i. 7) (BoolExpr.ult (number 3) x))
mk_bool_or_holds_example =
    Junctions.mk_bool_or_holds (λ e. 0) (BoolExpr.ult x (number 5)) (BoolExpr.ult (number 3) x)
      (λ i. 7)

-- A remainder by one is taken to be the dividend.
urem_by_one : mk_urem x (number 1) ≡ ok x
unfolding mk_urem urem_nonzero check_size_or_fail is_zero is_one size
urem_by_one = refl

mk_unsigned_means_example :
    Decides
      (mk_ult (number 3) (number 200))
      (λ env. ltb (meaning env (number 3)) (meaning env (number 200)))
    × Decides
        (mk_ule (number 3) (number 200))
        (λ env. leb (meaning env (number 3)) (meaning env (number 200)))
    × Decides
        (mk_ugt (number 3) (number 200))
        (λ env. ltb (meaning env (number 200)) (meaning env (number 3)))
    × Decides
        (mk_uge (number 3) (number 200))
        (λ env. leb (meaning env (number 200)) (meaning env (number 3)))
mk_unsigned_means_example =
    Comparisons.mk_unsigned_means (number 3) (number 200) (small 3 (omega arith))
      (small 200 (omega arith)) (same_widths_of 3 200)
