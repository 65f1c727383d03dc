-- ===== src/Builder/Comparisons.antt =====
-- The unsigned comparisons, `mk_slt`, and `mk_not` on tests, of expr/ExprBuilder.cpp.
use naaz.Base.{◌↔◌}
use naaz.Base.{◌≤◌, ◌≡◌, refl, sym}
use naaz.Base.{Bool, true, false, not, ltb, leb}
use naaz.Base.{Outcome, ok}
use naaz.BvConst.Represents.{Represents}
use naaz.Expr.{BvExpr, BoolExpr, size}
use naaz.Expr.Meaning.{Assignment, meaning, holds}
use naaz.Expr.Meaning.{const_value, WellSized, WellSizedTest}
use naaz.Platform.{Platform}
use naaz.Builder.{check_size_or_fail}
use naaz.Builder.Children.{sizes_match}
use naaz.Builder.Propagation.{const-Represents}
use naaz.BvConst.Signed.{to_signed, slt_refines}
use naaz.BvConst.Order.{ult_refines, ule_refines, ugt_refines, uge_refines}
use naaz.Builder.Relational.{
  mk_bool_not, fold_ult, mk_ult, fold_ule, mk_ule, fold_ugt, mk_ugt, fold_uge, mk_uge, fold_slt,
  mk_slt,
}
use naaz.Base.{ltb_ℤ}

-- A well-sized test that holds where `f` says.
abbrev pub Decides : Outcome BoolExpr → (Assignment → Bool) → Type 0
Decides r f =
    (e : BoolExpr) × (r ≡ ok e) × WellSizedTest e × ((env : Assignment) → holds env e ≡ f env)

not_not : (b : Bool) → b ≡ not (not b)
not_not true = refl
not_not false = refl

-- The negation that `mk_not` builds of any test is well-sized exactly when the test is, and it
-- holds exactly where the test does not, under every assignment of the symbols.
pub mk_bool_not_means :
    (e : BoolExpr)
    → (WellSizedTest (mk_bool_not e) ↔ WellSizedTest e)
      × ((env : Assignment) → holds env (mk_bool_not e) ≡ not (holds env e))
unfolding mk_bool_not meaning WellSized
mk_bool_not_means (BoolExpr.bool_const true) = ((λ h. h, λ h. h), λ env. refl)
mk_bool_not_means (BoolExpr.bool_const false) = ((λ h. h, λ h. h), λ env. refl)
mk_bool_not_means (BoolExpr.bool_not e) = ((λ h. h, λ h. h), λ env. not_not (holds env e))
mk_bool_not_means e = ((λ h. h, λ h. h), λ env. refl)

module _ ⦃p : Platform⦄ where
  fold_ult_means :
      (lhs rhs : BvExpr)
      → WellSized lhs
      → WellSized rhs
      → size lhs ≡ size rhs
      → Decides (fold_ult lhs rhs) (λ env. ltb (meaning env lhs) (meaning env rhs))
  unfolding fold_ult meaning size WellSized
  fold_ult_means (BvExpr.const l) (BvExpr.const r) hl hr k =
      let rr : Represents l.size (const_value r) r = const-Represents l.size r hr (sym k) in
      rw (ult_refines l.size (const_value l) (const_value r) hl rr)
        (BoolExpr.bool_const _, refl, tt, λ env. refl)
  fold_ult_means lhs rhs hl hr k = (BoolExpr.ult lhs rhs, refl, (hl, hr, k), λ env. refl)

  -- `mk_ult` of two well-sized expressions of the same width returns a well-sized test that holds,
  -- under every assignment of the symbols, exactly where the first value is below the second.
  pub mk_ult_means :
      (lhs rhs : BvExpr)
      → WellSized lhs
      → WellSized rhs
      → size lhs ≡ size rhs
      → Decides (mk_ult lhs rhs) (λ env. ltb (meaning env lhs) (meaning env rhs))
  unfolding mk_ult check_size_or_fail
  mk_ult_means lhs rhs hl hr k =
      rw (sizes_match (size lhs) (size rhs) k) (fold_ult_means lhs rhs hl hr k)

module _ ⦃p : Platform⦄ where
  fold_ule_means :
      (lhs rhs : BvExpr)
      → WellSized lhs
      → WellSized rhs
      → size lhs ≡ size rhs
      → Decides (fold_ule lhs rhs) (λ env. leb (meaning env lhs) (meaning env rhs))
  unfolding fold_ule meaning size WellSized
  fold_ule_means (BvExpr.const l) (BvExpr.const r) hl hr k =
      let rr : Represents l.size (const_value r) r = const-Represents l.size r hr (sym k) in
      rw (ule_refines l.size (const_value l) (const_value r) hl rr)
        (BoolExpr.bool_const _, refl, tt, λ env. refl)
  fold_ule_means lhs rhs hl hr k = (BoolExpr.ule lhs rhs, refl, (hl, hr, k), λ env. refl)

  -- `mk_ule` of two well-sized expressions of the same width returns a well-sized test that holds,
  -- under every assignment of the symbols, exactly where the first value is at most the second.
  pub mk_ule_means :
      (lhs rhs : BvExpr)
      → WellSized lhs
      → WellSized rhs
      → size lhs ≡ size rhs
      → Decides (mk_ule lhs rhs) (λ env. leb (meaning env lhs) (meaning env rhs))
  unfolding mk_ule check_size_or_fail
  mk_ule_means lhs rhs hl hr k =
      rw (sizes_match (size lhs) (size rhs) k) (fold_ule_means lhs rhs hl hr k)

module _ ⦃p : Platform⦄ where
  fold_ugt_means :
      (lhs rhs : BvExpr)
      → WellSized lhs
      → WellSized rhs
      → size lhs ≡ size rhs
      → Decides (fold_ugt lhs rhs) (λ env. ltb (meaning env rhs) (meaning env lhs))
  unfolding fold_ugt meaning size WellSized
  fold_ugt_means (BvExpr.const l) (BvExpr.const r) hl hr k =
      let rr : Represents l.size (const_value r) r = const-Represents l.size r hr (sym k) in
      rw (ugt_refines l.size (const_value l) (const_value r) hl rr)
        (BoolExpr.bool_const _, refl, tt, λ env. refl)
  fold_ugt_means lhs rhs hl hr k = (BoolExpr.ugt lhs rhs, refl, (hl, hr, k), λ env. refl)

  -- `mk_ugt` of two well-sized expressions of the same width returns a well-sized test that holds,
  -- under every assignment of the symbols, exactly where the first value is above the second.
  pub mk_ugt_means :
      (lhs rhs : BvExpr)
      → WellSized lhs
      → WellSized rhs
      → size lhs ≡ size rhs
      → Decides (mk_ugt lhs rhs) (λ env. ltb (meaning env rhs) (meaning env lhs))
  unfolding mk_ugt check_size_or_fail
  mk_ugt_means lhs rhs hl hr k =
      rw (sizes_match (size lhs) (size rhs) k) (fold_ugt_means lhs rhs hl hr k)

module _ ⦃p : Platform⦄ where
  fold_uge_means :
      (lhs rhs : BvExpr)
      → WellSized lhs
      → WellSized rhs
      → size lhs ≡ size rhs
      → Decides (fold_uge lhs rhs) (λ env. leb (meaning env rhs) (meaning env lhs))
  unfolding fold_uge meaning size WellSized
  fold_uge_means (BvExpr.const l) (BvExpr.const r) hl hr k =
      let rr : Represents l.size (const_value r) r = const-Represents l.size r hr (sym k) in
      rw (uge_refines l.size (const_value l) (const_value r) hl rr)
        (BoolExpr.bool_const _, refl, tt, λ env. refl)
  fold_uge_means lhs rhs hl hr k = (BoolExpr.uge lhs rhs, refl, (hl, hr, k), λ env. refl)

  -- `mk_uge` of two well-sized expressions of the same width returns a well-sized test that holds,
  -- under every assignment of the symbols, exactly where the first value is at least the second.
  pub mk_uge_means :
      (lhs rhs : BvExpr)
      → WellSized lhs
      → WellSized rhs
      → size lhs ≡ size rhs
      → Decides (mk_uge lhs rhs) (λ env. leb (meaning env rhs) (meaning env lhs))
  unfolding mk_uge check_size_or_fail
  mk_uge_means lhs rhs hl hr k =
      rw (sizes_match (size lhs) (size rhs) k) (fold_uge_means lhs rhs hl hr k)

module _ ⦃p : Platform⦄ where
  fold_slt_means :
      (lhs rhs : BvExpr)
      → WellSized lhs
      → WellSized rhs
      → size lhs ≡ size rhs
      → size lhs ≤ 64
      → Decides (fold_slt lhs rhs) (λ env.
        ltb_ℤ (to_signed (size lhs) (meaning env lhs)) (to_signed (size lhs) (meaning env rhs)))
  unfolding fold_slt meaning size WellSized
  fold_slt_means (BvExpr.const l) (BvExpr.const r) hl hr k narrow =
      let rr : Represents l.size (const_value r) r = const-Represents l.size r hr (sym k) in
      rw (slt_refines l.size (const_value l) (const_value r) hl rr narrow)
        (BoolExpr.bool_const _, refl, tt, λ env. refl)
  fold_slt_means lhs rhs hl hr k narrow = (BoolExpr.slt lhs rhs, refl, (hl, hr, k), λ env. refl)

  -- Up to 64 bits, `mk_slt` of two well-sized expressions of the same width returns a well-sized
  -- test that holds, under every assignment of the symbols, exactly where the integer that the
  -- first value stands for in two's complement is below that of the second. A well-sized expression
  -- has no division or remainder, whose width is not set.
  pub mk_slt_means :
      (lhs rhs : BvExpr)
      → WellSized lhs
      → WellSized rhs
      → size lhs ≡ size rhs
      → size lhs ≤ 64
      → Decides (mk_slt lhs rhs) (λ env.
        ltb_ℤ (to_signed (size lhs) (meaning env lhs)) (to_signed (size lhs) (meaning env rhs)))
  unfolding mk_slt check_size_or_fail
  mk_slt_means lhs rhs hl hr k narrow =
      rw (sizes_match (size lhs) (size rhs) k) (fold_slt_means lhs rhs hl hr k narrow)

module _ ⦃p : Platform⦄ where
  -- `mk_ult`, `mk_ule`, `mk_ugt` and `mk_uge` of two well-sized expressions of the same width
  -- return well-sized tests that hold, under every assignment of the symbols, exactly where the
  -- first value is below, at most, above and at least the second. A well-sized expression has no
  -- division or remainder, whose width is not set.
  pub mk_unsigned_means :
      (lhs rhs : BvExpr)
      → WellSized lhs
      → WellSized rhs
      → size lhs ≡ size rhs
      → Decides (mk_ult lhs rhs) (λ env. ltb (meaning env lhs) (meaning env rhs))
        × Decides (mk_ule lhs rhs) (λ env. leb (meaning env lhs) (meaning env rhs))
        × Decides (mk_ugt lhs rhs) (λ env. ltb (meaning env rhs) (meaning env lhs))
        × Decides (mk_uge lhs rhs) (λ env. leb (meaning env rhs) (meaning env lhs))
  mk_unsigned_means lhs rhs hl hr k = (
    mk_ult_means lhs rhs hl hr k,
    mk_ule_means lhs rhs hl hr k,
    mk_ugt_means lhs rhs hl hr k,
    mk_uge_means lhs rhs hl hr k,
  )
