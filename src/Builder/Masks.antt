-- ===== src/Builder/Masks.antt =====
-- `mk_and` and `mk_or` of expr/ExprBuilder.cpp.
use naaz.Base.{ℕ, ◌-◌, ◌^◌, ◌<◌, ◌≡◌, refl, sym, subst, arith}
use naaz.Base.{bit_and, bit_or, [], ◌++◌}
use naaz.Base.{negsuc}
use native.Mathlib.Nat.{zero-mod}
use naaz.BvConst.Order.{is_zero_refines, has_all_bit_set_refines, of_number_refines, of_u64_refines}
use naaz.BvConst.Represents.{Represents}
use naaz.Expr.{BvExpr, size}
use naaz.Expr.Meaning.{Assignment, meaning}
use naaz.Expr.Meaning.{WellSized}
use naaz.Expr.Bounds.{size-pos}
use naaz.Platform.{Platform}
use naaz.Builder.{check_size_or_fail}
use naaz.Builder.Nary.{Loop, flat_and, flat_or, and_end, or_end, mk_and, mk_or}
use naaz.Builder.Fold.{Builds, AllOf-append}
use naaz.Builder.Children.{finish-Means, sizes_match, initial-IsSplit, from_unit}
use naaz.Builder.Loops.{
  and_commutative, or_commutative, LoopMeans, reassociate, and_loop-Ends, or_loop-Ends,
}
use naaz.Builder.Nodes.{and_IsNode, or_IsNode, flat_and-IsFlat, flat_or-IsFlat}

module _ ⦃p : Platform⦄ (addr : BvExpr → ℕ) where
  and_end_means :
      (w : ℕ) {total : Assignment → ℕ} (l : Loop)
      → LoopMeans w bit_and (2 ^ w - 1) total l
      → Builds (and_end addr l) w total
  unfolding and_end
  and_end_means w (Loop.early e) h = (e, refl, h)
  and_end_means w (Loop.finished c children) s =
      rw (has_all_bit_set_refines w s.held s.represents) (
        _,
        refl,
        finish-Means w bit_and (2 ^ w - 1) (and_commutative w) addr BvExpr.and (and_IsNode w)
            children s,
      )

  -- `mk_and` of two well-sized expressions of the same width returns a well-sized expression of
  -- that width whose value is, under every assignment of the symbols, the bitwise conjunction of
  -- the operands' values. A well-sized expression has no division or remainder, whose width is not
  -- set. Nothing is assumed of the addresses that order the children.
  pub mk_and_means :
      (lhs rhs : BvExpr)
      → WellSized lhs
      → WellSized rhs
      → size lhs ≡ size rhs
      → Builds (mk_and addr lhs rhs) (size lhs) (λ env. bit_and (meaning env lhs) (meaning env rhs))
  unfolding mk_and check_size_or_fail
  mk_and_means lhs rhs hl hr same_width =
      let w : ℕ = size lhs in
      let fl = flat_and-IsFlat w lhs hl refl in
      let fr = flat_and-IsFlat w rhs hr (sym same_width) in
      let (full, made, rf) = of_number_refines w (size-pos lhs hl) (negsuc 0) (omega arith) in
      let start = subst (λ v. Represents w v full) (omega (arith, zero-mod (2 ^ w))) rf in
      let initial = initial-IsSplit w bit_and (2 ^ w - 1) (and_commutative w) start in
      let all = AllOf-append w (flat_and lhs) (flat_and rhs) fl.all fr.all in
      let (l, returned, means) =
        reassociate w bit_and (2 ^ w - 1) (and_commutative w)
          (from_unit w bit_and (2 ^ w - 1) (and_commutative w) lhs rhs fl fr)
          (and_loop-Ends w (flat_and lhs ++ flat_and rhs) full [] all initial) in
      rw (sizes_match (size lhs) (size rhs) same_width, fl.head (flat_and rhs), made, returned)
        (and_end_means w l means)

  or_end_means :
      (w : ℕ) {total : Assignment → ℕ} (l : Loop)
      → LoopMeans w bit_or 0 total l
      → Builds (or_end addr l) w total
  unfolding or_end
  or_end_means w (Loop.early e) h = (e, refl, h)
  or_end_means w (Loop.finished c children) s =
      rw (is_zero_refines w s.held s.represents) (
        _,
        refl,
        finish-Means w bit_or 0 (or_commutative w) addr BvExpr.or (or_IsNode w) children s,
      )

  -- `mk_or` of two well-sized expressions of the same width returns a well-sized expression of that
  -- width whose value is, under every assignment of the symbols, the bitwise disjunction of the
  -- operands' values. A well-sized expression has no division or remainder, whose width is not set.
  -- Nothing is assumed of the addresses that order the children.
  pub mk_or_means :
      (lhs rhs : BvExpr)
      → WellSized lhs
      → WellSized rhs
      → size lhs ≡ size rhs
      → Builds (mk_or addr lhs rhs) (size lhs) (λ env. bit_or (meaning env lhs) (meaning env rhs))
  unfolding mk_or check_size_or_fail
  mk_or_means lhs rhs hl hr same_width =
      let w : ℕ = size lhs in
      let positive : 0 < w = size-pos lhs hl in
      let fl = flat_or-IsFlat w lhs hl refl in
      let fr = flat_or-IsFlat w rhs hr (sym same_width) in
      let (none_set, made, rn) = of_u64_refines w positive 0 (omega arith) in
      let start = subst (λ v. Represents w v none_set) (zero-mod (2 ^ w)) rn in
      let initial = initial-IsSplit w bit_or 0 (or_commutative w) start in
      let all = AllOf-append w (flat_or lhs) (flat_or rhs) fl.all fr.all in
      let (l, returned, means) =
        reassociate w bit_or 0 (or_commutative w)
          (from_unit w bit_or 0 (or_commutative w) lhs rhs fl fr)
          (or_loop-Ends w positive (flat_or lhs ++ flat_or rhs) none_set [] all initial) in
      rw (sizes_match (size lhs) (size rhs) same_width, fl.head (flat_or rhs), made, returned)
        (or_end_means w l means)
