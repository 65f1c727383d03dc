-- ===== src/Builder/Products.antt =====
-- `mk_mul` of expr/ExprBuilder.cpp.
use naaz.Base.{ℕ, ◌*◌, ◌%◌, ◌^◌, ◌<◌, ◌≡◌, refl, sym, ◌∙◌, ap, subst, arith}
use naaz.Base.{inl, inr, List, [], ◌∷◌, ◌++◌}
use naaz.Base.{Bool, true, false, ◌||◌, ◌==◌, if◌then◌else◌, Bool-cases}
use naaz.Base.{==→eq}
use naaz.Base.Pow.{pow_mono, mod-pow-lt, mul_mod-left, mul_mod-right}
use native.Mathlib.Nat.{mul_comm, mul_assoc, mod-eq_of_lt, mod-mod, zero-mod}
use naaz.BvConst.{BvConst}
use naaz.BvConst.Arith
use naaz.BvConst.Modular.{mul_refines}
use naaz.BvConst.Order.{is_zero_refines, is_one_refines, of_u64_refines}
use naaz.BvConst.Represents.{Represents}
use naaz.Expr.{BvExpr, BvList, size}
use naaz.Expr.Meaning.{Assignment, meaning, product}
use naaz.Expr.Meaning.{WellSized, OfWidth}
use naaz.Expr.Bounds.{size-pos}
use naaz.Platform.{Platform}
use naaz.Builder.{mk_const, check_size_or_fail}
use naaz.Builder.Nary.{of_list, elements, combine, is_empty, flat_mul, mk_mul}
use naaz.Builder.Fold.{IsCommutative, folded, Means, Builds, IsNode}
use naaz.Builder.Fold.{folded-lt}
use naaz.Builder.Children.{AllOf-elements, OfWidth-of_list, elements-of_list, head_size-elements}
use naaz.Builder.Children.{
  IsFlat, alone-IsFlat, const_result, finish-Means, operands_split, sizes_match,
}
use naaz.Builder.Propagation.{IsSplit}

abbrev times : ℕ → ℕ → ℕ → ℕ
times w a b = a * b % 2 ^ w

times_commutative : (w : ℕ) → 0 < w → IsCommutative w (times w) 1
times_commutative w h = record {
  closed = λ a b k l. mod-pow-lt (a * b) w;
  comm = λ a b. ap (λ t. t % 2 ^ w) (mul_comm a b);
  assoc = λ a b c.
      mul_mod-left (a * b) c (2 ^ w)
      ∙ ap (λ t. t % 2 ^ w) (mul_assoc a b c ∙ mul_comm a (b * c))
      ∙ sym (mul_mod-left (b * c) a (2 ^ w))
      ∙ ap (λ t. t % 2 ^ w) (mul_comm (b * c % 2 ^ w) a);
  unit_left = λ a k. ap (λ t. t % 2 ^ w) (omega arith) ∙ mod-eq_of_lt k;
  unit_lt = omega (arith, pow_mono 1 w h);
}

product-folded :
    (w : ℕ) (env : Assignment) (els : BvList)
    → product env els % 2 ^ w ≡ folded (times w) 1 env (elements els) % 2 ^ w
unfolding elements product
product-folded w env BvList.nil = refl
product-folded w env (BvList.cons e els) =
    sym (mul_mod-right (meaning env e) (product env els) (2 ^ w))
    ∙ ap (λ t. meaning env e * t % 2 ^ w) (product-folded w env els)
    ∙ mul_mod-right (meaning env e) (folded (times w) 1 env (elements els)) (2 ^ w)
    ∙ sym (mod-mod (meaning env e * folded (times w) 1 env (elements els)) (2 ^ w))

module _ (w : ℕ) (positive : 0 < w) where
  -- What a product node means, when its children have the width w.
  node_value :
      (env : Assignment) (els : BvList)
      → OfWidth w els
      → product env els % 2 ^ w ≡ folded (times w) 1 env (elements els)
  node_value env els h =
      product-folded w env els
      ∙ mod-eq_of_lt (
          folded-lt w (times w) 1 (times_commutative w positive) env (elements els)
            (AllOf-elements w els h))

  mul-IsNode : IsNode w (times w) 1 (times_commutative w positive) BvExpr.mul
  unfolding meaning size WellSized of_list
  mul-IsNode e els h =
      let inside : OfWidth w (of_list (e ∷ els)) = OfWidth-of_list w (e ∷ els) h in
      (
        (subst (λ n. OfWidth n (of_list (e ∷ els))) (sym h.1) inside, size-pos e h.0),
        h.1,
        λ env.
            ap (λ n. product env (of_list (e ∷ els)) % 2 ^ n) h.1
            ∙ node_value env (of_list (e ∷ els)) inside
            ∙ ap (folded (times w) 1 env) (elements-of_list (e ∷ els)),
      )

  -- Flattening keeps the value and the width.
  flat_mul-IsFlat : (e : BvExpr) → WellSized e → size e ≡ w → IsFlat w (times w) 1 e (flat_mul e)
  unfolding flat_mul meaning size WellSized
  flat_mul-IsFlat (BvExpr.mul els) h k =
      let inside : OfWidth w els = subst (λ n. OfWidth n els) k h.0 in
      record {
        all = AllOf-elements w els inside;
        head = λ ys. head_size-elements w els ys inside h.1;
        value = λ env. sym (node_value env els inside) ∙ ap (λ n. product env els % 2 ^ n) (sym k);
      }
  flat_mul-IsFlat e h k = alone-IsFlat w (times w) 1 (times_commutative w positive) e h k

or_true : (b : Bool) → (b || true) ≡ true
or_true true = refl
or_true false = refl

or_false : (b : Bool) → (b || false) ≡ b
or_false true = refl
or_false false = refl

zero_times : (w b : ℕ) → times w 0 b ≡ 0
zero_times w b = ap (λ t. t % 2 ^ w) (zero_mul b) ∙ zero-mod (2 ^ w)
  where
    zero_mul : (b : ℕ) → 0 * b ≡ 0
    zero_mul b = omega arith

module _ ⦃p : Platform⦄ (addr : BvExpr → ℕ) where
  -- The end of `mk_mul`: a zero constant is the product.
  product_result :
      (w : ℕ) (positive : 0 < w) {total : Assignment → ℕ} {c : BvConst} {children : List BvExpr}
      (s : IsSplit w (times w) 1 total c children)
      → Means w total (
          if is_empty children || s.held == 0
          then mk_const c
          else combine addr BvExpr.mul
              (if s.held == 1 then children else children ++ mk_const c ∷ []))
  product_result w positive {children = children} s = elim (Bool-cases (s.held == 0)) [
    | inl zeroed ↦
        let at_zero : s.held ≡ 0 = ==→eq s.held 0 zeroed in
        rw (zeroed, or_true (is_empty children))
          (const_result w (times w) 1 m s (λ env.
            at_zero
            ∙ sym (zero_times w (folded (times w) 1 env children))
            ∙ ap (λ t. times w t (folded (times w) 1 env children)) (sym at_zero)
            ∙ s.value env))
    | inr other ↦
        rw (other, or_false (is_empty children))
          (finish-Means w (times w) 1 m addr BvExpr.mul (mul-IsNode w positive) children s)
  ]
    where
      m : IsCommutative w (times w) 1
      m = times_commutative w positive

  -- `mk_mul` of two well-sized expressions of the same width returns a well-sized expression of
  -- that width whose value is, under every assignment of the symbols, the product of the operands'
  -- values modulo 2 ^ width. A well-sized expression has no division or remainder, whose width is
  -- not set. Nothing is assumed of the addresses that order the children.
  pub mk_mul_means :
      (lhs rhs : BvExpr)
      → WellSized lhs
      → WellSized rhs
      → size lhs ≡ size rhs
      → Builds
          (mk_mul addr lhs rhs)
          (size lhs)
          (λ env. meaning env lhs * meaning env rhs % 2 ^ size lhs)
  unfolding mk_mul check_size_or_fail
  mk_mul_means lhs rhs hl hr same_width =
      let w : ℕ = size lhs in
      let positive : 0 < w = size-pos lhs hl in
      let fl = flat_mul-IsFlat w positive lhs hl refl in
      let fr = flat_mul-IsFlat w positive rhs hr (sym same_width) in
      let (one, made, start) = of_u64_refines w positive 1 (omega arith) in
      let start' =
        subst (λ v. Represents w v one) (mod-eq_of_lt (omega (arith, pow_mono 1 w positive)))
          start in
      let (split, returned, s) =
        operands_split w (times w) 1 (times_commutative w positive) Arith.mul
          (λ a b x y. mul_refines w a b) lhs rhs fl fr start' in
      rw
        (
          sizes_match (size lhs) (size rhs) same_width,
          fl.head (flat_mul rhs),
          made,
          returned,
          is_zero_refines w s.held s.represents,
          is_one_refines w s.held s.represents,
        )
        (_, refl, product_result w positive s)
