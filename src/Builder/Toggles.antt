-- ===== src/Builder/Toggles.antt =====
-- `mk_xor` of expr/ExprBuilder.cpp, with its pruning of equal children.
use naaz.Base.{ℕ, ◌^◌, ◌≡◌, refl, sym, ◌∙◌, ap, subst, arith}
use naaz.Base.{bit_xor, inl, inr, List, [], ◌∷◌}
use naaz.Base.{true, ◌||◌, Bool-cases}
use native.Mathlib.Nat.{zero-mod}
use naaz.BvConst.Arith
use naaz.BvConst.Bitwise.{bxor_refines}
use naaz.BvConst.Order.{is_zero_refines, of_u64_refines}
use naaz.BvConst.Represents.{Represents}
use naaz.Expr.{BvExpr, size, same, same→eq}
use naaz.Expr.Meaning.{Assignment, meaning}
use naaz.Expr.Meaning.{WellSized}
use naaz.Expr.Bounds.{size-pos}
use naaz.Platform.{Platform}
use naaz.Builder.{check_size_or_fail}
use naaz.Builder.Nary.{flat_xor, contains, erase, toggle, toggle_all, mk_xor}
use naaz.Builder.Fold.{AllOf, folded, Builds}
use naaz.Builder.Fold.{swap_front}
use naaz.Builder.Children.{finish-Means, operands_split, sizes_match}
use naaz.Builder.Propagation.{IsSplit}
use naaz.Base.Digits.{bit_xor_comm, bit_xor_assoc, zero-bit_xor, bit_xor_self}
use mathlib.Core.Bool.{false≢true}
use naaz.Builder.Fold.{folded-place, AllOf-place}
use naaz.Builder.Nodes.{xor_commutative, xor-IsNode, flat_xor-IsFlat}

abbrev xor_all : Assignment → List BvExpr → ℕ
xor_all env xs = folded bit_xor 0 env xs

AllOf-erase : (w : ℕ) (e : BvExpr) (xs : List BvExpr) → AllOf w xs → AllOf w (erase e xs)
unfolding erase
AllOf-erase w e [] h = tt
AllOf-erase w e (x ∷ xs) h = elim (Bool-cases (same x e)) [
  | inl found ↦ rw found h.2
  | inr other ↦ rw other (h.0, h.1, AllOf-erase w e xs h.2)
]

-- One element is taken out of a set that contains it.
xor_all-erase :
    (w : ℕ) (env : Assignment) (e : BvExpr) (xs : List BvExpr)
    → contains e xs ≡ true
    → xor_all env xs ≡ bit_xor (meaning env e) (xor_all env (erase e xs))
unfolding contains erase
xor_all-erase w env e [] h = absurd (false≢true h)
xor_all-erase w env e (x ∷ xs) h = elim (Bool-cases (same x e)) [
  | inl found ↦ rw found (ap (λ y. bit_xor (meaning env y) (xor_all env xs)) (same→eq x e found))
  | inr other ↦
      let inside : contains e xs ≡ true = ap (λ b. b || contains e xs) (sym other) ∙ h in
      rw other (
        ap (bit_xor (meaning env x)) (xor_all-erase w env e xs inside)
        ∙ swap_front w bit_xor 0 (xor_commutative w) (meaning env x) (meaning env e)
            (xor_all env (erase e xs)))
]

module _ (addr : BvExpr → ℕ) (w : ℕ) where
  AllOf-toggle :
      (e : BvExpr) (xs : List BvExpr)
      → WellSized e
      → size e ≡ w
      → AllOf w xs
      → AllOf w (toggle addr e xs)
  unfolding toggle
  AllOf-toggle e xs h k l = elim (Bool-cases (contains e xs)) [
    | inl found ↦ rw found (AllOf-erase w e xs l)
    | inr other ↦ rw other (AllOf-place addr w e xs h k l)
  ]

  -- x ^ x is 0, so a second occurrence cancels the first.
  xor_all-toggle :
      (env : Assignment) (e : BvExpr) (xs : List BvExpr)
      → xor_all env (toggle addr e xs) ≡ bit_xor (meaning env e) (xor_all env xs)
  unfolding toggle
  xor_all-toggle env e xs = elim (Bool-cases (contains e xs)) [
    | inl found ↦ rw found (
        sym (zero-bit_xor (xor_all env (erase e xs)))
        ∙ ap (λ t. bit_xor t (xor_all env (erase e xs))) (sym (bit_xor_self (meaning env e)))
        ∙ bit_xor_assoc (meaning env e) (meaning env e) (xor_all env (erase e xs))
        ∙ ap (bit_xor (meaning env e)) (sym (xor_all-erase w env e xs found)))
    | inr other ↦ rw other (folded-place w bit_xor 0 (xor_commutative w) addr env e xs)
  ]

  AllOf-toggle_all :
      (els xs : List BvExpr) → AllOf w els → AllOf w xs → AllOf w (toggle_all addr els xs)
  unfolding toggle_all
  AllOf-toggle_all [] xs h k = k
  AllOf-toggle_all (e ∷ els) xs h k =
      AllOf-toggle_all els (toggle addr e xs) h.2 (AllOf-toggle e xs h.0 h.1 k)

  xor_all-toggle_all :
      (env : Assignment) (els xs : List BvExpr)
      → xor_all env (toggle_all addr els xs) ≡ bit_xor (xor_all env els) (xor_all env xs)
  unfolding toggle_all
  xor_all-toggle_all env [] xs = sym (zero-bit_xor (xor_all env xs))
  xor_all-toggle_all env (e ∷ els) xs =
      xor_all-toggle_all env els (toggle addr e xs)
      ∙ ap (bit_xor (xor_all env els)) (xor_all-toggle env e xs)
      ∙ swap_front w bit_xor 0 (xor_commutative w) (xor_all env els) (meaning env e)
          (xor_all env xs)
      ∙ sym (bit_xor_assoc (meaning env e) (xor_all env els) (xor_all env xs))

  pruned_value :
      (env : Assignment) (held : ℕ) (children : List BvExpr)
      → bit_xor held (xor_all env (toggle_all addr children []))
        ≡ bit_xor held (xor_all env children)
  pruned_value env held children = ap (bit_xor held) (
      xor_all-toggle_all env children []
      ∙ bit_xor_comm (xor_all env children) 0
      ∙ zero-bit_xor (xor_all env children))

module _ ⦃p : Platform⦄ (addr : BvExpr → ℕ) where
  -- `mk_xor` of two well-sized expressions of the same width returns a well-sized expression of
  -- that width whose value is, under every assignment of the symbols, the exclusive or of the
  -- operands' values. A well-sized expression has no division or remainder, whose width is not set.
  -- Nothing is assumed of the addresses that order the children.
  pub mk_xor_means :
      (lhs rhs : BvExpr)
      → WellSized lhs
      → WellSized rhs
      → size lhs ≡ size rhs
      → Builds (mk_xor addr lhs rhs) (size lhs) (λ env. bit_xor (meaning env lhs) (meaning env rhs))
  unfolding mk_xor check_size_or_fail
  mk_xor_means lhs rhs hl hr same_width =
      let w : ℕ = size lhs in
      let fl = flat_xor-IsFlat w lhs hl refl in
      let fr = flat_xor-IsFlat w rhs hr (sym same_width) in
      let (none_set, made, rn) = of_u64_refines w (size-pos lhs hl) 0 (omega arith) in
      let start = subst (λ v. Represents w v none_set) (zero-mod (2 ^ w)) rn in
      let (split, returned, s) =
        operands_split w bit_xor 0 (xor_commutative w) Arith.bxor (λ a b x y. bxor_refines w a b)
          lhs rhs fl fr start in
      let s' : IsSplit w bit_xor 0 (λ env. bit_xor (meaning env lhs) (meaning env rhs)) split.0
          (toggle_all addr split.1 []) =
        record {
          held = s.held;
          represents = s.represents;
          sized = AllOf-toggle_all addr w split.1 [] s.sized tt;
          value = λ env. pruned_value addr w env s.held split.1 ∙ s.value env;
        } in
      rw
        (
          sizes_match (size lhs) (size rhs) same_width,
          fl.head (flat_xor rhs),
          made,
          returned,
          is_zero_refines w s.held s.represents,
        )
        (
          _,
          refl,
          finish-Means w bit_xor 0 (xor_commutative w) addr BvExpr.xor (xor-IsNode w)
              (toggle_all addr split.1 []) s',
        )
