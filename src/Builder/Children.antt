-- ===== src/Builder/Children.antt =====
-- The children of a node as a list, and the final checks of the operations on several children.
use naaz.Base.{ℕ, ◌<◌, ◌≡◌, refl, sym, ◌∙◌, ap, ap₂, arith}
use naaz.Base.{inl, inr, List, [], ◌∷◌, ◌++◌}
use naaz.Base.{true, ◌==◌, if◌then◌else◌, Bool-cases}
use naaz.Base.{==_refl, ==→eq}
use naaz.BvConst.{BvConst}
use naaz.Expr.{BvExpr, BvList, size, first_size}
use naaz.Expr.Meaning.{Assignment, meaning}
use naaz.Expr.Meaning.{WellSized, OfWidth}
use naaz.Platform.{Platform}
use naaz.Builder.{mk_const}
use naaz.Builder.Nary.{of_list, elements, head_size, combine, is_empty}
use naaz.Builder.Fold.{
  IsCommutative, AllOf, folded, Means, AllOf-append, IsNode, combine-Means, mk_const-Means,
}
use naaz.Builder.Fold.{folded-append, folded-lt, unit_right, of_width-lt}
use naaz.Builder.Nary.{propagate}
use naaz.BvConst.Represents.{Represents}
use naaz.Base.{Outcome}
use naaz.Builder.Propagation.{IsSplit, Splits, Computes, propagate-Splits, retotal}

pub AllOf-elements : (w : ℕ) (els : BvList) → OfWidth w els → AllOf w (elements els)
unfolding elements OfWidth
AllOf-elements w BvList.nil h = tt
AllOf-elements w (BvList.cons e els) h = (h.0, h.1, AllOf-elements w els h.2)

pub OfWidth-of_list : (w : ℕ) (xs : List BvExpr) → AllOf w xs → OfWidth w (of_list xs)
unfolding of_list OfWidth
OfWidth-of_list w [] h = tt
OfWidth-of_list w (x ∷ xs) h = (h.0, h.1, OfWidth-of_list w xs h.2)

pub elements-of_list : (xs : List BvExpr) → elements (of_list xs) ≡ xs
unfolding elements of_list
elements-of_list [] = refl
elements-of_list (x ∷ xs) = ap (λ l. x ∷ l) (elements-of_list xs)

pub head_size-elements :
    (w : ℕ) (els : BvList) (ys : List BvExpr)
    → OfWidth w els
    → 0 < first_size els
    → head_size (elements els ++ ys) ≡ w
unfolding elements OfWidth size
head_size-elements w BvList.nil ys h k = absurd (omega arith)
head_size-elements w (BvList.cons e els) ys h k = h.1

pub change_meaning :
    {w : ℕ} {f g : Assignment → ℕ} (e : BvExpr)
    → Means w f e
    → ((env : Assignment) → f env ≡ g env)
    → Means w g e
change_meaning e (sized, width, value) h = (sized, width, λ env. value env ∙ h env)

pub sizes_match : (a b : ℕ) → a ≡ b → (a == b) ≡ true
sizes_match a b h = ap (λ n. a == n) (sym h) ∙ ==_refl a

-- A flattened operand: its children, with their values and widths.
pub record IsFlat (w : ℕ) (op : ℕ → ℕ → ℕ) (unit : ℕ) (e : BvExpr) (xs : List BvExpr) : Type 0 where
  pub all : AllOf w xs
  pub head : (ys : List BvExpr) → head_size (xs ++ ys) ≡ w
  pub value : (env : Assignment) → folded op unit env xs ≡ meaning env e

module _ (w : ℕ) (op : ℕ → ℕ → ℕ) (unit : ℕ) (m : IsCommutative w op unit) where
  pub alone-IsFlat : (e : BvExpr) → WellSized e → size e ≡ w → IsFlat w op unit e (e ∷ [])
  alone-IsFlat e h k = record {
    all = (h, k, tt);
    head = λ ys. k;
    value = λ env. unit_right w op unit m (meaning env e) (of_width-lt env w e h k);
  }

  pub both_flat :
      (l r : BvExpr) {xs ys : List BvExpr}
      → IsFlat w op unit l xs
      → IsFlat w op unit r ys
      → (env : Assignment) → folded op unit env (xs ++ ys) ≡ op (meaning env l) (meaning env r)
  both_flat l r {xs} {ys} fl fr env =
      folded-append w op unit m env xs ys fr.all ∙ ap₂ op (fl.value env) (fr.value env)

  pub initial-IsSplit : {c : BvConst} → Represents w unit c → IsSplit w op unit (λ env. unit) c []
  initial-IsSplit start = record {
    held = unit;
    represents = start;
    sized = tt;
    value = λ env. m.unit_left unit m.unit_lt;
  }

  pub from_unit :
      (l r : BvExpr) {xs ys : List BvExpr}
      → IsFlat w op unit l xs
      → IsFlat w op unit r ys
      → (env : Assignment)
      → op unit (folded op unit env (xs ++ ys)) ≡ op (meaning env l) (meaning env r)
  from_unit l r {xs} {ys} fl fr env =
      m.unit_left (folded op unit env (xs ++ ys))
        (folded-lt w op unit m env (xs ++ ys) (AllOf-append w xs ys fl.all fr.all))
      ∙ both_flat l r fl fr env

  -- The loop over the children of both operands, from the neutral constant.
  pub operands_split :
      (f : BvConst → BvConst → Outcome BvConst)
      → Computes w op f
      → (l r : BvExpr) {xs ys : List BvExpr} {c : BvConst} → IsFlat w op unit l xs
      → IsFlat w op unit r ys
      → Represents w unit c
      → Splits w op unit m (propagate f (xs ++ ys) c []) (λ env. op (meaning env l) (meaning env r))
  operands_split f law l r {xs} {ys} {c} fl fr start = retotal w op unit m (from_unit l r fl fr) (
      propagate-Splits w op unit m f law (xs ++ ys) c [] (AllOf-append w xs ys fl.all fr.all)
        (initial-IsSplit start))

  module _ ⦃p : Platform⦄ where
    pub const_result :
        {total : Assignment → ℕ} {c : BvConst} {children : List BvExpr}
        (s : IsSplit w op unit total c children)
        → ((env : Assignment) → s.held ≡ total env)
        → Means w total (mk_const c)
    const_result {c = c} s h = change_meaning _ (mk_const-Means w s.held s.represents) h

    -- The constant goes back among the children unless it is neutral.
    pub finish-Means :
        (addr : BvExpr → ℕ) (node : BvList → BvExpr)
        → IsNode w op unit m node
        → {total : Assignment → ℕ} {c : BvConst} (children : List BvExpr)
          (s : IsSplit w op unit total c children)
        → Means w total (
            if is_empty children
            then mk_const c
            else combine addr node
                (if s.held == unit then children else children ++ mk_const c ∷ []))
    finish-Means addr node law {c = c} [] s =
        const_result s (λ env. sym (unit_right w op unit m s.held s.represents.fits) ∙ s.value env)
    finish-Means addr node law {c = c} (e ∷ els) s = elim (Bool-cases (s.held == unit)) [
      | inl neutral ↦
          let at_unit : s.held ≡ unit = ==→eq s.held unit neutral in
          rw neutral (
            change_meaning _ (combine-Means w op unit m addr node law e els s.sized) (λ env.
              sym (
                m.unit_left (folded op unit env (e ∷ els))
                  (folded-lt w op unit m env (e ∷ els) s.sized))
              ∙ ap (λ t. op t (folded op unit env (e ∷ els))) (sym at_unit)
              ∙ s.value env))
      | inr other ↦
          let (sized, width, value) = mk_const-Means w s.held s.represents in
          let last : AllOf w (mk_const c ∷ []) = (sized, width, tt) in
          rw other (
            change_meaning _
              (combine-Means w op unit m addr node law e (els ++ mk_const c ∷ [])
                (AllOf-append w (e ∷ els) (mk_const c ∷ []) s.sized last))
              (λ env.
                folded-append w op unit m env (e ∷ els) (mk_const c ∷ []) last
                ∙ ap (op (folded op unit env (e ∷ els))) (
                    unit_right w op unit m (meaning env (mk_const c))
                      (of_width-lt env w (mk_const c) sized width)
                    ∙ value env)
                ∙ m.comm (folded op unit env (e ∷ els)) s.held
                ∙ s.value env))
    ]
