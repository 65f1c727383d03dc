-- ===== src/Builder/Nodes.antt =====
-- The nodes `&`, `|` and `^` on several children: their meaning as a fold, and their flattening.
use naaz.Base.{ℕ, ◌-◌, ◌^◌, ◌≡◌, refl, sym, ◌∙◌, ap, subst}
use naaz.Base.{bit_and, bit_or, bit_xor, ◌∷◌}
use naaz.Base.Pow.{pow-pos}
use naaz.Expr.{BvExpr, BvList, size}
use naaz.Expr.Meaning.{Assignment, meaning, conjunction, disjunction, parity}
use naaz.Expr.Meaning.{WellSized, OfWidth}
use naaz.Expr.Bounds.{size-pos}
use naaz.Builder.Nary.{of_list, elements, flat_and, flat_or, flat_xor}
use naaz.Builder.Fold.{IsCommutative, folded, IsNode}
use naaz.Builder.Children.{AllOf-elements, OfWidth-of_list, elements-of_list, head_size-elements}
use naaz.Builder.Children.{IsFlat, alone-IsFlat}
use naaz.Base.Digits.{bit_xor_comm, bit_xor_assoc, zero-bit_xor}
use naaz.Base.Bits.{bit_xor-lt}
use naaz.Builder.Loops.{and_commutative, or_commutative}

pub xor_commutative : (w : ℕ) → IsCommutative w bit_xor 0
xor_commutative w = record {
  closed = λ a b h k. bit_xor-lt w a b h k;
  comm = bit_xor_comm;
  assoc = bit_xor_assoc;
  unit_left = λ a h. zero-bit_xor a;
  unit_lt = pow-pos w;
}

conjunction-folded :
    (env : Assignment) (w : ℕ) (els : BvList)
    → conjunction env w els ≡ folded bit_and (2 ^ w - 1) env (elements els)
unfolding elements conjunction
conjunction-folded env w BvList.nil = refl
conjunction-folded env w (BvList.cons e els) =
    ap (bit_and (meaning env e)) (conjunction-folded env w els)

pub and_IsNode : (w : ℕ) → IsNode w bit_and (2 ^ w - 1) (and_commutative w) BvExpr.and
unfolding meaning size WellSized of_list
and_IsNode w e els h =
    let inside : OfWidth w (of_list (e ∷ els)) = OfWidth-of_list w (e ∷ els) h in
    (
      (subst (λ n. OfWidth n (of_list (e ∷ els))) (sym h.1) inside, size-pos e h.0),
      h.1,
      λ env.
          ap (λ n. conjunction env n (of_list (e ∷ els))) h.1
          ∙ conjunction-folded env w (of_list (e ∷ els))
          ∙ ap (folded bit_and (2 ^ w - 1) env) (elements-of_list (e ∷ els)),
    )

pub flat_and-IsFlat :
    (w : ℕ) (e : BvExpr) → WellSized e → size e ≡ w → IsFlat w bit_and (2 ^ w - 1) e (flat_and e)
unfolding flat_and meaning size WellSized
flat_and-IsFlat w (BvExpr.and els) h k =
    let inside : OfWidth w els = subst (λ n. OfWidth n els) k h.0 in
    record {
      all = AllOf-elements w els inside;
      head = λ ys. head_size-elements w els ys inside h.1;
      value = λ env. sym (conjunction-folded env w els) ∙ ap (λ n. conjunction env n els) (sym k);
    }
flat_and-IsFlat w e h k = alone-IsFlat w bit_and (2 ^ w - 1) (and_commutative w) e h k

disjunction-folded :
    (env : Assignment) (els : BvList) → disjunction env els ≡ folded bit_or 0 env (elements els)
unfolding elements disjunction
disjunction-folded env BvList.nil = refl
disjunction-folded env (BvList.cons e els) =
    ap (bit_or (meaning env e)) (disjunction-folded env els)

pub or_IsNode : (w : ℕ) → IsNode w bit_or 0 (or_commutative w) BvExpr.or
unfolding meaning size WellSized of_list
or_IsNode w e els h =
    let inside : OfWidth w (of_list (e ∷ els)) = OfWidth-of_list w (e ∷ els) h in
    (
      (subst (λ n. OfWidth n (of_list (e ∷ els))) (sym h.1) inside, size-pos e h.0),
      h.1,
      λ env.
          disjunction-folded env (of_list (e ∷ els))
          ∙ ap (folded bit_or 0 env) (elements-of_list (e ∷ els)),
    )

pub flat_or-IsFlat :
    (w : ℕ) (e : BvExpr) → WellSized e → size e ≡ w → IsFlat w bit_or 0 e (flat_or e)
unfolding flat_or meaning size WellSized
flat_or-IsFlat w (BvExpr.or els) h k =
    let inside : OfWidth w els = subst (λ n. OfWidth n els) k h.0 in
    record {
      all = AllOf-elements w els inside;
      head = λ ys. head_size-elements w els ys inside h.1;
      value = λ env. sym (disjunction-folded env els);
    }
flat_or-IsFlat w e h k = alone-IsFlat w bit_or 0 (or_commutative w) e h k

parity-folded :
    (env : Assignment) (els : BvList) → parity env els ≡ folded bit_xor 0 env (elements els)
unfolding elements parity
parity-folded env BvList.nil = refl
parity-folded env (BvList.cons e els) = ap (bit_xor (meaning env e)) (parity-folded env els)

pub xor-IsNode : (w : ℕ) → IsNode w bit_xor 0 (xor_commutative w) BvExpr.xor
unfolding meaning size WellSized of_list
xor-IsNode w e els h =
    let inside : OfWidth w (of_list (e ∷ els)) = OfWidth-of_list w (e ∷ els) h in
    (
      (subst (λ n. OfWidth n (of_list (e ∷ els))) (sym h.1) inside, size-pos e h.0),
      h.1,
      λ env.
          parity-folded env (of_list (e ∷ els))
          ∙ ap (folded bit_xor 0 env) (elements-of_list (e ∷ els)),
    )

pub flat_xor-IsFlat :
    (w : ℕ) (e : BvExpr) → WellSized e → size e ≡ w → IsFlat w bit_xor 0 e (flat_xor e)
unfolding flat_xor meaning size WellSized
flat_xor-IsFlat w (BvExpr.xor els) h k =
    let inside : OfWidth w els = subst (λ n. OfWidth n els) k h.0 in
    record {
      all = AllOf-elements w els inside;
      head = λ ys. head_size-elements w els ys inside h.1;
      value = λ env. sym (parity-folded env els);
    }
flat_xor-IsFlat w e h k = alone-IsFlat w bit_xor 0 (xor_commutative w) e h k
