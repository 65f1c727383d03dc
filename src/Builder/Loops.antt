-- ===== src/Builder/Loops.antt =====
-- The loops of `mk_and` and `mk_or`, which may return early.
use naaz.Base.{ℕ, ◌-◌, ◌%◌, ◌^◌, ◌<◌, ◌≡◌, refl, sym, ◌∙◌, ap, arith}
use naaz.Base.{bit_and, bit_or, inl, inr, List, [], ◌∷◌, ◌++◌}
use naaz.Base.{◌==◌, Bool-cases}
use naaz.Base.{==→eq}
use naaz.Base.{negsuc, Outcome, ok}
use naaz.Base.Pow.{pow-pos}
use native.Mathlib.Nat.{zero-mod}
use naaz.BvConst.{BvConst}
use naaz.BvConst.Bitwise.{band_refines, bor_refines}
use naaz.BvConst.Order.{is_zero_refines, has_all_bit_set_refines, of_number_refines}
use naaz.BvConst.Represents.{Represents}
use naaz.Expr.{BvExpr}
use naaz.Expr.Meaning.{Assignment, meaning}
use naaz.Expr.Meaning.{const_value}
use naaz.Platform.{Platform}
use naaz.Builder.{mk_const}
use naaz.Builder.Nary.{Loop, and_loop, or_loop}
use naaz.Builder.Fold.{IsCommutative, AllOf, folded, Means, mk_const-Means}
use naaz.Builder.Fold.{folded-lt}
use naaz.Builder.Children.{change_meaning}
use naaz.Builder.Propagation.{IsSplit, const-Represents, absorb, keep, all_seen, total-lt}
use naaz.Base.Digits.{
  bit_and_comm, bit_and_assoc, bit_or_assoc, ones-bit_and, zero-bit_or, zero-bit_and, ones-bit_or,
}
use naaz.Base.Bits.{bit_or_comm, bit_and-lt, bit_or-lt}

-- The end of such a loop: an expression that is the whole result, or a split.
abbrev pub LoopMeans : ℕ → (ℕ → ℕ → ℕ) → ℕ → (Assignment → ℕ) → Loop → Type 0
LoopMeans w op unit total (Loop.early e) = Means w total e
LoopMeans w op unit total (Loop.finished c children) = IsSplit w op unit total c children

abbrev pub Ends : ℕ → (ℕ → ℕ → ℕ) → ℕ → (Assignment → ℕ) → Outcome Loop → Type 0
Ends w op unit total r = (l : Loop) × (r ≡ ok l) × LoopMeans w op unit total l

pub reassociate :
    (w : ℕ) (op : ℕ → ℕ → ℕ) (unit : ℕ) (m : IsCommutative w op unit)
    {total total' : Assignment → ℕ} {r : Outcome Loop}
    → ((env : Assignment) → total env ≡ total' env)
    → Ends w op unit total r
    → Ends w op unit total' r
reassociate w op unit m e (Loop.early x, returned, means) =
    (Loop.early x, returned, change_meaning x means e)
reassociate w op unit m e (Loop.finished c children, returned, i) = (
  Loop.finished c children,
  returned,
  record {
    held = i.held;
    represents = i.represents;
    sized = i.sized;
    value = λ env. i.value env ∙ e env;
  },
)

module _ (w : ℕ) (op : ℕ → ℕ → ℕ) (unit : ℕ) (m : IsCommutative w op unit) (z : ℕ)
    (z_left : (a : ℕ) → a < 2 ^ w → op z a ≡ z) where
  -- A child that is the absorbing value decides the result.
  absorbed :
      {total : Assignment → ℕ} {c : BvConst} {children : List BvExpr} (els : List BvExpr)
      → IsSplit w op unit total c children
      → AllOf w els
      → (env : Assignment) → z ≡ op (total env) (op z (folded op unit env els))
  absorbed {total} els s h env =
      sym (z_left (total env) (total-lt w op unit m s env))
      ∙ m.comm z (total env)
      ∙ ap (op (total env))
          (sym (z_left (folded op unit env els) (folded-lt w op unit m env els h)))

pub and_commutative : (w : ℕ) → IsCommutative w bit_and (2 ^ w - 1)
and_commutative w = record {
  closed = λ a b h k. bit_and-lt w a b h;
  comm = bit_and_comm;
  assoc = bit_and_assoc;
  unit_left = λ a h. ones-bit_and w a h;
  unit_lt = omega (arith, pow-pos w);
}

pub or_commutative : (w : ℕ) → IsCommutative w bit_or 0
or_commutative w = record {
  closed = λ a b h k. bit_or-lt w a b h k;
  comm = bit_or_comm;
  assoc = bit_or_assoc;
  unit_left = λ a h. zero-bit_or a;
  unit_lt = pow-pos w;
}

module _ ⦃p : Platform⦄ (w : ℕ) where
  pub and_loop-Ends :
      (els : List BvExpr) (c : BvConst) (children : List BvExpr) {total : Assignment → ℕ}
      → AllOf w els
      → IsSplit w bit_and (2 ^ w - 1) total c children
      → Ends w bit_and
          (2 ^ w - 1)
          (λ env. bit_and (total env) (folded bit_and (2 ^ w - 1) env els))
          (and_loop els c children)
  unfolding and_loop meaning
  and_loop-Ends [] c children h s =
      (Loop.finished c children, refl, all_seen w bit_and (2 ^ w - 1) (and_commutative w) s)
  and_loop-Ends (BvExpr.const d ∷ els) c children {total} h s =
      let rd : Represents w (const_value d) d = const-Represents w d h.0 h.1 in
      elim (Bool-cases (const_value d == 0)) [
        | inl zeroes ↦
            let v : const_value d ≡ 0 = ==→eq (const_value d) 0 zeroes in
            rw (is_zero_refines w (const_value d) rd, zeroes)
              (
                Loop.early (BvExpr.const d),
                refl,
                (
                  h.0,
                  h.1,
                  λ env.
                      v
                      ∙ absorbed w bit_and (2 ^ w - 1) (and_commutative w) 0 (λ a k. zero-bit_and a)
                          els s h.2 env
                      ∙ ap
                          (λ t.
                            bit_and (total env) (bit_and t (folded bit_and (2 ^ w - 1) env els)))
                          (sym v),
                ),
              )
        | inr other ↦
            let (next, made, rn) = band_refines w s.held (const_value d) s.represents rd in
            rw (is_zero_refines w (const_value d) rd, other, made)
              (reassociate w bit_and (2 ^ w - 1) (and_commutative w)
                (λ env.
                  bit_and_assoc (total env) (const_value d) (folded bit_and (2 ^ w - 1) env els))
                (and_loop-Ends els next children h.2
                  (absorb w bit_and (2 ^ w - 1) (and_commutative w) s (const_value d) rn)))
      ]
  and_loop-Ends (e ∷ els) c children {total} h s =
      reassociate w bit_and (2 ^ w - 1) (and_commutative w)
        (λ env. bit_and_assoc (total env) (meaning env e) (folded bit_and (2 ^ w - 1) env els))
        (and_loop-Ends els c (children ++ e ∷ []) h.2
          (keep w bit_and (2 ^ w - 1) (and_commutative w) s e h.0 h.1))

  pub or_loop-Ends :
      0 < w
      → (els : List BvExpr) (c : BvConst) (children : List BvExpr) {total : Assignment → ℕ}
      → AllOf w els
      → IsSplit w bit_or 0 total c children
      → Ends w bit_or 0
          (λ env. bit_or (total env) (folded bit_or 0 env els))
          (or_loop w els c children)
  unfolding or_loop meaning
  or_loop-Ends positive [] c children h s =
      (Loop.finished c children, refl, all_seen w bit_or 0 (or_commutative w) s)
  or_loop-Ends positive (BvExpr.const d ∷ els) c children {total} h s =
      let rd : Represents w (const_value d) d = const-Represents w d h.0 h.1 in
      elim (Bool-cases (const_value d == 2 ^ w - 1)) [
        | inl ones ↦
            let v : const_value d ≡ 2 ^ w - 1 = ==→eq (const_value d) (2 ^ w - 1) ones in
            let (full, made, rf) = of_number_refines w positive (negsuc 0) (omega arith) in
            let (sized, width, value) = mk_const-Means w (2 ^ w - 1 - 0 % 2 ^ w) rf in
            rw (has_all_bit_set_refines w (const_value d) rd, ones, made)
              (
                Loop.early (mk_const full),
                refl,
                (
                  sized,
                  width,
                  λ env.
                      value env
                      ∙ omega (arith, zero-mod (2 ^ w))
                      ∙ absorbed w bit_or 0 (or_commutative w) (2 ^ w - 1) (ones-bit_or w) els s h.2
                          env
                      ∙ ap (λ t. bit_or (total env) (bit_or t (folded bit_or 0 env els))) (sym v),
                ),
              )
        | inr other ↦
            let (next, made, rn) = bor_refines w s.held (const_value d) s.represents rd in
            rw (has_all_bit_set_refines w (const_value d) rd, other, made)
              (reassociate w bit_or 0 (or_commutative w)
                (λ env. bit_or_assoc (total env) (const_value d) (folded bit_or 0 env els))
                (or_loop-Ends positive els next children h.2
                  (absorb w bit_or 0 (or_commutative w) s (const_value d) rn)))
      ]
  or_loop-Ends positive (e ∷ els) c children {total} h s =
      reassociate w bit_or 0 (or_commutative w)
        (λ env. bit_or_assoc (total env) (meaning env e) (folded bit_or 0 env els))
        (or_loop-Ends positive els c (children ++ e ∷ []) h.2
          (keep w bit_or 0 (or_commutative w) s e h.0 h.1))
