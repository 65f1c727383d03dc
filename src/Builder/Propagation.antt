-- ===== src/Builder/Propagation.antt =====
-- The constant propagation of `mk_mul` and `mk_xor` of expr/ExprBuilder.cpp.
use naaz.Base.{ℕ, ◌^◌, ◌<◌, ◌≡◌, refl, sym, ◌∙◌, ap, subst}
use naaz.Base.{List, [], ◌∷◌, ◌++◌}
use naaz.Base.{Outcome, ok}
use naaz.BvConst.{BvConst}
use naaz.BvConst.Represents.{Represents, Yields}
use naaz.Expr.{BvExpr, size}
use naaz.Expr.Meaning.{Assignment, meaning}
use naaz.Expr.Meaning.{const_value, WellSized}
use naaz.Builder.Nary.{propagate}
use naaz.Builder.Fold.{IsCommutative, AllOf, folded, AllOf-append}
use naaz.Builder.Fold.{folded-append, folded-lt, unit_right, of_width-lt}

-- The state of the loop: the constant holds `held`, and with the children it has the value of
-- everything that was seen.
pub record IsSplit (w : ℕ) (op : ℕ → ℕ → ℕ) (unit : ℕ) (total : Assignment → ℕ) (c : BvConst)
    (children : List BvExpr) : Type 0 where
  pub held : ℕ
  pub represents : Represents w held c
  pub sized : AllOf w children
  pub value : (env : Assignment) → op held (folded op unit env children) ≡ total env

pub const-Represents :
    (w : ℕ) (d : BvConst)
    → WellSized (BvExpr.const d)
    → size (BvExpr.const d) ≡ w
    → Represents w (const_value d) d
unfolding WellSized size
const-Represents w d h e = subst (λ n. Represents n (const_value d) d) e h

-- `op` computes on constants what `f` says.
abbrev pub Computes : ℕ → (ℕ → ℕ → ℕ) → (BvConst → BvConst → Outcome BvConst) → Type 0
Computes w op f =
    (a b : ℕ) (x y : BvConst) → Represents w a x → Represents w b y → Yields (f x y) w (op a b)

module _ (w : ℕ) (op : ℕ → ℕ → ℕ) (unit : ℕ) (m : IsCommutative w op unit) where
  -- One constant child moves into the constant.
  pub absorb :
      {total : Assignment → ℕ} {c next : BvConst} {children : List BvExpr}
      (s : IsSplit w op unit total c children) (b : ℕ)
      → Represents w (op s.held b) next
      → IsSplit w op unit (λ env. op (total env) b) next children
  absorb {children = children} s b r = record {
    held = op s.held b;
    represents = r;
    sized = s.sized;
    value = λ env.
        m.assoc s.held b (folded op unit env children)
        ∙ ap (op s.held) (m.comm b (folded op unit env children))
        ∙ sym (m.assoc s.held (folded op unit env children) b)
        ∙ ap (λ t. op t b) (s.value env);
  }

  -- Any other child is kept.
  pub keep :
      {total : Assignment → ℕ} {c : BvConst} {children : List BvExpr}
      (s : IsSplit w op unit total c children) (e : BvExpr)
      → WellSized e
      → size e ≡ w
      → IsSplit w op unit (λ env. op (total env) (meaning env e)) c (children ++ e ∷ [])
  keep {children = children} s e h k = record {
    held = s.held;
    represents = s.represents;
    sized = AllOf-append w children (e ∷ []) s.sized (h, k, tt);
    value = λ env.
        ap (op s.held) (
          folded-append w op unit m env children (e ∷ []) (h, k, tt)
          ∙ ap (op (folded op unit env children))
              (unit_right w op unit m (meaning env e) (of_width-lt env w e h k)))
        ∙ sym (m.assoc s.held (folded op unit env children) (meaning env e))
        ∙ ap (λ t. op t (meaning env e)) (s.value env);
  }

  abbrev pub Splits : Outcome (BvConst × List BvExpr) → (Assignment → ℕ) → Type 0
  Splits r total = (s : BvConst × List BvExpr) × (r ≡ ok s) × IsSplit w op unit total s.0 s.1

  pub retotal :
      {total total' : Assignment → ℕ} {r : Outcome (BvConst × List BvExpr)}
      → ((env : Assignment) → total env ≡ total' env)
      → Splits r total
      → Splits r total'
  retotal e (s, returned, i) = (
    s,
    returned,
    record {
      held = i.held;
      represents = i.represents;
      sized = i.sized;
      value = λ env. i.value env ∙ e env;
    },
  )

  pub total-lt :
      {total : Assignment → ℕ} {c : BvConst} {children : List BvExpr}
      → IsSplit w op unit total c children
      → (env : Assignment) → total env < 2 ^ w
  total-lt {children = children} s env =
      subst (λ v. v < 2 ^ w) (s.value env)
        (m.closed s.held (folded op unit env children) s.represents.fits
          (folded-lt w op unit m env children s.sized))

  pub all_seen :
      {total : Assignment → ℕ} {c : BvConst} {children : List BvExpr}
      → IsSplit w op unit total c children
      → IsSplit w op unit (λ env. op (total env) unit) c children
  all_seen {total} s = record {
    held = s.held;
    represents = s.represents;
    sized = s.sized;
    value = λ env. s.value env ∙ sym (unit_right w op unit m (total env) (total-lt s env));
  }

  -- The loop keeps the split, and it has seen every child.
  pub propagate-Splits :
      (f : BvConst → BvConst → Outcome BvConst)
      → Computes w op f
      → (els : List BvExpr) (c : BvConst) (children : List BvExpr) {total : Assignment → ℕ}
      → AllOf w els
      → IsSplit w op unit total c children
      → Splits (propagate f els c children) (λ env. op (total env) (folded op unit env els))
  unfolding propagate meaning
  propagate-Splits f law [] c children h s = ((c, children), refl, all_seen s)
  propagate-Splits f law (BvExpr.const d ∷ els) c children {total} h s =
      let (next, made, r) =
        law s.held (const_value d) c d s.represents (const-Represents w d h.0 h.1) in
      rw made (
        retotal (λ env. m.assoc (total env) (const_value d) (folded op unit env els))
          (propagate-Splits f law els next children h.2 (absorb s (const_value d) r)))
  propagate-Splits f law (e ∷ els) c children {total} h s =
      retotal (λ env. m.assoc (total env) (meaning env e) (folded op unit env els))
        (propagate-Splits f law els c (children ++ e ∷ []) h.2 (keep s e h.0 h.1))
