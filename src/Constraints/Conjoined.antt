-- ===== src/Constraints/Conjoined.antt =====
-- What the conjunctions that `pi()` and `pi(expr)` build hold of.
use mathlib.Core.List.{Memᴰ}
use mathlib.Core.List.Memᴰ
use naaz.Base.{ℕ, ◌≡◌, refl, sym, ◌∙◌, ap, inl, inr, ◌↔◌, Bool, true, false, ◌&&◌}
use naaz.Base.{List, [], ◌∷◌}
use naaz.Expr.{BoolExpr}
use naaz.Expr.Meaning.{Assignment, holds, all_hold}
use naaz.Builder.Relational.{of_bool_list, mk_bool_and}
use naaz.Builder.Junctions.{mk_bool_and_holds}
use naaz.Constraints.{ConstraintManager, mk_bool_and_no_simpl, conjoin, pi}

abbrev pub AllHold : Assignment → List BoolExpr → Type 0
AllHold env cs = (c : BoolExpr) → Memᴰ c cs → holds env c ≡ true

and_true : (a b : Bool) → ((a && b) ≡ true) ↔ ((a ≡ true) × (b ≡ true))
and_true true b = (λ h. (refl, h), λ h. h.1)
and_true false b = (λ h. absurd (cc), λ h. absurd (cc))

module _ (env : Assignment) where
  AllHold-cons :
      (e : BoolExpr) (cs : List BoolExpr)
      → AllHold env (e ∷ cs) ↔ ((holds env e ≡ true) × AllHold env cs)
  AllHold-cons e cs = (
    λ h. (h e (Memᴰ.head refl), λ c m. h c (Memᴰ.tail m)),
    λ h c m. elim (Memᴰ.cases_cons m) [ inl same ↦ ap (holds env) same ∙ h.0 | inr k ↦ h.1 c k ],
  )

  all_hold-AllHold : (cs : List BoolExpr) → (all_hold env (of_bool_list cs) ≡ true) ↔ AllHold env cs
  unfolding all_hold of_bool_list
  all_hold-AllHold [] = (λ h c m. absurd (Memᴰ.not-nil m), λ h. refl)
  all_hold-AllHold (e ∷ cs) =
      let (split, join) = and_true (holds env e) (all_hold env (of_bool_list cs)) in
      let (forth, back) = all_hold-AllHold cs in
      let (to, of) = AllHold-cons e cs in
      (λ h. of ((split h).0, forth (split h).1), λ h. join ((to h).0, back (to h).1))

  module _ (addr : BoolExpr → ℕ) where
    pub no_simpl-AllHold :
        (cs : List BoolExpr) → (holds env (mk_bool_and_no_simpl addr cs) ≡ true) ↔ AllHold env cs
    unfolding mk_bool_and_no_simpl holds
    no_simpl-AllHold [] = (λ h c m. absurd (Memᴰ.not-nil m), λ h. refl)
    no_simpl-AllHold (e ∷ []) =
        (λ h c m. ap (holds env) (Memᴰ.eq_of_singleton m) ∙ h, λ h. h e (Memᴰ.head refl))
    no_simpl-AllHold (e ∷ x ∷ xs) = all_hold-AllHold (e ∷ x ∷ xs)

    conjoin-AllHold :
        (e : BoolExpr) (cs : List BoolExpr)
        → (holds env (conjoin addr e cs) ≡ true) ↔ AllHold env (e ∷ cs)
    unfolding conjoin
    conjoin-AllHold e [] =
        (λ h c m. ap (holds env) (Memᴰ.eq_of_singleton m) ∙ h, λ h. h e (Memᴰ.head refl))
    conjoin-AllHold e (c ∷ cs) =
        let (forth, back) = conjoin-AllHold (mk_bool_and addr e c) cs in
        let (to, of) = AllHold-cons (mk_bool_and addr e c) cs in
        let both = mk_bool_and_holds addr e c env in
        let (split, join) = and_true (holds env e) (holds env c) in
        (
          λ h.
              let (first, rest) = to (forth h) in
              let (one, two) = split (sym both ∙ first) in
              (AllHold-cons e (c ∷ cs)).1 (one, (AllHold-cons c cs).1 (two, rest)),
          λ h.
              let (one, more) = (AllHold-cons e (c ∷ cs)).0 h in
              let (two, rest) = (AllHold-cons c cs).0 more in
              back (of (both ∙ join (one, two), rest)),
        )

    -- `pi()` holds under an assignment exactly where every constraint does, also without
    -- constraints.
    pub pi-AllHold :
        (cm : ConstraintManager) → (holds env (pi addr cm) ≡ true) ↔ AllHold env cm.constraints
    unfolding pi holds
    pi-AllHold cm = go cm.constraints refl
      where
        go :
            (cs : List BoolExpr)
            → cm.constraints ≡ cs
            → (holds env (pi addr cm) ≡ true) ↔ AllHold env cm.constraints
        go [] e = rw (pi, e) (λ h c m. absurd (Memᴰ.not-nil m), λ h. refl)
        go (c ∷ cs) e = rw (pi, e) (conjoin-AllHold c cs)
