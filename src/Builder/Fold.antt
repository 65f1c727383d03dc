-- ===== src/Builder/Fold.antt =====
-- What the operations on several children of expr/ExprBuilder.cpp share: the value of a vector of
-- children under an associative and commutative operation, and the final node.
use naaz.Base.{ℕ, ◌^◌, ◌<◌, ◌≡◌, refl, sym, ◌∙◌, ap, subst}
use naaz.Base.{inl, inr, List, [], ◌∷◌, ◌++◌}
use naaz.Base.{ltb, Bool-cases}
use naaz.Base.{le→leb, gt→leb}
use naaz.Base.{Outcome, ok}
use naaz.BvConst.{BvConst}
use naaz.BvConst.Represents.{Represents}
use naaz.Expr.{BvExpr, BvList, size}
use naaz.Expr.Meaning.{Assignment, meaning}
use naaz.Expr.Meaning.{const_value, IsConst, WellSized}
use naaz.Platform.{Platform}
use naaz.BvConst.{copy}
use naaz.Expr.Bounds.{meaning-lt}
use naaz.Builder.{mk_const}
use naaz.Builder.Nary.{of_list, place, sort, combine}

-- An operation on the vectors of width w.
pub record IsCommutative (w : ℕ) (op : ℕ → ℕ → ℕ) (unit : ℕ) : Type 0 where
  pub closed : (a b : ℕ) → a < 2 ^ w → b < 2 ^ w → op a b < 2 ^ w
  pub comm : (a b : ℕ) → op a b ≡ op b a
  pub assoc : (a b c : ℕ) → op (op a b) c ≡ op a (op b c)
  pub unit_left : (a : ℕ) → a < 2 ^ w → op unit a ≡ a
  pub unit_lt : unit < 2 ^ w

-- Well-sized children of width w.
abbrev pub AllOf : ℕ → List BvExpr → Type 0
AllOf w [] = Unit
AllOf w (e ∷ els) = WellSized e × (size e ≡ w) × AllOf w els

abbrev pub folded : (ℕ → ℕ → ℕ) → ℕ → Assignment → List BvExpr → ℕ
folded op unit env [] = unit
folded op unit env (e ∷ els) = op (meaning env e) (folded op unit env els)

-- A result that is well-sized, has width w and means what `f` says.
abbrev pub Means : ℕ → (Assignment → ℕ) → BvExpr → Type 0
Means w f e = WellSized e × (size e ≡ w) × ((env : Assignment) → meaning env e ≡ f env)

abbrev pub Builds : Outcome BvExpr → ℕ → (Assignment → ℕ) → Type 0
Builds r w f = (e : BvExpr) × (r ≡ ok e) × Means w f e

pub AllOf-append : (w : ℕ) (xs ys : List BvExpr) → AllOf w xs → AllOf w ys → AllOf w (xs ++ ys)
AllOf-append w [] ys h k = k
AllOf-append w (x ∷ xs) ys h k = (h.0, h.1, AllOf-append w xs ys h.2 k)

pub of_width-lt :
    (env : Assignment) (w : ℕ) (e : BvExpr) → WellSized e → size e ≡ w → meaning env e < 2 ^ w
of_width-lt env w e h s = subst (λ n. meaning env e < 2 ^ n) s (meaning-lt env e h)

module _ (addr : BvExpr → ℕ) where
  pub AllOf-place :
      (w : ℕ) (e : BvExpr) (xs : List BvExpr)
      → WellSized e
      → size e ≡ w
      → AllOf w xs
      → AllOf w (place addr e xs)
  unfolding place
  AllOf-place w e [] h s k = (h, s, tt)
  AllOf-place w e (x ∷ xs) h s k = elim (Bool-cases (ltb (addr e) (addr x))) [
    | inl first ↦ rw first (h, s, k)
    | inr later ↦ rw later (k.0, k.1, AllOf-place w e xs h s k.2)
  ]

  pub AllOf-sort : (w : ℕ) (xs : List BvExpr) → AllOf w xs → AllOf w (sort addr xs)
  unfolding sort
  AllOf-sort w [] h = tt
  AllOf-sort w (x ∷ xs) h = AllOf-place w x (sort addr xs) h.0 h.1 (AllOf-sort w xs h.2)

  place-cons :
      (e : BvExpr) (xs : List BvExpr) → (h : BvExpr) × (t : List BvExpr) × (place addr e xs ≡ h ∷ t)
  unfolding place
  place-cons e [] = (e, [], refl)
  place-cons e (x ∷ xs) = elim (Bool-cases (ltb (addr e) (addr x))) [
    | inl first ↦ (e, x ∷ xs, rw first)
    | inr later ↦ (x, place addr e xs, rw later)
  ]

-- The value of a constant that represents v.
module _ ⦃p : Platform⦄ where
  pub copy-Represents : (w v : ℕ) {c : BvConst} → Represents w v c → Represents w v (copy c)
  unfolding copy
  copy-Represents w v {c} r = elim r.holds [
    | inl (narrow, e) ↦
        rw (le→leb c.size 64 (rw r.width narrow)) (record {
          width = r.width;
          positive = r.positive;
          fits = r.fits;
          holds = inl (narrow, e);
        })
    | inr (wide, e) ↦
        rw (gt→leb c.size 64 (rw r.width wide))
          (record { width = r.width; positive = r.positive; fits = r.fits; holds = inr (wide, e) })
  ]

pub const_value_of : {w v : ℕ} {c : BvConst} → Represents w v c → const_value c ≡ v
const_value_of {c} r = elim r.holds [
  | inl (narrow, e) ↦ rw (le→leb c.size 64 (rw r.width narrow)) e
  | inr (wide, e) ↦ rw (gt→leb c.size 64 (rw r.width wide), e)
]

pub IsConst-of : {w v : ℕ} {c : BvConst} → Represents w v c → IsConst c
IsConst-of {v = v} {c = c} r =
    subst (λ u. Represents c.size u c) (sym (const_value_of r))
      (subst (λ n. Represents n v c) (sym r.width) r)

pub mk_const-Means :
    ⦃p : Platform⦄ (w v : ℕ) {c : BvConst} → Represents w v c → Means w (λ env. v) (mk_const c)
unfolding mk_const size meaning WellSized
mk_const-Means w v r =
    let r' = copy-Represents w v r in (IsConst-of r', r'.width, λ env. const_value_of r')

module _ (w : ℕ) (op : ℕ → ℕ → ℕ) (unit : ℕ) (m : IsCommutative w op unit) where
  pub folded-lt : (env : Assignment) (xs : List BvExpr) → AllOf w xs → folded op unit env xs < 2 ^ w
  folded-lt env [] h = m.unit_lt
  folded-lt env (x ∷ xs) h =
      m.closed (meaning env x) (folded op unit env xs) (of_width-lt env w x h.0 h.1)
        (folded-lt env xs h.2)

  pub unit_right : (a : ℕ) → a < 2 ^ w → op a unit ≡ a
  unit_right a h = m.comm a unit ∙ m.unit_left a h

  pub folded-append :
      (env : Assignment) (xs ys : List BvExpr)
      → AllOf w ys
      → folded op unit env (xs ++ ys) ≡ op (folded op unit env xs) (folded op unit env ys)
  folded-append env [] ys h = sym (m.unit_left (folded op unit env ys) (folded-lt env ys h))
  folded-append env (x ∷ xs) ys h =
      ap (op (meaning env x)) (folded-append env xs ys h)
      ∙ sym (m.assoc (meaning env x) (folded op unit env xs) (folded op unit env ys))

  pub swap_front : (a b c : ℕ) → op a (op b c) ≡ op b (op a c)
  swap_front a b c = sym (m.assoc a b c) ∙ ap (λ t. op t c) (m.comm a b) ∙ m.assoc b a c

  pub folded-place :
      (addr : BvExpr → ℕ) (env : Assignment) (e : BvExpr) (xs : List BvExpr)
      → folded op unit env (place addr e xs) ≡ op (meaning env e) (folded op unit env xs)
  unfolding place
  folded-place addr env e [] = refl
  folded-place addr env e (x ∷ xs) = elim (Bool-cases (ltb (addr e) (addr x))) [
    | inl first ↦ rw first
    | inr later ↦ rw later (
        ap (op (meaning env x)) (folded-place addr env e xs)
        ∙ swap_front (meaning env x) (meaning env e) (folded op unit env xs))
  ]

  pub folded-sort :
      (addr : BvExpr → ℕ) (env : Assignment) (xs : List BvExpr)
      → folded op unit env (sort addr xs) ≡ folded op unit env xs
  unfolding sort
  folded-sort addr env [] = refl
  folded-sort addr env (x ∷ xs) =
      folded-place addr env x (sort addr xs) ∙ ap (op (meaning env x)) (folded-sort addr env xs)

  -- A node whose meaning is the value of its children.
  abbrev pub IsNode : (BvList → BvExpr) → Type 0
  IsNode node =
      (e : BvExpr) (els : List BvExpr)
      → AllOf w (e ∷ els)
      → Means w (λ env. folded op unit env (e ∷ els)) (node (of_list (e ∷ els)))

  -- `combine` keeps the value.
  pub combine-Means :
      (addr : BvExpr → ℕ) (node : BvList → BvExpr)
      → IsNode node
      → (e : BvExpr) (els : List BvExpr) → AllOf w (e ∷ els)
      → Means w (λ env. folded op unit env (e ∷ els)) (combine addr node (e ∷ els))
  unfolding combine sort
  combine-Means addr node law e [] h =
      (h.0, h.1, λ env. sym (unit_right (meaning env e) (of_width-lt env w e h.0 h.1)))
  combine-Means addr node law e (x ∷ xs) h =
      let els : List BvExpr = e ∷ x ∷ xs in
      let (first, rest, sorted) = place-cons addr e (sort addr (x ∷ xs)) in
      let all : AllOf w (first ∷ rest) =
        subst (AllOf w) sorted
          (AllOf-place addr w e (sort addr (x ∷ xs)) h.0 h.1 (AllOf-sort addr w (x ∷ xs) h.2)) in
      let (sized, width, same_value) = law first rest all in
      subst (λ l. Means w (λ env. folded op unit env els) (node (of_list l))) (sym sorted)
        (
          sized,
          width,
          λ env. same_value env ∙ ap (folded op unit env) (sym sorted) ∙ folded-sort addr env els,
        )
