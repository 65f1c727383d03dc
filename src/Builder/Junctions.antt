-- ===== src/Builder/Junctions.antt =====
-- `mk_bool_and` and `mk_bool_or` of expr/ExprBuilder.cpp.
use naaz.Base.{ℕ, ◌≡◌, refl, sym, ◌∙◌, ap, ap₂, inl, inr, List, [], ◌∷◌, ◌++◌}
use naaz.Base.{Bool, true, false, not, ◌&&◌, ◌||◌, ltb, if◌then◌else◌, Bool-cases}
use mathlib.Core.Option
use mathlib.Core.Option.{Option, none, some}
use naaz.Expr.{BoolExpr, BoolList, same_bool, same_bool→eq}
use naaz.Expr.Meaning.{Assignment, holds, all_hold, some_holds}
use naaz.Builder.Relational.{
  equal_bool, bool_elements, of_bool_list, flat_bool_and, flat_bool_or, drop_consts,
}
use naaz.Builder.Relational.{
  insert, insert_all, bool_place, bool_sort, bool_combine, decide_bool, mk_bool_and, mk_bool_or,
}

-- Conjunction and disjunction, with their neutral values.
record IsJunction (op : Bool → Bool → Bool) (unit : Bool) : Type 0 where
  unit_left : (a : Bool) → op unit a ≡ a
  comm : (a b : Bool) → op a b ≡ op b a
  assoc : (a b c : Bool) → op (op a b) c ≡ op a (op b c)
  idempotent : (a b : Bool) → op a (op a b) ≡ op a b
  decides : (a b : Bool) → op a b ≡ (if equal_bool a (not unit) then not unit else b)
  absorbs : (a : Bool) → op a (not unit) ≡ not unit

and_comm : (a b : Bool) → (a && b) ≡ (b && a)
and_comm true true = refl
and_comm true false = refl
and_comm false true = refl
and_comm false false = refl

and_assoc : (a b c : Bool) → ((a && b) && c) ≡ (a && (b && c))
and_assoc true b c = refl
and_assoc false b c = refl

and_idempotent : (a b : Bool) → (a && (a && b)) ≡ (a && b)
and_idempotent true b = refl
and_idempotent false b = refl

and_decides : (a b : Bool) → (a && b) ≡ (if equal_bool a false then false else b)
and_decides true b = refl
and_decides false b = refl

and_absorbs : (a : Bool) → (a && false) ≡ false
and_absorbs true = refl
and_absorbs false = refl

conjunctive : IsJunction (λ a b. a && b) true
conjunctive = record {
  unit_left = λ a. refl;
  comm = and_comm;
  assoc = and_assoc;
  idempotent = and_idempotent;
  decides = and_decides;
  absorbs = and_absorbs;
}

or_comm : (a b : Bool) → (a || b) ≡ (b || a)
or_comm true true = refl
or_comm true false = refl
or_comm false true = refl
or_comm false false = refl

or_assoc : (a b c : Bool) → ((a || b) || c) ≡ (a || (b || c))
or_assoc true b c = refl
or_assoc false b c = refl

or_idempotent : (a b : Bool) → (a || (a || b)) ≡ (a || b)
or_idempotent true b = refl
or_idempotent false b = refl

or_decides : (a b : Bool) → (a || b) ≡ (if equal_bool a true then true else b)
or_decides true b = refl
or_decides false b = refl

or_absorbs : (a : Bool) → (a || true) ≡ true
or_absorbs true = refl
or_absorbs false = refl

disjunctive : IsJunction (λ a b. a || b) false
disjunctive = record {
  unit_left = λ a. refl;
  comm = or_comm;
  assoc = or_assoc;
  idempotent = or_idempotent;
  decides = or_decides;
  absorbs = or_absorbs;
}

module _ (op : Bool → Bool → Bool) (unit : Bool) (j : IsJunction op unit) (env : Assignment) where
  abbrev joint : List BoolExpr → Bool
  joint [] = unit
  joint (e ∷ els) = op (holds env e) (joint els)

  abbrev decided : Option (List BoolExpr) → Bool
  decided none = not unit
  decided (some els) = joint els

  swap : (a b c : Bool) → op a (op b c) ≡ op b (op a c)
  swap a b c = sym (j.assoc a b c) ∙ ap (λ t. op t c) (j.comm a b) ∙ j.assoc b a c

  joint-append : (xs ys : List BoolExpr) → joint (xs ++ ys) ≡ op (joint xs) (joint ys)
  joint-append [] ys = sym (j.unit_left (joint ys))
  joint-append (x ∷ xs) ys =
      ap (op (holds env x)) (joint-append xs ys) ∙ sym (j.assoc (holds env x) (joint xs) (joint ys))

  joint-drop_consts : (xs : List BoolExpr) → decided (drop_consts (not unit) xs) ≡ joint xs
  unfolding drop_consts holds
  joint-drop_consts [] = refl
  joint-drop_consts (BoolExpr.bool_const b ∷ els) = elim (Bool-cases (equal_bool b (not unit))) [
    | inl stops ↦ rw stops (sym (j.decides b (joint els) ∙ rw stops refl))
    | inr neutral ↦
        rw neutral (joint-drop_consts els ∙ sym (j.decides b (joint els) ∙ rw neutral refl))
  ]
  joint-drop_consts (e ∷ els) =
      kept (drop_consts (not unit) els) ∙ ap (op (holds env e)) (joint-drop_consts els)
    where
      kept :
          (rest : Option (List BoolExpr))
          → decided (Option.map (λ rest. e ∷ rest) rest) ≡ op (holds env e) (decided rest)
      kept none = sym (j.absorbs (holds env e))
      kept (some rest) = refl

  module _ (addr : BoolExpr → ℕ) where
    joint-insert :
        (e : BoolExpr) (xs : List BoolExpr) → joint (insert addr e xs) ≡ op (holds env e) (joint xs)
    unfolding insert
    joint-insert e [] = refl
    joint-insert e (x ∷ xs) = elim (Bool-cases (same_bool x e)) [
      | inl found ↦ rw found (
          sym (j.idempotent (holds env x) (joint xs))
          ∙ ap (λ y. op (holds env y) (op (holds env x) (joint xs))) (same_bool→eq x e found))
      | inr other ↦ elim (Bool-cases (ltb (addr e) (addr x))) [
        | inl first ↦ rw (other, first) refl
        | inr later ↦
            rw (other, later)
              (ap (op (holds env x)) (joint-insert e xs)
                ∙ swap (holds env x) (holds env e) (joint xs))
      ]
    ]

    joint-insert_all :
        (els xs : List BoolExpr) → joint (insert_all addr els xs) ≡ op (joint els) (joint xs)
    unfolding insert_all
    joint-insert_all [] xs = sym (j.unit_left (joint xs))
    joint-insert_all (e ∷ els) xs =
        joint-insert_all els (insert addr e xs)
        ∙ ap (op (joint els)) (joint-insert e xs)
        ∙ swap (joint els) (holds env e) (joint xs)
        ∙ sym (j.assoc (holds env e) (joint els) (joint xs))

    joint-bool_place :
        (e : BoolExpr) (xs : List BoolExpr)
        → joint (bool_place addr e xs) ≡ op (holds env e) (joint xs)
    unfolding bool_place
    joint-bool_place e [] = refl
    joint-bool_place e (x ∷ xs) = elim (Bool-cases (ltb (addr e) (addr x))) [
      | inl first ↦ rw first refl
      | inr later ↦ rw later (
          ap (op (holds env x)) (joint-bool_place e xs)
          ∙ swap (holds env x) (holds env e) (joint xs))
    ]

    joint-bool_sort : (xs : List BoolExpr) → joint (bool_sort addr xs) ≡ joint xs
    unfolding bool_sort
    joint-bool_sort [] = refl
    joint-bool_sort (x ∷ xs) =
        joint-bool_place x (bool_sort addr xs) ∙ ap (op (holds env x)) (joint-bool_sort xs)

    -- The final checks, for a node that holds where its children do jointly.
    module _ (node : BoolList → BoolExpr)
        (node_holds : (xs : List BoolExpr) → holds env (node (of_bool_list xs)) ≡ joint xs) where
      holds-bool_combine :
          (xs : List BoolExpr) → holds env (bool_combine addr node unit xs) ≡ joint xs
      unfolding bool_combine holds
      holds-bool_combine [] = refl
      holds-bool_combine (e ∷ []) = sym (j.comm (holds env e) unit ∙ j.unit_left (holds env e))
      holds-bool_combine (e ∷ x ∷ xs) =
          node_holds (bool_sort addr (e ∷ x ∷ xs)) ∙ joint-bool_sort (e ∷ x ∷ xs)

      holds-decide_bool :
          (r : Option (List BoolExpr)) → holds env (decide_bool addr node unit r) ≡ decided r
      unfolding decide_bool holds
      holds-decide_bool none = refl
      holds-decide_bool (some xs) = holds-bool_combine xs

      junction :
          (xs ys : List BoolExpr) (e1 e2 : BoolExpr)
          → joint xs ≡ holds env e1
          → joint ys ≡ holds env e2
          → holds env
              (decide_bool addr node unit (drop_consts (not unit) (insert_all addr (xs ++ ys) [])))
            ≡ op (holds env e1) (holds env e2)
      junction xs ys e1 e2 h1 h2 =
          holds-decide_bool (drop_consts (not unit) (insert_all addr (xs ++ ys) []))
          ∙ joint-drop_consts (insert_all addr (xs ++ ys) [])
          ∙ joint-insert_all (xs ++ ys) []
          ∙ j.comm (joint (xs ++ ys)) unit
          ∙ j.unit_left (joint (xs ++ ys))
          ∙ joint-append xs ys
          ∙ ap₂ op h1 h2

all_children :
    (env : Assignment) (els : BoolList)
    → joint (λ a b. a && b) true conjunctive env (bool_elements els) ≡ all_hold env els
unfolding bool_elements all_hold
all_children env BoolList.end = refl
all_children env (BoolList.item e els) = ap (λ t. holds env e && t) (all_children env els)

some_children :
    (env : Assignment) (els : BoolList)
    → joint (λ a b. a || b) false disjunctive env (bool_elements els) ≡ some_holds env els
unfolding bool_elements some_holds
some_children env BoolList.end = refl
some_children env (BoolList.item e els) = ap (λ t. holds env e || t) (some_children env els)

bool_elements-of_bool_list : (xs : List BoolExpr) → bool_elements (of_bool_list xs) ≡ xs
unfolding bool_elements of_bool_list
bool_elements-of_bool_list [] = refl
bool_elements-of_bool_list (x ∷ xs) = ap (λ l. x ∷ l) (bool_elements-of_bool_list xs)

flat_and_holds :
    (env : Assignment) (e : BoolExpr)
    → joint (λ a b. a && b) true conjunctive env (flat_bool_and e) ≡ holds env e
unfolding flat_bool_and holds
flat_and_holds env (BoolExpr.bool_and els) = all_children env els
flat_and_holds env e = and_comm (holds env e) true

flat_or_holds :
    (env : Assignment) (e : BoolExpr)
    → joint (λ a b. a || b) false disjunctive env (flat_bool_or e) ≡ holds env e
unfolding flat_bool_or holds
flat_or_holds env (BoolExpr.bool_or els) = some_children env els
flat_or_holds env e = or_comm (holds env e) false

-- The test that `mk_bool_and` builds holds, under every assignment of the symbols, exactly where
-- both operands hold. Nothing is assumed of the addresses that order the children.
pub mk_bool_and_holds :
    (addr : BoolExpr → ℕ) (e1 e2 : BoolExpr) (env : Assignment)
    → holds env (mk_bool_and addr e1 e2) ≡ (holds env e1 && holds env e2)
unfolding mk_bool_and holds
mk_bool_and_holds addr e1 e2 env =
    junction (λ a b. a && b) true conjunctive env addr BoolExpr.bool_and
      (λ xs.
        sym (all_children env (of_bool_list xs))
        ∙ ap (joint (λ a b. a && b) true conjunctive env) (bool_elements-of_bool_list xs))
      (flat_bool_and e1) (flat_bool_and e2) e1 e2 (flat_and_holds env e1) (flat_and_holds env e2)

-- The test that `mk_bool_or` builds holds, under every assignment of the symbols, exactly where at
-- least one operand holds. Nothing is assumed of the addresses that order the children.
pub mk_bool_or_holds :
    (addr : BoolExpr → ℕ) (e1 e2 : BoolExpr) (env : Assignment)
    → holds env (mk_bool_or addr e1 e2) ≡ (holds env e1 || holds env e2)
unfolding mk_bool_or holds
mk_bool_or_holds addr e1 e2 env =
    junction (λ a b. a || b) false disjunctive env addr BoolExpr.bool_or
      (λ xs.
        sym (some_children env (of_bool_list xs))
        ∙ ap (joint (λ a b. a || b) false disjunctive env) (bool_elements-of_bool_list xs))
      (flat_bool_or e1) (flat_bool_or e2) e1 e2 (flat_or_holds env e1) (flat_or_holds env e2)
