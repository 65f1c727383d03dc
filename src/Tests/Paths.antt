-- ===== src/Tests/Paths.antt =====
-- solver/ConstraintManager.cpp with a constraint on each of two symbols.
use mathlib.Core.List.{Memᴰ}
use mathlib.Core.List.Memᴰ
use naaz.Base.{
  ℕ, ◌+◌, ◌<◌, ◌≡◌, refl, ap, arith, inl, inr, ◌↔◌, true, List, [], ◌∷◌, some, length,
  if◌then◌else◌, ◌==◌,
}
use naaz.Expr.{BvExpr, BoolExpr}
use naaz.Expr.Meaning.{Assignment, meaning, holds}
use naaz.Constraints.{
  insert_sym, union, test_inputs, ConstraintManager, empty_manager, push_new, close,
  get_dependencies, file_under, add, collect, mk_bool_and_no_simpl, pi_of, pi,
}
use naaz.Constraints.Cache.{get_test_inputs}
use naaz.Constraints.Waiting.{waiting}
use naaz.Constraints.Filed.{IsFiled, empty-IsFiled, add-constraints}
use naaz.Constraints.Closure.{Depends}
use naaz.Constraints.Conjoined.{AllHold}
use naaz.Constraints.Slices.{IsInvolved}
use naaz.Constraints.Remembered.{IsRight, nothing_cached}
use naaz.Constraints.Filed
use naaz.Constraints.Closure
use naaz.Constraints.Conjoined
use naaz.Constraints.Slices
use naaz.Constraints.Remembered
use naaz.Builder.Relational.{insert, insert_all}
use naaz.Exploration.Vectors.{pop_back}

-- `first` is a test of the symbol 0, and `second` one of the symbol 1.
abbrev first : BoolExpr
first = BoolExpr.bool_not (BoolExpr.eq (BvExpr.sym 0 8) (BvExpr.neg (BvExpr.sym 0 8)))

abbrev second : BoolExpr
second = BoolExpr.eq (BvExpr.sym 1 8) (BvExpr.neg (BvExpr.sym 1 8))

abbrev addr : BoolExpr → ℕ
addr e = 0

abbrev one : ConstraintManager
one = add addr first empty_manager

abbrev two : ConstraintManager
two = add addr second one

one-IsFiled : IsFiled one
one-IsFiled = Filed.add-IsFiled addr first empty_manager empty-IsFiled

two-IsFiled : IsFiled two
two-IsFiled = Filed.add-IsFiled addr second one one-IsFiled

add-IsFiled_example : IsFiled (add addr second one)
add-IsFiled_example = Filed.add-IsFiled addr second one one-IsFiled

symbols_of_first : test_inputs first ≡ 0 ∷ []
unfolding test_inputs union insert_sym
symbols_of_first = refl

enough : length (test_inputs first) + waiting two.dependencies [] < 10
unfolding add file_under empty_manager test_inputs union insert_sym
enough = omega arith

get_dependencies-Depends_example :
    (r : List ℕ) × (get_dependencies 10 two (test_inputs first) ≡ some r)
    × ((i : ℕ) → Memᴰ i r ↔ Depends two.dependencies (test_inputs first) i)
get_dependencies-Depends_example =
    Closure.get_dependencies-Depends 10 two (test_inputs first) enough

pi_of-holds_example :
    (p : BoolExpr) × (pi_of addr 10 two (test_inputs first) ≡ some p)
    × ((env : Assignment)
        → (holds env p ≡ true) ↔ (
            (c : BoolExpr)
            → Memᴰ c two.constraints
            → IsInvolved addr two (test_inputs first) c
            → holds env c ≡ true))
pi_of-holds_example = Slices.pi_of-holds addr two (test_inputs first) 10 two-IsFiled enough

slice_of_first : pi_of addr 10 two (test_inputs first) ≡ some first
unfolding pi_of get_dependencies close push_new pop_back collect mk_bool_and_no_simpl insert_all
    insert add file_under empty_manager test_inputs union insert_sym
slice_of_first = refl

abbrev ones : Assignment
ones i = 1

abbrev halves : Assignment
halves i = if i == 0 then 1 else 128

first_holds : holds ones first ≡ true
unfolding holds meaning naaz.Expr.size
first_holds = refl

all_at_halves : AllHold halves two.constraints
unfolding holds meaning naaz.Expr.size empty_manager
all_at_halves c m = elim ((add-constraints addr second one c).0 m) [
  | inl is ↦ ap (holds halves) is
  | inr k ↦ elim ((add-constraints addr first empty_manager c).0 k) [
    | inl is ↦ ap (holds halves) is
    | inr l ↦ absurd (Memᴰ.not-nil l)
  ]
]

pi_of_extends_example :
    (both : Assignment) × AllHold both two.constraints × (holds both first ≡ holds ones first)
pi_of_extends_example =
    Slices.pi_of_extends addr two first 10 first ones halves two-IsFiled enough slice_of_first
      first_holds all_at_halves

pi-AllHold_example : (holds halves (pi addr two) ≡ true) ↔ AllHold halves two.constraints
pi-AllHold_example = Conjoined.pi-AllHold halves addr two

get_test_inputs-Gives_example :
    ((get_test_inputs first []).0 ≡ test_inputs first) × IsRight (get_test_inputs first []).1
get_test_inputs-Gives_example = Remembered.get_test_inputs-Gives first [] nothing_cached
