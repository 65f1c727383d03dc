-- ===== src/Builder/Nary.antt =====
-- The operations on several children in expr/ExprBuilder.cpp: flattening, constant propagation, the
-- pruning of `mk_xor`, and the order by address. `addr` gives the address of an object;
-- nothing is assumed of it.
use naaz.Base.{ℕ, Bool, true, false, ◌||◌, ltb}
use naaz.Base.{if◌then◌else◌, List, [], ◌∷◌, ◌++◌, negsuc}
use naaz.Base.{Outcome, ok, ◌>>=◌, ◌>>◌}
use naaz.Platform.{Platform}
use naaz.BvConst.{BvConst, of_u64, of_number}
use naaz.BvConst.Arith
use naaz.BvConst.Compare
use naaz.Expr.{BvExpr, BvList, size, same}
use naaz.Builder.{mk_const, check_size_or_fail}

unfoldable pub elements : BvList → List BvExpr
elements BvList.nil = []
elements (BvList.cons e els) = e ∷ elements els

unfoldable pub of_list : List BvExpr → BvList
of_list [] = BvList.nil
of_list (e ∷ els) = BvList.cons e (of_list els)

unfoldable pub flat_and : BvExpr → List BvExpr
flat_and (BvExpr.and els) = elements els
flat_and e = e ∷ []

unfoldable pub flat_or : BvExpr → List BvExpr
flat_or (BvExpr.or els) = elements els
flat_or e = e ∷ []

unfoldable pub flat_xor : BvExpr → List BvExpr
flat_xor (BvExpr.xor els) = elements els
flat_xor e = e ∷ []

unfoldable pub flat_mul : BvExpr → List BvExpr
flat_mul (BvExpr.mul els) = elements els
flat_mul e = e ∷ []

-- `at(0)->size()`
abbrev pub head_size : List BvExpr → ℕ
head_size [] = 0
head_size (e ∷ els) = size e

abbrev pub is_empty : List BvExpr → Bool
is_empty [] = true
is_empty (e ∷ els) = false

-- The loop of constant propagation: constants go into `concrete_val`, the others to `children`.
unfoldable pub propagate :
    (BvConst → BvConst → Outcome BvConst)
    → List BvExpr
    → BvConst
    → List BvExpr
    → Outcome (BvConst × List BvExpr)
propagate op [] concrete_val children = ok (concrete_val, children)
propagate op (BvExpr.const c ∷ els) concrete_val children = do
  next ← op concrete_val c
  propagate op els next children
propagate op (e ∷ els) concrete_val children = propagate op els concrete_val (children ++ e ∷ [])

-- A loop that may return from the function.
pub data Loop : Type 0 where
  early : BvExpr → Loop
  finished : BvConst → List BvExpr → Loop

module _ ⦃p : Platform⦄ where
  unfoldable pub and_loop : List BvExpr → BvConst → List BvExpr → Outcome Loop
  and_loop [] concrete_val children = ok (finished concrete_val children)
  and_loop (BvExpr.const c ∷ els) concrete_val children = do
    zeroes ← Compare.is_zero c
    if zeroes
        then ok (early (BvExpr.const c))
        else (do next ← Arith.band concrete_val c; and_loop els next children)
  and_loop (e ∷ els) concrete_val children = and_loop els concrete_val (children ++ e ∷ [])

  unfoldable pub or_loop : ℕ → List BvExpr → BvConst → List BvExpr → Outcome Loop
  or_loop w [] concrete_val children = ok (finished concrete_val children)
  or_loop w (BvExpr.const c ∷ els) concrete_val children = do
    ones ← Compare.has_all_bit_set c
    if ones
        then (do full ← of_number (negsuc 0) w; ok (early (mk_const full)))
        else (do next ← Arith.bor concrete_val c; or_loop w els next children)
  or_loop w (e ∷ els) concrete_val children = or_loop w els concrete_val (children ++ e ∷ [])

-- `std::set<BVExprPtr>` as its elements in the order of their addresses
unfoldable pub contains : BvExpr → List BvExpr → Bool
contains e [] = false
contains e (x ∷ xs) = same x e || contains e xs

unfoldable pub erase : BvExpr → List BvExpr → List BvExpr
erase e [] = []
erase e (x ∷ xs) = if same x e then xs else x ∷ erase e xs

module _ (addr : BvExpr → ℕ) where
  -- `std::sort` by address
  unfoldable pub place : BvExpr → List BvExpr → List BvExpr
  place e [] = e ∷ []
  place e (x ∷ xs) = if ltb (addr e) (addr x) then e ∷ x ∷ xs else x ∷ place e xs

  unfoldable pub sort : List BvExpr → List BvExpr
  sort [] = []
  sort (e ∷ els) = place e (sort els)

  -- the end of each function: one child is returned as it is, several become a sorted node
  unfoldable pub combine : (BvList → BvExpr) → List BvExpr → BvExpr
  combine node (e ∷ []) = e
  combine node els = node (of_list (sort els))

  module _ ⦃p : Platform⦄ where
    unfoldable pub mk_mul : BvExpr → BvExpr → Outcome BvExpr
    mk_mul lhs rhs = do
      check_size_or_fail lhs rhs
      let els = flat_mul lhs ++ flat_mul rhs
      one ← of_u64 1 (head_size els)
      split ← propagate Arith.mul els one []
      zeroed ← Compare.is_zero split.0
      neutral ← Compare.is_one split.0
      ok (
          if is_empty split.1 || zeroed
          then mk_const split.0
          else combine BvExpr.mul (if neutral then split.1 else split.1 ++ mk_const split.0 ∷ []))

    -- the end of `mk_and`, after the loop
    unfoldable pub and_end : Loop → Outcome BvExpr
    and_end (early e) = ok e
    and_end (finished concrete_val children) = do
      neutral ← Compare.has_all_bit_set concrete_val
      ok (
          if is_empty children
          then mk_const concrete_val
          else combine BvExpr.and
              (if neutral then children else children ++ mk_const concrete_val ∷ []))

    unfoldable pub mk_and : BvExpr → BvExpr → Outcome BvExpr
    mk_and lhs rhs = do
      check_size_or_fail lhs rhs
      let exprs = flat_and lhs ++ flat_and rhs
      full ← of_number (negsuc 0) (head_size exprs)
      loop ← and_loop exprs full []
      and_end loop

    unfoldable pub or_end : Loop → Outcome BvExpr
    or_end (early e) = ok e
    or_end (finished concrete_val children) = do
      neutral ← Compare.is_zero concrete_val
      ok (
          if is_empty children
          then mk_const concrete_val
          else combine BvExpr.or
              (if neutral then children else children ++ mk_const concrete_val ∷ []))

    unfoldable pub mk_or : BvExpr → BvExpr → Outcome BvExpr
    mk_or lhs rhs = do
      check_size_or_fail lhs rhs
      let exprs = flat_or lhs ++ flat_or rhs
      none_set ← of_u64 0 (head_size exprs)
      loop ← or_loop (head_size exprs) exprs none_set []
      or_end loop

  -- 'xor with myself': a second occurrence takes the first one out.
  unfoldable pub toggle : BvExpr → List BvExpr → List BvExpr
  toggle e added_exprs = if contains e added_exprs then erase e added_exprs else place e added_exprs

  unfoldable pub toggle_all : List BvExpr → List BvExpr → List BvExpr
  toggle_all [] added_exprs = added_exprs
  toggle_all (e ∷ els) added_exprs = toggle_all els (toggle e added_exprs)

  module _ ⦃p : Platform⦄ where
    unfoldable pub mk_xor : BvExpr → BvExpr → Outcome BvExpr
    mk_xor lhs rhs = do
      check_size_or_fail lhs rhs
      let exprs = flat_xor lhs ++ flat_xor rhs
      none_set ← of_u64 0 (head_size exprs)
      split ← propagate Arith.bxor exprs none_set []
      let pruned_children = toggle_all split.1 []
      neutral ← Compare.is_zero split.0
      ok (
          if is_empty pruned_children
          then mk_const split.0
          else combine BvExpr.xor
              (if neutral then pruned_children else pruned_children ++ mk_const split.0 ∷ []))
