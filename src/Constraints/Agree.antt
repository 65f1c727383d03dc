-- ===== src/Constraints/Agree.antt =====
-- The value of an expression depends only on the symbols that `get_involved_inputs` gives.
use mathlib.Core.List.{Memᴰ}
use naaz.Base.{
  ℕ, ◌≡◌, refl, ◌∙◌, ap, ap₂, inl, inr, ◌+◌, ◌*◌, ◌-◌, ◌/◌, ◌%◌, ◌^◌, bit_and, bit_or, bit_xor,
  ◌==◌, ltb, leb, Bool, not, ◌&&◌, ◌||◌, if◌then◌else◌,
}
use naaz.Base.{List, [], mod_ℤ, ltb_ℤ}
use naaz.BvConst.Word.{shr_ℤ}
use naaz.BvConst.Signed.{to_signed, sign_extended}
use naaz.Expr.{BvExpr, BoolExpr, BvList, BoolList, size, total_size, first_size}
use naaz.Expr.Meaning.{
  Assignment, meaning, holds, joined, conjunction, disjunction, parity, sum, product, all_hold,
  some_holds,
}
use naaz.Expr.Meaning.{udiv_value, urem_value, sdiv_value, srem_value}
use naaz.Constraints.{union, inputs, test_inputs, list_inputs, tests_inputs}
use naaz.Constraints.Sets.{Memᴰ-union, Memᴰ-insert_sym}

module _ (env env' : Assignment) where
  abbrev pub AgreesOn : List ℕ → Type 0
  AgreesOn syms = (i : ℕ) → Memᴰ i syms → env i ≡ env' i

  new : (syms res : List ℕ) → AgreesOn (union syms res) → AgreesOn syms
  new syms res h i m = h i ((Memᴰ-union syms res i).1 (inl m))

  old : (syms res : List ℕ) → AgreesOn (union syms res) → AgreesOn res
  old syms res h i m = h i ((Memᴰ-union syms res i).1 (inr m))

  res-agree : (els : BvList) (res : List ℕ) → AgreesOn (list_inputs els res) → AgreesOn res
  unfolding list_inputs
  res-agree BvList.nil res h = h
  res-agree (BvList.cons e els) res h = old (inputs e) res (res-agree els (union (inputs e) res) h)

  res_tests-agree : (els : BoolList) (res : List ℕ) → AgreesOn (tests_inputs els res) → AgreesOn res
  unfolding tests_inputs
  res_tests-agree BoolList.end res h = h
  res_tests-agree (BoolList.item e els) res h =
      old (test_inputs e) res (res_tests-agree els (union (test_inputs e) res) h)

  left : (l r : List ℕ) → AgreesOn (union r (union l [])) → AgreesOn l
  left l r h = new l [] (old r (union l []) h)

  right : (l r : List ℕ) → AgreesOn (union r (union l [])) → AgreesOn r
  right l r h = new r (union l []) h

  first :
      (syms res : List ℕ) (els : BvList)
      → AgreesOn (list_inputs els (union syms res))
      → AgreesOn syms
  first syms res els h = new syms res (res-agree els (union syms res) h)

  first_test :
      (syms res : List ℕ) (els : BoolList)
      → AgreesOn (tests_inputs els (union syms res))
      → AgreesOn syms
  first_test syms res els h = new syms res (res_tests-agree els (union syms res) h)

  abbrev signed : BvExpr → ℕ → ℕ → Bool
  signed l a b = ltb_ℤ (to_signed (size l) a) (to_signed (size l) b)

  mutual
    unfolding inputs meaning

    pub agree : (e : BvExpr) → AgreesOn (inputs e) → meaning env e ≡ meaning env' e
    agree (BvExpr.sym id n) h = ap (λ v. v % 2 ^ n) (h id ((Memᴰ-insert_sym id [] id).1 (inl refl)))
    agree (BvExpr.const c) h = refl
    agree (BvExpr.ite g t e) h =
        let rest = old (inputs e) (union (inputs t) (union (test_inputs g) [])) h in
        let guard = test_agree g (new _ [] (old (inputs t) (union (test_inputs g) []) rest)) in
        let iftrue = agree t (new (inputs t) _ rest) in
        let iffalse = agree e (new (inputs e) _ h) in
        ap₂ (λ b v. if b then v else meaning env e) guard iftrue
        ∙ ap (λ v. if holds env' g then meaning env' t else v) iffalse
    agree (BvExpr.extract e high low) h =
        ap (λ v. v / 2 ^ low % 2 ^ (high - low + 1)) (agree e (new _ [] h))
    agree (BvExpr.concat els) h = joined_agree els [] h
    agree (BvExpr.zext e n) h = agree e (new _ [] h)
    agree (BvExpr.sext e n) h = ap (λ v. sign_extended (size e) n v) (agree e (new _ [] h))
    agree (BvExpr.shl e v) h =
        ap₂ (λ a b. a * 2 ^ b % 2 ^ size e) (agree e (left (inputs e) (inputs v) h))
          (agree v (right (inputs e) (inputs v) h))
    agree (BvExpr.lshr e v) h =
        ap₂ (λ a b. a / 2 ^ b) (agree e (left (inputs e) (inputs v) h))
          (agree v (right (inputs e) (inputs v) h))
    agree (BvExpr.ashr e v) h =
        ap₂ (λ a b. mod_ℤ (shr_ℤ (to_signed (size e) a) b) (2 ^ size e))
          (agree e (left (inputs e) (inputs v) h)) (agree v (right (inputs e) (inputs v) h))
    agree (BvExpr.sdiv l r m_size) h =
        ap₂ (sdiv_value (size l)) (agree l (left (inputs l) (inputs r) h))
          (agree r (right (inputs l) (inputs r) h))
    agree (BvExpr.udiv l r m_size) h =
        ap₂ (udiv_value (size l)) (agree l (left (inputs l) (inputs r) h))
          (agree r (right (inputs l) (inputs r) h))
    agree (BvExpr.srem l r m_size) h =
        ap₂ (srem_value (size l)) (agree l (left (inputs l) (inputs r) h))
          (agree r (right (inputs l) (inputs r) h))
    agree (BvExpr.urem l r m_size) h =
        ap₂ urem_value (agree l (left (inputs l) (inputs r) h))
          (agree r (right (inputs l) (inputs r) h))
    agree (BvExpr.neg e) h = ap (λ v. (2 ^ size e - v) % 2 ^ size e) (agree e (new _ [] h))
    agree (BvExpr.not e) h = ap (λ v. 2 ^ size e - 1 - v) (agree e (new _ [] h))
    agree (BvExpr.and els) h = conjunction_agree (first_size els) els [] h
    agree (BvExpr.or els) h = disjunction_agree els [] h
    agree (BvExpr.xor els) h = parity_agree els [] h
    agree (BvExpr.add els) h = ap (λ v. v % 2 ^ first_size els) (sum_agree els [] h)
    agree (BvExpr.mul els) h = ap (λ v. v % 2 ^ first_size els) (product_agree els [] h)

    joined_agree :
        (els : BvList) (res : List ℕ)
        → AgreesOn (list_inputs els res)
        → joined env els ≡ joined env' els
    joined_agree BvList.nil res h = refl
    joined_agree (BvList.cons e els) res h =
        ap₂ (λ a b. a * 2 ^ total_size els + b) (agree e (first (inputs e) res els h))
          (joined_agree els (union (inputs e) res) h)

    disjunction_agree :
        (els : BvList) (res : List ℕ)
        → AgreesOn (list_inputs els res)
        → disjunction env els ≡ disjunction env' els
    disjunction_agree BvList.nil res h = refl
    disjunction_agree (BvList.cons e els) res h =
        ap₂ bit_or (agree e (first (inputs e) res els h))
          (disjunction_agree els (union (inputs e) res) h)

    parity_agree :
        (els : BvList) (res : List ℕ)
        → AgreesOn (list_inputs els res)
        → parity env els ≡ parity env' els
    parity_agree BvList.nil res h = refl
    parity_agree (BvList.cons e els) res h =
        ap₂ bit_xor (agree e (first (inputs e) res els h))
          (parity_agree els (union (inputs e) res) h)

    sum_agree :
        (els : BvList) (res : List ℕ) → AgreesOn (list_inputs els res) → sum env els ≡ sum env' els
    sum_agree BvList.nil res h = refl
    sum_agree (BvList.cons e els) res h =
        ap₂ (λ a b. a + b) (agree e (first (inputs e) res els h))
          (sum_agree els (union (inputs e) res) h)

    product_agree :
        (els : BvList) (res : List ℕ)
        → AgreesOn (list_inputs els res)
        → product env els ≡ product env' els
    product_agree BvList.nil res h = refl
    product_agree (BvList.cons e els) res h =
        ap₂ (λ a b. a * b) (agree e (first (inputs e) res els h))
          (product_agree els (union (inputs e) res) h)

    conjunction_agree :
        (w : ℕ) (els : BvList) (res : List ℕ)
        → AgreesOn (list_inputs els res)
        → conjunction env w els ≡ conjunction env' w els
    conjunction_agree w BvList.nil res h = refl
    conjunction_agree w (BvList.cons e els) res h =
        ap₂ bit_and (agree e (first (inputs e) res els h))
          (conjunction_agree w els (union (inputs e) res) h)

    pub test_agree : (e : BoolExpr) → AgreesOn (test_inputs e) → holds env e ≡ holds env' e
    test_agree (BoolExpr.bool_const b) h = refl
    test_agree (BoolExpr.bool_not e) h = ap not (test_agree e (new (test_inputs e) [] h))
    test_agree (BoolExpr.ult l r) h =
        ap₂ ltb (agree l (left (inputs l) (inputs r) h)) (agree r (right (inputs l) (inputs r) h))
    test_agree (BoolExpr.ule l r) h =
        ap₂ leb (agree l (left (inputs l) (inputs r) h)) (agree r (right (inputs l) (inputs r) h))
    test_agree (BoolExpr.ugt l r) h =
        ap₂ ltb (agree r (right (inputs l) (inputs r) h)) (agree l (left (inputs l) (inputs r) h))
    test_agree (BoolExpr.uge l r) h =
        ap₂ leb (agree r (right (inputs l) (inputs r) h)) (agree l (left (inputs l) (inputs r) h))
    test_agree (BoolExpr.slt l r) h =
        ap₂ (signed l) (agree l (left (inputs l) (inputs r) h))
          (agree r (right (inputs l) (inputs r) h))
    test_agree (BoolExpr.sle l r) h =
        ap₂ (λ a b. not (signed l b a)) (agree l (left (inputs l) (inputs r) h))
          (agree r (right (inputs l) (inputs r) h))
    test_agree (BoolExpr.sgt l r) h =
        ap₂ (λ a b. signed l b a) (agree l (left (inputs l) (inputs r) h))
          (agree r (right (inputs l) (inputs r) h))
    test_agree (BoolExpr.sge l r) h =
        ap₂ (λ a b. not (signed l a b)) (agree l (left (inputs l) (inputs r) h))
          (agree r (right (inputs l) (inputs r) h))
    test_agree (BoolExpr.eq l r) h =
        ap₂ (λ a b. a == b) (agree l (left (inputs l) (inputs r) h))
          (agree r (right (inputs l) (inputs r) h))
    test_agree (BoolExpr.bool_and els) h = all_agree els [] h
    test_agree (BoolExpr.bool_or els) h = some_agree els [] h

    all_agree :
        (els : BoolList) (res : List ℕ)
        → AgreesOn (tests_inputs els res)
        → all_hold env els ≡ all_hold env' els
    all_agree BoolList.end res h = refl
    all_agree (BoolList.item e els) res h =
        ap₂ (λ a b. a && b) (test_agree e (first_test (test_inputs e) res els h))
          (all_agree els (union (test_inputs e) res) h)

    some_agree :
        (els : BoolList) (res : List ℕ)
        → AgreesOn (tests_inputs els res)
        → some_holds env els ≡ some_holds env' els
    some_agree BoolList.end res h = refl
    some_agree (BoolList.item e els) res h =
        ap₂ (λ a b. a || b) (test_agree e (first_test (test_inputs e) res els h))
          (some_agree els (union (test_inputs e) res) h)
