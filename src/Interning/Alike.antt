-- ===== src/Interning/Alike.antt =====
-- Two expressions that `eq` takes for one have the same value and the same width, or are of two classes
-- with one kind.
use naaz.Base.{
  ℕ, ◌≡◌, refl, sym, subst, ◌∙◌, ap, ap₂, ◌==◌, ==→eq, Bool, true, false, ◌&&◌, Bool-cases, ◌⊎◌,
  inl, inr, ok, arith,
}
use naaz.Platform.{Platform}
use naaz.BvConst.{BvConst}
use naaz.BvConst.Compare
use naaz.BvConst.Represents.{Represents}
use naaz.BvConst.Order.{eq_refines}
use naaz.Expr.{BvExpr, BoolExpr, BvList, BoolList, size, same, same→eq, same_bool, same_bool→eq}
use naaz.Expr.Meaning.{Assignment, meaning, const_value, IsConst}
use naaz.Interning.{
  count, count_tests, same_elements, same_tests, same_children, same_exprs, eq, eq_test,
  equal_values, eq_const, eq_sym, eq_ite, eq_extract, eq_concat, eq_zext, eq_sext, eq_neg, eq_not,
  eq_shl, eq_lshr, eq_ashr, eq_add, eq_mul, eq_sdiv, eq_udiv, eq_srem, eq_urem, eq_and, eq_or,
  eq_xor, eq_bool_const, eq_bool_not, eq_bool_and, eq_bool_or,
}

-- A symbol has the width of its entry in `m_symbols`, and a constant fits its own.
abbrev pub Known : (ℕ → ℕ) → BvExpr → Type 0
Known widths (BvExpr.sym id n) = n ≡ widths id
Known widths (BvExpr.const c) = IsConst c
Known widths e = Unit

abbrev pub Alike : BvExpr → BvExpr → Type 0
Alike a b = ((env : Assignment) → meaning env a ≡ meaning env b) × (size a ≡ size b)

-- Two expressions of different classes whose objects have one kind and the same fields.
pub data Confused : BvExpr → BvExpr → Type 0 where
  shifts_right : {e v : BvExpr} → Confused (BvExpr.lshr e v) (BvExpr.ashr e v)
  shifts_signed : {e v : BvExpr} → Confused (BvExpr.ashr e v) (BvExpr.lshr e v)
  signed_rest : {l r : BvExpr} {m : ℕ} → Confused (BvExpr.sdiv l r m) (BvExpr.srem l r m)
  signed_quotient : {l r : BvExpr} {m : ℕ} → Confused (BvExpr.srem l r m) (BvExpr.sdiv l r m)
  unsigned_rest : {l r : BvExpr} {m : ℕ} → Confused (BvExpr.udiv l r m) (BvExpr.urem l r m)
  unsigned_quotient : {l r : BvExpr} {m : ℕ} → Confused (BvExpr.urem l r m) (BvExpr.udiv l r m)

abbrev pub Taken : BvExpr → BvExpr → Type 0
Taken a b = Alike a b ⊎ Confused a b

from_ok : (a b : Bool) → ok a ≡ ok b → a ≡ b
from_ok a b h = cc

both : (a b : Bool) → (a && b) ≡ true → (a ≡ true) × (b ≡ true)
both true b h = (refl, h)
both false b h = absurd (cc)

same_elements→eq : (xs ys : BvList) → count xs ≡ count ys → same_elements xs ys ≡ true → xs ≡ ys
same_elements→eq BvList.nil BvList.nil n h = refl
same_elements→eq BvList.nil (BvList.cons y ys) n h = absurd (omega (arith, n))
same_elements→eq (BvList.cons x xs) BvList.nil n h = absurd (cc)
same_elements→eq (BvList.cons x xs) (BvList.cons y ys) n h =
    let (first, rest) = both (same x y) (same_elements xs ys) h in
    ap₂ BvList.cons (same→eq x y first) (same_elements→eq xs ys (omega (arith, n)) rest)

same_children→eq : (xs ys : BvList) → same_children xs ys ≡ true → xs ≡ ys
same_children→eq xs ys h = elim (Bool-cases (count xs == count ys)) [
  | inl n ↦ same_elements→eq xs ys (==→eq (count xs) (count ys) n) (rw n at h)
  | inr n ↦ let clash : false ≡ true = rw n at h in absurd (cc)
]

same_tests→eq :
    (xs ys : BoolList) → count_tests xs ≡ count_tests ys → same_tests xs ys ≡ true → xs ≡ ys
same_tests→eq BoolList.end BoolList.end n h = refl
same_tests→eq BoolList.end (BoolList.item y ys) n h = absurd (omega (arith, n))
same_tests→eq (BoolList.item x xs) BoolList.end n h = absurd (cc)
same_tests→eq (BoolList.item x xs) (BoolList.item y ys) n h =
    let (first, rest) = both (same_bool x y) (same_tests xs ys) h in
    ap₂ BoolList.item (same_bool→eq x y first) (same_tests→eq xs ys (omega (arith, n)) rest)

same_exprs→eq : (xs ys : BoolList) → same_exprs xs ys ≡ true → xs ≡ ys
same_exprs→eq xs ys h = elim (Bool-cases (count_tests xs == count_tests ys)) [
  | inl n ↦ same_tests→eq xs ys (==→eq (count_tests xs) (count_tests ys) n) (rw n at h)
  | inr n ↦ let clash : false ≡ true = rw n at h in absurd (cc)
]

-- the shapes of `eq` of the classes
one_same : (b : Bool) (x y : BvExpr) → ok (b && same x y) ≡ ok true → (b ≡ true) × (x ≡ y)
one_same b x y h =
    let (first, rest) = both b (same x y) (from_ok _ _ h) in (first, same→eq x y rest)

two_same :
    (b : Bool) (x y x' y' : BvExpr)
    → ok (b && (same x x' && same y y')) ≡ ok true
    → (x ≡ x') × (y ≡ y')
two_same b x y x' y' h =
    let (_, rest) = both b (same x x' && same y y') (from_ok _ _ h) in
    let (first, second) = both (same x x') (same y y') rest in
    (same→eq x x' first, same→eq y y' second)

three_same :
    (m m' : ℕ) (x y x' y' : BvExpr)
    → ok (m == m' && (same x x' && same y y')) ≡ ok true
    → (m ≡ m') × (x ≡ x') × (y ≡ y')
three_same m m' x y x' y' h =
    let (sizes, _) = both (m == m') (same x x' && same y y') (from_ok _ _ h) in
    let (first, second) = two_same (m == m') x y x' y' h in (==→eq m m' sizes, first, second)

all_same : (b : Bool) (xs ys : BvList) → ok (b && same_children xs ys) ≡ ok true → xs ≡ ys
all_same b xs ys h =
    let (_, rest) = both b (same_children xs ys) (from_ok _ _ h) in same_children→eq xs ys rest

pub alike : {a b : BvExpr} → a ≡ b → Alike a b
alike e = (λ env. ap (meaning env) e, ap size e)

taken : {a b : BvExpr} → a ≡ b → Taken a b
taken e = inl (alike e)

module _ ⦃p : Platform⦄ where
  equal_consts :
      (c c' : BvConst)
      → IsConst c
      → IsConst c'
      → eq (BvExpr.const c) (BvExpr.const c') ≡ ok true
      → Alike (BvExpr.const c) (BvExpr.const c')
  unfolding eq eq_const eq_sym eq_ite eq_extract eq_concat eq_zext eq_sext eq_neg eq_not eq_shl
      eq_lshr eq_ashr eq_add eq_mul eq_sdiv eq_udiv eq_srem eq_urem eq_and eq_or eq_xor meaning size
  equal_consts c c' h k s = elim (Bool-cases (c.size == c'.size)) [
    | inr differ ↦ let clash : ok false ≡ ok true = rw (eq, eq_const, differ) at s in absurd (cc)
    | inl is ↦
        let width : c.size ≡ c'.size = ==→eq c.size c'.size is in
        let found : Compare.eq c c' ≡ ok true = rw (eq, eq_const, is) at s in
        let value : Compare.eq c c' ≡ ok (const_value c == const_value c') =
          eq_refines c.size (const_value c) (const_value c') h
            (subst (λ w. Represents w (const_value c') c') (sym width) k) in
        let equal = ==→eq (const_value c) (const_value c') (from_ok _ _ (sym value ∙ found)) in
        (λ env. equal, width)
  ]

  -- `eq` takes for one only expressions of one value and one width, or of two classes of one kind.
  pub eq-Alike :
      (widths : ℕ → ℕ) (a b : BvExpr)
      → Known widths a
      → Known widths b
      → eq a b ≡ ok true
      → Taken a b
  unfolding eq eq_const eq_sym eq_ite eq_extract eq_concat eq_zext eq_sext eq_neg eq_not eq_shl
      eq_lshr eq_ashr eq_add eq_mul eq_sdiv eq_udiv eq_srem eq_urem eq_and eq_or eq_xor meaning size
  eq-Alike widths (BvExpr.sym id n) (BvExpr.sym id' n') h k s =
      let ids : id ≡ id' = ==→eq id id' (from_ok _ _ s) in
      taken (ap₂ BvExpr.sym ids (h ∙ ap widths ids ∙ sym k))
  eq-Alike widths (BvExpr.const c) (BvExpr.const c') h k s = inl (equal_consts c c' h k s)
  eq-Alike widths (BvExpr.ite g t e) (BvExpr.ite g' t' e') h k s =
      let (_, rest) = both (size t == size t') _ (from_ok _ _ s) in
      let (guards, branches) = both (same_bool g g') _ rest in
      let (first, second) = both (same t t') (same e e') branches in
      taken (
        ap₂ (λ a b. BvExpr.ite a b e) (same_bool→eq g g' guards) (same→eq t t' first)
        ∙ ap (BvExpr.ite g' t') (same→eq e e' second))
  eq-Alike widths (BvExpr.extract e high low) (BvExpr.extract e' high' low') h k s =
      let (highs, rest) = both (high == high') _ (from_ok _ _ s) in
      let (lows, inner) = both (low == low') (same e e') rest in
      taken (
        ap₂ (λ a b. BvExpr.extract a b low) (same→eq e e' inner) (==→eq high high' highs)
        ∙ ap (BvExpr.extract e' high') (==→eq low low' lows))
  eq-Alike widths (BvExpr.concat els) (BvExpr.concat els') h k s =
      taken (ap BvExpr.concat (all_same _ els els' s))
  eq-Alike widths (BvExpr.zext e n) (BvExpr.zext e' n') h k s =
      let (ns, es) = one_same (n == n') e e' s in taken (ap₂ BvExpr.zext es (==→eq n n' ns))
  eq-Alike widths (BvExpr.sext e n) (BvExpr.sext e' n') h k s =
      let (ns, es) = one_same (n == n') e e' s in taken (ap₂ BvExpr.sext es (==→eq n n' ns))
  eq-Alike widths (BvExpr.shl e v) (BvExpr.shl e' v') h k s =
      let (es, vs) = two_same (size e == size e') e v e' v' s in taken (ap₂ BvExpr.shl es vs)
  eq-Alike widths (BvExpr.lshr e v) (BvExpr.lshr e' v') h k s =
      let (es, vs) = two_same (size e == size e') e v e' v' s in taken (ap₂ BvExpr.lshr es vs)
  eq-Alike widths (BvExpr.ashr e v) (BvExpr.ashr e' v') h k s =
      let (es, vs) = two_same (size e == size e') e v e' v' s in taken (ap₂ BvExpr.ashr es vs)
  eq-Alike widths (BvExpr.lshr e v) (BvExpr.ashr e' v') h k s =
      let (es, vs) = two_same (size e == size e') e v e' v' s in
      inr (subst (Confused (BvExpr.lshr e v)) (ap₂ BvExpr.ashr es vs) shifts_right)
  eq-Alike widths (BvExpr.ashr e v) (BvExpr.lshr e' v') h k s =
      let (es, vs) = two_same (size e == size e') e v e' v' s in
      inr (subst (Confused (BvExpr.ashr e v)) (ap₂ BvExpr.lshr es vs) shifts_signed)
  eq-Alike widths (BvExpr.sdiv l r m) (BvExpr.sdiv l' r' m') h k s =
      let (ms, ls, rs) = three_same m m' l r l' r' s in
      taken (ap₂ (λ a b. BvExpr.sdiv a b m) ls rs ∙ ap (BvExpr.sdiv l' r') ms)
  eq-Alike widths (BvExpr.sdiv l r m) (BvExpr.srem l' r' m') h k s =
      let (ms, ls, rs) = three_same m m' l r l' r' s in
      inr (
        subst (Confused (BvExpr.sdiv l r m))
          (ap₂ (λ a b. BvExpr.srem a b m) ls rs ∙ ap (BvExpr.srem l' r') ms) signed_rest)
  eq-Alike widths (BvExpr.udiv l r m) (BvExpr.udiv l' r' m') h k s =
      let (ms, ls, rs) = three_same m m' l r l' r' s in
      taken (ap₂ (λ a b. BvExpr.udiv a b m) ls rs ∙ ap (BvExpr.udiv l' r') ms)
  eq-Alike widths (BvExpr.udiv l r m) (BvExpr.urem l' r' m') h k s =
      let (ms, ls, rs) = three_same m m' l r l' r' s in
      inr (
        subst (Confused (BvExpr.udiv l r m))
          (ap₂ (λ a b. BvExpr.urem a b m) ls rs ∙ ap (BvExpr.urem l' r') ms) unsigned_rest)
  eq-Alike widths (BvExpr.srem l r m) (BvExpr.srem l' r' m') h k s =
      let (ms, ls, rs) = three_same m m' l r l' r' s in
      taken (ap₂ (λ a b. BvExpr.srem a b m) ls rs ∙ ap (BvExpr.srem l' r') ms)
  eq-Alike widths (BvExpr.srem l r m) (BvExpr.sdiv l' r' m') h k s =
      let (ms, ls, rs) = three_same m m' l r l' r' s in
      inr (
        subst (Confused (BvExpr.srem l r m))
          (ap₂ (λ a b. BvExpr.sdiv a b m) ls rs ∙ ap (BvExpr.sdiv l' r') ms) signed_quotient)
  eq-Alike widths (BvExpr.urem l r m) (BvExpr.urem l' r' m') h k s =
      let (ms, ls, rs) = three_same m m' l r l' r' s in
      taken (ap₂ (λ a b. BvExpr.urem a b m) ls rs ∙ ap (BvExpr.urem l' r') ms)
  eq-Alike widths (BvExpr.urem l r m) (BvExpr.udiv l' r' m') h k s =
      let (ms, ls, rs) = three_same m m' l r l' r' s in
      inr (
        subst (Confused (BvExpr.urem l r m))
          (ap₂ (λ a b. BvExpr.udiv a b m) ls rs ∙ ap (BvExpr.udiv l' r') ms) unsigned_quotient)
  eq-Alike widths (BvExpr.neg e) (BvExpr.neg e') h k s =
      taken (ap BvExpr.neg (one_same (size e == size e') e e' s).1)
  eq-Alike widths (BvExpr.not e) (BvExpr.not e') h k s =
      taken (ap BvExpr.not (one_same (size e == size e') e e' s).1)
  eq-Alike widths (BvExpr.and els) (BvExpr.and els') h k s =
      taken (ap BvExpr.and (all_same _ els els' s))
  eq-Alike widths (BvExpr.or els) (BvExpr.or els') h k s =
      taken (ap BvExpr.or (all_same _ els els' s))
  eq-Alike widths (BvExpr.xor els) (BvExpr.xor els') h k s =
      taken (ap BvExpr.xor (all_same _ els els' s))
  eq-Alike widths (BvExpr.add els) (BvExpr.add els') h k s =
      taken (ap BvExpr.add (all_same _ els els' s))
  eq-Alike widths (BvExpr.mul els) (BvExpr.mul els') h k s =
      taken (ap BvExpr.mul (all_same _ els els' s))
  eq-Alike widths a b h k s = absurd (cc)

equal_values→eq : (a b : Bool) → equal_values a b ≡ true → a ≡ b
equal_values→eq true true h = refl
equal_values→eq true false h = absurd (cc)
equal_values→eq false true h = absurd (cc)
equal_values→eq false false h = refl

-- Two tests that `eq` takes for one are the same tree.
pub eq_test→eq : (a b : BoolExpr) → eq_test a b ≡ true → a ≡ b
unfolding eq_test eq_bool_const eq_bool_not eq_bool_and eq_bool_or
eq_test→eq (BoolExpr.bool_const b) (BoolExpr.bool_const b') s =
    ap BoolExpr.bool_const (equal_values→eq b b' s)
eq_test→eq (BoolExpr.bool_not e) (BoolExpr.bool_not e') s =
    ap BoolExpr.bool_not (same_bool→eq e e' s)
eq_test→eq (BoolExpr.ult l r) (BoolExpr.ult l' r') s =
    let (ls, rs) = both (same l l') (same r r') s in
    ap₂ BoolExpr.ult (same→eq l l' ls) (same→eq r r' rs)
eq_test→eq (BoolExpr.ule l r) (BoolExpr.ule l' r') s =
    let (ls, rs) = both (same l l') (same r r') s in
    ap₂ BoolExpr.ule (same→eq l l' ls) (same→eq r r' rs)
eq_test→eq (BoolExpr.ugt l r) (BoolExpr.ugt l' r') s =
    let (ls, rs) = both (same l l') (same r r') s in
    ap₂ BoolExpr.ugt (same→eq l l' ls) (same→eq r r' rs)
eq_test→eq (BoolExpr.uge l r) (BoolExpr.uge l' r') s =
    let (ls, rs) = both (same l l') (same r r') s in
    ap₂ BoolExpr.uge (same→eq l l' ls) (same→eq r r' rs)
eq_test→eq (BoolExpr.slt l r) (BoolExpr.slt l' r') s =
    let (ls, rs) = both (same l l') (same r r') s in
    ap₂ BoolExpr.slt (same→eq l l' ls) (same→eq r r' rs)
eq_test→eq (BoolExpr.sle l r) (BoolExpr.sle l' r') s =
    let (ls, rs) = both (same l l') (same r r') s in
    ap₂ BoolExpr.sle (same→eq l l' ls) (same→eq r r' rs)
eq_test→eq (BoolExpr.sgt l r) (BoolExpr.sgt l' r') s =
    let (ls, rs) = both (same l l') (same r r') s in
    ap₂ BoolExpr.sgt (same→eq l l' ls) (same→eq r r' rs)
eq_test→eq (BoolExpr.sge l r) (BoolExpr.sge l' r') s =
    let (ls, rs) = both (same l l') (same r r') s in
    ap₂ BoolExpr.sge (same→eq l l' ls) (same→eq r r' rs)
eq_test→eq (BoolExpr.eq l r) (BoolExpr.eq l' r') s =
    let (ls, rs) = both (same l l') (same r r') s in
    ap₂ BoolExpr.eq (same→eq l l' ls) (same→eq r r' rs)
eq_test→eq (BoolExpr.bool_and els) (BoolExpr.bool_and els') s =
    ap BoolExpr.bool_and (same_exprs→eq els els' s)
eq_test→eq (BoolExpr.bool_or els) (BoolExpr.bool_or els') s =
    ap BoolExpr.bool_or (same_exprs→eq els els' s)
eq_test→eq a b s = absurd (cc)
