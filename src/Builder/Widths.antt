-- ===== src/Builder/Widths.antt =====
-- `mk_zext`, `mk_sext`, `mk_ite` and `mk_not` of expr/ExprBuilder.cpp.
use naaz.Base.{ℕ, suc, ◌+◌, ◌-◌, ◌*◌, ◌^◌, ◌<◌, ◌≤◌, ◌≡◌, refl, sym, ◌∙◌, ap, arith}
use naaz.Base.{inl, inr}
use naaz.Base.{true, false, ltb, ◌==◌, if◌then◌else◌, Bool-cases}
use naaz.Base.{ltb→lt, lt→ltb, ge→ltb, ltb→ge, le→leb, ==→eq}
use naaz.Base.{Outcome, ok, ◌>>=◌}
use naaz.Base.Pow.{pow_suc, pow_mono}
use naaz.BvConst.{BvConst}
use naaz.BvConst.Bitwise.{bit_not_refines}
use naaz.BvConst.Represents.{Yields}
use naaz.Expr.{BvExpr, BoolExpr, size}
use naaz.Expr.Meaning.{Assignment, meaning, holds}
use naaz.Expr.Meaning.{const_value, WellSized, WellSizedTest}
use naaz.Expr.Bounds.{size-pos, meaning-lt}
use naaz.Platform.{Platform}
use naaz.Builder.{
  mk_const, mk_zext, zero_extend, mk_sext, sign_extend, mk_ite, choose, mk_not, check_size_or_fail,
}
use naaz.Builder.Fold.{Means, Builds, mk_const-Means, copy-Represents}
use naaz.Builder.Children.{change_meaning, sizes_match}
use naaz.BvConst.Fields.{zext_refines}
use naaz.BvConst.Signed.{sext_refines, sign_extended}

module _ ⦃p : Platform⦄ where
  -- A constant that an operation of `BVConst` built from another.
  pub folded_const :
      (w v : ℕ) {r : Outcome BvConst} {f : Assignment → ℕ}
      → Yields r w v
      → ((env : Assignment) → v ≡ f env)
      → Builds (r >>= λ c. ok (mk_const c)) w f
  folded_const w v (c, made, rc) h =
      rw made (mk_const c, refl, change_meaning _ (mk_const-Means w v rc) h)

  zero_extend_means :
      (e : BvExpr) (n : ℕ)
      → WellSized e
      → size e ≤ n
      → Builds (zero_extend e n) n (λ env. meaning env e)
  unfolding zero_extend meaning size WellSized
  zero_extend_means (BvExpr.zext e m) n h k =
      (BvExpr.zext e n, refl, ((h.0, omega (arith, h.1)), refl, λ env. refl))
  zero_extend_means (BvExpr.const c) n h k =
      folded_const n (const_value c)
        (zext_refines c.size (const_value c) (copy-Represents c.size (const_value c) h) n k)
        (λ env. refl)
  zero_extend_means e n h k = (BvExpr.zext e n, refl, ((h, k), refl, λ env. refl))

  -- `mk_zext` of a well-sized expression to a width that is not smaller returns a well-sized
  -- expression of the new width that has the same value under every assignment of the symbols.
  pub mk_zext_means :
      (e : BvExpr) (n : ℕ)
      → WellSized e
      → size e ≤ n
      → Builds (mk_zext e n) n (λ env. meaning env e)
  unfolding mk_zext
  mk_zext_means e n h k = elim (Bool-cases (n == size e)) [
    | inl same_width ↦
        rw (le→leb (size e) n k, same_width)
          (e, refl, (h, sym (==→eq n (size e) same_width), λ env. refl))
    | inr grown ↦ rw (le→leb (size e) n k, grown) (zero_extend_means e n h k)
  ]

-- Two extensions in a row are one.
extended_twice :
    (w m n v : ℕ)
    → 0 < w
    → w ≤ m
    → m ≤ n
    → v < 2 ^ w
    → sign_extended w n v ≡ sign_extended m n (sign_extended w m v)
extended_twice w m n v h k l fits = elim (Bool-cases (ltb v (2 ^ (w - 1)))) [
  | inl low ↦
      let small : v < 2 ^ (m - 1) =
        omega (arith, ltb→lt v (2 ^ (w - 1)) low, pow_mono (w - 1) (m - 1) (omega arith)) in
      rw (low, lt→ltb v (2 ^ (m - 1)) small) refl
  | inr high ↦
      let halves : 2 ^ m ≡ 2 * 2 ^ (m - 1) =
        ap (λ t. 2 ^ t) (let e : m ≡ suc (m - 1) = omega arith in e) ∙ pow_suc (m - 1) in
      let halves' : 2 ^ w ≡ 2 * 2 ^ (w - 1) =
        ap (λ t. 2 ^ t) (let e : w ≡ suc (w - 1) = omega arith in e) ∙ pow_suc (w - 1) in
      let above : 2 ^ (m - 1) ≤ v + (2 ^ m - 2 ^ w) = omega (
        arith,
        halves,
        halves',
        ltb→ge v (2 ^ (w - 1)) high,
        pow_mono (w - 1) (m - 1) (omega arith),
      ) in
      rw (high, ge→ltb (v + (2 ^ m - 2 ^ w)) (2 ^ (m - 1)) above)
        (omega (arith, pow_mono w m k, pow_mono m n l))
]

sext-same : (w v : ℕ) → v ≡ sign_extended w w v
sext-same w v = elim (Bool-cases (ltb v (2 ^ (w - 1)))) [
  | inl low ↦ rw low refl
  | inr high ↦ rw high (omega arith)
]

module _ ⦃p : Platform⦄ where
  sign_extend_means :
      (e : BvExpr) (n : ℕ)
      → WellSized e
      → size e ≤ n
      → Builds (sign_extend e n) n (λ env. sign_extended (size e) n (meaning env e))
  unfolding sign_extend meaning size WellSized
  sign_extend_means (BvExpr.sext e m) n h k = (
    BvExpr.sext e n,
    refl,
    (
      (h.0, omega (arith, h.1)),
      refl,
      λ env.
          extended_twice (size e) m n (meaning env e) (size-pos e h.0) h.1 k (meaning-lt env e h.0),
    ),
  )
  sign_extend_means (BvExpr.const c) n h k =
      folded_const n (sign_extended c.size n (const_value c))
        (sext_refines c.size (const_value c) (copy-Represents c.size (const_value c) h) n k)
        (λ env. refl)
  sign_extend_means e n h k = (BvExpr.sext e n, refl, ((h, k), refl, λ env. refl))

  -- `mk_sext` of a well-sized expression to a width that is not smaller returns a well-sized
  -- expression of the new width whose value is, under every assignment of the symbols, the sign
  -- extension of the operand's value.
  pub mk_sext_means :
      (e : BvExpr) (n : ℕ)
      → WellSized e
      → size e ≤ n
      → Builds (mk_sext e n) n (λ env. sign_extended (size e) n (meaning env e))
  unfolding mk_sext
  mk_sext_means e n h k = elim (Bool-cases (n == size e)) [
    | inl same_width ↦
        let at_width : n ≡ size e = ==→eq n (size e) same_width in
        rw (le→leb (size e) n k, same_width)
          (
            e,
            refl,
            (
              h,
              sym at_width,
              λ env.
                  sext-same (size e) (meaning env e)
                  ∙ ap (λ t. sign_extended (size e) t (meaning env e)) (sym at_width),
            ),
          )
    | inr grown ↦ rw (le→leb (size e) n k, grown) (sign_extend_means e n h k)
  ]

  -- `mk_not` of a well-sized expression returns a well-sized expression of the same width whose
  -- value is, under every assignment of the symbols, the complement of the operand's value. A well-
  -- sized expression has no division or remainder, whose width is not set.
  pub mk_not_means :
      (e : BvExpr)
      → WellSized e
      → Builds (mk_not e) (size e) (λ env. 2 ^ size e - 1 - meaning env e)
  unfolding mk_not meaning size WellSized
  mk_not_means (BvExpr.const c) h =
      folded_const c.size (2 ^ c.size - 1 - const_value c)
        (bit_not_refines c.size (const_value c) (copy-Represents c.size (const_value c) h))
        (λ env. refl)
  mk_not_means e h = (BvExpr.not e, refl, (h, refl, λ env. refl))

choose-Means :
    (g : BoolExpr) (t e : BvExpr)
    → WellSizedTest g
    → WellSized t
    → WellSized e
    → size t ≡ size e
    → Means (size t) (λ env. if holds env g then meaning env t else meaning env e) (choose g t e)
unfolding choose meaning size WellSized
choose-Means (BoolExpr.bool_const true) t e hg ht he k = (ht, refl, λ env. refl)
choose-Means (BoolExpr.bool_const false) t e hg ht he k = (he, sym k, λ env. refl)
choose-Means g t e hg ht he k = ((hg, ht, he, k), refl, λ env. refl)

-- `mk_ite` of a well-sized guard and two well-sized expressions of the same width returns a well-
-- sized expression of that width whose value is, under every assignment of the symbols, the value
-- of the first where the guard holds and the value of the second elsewhere. A well-sized expression
-- has no division or remainder, whose width is not set.
pub mk_ite_means :
    (guard : BoolExpr) (iftrue iffalse : BvExpr)
    → WellSizedTest guard
    → WellSized iftrue
    → WellSized iffalse
    → size iftrue ≡ size iffalse
    → Builds
        (mk_ite guard iftrue iffalse)
        (size iftrue)
        (λ env. if holds env guard then meaning env iftrue else meaning env iffalse)
unfolding mk_ite check_size_or_fail
mk_ite_means guard iftrue iffalse hg ht he k =
    rw (sizes_match (size iftrue) (size iffalse) k)
      (choose guard iftrue iffalse, refl, choose-Means guard iftrue iffalse hg ht he k)

module _ ⦃p : Platform⦄ where
  -- `mk_zext` and `mk_sext` of a well-sized expression to a width that is not smaller return well-
  -- sized expressions of the new width whose values are, under every assignment of the symbols,
  -- that of the operand and its sign extension. A well-sized expression has no division or
  -- remainder, whose width is not set.
  pub mk_extensions_mean :
      (e : BvExpr) (n : ℕ)
      → WellSized e
      → size e ≤ n
      → Builds (mk_zext e n) n (λ env. meaning env e)
        × Builds (mk_sext e n) n (λ env. sign_extended (size e) n (meaning env e))
  mk_extensions_mean e n h k = (mk_zext_means e n h k, mk_sext_means e n h k)
