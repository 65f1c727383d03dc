-- ===== src/Tests/Stores.antt =====
-- The store of expr/ExprBuilder.cpp when the negation of a symbol is made twice.
use mathlib.Core.List.{Memᴰ}
use mathlib.Core.List.Memᴰ
use naaz.Base.{
  ℕ, ◌≡◌, refl, sym, subst, inl, inr, ◌⊎◌, Bool-cases, ◌==◌, ==→eq, none, true, false, List, [],
  ◌∷◌, ok, some,
}
use naaz.Platform.Exact.{exact}
use naaz.Expr.{BvExpr}
use naaz.Interning.{
  clone, eq, eq_const, eq_sym, eq_ite, eq_extract, eq_concat, eq_zext, eq_sext, eq_neg, eq_not,
  eq_shl, eq_lshr, eq_ashr, eq_add, eq_mul, eq_sdiv, eq_udiv, eq_srem, eq_urem, eq_and, eq_or,
  eq_xor,
}
use naaz.Interning.Store.{Slot, bucket_at, get_or_create}
use naaz.Interning.Alike.{Known, Alike, Confused}
use naaz.Interning.Canonical.{Table, Held, IsCanonical, Distinct, same_bucket}
use naaz.Interning.Interned.{Interned}
use naaz.Interning.Vectors.{eq-total, Initialised, clone-Initialised}
use naaz.Interning.Interned
use naaz.Interning.Vectors

abbrev negation : BvExpr
negation = BvExpr.neg (BvExpr.sym 0 8)

abbrev kept : Slot BvExpr
kept = record { address = 100; expr = negation; expired = false }

abbrev gone : Slot BvExpr
gone = record { address = 50; expr = BvExpr.sym 0 8; expired = true }

abbrev hash : BvExpr → ℕ
hash e = 7

abbrev table : Table BvExpr
table = (7, gone ∷ kept ∷ []) ∷ []

eq_of_kinds : eq negation (BvExpr.sym 0 8) ≡ ok false
unfolding eq eq_const eq_sym eq_ite eq_extract eq_concat eq_zext eq_sext eq_neg eq_not eq_shl
    eq_lshr eq_ashr eq_add eq_mul eq_sdiv eq_udiv eq_srem eq_urem eq_and eq_or eq_xor
eq_of_kinds = refl

-- the bucket of a hash is that of 7
the_bucket :
    (h : ℕ) (bucket : List (Slot BvExpr))
    → bucket_at table h ≡ some bucket
    → (7 ≡ h) × (gone ∷ kept ∷ [] ≡ bucket)
the_bucket h bucket at_h = elim (Bool-cases (7 == h)) [
  | inl same ↦ (==→eq 7 h same, same_bucket (gone ∷ kept ∷ []) bucket (rw same at at_h))
  | inr differ ↦ let clash : none ≡ some bucket = rw differ at at_h in absurd (cc)
]

table-Distinct : Distinct hash eq Initialised (gone ∷ kept ∷ [])
table-Distinct = (
  λ r m stable.
      subst (λ u. eq u.expr (BvExpr.sym 0 8) ≡ ok false) (sym (Memᴰ.eq_of_singleton m)) eq_of_kinds,
  (λ r m. absurd (Memᴰ.not-nil m), tt),
)

table-IsCanonical : IsCanonical hash eq Initialised table
table-IsCanonical h bucket at_h =
    let (key, all) = the_bucket h bucket at_h in
    (λ s m stable. key, subst (Distinct hash eq Initialised) all table-Distinct)

table-Known : (s : Slot BvExpr) → Held table 7 s → Known (λ i. 8) s.expr
table-Known s (bucket, at_h, m) =
    let (_, all) = the_bucket 7 bucket at_h in
    elim (Memᴰ.cases_cons (subst (Memᴰ s) (sym all) m)) [
      | inl same ↦ subst (λ u. Known (λ i. 8) u.expr) (sym same) refl
      | inr k ↦ subst (λ u. Known (λ i. 8) u.expr) (sym (Memᴰ.eq_of_singleton k)) tt
    ]

get_or_create-Interned_example :
    (r : Slot BvExpr) × (after : Table BvExpr) × (get_or_create hash eq (clone 3) 200 negation table
      ≡ ok (r, after))
    × Interned hash eq eq-total
        (clone 3)
        Initialised
        (clone-Initialised 3)
        200
        negation
        table
        r
        after
get_or_create-Interned_example =
    Interned.get_or_create-Interned hash eq eq-total (clone 3) Initialised (clone-Initialised 3) 200
      negation table table-IsCanonical

shifts-Confused_example :
    (r : Slot BvExpr) × (one two : Table BvExpr) × (get_or_create hash eq
        (clone 3)
        200
        (BvExpr.lshr (BvExpr.sym 0 8) (BvExpr.sym 1 8))
        []
      ≡ ok (r, one))
    × (r.expr ≡ BvExpr.lshr (BvExpr.sym 0 8) (BvExpr.sym 1 8))
    × (get_or_create hash eq (clone 3) 300 (BvExpr.ashr (BvExpr.sym 0 8) (BvExpr.sym 1 8)) one
        ≡ ok (r, two))
shifts-Confused_example =
    Vectors.shifts-Confused hash 3 200 300 (BvExpr.sym 0 8) (BvExpr.sym 1 8) [] refl refl

get_or_create-Alike_example :
    (r : Slot BvExpr) × (after : Table BvExpr) × (get_or_create hash eq (clone 3) 200 negation table
      ≡ ok (r, after))
    × IsCanonical hash eq Initialised after
    × Held after 7 r
    × (r.expired ≡ false)
    × (Alike negation r.expr ⊎ Confused negation r.expr)
get_or_create-Alike_example =
    Vectors.get_or_create-Alike hash (λ i. 8) 3 200 negation table table-IsCanonical tt tt
      table-Known
