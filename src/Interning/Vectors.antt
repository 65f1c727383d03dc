-- ===== src/Interning/Vectors.antt =====
-- The store of expr/ExprBuilder.cpp with the `eq` of the bit-vector classes.
use naaz.Base.{ℕ, ◌≡◌, refl, sym, ◌∙◌, ◌⊎◌, ◌==◌, Bool, false, Bool-cases, inl, inr, ok}
use naaz.Platform.{Platform}
use naaz.BvConst.{BvConst, check_size_or_die}
use naaz.BvConst.Compare
use naaz.Expr.{BvExpr, size, same, same_refl}
use naaz.Interning.{
  clone, eq, eq_const, eq_sym, eq_ite, eq_extract, eq_concat, eq_zext, eq_sext, eq_neg, eq_not,
  eq_shl, eq_lshr, eq_ashr, eq_add, eq_mul, eq_sdiv, eq_udiv, eq_srem, eq_urem, eq_and, eq_or,
  eq_xor,
}
use naaz.Base.{==_refl, List, [], ◌∷◌, none}
use naaz.Interning.Store.{Slot, bucket_at, remove_expired, search, settle, get_or_create}
use naaz.Interning.Alike.{Known, Alike, Confused, eq-Alike, alike}
use naaz.Interning.Canonical.{Table, Held, IsCanonical}
use naaz.Interning.Interned.{get_or_create-Interned}

module _ ⦃p : Platform⦄ where
  consts-total : (c c' : BvConst) → (v : Bool) × (eq (BvExpr.const c) (BvExpr.const c') ≡ ok v)
  unfolding eq eq_const eq_sym eq_ite eq_extract eq_concat eq_zext eq_sext eq_neg eq_not eq_shl
      eq_lshr eq_ashr eq_add eq_mul eq_sdiv eq_udiv eq_srem eq_urem eq_and eq_or eq_xor Compare.eq
      check_size_or_die
  consts-total c c' = elim (Bool-cases (c.size == c'.size)) [
    | inl is ↦ rw is (_, refl)
    | inr differ ↦ rw differ (false, refl)
  ]

  -- `eq` of any two expressions returns.
  pub eq-total : (a b : BvExpr) → (v : Bool) × (eq a b ≡ ok v)
  unfolding eq eq_const eq_sym eq_ite eq_extract eq_concat eq_zext eq_sext eq_neg eq_not eq_shl
      eq_lshr eq_ashr eq_add eq_mul eq_sdiv eq_udiv eq_srem eq_urem eq_and eq_or eq_xor
  eq-total (BvExpr.const c) (BvExpr.const c') = consts-total c c'
  eq-total (BvExpr.sym id n) (BvExpr.sym id' n') = (_, refl)
  eq-total (BvExpr.ite g t e) (BvExpr.ite g' t' e') = (_, refl)
  eq-total (BvExpr.extract e high low) (BvExpr.extract e' high' low') = (_, refl)
  eq-total (BvExpr.concat els) (BvExpr.concat els') = (_, refl)
  eq-total (BvExpr.zext e n) (BvExpr.zext e' n') = (_, refl)
  eq-total (BvExpr.sext e n) (BvExpr.sext e' n') = (_, refl)
  eq-total (BvExpr.shl e v) (BvExpr.shl e' v') = (_, refl)
  eq-total (BvExpr.lshr e v) (BvExpr.lshr e' v') = (_, refl)
  eq-total (BvExpr.ashr e v) (BvExpr.ashr e' v') = (_, refl)
  eq-total (BvExpr.lshr e v) (BvExpr.ashr e' v') = (_, refl)
  eq-total (BvExpr.ashr e v) (BvExpr.lshr e' v') = (_, refl)
  eq-total (BvExpr.sdiv l r m) (BvExpr.sdiv l' r' m') = (_, refl)
  eq-total (BvExpr.sdiv l r m) (BvExpr.srem l' r' m') = (_, refl)
  eq-total (BvExpr.udiv l r m) (BvExpr.udiv l' r' m') = (_, refl)
  eq-total (BvExpr.udiv l r m) (BvExpr.urem l' r' m') = (_, refl)
  eq-total (BvExpr.srem l r m) (BvExpr.srem l' r' m') = (_, refl)
  eq-total (BvExpr.srem l r m) (BvExpr.sdiv l' r' m') = (_, refl)
  eq-total (BvExpr.urem l r m) (BvExpr.urem l' r' m') = (_, refl)
  eq-total (BvExpr.urem l r m) (BvExpr.udiv l' r' m') = (_, refl)
  eq-total (BvExpr.neg e) (BvExpr.neg e') = (_, refl)
  eq-total (BvExpr.not e) (BvExpr.not e') = (_, refl)
  eq-total (BvExpr.and els) (BvExpr.and els') = (_, refl)
  eq-total (BvExpr.or els) (BvExpr.or els') = (_, refl)
  eq-total (BvExpr.xor els) (BvExpr.xor els') = (_, refl)
  eq-total (BvExpr.add els) (BvExpr.add els') = (_, refl)
  eq-total (BvExpr.mul els) (BvExpr.mul els') = (_, refl)
  eq-total a b = (false, refl)

-- The four classes whose constructors leave `m_size` unset are not among these.
abbrev pub Initialised : BvExpr → Type 0
Initialised (BvExpr.sdiv l r m_size) = ⊥
Initialised (BvExpr.udiv l r m_size) = ⊥
Initialised (BvExpr.srem l r m_size) = ⊥
Initialised (BvExpr.urem l r m_size) = ⊥
Initialised e = Unit

clone-eq : (junk : ℕ) (e : BvExpr) → Initialised e → clone junk e ≡ e
unfolding clone
clone-eq junk (BvExpr.sdiv l r m_size) h = absurd h
clone-eq junk (BvExpr.udiv l r m_size) h = absurd h
clone-eq junk (BvExpr.srem l r m_size) h = absurd h
clone-eq junk (BvExpr.urem l r m_size) h = absurd h
clone-eq junk e h = refl

pub clone-Initialised : (junk : ℕ) (e : BvExpr) → Initialised (clone junk e) → clone junk e ≡ e
unfolding clone
clone-Initialised junk (BvExpr.sdiv l r m_size) h = absurd h
clone-Initialised junk (BvExpr.udiv l r m_size) h = absurd h
clone-Initialised junk (BvExpr.srem l r m_size) h = absurd h
clone-Initialised junk (BvExpr.urem l r m_size) h = absurd h
clone-Initialised junk e h = refl

module _ ⦃p : Platform⦄ where
  -- Where each object stands in the bucket of its hash among distinct ones, symbols have the widths
  -- they were made with and constants fit theirs, `get_or_create` of an expression that is itself
  -- no division or remainder returns a live object of the bucket with the same value, under every
  -- assignment of the symbols, and the same width, or, for a right shift, the other right shift of
  -- the same operands, whose class has the same kind; and the table is again such a one. What is
  -- said of the table leaves divisions and remainders aside, whose clones have another width.
  pub get_or_create-Alike :
      (hash : BvExpr → ℕ) (widths : ℕ → ℕ) (junk fresh : ℕ) (e : BvExpr) (m : Table BvExpr)
      → IsCanonical hash eq Initialised m
      → Initialised e
      → Known widths e
      → ((s : Slot BvExpr) → Held m (hash e) s → Known widths s.expr)
      → (r : Slot BvExpr) × (after : Table BvExpr) × (get_or_create hash eq (clone junk) fresh e m
          ≡ ok (r, after))
        × IsCanonical hash eq Initialised after
        × Held after (hash e) r
        × (r.expired ≡ false)
        × (Alike e r.expr ⊎ Confused e r.expr)
  get_or_create-Alike hash widths junk fresh e m c set known all =
      let (r, after, returned, is) =
        get_or_create-Interned hash eq eq-total (clone junk) Initialised (clone-Initialised junk)
          fresh e m c in
      (
        r,
        after,
        returned,
        is.canonical,
        is.held,
        is.live,
        elim is.found_or_new [
          | inl (hit, held) ↦ eq-Alike widths e r.expr known (all r held) hit
          | inr (same, _, _) ↦ inl (alike (sym (same ∙ clone-eq junk e set)))
        ],
      )

  -- Where the hashes of the two are equal and the store has no bucket for it, `get_or_create` of an
  -- arithmetic shift, after that of the logical shift of the same operands, returns the object of
  -- the logical shift.
  pub shifts-Confused :
      (hash : BvExpr → ℕ) (junk first second : ℕ) (e v : BvExpr) (m : Table BvExpr)
      → hash (BvExpr.ashr e v) ≡ hash (BvExpr.lshr e v)
      → bucket_at m (hash (BvExpr.lshr e v)) ≡ none
      → (r : Slot BvExpr) × (one two : Table BvExpr) × (get_or_create hash eq
            (clone junk)
            first
            (BvExpr.lshr e v)
            m
          ≡ ok (r, one))
        × (r.expr ≡ BvExpr.lshr e v)
        × (get_or_create hash eq (clone junk) second (BvExpr.ashr e v) one ≡ ok (r, two))
  unfolding get_or_create settle search remove_expired clone eq eq_ashr
  shifts-Confused hash junk first second e v m hashes absent =
      let r : Slot BvExpr = record { address = first; expr = BvExpr.lshr e v; expired = false } in
      let bucket : List (Slot BvExpr) = r ∷ [] in
      (
        r,
        (hash (BvExpr.lshr e v), bucket) ∷ m,
        (hash (BvExpr.lshr e v), bucket) ∷ m,
        rw (get_or_create, absent) refl,
        refl,
        rw
            (
              get_or_create,
              hashes,
              ==_refl (hash (BvExpr.lshr e v)),
              ==_refl (size e),
              same_refl e,
              same_refl v,
              settle,
              hashes,
              ==_refl (hash (BvExpr.lshr e v)),
            )
            refl,
      )
