-- ===== src/Interning/Canonical.antt =====
-- `get_or_create` keeps at most one live object among those that `eq` takes for one.
use mathlib.Core.List.{Memᴰ}
use mathlib.Core.List.Memᴰ
use naaz.Base.{ℕ, ◌≡◌, refl, sym, ◌∙◌, ap, subst, inl, inr, Bool, true, false, Bool-cases}
use naaz.Base.{◌==◌, ==→eq, if◌then◌else◌, List, [], ◌∷◌, ◌++◌, some, Outcome, ok}
use naaz.Interning.Store.{Slot, bucket_at, put, remove_expired, collect_garbage}

abbrev pub Table : Type 0 → Type 0
Table A = List (ℕ × List (Slot A))

module _ {A : Type 0} where
  -- A slot stands in the bucket of a hash.
  abbrev pub Held : Table A → ℕ → Slot A → Type 0
  Held m_exprs h s = (bucket : List (Slot A)) × (bucket_at m_exprs h ≡ some bucket) × Memᴰ s bucket

  pub same_bucket : (xs ys : List (Slot A)) → some xs ≡ some ys → xs ≡ ys
  same_bucket xs ys h = cc

  pub bucket_at-put :
      (m : Table A) (h : ℕ) (old new : List (Slot A))
      → bucket_at m h ≡ some old
      → bucket_at (put m h new) h ≡ some new
  bucket_at-put [] h old new found = absurd (cc)
  bucket_at-put ((k, v) ∷ m) h old new found = elim (Bool-cases (k == h)) [
    | inl same ↦ rw (same, same) refl
    | inr other ↦ rw (other, other) (bucket_at-put m h old new (rw other at found))
  ]

  pub bucket_at-put_other :
      (m : Table A) (h k : ℕ) (new : List (Slot A))
      → (h == k) ≡ false
      → bucket_at (put m h new) k ≡ bucket_at m k
  bucket_at-put_other [] h k new differ = refl
  bucket_at-put_other ((l, v) ∷ m) h k new differ = elim (Bool-cases (l == h)) [
    | inl same ↦
        let not_here : (l == k) ≡ false = ap (λ n. n == k) (==→eq l h same) ∙ differ in
        rw (same, not_here) refl
    | inr other ↦ elim (Bool-cases (l == k)) [
      | inl here ↦ rw (other, here) refl
      | inr there ↦ rw (other, there) (bucket_at-put_other m h k new differ)
    ]
  ]

  gone_step :
      (s : Slot A) (bucket : List (Slot A))
      → s.expired ≡ true
      → remove_expired (s ∷ bucket) ≡ remove_expired bucket
  unfolding remove_expired
  gone_step s bucket h = ap (λ b. if b then remove_expired bucket else s ∷ remove_expired bucket) h

  live_step :
      (s : Slot A) (bucket : List (Slot A))
      → s.expired ≡ false
      → remove_expired (s ∷ bucket) ≡ s ∷ remove_expired bucket
  unfolding remove_expired
  live_step s bucket h = ap (λ b. if b then remove_expired bucket else s ∷ remove_expired bucket) h

  pub remove_expired-Memᴰ :
      (bucket : List (Slot A)) (s : Slot A)
      → Memᴰ s (remove_expired bucket)
      → Memᴰ s bucket × (s.expired ≡ false)
  unfolding remove_expired
  remove_expired-Memᴰ [] s m = absurd (Memᴰ.not-nil m)
  remove_expired-Memᴰ (t ∷ bucket) s m = elim (Bool-cases t.expired) [
    | inl gone ↦
        let (k, live) = remove_expired-Memᴰ bucket s (subst (Memᴰ s) (gone_step t bucket gone) m) in
        (Memᴰ.tail k, live)
    | inr alive ↦ elim (Memᴰ.cases_cons (subst (Memᴰ s) (live_step t bucket alive) m)) [
      | inl same ↦ (Memᴰ.head same, ap (λ u. u.expired) same ∙ alive)
      | inr k ↦ let (l, live) = remove_expired-Memᴰ bucket s k in (Memᴰ.tail l, live)
    ]
  ]

  pub Memᴰ-remove_expired :
      (bucket : List (Slot A)) (s : Slot A)
      → Memᴰ s bucket
      → s.expired ≡ false
      → Memᴰ s (remove_expired bucket)
  Memᴰ-remove_expired [] s m live = absurd (Memᴰ.not-nil m)
  Memᴰ-remove_expired (t ∷ bucket) s m live = elim (Bool-cases t.expired) [
    | inl gone ↦ subst (Memᴰ s) (sym (gone_step t bucket gone)) (elim (Memᴰ.cases_cons m) [
      | inl same ↦
          let expired : s.expired ≡ true = ap (λ u. u.expired) same ∙ gone in
          let clash : true ≡ false = sym expired ∙ live in absurd (cc)
      | inr k ↦ Memᴰ-remove_expired bucket s k live
    ])
    | inr alive ↦ subst (Memᴰ s) (sym (live_step t bucket alive)) (elim (Memᴰ.cases_cons m) [
      | inl same ↦ Memᴰ.head same
      | inr k ↦ Memᴰ.tail (Memᴰ-remove_expired bucket s k live)
    ])
  ]

-- `Stable` says that copying an object changes none of its fields.
module _ {A : Type 0} (hash : A → ℕ) (eq : A → A → Outcome Bool) (Stable : A → Type 0) where
  -- No stable slot is one that `eq` takes for an earlier one.
  abbrev pub Distinct : List (Slot A) → Type 0
  Distinct [] = Unit
  Distinct (s ∷ bucket) =
      ((r : Slot A) → Memᴰ r bucket → Stable r.expr → eq r.expr s.expr ≡ ok false) × Distinct bucket

  -- Each stable expression stands in the bucket of its hash, among distinct ones.
  abbrev pub IsCanonical : Table A → Type 0
  IsCanonical m_exprs =
      (h : ℕ) (bucket : List (Slot A))
      → bucket_at m_exprs h ≡ some bucket
      → ((s : Slot A) → Memᴰ s bucket → Stable s.expr → hash s.expr ≡ h) × Distinct bucket

  pub remove_expired-Distinct :
      (bucket : List (Slot A)) → Distinct bucket → Distinct (remove_expired bucket)
  unfolding remove_expired
  remove_expired-Distinct [] d = d
  remove_expired-Distinct (s ∷ bucket) (new, d) = elim (Bool-cases s.expired) [
    | inl gone ↦ subst Distinct (sym (gone_step s bucket gone)) (remove_expired-Distinct bucket d)
    | inr alive ↦
        subst Distinct (sym (live_step s bucket alive))
          (λ r m. new r (remove_expired-Memᴰ bucket r m).0, remove_expired-Distinct bucket d)
  ]

  pub append-Distinct :
      (bucket : List (Slot A)) (r : Slot A)
      → Distinct bucket
      → ((s : Slot A) → Memᴰ s bucket → Stable r.expr → eq r.expr s.expr ≡ ok false)
      → Distinct (bucket ++ r ∷ [])
  append-Distinct [] r d new = (λ s m. absurd (Memᴰ.not-nil m), tt)
  append-Distinct (s ∷ bucket) r (first, d) new = (
    λ t m. elim (Memᴰ.append_cases bucket m) [
      | inl k ↦ first t k
      | inr k ↦
          subst (λ u. Stable u.expr → eq u.expr s.expr ≡ ok false) (sym (Memᴰ.eq_of_singleton k))
            (new s (Memᴰ.head refl))
    ],
    append-Distinct bucket r d (λ t m. new t (Memᴰ.tail m)),
  )

  collected :
      (m_exprs : Table A) (h : ℕ) (bucket : List (Slot A))
      → bucket_at (collect_garbage m_exprs) h ≡ some bucket
      → (old : List (Slot A)) × (bucket_at m_exprs h ≡ some old) × (remove_expired old ≡ bucket)
  unfolding collect_garbage
  collected [] h bucket at_h = absurd (cc)
  collected ((k, old) ∷ m_exprs) h bucket at_h = elim (Bool-cases (k == h)) [
    | inl same ↦ (old, rw same refl, same_bucket (remove_expired old) bucket (rw same at at_h))
    | inr differ ↦
        let (v, at_v, is) = collected m_exprs h bucket (rw differ at at_h) in
        (v, rw differ at_v, is)
  ]

  pub collect_garbage-IsCanonical :
      (m_exprs : Table A) → IsCanonical m_exprs → IsCanonical (collect_garbage m_exprs)
  collect_garbage-IsCanonical m_exprs c h bucket at_h =
      let (old, at_old, is) = collected m_exprs h bucket at_h in
      let (placed, d) = c h old at_old in
      (
        λ s m. placed s (remove_expired-Memᴰ old s (subst (Memᴰ s) (sym is) m)).0,
        subst Distinct is (remove_expired-Distinct old d),
      )
