-- ===== src/Interning/Interned.antt =====
-- `get_or_create` of expr/ExprBuilder.cpp on a table with distinct live objects.
use mathlib.Core.List.{Memᴰ}
use mathlib.Core.List.Memᴰ
use naaz.Base.{
  ℕ, ◌≡◌, refl, sym, ◌∙◌, ap, subst, inl, inr, ◌⊎◌, Bool, true, false, Bool-cases, Option-cases,
}
use naaz.Base.{◌==◌, ==→eq, ==_refl, List, [], ◌∷◌, ◌++◌, none, some, Outcome, ok}
use naaz.Interning.Store.{Slot, bucket_at, put, remove_expired, search, settle, get_or_create}
use naaz.Interning.Canonical.{
  Table, Held, IsCanonical, Distinct, same_bucket, bucket_at-put, bucket_at-put_other,
  remove_expired-Memᴰ, Memᴰ-remove_expired, remove_expired-Distinct, append-Distinct,
}

module _ {A : Type 0} (hash : A → ℕ) (eq : A → A → Outcome Bool) where
  -- The loop finds a slot, or there is none to find.
  data Searched (e : A) (bucket : List (Slot A)) : Type 0 where
    missing :
        search hash eq e bucket ≡ ok none
        → ((s : Slot A) → Memᴰ s bucket → eq e s.expr ≡ ok false)
        → Searched e bucket
    present :
        (r : Slot A)
        → search hash eq e bucket ≡ ok (some r)
        → Memᴰ r bucket
        → eq e r.expr ≡ ok true
        → Searched e bucket

  module _ (total : (a b : A) → (v : Bool) × (eq a b ≡ ok v)) (clone : A → A) (Stable : A → Type 0)
      (keeps : (e : A) → Stable (clone e) → clone e ≡ e) where
    search_all : (e : A) (bucket : List (Slot A)) → Searched e bucket
    unfolding search
    search_all e [] = missing refl (λ s m. absurd (Memᴰ.not-nil m))
    search_all e (s ∷ bucket) =
        let (v, value) = total e s.expr in
        elim (Bool-cases v) [
          | inl is ↦
              let hit : eq e s.expr ≡ ok true = value ∙ ap ok is in
              present s (rw (search, hit) refl) (Memᴰ.head refl) hit
          | inr is ↦
              let miss : eq e s.expr ≡ ok false = value ∙ ap ok is in
              elim (search_all e bucket) [
                | missing found none_there ↦ missing (rw (search, miss) found) (λ t m.
                    elim (Memᴰ.cases_cons m) [
                      | inl same ↦ ap (λ u. eq e u.expr) same ∙ miss
                      | inr k ↦ none_there t k
                    ])
                | present r found m hit ↦ present r (rw (search, miss) found) (Memᴰ.tail m) hit
              ]
        ]

    -- The result of `get_or_create` for `e` where the table was `before`.
    pub record Interned (fresh : ℕ) (e : A) (before : Table A) (r : Slot A) (after : Table A)
        : Type 0 where
      pub canonical : IsCanonical hash eq Stable after
      pub held : Held after (hash e) r
      pub live : r.expired ≡ false
      pub found_or_new :
          ((eq e r.expr ≡ ok true) × Held before (hash e) r)
          ⊎ ((r.expr ≡ clone e)
              × (r.address ≡ fresh)
              × ((s : Slot A)
                  → Held before (hash e) s
                  → s.expired ≡ false
                  → eq e s.expr ≡ ok false))
      pub others : (h : ℕ) (s : Slot A) → Held before h s → s.expired ≡ false → Held after h s

    put-IsCanonical :
        (m : Table A) (h : ℕ) (old new : List (Slot A))
        → bucket_at m h ≡ some old
        → IsCanonical hash eq Stable m
        → ((s : Slot A) → Memᴰ s new → Stable s.expr → hash s.expr ≡ h)
        → Distinct hash eq Stable new
        → IsCanonical hash eq Stable (put m h new)
    put-IsCanonical m h old new found c placed d k bucket at_k = elim (Bool-cases (h == k)) [
      | inl same ↦
          let key : h ≡ k = ==→eq h k same in
          let is : new ≡ bucket = same_bucket new bucket (
            sym (bucket_at-put m h old new found)
            ∙ subst (λ n. bucket_at (put m h new) n ≡ some bucket) (sym key) at_k) in
          (
            λ s in_bucket stable. placed s (subst (Memᴰ s) (sym is) in_bucket) stable ∙ key,
            subst (Distinct hash eq Stable) is d,
          )
      | inr differ ↦ c k bucket (sym (bucket_at-put_other m h k new differ) ∙ at_k)
    ]

    put-Held :
        (m : Table A) (h : ℕ) (old new : List (Slot A)) (k : ℕ) (s : Slot A)
        → bucket_at m h ≡ some old
        → (Memᴰ s old → Memᴰ s new)
        → Held m k s
        → Held (put m h new) k s
    put-Held m h old new k s found keeps (bucket, at_k, in_bucket) = elim (Bool-cases (h == k)) [
      | inl same ↦
          let key : h ≡ k = ==→eq h k same in
          let is : bucket ≡ old =
            same_bucket bucket old (sym at_k ∙ ap (bucket_at m) (sym key) ∙ found) in
          (
            new,
            subst (λ n. bucket_at (put m h new) n ≡ some new) key (bucket_at-put m h old new found),
            keeps (subst (Memᴰ s) is in_bucket),
          )
      | inr differ ↦ (bucket, bucket_at-put_other m h k new differ ∙ at_k, in_bucket)
    ]

    abbrev made : ℕ → A → Slot A
    made fresh e = record { address = fresh; expr = clone e; expired = false }

    in_old :
        (e : A) (m : Table A) (old : List (Slot A))
        → bucket_at m (hash e) ≡ some old
        → (s : Slot A) → Held m (hash e) s
        → Memᴰ s old
    in_old e m old at_e s (bucket, at_bucket, in_bucket) =
        subst (Memᴰ s) (same_bucket bucket old (sym at_bucket ∙ at_e)) in_bucket

    first_Interned :
        (fresh : ℕ) (e : A) (m : Table A)
        → IsCanonical hash eq Stable m
        → bucket_at m (hash e) ≡ none
        → Interned fresh e m (made fresh e) ((hash e, made fresh e ∷ []) ∷ m)
    first_Interned fresh e m c absent = record {
      canonical = λ h bucket at_h. elim (Bool-cases (hash e == h)) [
        | inl same ↦
            let is : made fresh e ∷ [] ≡ bucket = same_bucket _ bucket (rw same at at_h) in
            (
              λ s in_bucket stable.
                  let in_one : Memᴰ s (made fresh e ∷ []) = subst (Memᴰ s) (sym is) in_bucket in
                  let is_made : s ≡ made fresh e = Memᴰ.eq_of_singleton in_one in
                  ap (λ u. hash u.expr) is_made
                  ∙ ap hash (keeps e (subst (λ u. Stable u.expr) is_made stable))
                  ∙ ==→eq (hash e) h same,
              subst (Distinct hash eq Stable) is (λ s n. absurd (Memᴰ.not-nil n), tt),
            )
        | inr differ ↦ c h bucket (rw differ at at_h)
      ];
      held = (made fresh e ∷ [], rw (==_refl (hash e)) refl, Memᴰ.head refl);
      live = refl;
      found_or_new = inr (refl, refl, λ s h alive. absurd (none_held s h));
      others = λ h s is alive. moved h s is;
    }
      where
        none_held : (s : Slot A) → Held m (hash e) s → ⊥
        none_held s (bucket, at_e, _) = let clash : none ≡ some bucket = sym absent ∙ at_e in cc

        moved : (h : ℕ) (s : Slot A) → Held m h s → Held ((hash e, made fresh e ∷ []) ∷ m) h s
        moved h s (bucket, at_h, in_bucket) = elim (Bool-cases (hash e == h)) [
          | inl same ↦
              absurd
                (none_held s (bucket, ap (bucket_at m) (==→eq (hash e) h same) ∙ at_h, in_bucket))
          | inr differ ↦ (bucket, rw differ at_h, in_bucket)
        ]

    module _ (fresh : ℕ) (e : A) (m : Table A) (old : List (Slot A))
        (c : IsCanonical hash eq Stable m) (at_e : bucket_at m (hash e) ≡ some old) where
      kept_hash : (s : Slot A) → Memᴰ s (remove_expired old) → Stable s.expr → hash s.expr ≡ hash e
      kept_hash s in_kept = (c (hash e) old at_e).0 s (remove_expired-Memᴰ old s in_kept).0

      kept_Distinct : Distinct hash eq Stable (remove_expired old)
      kept_Distinct = remove_expired-Distinct hash eq Stable old (c (hash e) old at_e).1

      known_Interned :
          (r : Slot A)
          → Memᴰ r (remove_expired old)
          → eq e r.expr ≡ ok true
          → Interned fresh e m r (put m (hash e) (remove_expired old))
      known_Interned r in_kept hit = record {
        canonical =
            put-IsCanonical m (hash e) old (remove_expired old) at_e c kept_hash kept_Distinct;
        held =
            (remove_expired old, bucket_at-put m (hash e) old (remove_expired old) at_e, in_kept);
        live = (remove_expired-Memᴰ old r in_kept).1;
        found_or_new = inl (hit, (old, at_e, (remove_expired-Memᴰ old r in_kept).0));
        others = λ h s is alive.
            put-Held m (hash e) old (remove_expired old) h s at_e
              (λ k. Memᴰ-remove_expired old s k alive) is;
      }

      new_Interned :
          ((s : Slot A) → Memᴰ s (remove_expired old) → eq e s.expr ≡ ok false)
          → Interned fresh e m
              (made fresh e)
              (put m (hash e) (remove_expired old ++ made fresh e ∷ []))
      new_Interned none_there = record {
        canonical =
            put-IsCanonical m (hash e) old (remove_expired old ++ made fresh e ∷ []) at_e c
              (λ s in_new. elim (Memᴰ.append_cases (remove_expired old) in_new) [
                | inl k ↦ kept_hash s k
                | inr k ↦ λ stable.
                    let is_made : s ≡ made fresh e = Memᴰ.eq_of_singleton k in
                    ap (λ u. hash u.expr) is_made
                    ∙ ap hash (keeps e (subst (λ u. Stable u.expr) is_made stable))
              ])
              (append-Distinct hash eq Stable (remove_expired old) (made fresh e) kept_Distinct
                (λ s m stable. ap (λ a. eq a s.expr) (keeps e stable) ∙ none_there s m));
        held = (
          remove_expired old ++ made fresh e ∷ [],
          bucket_at-put m (hash e) old _ at_e,
          Memᴰ.append_right (remove_expired old) (Memᴰ.head refl),
        );
        live = refl;
        found_or_new = inr (
          refl,
          refl,
          λ s is alive. none_there s (Memᴰ-remove_expired old s (in_old e m old at_e s is) alive),
        );
        others = λ h s is alive.
            put-Held m (hash e) old (remove_expired old ++ made fresh e ∷ []) h s at_e
              (λ k. Memᴰ.append_left _ (Memᴰ-remove_expired old s k alive)) is;
      }

    -- Where each stable object stands in the bucket of its hash, `eq` takes no stable one for an
    -- earlier one of the bucket, and `eq` always returns, `get_or_create` keeps this, returns a
    -- live object of the bucket that `eq` takes for the expression, or a clone at a new address
    -- where no live object is one, and loses no live object. Where the clone of an expression is
    -- stable, it has the same fields.
    pub get_or_create-Interned :
        (fresh : ℕ) (e : A) (m : Table A)
        → IsCanonical hash eq Stable m
        → (r : Slot A) × (after : Table A) × (get_or_create hash eq clone fresh e m ≡ ok (r, after))
          × Interned fresh e m r after
    unfolding get_or_create settle
    get_or_create-Interned fresh e m c = elim (Option-cases (bucket_at m (hash e))) [
      | inl absent ↦ (
        made fresh e,
        (hash e, made fresh e ∷ []) ∷ m,
        rw (get_or_create, absent) refl,
        first_Interned fresh e m c absent,
      )
      | inr (old, at_e) ↦ elim (search_all e (remove_expired old)) [
        | missing result none_there ↦ (
          made fresh e,
          put m (hash e) (remove_expired old ++ made fresh e ∷ []),
          rw (get_or_create, at_e, result) refl,
          new_Interned fresh e m old c at_e none_there,
        )
        | present r result in_kept hit ↦ (
          r,
          put m (hash e) (remove_expired old),
          rw (get_or_create, at_e, result) refl,
          known_Interned fresh e m old c at_e r in_kept hit,
        )
      ]
    ]
