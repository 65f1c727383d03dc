-- ===== src/Constraints/Filed.antt =====
-- The indices of a ConstraintManager: each constraint stands under each of its symbols, and the symbols
-- of a constraint depend on one another.
use mathlib.Core.List.{Memᴰ}
use mathlib.Core.List.Memᴰ
use naaz.Base.{ℕ, ◌≡◌, refl, sym, subst, inl, inr, ◌⊎◌, ◌↔◌, Bool-cases}
use naaz.Base.{◌==◌, ==→eq, eq→ne, List, [], ◌∷◌}
use naaz.Expr.{BoolExpr}
use naaz.Builder.Relational.{insert}
use naaz.Constraints.{
  union, test_inputs, at, change, ConstraintManager, empty_manager, file_under, add,
}
use naaz.Constraints.Sets.{Memᴰ-union, Memᴰ-insert, at-change, at-change_other}

pub record IsFiled (cm : ConstraintManager) : Type 0 where
  pub filed :
      (c : BoolExpr) (i : ℕ)
      → Memᴰ c cm.constraints
      → Memᴰ i (test_inputs c)
      → Memᴰ c (at cm.constraint_map i)
  pub linked :
      (c : BoolExpr) (i j : ℕ)
      → Memᴰ c cm.constraints
      → Memᴰ i (test_inputs c)
      → Memᴰ j (test_inputs c)
      → Memᴰ j (at cm.dependencies i)
  pub filed_only :
      (c : BoolExpr) (i : ℕ)
      → Memᴰ c (at cm.constraint_map i)
      → Memᴰ c cm.constraints × Memᴰ i (test_inputs c)
  pub linked_only :
      (i j : ℕ)
      → Memᴰ j (at cm.dependencies i)
      → (c : BoolExpr) × Memᴰ c cm.constraints × Memᴰ i (test_inputs c) × Memᴰ j (test_inputs c)

-- A change at one key adds `New` there.
module _ {A : Type 0} (f : List A → List A) (New : A → Type 0) where
  Memᴰ-change :
      ((x : A) (xs : List A) → Memᴰ x (f xs) ↔ (New x ⊎ Memᴰ x xs))
      → (m : List (ℕ × List A)) (i j : ℕ) (x : A)
      → Memᴰ x (at (change f i m) j) ↔ ((New x × (j ≡ i)) ⊎ Memᴰ x (at m j))
  Memᴰ-change grows m i j x = elim (Bool-cases (i == j)) [
    | inl same ↦
        let key : i ≡ j = ==→eq i j same in
        let value : at (change f i m) j ≡ f (at m j) =
          subst (λ k. at (change f i m) k ≡ f (at m k)) key (at-change f m i) in
        let (forth, back) = grows x (at m j) in
        (
          λ k. elim (forth (subst (Memᴰ x) value k)) [
            | inl new ↦ inl (new, sym key)
            | inr old ↦ inr old
          ],
          λ k.
              subst (Memᴰ x) (sym value)
                (back (elim k [ inl (new, _) ↦ inl new | inr old ↦ inr old ])),
        )
    | inr other ↦
        let value = at-change_other f m i j other in
        (
          λ k. inr (subst (Memᴰ x) value k),
          λ k. elim k [
            | inl (_, same) ↦ absurd (eq→ne i j other (sym same))
            | inr old ↦ subst (Memᴰ x) (sym value) old
          ],
        )
  ]

module _ (addr : BoolExpr → ℕ) (c : BoolExpr) (involved : List ℕ) where
  file_under-constraint_map :
      (syms : List ℕ) (cm : ConstraintManager) (i : ℕ) (d : BoolExpr)
      → Memᴰ d (at (file_under addr c involved syms cm).constraint_map i)
        ↔ (((d ≡ c) × Memᴰ i syms) ⊎ Memᴰ d (at cm.constraint_map i))
  unfolding file_under
  file_under-constraint_map [] cm i d =
      (inr, λ m. elim m [ inl (_, k) ↦ absurd (Memᴰ.not-nil k) | inr k ↦ k ])
  file_under-constraint_map (s ∷ syms) cm i d =
      let (forth, back) = file_under-constraint_map syms _ i d in
      let (out, into) =
        Memᴰ-change (insert addr c) (λ x. x ≡ c) (λ x xs. Memᴰ-insert addr c xs x) cm.constraint_map
          s i d in
      (
        λ m. elim (forth m) [
          | inl (same, k) ↦ inl (same, Memᴰ.tail k)
          | inr k ↦ elim (out k) [ inl (same, here) ↦ inl (same, Memᴰ.head here) | inr l ↦ inr l ]
        ],
        λ m. elim m [
          | inl (same, k) ↦ elim (Memᴰ.cases_cons k) [
            | inl here ↦ back (inr (into (inl (same, here))))
            | inr l ↦ back (inl (same, l))
          ]
          | inr k ↦ back (inr (into (inr k)))
        ],
      )

  file_under-dependencies :
      (syms : List ℕ) (cm : ConstraintManager) (i j : ℕ)
      → Memᴰ j (at (file_under addr c involved syms cm).dependencies i)
        ↔ ((Memᴰ j involved × Memᴰ i syms) ⊎ Memᴰ j (at cm.dependencies i))
  unfolding file_under
  file_under-dependencies [] cm i j =
      (inr, λ m. elim m [ inl (_, k) ↦ absurd (Memᴰ.not-nil k) | inr k ↦ k ])
  file_under-dependencies (s ∷ syms) cm i j =
      let (forth, back) = file_under-dependencies syms _ i j in
      let (out, into) =
        Memᴰ-change (union involved) (λ x. Memᴰ x involved) (λ x xs. Memᴰ-union involved xs x)
          cm.dependencies s i j in
      (
        λ m. elim (forth m) [
          | inl (in_c, k) ↦ inl (in_c, Memᴰ.tail k)
          | inr k ↦ elim (out k) [ inl (in_c, here) ↦ inl (in_c, Memᴰ.head here) | inr l ↦ inr l ]
        ],
        λ m. elim m [
          | inl (in_c, k) ↦ elim (Memᴰ.cases_cons k) [
            | inl here ↦ back (inr (into (inl (in_c, here))))
            | inr l ↦ back (inl (in_c, l))
          ]
          | inr k ↦ back (inr (into (inr k)))
        ],
      )

  file_under-constraints :
      (syms : List ℕ) (cm : ConstraintManager)
      → (file_under addr c involved syms cm).constraints ≡ cm.constraints
  unfolding file_under
  file_under-constraints [] cm = refl
  file_under-constraints (s ∷ syms) cm = file_under-constraints syms _

module _ (addr : BoolExpr → ℕ) (c : BoolExpr) (cm : ConstraintManager) where
  -- The set of constraints after `add` has the new constraint and the old ones.
  pub add-constraints :
      (d : BoolExpr) → Memᴰ d (add addr c cm).constraints ↔ ((d ≡ c) ⊎ Memᴰ d cm.constraints)
  unfolding add
  add-constraints d =
      let same = file_under-constraints addr c (test_inputs c) (test_inputs c) cm in
      let (forth, back) = Memᴰ-insert addr c cm.constraints d in
      (
        λ m. forth (subst (λ l. Memᴰ d (insert addr c l)) same m),
        λ m. subst (λ l. Memᴰ d (insert addr c l)) (sym same) (back m),
      )

  -- Where each constraint stands under each of its symbols and nowhere else, and the recorded
  -- dependencies are those between the symbols of one constraint, both still hold after `add`.
  pub add-IsFiled : IsFiled cm → IsFiled (add addr c cm)
  unfolding add
  add-IsFiled h =
      let by_symbol = file_under-constraint_map addr c (test_inputs c) (test_inputs c) cm in
      let by_link = file_under-dependencies addr c (test_inputs c) (test_inputs c) cm in
      record {
        filed = λ d i m k. (by_symbol i d).1 (elim ((add-constraints d).0 m) [
          | inl new ↦ inl (new, subst (λ e. Memᴰ i (test_inputs e)) new k)
          | inr old ↦ inr (h.filed d i old k)
        ]);
        linked = λ d i j m k l. (by_link i j).1 (elim ((add-constraints d).0 m) [
          | inl new ↦
              inl (
                subst (λ e. Memᴰ j (test_inputs e)) new l,
                subst (λ e. Memᴰ i (test_inputs e)) new k,
              )
          | inr old ↦ inr (h.linked d i j old k l)
        ]);
        filed_only = λ d i m. elim ((by_symbol i d).0 m) [
          | inl (same, k) ↦
              ((add-constraints d).1 (inl same), subst (λ e. Memᴰ i (test_inputs e)) (sym same) k)
          | inr old ↦ let (is, k) = h.filed_only d i old in ((add-constraints d).1 (inr is), k)
        ];
        linked_only = λ i j m. elim ((by_link i j).0 m) [
          | inl (k, l) ↦ (c, (add-constraints c).1 (inl refl), l, k)
          | inr old ↦
              let (d, is, k, l) = h.linked_only i j old in (d, (add-constraints d).1 (inr is), k, l)
        ];
      }

pub empty-IsFiled : IsFiled empty_manager
unfolding empty_manager
empty-IsFiled = record {
  filed = λ c i m. absurd (Memᴰ.not-nil m);
  linked = λ c i j m. absurd (Memᴰ.not-nil m);
  filed_only = λ c i m. absurd (Memᴰ.not-nil m);
  linked_only = λ i j m. absurd (Memᴰ.not-nil m);
}
