-- ===== src/Constraints/Slices.antt =====
-- The constraints that `pi(expr)` leaves out do not matter for the expression.
use mathlib.Core.List.{Memᴰ}
use mathlib.Core.List.Memᴰ
use naaz.Base.{
  ℕ, ◌+◌, ◌<◌, ◌≡◌, refl, sym, ◌∙◌, ap, subst, inl, inr, ◌⊎◌, ◌↔◌, Bool-cases, Bool, true, false,
  ◌||◌,
}
use naaz.Base.{if◌then◌else◌, List, [], ◌∷◌, some, length}
use naaz.Expr.{BoolExpr}
use naaz.Expr.Meaning.{Assignment, holds}
use naaz.Builder.Relational.{insert_all}
use naaz.Constraints.{test_inputs, at, ConstraintManager, collect, mk_bool_and_no_simpl, pi_of}
use naaz.Constraints.Sets.{Memᴰ-insert_all, has→Memᴰ, Memᴰ→has}
use naaz.Constraints.Agree.{test_agree}
use naaz.Constraints.Waiting.{waiting}
use naaz.Constraints.Closure.{Depends, direct, next, get_dependencies-Depends}
use naaz.Constraints.Filed.{IsFiled}
use naaz.Constraints.Conjoined.{AllHold, no_simpl-AllHold}
use naaz.Exploration.{has}

Memᴰ-collect :
    (addr : BoolExpr → ℕ) (map : List (ℕ × List BoolExpr)) (syms : List ℕ) (cs : List BoolExpr)
    (c : BoolExpr)
    → Memᴰ c (collect addr map syms cs) ↔ (((i : ℕ) × Memᴰ i syms × Memᴰ c (at map i)) ⊎ Memᴰ c cs)
unfolding collect
Memᴰ-collect addr map [] cs c =
    (inr, λ m. elim m [ inl (i, k, _) ↦ absurd (Memᴰ.not-nil k) | inr k ↦ k ])
Memᴰ-collect addr map (s ∷ syms) cs c =
    let (forth, back) = Memᴰ-collect addr map syms (insert_all addr (at map s) cs) c in
    let (out, into) = Memᴰ-insert_all addr (at map s) cs c in
    (
      λ m. elim (forth m) [
        | inl (i, k, l) ↦ inl (i, Memᴰ.tail k, l)
        | inr k ↦ elim (out k) [ inl l ↦ inl (s, Memᴰ.head refl, l) | inr l ↦ inr l ]
      ],
      λ m. elim m [
        | inl (i, k, l) ↦ elim (Memᴰ.cases_cons k) [
          | inl same ↦ back (inr (into (inl (subst (λ j. Memᴰ c (at map j)) same l))))
          | inr in_syms ↦ back (inl (i, in_syms, l))
        ]
        | inr k ↦ back (inr (into (inr k)))
      ],
    )

module _ (addr : BoolExpr → ℕ) (cm : ConstraintManager) (involved : List ℕ) where
  -- A constraint with a symbol on which those of the expression depend is collected.
  abbrev pub IsInvolved : BoolExpr → Type 0
  IsInvolved c = (i : ℕ) × Memᴰ i (test_inputs c) × Depends cm.dependencies involved i

  collected :
      (r : List ℕ)
      → IsFiled cm
      → ((i : ℕ) → Memᴰ i r ↔ Depends cm.dependencies involved i)
      → (c : BoolExpr)
      → Memᴰ c (collect addr cm.constraint_map r []) ↔ (Memᴰ c cm.constraints × IsInvolved c)
  collected r h closes c =
      let (out, into) = Memᴰ-collect addr cm.constraint_map r [] c in
      (
        λ m. elim (out m) [
          | inl (i, k, l) ↦ let (is, of_c) = h.filed_only c i l in (is, (i, of_c, (closes i).0 k))
          | inr k ↦ absurd (Memᴰ.not-nil k)
        ],
        λ (is, (i, of_c, d)). into (inl (i, (closes i).1 d, h.filed c i is of_c)),
      )

  -- With enough fuel, `pi(expr)` returns a test that holds, under every assignment, exactly where
  -- all constraints do that have a symbol on which those of the expression depend, where the
  -- indices of the manager are those of its constraints.
  pub pi_of-holds :
      (fuel : ℕ)
      → IsFiled cm
      → length involved + waiting cm.dependencies [] < fuel
      → (p : BoolExpr) × (pi_of addr fuel cm involved ≡ some p)
        × ((env : Assignment)
            → (holds env p ≡ true)
              ↔ ((c : BoolExpr) → Memᴰ c cm.constraints → IsInvolved c → holds env c ≡ true))
  unfolding pi_of
  pi_of-holds fuel h enough =
      let (r, returns, closes) = get_dependencies-Depends fuel cm involved enough in
      let cs : List BoolExpr = collect addr cm.constraint_map r [] in
      (
        mk_bool_and_no_simpl addr cs,
        rw (pi_of, returns) refl,
        λ env. (
          λ p c m is. (no_simpl-AllHold env addr cs).0 p c ((collected r h closes c).1 (m, is)),
          λ all.
              (no_simpl-AllHold env addr cs).1
                (λ c m. let (k, is) = (collected r h closes c).0 m in all c k is),
        ),
      )

-- `env` on the symbols of `r`, and `env'` elsewhere
abbrev merged : List ℕ → Assignment → Assignment → Assignment
merged r env env' i = if has r i then env i else env' i

merged_in : (r : List ℕ) (env env' : Assignment) (i : ℕ) → Memᴰ i r → merged r env env' i ≡ env i
merged_in r env env' i m = rw (Memᴰ→has r i m) refl

merged_out :
    (r : List ℕ) (env env' : Assignment) (i : ℕ) → (Memᴰ i r → ⊥) → merged r env env' i ≡ env' i
merged_out r env env' i out = elim (Bool-cases (has r i)) [
  | inl is ↦ absurd (out (has→Memᴰ r i is))
  | inr is ↦ rw is refl
]

-- whether two sets share a symbol
abbrev meets : List ℕ → List ℕ → Bool
meets r [] = false
meets r (i ∷ syms) = has r i || meets r syms

meets_some : (r syms : List ℕ) → meets r syms ≡ true → (i : ℕ) × Memᴰ i syms × Memᴰ i r
meets_some r [] h = absurd (cc)
meets_some r (i ∷ syms) h = elim (Bool-cases (has r i)) [
  | inl is ↦ (i, Memᴰ.head refl, has→Memᴰ r i is)
  | inr is ↦ let (j, m, k) = meets_some r syms (rw is at h) in (j, Memᴰ.tail m, k)
]

meets_none : (r syms : List ℕ) → meets r syms ≡ false → (i : ℕ) → Memᴰ i syms → Memᴰ i r → ⊥
meets_none r [] h i m k = Memᴰ.not-nil m
meets_none r (j ∷ syms) h i m k = elim (Bool-cases (has r j)) [
  | inl is ↦ let both : true ≡ false = rw is at h in cc
  | inr is ↦ elim (Memᴰ.cases_cons m) [
    | inl same ↦ let known = Memᴰ→has r j (subst (λ l. Memᴰ l r) same k) in cc
    | inr l ↦ meets_none r syms (rw is at h) i l k
  ]
]

same_some : (x y : BoolExpr) → some x ≡ some y → x ≡ y
same_some x y h = cc

module _ (addr : BoolExpr → ℕ) (cm : ConstraintManager) (test : BoolExpr) where
  merged_holds :
      (r : List ℕ)
      → IsFiled cm
      → ((i : ℕ) → Memᴰ i r ↔ Depends cm.dependencies (test_inputs test) i)
      → (env env' : Assignment)
      → ((c : BoolExpr)
          → Memᴰ c cm.constraints
          → IsInvolved addr cm (test_inputs test) c
          → holds env c ≡ true)
      → AllHold env' cm.constraints
      → AllHold (merged r env env') cm.constraints
  merged_holds r h closes env env' slice all c m = elim (Bool-cases (meets r (test_inputs c))) [
    | inl is ↦
        let (i, of_c, in_r) = meets_some r (test_inputs c) is in
        let same : holds (merged r env env') c ≡ holds env c =
          test_agree (merged r env env') env c (λ j k.
            merged_in r env env' j
              ((closes j).1 (next ((closes i).0 in_r) (h.linked c i j m of_c k)))) in
        same ∙ slice c m (i, of_c, (closes i).0 in_r)
    | inr is ↦
        let same : holds (merged r env env') c ≡ holds env' c =
          test_agree (merged r env env') env' c
            (λ j k. merged_out r env env' j (λ in_r. meets_none r (test_inputs c) is j k in_r)) in
        same ∙ all c m
  ]

  -- Where the indices are those of the constraints, all constraints hold under some assignment, and
  -- the `pi` of a test, with enough fuel, holds under another, there is an assignment under which
  -- all constraints hold and the test has the same value as under the second: what `pi(expr)`
  -- leaves out of a query does not change the answer.
  pub pi_of_extends :
      (fuel : ℕ) (p : BoolExpr) (env env' : Assignment)
      → IsFiled cm
      → length (test_inputs test) + waiting cm.dependencies [] < fuel
      → pi_of addr fuel cm (test_inputs test) ≡ some p
      → holds env p ≡ true
      → AllHold env' cm.constraints
      → (both : Assignment) × AllHold both cm.constraints × (holds both test ≡ holds env test)
  pi_of_extends fuel p env env' h enough returns slice all =
      let (r, _, closes) = get_dependencies-Depends fuel cm (test_inputs test) enough in
      let (q, value, means) = pi_of-holds addr cm (test_inputs test) fuel h enough in
      let same : q ≡ p = same_some q p (sym value ∙ returns) in
      (
        merged r env env',
        merged_holds r h closes env env' ((means env).0 (ap (holds env) same ∙ slice)) all,
        test_agree (merged r env env') env test
            (λ i m. merged_in r env env' i ((closes i).1 (direct m))),
      )
