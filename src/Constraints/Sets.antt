-- ===== src/Constraints/Sets.antt =====
-- The members of the sets that solver/ConstraintManager.cpp builds.
use mathlib.Core.List.{Memᴰ}
use mathlib.Core.List.Memᴰ
use naaz.Base.{ℕ, ◌≡◌, refl, sym, ◌∙◌, ap, inl, inr, ◌⊎◌, ◌↔◌, true, false, Bool-cases}
use naaz.Base.{◌==◌, ==→eq, ==_refl, eq→ne, ltb, List, [], ◌∷◌}
use naaz.Expr.{BoolExpr, same_bool, same_bool→eq}
use naaz.Builder.Relational.{insert, insert_all}
use naaz.Constraints.{insert_sym, union, at, change}
use naaz.Exploration.{has}

-- a list of insertions
abbrev Grows : {A : Type 0} → A → List A → List A → Type 0
Grows e xs ys = (x : _) → Memᴰ x ys ↔ ((x ≡ e) ⊎ Memᴰ x xs)

module _ {A : Type 0} where
  head_adds : (e : A) (xs : List A) → Grows e xs (e ∷ xs)
  head_adds e xs x = (Memᴰ.cases_cons, λ h. elim h [ inl s ↦ Memᴰ.head s | inr m ↦ Memᴰ.tail m ])

  known_adds : (e y : A) (xs : List A) → y ≡ e → Grows e (y ∷ xs) (y ∷ xs)
  known_adds e y xs same x = (inr, λ h. elim h [ inl s ↦ Memᴰ.head (s ∙ sym same) | inr m ↦ m ])

  tail_adds : (e y : A) (xs ys : List A) → Grows e xs ys → Grows e (y ∷ xs) (y ∷ ys)
  tail_adds e y xs ys h x = (
    λ m. elim (Memᴰ.cases_cons m) [
      | inl s ↦ inr (Memᴰ.head s)
      | inr k ↦ elim ((h x).0 k) [ inl s ↦ inl s | inr l ↦ inr (Memᴰ.tail l) ]
    ],
    λ m. elim m [
      | inl s ↦ Memᴰ.tail ((h x).1 (inl s))
      | inr k ↦ elim (Memᴰ.cases_cons k) [
        | inl s ↦ Memᴰ.head s
        | inr l ↦ Memᴰ.tail ((h x).1 (inr l))
      ]
    ],
  )

pub Memᴰ-insert_sym : (i : ℕ) (xs : List ℕ) → Grows i xs (insert_sym i xs)
unfolding insert_sym
Memᴰ-insert_sym i [] = head_adds i []
Memᴰ-insert_sym i (x ∷ xs) = elim (Bool-cases (x == i)) [
  | inl known ↦ rw (insert_sym, known) (known_adds i x xs (==→eq x i known))
  | inr new ↦ elim (Bool-cases (ltb i x)) [
    | inl first ↦ rw (insert_sym, new, first) (head_adds i (x ∷ xs))
    | inr later ↦ rw (insert_sym, new, later) (tail_adds i x xs _ (Memᴰ-insert_sym i xs))
  ]
]

pub Memᴰ-union : (syms res : List ℕ) (x : ℕ) → Memᴰ x (union syms res) ↔ (Memᴰ x syms ⊎ Memᴰ x res)
unfolding union
Memᴰ-union [] res x = (inr, λ h. elim h [ inl m ↦ absurd (Memᴰ.not-nil m) | inr m ↦ m ])
Memᴰ-union (i ∷ syms) res x =
    let rest = Memᴰ-union syms (insert_sym i res) x in
    let one = Memᴰ-insert_sym i res x in
    (
      λ m. elim (rest.0 m) [
        | inl k ↦ inl (Memᴰ.tail k)
        | inr k ↦ elim (one.0 k) [ inl s ↦ inl (Memᴰ.head s) | inr l ↦ inr l ]
      ],
      λ m. elim m [
        | inl k ↦ elim (Memᴰ.cases_cons k) [
          | inl s ↦ rest.1 (inr (one.1 (inl s)))
          | inr l ↦ rest.1 (inl l)
        ]
        | inr k ↦ rest.1 (inr (one.1 (inr k)))
      ],
    )

module _ (addr : BoolExpr → ℕ) where
  pub Memᴰ-insert : (e : BoolExpr) (xs : List BoolExpr) → Grows e xs (insert addr e xs)
  unfolding insert
  Memᴰ-insert e [] = head_adds e []
  Memᴰ-insert e (x ∷ xs) = elim (Bool-cases (same_bool x e)) [
    | inl known ↦ rw (insert, known) (known_adds e x xs (same_bool→eq x e known))
    | inr new ↦ elim (Bool-cases (ltb (addr e) (addr x))) [
      | inl first ↦ rw (insert, new, first) (head_adds e (x ∷ xs))
      | inr later ↦ rw (insert, new, later) (tail_adds e x xs _ (Memᴰ-insert e xs))
    ]
  ]

  pub Memᴰ-insert_all :
      (els exprs : List BoolExpr) (x : BoolExpr)
      → Memᴰ x (insert_all addr els exprs) ↔ (Memᴰ x els ⊎ Memᴰ x exprs)
  unfolding insert_all
  Memᴰ-insert_all [] exprs x = (inr, λ h. elim h [ inl m ↦ absurd (Memᴰ.not-nil m) | inr m ↦ m ])
  Memᴰ-insert_all (e ∷ els) exprs x =
      let rest = Memᴰ-insert_all els (insert addr e exprs) x in
      let one = Memᴰ-insert e exprs x in
      (
        λ m. elim (rest.0 m) [
          | inl k ↦ inl (Memᴰ.tail k)
          | inr k ↦ elim (one.0 k) [ inl s ↦ inl (Memᴰ.head s) | inr l ↦ inr l ]
        ],
        λ m. elim m [
          | inl k ↦ elim (Memᴰ.cases_cons k) [
            | inl s ↦ rest.1 (inr (one.1 (inl s)))
            | inr l ↦ rest.1 (inl l)
          ]
          | inr k ↦ rest.1 (inr (one.1 (inr k)))
        ],
      )

pub has→Memᴰ : (xs : List ℕ) (i : ℕ) → has xs i ≡ true → Memᴰ i xs
has→Memᴰ [] i h = absurd (cc)
has→Memᴰ (x ∷ xs) i h = elim (Bool-cases (x == i)) [
  | inl same ↦ Memᴰ.head (sym (==→eq x i same))
  | inr other ↦ Memᴰ.tail (has→Memᴰ xs i (rw other at h))
]

pub Memᴰ→has : (xs : List ℕ) (i : ℕ) → Memᴰ i xs → has xs i ≡ true
Memᴰ→has [] i m = absurd (Memᴰ.not-nil m)
Memᴰ→has (x ∷ xs) i m = elim (Bool-cases (x == i)) [
  | inl same ↦ rw same refl
  | inr other ↦ elim (Memᴰ.cases_cons m) [
    | inl s ↦ absurd (eq→ne x i other (sym s))
    | inr k ↦ rw other (Memᴰ→has xs i k)
  ]
]

module _ {A : Type 0} (f : List A → List A) where
  pub at-change : (m : List (ℕ × List A)) (i : ℕ) → at (change f i m) i ≡ f (at m i)
  at-change [] i = rw (==_refl i) refl
  at-change ((k, v) ∷ m) i = elim (Bool-cases (k == i)) [
    | inl same ↦ rw (same, same) refl
    | inr other ↦ rw (other, other) (at-change m i)
  ]

  pub at-change_other :
      (m : List (ℕ × List A)) (i j : ℕ) → (i == j) ≡ false → at (change f i m) j ≡ at m j
  at-change_other [] i j h = rw h refl
  at-change_other ((k, v) ∷ m) i j h = elim (Bool-cases (k == i)) [
    | inl same ↦
        let differ : (k == j) ≡ false = ap (λ l. l == j) (==→eq k i same) ∙ h in
        rw (same, differ) refl
    | inr other ↦ elim (Bool-cases (k == j)) [
      | inl here ↦ rw (other, here) refl
      | inr there ↦ rw (other, there) (at-change_other m i j h)
    ]
  ]
