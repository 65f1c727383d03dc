-- ===== src/Constraints/Waiting.antt =====
-- What a round of `get_dependencies` queues, and the dependencies that are still to be followed.
use mathlib.Core.List.{Memᴰ}
use mathlib.Core.List.Memᴰ
use naaz.Base.{ℕ, ◌+◌, ◌≤◌, ◌≡◌, refl, sym, ◌∙◌, ap, subst, inl, inr, ◌⊎◌, arith, Bool-cases}
use naaz.Base.{◌==◌, ==→eq, if◌then◌else◌, true, false, List, [], ◌∷◌, ◌++◌, length, length-append}
use naaz.Constraints.{insert_sym, at, push_new}
use naaz.Constraints.Sets.{Memᴰ-insert_sym, has→Memᴰ, Memᴰ→has}
use naaz.Exploration.{has}

pub Memᴰ-push_new :
    (res nexts queue : List ℕ) (i : ℕ)
    → (Memᴰ i (push_new res nexts queue) → Memᴰ i nexts ⊎ Memᴰ i queue)
      × (Memᴰ i queue → Memᴰ i (push_new res nexts queue))
      × (Memᴰ i nexts → Memᴰ i res ⊎ Memᴰ i (push_new res nexts queue))
unfolding push_new
Memᴰ-push_new res [] queue i = (inr, λ m. m, λ m. absurd (Memᴰ.not-nil m))
Memᴰ-push_new res (n ∷ nexts) queue i = elim (Bool-cases (has res n)) [
  | inl known ↦
      let (out, back, new) = Memᴰ-push_new res nexts queue i in
      rw (push_new, known)
        (
          λ m. elim (out m) [ inl k ↦ inl (Memᴰ.tail k) | inr k ↦ inr k ],
          back,
          λ m. elim (Memᴰ.cases_cons m) [
            | inl s ↦ inl (subst (λ k. Memᴰ k res) (sym s) (has→Memᴰ res n known))
            | inr k ↦ new k
          ],
        )
  | inr fresh ↦
      let (out, back, new) = Memᴰ-push_new res nexts (queue ++ n ∷ []) i in
      rw (push_new, fresh)
        (
          λ m. elim (out m) [
            | inl k ↦ inl (Memᴰ.tail k)
            | inr k ↦ elim (Memᴰ.append_cases queue k) [
              | inl l ↦ inr l
              | inr l ↦ inl (Memᴰ.head (Memᴰ.eq_of_singleton l))
            ]
          ],
          λ m. back (Memᴰ.append_left _ m),
          λ m. elim (Memᴰ.cases_cons m) [
            | inl s ↦ inr (back (Memᴰ.append_right queue (Memᴰ.head s)))
            | inr k ↦ new k
          ],
        )
]

pub length-push_new :
    (res nexts queue : List ℕ) → length (push_new res nexts queue) ≤ length nexts + length queue
unfolding push_new
length-push_new res [] queue = omega arith
length-push_new res (n ∷ nexts) queue = elim (Bool-cases (has res n)) [
  | inl known ↦ rw (push_new, known) (omega (arith, length-push_new res nexts queue))
  | inr fresh ↦
      rw (push_new, fresh)
        (omega (arith, length-push_new res nexts (queue ++ n ∷ []), length-append queue (n ∷ [])))
]

-- The dependencies of the symbols that are not in `res` yet.
abbrev pub waiting : List (ℕ × List ℕ) → List ℕ → ℕ
waiting [] res = 0
waiting ((k, v) ∷ deps) res =
    let rest = waiting deps res in if has res k then rest else length v + rest

has-insert_sym : (i j : ℕ) (res : List ℕ) → has res j ≡ true → has (insert_sym i res) j ≡ true
has-insert_sym i j res h =
    Memᴰ→has (insert_sym i res) j ((Memᴰ-insert_sym i res j).1 (inr (has→Memᴰ res j h)))

has-insert_sym_self : (i : ℕ) (res : List ℕ) → has (insert_sym i res) i ≡ true
has-insert_sym_self i res = Memᴰ→has (insert_sym i res) i ((Memᴰ-insert_sym i res i).1 (inl refl))

waiting-insert :
    (i : ℕ) (deps : List (ℕ × List ℕ)) (res : List ℕ)
    → waiting deps (insert_sym i res) ≤ waiting deps res
waiting-insert i [] res = omega arith
waiting-insert i ((k, v) ∷ deps) res = elim (Bool-cases (has res k)) [
  | inl known ↦ rw (known, has-insert_sym i k res known) (waiting-insert i deps res)
  | inr fresh ↦ elim (Bool-cases (has (insert_sym i res) k)) [
    | inl added ↦ rw (fresh, added) (omega (arith, waiting-insert i deps res))
    | inr still ↦ rw (fresh, still) (omega (arith, waiting-insert i deps res))
  ]
]

-- A new symbol's dependencies no longer wait.
pub waiting_less :
    (i : ℕ) (deps : List (ℕ × List ℕ)) (res : List ℕ)
    → has res i ≡ false
    → length (at deps i) + waiting deps (insert_sym i res) ≤ waiting deps res
waiting_less i [] res h = omega arith
waiting_less i ((k, v) ∷ deps) res h = elim (Bool-cases (k == i)) [
  | inl same ↦
      let k_fresh : has res k ≡ false = ap (has res) (==→eq k i same) ∙ h in
      let k_added : has (insert_sym i res) k ≡ true =
        ap (has (insert_sym i res)) (==→eq k i same) ∙ has-insert_sym_self i res in
      rw (same, k_fresh, k_added) (omega (arith, waiting-insert i deps res))
  | inr other ↦ elim (Bool-cases (has res k)) [
    | inl known ↦ rw (other, known, has-insert_sym i k res known) (waiting_less i deps res h)
    | inr fresh ↦ elim (Bool-cases (has (insert_sym i res) k)) [
      | inl added ↦ rw (other, fresh, added) (omega (arith, waiting_less i deps res h))
      | inr still ↦ rw (other, fresh, still) (omega (arith, waiting_less i deps res h))
    ]
  ]
]
