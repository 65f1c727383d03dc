-- ===== src/Constraints/Closure.antt =====
-- `get_dependencies` as a worklist loop: it ends, and it gives the closure of the dependencies.
use mathlib.Core.List.{Memᴰ}
use mathlib.Core.List.Memᴰ
use naaz.Base.{
  ℕ, zero, suc, ◌+◌, ◌<◌, ◌≡◌, refl, sym, ◌∙◌, ap, subst, inl, inr, ◌⊎◌, ◌↔◌, arith, Bool-cases,
}
use naaz.Base.{false, List, [], ◌∷◌, ◌++◌, some, length, length-append}
use naaz.Constraints.{insert_sym, at, push_new, close, ConstraintManager, get_dependencies}
use naaz.Constraints.Waiting.{Memᴰ-push_new, length-push_new, waiting, waiting_less}
use naaz.Constraints.Sets.{Memᴰ-insert_sym, has→Memᴰ}
use naaz.Exploration.{has}
use naaz.Exploration.Vectors.{pop_back_cases}

-- the symbols that `start` reaches through the dependencies
pub data Depends (deps : List (ℕ × List ℕ)) (start : List ℕ) : ℕ → Type 0 where
  direct : {i : ℕ} → Memᴰ i start → Depends deps start i
  next : {i j : ℕ} → Depends deps start i → Memᴰ j (at deps i) → Depends deps start j

module _ (deps : List (ℕ × List ℕ)) where
  -- One round of the loop: the queue is over, or its last symbol is known, or it is new.
  data Round (queue res : List ℕ) : Type 0 where
    over : queue ≡ [] → ((fuel : ℕ) → close (suc fuel) deps queue res ≡ some res) → Round queue res
    known :
        (i : ℕ) (rest : List ℕ)
        → queue ≡ rest ++ i ∷ []
        → Memᴰ i res
        → ((fuel : ℕ) → close (suc fuel) deps queue res ≡ close fuel deps rest res)
        → Round queue res
    fresh :
        (i : ℕ) (rest : List ℕ)
        → queue ≡ rest ++ i ∷ []
        → has res i ≡ false
        → ((fuel : ℕ)
            → close (suc fuel) deps queue res
              ≡ close fuel deps (push_new (insert_sym i res) (at deps i) rest) (insert_sym i res))
        → Round queue res

  queue_cases : (queue res : List ℕ) → Round queue res
  unfolding close
  queue_cases queue res = elim (pop_back_cases queue) [
    | inl (empty, back) ↦ over empty (λ fuel. rw (close, back) refl)
    | inr (i, rest, split, back) ↦ elim (Bool-cases (has res i)) [
      | inl is ↦ known i rest split (has→Memᴰ res i is) (λ fuel. rw (close, back, is) refl)
      | inr is ↦ fresh i rest split is (λ fuel. rw (close, back, is) refl)
    ]
  ]

  close_ends :
      (fuel : ℕ) (queue res : List ℕ)
      → length queue + waiting deps res < fuel
      → (r : List ℕ) × (close fuel deps queue res ≡ some r)
  close_ends zero queue res h = absurd (omega arith)
  close_ends (suc fuel) queue res h = elim (queue_cases queue res) [
    | over empty ends ↦ (res, ends fuel)
    | known i rest split is goes ↦
        let (r, ends) =
          close_ends fuel rest res (omega (arith, ap length split, length-append rest (i ∷ []))) in
        (r, goes fuel ∙ ends)
    | fresh i rest split is goes ↦
        let pushed = length-push_new (insert_sym i res) (at deps i) rest in
        let (r, ends) =
          close_ends fuel (push_new (insert_sym i res) (at deps i) rest) (insert_sym i res) (
            omega (
              arith,
              ap length split,
              length-append rest (i ∷ []),
              pushed,
              waiting_less i deps res is,
            )) in
        (r, goes fuel ∙ ends)
  ]

  module _ (start : List ℕ) where
    record Inv (queue res : List ℕ) : Type 0 where
      begins : (i : ℕ) → Memᴰ i start → Memᴰ i res ⊎ Memᴰ i queue
      sound : (i : ℕ) → Memᴰ i res ⊎ Memᴰ i queue → Depends deps start i
      closed : (i j : ℕ) → Memᴰ i res → Memᴰ j (at deps i) → Memᴰ j res ⊎ Memᴰ j queue

    Inv-begin : Inv start []
    Inv-begin = record {
      begins = λ i m. inr m;
      sound = λ i m. elim m [ inl k ↦ absurd (Memᴰ.not-nil k) | inr k ↦ direct k ];
      closed = λ i j m. absurd (Memᴰ.not-nil m);
    }

    Inv-known :
        (i : ℕ) (rest queue res : List ℕ)
        → queue ≡ rest ++ i ∷ []
        → Memᴰ i res
        → Inv queue res
        → Inv rest res
    Inv-known i rest queue res split is h = record {
      begins = λ j m. moved j (h.begins j m);
      sound = λ j m. elim m [
        | inl k ↦ h.sound j (inl k)
        | inr k ↦ h.sound j (inr (subst (Memᴰ j) (sym split) (Memᴰ.append_left _ k)))
      ];
      closed = λ j l m k. moved l (h.closed j l m k);
    }
      where
        moved : (j : ℕ) → Memᴰ j res ⊎ Memᴰ j queue → Memᴰ j res ⊎ Memᴰ j rest
        moved j (inl m) = inl m
        moved j (inr m) = elim (Memᴰ.append_cases rest (subst (Memᴰ j) split m)) [
          | inl k ↦ inr k
          | inr k ↦ inl (subst (λ l. Memᴰ l res) (sym (Memᴰ.eq_of_singleton k)) is)
        ]

    Inv-fresh :
        (i : ℕ) (rest queue res : List ℕ)
        → queue ≡ rest ++ i ∷ []
        → Inv queue res
        → Inv (push_new (insert_sym i res) (at deps i) rest) (insert_sym i res)
    Inv-fresh i rest queue res split h = record {
      begins = λ j m. moved j (h.begins j m);
      sound = λ j m. elim m [
        | inl k ↦ in_res j k
        | inr k ↦ elim ((Memᴰ-push_new added (at deps i) rest j).0 k) [
          | inl l ↦ next i_depends l
          | inr l ↦ h.sound j (inr (in_queue j (inl l)))
        ]
      ];
      closed = λ j l m k. elim ((Memᴰ-insert_sym i res j).0 m) [
        | inl same ↦
            let of_i : Memᴰ l (at deps i) = subst (λ n. Memᴰ l (at deps n)) same k in
            (Memᴰ-push_new added (at deps i) rest l).2 of_i
        | inr old ↦ moved l (h.closed j l old k)
      ];
    }
      where
        added : List ℕ
        added = insert_sym i res

        in_queue : (j : ℕ) → Memᴰ j rest ⊎ (j ≡ i) → Memᴰ j queue
        in_queue j (inl m) = subst (Memᴰ j) (sym split) (Memᴰ.append_left _ m)
        in_queue j (inr same) = subst (Memᴰ j) (sym split) (Memᴰ.append_right rest (Memᴰ.head same))

        i_depends : Depends deps start i
        i_depends = h.sound i (inr (in_queue i (inr refl)))

        in_res : (j : ℕ) → Memᴰ j added → Depends deps start j
        in_res j m = elim ((Memᴰ-insert_sym i res j).0 m) [
          | inl same ↦ subst (Depends deps start) (sym same) i_depends
          | inr k ↦ h.sound j (inl k)
        ]

        moved :
            (j : ℕ)
            → Memᴰ j res ⊎ Memᴰ j queue
            → Memᴰ j added ⊎ Memᴰ j (push_new added (at deps i) rest)
        moved j (inl m) = inl ((Memᴰ-insert_sym i res j).1 (inr m))
        moved j (inr m) = elim (Memᴰ.append_cases rest (subst (Memᴰ j) split m)) [
          | inl k ↦ inr ((Memᴰ-push_new added (at deps i) rest j).1 k)
          | inr k ↦ inl ((Memᴰ-insert_sym i res j).1 (inl (Memᴰ.eq_of_singleton k)))
        ]

    all_in :
        (queue res : List ℕ)
        → queue ≡ []
        → Inv queue res
        → (i : ℕ) → Depends deps start i
        → Memᴰ i res
    all_in queue res empty h i d = go i d
      where
        settled : (j : ℕ) → Memᴰ j res ⊎ Memᴰ j queue → Memᴰ j res
        settled j (inl m) = m
        settled j (inr m) = absurd (Memᴰ.not-nil (subst (Memᴰ j) empty m))

        go : (j : ℕ) → Depends deps start j → Memᴰ j res
        go j (direct m) = settled j (h.begins j m)
        go j (next {i = k} d m) = settled j (h.closed k j (go k d) m)

    same_some : (xs ys : List ℕ) → some xs ≡ some ys → xs ≡ ys
    same_some xs ys h = cc

    close-Depends :
        (fuel : ℕ) (queue res r : List ℕ)
        → Inv queue res
        → close fuel deps queue res ≡ some r
        → (i : ℕ) → Memᴰ i r ↔ Depends deps start i
    unfolding close
    close-Depends zero queue res r h ends i = absurd (cc)
    close-Depends (suc fuel) queue res r h ends i = elim (queue_cases queue res) [
      | over empty stops ↦
          let same : res ≡ r = same_some res r (sym (stops fuel) ∙ ends) in
          subst (λ l. Memᴰ i l ↔ Depends deps start i) same
            ((λ m. h.sound i (inl m)), all_in queue res empty h i)
      | known j rest split is goes ↦
          close-Depends fuel rest res r (Inv-known j rest queue res split is h)
            (sym (goes fuel) ∙ ends) i
      | fresh j rest split is goes ↦
          close-Depends fuel _ (insert_sym j res) r (Inv-fresh j rest queue res split h)
            (sym (goes fuel) ∙ ends) i
    ]

-- With more fuel than the symbols given and the recorded dependencies together, `get_dependencies`
-- returns, and its result has exactly the symbols that those given reach through the dependencies.
pub get_dependencies-Depends :
    (fuel : ℕ) (cm : ConstraintManager) (involved_inputs : List ℕ)
    → length involved_inputs + waiting cm.dependencies [] < fuel
    → (r : List ℕ) × (get_dependencies fuel cm involved_inputs ≡ some r)
      × ((i : ℕ) → Memᴰ i r ↔ Depends cm.dependencies involved_inputs i)
unfolding get_dependencies
get_dependencies-Depends fuel cm involved_inputs enough =
    let (r, ends) = close_ends cm.dependencies fuel involved_inputs [] enough in
    (
      r,
      ends,
      close-Depends cm.dependencies involved_inputs fuel involved_inputs [] r
          (Inv-begin cm.dependencies involved_inputs) ends,
    )
