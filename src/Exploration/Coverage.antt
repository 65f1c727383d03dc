-- ===== src/Exploration/Coverage.antt =====
-- executor/CovExplorationTechnique.cpp as a policy: its three queues hold the states between them.
use mathlib.Core.List.{Permᴰ}
use mathlib.Core.List.Permᴰ
use naaz.Base.{ℕ, ◌≡◌, refl, ap₂, subst, inl, inr, Bool-cases}
use naaz.Base.{List, [], ◌∷◌, ◌++◌, none, some, ok}
use naaz.Exploration.{Engine, Policy, has}
use naaz.Exploration.Vectors.{pop_back_cases}
use naaz.Exploration.Policies.{back-Permᴰ}
use naaz.Exploration.Techniques.{CovQueue, context_checksum, cov_start, cov_push, cov_add, cov_next}

-- the states of the three queues
abbrev pub cov_held : {S : Type 0} → CovQueue S → List S
cov_held q = q.new_addr_queue ++ (q.new_context_queue ++ q.other_queue)

module _ {S : Type 0} where
  add_last : (xs : List S) (s : S) → Permᴰ (xs ++ s ∷ []) (s ∷ xs)
  add_last xs s = Permᴰ.append_comm xs (s ∷ [])

  into_first : (xs ys : List S) (s : S) → Permᴰ ((xs ++ s ∷ []) ++ ys) (s ∷ (xs ++ ys))
  into_first xs ys s = Permᴰ.append_right ys (add_last xs s)

  into_rest : (xs ys zs : List S) (s : S) → Permᴰ ys (s ∷ zs) → Permᴰ (xs ++ ys) (s ∷ (xs ++ zs))
  into_rest xs ys zs s h = Permᴰ.trans (Permᴰ.append_left xs h) (Permᴰ.middle s xs zs)

data Next {S : Type 0} (q : CovQueue S) : Type 0 where
  empty : cov_held q ≡ [] → cov_next q ≡ none → Next q
  taken :
      (s : S) (r : CovQueue S)
      → cov_next q ≡ some (s, r)
      → Permᴰ (cov_held q) (s ∷ cov_held r)
      → Next q

queue_cases : {S : Type 0} (q : CovQueue S) → Next q
unfolding cov_next
queue_cases q = elim (pop_back_cases q.new_addr_queue) [
  | inr (s, rest, x, p) ↦
      taken s (record q { new_addr_queue = rest }) (rw (cov_next, p) refl)
        (Permᴰ.append_right _ (back-Permᴰ q.new_addr_queue s rest p))
  | inl (x, p) ↦ elim (pop_back_cases q.new_context_queue) [
    | inr (s, rest, y, k) ↦
        taken s (record q { new_context_queue = rest }) (rw (cov_next, p, k) refl)
          (into_rest q.new_addr_queue _ _ s
            (Permᴰ.append_right q.other_queue (back-Permᴰ q.new_context_queue s rest k)))
    | inl (y, k) ↦ elim (pop_back_cases q.other_queue) [
      | inr (s, rest, z, l) ↦
          taken s (record q { other_queue = rest }) (rw (cov_next, p, k, l) refl)
            (into_rest q.new_addr_queue _ _ s
              (into_rest q.new_context_queue _ _ s (back-Permᴰ q.other_queue s rest l)))
      | inl (z, l) ↦ empty (rw (x, y, z) refl) (rw (cov_next, p, k, l) refl)
    ]
  ]
]

pub cov_none : {S : Type 0} (q : CovQueue S) → cov_next q ≡ none → cov_held q ≡ []
cov_none q h = elim (queue_cases q) [ empty e n ↦ e | taken s r n bag ↦ absurd (cc) ]

pub cov_some :
    {S : Type 0} (q : CovQueue S) (s : S) (r : CovQueue S)
    → cov_next q ≡ some (s, r)
    → Permᴰ (cov_held q) (s ∷ cov_held r)
cov_some q s r h = elim (queue_cases q) [
  | empty e n ↦ absurd (cc)
  | taken s' r' n bag ↦
      let first : s' ≡ s = cc in
      let rest : r' ≡ r = cc in
      subst (λ l. Permᴰ (cov_held q) l) (ap₂ (λ a b. a ∷ cov_held b) first rest) bag
]

module _ {S : Type 0} (e : Engine S) (checksum : List ℕ → ℕ) where
  cov_push-Permᴰ :
      (s : S) (q : CovQueue S) → Permᴰ (cov_held (cov_push e checksum s q)) (s ∷ cov_held q)
  unfolding cov_push
  cov_push-Permᴰ s q = elim (Bool-cases (has q.visited_addrs (e.pc s))) [
    | inr fresh ↦ rw fresh (into_first q.new_addr_queue _ s)
    | inl known ↦ elim (Bool-cases (has q.visited_contexts (context_checksum e checksum s))) [
      | inr fresh ↦
          rw (known, fresh)
            (into_rest q.new_addr_queue _ _ s (into_first q.new_context_queue q.other_queue s))
      | inl seen ↦
          rw (known, seen)
            (into_rest q.new_addr_queue _ _ s
              (into_rest q.new_context_queue _ _ s (add_last q.other_queue s)))
    ]
  ]

  pub cov_add-Permᴰ :
      (states : List S) (q : CovQueue S)
      → Permᴰ (cov_held (cov_add e checksum states q)) (states ++ cov_held q)
  unfolding cov_add
  cov_add-Permᴰ [] q = Permᴰ.refl (cov_held q)
  cov_add-Permᴰ (s ∷ states) q = Permᴰ.trans (cov_add-Permᴰ states (cov_push e checksum s q)) (
      Permᴰ.trans (Permᴰ.append_left states (cov_push-Permᴰ s q))
        (Permᴰ.middle s states (cov_held q)))

  pub cov_start_lem : (s : S) → cov_held (cov_start e checksum s) ≡ s ∷ []
  unfolding cov_start
  cov_start_lem s = refl

  abbrev pub cov : Policy S
  cov = record {
    Queue = CovQueue S;
    held = cov_held;
    start = cov_start e checksum;
    add_actives = λ states q. ok (cov_add e checksum states q);
    get_next = cov_next;
    start_law = cov_start_lem;
    add_law = λ states q. (cov_add e checksum states q, refl, cov_add-Permᴰ states q);
    none_law = cov_none;
    some_law = cov_some;
  }
