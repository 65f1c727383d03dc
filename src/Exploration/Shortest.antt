-- ===== src/Exploration/Shortest.antt =====
-- `explore` with BFSExplorationTechnique: the queue is two levels of the tree of executions.
use mathlib.Core.List.{Memᴰ, append-nil, append_assoc}
use mathlib.Core.List.Memᴰ
use naaz.Base.{ℕ, zero, suc, ◌<◌, ◌≤◌, ◌≡◌, refl, sym, ◌∙◌, ap, subst, inl, inr, ◌⊎◌, arith}
use naaz.Base.{List, [], ◌∷◌, ◌++◌, none, some, Outcome, ok, false, Bool-cases, ltb, ltb→lt, ltb→ge}
use naaz.Exploration.{Engine, Explored, found, finished, explore_from, explore}
use naaz.Exploration.Kept.{results, IsTarget, IsKept, kept, Memᴰ-kept, kept-Memᴰ, NoTarget}
use naaz.Exploration.Answers.{round_cases, stops, goes, fails, explore_from-none, explore_from-some}
use naaz.Exploration.Policies.{bfs, bfs_add-Permᴰ}
use naaz.Exploration.Techniques.{bfs_add}
use naaz.Exploration.Vectors.{pop_back, pop_back-append, pop_back_cases, Memᴰ-Permᴰ, Permᴰ-sym}

module _ {S : Type 0} (e : Engine S) (find avoid : List ℕ) (initial : S) where
  abbrev pub next_states : S → List S
  next_states s = (results e s).active

  -- `VisitedIn n s`: an execution reaches `s` after `n` blocks.
  pub data VisitedIn : ℕ → S → Type 0 where
    here : VisitedIn 0 initial
    step :
        {n : ℕ} {s t : S}
        → VisitedIn n s
        → Memᴰ t (next_states s)
        → IsKept e find avoid t
        → VisitedIn (suc n) t

  first_level : (s : S) → VisitedIn 0 s → s ≡ initial
  first_level s here = refl

  -- `s` was handed out, and its successors that are kept are in `later`.
  abbrev pub IsDone : List S → S → Type 0
  IsDone later s =
      NoTarget e find avoid (next_states s)
      × ((t : S) → Memᴰ t (next_states s) → IsKept e find avoid t → Memᴰ t later)

  -- `now` are states of level `n`, and `later` of the next.
  pub record Levels (n : ℕ) (now later : List S) : Type 0 where
    pub now_level : (s : S) → Memᴰ s now → VisitedIn n s
    pub later_level : (s : S) → Memᴰ s later → VisitedIn (suc n) s
    pub before : (m : ℕ) (s : S) → m < n → VisitedIn m s → NoTarget e find avoid (next_states s)
    pub level : (s : S) → VisitedIn n s → Memᴰ s now ⊎ IsDone later s

  pub Levels-start : Levels 0 (initial ∷ []) []
  Levels-start = record {
    now_level = λ s m. subst (VisitedIn 0) (sym (Memᴰ.eq_of_singleton m)) here;
    later_level = λ s m. absurd (Memᴰ.not-nil m);
    before = λ m s h. absurd (omega arith);
    level = λ s v. inl (Memᴰ.head (first_level s v));
  }

  now_empty :
      (n : ℕ) (later : List S) → Levels n [] later → (s : S) → VisitedIn n s → IsDone later s
  now_empty n later h s v = elim (h.level s v) [ inl m ↦ absurd (Memᴰ.not-nil m) | inr d ↦ d ]

  in_later :
      (n : ℕ) (later : List S)
      → Levels n [] later
      → (t : S) → VisitedIn (suc n) t
      → Memᴰ t later ⊎ IsDone [] t
  in_later n later h t (step {s = s} v m is) = inl ((now_empty n later h s v).1 t m is)

  level_of : (m n : ℕ) → m < suc n → ltb m n ≡ false → m ≡ n
  level_of m n less high = omega (arith, ltb→ge m n high)

  pub Levels-shift : (n : ℕ) (later : List S) → Levels n [] later → Levels (suc n) later []
  Levels-shift n later h = record {
    now_level = h.later_level;
    later_level = λ s m. absurd (Memᴰ.not-nil m);
    before = λ m s less v. elim (Bool-cases (ltb m n)) [
      | inl lower ↦ h.before m s (ltb→lt m n lower) v
      | inr same ↦ (now_empty n later h s (subst (λ k. VisitedIn k s) (level_of m n less same) v)).0
    ];
    level = in_later n later h;
  }

  pub Levels-round :
      (n : ℕ) (now later : List S) (s : S)
      → NoTarget e find avoid (next_states s)
      → Levels n (now ++ s ∷ []) later
      → Levels n now (bfs_add (kept e find avoid (next_states s)) later)
  Levels-round n now later s clear h = record {
    now_level = λ u m. h.now_level u (Memᴰ.append_left _ m);
    later_level = λ u m. elim (Memᴰ.append_cases _ (Memᴰ-Permᴰ (bfs_add-Permᴰ _ later) m)) [
      | inl new ↦
          let (successor, is) = Memᴰ-kept e find avoid (next_states s) u new in
          step s_level successor is
      | inr old ↦ h.later_level u old
    ];
    before = h.before;
    level = λ u v. elim (h.level u v) [
      | inr (clear_u, all) ↦ inr (clear_u, λ t m is. add_old t (all t m is))
      | inl m ↦ elim (Memᴰ.append_cases now m) [
        | inl k ↦ inl k
        | inr k ↦ inr (subst (IsDone added) (sym (Memᴰ.eq_of_singleton k)) s_done)
      ]
    ];
  }
    where
      added : List S
      added = bfs_add (kept e find avoid (next_states s)) later

      add_old : (t : S) → Memᴰ t later → Memᴰ t added
      add_old t m = Memᴰ-Permᴰ (Permᴰ-sym (bfs_add-Permᴰ _ later)) (Memᴰ.append_right _ m)

      s_level : VisitedIn n s
      s_level = h.now_level s (Memᴰ.append_right now (Memᴰ.head refl))

      s_done : IsDone added s
      s_done = (
        clear,
        λ t m is.
            Memᴰ-Permᴰ (Permᴰ-sym (bfs_add-Permᴰ _ later))
              (Memᴰ.append_left _ (kept-Memᴰ e find avoid _ t m is)),
      )

  -- The queue from its front: the later level, then the level that is being handed out.
  record Queue (q : List S) : Type 0 where
    depth : ℕ
    now : List S
    later : List S
    queue : q ≡ later ++ now
    levels : Levels depth now later

  -- The state at the back is of the level that is being handed out.
  data Back (q : List S) : Type 0 where
    none_left : pop_back q ≡ none → Back q
    taken :
        (n : ℕ) (s : S) (now later : List S)
        → pop_back q ≡ some (s, later ++ now)
        → Levels n (now ++ s ∷ []) later
        → Back q

  last_of : (q : List S) → Queue q → Back q
  last_of q h = elim (pop_back_cases h.now) [
    | inr (s, rest, split, _) ↦
        taken h.depth s rest h.later
          (ap pop_back
              (h.queue ∙ ap (λ l. h.later ++ l) split ∙ sym (append_assoc h.later rest (s ∷ [])))
            ∙ pop_back-append (h.later ++ rest) s)
          (subst (λ l. Levels h.depth l h.later) split h.levels)
    | inl (empty, _) ↦
        let levels : Levels (suc h.depth) h.later [] =
          Levels-shift h.depth h.later (subst (λ l. Levels h.depth l h.later) empty h.levels) in
        let all : q ≡ h.later = h.queue ∙ ap (λ l. h.later ++ l) empty ∙ append-nil h.later in
        elim (pop_back_cases q) [
          | inl (_, no_back) ↦ none_left no_back
          | inr (s, rest, split, back) ↦
              taken (suc h.depth) s rest [] back
                (subst (λ l. Levels (suc h.depth) l []) (sym all ∙ split) levels)
        ]
  ]

  pub bfs_add-append : (states xs ys : List S) → bfs_add states (xs ++ ys) ≡ bfs_add states xs ++ ys
  unfolding bfs_add
  bfs_add-append [] xs ys = refl
  bfs_add-append (s ∷ states) xs ys = bfs_add-append states (s ∷ xs) ys

  -- `t` is a target, and no execution meets a target in fewer blocks.
  abbrev pub IsNearest : S → Type 0
  IsNearest t =
      (n : ℕ) × ((s : S) × VisitedIn n s × Memᴰ t (next_states s) × IsTarget e find avoid t)
      × ((m : ℕ) (s' t' : S)
          → VisitedIn m s'
          → Memᴰ t' (next_states s')
          → IsTarget e find avoid t'
          → n ≤ m)

  before_target :
      (n : ℕ) (now later : List S)
      → Levels n now later
      → (m : ℕ) (s t : S) → VisitedIn m s
      → Memᴰ t (next_states s)
      → IsTarget e find avoid t
      → n ≤ m
  before_target n now later h m s t v successor (target, sat) = elim (Bool-cases (ltb m n)) [
    | inr high ↦ ltb→ge m n high
    | inl low ↦ let unsat = h.before m s (ltb→lt m n low) v t successor target in absurd (cc)
  ]

  pub same_ok : (xs ys : List S) → Outcome.ok xs ≡ ok ys → xs ≡ ys
  same_ok xs ys h = cc

  same_found : (t u : S) (xs ys : List S) → found t xs ≡ found u ys → t ≡ u
  same_found t u xs ys h = cc

  explore_from-IsNearest :
      (fuel : ℕ) (given : List S) (q : List S)
      → Queue q
      → (t : S) (exited : List S) → explore_from e bfs fuel find avoid q given ≡ found t exited
      → IsNearest t
  unfolding explore_from
  explore_from-IsNearest zero given q h t exited ends =
      let clash : Explored.out_of_fuel ≡ found t exited = ends in absurd (cc)
  explore_from-IsNearest (suc fuel) given q h t exited ends = elim (last_of q h) [
    | none_left no_back ↦
        let clash : finished given ≡ found t exited =
          sym (explore_from-none e bfs find avoid fuel given q no_back) ∙ ends in
        absurd (cc)
    | taken n s now later back levels ↦
        let round = explore_from-some e bfs find avoid fuel given q (later ++ now) s back in
        elim (round_cases e bfs find avoid s (later ++ now) given) [
          | stops u runs m is hits ↦
              let same : u ≡ t = same_found u t _ exited (sym (round ∙ hits _) ∙ ends) in
              subst IsNearest same (
                n,
                (s, levels.now_level s (Memᴰ.append_right now (Memᴰ.head refl)), m, is),
                before_target n (now ++ s ∷ []) later levels,
              )
          | goes next runs clear added bag on ↦
              let split : bfs_add (kept e find avoid (next_states s)) later ++ now ≡ next =
                sym (bfs_add-append (kept e find avoid (next_states s)) later now)
                ∙ same_ok _ next added in
              explore_from-IsNearest fuel _ next
                (record {
                  depth = n;
                  now = now;
                  later = bfs_add (kept e find avoid (next_states s)) later;
                  queue = sym split;
                  levels = Levels-round n now later s clear levels;
                })
                t exited (sym (round ∙ on _) ∙ ends)
          | fails stuck over ↦
              let clash : Explored.fault ≡ found t exited = sym (round ∙ over _) ∙ ends in
              absurd (cc)
        ]
  ]

  -- With breadth first search, a state that `explore` returns is a target that the fewest blocks
  -- reach.
  pub bfs-IsNearest :
      (fuel : ℕ) (t : S) (exited : List S)
      → explore e bfs fuel find avoid initial ≡ found t exited
      → IsNearest t
  unfolding explore
  bfs-IsNearest fuel =
      explore_from-IsNearest fuel [] (initial ∷ [])
        (record { depth = 0; now = initial ∷ []; later = []; queue = refl; levels = Levels-start })
