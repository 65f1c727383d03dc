-- ===== src/Exploration/Policies.antt =====
-- The techniques of executor/ as policies: each holds the bag of the states that it was given.
use mathlib.Core.List.{Permᴰ, append-nil, append_assoc}
use mathlib.Core.List.Permᴰ
use native.Mathlib.Nat.{div-lt_iff_lt-mul, lt-mul-div-succ}
use naaz.Base.{
  ℕ, zero, suc, ◌+◌, ◌-◌, ◌/◌, ◌<◌, ◌≤◌, ◌≡◌, refl, sym, ◌∙◌, ap₂, subst, arith, inl, inr,
}
use naaz.Base.{List, [], ◌∷◌, ◌++◌, none, some, ok, length, Bool-cases, leb, leb→gt}
use naaz.Exploration.{Policy}
use naaz.Exploration.Vectors.{
  pop_back, pop_back_cases, set, get_elem-length, length-set, set-set-Permᴰ,
}
use naaz.Exploration.Techniques.{
  bfs_add, dfs_add, RandSource, exchange, shuffle_from, shuffle, rand_dfs_add, rand_dfs_next,
}

module _ {S : Type 0} where
  pub bfs_add-Permᴰ : (states active : List S) → Permᴰ (bfs_add states active) (states ++ active)
  unfolding bfs_add
  bfs_add-Permᴰ [] active = Permᴰ.refl active
  bfs_add-Permᴰ (s ∷ states) active =
      Permᴰ.trans (bfs_add-Permᴰ states (s ∷ active)) (Permᴰ.middle s states active)

  pub dfs_add_lem : (states active : List S) → dfs_add states active ≡ active ++ states
  unfolding dfs_add
  dfs_add_lem [] active = sym (append-nil active)
  dfs_add_lem (s ∷ states) active =
      dfs_add_lem states (active ++ s ∷ []) ∙ append_assoc active (s ∷ []) states

  pub dfs_add-Permᴰ : (states active : List S) → Permᴰ (dfs_add states active) (states ++ active)
  dfs_add-Permᴰ states active =
      subst (λ l. Permᴰ l (states ++ active)) (sym (dfs_add_lem states active))
        (Permᴰ.append_comm active states)

  pub back_none : (q : List S) → pop_back q ≡ none → q ≡ []
  back_none q h = elim (pop_back_cases q) [ inl (e, p) ↦ e | inr (y, ys, e, p) ↦ absurd (cc) ]

  back_some : (q : List S) (s : S) (r : List S) → pop_back q ≡ some (s, r) → q ≡ r ++ s ∷ []
  back_some q s r h = elim (pop_back_cases q) [
    | inl (e, p) ↦ absurd (cc)
    | inr (y, ys, e, p) ↦
        let last : y ≡ s = cc in let init : ys ≡ r = cc in e ∙ ap₂ (λ l x. l ++ x ∷ []) init last
  ]

  pub back-Permᴰ : (q : List S) (s : S) (r : List S) → pop_back q ≡ some (s, r) → Permᴰ q (s ∷ r)
  back-Permᴰ q s r h =
      subst (λ l. Permᴰ l (s ∷ r)) (sym (back_some q s r h)) (Permᴰ.append_comm r (s ∷ []))

  abbrev pub bfs : Policy S
  bfs = record {
    Queue = List S;
    held = λ q. q;
    start = λ s. s ∷ [];
    add_actives = λ states q. ok (bfs_add states q);
    get_next = pop_back;
    start_law = λ s. refl;
    add_law = λ states q. (bfs_add states q, refl, bfs_add-Permᴰ states q);
    none_law = back_none;
    some_law = back-Permᴰ;
  }

  abbrev pub dfs : Policy S
  dfs = record {
    Queue = List S;
    held = λ q. q;
    start = λ s. s ∷ [];
    add_actives = λ states q. ok (dfs_add states q);
    get_next = pop_back;
    start_law = λ s. refl;
    add_law = λ states q. (dfs_add states q, refl, dfs_add-Permᴰ states q);
    none_law = back_none;
    some_law = back-Permᴰ;
  }

-- The index that `shuffle` draws is in range.
draw-lt : (r m d : ℕ) → r ≤ m → 0 < d → r / (m / d + 1) < d
draw-lt r m d h k = (div-lt_iff_lt-mul (omega arith)).1 (omega (arith, lt-mul-div-succ m k))

exchange-Permᴰ :
    {S : Type 0} (vec : List S) (i j : ℕ)
    → i ≤ j
    → j < length vec
    → (r : List S) × (exchange vec i j ≡ ok r) × Permᴰ r vec × (length r ≡ length vec)
unfolding exchange
exchange-Permᴰ vec i j le h =
    let (b, at_j) = get_elem-length vec j h in
    let (a, at_i) = get_elem-length vec i (omega arith) in
    rw (exchange, at_j, at_i)
      (
        set (set vec j a) i b,
        refl,
        set-set-Permᴰ vec i j a b le at_i at_j,
        length-set (set vec j a) i b ∙ length-set vec j a,
      )

module _ {S : Type 0} (g : RandSource) where
  shuffle_from-Permᴰ :
      (count i : ℕ) (vec : List S) (calls : ℕ)
      → i + suc count ≡ length vec
      → (r : List S × ℕ) × (shuffle_from g count i vec calls ≡ ok r) × Permᴰ r.0 vec
  unfolding shuffle_from
  shuffle_from-Permᴰ zero i vec calls h = ((vec, calls), refl, Permᴰ.refl vec)
  shuffle_from-Permᴰ (suc count) i vec calls h =
      let d : ℕ = length vec - i in
      let drawn : ℕ = g.rand calls / (g.rand_max / d + 1) in
      let small : drawn < d =
        draw-lt (g.rand calls) g.rand_max d (g.rand_law calls) (omega arith) in
      let (swapped, exchanged, bag, sized) =
        exchange-Permᴰ vec i (i + drawn) (omega arith) (omega arith) in
      let (r, returned, more) =
        shuffle_from-Permᴰ count (i + 1) swapped (calls + 1) (omega (arith, sized)) in
      rw (shuffle_from, exchanged) (r, returned, Permᴰ.trans more bag)

  -- `shuffle` exchanges only elements that exist, whatever numbers up to `RAND_MAX` are drawn, and
  -- its result has the states it was given, each as often.
  pub shuffle-Permᴰ :
      (vec : List S) (calls : ℕ) → (r : List S × ℕ) × (shuffle g vec calls ≡ ok r) × Permᴰ r.0 vec
  unfolding shuffle
  shuffle-Permᴰ vec calls = elim (Bool-cases (leb (length vec) 1)) [
    | inl short ↦ rw short ((vec, calls), refl, Permᴰ.refl vec)
    | inr long ↦ rw long (
        shuffle_from-Permᴰ (length vec - 1) 0 vec calls (omega (arith, leb→gt (length vec) 1 long)))
  ]

  pub rand_dfs_add-Permᴰ :
      (states : List S) (q : List S × ℕ)
      → (r : List S × ℕ) × (rand_dfs_add g states q ≡ ok r) × Permᴰ r.0 (states ++ q.0)
  unfolding rand_dfs_add
  rand_dfs_add-Permᴰ states (active, calls) =
      let (r, returned, bag) = shuffle-Permᴰ states calls in
      rw returned (
        (dfs_add r.0 active, r.1),
        refl,
        Permᴰ.trans (dfs_add-Permᴰ r.0 active) (Permᴰ.append_right active bag),
      )

  pub rand_dfs_none : (q : List S × ℕ) → rand_dfs_next q ≡ none → q.0 ≡ []
  unfolding rand_dfs_next
  rand_dfs_none (active, calls) h = elim (pop_back_cases active) [
    | inl (e, p) ↦ e
    | inr (y, ys, e, p) ↦
        let value : rand_dfs_next (active, calls) ≡ some (y, (ys, calls)) =
          rw (rand_dfs_next, p) refl in
        absurd (cc)
  ]

  pub rand_dfs_some :
      (q : List S × ℕ) (s : S) (r : List S × ℕ)
      → rand_dfs_next q ≡ some (s, r)
      → Permᴰ q.0 (s ∷ r.0)
  unfolding rand_dfs_next
  rand_dfs_some (active, calls) s r h = elim (pop_back_cases active) [
    | inl (e, p) ↦
        let value : rand_dfs_next (active, calls) ≡ none = rw (rand_dfs_next, p) refl in absurd (cc)
    | inr (y, ys, e, p) ↦
        let value : rand_dfs_next (active, calls) ≡ some (y, (ys, calls)) =
          rw (rand_dfs_next, p) refl in
        let first : y ≡ s = cc in
        let rest : (ys, calls) ≡ r = cc in
        back-Permᴰ active s r.0 (p ∙ ap₂ (λ a b. some (a, b.0)) first rest)
  ]

  abbrev pub rand_dfs : Policy S
  rand_dfs = record {
    Queue = List S × ℕ;
    held = λ q. q.0;
    start = λ s. (s ∷ [], 0);
    add_actives = rand_dfs_add g;
    get_next = rand_dfs_next;
    start_law = λ s. refl;
    add_law = rand_dfs_add-Permᴰ;
    none_law = rand_dfs_none;
    some_law = rand_dfs_some;
  }
