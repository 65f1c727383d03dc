-- ===== src/Exploration/Search.antt =====
-- `explore` and `gen_paths` as worklist loops: the states handed out so far and those that the
-- technique holds cover every execution.
use mathlib.Core.List.{Memᴰ, Permᴰ}
use mathlib.Core.Logic.{⊎_elim}
use mathlib.Core.List.Memᴰ
use naaz.Base.{ℕ, ◌≡◌, refl, sym, subst, inl, inr, ◌⊎◌}
use naaz.Base.{List, [], ◌∷◌, ◌++◌}
use naaz.Exploration.{Engine, Policy}
use naaz.Exploration.Kept.{results, Runs, IsKept, kept, Memᴰ-kept, kept-Memᴰ, NoTarget}
use naaz.Exploration.Vectors.{Memᴰ-Permᴰ, Permᴰ-sym}

module _ {S : Type 0} (e : Engine S) (find avoid : List ℕ) (initial : S) where
  -- the states at the start of a basic block of the executions that pass no address of the two sets
  pub data Visited : S → Type 0 where
    here : Visited initial
    step : {s t : S} → Visited s → Memᴰ t (results e s).active → IsKept e find avoid t → Visited t

  module _ (p : Policy S) (out : S → List S) where
    -- `taken` were handed out, and `given` is what they gave through `out`.
    pub record Inv (taken given : List S) (q : p.Queue) : Type 0 where
      pub begins : Memᴰ initial taken ⊎ Memᴰ initial (p.held q)
      pub visited : (s : S) → Memᴰ s taken ⊎ Memᴰ s (p.held q) → Visited s
      pub ran : (s : S) → Memᴰ s taken → Runs e s
      pub clear : (s : S) → Memᴰ s taken → NoTarget e find avoid (results e s).active
      pub closed :
          (s t : S)
          → Memᴰ s taken
          → Memᴰ t (results e s).active
          → IsKept e find avoid t
          → Memᴰ t taken ⊎ Memᴰ t (p.held q)
      pub gives : (s t : S) → Memᴰ s taken → Memᴰ t (out s) → Memᴰ t given
      pub given_by : (t : S) → Memᴰ t given → (s : S) × Memᴰ s taken × Memᴰ t (out s)

    held_first : (s : S) → Memᴰ s (p.held (p.start initial)) → Visited s
    held_first s m =
        let first : s ≡ initial = Memᴰ.eq_of_singleton (subst (Memᴰ s) (p.start_law initial) m) in
        subst Visited (sym first) here

    pub Inv-start : Inv [] [] (p.start initial)
    Inv-start = record {
      begins = inr (subst (Memᴰ initial) (sym (p.start_law initial)) (Memᴰ.head refl));
      visited = λ s m. ⊎_elim (λ k. absurd (Memᴰ.not-nil k)) (held_first s) m;
      ran = λ s m. absurd (Memᴰ.not-nil m);
      clear = λ s m. absurd (Memᴰ.not-nil m);
      closed = λ s t m. absurd (Memᴰ.not-nil m);
      gives = λ s t m. absurd (Memᴰ.not-nil m);
      given_by = λ t m. absurd (Memᴰ.not-nil m);
    }

    -- One round: `s` is handed out, and its successors that are kept are queued.
    module _ (s : S) (taken given : List S) (q r next : p.Queue)
        (popped : Permᴰ (p.held q) (s ∷ p.held r))
        (queued : Permᴰ (p.held next) (kept e find avoid (results e s).active ++ p.held r)) where
      -- What was handed out or held still is.
      moved : (u : S) → Memᴰ u taken ⊎ Memᴰ u (p.held q) → Memᴰ u (s ∷ taken) ⊎ Memᴰ u (p.held next)
      moved u (inl m) = inl (Memᴰ.tail m)
      moved u (inr m) = elim (Memᴰ.cases_cons (Memᴰ-Permᴰ popped m)) [
        | inl same ↦ inl (Memᴰ.head same)
        | inr k ↦ inr (Memᴰ-Permᴰ (Permᴰ-sym queued) (Memᴰ.append_right _ k))
      ]

      held_before : (u : S) → Memᴰ u (p.held r) → Memᴰ u (p.held q)
      held_before u m = Memᴰ-Permᴰ (Permᴰ-sym popped) (Memᴰ.tail m)

      taken-Visited : Inv taken given q → (u : S) → Memᴰ u (s ∷ taken) → Visited u
      taken-Visited h u m = elim (Memᴰ.cases_cons m) [
        | inl same ↦ h.visited u (inr (Memᴰ-Permᴰ (Permᴰ-sym popped) (Memᴰ.head same)))
        | inr k ↦ h.visited u (inl k)
      ]

      held-Visited : Inv taken given q → (u : S) → Memᴰ u (p.held next) → Visited u
      held-Visited h u m = elim (Memᴰ.append_cases _ (Memᴰ-Permᴰ queued m)) [
        | inl new ↦
            let (successor, is) = Memᴰ-kept e find avoid (results e s).active u new in
            step (taken-Visited h s (Memᴰ.head refl)) successor is
        | inr old ↦ h.visited u (inr (held_before u old))
      ]

      closed_round :
          Inv taken given q
          → (u t : S) → Memᴰ u (s ∷ taken)
          → Memᴰ t (results e u).active
          → IsKept e find avoid t
          → Memᴰ t (s ∷ taken) ⊎ Memᴰ t (p.held next)
      closed_round h u t m successor is = elim (Memᴰ.cases_cons m) [
        | inl same ↦
            let of_s : Memᴰ t (results e s).active =
              subst (λ v. Memᴰ t (results e v).active) same successor in
            inr (
              Memᴰ-Permᴰ (Permᴰ-sym queued)
                (Memᴰ.append_left _ (kept-Memᴰ e find avoid _ t of_s is)))
        | inr k ↦ moved t (h.closed u t k successor is)
      ]

      pub Inv-round :
          Runs e s
          → NoTarget e find avoid (results e s).active
          → Inv taken given q
          → Inv (s ∷ taken) (given ++ out s) next
      Inv-round runs clear h = record {
        begins = moved initial h.begins;
        visited = λ u m. ⊎_elim (taken-Visited h u) (held-Visited h u) m;
        ran = λ u m. elim (Memᴰ.cases_cons m) [
          | inl same ↦ subst (Runs e) (sym same) runs
          | inr k ↦ h.ran u k
        ];
        clear = λ u m. elim (Memᴰ.cases_cons m) [
          | inl same ↦ subst (λ v. NoTarget e find avoid (results e v).active) (sym same) clear
          | inr k ↦ h.clear u k
        ];
        closed = closed_round h;
        gives = λ u t m k. elim (Memᴰ.cases_cons m) [
          | inl same ↦ Memᴰ.append_right given (subst (λ v. Memᴰ t (out v)) same k)
          | inr in_taken ↦ Memᴰ.append_left _ (h.gives u t in_taken k)
        ];
        given_by = λ t m. elim (Memᴰ.append_cases given m) [
          | inl k ↦ let (u, in_taken, by) = h.given_by t k in (u, Memᴰ.tail in_taken, by)
          | inr k ↦ (s, Memᴰ.head refl, k)
        ];
      }

    -- When nothing is held, every state that an execution visits was handed out.
    module _ (taken given : List S) (q : p.Queue) (empty : p.held q ≡ [])
        (h : Inv taken given q) where
      taken_now : (s : S) → Memᴰ s taken ⊎ Memᴰ s (p.held q) → Memᴰ s taken
      taken_now s (inl m) = m
      taken_now s (inr m) = absurd (Memᴰ.not-nil (subst (Memᴰ s) empty m))

      pub Visited-taken : (s : S) → Visited s → Memᴰ s taken
      Visited-taken s here = taken_now initial h.begins
      Visited-taken t (step {s} v successor is) =
          taken_now t (h.closed s t (Visited-taken s v) successor is)
