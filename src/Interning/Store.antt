-- ===== src/Interning/Store.antt =====
-- `get_or_create` and `collect_garbage` of expr/ExprBuilder.cpp, over the `hash` and the `eq` of the
-- expressions. A slot is a `std::weak_ptr`: the address of the object, the expression it holds, and
-- whether the object is gone.
use naaz.Base.{ℕ, ◌==◌, Bool, false, if◌then◌else◌, List, [], ◌∷◌, ◌++◌}
use naaz.Base.{Option, none, some, Outcome, ok, ◌>>=◌}

pub record Slot (A : Type 0) : Type 0 where
  pub address : ℕ
  pub expr : A
  pub expired : Bool

-- `m_exprs.contains(hash)` and `m_exprs.at(hash)`
abbrev pub bucket_at : {A : Type 0} → List (ℕ × List (Slot A)) → ℕ → Option (List (Slot A))
bucket_at [] h = none
bucket_at ((k, v) ∷ m) h = let rest = bucket_at m h in if k == h then some v else rest

-- the write through the reference to the bucket
abbrev pub put :
    {A : Type 0} → List (ℕ × List (Slot A)) → ℕ → List (Slot A) → List (ℕ × List (Slot A))
put [] h v = []
put ((k, w) ∷ m) h v = let rest = put m h v in if k == h then (k, v) ∷ m else (k, w) ∷ rest

unfoldable pub remove_expired : {A : Type 0} → List (Slot A) → List (Slot A)
remove_expired [] = []
remove_expired (s ∷ bucket) =
    let rest = remove_expired bucket in if s.expired then rest else s ∷ rest

unfoldable pub collect_garbage : {A : Type 0} → List (ℕ × List (Slot A)) → List (ℕ × List (Slot A))
collect_garbage [] = []
collect_garbage ((h, bucket) ∷ m) = (h, remove_expired bucket) ∷ collect_garbage m

module _ {A : Type 0} (hash : A → ℕ) (eq : A → A → Outcome Bool) where
  -- `for (auto& r : m_exprs.at(hash)) if (e.eq(r.lock())) return r.lock();`
  unfoldable pub search : A → List (Slot A) → Outcome (Option (Slot A))
  search e [] = ok none
  search e (r ∷ bucket) =
      let rest = search e bucket in do b ← eq e r.expr; if b then ok (some r) else rest

  -- `fresh` is the address of the object that `clone` gives.
  unfoldable pub settle :
      (A → A)
      → ℕ
      → A
      → List (ℕ × List (Slot A))
      → List (Slot A)
      → Option (Slot A)
      → Slot A × List (ℕ × List (Slot A))
  settle clone fresh e m_exprs bucket (some r) = (r, put m_exprs (hash e) bucket)
  settle clone fresh e m_exprs bucket none =
      let r : Slot A = record { address = fresh; expr = clone e; expired = false } in
      (r, put m_exprs (hash e) (bucket ++ r ∷ []))

  unfoldable pub get_or_create :
      (A → A) → ℕ → A → List (ℕ × List (Slot A)) → Outcome (Slot A × List (ℕ × List (Slot A)))
  get_or_create clone fresh e m_exprs = elim (bucket_at m_exprs (hash e)) [
    | none ↦
        let r : Slot A = record { address = fresh; expr = clone e; expired = false } in
        ok (r, (hash e, r ∷ []) ∷ m_exprs)
    | some bucket ↦ do
      found ← search e (remove_expired bucket)
      ok (settle clone fresh e m_exprs (remove_expired bucket) found)
  ]
