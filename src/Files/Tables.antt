-- ===== src/Files/Tables.antt =====
-- A `std::map` as a list of entries with distinct keys, for any test of keys.
use naaz.Base.{◌≡◌, refl, ◌∙◌, ap, Bool, true, false, Bool-cases, inl, inr, if◌then◌else◌}
use naaz.Base.{List, [], ◌∷◌, Option, none, some}

module _ {K V : Type 0} (same : K → K → Bool) where
  abbrev pub look : List (K × V) → K → Option V
  look [] k = none
  look ((j, v) ∷ m) k = let rest = look m k in if same j k then some v else rest

  -- `m[k] = v`
  abbrev pub put : List (K × V) → K → V → List (K × V)
  put [] k v = (k, v) ∷ []
  put ((j, w) ∷ m) k v = let rest = put m k v in if same j k then (j, v) ∷ m else (j, w) ∷ rest

  -- `emplace` leaves an entry that is there.
  abbrev pub emplace : List (K × V) → K → V → List (K × V)
  emplace [] k v = (k, v) ∷ []
  emplace ((j, w) ∷ m) k v =
      let rest = emplace m k v in if same j k then (j, w) ∷ m else (j, w) ∷ rest

  abbrev pub erase : List (K × V) → K → List (K × V)
  erase [] k = []
  erase ((j, w) ∷ m) k = let rest = erase m k in if same j k then rest else (j, w) ∷ rest

  module _ (same→eq : (a b : K) → same a b ≡ true → a ≡ b)
      (same_refl : (a : K) → same a a ≡ true) where
    pub look-put : (m : List (K × V)) (k : K) (v : V) → look (put m k v) k ≡ some v
    look-put [] k v = rw (same_refl k) refl
    look-put ((j, w) ∷ m) k v = elim (Bool-cases (same j k)) [
      | inl is ↦ rw (is, is) refl
      | inr differ ↦ rw (differ, differ) (look-put m k v)
    ]

    pub look-put_other :
        (m : List (K × V)) (k j : K) (v : V) → same k j ≡ false → look (put m k v) j ≡ look m j
    look-put_other [] k j v h = rw h refl
    look-put_other ((i, w) ∷ m) k j v h = elim (Bool-cases (same i k)) [
      | inl is ↦
          let away : same i j ≡ false = ap (λ l. same l j) (same→eq i k is) ∙ h in
          rw (is, away) refl
      | inr differ ↦ elim (Bool-cases (same i j)) [
        | inl here ↦ rw (differ, here) refl
        | inr there ↦ rw (differ, there) (look-put_other m k j v h)
      ]
    ]

    pub look-emplace :
        (m : List (K × V)) (k : K) (v : V) → look m k ≡ none → look (emplace m k v) k ≡ some v
    look-emplace [] k v h = rw (same_refl k) refl
    look-emplace ((j, w) ∷ m) k v h = elim (Bool-cases (same j k)) [
      | inl is ↦ let clash : some w ≡ none = rw is at h in absurd (cc)
      | inr differ ↦ rw (differ, differ) (look-emplace m k v (rw differ at h))
    ]

    pub look-emplace_other :
        (m : List (K × V)) (k j : K) (v : V) → same k j ≡ false → look (emplace m k v) j ≡ look m j
    look-emplace_other [] k j v h = rw h refl
    look-emplace_other ((i, w) ∷ m) k j v h = elim (Bool-cases (same i k)) [
      | inl is ↦ rw is refl
      | inr differ ↦ elim (Bool-cases (same i j)) [
        | inl here ↦ rw (differ, here) refl
        | inr there ↦ rw (differ, there) (look-emplace_other m k j v h)
      ]
    ]

    pub look-erase : (m : List (K × V)) (k : K) → look (erase m k) k ≡ none
    look-erase [] k = refl
    look-erase ((j, w) ∷ m) k = elim (Bool-cases (same j k)) [
      | inl is ↦ rw is (look-erase m k)
      | inr differ ↦ rw (differ, differ) (look-erase m k)
    ]

    pub look-erase_other :
        (m : List (K × V)) (k j : K) → same k j ≡ false → look (erase m k) j ≡ look m j
    look-erase_other [] k j h = refl
    look-erase_other ((i, w) ∷ m) k j h = elim (Bool-cases (same i k)) [
      | inl is ↦
          let away : same i j ≡ false = ap (λ l. same l j) (same→eq i k is) ∙ h in
          rw (is, away) (look-erase_other m k j h)
      | inr differ ↦ elim (Bool-cases (same i j)) [
        | inl here ↦ rw (differ, here) refl
        | inr there ↦ rw (differ, there) (look-erase_other m k j h)
      ]
    ]
