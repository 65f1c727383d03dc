-- ===== src/Exploration/Vectors.antt =====
-- `back`, `pop_back` and element accesses of vectors, and bags of elements.
use mathlib.Core.List.{Memᴰ, Permᴰ}
use mathlib.Core.List.Permᴰ
use naaz.Base.{ℕ, zero, suc, ◌+◌, ◌<◌, ◌≤◌, ◌≡◌, refl, sym, ◌∙◌, ap, ap₂, arith, inl, inr, ◌⊎◌}
use naaz.Base.{List, [], ◌∷◌, ◌++◌, Option, none, some, get_elem?, length}

module _ {ℓ} {A : Type ℓ} where
  -- the last element and the vector without it
  unfoldable pub pop_back : List A → Option (A × List A)
  pop_back [] = none
  pop_back (x ∷ xs) = elim (pop_back xs) [ none ↦ some (x, []) | some (y, ys) ↦ some (y, x ∷ ys) ]

  -- A write out of bounds changes nothing.
  abbrev pub set : List A → ℕ → A → List A
  set [] i v = []
  set (x ∷ xs) zero v = v ∷ xs
  set (x ∷ xs) (suc i) v = x ∷ set xs i v

  pub pop_back-append : (xs : List A) (x : A) → pop_back (xs ++ x ∷ []) ≡ some (x, xs)
  unfolding pop_back
  pop_back-append [] x = refl
  pop_back-append (y ∷ xs) x = rw (pop_back-append xs x, pop_back) refl

  pub pop_back_cases :
      (xs : List A)
      → ((xs ≡ []) × (pop_back xs ≡ none))
        ⊎ ((y : A) × (ys : List A) × (xs ≡ ys ++ y ∷ []) × (pop_back xs ≡ some (y, ys)))
  unfolding pop_back
  pop_back_cases [] = inl (refl, refl)
  pop_back_cases (x ∷ xs) = elim (pop_back_cases xs) [
    | inl (e, p) ↦ inr (x, [], ap (λ l. x ∷ l) e, rw (p, pop_back) refl)
    | inr (y, ys, e, p) ↦ inr (y, x ∷ ys, ap (λ l. x ∷ l) e, rw (p, pop_back) refl)
  ]

  pub get_elem-length : (xs : List A) (i : ℕ) → i < length xs → (a : A) × (get_elem? xs i ≡ some a)
  get_elem-length [] i h = absurd (omega arith)
  get_elem-length (x ∷ xs) zero h = (x, refl)
  get_elem-length (x ∷ xs) (suc i) h = get_elem-length xs i (omega arith)

  pub length-set : (xs : List A) (i : ℕ) (v : A) → length (set xs i v) ≡ length xs
  length-set [] i v = refl
  length-set (x ∷ xs) zero v = refl
  length-set (x ∷ xs) (suc i) v = ap suc (length-set xs i v)

  -- The element moves to the front and the front element takes its place.
  pub to_front :
      (x : A) (xs : List A) (i : ℕ) (b : A)
      → get_elem? xs i ≡ some b
      → Permᴰ (b ∷ set xs i x) (x ∷ xs)
  to_front x [] i b h = absurd (cc)
  to_front x (y ∷ xs) zero b h = Permᴰ.swap (cc) refl
  to_front x (y ∷ xs) (suc i) b h =
      Permᴰ.trans (Permᴰ.swap refl refl)
        (Permᴰ.trans (Permᴰ.cons refl (to_front x xs i b h)) (Permᴰ.swap refl refl))

  pub set-set-Permᴰ :
      (xs : List A) (i j : ℕ) (a b : A)
      → i ≤ j
      → get_elem? xs i ≡ some a
      → get_elem? xs j ≡ some b
      → Permᴰ (set (set xs j a) i b) xs
  set-set-Permᴰ [] i j a b le h k = Permᴰ.nil
  set-set-Permᴰ (x ∷ xs) zero zero a b le h k = Permᴰ.cons (cc) (Permᴰ.refl xs)
  set-set-Permᴰ (x ∷ xs) zero (suc j) a b le h k =
      Permᴰ.trans (to_front a xs j b k) (Permᴰ.cons (cc) (Permᴰ.refl xs))
  set-set-Permᴰ (x ∷ xs) (suc i) zero a b le h k = absurd (omega arith)
  set-set-Permᴰ (x ∷ xs) (suc i) (suc j) a b le h k =
      Permᴰ.cons refl (set-set-Permᴰ xs i j a b (omega arith) h k)

  pub Memᴰ-Permᴰ : {a : A} {xs ys : List A} → Permᴰ xs ys → Memᴰ a xs → Memᴰ a ys
  Memᴰ-Permᴰ Permᴰ.nil m = m
  Memᴰ-Permᴰ (Permᴰ.cons e p) (Memᴰ.head k) = Memᴰ.head (k ∙ e)
  Memᴰ-Permᴰ (Permᴰ.cons e p) (Memᴰ.tail m) = Memᴰ.tail (Memᴰ-Permᴰ p m)
  Memᴰ-Permᴰ (Permᴰ.swap e k) (Memᴰ.head h) = Memᴰ.tail (Memᴰ.head (h ∙ e))
  Memᴰ-Permᴰ (Permᴰ.swap e k) (Memᴰ.tail (Memᴰ.head h)) = Memᴰ.head (h ∙ k)
  Memᴰ-Permᴰ (Permᴰ.swap e k) (Memᴰ.tail (Memᴰ.tail m)) = Memᴰ.tail (Memᴰ.tail m)
  Memᴰ-Permᴰ (Permᴰ.trans p q) m = Memᴰ-Permᴰ q (Memᴰ-Permᴰ p m)

  pub Permᴰ-sym : {xs ys : List A} → Permᴰ xs ys → Permᴰ ys xs
  Permᴰ-sym Permᴰ.nil = Permᴰ.nil
  Permᴰ-sym (Permᴰ.cons e p) = Permᴰ.cons (sym e) (Permᴰ-sym p)
  Permᴰ-sym (Permᴰ.swap e k) = Permᴰ.swap (sym k) (sym e)
  Permᴰ-sym (Permᴰ.trans p q) = Permᴰ.trans (Permᴰ-sym q) (Permᴰ-sym p)

  abbrev pub weigh : (A → ℕ) → List A → ℕ
  weigh f [] = 0
  weigh f (x ∷ xs) = f x + weigh f xs

  pub weigh-append : (f : A → ℕ) (xs ys : List A) → weigh f (xs ++ ys) ≡ weigh f xs + weigh f ys
  weigh-append f [] ys = omega arith
  weigh-append f (x ∷ xs) ys = omega (arith, weigh-append f xs ys)

  pub weigh-Permᴰ : (f : A → ℕ) {xs ys : List A} → Permᴰ xs ys → weigh f xs ≡ weigh f ys
  weigh-Permᴰ f Permᴰ.nil = refl
  weigh-Permᴰ f (Permᴰ.cons e p) = ap₂ ◌+◌ (ap f e) (weigh-Permᴰ f p)
  weigh-Permᴰ f (Permᴰ.swap e k) = omega (arith, ap f e, ap f k)
  weigh-Permᴰ f (Permᴰ.trans p q) = weigh-Permᴰ f p ∙ weigh-Permᴰ f q
