-- ===== src/Prelude/Lists.antt =====
-- Lists with native lengths; lists read as sets and queues over keys with a decided equality.
use Prim.Native.Nat.{ℕ, zero, suc, ◌+◌, ◌≤◌}
use mathlib.Core.Path.{◌≡◌, refl}
use mathlib.Core.Bool.{Bool, true, false, ◌&&◌, ◌||◌}
use mathlib.Core.List.{List, [], ◌∷◌, ◌++◌}
use native.Mathlib.Omega.{arith}

module _ {ℓ} {A : Type ℓ} where
  abbrev pub length : List A → ℕ
  length [] = 0
  length (x ∷ xs) = suc (length xs)

  abbrev pub is_empty : List A → Bool
  is_empty [] = true
  is_empty (x ∷ xs) = false

  abbrev pub take : ℕ → List A → List A
  take zero xs = []
  take (suc n) [] = []
  take (suc n) (x ∷ xs) = x ∷ take n xs

  abbrev pub drop : ℕ → List A → List A
  drop zero xs = xs
  drop (suc n) [] = []
  drop (suc n) (x ∷ xs) = drop n xs

  -- `retain` and `Iterator::filter`
  abbrev pub retain : (A → Bool) → List A → List A
  retain p [] = []
  retain p (x ∷ xs) = elim (p x) [ true ↦ x ∷ retain p xs | false ↦ retain p xs ]

  abbrev pub all : (A → Bool) → List A → Bool
  all p [] = true
  all p (x ∷ xs) = p x && all p xs

  abbrev pub any : (A → Bool) → List A → Bool
  any p [] = false
  any p (x ∷ xs) = p x || any p xs

  pub length-append : (xs ys : List A) → length (xs ++ ys) ≡ length xs + length ys
  length-append [] ys = omega arith
  length-append (x ∷ xs) ys = omega (arith, length-append xs ys)

  pub length-take-le : (n : ℕ) (xs : List A) → length (take n xs) ≤ n
  length-take-le zero xs = omega arith
  length-take-le (suc n) [] = omega arith
  length-take-le (suc n) (x ∷ xs) = omega (arith, length-take-le n xs)

  pub length-retain-le : (p : A → Bool) (xs : List A) → length (retain p xs) ≤ length xs
  length-retain-le p [] = omega arith
  length-retain-le p (x ∷ xs) = ground (arith, length-retain-le p xs)

  pub retain-append :
      (p : A → Bool) (xs ys : List A) → retain p (xs ++ ys) ≡ retain p xs ++ retain p ys
  retain-append p [] ys = refl
  retain-append p (x ∷ xs) ys = ground (arith, retain-append p xs ys)

module _ {ℓ} {A : Type ℓ} (dec : Discrete A) where
  -- `contains`
  abbrev pub elem : A → List A → Bool
  elem a [] = false
  elem a (x ∷ xs) = elim (dec a x) [ yes _ ↦ true | no _ ↦ elem a xs ]

  -- A `HashSet`'s `remove`, and `retain(|k| k != a)`.
  abbrev pub remove : A → List A → List A
  remove a [] = []
  remove a (x ∷ xs) = elim (dec a x) [ yes _ ↦ remove a xs | no _ ↦ x ∷ remove a xs ]

  abbrev pub Distinct : List A → Type 0
  Distinct [] = Unit
  Distinct (x ∷ xs) = (elem x xs ≡ false) × Distinct xs

  pub elem-append : (a : A) (xs ys : List A) → elem a (xs ++ ys) ≡ (elem a xs || elem a ys)
  elem-append a [] ys = refl
  elem-append a (x ∷ xs) ys = ground (arith, elem-append a xs ys)

  pub elem-concat :
      (a b : A) (xs : List A)
      → elem a (xs ++ b ∷ []) ≡ elim (dec a b) [ yes _ ↦ true | no _ ↦ elem a xs ]
  elem-concat a b [] = refl
  elem-concat a b (x ∷ xs) = ground (arith, elem-concat a b xs)

  pub elem-remove :
      (a b : A) (xs : List A)
      → elem a (remove b xs) ≡ elim (dec a b) [ yes _ ↦ false | no _ ↦ elem a xs ]
  elem-remove a b [] = ground arith
  elem-remove a b (x ∷ xs) = ground (arith, elem-remove a b xs)

  pub Distinct-concat :
      (a : A) (xs : List A) → elem a xs ≡ false → Distinct xs → Distinct (xs ++ a ∷ [])
  Distinct-concat a [] h d = (refl, tt)
  Distinct-concat a (x ∷ xs) h d =
      (ground (arith, elem-concat x a xs), Distinct-concat a xs (ground arith) d.1)

  pub Distinct-remove : (a : A) (xs : List A) → Distinct xs → Distinct (remove a xs)
  Distinct-remove a [] d = tt
  Distinct-remove a (x ∷ xs) d = ground (arith, elem-remove x a xs, Distinct-remove a xs d.1)

  pub remove_absent : (a : A) (xs : List A) → elem a xs ≡ false → remove a xs ≡ xs
  remove_absent a [] h = refl
  remove_absent a (x ∷ xs) h = ground (arith, remove_absent a xs)

  pub length-remove :
      (a : A) (xs : List A) → Distinct xs → elem a xs ≡ true → length (remove a xs) + 1 ≡ length xs
  length-remove a [] d h = cc
  length-remove a (x ∷ xs) d h =
      ground (arith, remove_absent x xs, length-remove a xs d.1, remove_absent a xs)
