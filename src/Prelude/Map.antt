-- ===== src/Prelude/Map.antt =====
-- A `HashMap` as an association list with at most one entry that a lookup can see for each key.
use mathlib.Core.Path.{◌≡◌}
use mathlib.Core.Logic.{◌≢◌}
use mathlib.Core.Bool.{Bool}
use mathlib.Core.List.{List, [], ◌∷◌}
use mathlib.Core.Option.{Option, none, some}
use native.Mathlib.Omega.{arith}
use ement_e2ee.Prelude.Tests.{is_some}

abbrev pub Map {ℓ κ} : Type ℓ → Type κ → Type (ℓ ⊔ κ)
Map K V = List (K × V)

module _ {ℓ κ} {K : Type ℓ} {V : Type κ} (dec : Discrete K) where
  unfoldable pub get : K → Map K V → Option V
  get k [] = none
  get k ((j, v) ∷ m) = elim (dec k j) [ yes _ ↦ some v | no _ ↦ get k m ]

  unfoldable pub remove : K → Map K V → Map K V
  remove k [] = []
  remove k ((j, v) ∷ m) = elim (dec k j) [ yes _ ↦ remove k m | no _ ↦ (j, v) ∷ remove k m ]

  unfoldable pub insert : K → V → Map K V → Map K V
  insert k v m = (k, v) ∷ remove k m

  abbrev pub contains_key : K → Map K V → Bool
  contains_key k m = is_some (get k m)

  pub get-remove :
      (k j : K) (m : Map K V)
      → get j (remove k m) ≡ elim (dec j k) [ yes _ ↦ none | no _ ↦ get j m ]
  unfolding get remove
  get-remove k j [] = ground arith
  get-remove k j ((i, v) ∷ m) = ground (arith, get-remove k j m)

  pub get-insert :
      (k j : K) (v : V) (m : Map K V)
      → get j (insert k v m) ≡ elim (dec j k) [ yes _ ↦ some v | no _ ↦ get j m ]
  unfolding get insert
  get-insert k j v m = ground (arith, get-remove k j m)

  pub get-insert_same : (k : K) (v : V) (m : Map K V) → get k (insert k v m) ≡ some v
  get-insert_same k v m = ground (arith, get-insert k k v m)

  pub get-insert_ne : (k j : K) (v : V) (m : Map K V) → j ≢ k → get j (insert k v m) ≡ get j m
  get-insert_ne k j v m d = ground (arith, get-insert k j v m)
