-- ===== src/Json.antt =====
-- `serde_json::Value` as the program uses it. The crate is not in the repository, so its values
-- are a parameter: the constructors and the views that src/admin/debug.rs matches on, with the law
-- that a view reads back what its constructor built. `get`, `pointer` and the rest are written
-- over those.
use ement_e2ee.Prelude.{
  Option-cases, inl, inr, arith, if◌then◌else◌, unwrap_or, ℕ, ◌≡◌, ◌≢◌, refl, subst, ◌∙◌, ◌++◌,
  Bool, true, Option, none, some, List, [], ◌∷◌, Text, Text-discrete, ◌>>=?◌,
}
use ement_e2ee.Prelude.Map
use ement_e2ee.Prelude.Map.{Map}

pub record Json : Type 1 where
  pub Value : Type 0
  pub null : Value
  pub bool : Bool → Value
  pub number : ℕ → Value
  pub string : Text → Value
  pub array : List Value → Value
  pub object : Map Text Value → Value
  pub as_bool : Value → Option Bool
  pub as_u64 : Value → Option ℕ
  pub as_str : Value → Option Text
  pub as_array : Value → Option (List Value)
  pub as_object : Value → Option (Map Text Value)
  pub as_bool-bool : (b : Bool) → as_bool (bool b) ≡ some b
  pub as_str-string : (s : Text) → as_str (string s) ≡ some s
  pub as_array-array : (l : List Value) → as_array (array l) ≡ some l
  pub as_object-object : (m : Map Text Value) → as_object (object m) ≡ some m
  pub as_object-array : (l : List Value) → as_object (array l) ≡ none
  pub as_object-string : (s : Text) → as_object (string s) ≡ none
  pub as_str-object : (m : Map Text Value) → as_str (object m) ≡ none
  pub is_null : Value → Bool
  pub is_null-null : is_null null ≡ true
  pub as_object-null : as_object null ≡ none

module _ (J : Json) where
  open J use {
    Value, null, as_str, as_array, as_object, array, object, is_null, as_object-object,
    as_array-array,
  }

  -- `value.get("key")`, which is `None` on what is no object.
  unfoldable pub get : Text → Value → Option Value
  get k v = as_object v >>=? Map.get Text-discrete k

  -- `value.get("key").and_then(|v| v.as_str())`
  unfoldable pub get_str : Text → Value → Option Text
  unfolding get
  get_str k v = get k v >>=? as_str

  -- `value.get("key").and_then(Value::as_array)`
  unfoldable pub get_array : Text → Value → Option (List Value)
  unfolding get
  get_array k v = get k v >>=? as_array

  -- `value.pointer("/a/b")`, for the paths of member names that the program writes.
  unfoldable pub pointer : List Text → Value → Option Value
  pointer [] v = some v
  pointer (k ∷ ks) v = elim (get k v) [ none ↦ none | some w ↦ pointer ks w ]

  -- `value["key"]` as an operand: `Null` where there is no such member.
  unfoldable pub index : Text → Value → Value
  unfolding get
  index k v = elim (get k v) [ none ↦ null | some w ↦ w ]

  -- `value["key"] = member` on an object; the program never does it on anything else.
  unfoldable pub set : Text → Value → Value → Value
  set k w v = elim (as_object v) [ none ↦ v | some m ↦ object (Map.insert Text-discrete k w m) ]

  -- `value.as_object_mut()` and `remove("key")`
  unfoldable pub remove : Text → Value → Value
  remove k v = elim (as_object v) [ none ↦ v | some m ↦ object (Map.remove Text-discrete k m) ]

  -- The members that `value["key"] = …` works on: `Null` becomes an empty object, and anything else
  -- but an object panics, which is `none`.
  unfoldable pub members : Value → Option (Map Text Value)
  members v = elim (as_object v) [ none ↦ if is_null v then some [] else none | some m ↦ some m ]

  -- `value["a"]["b"] = w`
  unfoldable pub assign : List Text → Value → Value → Option Value
  unfolding members index
  assign [] w v = some w
  assign (k ∷ ks) w v = elim (members v) [
    | none ↦ none
    | some m ↦ elim (assign ks w (unwrap_or (Map.get Text-discrete k m) null)) [
      | none ↦ none
      | some inner ↦ some (object (Map.insert Text-discrete k inner m))
    ]
  ]

  pub pointer-assign :
      (path : List Text) (w v u : Value) → assign path w v ≡ some u → pointer path u ≡ some w
  unfolding pointer assign get
  pointer-assign [] w v u h = ground arith
  pointer-assign (k ∷ ks) w v u h = elim (Option-cases (members v)) [
    | inl panics ↦ absurd (ground arith)
    | inr (m, e) ↦ elim (Option-cases (assign ks w (unwrap_or (Map.get Text-discrete k m) null))) [
      | inl panics ↦ absurd (ground arith)
      | inr (inner, f) ↦ ground (
        arith,
        pointer-assign ks w _ inner f,
        as_object-object (Map.insert Text-discrete k inner m),
        Map.get-insert_same Text-discrete k inner m,
      )
    ]
  ]

  pub pointer-append :
      (p q : List Text) (v : Value) → pointer (p ++ q) v ≡ (pointer p v >>=? pointer q)
  unfolding pointer
  pointer-append [] q v = refl
  pointer-append (k ∷ ks) q v = elim (Option-cases (get k v)) [
    | inl e ↦ rw (pointer, e) refl
    | inr (w, e) ↦ rw (pointer, e) (pointer-append ks q w)
  ]

  -- Nothing lies below a member that is not there.
  pub pointer_below :
      (p rest : List Text) (k : Text) (v : Value)
      → (pointer p v >>=? get k) ≡ none
      → pointer (p ++ k ∷ rest) v ≡ none
  unfolding pointer
  pointer_below p rest k v h = pointer-append p (k ∷ rest) v ∙ elim (Option-cases (pointer p v)) [
    | inl e ↦ rw e refl
    | inr (w, e) ↦ rw e (rw (pointer, subst (λ o. (o >>=? get k) ≡ none) e h) refl)
  ]

  members_of_get :
      (k : Text) (v x : Value)
      → get k v ≡ some x
      → (m : Map Text Value) × (members v ≡ some m) × (Map.get Text-discrete k m ≡ some x)
  unfolding get members
  members_of_get k v x h = elim (Option-cases (as_object v)) [
    | inl no_object ↦ absurd (ground arith)
    | inr (m, e) ↦ (m, rw (members, e) refl, ground arith)
  ]

  -- Where a path leads somewhere, its end can be assigned.
  pub assign_of_pointer :
      (path : List Text) (w v x : Value)
      → pointer path v ≡ some x
      → (u : Value) × (assign path w v ≡ some u)
  unfolding pointer assign
  assign_of_pointer [] w v x h = (w, refl)
  assign_of_pointer (k ∷ ks) w v x h = elim (Option-cases (get k v)) [
    | inl e ↦ absurd (ground arith)
    | inr (y, e) ↦
        let (m, f, g) = members_of_get k v y e in
        let (u, a) = assign_of_pointer ks w y x (
          subst
            (λ o. elim o as (λ _. Option Value) [ none ↦ none | some z ↦ pointer ks z ] ≡ some x) e
            h) in
        (object (Map.insert Text-discrete k u m), rw (assign, f, g, a) refl)
  ]

  pub get-set : (k : Text) (w v u : Value) → get k v ≡ some u → get k (set k w v) ≡ some w
  unfolding get set
  get-set k w v u given = elim (Option-cases (as_object v)) [
    | inl no_object ↦ absurd (ground arith)
    | inr (m, e) ↦
        rw (set, e)
          (rw (as_object-object (Map.insert Text-discrete k w m))
            (Map.get-insert_same Text-discrete k w m))
  ]

  pub get-set_ne : (k j : Text) (w v : Value) → j ≢ k → get j (set k w v) ≡ get j v
  unfolding get set
  get-set_ne k j w v d = elim (Option-cases (as_object v)) [
    | inl no_object ↦ rw (set, no_object) (rw no_object refl)
    | inr (m, e) ↦
        rw (set, e)
          (rw (as_object-object (Map.insert Text-discrete k w m))
            (Map.get-insert_ne Text-discrete k j w m d))
  ]

  pub get-remove : (k : Text) (v : Value) → get k (remove k v) ≡ none
  unfolding get remove
  get-remove k v = elim (Option-cases (as_object v)) [
    | inl no_object ↦ rw (remove, no_object) (rw no_object refl)
    | inr (m, e) ↦
        rw (remove, e)
          (rw (as_object-object (Map.remove Text-discrete k m))
            (ground (arith, Map.get-remove Text-discrete k k m)))
  ]
