-- ===== src/Examples/Tree.antt =====
-- JSON values as trees: an instance of `Json`.
use ement_e2ee.Prelude.{
  ℕ, ◌≡◌, refl, ap, Bool, true, false, Option, none, some, List, [], ◌∷◌, Text,
}
use ement_e2ee.Prelude.Map.{Map}
use ement_e2ee.Json.{Json}

mutual
  pub data Tree : Type 0 where
    leaf : Tree
    truth : Bool → Tree
    count : ℕ → Tree
    text : Text → Tree
    items : Items → Tree
    fields : Fields → Tree

  pub data Items : Type 0 where
    no_item : Items
    item : Tree → Items → Items

  pub data Fields : Type 0 where
    no_field : Fields
    field : Text → Tree → Fields → Fields

abbrev pub of_list : List Tree → Items
of_list [] = no_item
of_list (t ∷ ts) = item t (of_list ts)

abbrev pub to_list : Items → List Tree
to_list no_item = []
to_list (item t ts) = t ∷ to_list ts

abbrev pub of_map : Map Text Tree → Fields
of_map [] = no_field
of_map ((k, t) ∷ m) = field k t (of_map m)

abbrev pub to_map : Fields → Map Text Tree
to_map no_field = []
to_map (field k t m) = (k, t) ∷ to_map m

pub to_list-of_list : (l : List Tree) → to_list (of_list l) ≡ l
to_list-of_list [] = refl
to_list-of_list (t ∷ ts) = ap (λ l. t ∷ l) (to_list-of_list ts)

pub to_map-of_map : (m : Map Text Tree) → to_map (of_map m) ≡ m
to_map-of_map [] = refl
to_map-of_map ((k, t) ∷ m) = ap (λ l. (k, t) ∷ l) (to_map-of_map m)

abbrev as_truth : Tree → Option Bool
as_truth (truth b) = some b
as_truth _ = none

abbrev as_count : Tree → Option ℕ
as_count (count n) = some n
as_count _ = none

abbrev as_text : Tree → Option Text
as_text (text s) = some s
as_text _ = none

abbrev as_items : Tree → Option (List Tree)
as_items (items l) = some (to_list l)
as_items _ = none

abbrev as_fields : Tree → Option (Map Text Tree)
as_fields (fields m) = some (to_map m)
as_fields _ = none

abbrev is_leaf : Tree → Bool
is_leaf leaf = true
is_leaf _ = false

abbrev pub tree_json : Json
tree_json = record {
  Value = Tree;
  null = leaf;
  bool = truth;
  number = count;
  string = text;
  array = λ l. items (of_list l);
  object = λ m. fields (of_map m);
  as_bool = as_truth;
  as_u64 = as_count;
  as_str = as_text;
  as_array = as_items;
  as_object = as_fields;
  as_bool-bool = λ b. refl;
  as_str-string = λ s. refl;
  as_array-array = λ l. ap some (to_list-of_list l);
  as_object-object = λ m. ap some (to_map-of_map m);
  as_object-array = λ l. refl;
  as_object-string = λ s. refl;
  as_str-object = λ m. refl;
  is_null = is_leaf;
  is_null-null = refl;
  as_object-null = refl;
}

abbrev pub object_of : Map Text Tree → Tree
object_of m = fields (of_map m)

abbrev pub array_of : List Tree → Tree
array_of l = items (of_list l)
