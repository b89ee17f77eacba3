-- ===== src/Admin/Params.antt =====
-- The parameters of the admin API: `parse_query`, `json_params`, `read_json_body`,
-- `resolve_session` and `verify_target` of src/admin/mod.rs. An error is its status; messages are
-- left out.
use ement_e2ee.Prelude.{
  ℕ, Option, none, some, List, [], ◌∷◌, Text, codes, eqb, Text-discrete, if◌then◌else◌, unwrap_or,
  is_empty,
}
use ement_e2ee.Prelude.Str.{split, split_once}
use ement_e2ee.Prelude.Map
use ement_e2ee.Prelude.Map.{Map}
use ement_e2ee.Json.{Json}

-- A value, or the response to an error.
pub data Answered (A : Type 0) : Type 0 where
  ok : A → Answered A
  json_error : ℕ → Answered A

abbrev pub collect_pair : Option (Text × Text) → Map Text Text → Map Text Text
collect_pair none m = m
collect_pair (some (k, v)) m = Map.insert Text-discrete k v m

-- The pairs are collected in order, so that the last value of a name counts.
unfoldable pub collect_pairs : List Text → Map Text Text → Map Text Text
collect_pairs [] m = m
collect_pairs (kv ∷ kvs) m = collect_pairs kvs (collect_pair (split_once b'=' kv) m)

unfoldable pub parse_query : Option Text → Map Text Text
unfolding collect_pairs
parse_query query = collect_pairs (split b'&' (unwrap_or query [])) []

-- What of a session the parameters are resolved with.
pub record AdminSession (C : Type 0) : Type 0 where
  pub user_id : Text
  pub context : C

module _ {C : Type 0} where
  unfoldable pub find_user : Text → List (AdminSession C) → Option (AdminSession C)
  find_user user_id [] = none
  find_user user_id (s ∷ sessions) =
      if eqb s.user_id user_id then some s else find_user user_id sessions

  unfoldable pub only_session : List (AdminSession C) → Answered (AdminSession C)
  only_session [] = json_error 409
  only_session (s ∷ []) = ok s
  only_session (s ∷ t ∷ sessions) = json_error 409

  unfoldable pub resolve_session : Option Text → List (AdminSession C) → Answered (AdminSession C)
  unfolding find_user only_session
  resolve_session none sessions = only_session sessions
  resolve_session (some user_id) sessions = elim (find_user user_id sessions) [
    | none ↦ json_error 404
    | some s ↦ ok s
  ]

  -- `parse_user` is ruma's parser of user IDs.
  abbrev pub with_user : (Text → Option Text) → Option Text → AdminSession C → Answered Text
  with_user parse_user none s = ok s.user_id
  with_user parse_user (some user) s = elim (parse_user user) [
    | none ↦ json_error 400
    | some u ↦ ok u
  ]

  unfoldable pub verify_target :
      (Text → Option Text)
      → Map Text Text
      → List (AdminSession C)
      → Answered (AdminSession C × Text)
  unfolding resolve_session
  verify_target parse_user params sessions =
      elim (resolve_session (Map.get Text-discrete (codes "user_id") params) sessions) [
        | json_error status ↦ json_error status
        | ok s ↦ elim (with_user parse_user (Map.get Text-discrete (codes "with_user") params) s) [
          | json_error status ↦ json_error status
          | ok user ↦ ok (s, user)
        ]
      ]

module _ (J : Json) where
  open J use {Value, null, as_str, as_object}

  abbrev string_param : Text → Option Text → Map Text Text → Map Text Text
  string_param k none m = m
  string_param k (some v) m = Map.insert Text-discrete k v m

  unfoldable pub string_params : Map Text Value → Map Text Text
  string_params [] = []
  string_params ((k, v) ∷ members) = string_param k (as_str v) (string_params members)

  unfoldable pub json_params : Value → Map Text Text
  unfolding string_params
  json_params body = string_params (unwrap_or (as_object body) [])

  -- A body that cannot be read, or is neither empty nor JSON, is a bad request.
  unfoldable pub read_json_body : (Text → Option Value) → Option Text → Option Value
  read_json_body parse none = none
  read_json_body parse (some bytes) = if is_empty bytes then some null else parse bytes
