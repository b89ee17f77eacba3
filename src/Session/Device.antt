-- ===== src/Session/Device.antt =====
-- `DeviceConflict` and `published_identity` of src/crypto/device.rs.
use ement_e2ee.Prelude.{Option, none, some, List, [], ◌∷◌, ◌++◌, Text, codes, if◌then◌else◌, ◌>>=?◌}
use ement_e2ee.Json
use ement_e2ee.Json.{Json}
use ement_e2ee.Http.{Method, Request, Homeserver, is_success}

-- A session that the proxy does not serve. `store` is the directory of the store that holds other
-- keys, or `none` where the device has no store here.
pub record DeviceConflict : Type 0 where
  pub user_id : Text
  pub device_id : Text
  pub store : Option (List Text)

module _ (J : Json) where
  open J use {Value, string, array, object, as_str}

  unfoldable pub keys_query : Text → Text → Text → Request Value
  keys_query token user_id device_id = record {
    method = Method.post;
    path_and_query = codes "/_matrix/client/v3/keys/query";
    token = token;
    body = some (
        object
          ((codes "device_keys", object ((user_id, array (string device_id ∷ [])) ∷ [])) ∷ []));
  }

  -- The key in a response to the query, if it has one.
  unfoldable pub identity_of_response : Text → Text → Value → Option Text
  identity_of_response user_id device_id response =
      Json.get J (codes "device_keys") response >>=? λ users.
      Json.get J user_id users >>=? λ devices. Json.get J device_id devices >>=? λ device.
      Json.get J (codes "keys") device >>=? λ keys.
      Json.get J (codes "ed25519:" ++ device_id) keys >>=? as_str

  -- `none` where the homeserver does not say, `some none` where it has no key for the device.
  unfoldable pub published_identity : Homeserver Value → Text → Text → Text → Option (Option Text)
  unfolding keys_query identity_of_response
  published_identity ask token user_id device_id = elim (ask (keys_query token user_id device_id)) [
    | none ↦ none
    | some (status, response) ↦
        if is_success status then some (identity_of_response user_id device_id response) else none
  ]
