-- ===== src/Rooms/Encryption.antt =====
-- `is_room_encrypted`, `joined_members` and `history_visibility_or_fetch` of src/crypto/rooms.rs.
-- The homeserver is a parameter: `respond` gives its answer, a status and a body, to the GET of a
-- path, and `none` where the request fails. `enc` is the percent encoding of a path segment.
use ement_e2ee.Prelude.{
  ℕ, Bool, true, false, Option, none, some, List, [], ◌∷◌, ◌++◌, Text, codes, ◌==◌, if◌then◌else◌,
  ◌>>=?◌, is_empty,
}
use ement_e2ee.Prelude.Map
use ement_e2ee.Prelude.Map.{Map}
use ement_e2ee.Json
use ement_e2ee.Json.{Json}
use ement_e2ee.Http.{is_success}
use ement_e2ee.Sdk.{Sdk}
use ement_e2ee.Rooms.Tracker.{
  is_known_unencrypted, mark_unencrypted, cached_members, cache_members, set_history_visibility,
}
use ement_e2ee.Rooms.Settings.{Rooms, note_settings, room_settings_from_content}
use ement_e2ee.Prelude.{Text-discrete}

-- A result, or `bail!`.
pub data Answer (A : Type 0) : Type 0 where
  ok : A → Answer A
  err : Answer A

module _ (J : Json) (S : Sdk) where
  open J use {Value, as_str, as_object}
  open S use {Olm, Algorithm, Visibility, visibility, shared, room_settings}

  -- Up to the request: the negative cache, then the stored settings.
  unfoldable pub known_encryption : Text → Rooms J S → Option (Answer Bool)
  known_encryption room r =
      if is_known_unencrypted room r.tracker
      then some (ok false)
      else elim (room_settings r.olm room) [
        | none ↦ some err
        | some none ↦ none
        | some (some settings) ↦ some (ok true)
      ]

  -- From the answer to the request for the `m.room.encryption` state on.
  unfoldable pub conclude_encryption :
      Text → Option (ℕ × Value) → Rooms J S → Rooms J S × Answer Bool
  conclude_encryption room none r = (r, err)
  conclude_encryption room (some (status, body)) r =
      if status == 404
      then (record r { tracker = mark_unencrypted room r.tracker }, ok false)
      else if is_success status
      then elim (room_settings_from_content J S body) [
        | none ↦ (r, err)
        | some settings ↦ (note_settings J S room settings r, ok true)
      ]
      else (r, err)

  module _ (enc : Text → Text) (respond : Text → Option (ℕ × Value)) where
    unfoldable pub encryption_path : Text → Text
    encryption_path room =
        codes "/_matrix/client/v3/rooms/" ++ enc room ++ codes "/state/m.room.encryption"

    unfoldable pub is_room_encrypted : Text → Rooms J S → Rooms J S × Answer Bool
    unfolding known_encryption conclude_encryption
    is_room_encrypted room r = elim (known_encryption room r) [
      | some answer ↦ (r, answer)
      | none ↦ conclude_encryption room (respond (encryption_path room)) r
    ]

    -- The keys of the `joined` object that parse as user IDs.
    unfoldable pub member_ids : (Text → Option Text) → Map Text Value → List Text
    member_ids parse_user [] = []
    member_ids parse_user ((k, _) ∷ m) = elim (parse_user k) [
      | none ↦ member_ids parse_user m
      | some user ↦ user ∷ member_ids parse_user m
    ]

    unfoldable pub members_of_body : (Text → Option Text) → Value → List Text
    unfolding member_ids
    members_of_body parse_user body = elim (Json.get J (codes "joined") body >>=? as_object) [
      | none ↦ []
      | some joined ↦ member_ids parse_user joined
    ]

    unfoldable pub store_members : ℕ → Text → List Text → Rooms J S → Rooms J S × Answer (List Text)
    store_members now room members r =
        if is_empty members
        then (r, err)
        else (record r { tracker = cache_members now room members r.tracker }, ok members)

    unfoldable pub joined_members :
        (Text → Option Text) → ℕ → Text → Rooms J S → Rooms J S × Answer (List Text)
    unfolding members_of_body store_members
    joined_members parse_user now room r = elim (cached_members now room r.tracker) [
      | some members ↦ (r, ok members)
      | none ↦
          elim (respond
            (codes "/_matrix/client/v3/rooms/" ++ enc room ++ codes "/joined_members")) [
              | none ↦ (r, err)
              | some (status, body) ↦
                  if is_success status
                  then store_members now room (members_of_body parse_user body) r
                  else (r, err)
            ]
    ]

    -- What the homeserver's answer says, or else the default of the specification.
    unfoldable pub visibility_of_answer : Option (ℕ × Value) → Visibility
    visibility_of_answer none = shared
    visibility_of_answer (some (status, body)) =
        if is_success status
        then elim (Json.get_str J (codes "history_visibility") body) [
          | none ↦ shared
          | some v ↦ visibility v
        ]
        else shared

    unfoldable pub history_visibility_or_fetch : Text → Rooms J S → Rooms J S × Visibility
    unfolding visibility_of_answer
    history_visibility_or_fetch room r =
        elim (Map.get Text-discrete room r.tracker.history_visibility) [
          | some v ↦ (r, v)
          | none ↦
              let v = visibility_of_answer (
                respond (
                  codes "/_matrix/client/v3/rooms/"
                  ++ enc room
                  ++ codes "/state/m.room.history_visibility")) in
              (record r { tracker = set_history_visibility room v r.tracker }, v)
        ]
