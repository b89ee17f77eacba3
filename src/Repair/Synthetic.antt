-- ===== src/Repair/Synthetic.antt =====
-- `synthetic_edit` and `delivered_event_ids` of src/crypto/repair.rs.
use ement_e2ee.Prelude.{
  Bool, false, Option, none, some, List, [], ◌∷◌, ◌++◌, Text, codes, eqb, Text-discrete,
  if◌then◌else◌, unwrap_or, ◌>>=?◌,
}
use ement_e2ee.Prelude.Map
use ement_e2ee.Prelude.Map.{Map}
use ement_e2ee.Json
use ement_e2ee.Json.{Json}
use ement_e2ee.Decrypt.Placeholder.{copy_keys}

-- The parts of a text put together, as `format!` does.
abbrev pub notice_of : Text → Text
notice_of event_type =
    codes "🔓 [" ++ event_type ++ codes "] decrypted; reopen the room to render it"

module _ (J : Json) where
  open J use {Value, string, object, as_str, as_object}

  -- The IDs of the events of one room of a sync body.
  unfoldable pub event_ids : List Value → List Text
  event_ids [] = []
  event_ids (event ∷ events) = elim (Json.get_str J (codes "event_id") event) [
    | none ↦ event_ids events
    | some id ↦ id ∷ event_ids events
  ]

  abbrev pub timeline_events : Value → Option (List Value)
  timeline_events room =
      Json.pointer J (codes "timeline" ∷ codes "events" ∷ []) room >>=? J.as_array

  unfoldable pub ids_in_rooms : Map Text Value → List Text
  unfolding event_ids
  ids_in_rooms [] = []
  ids_in_rooms ((id, room) ∷ rooms) =
      event_ids (unwrap_or (timeline_events room) []) ++ ids_in_rooms rooms

  unfoldable pub joined_rooms : Value → Option (Map Text Value)
  joined_rooms body = Json.pointer J (codes "rooms" ∷ codes "join" ∷ []) body >>=? as_object

  unfoldable pub delivered_event_ids : Value → List Text
  unfolding ids_in_rooms joined_rooms
  delivered_event_ids body = ids_in_rooms (unwrap_or (joined_rooms body) [])

  abbrev pub notice : Text → Value
  notice text =
      object ((codes "msgtype", string (codes "m.notice")) ∷ (codes "body", string text) ∷ [])

  abbrev pub text_at : List Text → Value → Option Text
  text_at path v = Json.pointer J path v >>=? as_str

  -- An edit of another message shows what it changed the text to.
  unfoldable pub message_content : Value → Value
  message_content content =
      let rel_type = text_at (codes "m.relates_to" ∷ codes "rel_type" ∷ []) content in
      let is_edit : Bool = elim rel_type [ none ↦ false | some r ↦ eqb r (codes "m.replace") ] in
      elim (Json.get J (codes "m.new_content") content) [
        | none ↦ content
        | some inner ↦ if is_edit then inner else content
      ]

  unfoldable pub new_content : Text → Value → Option Value
  unfolding message_content
  new_content event_type plain =
      if eqb event_type (codes "m.room.message")
      then (Json.get J (codes "content") plain >>=? λ content. some (message_content content))
      else if eqb event_type (codes "m.reaction")
      then some (
          notice (
            codes "🔓 reacted with "
            ++ unwrap_or (text_at (codes "content" ∷ codes "m.relates_to" ∷ codes "key" ∷ []) plain)
                (codes "?")))
      else some (notice (notice_of event_type))

  abbrev pub with_reply : Option Value → Map Text Value → Map Text Value
  with_reply none relation = relation
  with_reply (some reply) relation = Map.insert Text-discrete (codes "m.in_reply_to") reply relation

  -- A reply stays a reply; any other relation is dropped.
  unfoldable pub edit_content : Text → Map Text Value → Map Text Value
  edit_content event_id m =
      let reply =
        Map.get Text-discrete (codes "m.relates_to") m >>=? Json.get J (codes "m.in_reply_to") in
      let bare = Map.remove Text-discrete (codes "m.relates_to") m in
      Map.insert Text-discrete (codes "m.relates_to")
        (object (
          with_reply reply (
            (codes "rel_type", string (codes "m.replace"))
            ∷ (codes "event_id", string event_id)
            ∷ [])))
        (Map.insert Text-discrete (codes "m.new_content") (object bare) bare)

  -- The decrypted event's own marker, or an empty one. That the marker is an object is the doing of
  -- `decrypt`; on anything else but `Null` the program panics, which is `none`.
  unfoldable pub repair_marker : Text → Value → Option Value
  repair_marker event_id plain =
      Json.assign J (codes "repairs" ∷ []) (string event_id)
        (unwrap_or (Json.pointer J (codes "unsigned" ∷ codes "ement_e2ee" ∷ []) plain) (object []))

  abbrev pub copied_keys : List Text
  copied_keys = codes "sender" ∷ codes "origin_server_ts" ∷ codes "room_id" ∷ []

  unfoldable pub edit_of : Text → Map Text Value → Value → Value → Value
  unfolding edit_content
  edit_of event_id content marker plain = object (
      copy_keys J copied_keys plain (
        (codes "type", string (codes "m.room.message"))
        ∷ (codes "event_id", string (event_id ++ codes "~decrypted"))
        ∷ (codes "content", object (edit_content event_id content))
        ∷ (codes "unsigned", object ((codes "ement_e2ee", marker) ∷ []))
        ∷ []))

  unfoldable pub synthetic_edit : Value → Option Value
  unfolding edit_of new_content repair_marker
  synthetic_edit plain = Json.get_str J (codes "event_id") plain >>=? λ event_id.
      Json.get_str J (codes "type") plain >>=? λ event_type.
      new_content event_type plain >>=? as_object >>=? λ content.
      repair_marker event_id plain >>=? λ marker. some (edit_of event_id content marker plain)
