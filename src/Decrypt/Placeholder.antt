-- ===== src/Decrypt/Placeholder.antt =====
-- `utd_placeholder` of src/crypto/decrypt.rs: what the client is shown in place of an event without
-- a key.
use ement_e2ee.Prelude.{
  Bool, true, false, Option, none, some, List, [], ◌∷◌, ◌++◌, Text, codes, Text-discrete,
  if◌then◌else◌, unwrap_or, ◌>>=?◌,
}
use ement_e2ee.Prelude.Map
use ement_e2ee.Prelude.Map.{Map}
use ement_e2ee.Json
use ement_e2ee.Json.{Json}

-- `Placeholder`: whether the client can be sent an edit of it later.
pub data Placeholder : Type 0 where
  repairable : Placeholder
  final : Placeholder

abbrev pub is_repairable : Placeholder → Bool
is_repairable repairable = true
is_repairable final = false

module _ (J : Json) where
  open J use {Value, null, bool, string, object, as_object}

  -- `for key in keys { if let Some(v) = from.get(key) { to[key] = v.clone() } }`
  unfoldable pub copy_keys : List Text → Value → Map Text Value → Map Text Value
  copy_keys [] from to = to
  copy_keys (k ∷ ks) from to =
      copy_keys ks from
        (elim (Json.get J k from) [ none ↦ to | some v ↦ Map.insert Text-discrete k v to ])

  abbrev pub envelope_keys : List Text
  envelope_keys =
      codes "event_id" ∷ codes "sender" ∷ codes "origin_server_ts" ∷ codes "room_id" ∷ []

  abbrev pub hint : Bool → Text
  hint can_repair =
      if can_repair then codes " This message will update in place if its key arrives." else []

  abbrev pub placeholder_content : Text → Bool → Value
  placeholder_content reason can_repair = object (
      (codes "msgtype", string (codes "m.text"))
      ∷ (codes "body", string (codes "🔒 [undecryptable: " ++ reason ++ b']' ∷ hint can_repair))
      ∷ [])

  abbrev pub optional_text : Option Text → Value
  optional_text none = null
  optional_text (some s) = string s

  abbrev pub utd_marker : Option Text → Value
  utd_marker session_id =
      object ((codes "utd", bool true) ∷ (codes "session_id", optional_text session_id) ∷ [])

  abbrev pub unsigned_object : Value → Option (Map Text Value)
  unsigned_object event = Json.get J (codes "unsigned") event >>=? as_object

  -- The placeholder's members.
  unfoldable pub placeholder_members : Value → Text → Option Text → Bool → Map Text Value
  unfolding copy_keys
  placeholder_members original reason session_id can_repair =
      Map.insert Text-discrete (codes "unsigned")
        (object (
          Map.insert Text-discrete (codes "ement_e2ee") (utd_marker session_id)
            (unwrap_or (unsigned_object original) [])))
        (copy_keys envelope_keys original (
          (codes "type", string (codes "m.room.message"))
          ∷ (codes "content", placeholder_content reason can_repair)
          ∷ []))

  unfoldable pub utd_placeholder : Value → Text → Option Text → Bool → Value
  unfolding placeholder_members
  utd_placeholder original reason session_id can_repair =
      object (placeholder_members original reason session_id can_repair)
