-- ===== src/Diagnose/Event.antt =====
-- `event`, `key_in_backup`, `explain_undecryptable` and `logs` of src/admin/diagnose.rs. The report
-- is its parts; `none` is an error.
use ement_e2ee.Prelude.{
  ℕ, ◌-◌, ◌/◌, Bool, true, false, ◌==◌, ◌||◌, Option, none, some, List, [], ◌∷◌, ◌++◌, map, Text,
  codes, if◌then◌else◌, ◌>>=?◌, is_some, is_empty, elem, Text-discrete,
}
use ement_e2ee.Prelude.Str.{strip_prefix}
use ement_e2ee.Json
use ement_e2ee.Json.{Json}
use ement_e2ee.Http.{Homeserver, Method, is_success}
use ement_e2ee.Decrypt.Event.{Decryption}
use ement_e2ee.Logbuf.{LogLine, tail}
use ement_e2ee.Diagnose.Keys.{is_text}

pub data Explanation : Type 0 where
  key_too_late only_in_backup malformed never_shared : Explanation

unfoldable pub contains : Text → Text → Bool
contains part [] = is_empty part
contains part (x ∷ s) = is_some (strip_prefix part (x ∷ s)) || contains part s

unfoldable pub explain_reason : Text → Explanation
unfolding contains
explain_reason reason =
    if contains (codes "Malformed") reason || contains (codes "Deserialization") reason
    then malformed
    else never_shared

unfoldable pub explain_undecryptable : Text → Bool → Option Bool → Explanation
unfolding explain_reason
explain_undecryptable reason true in_backup = key_too_late
explain_undecryptable reason false (some true) = only_in_backup
explain_undecryptable reason false (some false) = explain_reason reason
explain_undecryptable reason false none = explain_reason reason

-- What the store knows of a room key.
pub record RoomKey : Type 0 where
  pub first_known_index : ℕ
  pub imported : Bool
  pub backed_up : Bool

pub data Outcome (V : Type 0) : Type 0 where
  not_encrypted : Outcome V
  -- The decrypted type and the encryption info.
  decrypted : Option RoomKey → V → V → Outcome V
  -- The reason, whether the key was asked for, whether it is in the backup.
  undecryptable : Option RoomKey → Text → Bool → Option Bool → Explanation → Outcome V
  failed : Option RoomKey → Outcome V

pub record EventReport (V : Type 0) : Type 0 where
  pub room_id : Text
  pub event_id : Text
  pub raw : V
  pub outcome : Outcome V

module _ (J : Json) (enc : Text → Text) (ask : Homeserver (Json.Value J)) (token : Text) where
  open J use {Value, as_str}

  abbrev pub get_request : Text → Option (ℕ × Value)
  get_request path_and_query =
      ask
        record { method = Method.get; path_and_query = path_and_query; token = token; body = none }

  abbrev pub key_path : Text → Text → Text → Text
  key_path room_id session_id version =
      codes "/_matrix/client/v3/room_keys/keys/"
      ++ enc room_id
      ++ codes "/"
      ++ enc session_id
      ++ codes "?version="
      ++ enc version

  abbrev pub held_at : ℕ → Option Bool
  held_at status =
      if is_success status then some true else if status == 404 then some false else none

  unfoldable pub key_in_backup : Text → Text → Option Bool
  key_in_backup room_id session_id =
      elim (get_request (codes "/_matrix/client/v3/room_keys/version")) [
        | none ↦ none
        | some (status, backup) ↦
            if is_success status
            then (as_str (Json.index J (codes "version") backup) >>=? λ version.
                get_request (key_path room_id session_id version) >>=? λ answer. held_at (answer.0))
            else none
      ]

  abbrev pub event_path : Text → Text → Text
  event_path room_id event_id =
      codes "/_matrix/client/v3/rooms/" ++ enc room_id ++ codes "/event/" ++ enc event_id

  abbrev pub report_of : Text → Text → Value → Outcome Value → Option (EventReport Value)
  report_of room_id event_id raw outcome =
      some (record { room_id = room_id; event_id = event_id; raw = raw; outcome = outcome })

  -- `requested` are the sessions whose keys have been asked for.
  unfoldable pub outcome_of :
      {Raw : Type 0} → List Text → Text → Option RoomKey → Decryption Value Raw → Outcome Value
  unfolding key_in_backup explain_undecryptable
  outcome_of requested room_id key (Decryption.decrypted v) =
      decrypted key (Json.index J (codes "type") v) (
        Json.index J (codes "encryption_info")
          (Json.index J (codes "ement_e2ee") (Json.index J (codes "unsigned") v)))
  outcome_of requested room_id key (Decryption.undecryptable reason none raw) =
      undecryptable key reason false none (explain_undecryptable reason (is_some key) none)
  outcome_of requested room_id key (Decryption.undecryptable reason (some id) raw) =
      let in_backup = key_in_backup room_id id in
      undecryptable key reason (elem Text-discrete id requested) in_backup
        (explain_undecryptable reason (is_some key) in_backup)
  outcome_of requested room_id key Decryption.untouched = failed key

  module _ {C Raw : Type 0} (inbound_session : Text → Text → Option (Option RoomKey))
      (requested_sessions : C → List Text)
      (decrypt : Text → Value → C → C × Decryption Value Raw) where
    -- The store's error is `none`.
    unfoldable pub room_key : Text → Option Text → Option (Option RoomKey)
    room_key room_id none = some none
    room_key room_id (some session_id) = inbound_session room_id session_id

    unfoldable pub report_on : Text → Text → Value → C → C × Option (EventReport Value)
    unfolding room_key outcome_of
    report_on room_id event_id raw c =
        if is_text J (Json.index J (codes "type") raw) (codes "m.room.encrypted")
        then (elim (room_key room_id
            (as_str (Json.index J (codes "session_id") (Json.index J (codes "content") raw)))) [
              | none ↦ (c, none)
              | some key ↦
                  let (after, decryption) = decrypt room_id raw c in
                  (
                    after,
                    report_of room_id event_id raw
                        (outcome_of (requested_sessions after) room_id key decryption),
                  )
            ])
        else (c, report_of room_id event_id raw not_encrypted)

    unfoldable pub event : Text → Text → C → C × Option (EventReport Value)
    unfolding report_on
    event room_id event_id c = elim (get_request (event_path room_id event_id)) [
      | none ↦ (c, none)
      | some (status, raw) ↦
          if is_success status then report_on room_id event_id raw c else (c, none)
    ]

-- A line with how many seconds ago it was logged, 0 where it lies ahead.
unfoldable pub logs : (Text → Option ℕ) → ℕ → ℕ → ℕ → List LogLine → List (LogLine × ℕ)
unfolding tail
logs parse_level now level limit lines =
    map (λ line. (line, (now - line.time) / 1000000000)) (tail parse_level level limit lines)
