-- ===== src/Rooms/Settings.antt =====
-- `room_settings_from_content` and `scan_state_events` of src/crypto/rooms.rs.
use ement_e2ee.Prelude.{
  false, Option, none, some, List, [], ◌∷◌, Text, codes, eqb, if◌then◌else◌, ◌>>=?◌,
}
use ement_e2ee.Json
use ement_e2ee.Json.{Json}
use ement_e2ee.Sdk.{Sdk, RoomSettings}
use ement_e2ee.Rooms.Tracker.{
  RoomTracker, mark_encrypted, set_history_visibility, invalidate_members,
}

module _ (J : Json) (S : Sdk) where
  open J use {Value, as_u64, as_str}
  open S use {Olm, Algorithm, Visibility, algorithm, visibility, set_room_settings}

  -- What the proxy knows of an account's rooms: its tracker, and the settings in the OlmMachine.
  pub record Rooms : Type 0 where
    pub tracker : RoomTracker Visibility Value
    pub olm : Olm

  unfoldable pub room_settings_from_content : Value → Option (RoomSettings Algorithm)
  room_settings_from_content content = elim (Json.get_str J (codes "algorithm") content) [
    | none ↦ none
    | some name ↦ some (record {
      algorithm = algorithm name;
      only_allow_trusted_devices = false;
      session_rotation_period = Json.get J (codes "rotation_period_ms") content >>=? as_u64;
      session_rotation_period_messages =
          Json.get J (codes "rotation_period_msgs") content >>=? as_u64;
    })
  ]

  -- The machine keeps its settings where it rejects the new ones.
  abbrev pub keep_rejected : Olm → Option Olm → Olm
  keep_rejected o none = o
  keep_rejected o (some o') = o'

  -- The room is encrypted with these settings: drop it from the negative cache, and store them.
  unfoldable pub note_settings : Text → RoomSettings Algorithm → Rooms → Rooms
  note_settings room settings r = record {
    tracker = mark_encrypted room r.tracker;
    olm = keep_rejected r.olm (set_room_settings r.olm room settings);
  }

  unfoldable pub scan_encryption : Text → Value → Rooms → Rooms
  unfolding note_settings
  scan_encryption room event r =
      elim (Json.get J (codes "content") event >>=? room_settings_from_content) [
        | none ↦ r
        | some settings ↦ note_settings room settings r
      ]

  unfoldable pub scan_visibility : Text → Value → Rooms → Rooms
  scan_visibility room event r =
      elim (Json.pointer J (codes "content" ∷ codes "history_visibility" ∷ []) event >>=? as_str) [
        | none ↦ r
        | some v ↦ record r { tracker = set_history_visibility room (visibility v) r.tracker }
      ]

  unfoldable pub scan_typed : Text → Value → Text → Rooms → Rooms
  unfolding scan_encryption scan_visibility
  scan_typed room event event_type r =
      if eqb event_type (codes "m.room.encryption")
      then scan_encryption room event r
      else if eqb event_type (codes "m.room.history_visibility")
      then scan_visibility room event r
      else if eqb event_type (codes "m.room.member")
      then record r { tracker = invalidate_members room r.tracker }
      else r

  -- One event: only state events count, which carry a state key, and only those with a type.
  unfoldable pub scan_event : Text → Value → Rooms → Rooms
  unfolding scan_typed
  scan_event room event r = elim (Json.get_str J (codes "state_key") event) [
    | none ↦ r
    | some _ ↦ elim (Json.get_str J (codes "type") event) [
      | none ↦ r
      | some event_type ↦ scan_typed room event event_type r
    ]
  ]

  unfoldable pub scan_state_events : Text → List Value → Rooms → Rooms
  unfolding scan_event
  scan_state_events room [] r = r
  scan_state_events room (event ∷ events) r =
      scan_state_events room events (scan_event room event r)
