-- ===== src/Decrypt/Bodies.antt =====
-- `decrypt_event` and the rewriting of history responses of src/crypto/decrypt.rs. `parse_room` is
-- ruma's parser of room IDs.
use ement_e2ee.Prelude.{
  Option, none, some, List, [], ◌∷◌, Text, codes, if◌then◌else◌, ◌>>=?◌, unwrap_or,
}
use ement_e2ee.Json
use ement_e2ee.Json.{Json}
use ement_e2ee.Sdk.{Sdk}
use ement_e2ee.Media.Cache.{MediaHost}
use ement_e2ee.Repair.Queue.{track}
use ement_e2ee.Rooms.Settings.{scan_state_events}
use ement_e2ee.Decrypt.Placeholder.{Placeholder, is_repairable, utd_placeholder}
use ement_e2ee.Decrypt.Event.{DecryptSdk, Decryption, Context, decrypt}
use ement_e2ee.Decrypt.KeyRequests.{maybe_request_room_key}
use Decryption.{decrypted, undecryptable, untouched}
use Placeholder.{repairable, final}

module _ (J : Json) (S : Sdk) (H : MediaHost J) (D : DecryptSdk J S) where
  open J use {Value, array, as_array, as_str}
  open D use {Encrypted}

  abbrev Ctx : Type 0
  Ctx = Context J S H D

  unfoldable pub tracked : Text → Value → Option Text → Placeholder → Ctx → Ctx
  tracked room event session_id placeholder c =
      if is_repairable placeholder
      then record c { repairs = track J room event session_id c.repairs }
      else c

  unfoldable pub shown_event :
      Text → Value → Placeholder → Decryption Value Encrypted → Ctx → Ctx × Value
  unfolding tracked
  shown_event room event placeholder (decrypted new_event) c = (c, new_event)
  shown_event room event placeholder (undecryptable reason session_id raw) c = (
    tracked room event session_id placeholder
        (maybe_request_room_key J S H D room raw session_id c),
    utd_placeholder J event reason session_id (is_repairable placeholder),
  )
  shown_event room event placeholder untouched c = (c, event)

  unfoldable pub decrypt_event : Text → Placeholder → Value → Ctx → Ctx × Value
  unfolding shown_event
  decrypt_event room placeholder event c =
      let (after, result) = decrypt J S H D room event c in
      shown_event room event placeholder result after

  unfoldable pub decrypt_events : Text → List Value → Ctx → Ctx × List Value
  unfolding decrypt_event
  decrypt_events room [] c = (c, [])
  decrypt_events room (event ∷ events) c =
      let (after, shown) = decrypt_event room repairable event c in
      let (last, rest) = decrypt_events room events after in (last, shown ∷ rest)

  -- The array at a path, with its events decrypted in place; where there is none, nothing.
  unfoldable pub decrypt_at : Text → List Text → Value → Ctx → Ctx × Value
  unfolding decrypt_events
  decrypt_at room path body c = elim (Json.pointer J path body >>=? as_array) [
    | none ↦ (c, body)
    | some events ↦
        let (after, shown) = decrypt_events room events c in
        (after, unwrap_or (Json.assign J path (array shown) body) body)
  ]

  unfoldable pub scan_at : Text → List Text → Value → Ctx → Ctx
  scan_at room path body c = elim (Json.pointer J path body >>=? as_array) [
    | none ↦ c
    | some events ↦ record c { rooms = scan_state_events J S room events c.rooms }
  ]

  unfoldable pub process_messages_body : Text → Value → Ctx → Ctx × Value
  unfolding decrypt_at scan_at
  process_messages_body room body c =
      decrypt_at room (codes "chunk" ∷ []) body (scan_at room (codes "state" ∷ []) body c)

  -- The event under the key, if there is one.
  unfoldable pub decrypt_member : Text → Placeholder → Value → Ctx → Ctx × Value
  unfolding decrypt_event
  decrypt_member room placeholder body c = elim (Json.get J (codes "event") body) [
    | none ↦ (c, body)
    | some event ↦
        let (after, shown) = decrypt_event room placeholder event c in
        (after, Json.set J (codes "event") shown body)
  ]

  unfoldable pub process_context_body : Text → Value → Ctx → Ctx × Value
  unfolding decrypt_at scan_at decrypt_member
  process_context_body room body c =
      let (before, with_before) =
        decrypt_at room (codes "events_before" ∷ []) body
          (scan_at room (codes "state" ∷ []) body c) in
      let (after, with_after) = decrypt_at room (codes "events_after" ∷ []) with_before before in
      decrypt_member room repairable with_after after

  unfoldable pub process_event_body : Text → Value → Ctx → Ctx × Value
  unfolding decrypt_event
  process_event_body room body c = decrypt_event room repairable body c

  module _ (parse_room : Text → Option Text) where
    unfoldable pub process_notification : Value → Ctx → Ctx × Value
    unfolding decrypt_member
    process_notification notification c =
        elim (Json.get_str J (codes "room_id") notification >>=? parse_room) [
          | none ↦ (c, notification)
          | some room ↦ decrypt_member room final notification c
        ]

    unfoldable pub process_notifications : List Value → Ctx → Ctx × List Value
    unfolding process_notification
    process_notifications [] c = (c, [])
    process_notifications (notification ∷ notifications) c =
        let (after, shown) = process_notification notification c in
        let (last, rest) = process_notifications notifications after in (last, shown ∷ rest)

    unfoldable pub process_notifications_body : Value → Ctx → Ctx × Value
    unfolding process_notifications
    process_notifications_body body c = elim (Json.get_array J (codes "notifications") body) [
      | none ↦ (c, body)
      | some notifications ↦
          let (after, shown) = process_notifications notifications c in
          (after, Json.set J (codes "notifications") (array shown) body)
    ]
