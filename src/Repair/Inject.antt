-- ===== src/Repair/Inject.antt =====
-- `inject` and `push_into_sync` of src/crypto/repair.rs, and `process_sync_body` of
-- src/crypto/decrypt.rs, which ends with it. An index assignment into what is neither an object nor
-- `Null` panics, which ends the request and leaves the account as it is by then.
use ement_e2ee.Prelude.{
  ℕ, suc, Bool, true, false, Option, none, some, List, [], ◌∷◌, ◌++◌, Text, codes, Text-discrete,
  elem, if◌then◌else◌, is_some, is_empty, unwrap_or, ◌>>=?◌,
}
use ement_e2ee.Prelude.Map
use ement_e2ee.Prelude.Map.{Map}
use ement_e2ee.Json
use ement_e2ee.Json.{Json}
use ement_e2ee.Sdk.{Sdk}
use ement_e2ee.Media.Cache.{MediaHost}
use ement_e2ee.Rooms.Tracker.{last_unread_notifications, note_joined, note_left}
use ement_e2ee.Repair.Queue.{PendingRepair, take_ready, requeue}
use ement_e2ee.Repair.Synthetic.{joined_rooms, delivered_event_ids, synthetic_edit}
use ement_e2ee.Decrypt.Event.{DecryptSdk, Decryption, Context, decrypt}
use ement_e2ee.Decrypt.Bodies.{decrypt_at, scan_at}
use Decryption.{decrypted, undecryptable, untouched}

-- The body with the event in it; no place for it; or a panic.
pub data Pushed (V : Type 0) : Type 0 where
  pushed : V → Pushed V
  left_out : Pushed V
  panics : Pushed V

module _ (J : Json) where
  open J use {Value, bool, object, array, as_object, as_array}

  abbrev pub timeline_path : Text → List Text
  timeline_path room = codes "rooms" ∷ codes "join" ∷ room ∷ codes "timeline" ∷ codes "events" ∷ []

  abbrev pub room_path : Text → List Text
  room_path room = codes "rooms" ∷ codes "join" ∷ room ∷ []

  abbrev pub of_option : Option Value → Pushed Value
  of_option none = panics
  of_option (some v) = pushed v

  -- The timeline's events, or none yet where they are no array.
  abbrev pub events_of : Text → Value → List Value
  events_of room body = unwrap_or (Json.pointer J (timeline_path room) body >>=? as_array) []

  unfoldable pub append_event : Text → Value → Value → Pushed Value
  append_event room event body =
      of_option
        (Json.assign J (timeline_path room) (array (events_of room body ++ event ∷ [])) body)

  abbrev pub with_unread : Option Value → Map Text Value → Map Text Value
  with_unread none entry = entry
  with_unread (some unread) entry =
      Map.insert Text-discrete (codes "unread_notifications") unread entry

  -- The entry of a room that the homeserver had nothing to say about.
  abbrev pub room_entry : Option Value → Value
  room_entry unread = object (
      with_unread unread (
        (codes "timeline", object ((codes "events", array []) ∷ (codes "limited", bool false) ∷ []))
        ∷ []))

  unfoldable pub push_new : Text → Option (Option Value) → Value → Value → Pushed Value
  unfolding append_event
  push_new room none event body = left_out
  push_new room (some unread) event body =
      elim (Json.assign J (room_path room) (room_entry unread) body) [
        | none ↦ panics
        | some extended ↦ append_event room event extended
      ]

  abbrev pub room_exists : Text → Value → Bool
  room_exists room body = elim (joined_rooms J body) [
    | none ↦ false
    | some rooms ↦ Map.contains_key Text-discrete room rooms
  ]

  -- `last`: the counts that the client was given last, if it is in the room.
  unfoldable pub push_into_sync : Option (Option Value) → Text → Value → Value → Pushed Value
  unfolding push_new append_event
  push_into_sync last room event body =
      if is_some (as_object body)
      then (if room_exists room body
          then append_event room event body
          else push_new room last event body)
      else left_out

module _ (J : Json) (S : Sdk) (H : MediaHost J) (D : DecryptSdk J S) where
  open J use {Value, object, as_object}
  open D use {Encrypted}

  abbrev Ctx : Type 0
  Ctx = Context J S H D

  -- The body and the number of repairs in it so far, or `none` after a panic.
  abbrev pub Injected : Type 0
  Injected = Ctx × Option (Value × ℕ)

  abbrev pub counted : Pushed Value → Value → ℕ → Option (Value × ℕ)
  counted (pushed v) body n = some (v, suc n)
  counted left_out body n = some (body, n)
  counted panics body n = none

  unfoldable pub push_edit : PendingRepair Value → Value → Value → ℕ → Ctx → Option (Value × ℕ)
  push_edit repair edit body n c =
      counted
        (push_into_sync J (last_unread_notifications repair.room_id c.rooms.tracker) repair.room_id
          edit body)
        body n

  unfoldable pub after_decryption :
      PendingRepair Value → Decryption Value Encrypted → Value → ℕ → Ctx → Injected
  unfolding push_edit
  after_decryption repair (decrypted plain) body n c = elim (synthetic_edit J plain) [
    | none ↦ (c, some (body, n))
    | some edit ↦ (c, push_edit repair edit body n c)
  ]
  after_decryption repair (undecryptable _ _ _) body n c =
      (record c { repairs = requeue repair c.repairs }, some (body, n))
  after_decryption repair untouched body n c =
      (record c { repairs = requeue repair c.repairs }, some (body, n))

  unfoldable pub inject_one : List Text → PendingRepair Value → Value → ℕ → Ctx → Injected
  unfolding after_decryption
  inject_one delivered repair body n c =
      if elem Text-discrete repair.event_id delivered
      then (c, some (body, n))
      else (let (after, result) = decrypt J S H D repair.room_id repair.event c in
          after_decryption repair result body n after)

  unfoldable pub inject_all : List Text → List (PendingRepair Value) → Value → ℕ → Ctx → Injected
  unfolding inject_one
  inject_all delivered [] body n c = (c, some (body, n))
  inject_all delivered (repair ∷ repairs) body n c =
      let (after, result) = inject_one delivered repair body n c in
      elim result [
        | none ↦ (after, none)
        | some (changed, m) ↦ inject_all delivered repairs changed m after
      ]

  unfoldable pub inject : Value → Ctx → Injected
  unfolding inject_all
  inject body c =
      let (rest, ready) = take_ready c.repairs in
      let taken : Ctx = record c { repairs = rest } in
      if is_empty ready
      then (taken, some (body, 0))
      else inject_all (delivered_event_ids J body) ready body 0 taken

  module _ (parse_room : Text → Option Text) where
    abbrev pub note_section : Bool → Text → Value → Ctx → Ctx
    note_section is_join room value c = record c {
      rooms = record c.rooms {
        tracker =
            if is_join
            then note_joined room (Json.get J (codes "unread_notifications") value) c.rooms.tracker
            else note_left room c.rooms.tracker;
      };
    }

    unfoldable pub process_room : Bool → Text → Value → Ctx → Ctx × Value
    process_room is_join room value c =
        let events = codes "timeline" ∷ codes "events" ∷ [] in
        decrypt_at J S H D room events value (
          scan_at J S H D room events value (
            scan_at J S H D room (codes "state" ∷ codes "events" ∷ []) value
              (note_section is_join room value c)))

    -- A room whose ID does not parse is passed over.
    abbrev process_named : Bool → Option Text → Value → Ctx → Ctx × Value
    process_named is_join none value c = (c, value)
    process_named is_join (some room) value c = process_room is_join room value c

    unfoldable pub process_rooms : Bool → Map Text Value → Ctx → Ctx × Map Text Value
    unfolding process_room
    process_rooms is_join [] c = (c, [])
    process_rooms is_join ((id, value) ∷ rooms) c =
        let (after, changed) = process_named is_join (parse_room id) value c in
        let (last, rest) = process_rooms is_join rooms after in (last, (id, changed) ∷ rest)

    unfoldable pub process_section : Bool → Text → Value → Ctx → Ctx × Value
    unfolding process_rooms
    process_section is_join section rooms c = elim (Json.get J section rooms >>=? as_object) [
      | none ↦ (c, rooms)
      | some members ↦
          let (after, changed) = process_rooms is_join members c in
          (after, Json.set J section (object changed) rooms)
    ]

    unfoldable pub process_sections : Value → Ctx → Ctx × Value
    unfolding process_section
    process_sections rooms c =
        let (joined, with_joined) = process_section true (codes "join") rooms c in
        process_section false (codes "leave") with_joined joined

    unfoldable pub process_sync_body : Value → Ctx → Injected
    unfolding process_sections inject
    process_sync_body body c = elim (Json.get J (codes "rooms") body) [
      | none ↦ inject body c
      | some rooms ↦
          let (after, changed) = process_sections rooms c in
          inject (Json.set J (codes "rooms") changed body) after
    ]
