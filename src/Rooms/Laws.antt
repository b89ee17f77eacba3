-- ===== src/Rooms/Laws.antt =====
-- When src/crypto/rooms.rs takes a room for encrypted: one request at a time, and with a sync
-- between a request for the room's state and its answer.
use ement_e2ee.Prelude.{
  ◌≡◌, ◌≢◌, refl, sym, ap, ◌∙◌, inl, inr, true, false, none, some, List, [], ◌∷◌, arith, Text,
  Text-discrete, codes, eqb, elem, elem-remove, Bool-cases, Option-cases, ◌>>=?◌,
}
use ement_e2ee.Json
use ement_e2ee.Json.{Json}
use ement_e2ee.Sdk.{Sdk, RoomSettings}
use ement_e2ee.Rooms.Tracker.{
  RoomTracker, is_known_unencrypted, mark_unencrypted, mark_encrypted, set_history_visibility,
  invalidate_members,
}
use ement_e2ee.Rooms.Settings.{
  Rooms, note_settings, keep_rejected, room_settings_from_content, scan_encryption, scan_visibility,
  scan_typed, scan_event, scan_state_events,
}

module _ {Vis V : Type 0} where
  pub is_known_unencrypted-mark_encrypted :
      (room other : Text) (t : RoomTracker Vis V)
      → is_known_unencrypted other (mark_encrypted room t)
        ≡ elim (Text-discrete other room) [ yes _ ↦ false | no _ ↦ is_known_unencrypted other t ]
  unfolding is_known_unencrypted mark_encrypted
  is_known_unencrypted-mark_encrypted room other t =
      elem-remove Text-discrete other room t.unencrypted

  pub is_known_unencrypted-mark_unencrypted :
      (room other : Text) (t : RoomTracker Vis V)
      → is_known_unencrypted other (mark_unencrypted room t)
        ≡ elim (Text-discrete other room) [ yes _ ↦ true | no _ ↦ is_known_unencrypted other t ]
  unfolding is_known_unencrypted mark_unencrypted
  is_known_unencrypted-mark_unencrypted room other t = ground arith

module _ (J : Json) (S : Sdk) where
  open J use {Value}
  open S use {Olm, Algorithm, room_settings, set_room_settings}

  -- No room is both in the negative cache and with settings in the store.
  unfoldable pub Consistent : Rooms J S → Type 0
  Consistent r =
      (room : Text) (s : RoomSettings Algorithm)
      → is_known_unencrypted room r.tracker ≡ true
      → room_settings r.olm room ≢ some (some s)

  note_settings-others :
      (room other : Text) (s : RoomSettings Algorithm) (o : Olm)
      → other ≢ room
      → room_settings (keep_rejected J S o (set_room_settings o room s)) other
        ≡ room_settings o other
  note_settings-others room other s o d = elim (Option-cases (set_room_settings o room s)) [
    | inl rejected ↦ rw rejected refl
    | inr (o', kept) ↦ rw kept (S.room_settings-set_room_settings_ne o o' room other s kept d)
  ]

  pub note_settings-Consistent :
      (room : Text) (s : RoomSettings Algorithm) (r : Rooms J S)
      → Consistent r
      → Consistent (note_settings J S room s r)
  unfolding Consistent note_settings
  note_settings-Consistent room s r v other s' known stored = elim (Text-discrete other room) [
    | yes e ↦ ground (arith, known, is_known_unencrypted-mark_encrypted room other r.tracker)
    | no d ↦
        v other s' (ground (arith, known, is_known_unencrypted-mark_encrypted room other r.tracker))
          (sym (note_settings-others room other s r.olm d) ∙ stored)
  ]

  -- The negative cache and the settings decide for the rooms apart from `room`.
  pub mark_unencrypted-Consistent :
      (room : Text) (r : Rooms J S)
      → room_settings r.olm room ≡ some none
      → Consistent r
      → Consistent (record r { tracker = mark_unencrypted room r.tracker })
  unfolding Consistent
  mark_unencrypted-Consistent room r none_stored v other s known stored =
      elim (Text-discrete other room) [
        | yes e ↦
            let both : some none ≡ some (some s) =
              sym none_stored ∙ (ap (room_settings r.olm) (sym e) ∙ stored) in
            ground arith
        | no d ↦
            v other s
              (ground (arith, known, is_known_unencrypted-mark_unencrypted room other r.tracker))
              stored
      ]

  untouched-Consistent :
      (r r' : Rooms J S)
      → r'.tracker.unencrypted ≡ r.tracker.unencrypted
      → r'.olm ≡ r.olm
      → Consistent r
      → Consistent r'
  unfolding Consistent is_known_unencrypted
  untouched-Consistent r r' e f v room s known stored =
      v room s (ap (elem Text-discrete room) (sym e) ∙ known)
        (ap (λ o. room_settings o room) (sym f) ∙ stored)

  scan_encryption-Consistent :
      (room : Text) (event : Value) (r : Rooms J S)
      → Consistent r
      → Consistent (scan_encryption J S room event r)
  unfolding scan_encryption
  scan_encryption-Consistent room event r v =
      elim (Option-cases (Json.get J (codes "content") event >>=? room_settings_from_content J S)) [
        | inl absent ↦ rw (scan_encryption, absent) v
        | inr (s, found) ↦ rw (scan_encryption, found) (note_settings-Consistent room s r v)
      ]

  scan_visibility-Consistent :
      (room : Text) (event : Value) (r : Rooms J S)
      → Consistent r
      → Consistent (scan_visibility J S room event r)
  unfolding scan_visibility set_history_visibility
  scan_visibility-Consistent room event r v =
      elim (Option-cases (
        Json.pointer J (codes "content" ∷ codes "history_visibility" ∷ []) event
        >>=? Json.as_str J)) [
          | inl absent ↦ rw (scan_visibility, absent) v
          | inr (s, found) ↦ rw (scan_visibility, found) (untouched-Consistent r _ refl refl v)
        ]

  scan_typed-Consistent :
      (room : Text) (event : Value) (event_type : Text) (r : Rooms J S)
      → Consistent r
      → Consistent (scan_typed J S room event event_type r)
  unfolding scan_typed invalidate_members
  scan_typed-Consistent room event event_type r v =
      elim (Bool-cases (eqb event_type (codes "m.room.encryption"))) [
        | inl encryption ↦ rw encryption (scan_encryption-Consistent room event r v)
        | inr a ↦ elim (Bool-cases (eqb event_type (codes "m.room.history_visibility"))) [
          | inl visibility ↦ rw (a, visibility) (scan_visibility-Consistent room event r v)
          | inr b ↦ elim (Bool-cases (eqb event_type (codes "m.room.member"))) [
            | inl member ↦ rw (a, b, member) (untouched-Consistent r _ refl refl v)
            | inr c ↦ rw (a, b, c) v
          ]
        ]
      ]

  scan_event-Consistent :
      (room : Text) (event : Value) (r : Rooms J S)
      → Consistent r
      → Consistent (scan_event J S room event r)
  unfolding scan_event
  scan_event-Consistent room event r v =
      elim (Option-cases (Json.get_str J (codes "state_key") event)) [
        | inl absent ↦ rw (scan_event, absent) v
        | inr (k, state) ↦ elim (Option-cases (Json.get_str J (codes "type") event)) [
          | inl untyped ↦ rw (scan_event, state, untyped) v
          | inr (t, typed) ↦ rw (scan_event, state, typed) (scan_typed-Consistent room event t r v)
        ]
      ]

  -- Reading the state events of a sync, whatever they hold, keeps the negative cache and the
  -- stored settings apart: no room is in both.
  pub scan_state_events-Consistent :
      (room : Text) (events : List Value) (r : Rooms J S)
      → Consistent r
      → Consistent (scan_state_events J S room events r)
  unfolding scan_state_events
  scan_state_events-Consistent room [] r v = v
  scan_state_events-Consistent room (event ∷ events) r v =
      scan_state_events-Consistent room events (scan_event J S room event r)
        (scan_event-Consistent room event r v)
