-- ===== src/Examples/Rooming.antt =====
-- Rooms and sends with a machine that is an association list of the rooms' settings.
use ement_e2ee.Prelude.{
  ℕ, ◌≡◌, ◌≢◌, ◌⊎◌, refl, true, false, Option, none, some, List, [], ◌∷◌, Text, codes,
  Text-discrete, arith,
}
use ement_e2ee.Prelude.Map
use ement_e2ee.Prelude.Map.{Map}
use ement_e2ee.Http.{Homeserver}
use ement_e2ee.Sdk.{Sdk, RoomSettings}
use ement_e2ee.Rooms.Tracker
use ement_e2ee.Rooms.Tracker.{RoomTracker}
use ement_e2ee.Rooms.Settings.{Rooms, note_settings, scan_state_events}
use ement_e2ee.Rooms.Encryption.{
  Answer, known_encryption, conclude_encryption, is_room_encrypted, encryption_path,
}
use ement_e2ee.Rooms.Laws.{Consistent, scan_state_events-Consistent}
use ement_e2ee.Rooms.Asking.{is_room_encrypted-false, asked, late_404_hides_encryption}
use ement_e2ee.Encrypt.Content.{Megolm, done}
use ement_e2ee.Encrypt.Send.{SendRequest, handle_send}
use ement_e2ee.Encrypt.Closed.{
  OnlyEncrypted, encrypted_room_sends_no_plaintext, plaintext_needs_clear_room,
}
use ement_e2ee.Examples.Tree.{Tree, leaf, text, tree_json, object_of}

pub insert_same :
    (o o' : Map Text (RoomSettings Text)) (room : Text) (s : RoomSettings Text)
    → some (Map.insert Text-discrete room s o) ≡ some o'
    → some (Map.get Text-discrete room o') ≡ some (some s)
insert_same o o' room s e = ground (arith, e, Map.get-insert_same Text-discrete room s o)

pub insert_other :
    (o o' : Map Text (RoomSettings Text)) (room other : Text) (s : RoomSettings Text)
    → some (Map.insert Text-discrete room s o) ≡ some o'
    → other ≢ room
    → some (Map.get Text-discrete other o') ≡ some (Map.get Text-discrete other o)
insert_other o o' room other s e n =
    ground (arith, e, Map.get-insert_ne Text-discrete room other s o n)

abbrev pub table_sdk : Sdk
table_sdk = record {
  Olm = Map Text (RoomSettings Text);
  Algorithm = Text;
  Visibility = Text;
  algorithm = λ t. t;
  visibility = λ t. t;
  shared = codes "shared";
  room_settings = λ m room. some (Map.get Text-discrete room m);
  set_room_settings = λ m room s. some (Map.insert Text-discrete room s m);
  room_settings-set_room_settings = insert_same;
  room_settings-set_room_settings_ne = insert_other;
}

abbrev pub megolm : RoomSettings Text
megolm = record {
  algorithm = codes "m.megolm.v1.aes-sha2";
  only_allow_trusted_devices = false;
  session_rotation_period = none;
  session_rotation_period_messages = none;
}

abbrev pub crypt : Megolm table_sdk Tree
crypt = record {
  Claim = ℕ;
  ToDevice = ℕ;
  default_settings = megolm;
  default_period = 604800000;
  default_period_msgs = 100;
  update_tracked_users = λ members o. (o, some done);
  get_missing_sessions = λ members o. (o, some (some 1));
  share_room_key = λ room members settings o. (o, some (1 ∷ []));
  encrypt_room_event_raw = λ room event_type content o. (o, some (text (codes "cipher")));
  pump = λ o. o;
  send_keys_claim = λ claim o. (o, some done);
  send_to_device = λ request o. (o, some done);
}

abbrev pub room : Text
room = codes "!r:b"

abbrev pub rooms_with : List Text → Map Text (RoomSettings Text) → Rooms tree_json table_sdk
rooms_with unencrypted stored = record {
  tracker = record Tracker.default { unencrypted = unencrypted };
  olm = stored;
}

abbrev pub as_is : Text → Text
as_is t = t

-- A homeserver that answers each GET with these members, or with 404, or not at all.
abbrev pub members_answer : Text → Option (ℕ × Tree)
members_answer path =
    some (200, object_of ((codes "joined", object_of ((codes "@a:b", leaf) ∷ [])) ∷ []))

abbrev missing_answer : Text → Option (ℕ × Tree)
missing_answer path = some (404, leaf)

abbrev no_answer : Text → Option (ℕ × Tree)
no_answer path = none

abbrev pub accepts : Homeserver Tree
accepts request = some (200, leaf)

abbrev hello : SendRequest Tree
hello = record {
  path_and_query = codes "/p";
  body_readable = true;
  content = some (text (codes "hello"));
}

empty-Consistent : Consistent tree_json table_sdk (rooms_with [] [])
unfolding Consistent Tracker.is_known_unencrypted
empty-Consistent r s known stored = absurd (ground arith)

stored-Consistent : Consistent tree_json table_sdk (rooms_with [] ((room, megolm) ∷ []))
unfolding Consistent Tracker.is_known_unencrypted
stored-Consistent r s known stored = absurd (ground arith)

encrypted_room_sends_no_plaintext_example :
    OnlyEncrypted tree_json table_sdk as_is members_answer crypt some some
      (λ c. c)
      some
      accepts
      0
      room
      (codes "m.room.message")
      (codes "t")
      hello.content
      (rooms_with [] ((room, megolm) ∷ []))
      (handle_send tree_json table_sdk as_is members_answer crypt some some
        (λ c. c)
        some
        accepts
        0
        (codes "tok")
        room
        (codes "m.room.message")
        (codes "t")
        hello
        (rooms_with [] ((room, megolm) ∷ []))).1
unfolding Text-discrete is_room_encrypted Tracker.is_known_unencrypted Map.get
encrypted_room_sends_no_plaintext_example =
    encrypted_room_sends_no_plaintext tree_json table_sdk as_is members_answer crypt some some
      (λ c. c) some accepts 0 (codes "tok") room room (codes "m.room.message") (codes "t") hello
      (rooms_with [] ((room, megolm) ∷ [])) refl refl refl

plaintext_needs_clear_room_example :
    OnlyEncrypted tree_json table_sdk as_is no_answer crypt some some
      (λ c. c)
      some
      accepts
      0
      room
      (codes "m.room.message")
      (codes "t")
      hello.content
      (is_room_encrypted tree_json table_sdk as_is no_answer room (rooms_with [] [])).0
      (handle_send tree_json table_sdk as_is no_answer crypt some some
        (λ c. c)
        some
        accepts
        0
        (codes "tok")
        room
        (codes "m.room.message")
        (codes "t")
        hello
        (rooms_with [] [])).1
    ⊎ (Tracker.is_known_unencrypted room (rooms_with [] []).tracker ≡ true)
    ⊎ ((body : Tree) × (no_answer (encryption_path tree_json table_sdk as_is no_answer room)
          ≡ some (404, body)))
unfolding Text-discrete
plaintext_needs_clear_room_example =
    plaintext_needs_clear_room tree_json table_sdk as_is no_answer crypt some some (λ c. c) some
      accepts 0 (codes "tok") room room (codes "m.room.message") (codes "t") hello
      (rooms_with [] []) refl refl

abbrev encryption_event : Tree
encryption_event = object_of (
    (codes "type", text (codes "m.room.encryption"))
    ∷ (codes "state_key", text [])
    ∷ (codes "content", object_of ((codes "algorithm", text (codes "m.megolm.v1.aes-sha2")) ∷ []))
    ∷ [])

scan_state_events-Consistent_example :
    Consistent tree_json table_sdk
      (scan_state_events tree_json table_sdk room (encryption_event ∷ []) (rooms_with [] []))
scan_state_events-Consistent_example =
    scan_state_events-Consistent tree_json table_sdk room (encryption_event ∷ []) (rooms_with [] [])
      empty-Consistent

is_room_encrypted-false_example :
    (Tracker.is_known_unencrypted room (rooms_with [] []).tracker ≡ true)
    ⊎ ((body : Tree) × (missing_answer
            (encryption_path tree_json table_sdk as_is missing_answer room)
          ≡ some (404, body)))
unfolding is_room_encrypted Tracker.is_known_unencrypted Map.get
is_room_encrypted-false_example =
    is_room_encrypted-false tree_json table_sdk as_is missing_answer room (rooms_with [] []) refl

late_404_hides_encryption_example :
    let after =
      (conclude_encryption tree_json table_sdk room
        (some (404, leaf))
        (note_settings tree_json table_sdk room megolm (rooms_with [] []))).0 in
    (some (Map.get Text-discrete room after.olm) ≡ some (some megolm))
    × (is_room_encrypted tree_json table_sdk as_is no_answer room
          (asked tree_json table_sdk as_is no_answer (room ∷ codes "!b" ∷ []) after)
        ≡ (
          asked tree_json table_sdk as_is no_answer (room ∷ codes "!b" ∷ []) after,
          Answer.ok false,
        ))
unfolding known_encryption Tracker.is_known_unencrypted Map.get
late_404_hides_encryption_example =
    late_404_hides_encryption tree_json table_sdk as_is no_answer room (rooms_with [] [])
      (Map.insert Text-discrete room megolm []) megolm leaf (room ∷ codes "!b" ∷ []) refl refl
