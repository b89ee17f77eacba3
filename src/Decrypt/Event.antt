-- ===== src/Decrypt/Event.antt =====
-- `decrypt`, `decrypt_event` and `maybe_feed_verification` of src/crypto/decrypt.rs. What they use
-- of matrix-sdk-crypto is a parameter; a parser's `none` is its error.
use ement_e2ee.Prelude.{
  ◌≡◌, Bool, true, false, ◌&&◌, ◌||◌, Option, none, some, List, [], ◌∷◌, Text, codes, eqb,
  Text-discrete, if◌then◌else◌, unwrap_or, is_some, ◌>>=?◌,
}
use ement_e2ee.Prelude.Str.{strip_prefix}
use ement_e2ee.Prelude.Map
use ement_e2ee.Prelude.Map.{Map}
use ement_e2ee.Json
use ement_e2ee.Json.{Json}
use ement_e2ee.Sdk.{Sdk}
use ement_e2ee.Media.Cache.{MediaHost}
use ement_e2ee.Media.Rewrite.{or_insert, harvest_and_rewrite_decrypted}
use ement_e2ee.Repair.Queue.{RepairQueue}
use ement_e2ee.Rooms.Settings.{Rooms}
use ement_e2ee.Decrypt.Placeholder.{unsigned_object}

-- `RoomEventDecryptionResult`, or the store's error. An event that decrypts has its JSON, if that
-- parses, and the JSON of its encryption info.
pub data Tried (V : Type 0) : Type 0 where
  plain : Option V → V → Tried V
  unable : Text → Option Text → Tried V
  store_error : Tried V

pub record DecryptSdk (J : Json) (S : Sdk) : Type 1 where
  pub Encrypted : Type 0
  pub Message : Type 0
  pub parse_encrypted : Json.Value J → Option Encrypted
  pub parse_message : Json.Value J → Option Message
  pub try_decrypt_room_event : Encrypted → Text → Sdk.Olm S → Sdk.Olm S × Tried (Json.Value J)
  pub receive_verification_event : Message → Sdk.Olm S → Sdk.Olm S
  -- A decrypted event is the event's envelope around its plaintext: it has the event's ID.
  pub event_id_kept :
      (event : Json.Value J) (raw : Encrypted) (room : Text) (olm after : Sdk.Olm S)
      (v info : Json.Value J)
      → parse_encrypted event ≡ some raw
      → try_decrypt_room_event raw room olm ≡ (after, plain (some v) info)
      → Json.get J (codes "event_id") v ≡ Json.get J (codes "event_id") event

-- `Decryption`
pub data Decryption (V Raw : Type 0) : Type 0 where
  decrypted : V → Decryption V Raw
  undecryptable : Text → Option Text → Raw → Decryption V Raw
  untouched : Decryption V Raw

-- A request for a room key that is in flight.
pub record KeyRequest (Raw : Type 0) : Type 0 where
  pub room_id : Text
  pub session_id : Text
  pub raw : Raw

module _ (J : Json) (S : Sdk) (H : MediaHost J) (D : DecryptSdk J S) where
  open J use {Value, bool, string, object, as_object}
  open S use {Olm}
  open H use {Db}
  open D use {
    Encrypted, parse_encrypted, parse_message, try_decrypt_room_event, receive_verification_event,
  }

  -- What the account's context holds for this.
  pub record Context : Type 0 where
    pub rooms : Rooms J S
    pub repairs : RepairQueue Value
    pub media : Db
    pub key_requests : List (KeyRequest Encrypted)

  abbrev pub with_olm : Olm → Context → Context
  with_olm olm c = record c { rooms = record c.rooms { olm = olm } }

  -- Members of the original `unsigned` that the decrypted event does not have.
  unfoldable pub merge_unsigned : Map Text Value → Map Text Value → Map Text Value
  unfolding or_insert
  merge_unsigned [] new = new
  merge_unsigned ((k, v) ∷ original) new = merge_unsigned original (or_insert k v new)

  abbrev pub decrypted_marker : Value → Value
  decrypted_marker info =
      object ((codes "decrypted", bool true) ∷ (codes "encryption_info", info) ∷ [])

  -- An `unsigned` that is no object is left as it is.
  unfoldable pub marked_unsigned : Value → Value → Value → Value
  unfolding merge_unsigned
  marked_unsigned event info new = elim (as_object new) [
    | none ↦ new
    | some m ↦ object (
        Map.insert Text-discrete (codes "ement_e2ee") (decrypted_marker info)
          (merge_unsigned (unwrap_or (unsigned_object J event) []) m))
  ]

  unfoldable pub with_unsigned : Value → Value → Map Text Value → Map Text Value
  unfolding marked_unsigned
  with_unsigned event info m =
      Map.insert Text-discrete (codes "unsigned")
        (marked_unsigned event info
          (unwrap_or (Map.get Text-discrete (codes "unsigned") m) (object [])))
        m

  unfoldable pub is_verification : Value → Bool
  is_verification event =
      let event_type = unwrap_or (Json.get_str J (codes "type") event) [] in
      is_some (strip_prefix (codes "m.key.verification.") event_type)
      || (eqb event_type (codes "m.room.message")
          && elim (Json.pointer J (codes "content" ∷ codes "msgtype" ∷ []) event >>=? J.as_str) [
            | none ↦ false
            | some msgtype ↦ eqb msgtype (codes "m.key.verification.request")
          ])

  unfoldable pub maybe_feed_verification : Value → Olm → Olm
  unfolding is_verification
  maybe_feed_verification event olm =
      if is_verification event
      then (elim (parse_message event) [
        | none ↦ olm
        | some message ↦ receive_verification_event message olm
      ])
      else olm

  -- A decrypted event that is an object, made ready for the client.
  unfoldable pub ready_event :
      Value → Value → Map Text Value → Context → Context × Decryption Value Encrypted
  unfolding with_unsigned maybe_feed_verification
  ready_event event info m c =
      let merged = object (with_unsigned event info m) in
      let olm = maybe_feed_verification merged c.rooms.olm in
      let (media, shown) = harvest_and_rewrite_decrypted J H merged c.media in
      (record (with_olm olm c) { media = media }, decrypted shown)

  unfoldable pub after_try :
      Value → Encrypted → Tried Value → Context → Context × Decryption Value Encrypted
  unfolding ready_event
  after_try event raw (plain none info) c = (c, untouched)
  after_try event raw (plain (some new_event) info) c = elim (as_object new_event) [
    | none ↦ (c, untouched)
    | some m ↦ ready_event event info m c
  ]
  after_try event raw (unable reason session_id) c = (c, undecryptable reason session_id raw)
  after_try event raw store_error c = (c, untouched)

  abbrev pub is_encrypted : Value → Bool
  is_encrypted event = elim (Json.get_str J (codes "type") event) [
    | none ↦ false
    | some event_type ↦ eqb event_type (codes "m.room.encrypted")
  ]

  unfoldable pub decrypt : Text → Value → Context → Context × Decryption Value Encrypted
  unfolding after_try
  decrypt room event c =
      if is_encrypted event
      then (elim (parse_encrypted event) [
        | none ↦ (c, untouched)
        | some raw ↦
            let (olm, tried) = try_decrypt_room_event raw room c.rooms.olm in
            after_try event raw tried (with_olm olm c)
      ])
      else (c, untouched)
