-- ===== src/Encrypt/RoomMessage.antt =====
-- `send_room_message_request` of src/crypto/encrypt.rs: a message of the verification machine.
-- `mark` is the parser of the response and `mark_request_as_sent`, `none` their error.
use ement_e2ee.Prelude.{
  ℕ, ◌≡◌, ◌⊎◌, refl, Bool, true, false, Option, none, some, ◌∷◌, ◌++◌, Text, codes, if◌then◌else◌,
  Bool-cases, Option-cases, inl, inr,
}
use ement_e2ee.Json.{Json}
use ement_e2ee.Sdk.{Sdk}
use ement_e2ee.Http.{Method, Request, Homeserver, is_success}
use ement_e2ee.Rooms.Settings.{Rooms}
use ement_e2ee.Rooms.Encryption.{Answer, is_room_encrypted}
use ement_e2ee.Encrypt.Content.{Megolm, encrypt_content}

-- Nothing went upstream; a request did, and the send failed after it; or all went well.
pub data MessageSent (V : Type 0) : Type 0 where
  not_sent : MessageSent V
  refused : Request V → MessageSent V
  sent : Request V → MessageSent V

pub record RoomMessageRequest (V : Type 0) : Type 0 where
  pub room_id : Text
  pub txn_id : Text
  pub event_type : Text
  pub content : V

module _ (J : Json) (S : Sdk) (enc : Text → Text) (respond : Text → Option (ℕ × Json.Value J))
    (G : Megolm S (Json.Value J)) (parse_user : Text → Option Text)
    (ask : Homeserver (Json.Value J))
    (mark : Text → Json.Value J → Sdk.Olm S → Option (Sdk.Olm S)) where
  open J use {Value}

  abbrev pub message_path : Text → Text → Text → Text
  message_path room wire_type txn =
      codes "/_matrix/client/v3/rooms/"
      ++ enc room
      ++ codes "/send/"
      ++ enc wire_type
      ++ b'/' ∷ enc txn

  abbrev pub message_request : Text → RoomMessageRequest Value → Text → Value → Request Value
  message_request token m wire_type wire_content = record {
    method = Method.put;
    path_and_query = message_path m.room_id wire_type m.txn_id;
    token = token;
    body = some wire_content;
  }

  unfoldable pub put_message : Text → Request Value → Rooms J S → Rooms J S × MessageSent Value
  put_message txn request r = elim (ask request) [
    | none ↦ (r, refused request)
    | some (status, body) ↦
        if is_success status
        then (elim (mark txn body r.olm) [
          | none ↦ (r, refused request)
          | some olm ↦ (record r { olm = olm }, sent request)
        ])
        else (r, refused request)
  ]

  unfoldable pub send_in :
      Text → ℕ → RoomMessageRequest Value → Bool → Rooms J S → Rooms J S × MessageSent Value
  unfolding put_message
  send_in token now m false r =
      put_message m.txn_id (message_request token m m.event_type m.content) r
  send_in token now m true r =
      let (after, result) =
        encrypt_content J S enc respond G parse_user now m.room_id m.event_type m.content r in
      elim result [
        | none ↦ (after, not_sent)
        | some encrypted ↦
            put_message m.txn_id (message_request token m (codes "m.room.encrypted") encrypted)
              after
      ]

  unfoldable pub send_room_message_request :
      Text → ℕ → RoomMessageRequest Value → Rooms J S → Rooms J S × MessageSent Value
  unfolding send_in
  send_room_message_request token now m r =
      let (after, answer) = is_room_encrypted J S enc respond m.room_id r in
      elim answer [
        | Answer.err ↦ (after, not_sent)
        | Answer.ok encrypted ↦ send_in token now m encrypted after
      ]

  abbrev pub Carries : Request Value → MessageSent Value → Type 0
  Carries request not_sent = ⊥
  Carries request (refused q) = q ≡ request
  Carries request (sent q) = q ≡ request

  put_message-Carries :
      (txn : Text) (request : Request Value) (r : Rooms J S)
      → Carries request (put_message txn request r).1
  unfolding put_message
  put_message-Carries txn request r = elim (Option-cases (ask request)) [
    | inl e ↦ rw (put_message, e) refl
    | inr ((status, body), e) ↦ elim (Bool-cases (is_success status)) [
      | inr f ↦ rw (put_message, e, f) refl
      | inl f ↦ elim (Option-cases (mark txn body r.olm)) [
        | inl g ↦ rw (put_message, e, f, g) refl
        | inr (olm, g) ↦ rw (put_message, e, f, g) refl
      ]
    ]
  ]

  -- What goes upstream for a verification message, by what is known of its room.
  abbrev pub Expected :
      Text → ℕ → RoomMessageRequest Value → Rooms J S → Answer Bool → MessageSent Value → Type 0
  Expected token now m r Answer.err outcome = outcome ≡ not_sent
  Expected token now m r (Answer.ok false) outcome =
      Carries (message_request token m m.event_type m.content) outcome
  Expected token now m r (Answer.ok true) outcome =
      (outcome ≡ not_sent)
      ⊎ ((encrypted : Value) × ((encrypt_content J S enc respond G parse_user now m.room_id
              m.event_type m.content r).1
            ≡ some encrypted)
          × Carries (message_request token m (codes "m.room.encrypted") encrypted) outcome)

  send_in-Expected :
      (token : Text) (now : ℕ) (m : RoomMessageRequest Value) (answer : Bool) (r : Rooms J S)
      → Expected token now m r (Answer.ok answer) (send_in token now m answer r).1
  unfolding send_in
  send_in-Expected token now m false r = put_message-Carries m.txn_id _ r
  send_in-Expected token now m true r =
      let result =
        encrypt_content J S enc respond G parse_user now m.room_id m.event_type m.content r in
      elim (Option-cases result.1) [
        | inl e ↦ rw (send_in, e) (inl refl)
        | inr (encrypted, e) ↦
            rw (send_in, e) (inr (encrypted, refl, put_message-Carries m.txn_id _ result.0))
      ]

  answered-Expected :
      (token : Text) (now : ℕ) (m : RoomMessageRequest Value) (answer : Answer Bool) (r : Rooms J S)
      → Expected token now m r answer
          (elim answer as (λ _. Rooms J S × MessageSent Value) [
            | Answer.err ↦ (r, not_sent)
            | Answer.ok encrypted ↦ send_in token now m encrypted r
          ]).1
  answered-Expected token now m Answer.err r = refl
  answered-Expected token now m (Answer.ok answer) r = send_in-Expected token now m answer r

  -- A message of the verification machine goes into an encrypted room only as what
  -- `encrypt_content` made of it, and not at all where that fails or where the room's encryption
  -- cannot be found out; into a room in the clear it goes as it is.
  pub send_room_message_request-Expected :
      (token : Text) (now : ℕ) (m : RoomMessageRequest Value) (r : Rooms J S)
      → let asked = is_room_encrypted J S enc respond m.room_id r in
        Expected token now m asked.0 asked.1 (send_room_message_request token now m r).1
  unfolding send_room_message_request
  send_room_message_request-Expected token now m r =
      answered-Expected token now m (is_room_encrypted J S enc respond m.room_id r).1
        (is_room_encrypted J S enc respond m.room_id r).0
