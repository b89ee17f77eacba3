-- ===== src/Encrypt/Closed.antt =====
-- `handle_send` of src/crypto/encrypt.rs fails closed.
use ement_e2ee.Prelude.{
  ℕ, ◌≡◌, ◌⊎◌, refl, inl, inr, Bool, true, false, Option, some, Text, codes, eqb, Bool-cases,
  Option-cases,
}
use ement_e2ee.Json.{Json}
use ement_e2ee.Sdk.{Sdk}
use ement_e2ee.Http.{Homeserver}
use ement_e2ee.Rooms.Settings.{Rooms}
use ement_e2ee.Rooms.Tracker.{is_known_unencrypted}
use ement_e2ee.Rooms.Encryption.{Answer, is_room_encrypted, encryption_path}
use ement_e2ee.Rooms.Asking.{is_room_encrypted-false}
use ement_e2ee.Encrypt.Content.{Megolm, encrypt_content}
use ement_e2ee.Encrypt.Send.{
  Sent, SendRequest, encrypted_path, forward, send_encrypted, send_known, handle_send,
}

answer_cases :
    (answer : Answer Bool)
    → (answer ≡ Answer.ok true) ⊎ (answer ≡ Answer.ok false) ⊎ (answer ≡ Answer.err)
answer_cases (Answer.ok true) = inl refl
answer_cases (Answer.ok false) = inr (inl refl)
answer_cases Answer.err = inr (inr refl)

module _ (J : Json) (S : Sdk) (enc : Text → Text) (respond : Text → Option (ℕ × Json.Value J))
    (G : Megolm S (Json.Value J)) (parse_room parse_user : Text → Option Text)
    (rewrite : Json.Value J → Json.Value J) (reupload : Json.Value J → Option (Json.Value J))
    (ask : Homeserver (Json.Value J)) where
  open J use {Value}

  -- Nothing goes upstream but what `encrypt_content` made of the rewritten content, on the path
  -- for encrypted events; and it is not the client's request itself.
  abbrev pub OnlyEncrypted : ℕ → Text → Text → Text → Option Value → Rooms J S → Sent Value → Type 0
  OnlyEncrypted now room event_type txn given r Sent.passed_through = ⊥
  OnlyEncrypted now room event_type txn given r (Sent.failed e) = Unit
  OnlyEncrypted now room event_type txn given r (Sent.forwarded request answer) =
      (content : Value) × (encrypted : Value) × (given ≡ some content)
      × ((encrypt_content J S enc respond G parse_user now room event_type (rewrite content) r).1
          ≡ some encrypted)
      × (request.path_and_query
          ≡ encrypted_path J S enc respond G parse_room parse_user rewrite reupload ask room txn)
      × (request.body ≡ some encrypted)

  send_encrypted-OnlyEncrypted :
      (now : ℕ) (token room event_type txn : Text) (content : Value) (r : Rooms J S)
      → OnlyEncrypted now room event_type txn
          (some content)
          r
          (send_encrypted J S enc respond G parse_room parse_user rewrite reupload ask now token
            room event_type txn content r).1
  unfolding send_encrypted forward
  send_encrypted-OnlyEncrypted now token room event_type txn content r =
      let result =
        encrypt_content J S enc respond G parse_user now room event_type (rewrite content) r in
      elim (Option-cases result.1) [
        | inl failed ↦ rw (send_encrypted, failed) tt
        | inr (encrypted, done) ↦
            rw (send_encrypted, done) (content, encrypted, refl, done, refl, refl)
      ]

  send_known-OnlyEncrypted :
      (now : ℕ) (token room event_type txn : Text) (req : SendRequest Value) (r : Rooms J S)
      → OnlyEncrypted now room event_type txn req.content r
          (send_known J S enc respond G parse_room parse_user rewrite reupload ask now token room
            event_type txn req true r).1
  unfolding send_known
  send_known-OnlyEncrypted now token room event_type txn req r =
      elim (Bool-cases req.body_readable) [
        | inr unread ↦ rw unread tt
        | inl read ↦ elim (Option-cases req.content) [
          | inl bad ↦ rw (read, bad) tt
          | inr (content, good) ↦
              rw (read, good) (send_encrypted-OnlyEncrypted now token room event_type txn content r)
        ]
      ]

  -- In a room, of an ID that parses, that is answered to be encrypted, a send of anything but an
  -- event that is encrypted already either fails or forwards what `encrypt_content` made of the
  -- rewritten content, as an encrypted event with the client's transaction: the content itself
  -- goes nowhere.
  pub encrypted_room_sends_no_plaintext :
      (now : ℕ) (token room_id room event_type txn : Text) (req : SendRequest Value) (r : Rooms J S)
      → parse_room room_id ≡ some room
      → eqb event_type (codes "m.room.encrypted") ≡ false
      → (is_room_encrypted J S enc respond room r).1 ≡ Answer.ok true
      → OnlyEncrypted now room event_type txn req.content
          (is_room_encrypted J S enc respond room r).0
          (handle_send J S enc respond G parse_room parse_user rewrite reupload ask now token
            room_id event_type txn req r).1
  unfolding handle_send
  encrypted_room_sends_no_plaintext now token room_id room event_type txn req r parsed plain
        encrypted =
      rw (handle_send, parsed, plain, encrypted)
        (send_known-OnlyEncrypted now token room event_type txn req
          (is_room_encrypted J S enc respond room r).0)

  -- In a room of an ID that parses, a send of anything but an event that is encrypted already
  -- either fails or forwards what `encrypt_content` made of the rewritten content, unless the room
  -- is in the negative cache or the homeserver answers 404 to the request for its encryption: no
  -- other answer, and no failure of that request, lets the content out as it is.
  pub plaintext_needs_clear_room :
      (now : ℕ) (token room_id room event_type txn : Text) (req : SendRequest Value) (r : Rooms J S)
      → parse_room room_id ≡ some room
      → eqb event_type (codes "m.room.encrypted") ≡ false
      → OnlyEncrypted now room event_type txn req.content
          (is_room_encrypted J S enc respond room r).0
          (handle_send J S enc respond G parse_room parse_user rewrite reupload ask now token
            room_id event_type txn req r).1
        ⊎ (is_known_unencrypted room r.tracker ≡ true)
        ⊎ ((body : Value) × (respond (encryption_path J S enc respond room) ≡ some (404, body)))
  unfolding handle_send
  plaintext_needs_clear_room now token room_id room event_type txn req r parsed plain =
      elim (answer_cases (is_room_encrypted J S enc respond room r).1) [
        | inl encrypted ↦ inl (
            encrypted_room_sends_no_plaintext now token room_id room event_type txn req r parsed
              plain encrypted)
        | inr (inl clear) ↦ inr (is_room_encrypted-false J S enc respond room r clear)
        | inr (inr unknown) ↦ inl (rw (handle_send, parsed, plain, unknown) tt)
      ]
