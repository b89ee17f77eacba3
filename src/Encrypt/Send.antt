-- ===== src/Encrypt/Send.antt =====
-- `handle_send` of src/crypto/encrypt.rs. The two media functions of src/crypto/media.rs that it
-- calls, and the percent encoding, are arguments; `ask` is the homeserver's answer to the send.
use ement_e2ee.Prelude.{
  ℕ, Bool, true, false, Option, none, some, ◌++◌, Text, codes, eqb, if◌then◌else◌,
}
use ement_e2ee.Json.{Json}
use ement_e2ee.Sdk.{Sdk}
use ement_e2ee.Http.{Method, Request, Homeserver}
use ement_e2ee.Rooms.Settings.{Rooms}
use ement_e2ee.Rooms.Encryption.{Answer, is_room_encrypted}
use ement_e2ee.Encrypt.Content.{Megolm, encrypt_content}
use ement_e2ee.Proxy.Error.{ProxyError}

-- What becomes of the client's request: passed through as it is, an error, or a request of the
-- proxy's own with the homeserver's answer to it.
pub data Sent (V : Type 0) : Type 0 where
  passed_through : Sent V
  failed : ProxyError → Sent V
  forwarded : Request V → Option (ℕ × V) → Sent V

-- What of a client's request `handle_send` reads: its path, its body, if that could be read, and
-- the body as JSON, if it is.
pub record SendRequest (V : Type 0) : Type 0 where
  pub path_and_query : Text
  pub body_readable : Bool
  pub content : Option V

module _ (J : Json) (S : Sdk) (enc : Text → Text) (respond : Text → Option (ℕ × Json.Value J))
    (G : Megolm S (Json.Value J)) (parse_room parse_user : Text → Option Text)
    (rewrite : Json.Value J → Json.Value J) (reupload : Json.Value J → Option (Json.Value J))
    (ask : Homeserver (Json.Value J)) where
  open J use {Value}

  unfoldable pub encrypted_path : Text → Text → Text
  encrypted_path room txn =
      codes "/_matrix/client/v3/rooms/" ++ enc room ++ codes "/send/m.room.encrypted/" ++ enc txn

  unfoldable pub forward : Text → Text → Value → Sent Value
  forward token path content =
      let request : Request Value = record {
        method = Method.put;
        path_and_query = path;
        token = token;
        body = some content;
      } in
      forwarded request (ask request)

  unfoldable pub send_encrypted :
      ℕ → Text → Text → Text → Text → Value → Rooms J S → Rooms J S × Sent Value
  unfolding encrypted_path forward
  send_encrypted now token room event_type txn content r =
      let (after, result) =
        encrypt_content J S enc respond G parse_user now room event_type (rewrite content) r in
      elim result [
        | none ↦ (after, failed ProxyError.internal)
        | some encrypted ↦ (after, forward token (encrypted_path room txn) encrypted)
      ]

  unfoldable pub send_plain : Text → Text → Value → Sent Value
  unfolding forward
  send_plain token path content = elim (reupload content) [
    | none ↦ failed ProxyError.internal
    | some fixed ↦ forward token path fixed
  ]

  -- The body of the request, after the room's encryption is known.
  unfoldable pub send_known :
      ℕ → Text → Text → Text → Text → SendRequest Value → Bool → Rooms J S → Rooms J S × Sent Value
  unfolding send_encrypted send_plain
  send_known now token room event_type txn req encrypted r =
      if req.body_readable
      then elim req.content [
        | none ↦ (r, failed ProxyError.bad_request)
        | some content ↦ elim encrypted [
          | true ↦ send_encrypted now token room event_type txn content r
          | false ↦ (r, send_plain token req.path_and_query content)
        ]
      ]
      else (r, failed ProxyError.bad_request)

  unfoldable pub handle_send :
      ℕ → Text → Text → Text → Text → SendRequest Value → Rooms J S → Rooms J S × Sent Value
  unfolding send_known
  handle_send now token room_id event_type txn req r = elim (parse_room room_id) [
    | none ↦ (r, passed_through)
    | some room ↦
        if eqb event_type (codes "m.room.encrypted")
        then (r, passed_through)
        else let (after, answer) = is_room_encrypted J S enc respond room r in
          elim answer [
            | Answer.err ↦ (after, failed ProxyError.internal)
            | Answer.ok encrypted ↦ send_known now token room event_type txn req encrypted after
          ]
  ]
