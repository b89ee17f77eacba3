-- ===== src/Machine/Requests.antt =====
-- `send_and_mark`, `mark_as_sent`, `send_keys_claim` and `send_to_device` of src/crypto/machine.rs.
-- `enc` is the percent encoding. The bodies that ruma's types serialize to are JSON here; its
-- parsers of responses and the OlmMachine are a parameter.
use ement_e2ee.Prelude.{
  ℕ, ◌%◌, ◌^◌, Bool, false, Option, none, some, List, [], ◌∷◌, ◌++◌, Text, codes, Text-discrete,
  if◌then◌else◌, is_empty,
}
use ement_e2ee.Prelude.Map
use ement_e2ee.Prelude.Map.{Map}
use ement_e2ee.Json
use ement_e2ee.Json.{Json}
use ement_e2ee.Http.{Method, Request, Homeserver, is_success}

-- `AnyOutgoingRequest`; a timeout is in milliseconds.
pub data AnyOutgoingRequest (V : Type 0) : Type 0 where
  keys_upload : Option V → Map Text V → Map Text V → AnyOutgoingRequest V
  keys_query : V → Option ℕ → AnyOutgoingRequest V
  keys_claim : V → Option ℕ → AnyOutgoingRequest V
  to_device : Text → Text → V → AnyOutgoingRequest V
  signature_upload : V → AnyOutgoingRequest V
  room_message : Text → Text → Text → V → AnyOutgoingRequest V

pub record OutgoingRequest (V : Type 0) : Type 0 where
  pub request_id : Text
  pub request : AnyOutgoingRequest V

-- Which response type answers a request.
pub data Kind : Type 0 where
  upload_response : Kind
  query_response : Kind
  claim_response : Kind
  to_device_response : Kind
  signature_response : Kind
  message_response : Kind

abbrev pub kind : {V : Type 0} → AnyOutgoingRequest V → Kind
kind (keys_upload _ _ _) = upload_response
kind (keys_query _ _) = query_response
kind (keys_claim _ _) = claim_response
kind (to_device _ _ _) = to_device_response
kind (signature_upload _) = signature_response
kind (room_message _ _ _ _) = message_response

-- A batch of room keys for the backup.
pub record KeysBackupRequest (V : Type 0) : Type 0 where
  pub version : Text
  pub rooms : V

-- What the program uses of the OlmMachine here; `none` and `false` are its errors.
pub record Queue (V : Type 0) : Type 1 where
  pub Olm : Type 0
  pub Response : Type 0
  pub BackupResponse : Type 0
  pub outgoing_requests : Olm → Olm × Option (List (OutgoingRequest V))
  pub parse_response : Kind → V → Option Response
  pub mark_request_as_sent : Text → Response → Olm → Olm × Bool
  pub backup_enabled : Olm → Bool
  pub backup : Olm → Olm × Option (Option (Text × KeysBackupRequest V))
  pub parse_backup_response : V → Option BackupResponse
  pub mark_backup_as_sent : Text → BackupResponse → Olm → Olm × Bool

-- The machine, and the requests that went to the homeserver, the last first.
pub record Wire {V : Type 0} (Q : Queue V) : Type 0 where
  pub olm : Queue.Olm Q
  pub sent : List (Request V)

module _ (J : Json) (enc : Text → Text) where
  open J use {Value, number, object}

  abbrev pub to_device_path : Text → Text → Text
  to_device_path event_type txn_id =
      codes "/_matrix/client/v3/sendToDevice/" ++ enc event_type ++ b'/' ∷ enc txn_id

  abbrev optional_member : Text → Option Value → Map Text Value → Map Text Value
  optional_member k none m = m
  optional_member k (some v) m = Map.insert Text-discrete k v m

  -- A map of keys, if there are any.
  abbrev filled_member : Text → Map Text Value → Map Text Value → Map Text Value
  filled_member k keys m = if is_empty keys then m else Map.insert Text-discrete k (object keys) m

  abbrev timed_body : Text → Value → Option ℕ → Value
  timed_body k v none = object ((k, v) ∷ [])
  timed_body k v (some timeout) =
      Json.set J (codes "timeout") (number (timeout % 2 ^ 64)) (object ((k, v) ∷ []))

  abbrev posted : Text → Text → Value → Request Value
  posted token path body = record {
    method = Method.post;
    path_and_query = path;
    token = token;
    body = some body;
  }

  abbrev put_to : Text → Text → Value → Request Value
  put_to token path body = record {
    method = Method.put;
    path_and_query = path;
    token = token;
    body = some body;
  }

  unfoldable pub http_request : Text → AnyOutgoingRequest Value → Request Value
  http_request token (keys_upload device_keys one_time_keys fallback_keys) =
      posted token (codes "/_matrix/client/v3/keys/upload") (
        object (
          filled_member (codes "fallback_keys") fallback_keys (
            filled_member (codes "one_time_keys") one_time_keys
              (optional_member (codes "device_keys") device_keys []))))
  http_request token (keys_query device_keys timeout) =
      posted token (codes "/_matrix/client/v3/keys/query")
        (timed_body (codes "device_keys") device_keys timeout)
  http_request token (keys_claim one_time_keys timeout) =
      posted token (codes "/_matrix/client/v3/keys/claim")
        (timed_body (codes "one_time_keys") one_time_keys timeout)
  http_request token (to_device event_type txn_id messages) =
      put_to token (to_device_path event_type txn_id) (object ((codes "messages", messages) ∷ []))
  http_request token (signature_upload signed_keys) =
      posted token (codes "/_matrix/client/v3/keys/signatures/upload") signed_keys
  http_request token (room_message room_id event_type txn_id content) =
      put_to token
        (codes "/_matrix/client/v3/rooms/"
          ++ enc room_id
          ++ codes "/send/"
          ++ enc event_type
          ++ b'/' ∷ enc txn_id)
        content

  module _ (Q : Queue Value) (ask : Homeserver Value) (token : Text) where
    open Q use {Olm, Response, parse_response, mark_request_as_sent}

    -- A request, and its answer if that is a success.
    unfoldable pub exchange : Request Value → Wire Q → Wire Q × Option Value
    exchange request w =
        let after : Wire Q = record w { sent = request ∷ w.sent } in
        elim (ask request) [
          | none ↦ (after, none)
          | some (status, body) ↦ (after, if is_success status then some body else none)
        ]

    abbrev on_olm : (Olm → Olm × Bool) → Wire Q → Wire Q × Bool
    on_olm f w = let (olm, done) = f w.olm in (record w { olm = olm }, done)

    unfoldable pub mark_as_sent : Text → Kind → Value → Wire Q → Wire Q × Bool
    mark_as_sent id k body w = elim (parse_response k body) [
      | none ↦ (w, false)
      | some response ↦ on_olm (mark_request_as_sent id response) w
    ]

    unfoldable pub send_as : Text → AnyOutgoingRequest Value → Wire Q → Wire Q × Bool
    unfolding exchange mark_as_sent http_request
    send_as id request w =
        let (after, answer) = exchange (http_request token request) w in
        elim answer [
          | none ↦ (after, false)
          | some body ↦ mark_as_sent id (kind request) body after
        ]

    unfoldable pub send_and_mark : OutgoingRequest Value → Wire Q → Wire Q × Bool
    unfolding send_as
    send_and_mark r w = send_as r.request_id r.request w

    -- Claims and to-device messages that a send has just made.
    unfoldable pub send_keys_claim : Text → Value → Option ℕ → Wire Q → Wire Q × Bool
    unfolding send_as
    send_keys_claim txn_id one_time_keys timeout w =
        send_as txn_id (keys_claim one_time_keys timeout) w

    unfoldable pub send_to_device : Text → Text → Value → Wire Q → Wire Q × Bool
    unfolding send_as
    send_to_device txn_id event_type messages w =
        send_as txn_id (to_device event_type txn_id messages) w
