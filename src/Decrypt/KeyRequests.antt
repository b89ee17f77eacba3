-- ===== src/Decrypt/KeyRequests.antt =====
-- `maybe_request_room_key` of src/crypto/decrypt.rs, and the task that it spawns. The calls of
-- matrix-sdk-crypto and `machine::send_and_mark` are arguments; `false` and `none` are their errors.
use ement_e2ee.Prelude.{
  ◌≡◌, refl, Bool, true, false, Option, none, some, List, ◌∷◌, Text, Text-discrete, if◌then◌else◌,
  elem, remove, Bool-cases, inl, inr,
}
use ement_e2ee.Json.{Json}
use ement_e2ee.Sdk.{Sdk}
use ement_e2ee.Media.Cache.{MediaHost}
use ement_e2ee.Decrypt.Event.{DecryptSdk, Context, KeyRequest, with_olm}

module _ (J : Json) (S : Sdk) (H : MediaHost J) (D : DecryptSdk J S) where
  open S use {Olm}
  open D use {Encrypted}

  abbrev Ctx : Type 0
  Ctx = Context J S H D

  abbrev pub requested_sessions : Ctx → List Text
  requested_sessions c = c.rooms.tracker.requested_sessions

  abbrev set_requested : List Text → Ctx → Ctx
  set_requested sessions c = record c {
    rooms = record c.rooms { tracker = record c.rooms.tracker { requested_sessions = sessions } };
  }

  unfoldable pub maybe_request_room_key : Text → Encrypted → Option Text → Ctx → Ctx
  maybe_request_room_key room raw none c = c
  maybe_request_room_key room raw (some session) c =
      if elem Text-discrete session (requested_sessions c)
      then c
      else record (set_requested (session ∷ requested_sessions c) c) {
        key_requests = record { room_id = room; session_id = session; raw = raw } ∷ c.key_requests;
      }

  module _ {Outgoing : Type 0}
      (request_room_key : Encrypted → Text → Olm → Olm × Option (Option Outgoing × Outgoing))
      (send_and_mark : Outgoing → Olm → Olm × Bool) where
    abbrev send_optional : Option Outgoing → Olm → Olm × Bool
    send_optional none olm = (olm, true)
    send_optional (some request) olm = send_and_mark request olm

    -- The cancellation of an earlier request goes first.
    unfoldable pub request_and_send : KeyRequest Encrypted → Olm → Olm × Bool
    request_and_send k olm =
        let (asked, requests) = request_room_key k.raw k.room_id olm in
        elim requests [
          | none ↦ (asked, false)
          | some (cancellation, request) ↦
              let (cancelled, sent) = send_optional cancellation asked in
              if sent then send_and_mark request cancelled else (cancelled, false)
        ]

    -- A session whose request failed may be asked for again.
    unfoldable pub key_request_task : KeyRequest Encrypted → Ctx → Ctx
    unfolding request_and_send
    key_request_task k c =
        let (olm, sent) = request_and_send k c.rooms.olm in
        let after = with_olm J S H D olm c in
        if sent
        then after
        else set_requested (remove Text-discrete k.session_id (requested_sessions after)) after

  pub maybe_request_room_key-repairs :
      (room : Text) (raw : Encrypted) (session : Option Text) (c : Ctx)
      → (maybe_request_room_key room raw session c).repairs ≡ c.repairs
  unfolding maybe_request_room_key
  maybe_request_room_key-repairs room raw none c = refl
  maybe_request_room_key-repairs room raw (some session) c =
      elim (Bool-cases (elem Text-discrete session (requested_sessions c))) [
        | inl h ↦ rw h refl
        | inr h ↦ rw h refl
      ]
