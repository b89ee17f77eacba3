-- ===== src/Decrypt/KeyRequestsLaws.antt =====
-- How often a room key is asked for: `maybe_request_room_key` of src/crypto/decrypt.rs, and the tasks
-- that it spawns, in whatever order they run.
use ement_e2ee.Prelude.{
  ℕ, ◌+◌, ◌≤◌, ◌≡◌, refl, Bool, true, Option, none, some, List, [], ◌∷◌, Text, Text-discrete, eqb,
  if◌then◌else◌, elem, retain, length, arith, elem-remove, Bool-cases, inl, inr,
}
use ement_e2ee.Json.{Json}
use ement_e2ee.Sdk.{Sdk}
use ement_e2ee.Media.Cache.{MediaHost}
use ement_e2ee.Decrypt.Event.{DecryptSdk, Context, KeyRequest, with_olm}
use ement_e2ee.Decrypt.KeyRequests.{
  requested_sessions, maybe_request_room_key, request_and_send, key_request_task,
}

-- An event that cannot be decrypted, with its room and session; a spawned task that runs; or
-- anything else that changes the machine.
pub data Step (Raw Olm : Type 0) : Type 0 where
  undecryptable : Text → Raw → Option Text → Step Raw Olm
  task : KeyRequest Raw → Step Raw Olm
  machine_changes : Olm → Step Raw Olm

module _ (J : Json) (S : Sdk) (H : MediaHost J) (D : DecryptSdk J S) {Outgoing : Type 0}
    (request_room_key : DecryptSdk.Encrypted D
      → Text
      → Sdk.Olm S
      → Sdk.Olm S × Option (Option Outgoing × Outgoing))
    (send_and_mark : Outgoing → Sdk.Olm S → Sdk.Olm S × Bool) where
  open S use {Olm}
  open D use {Encrypted}

  abbrev Ctx : Type 0
  Ctx = Context J S H D

  abbrev pub step : Step Encrypted Olm → Ctx → Ctx
  step (undecryptable room raw session) c = maybe_request_room_key J S H D room raw session c
  step (task k) c = key_request_task J S H D request_room_key send_and_mark k c
  step (machine_changes olm) c = with_olm J S H D olm c

  abbrev pub run : List (Step Encrypted Olm) → Ctx → Ctx
  run [] c = c
  run (s ∷ steps) c = run steps (step s c)

  abbrev pub failed_for : Text → Step Encrypted Olm → Ctx → ℕ
  failed_for session (undecryptable _ _ _) c = 0
  failed_for session (task k) c =
      if (request_and_send J S H D request_room_key send_and_mark k c.rooms.olm).1
      then 0
      else if eqb session k.session_id
      then 1
      else 0
  failed_for session (machine_changes olm) c = 0

  -- How many of the tasks for the session fail.
  abbrev pub failures : Text → List (Step Encrypted Olm) → Ctx → ℕ
  failures session [] c = 0
  failures session (s ∷ steps) c = failed_for session s c + failures session steps (step s c)

  -- How many requests have been started for the session.
  abbrev pub requests_for : Text → Ctx → ℕ
  requests_for session c = length (retain (λ k. eqb session k.session_id) c.key_requests)

  -- Whether the session may be asked for, as a number.
  abbrev pub allowance : Text → Ctx → ℕ
  allowance session c = if elem Text-discrete session (requested_sessions J S H D c) then 0 else 1

  allowance-step :
      (session : Text) (s : Step Encrypted Olm) (c : Ctx)
      → requests_for session (step s c) + allowance session (step s c)
        ≤ requests_for session c + allowance session c + failed_for session s c
  unfolding maybe_request_room_key key_request_task
  allowance-step session (undecryptable room raw none) c = omega arith
  allowance-step session (undecryptable room raw (some other)) c =
      elim (Bool-cases (elem Text-discrete other (requested_sessions J S H D c))) [
        | inl h ↦ rw h (omega arith)
        | inr h ↦ rw h (ground (arith, h))
      ]
  allowance-step session (machine_changes olm) c = omega arith
  allowance-step session (task k) c =
      elim (Bool-cases (request_and_send J S H D request_room_key send_and_mark k c.rooms.olm).1) [
        | inl sent ↦ rw sent (omega arith)
        | inr failed ↦ rw failed (
            ground (
              arith,
              elem-remove Text-discrete session k.session_id (requested_sessions J S H D c),
            ))
      ]

  run-allowance :
      (session : Text) (steps : List (Step Encrypted Olm)) (c : Ctx)
      → requests_for session (run steps c) + allowance session (run steps c)
        ≤ requests_for session c + allowance session c + failures session steps c
  run-allowance session [] c = omega arith
  run-allowance session (s ∷ steps) c =
      omega (arith, allowance-step session s c, run-allowance session steps (step s c))

  step-requests_for :
      (session : Text) (s : Step Encrypted Olm) (c : Ctx)
      → requests_for session c ≤ requests_for session (step s c)
  unfolding maybe_request_room_key key_request_task
  step-requests_for session (undecryptable room raw none) c = omega arith
  step-requests_for session (undecryptable room raw (some other)) c =
      elim (Bool-cases (elem Text-discrete other (requested_sessions J S H D c))) [
        | inl h ↦ rw h (omega arith)
        | inr h ↦ rw h (ground (arith, h))
      ]
  step-requests_for session (machine_changes olm) c = omega arith
  step-requests_for session (task k) c =
      elim (Bool-cases (request_and_send J S H D request_room_key send_and_mark k c.rooms.olm).1) [
        | inl sent ↦ rw sent (omega arith)
        | inr failed ↦ rw failed (omega arith)
      ]

  run_keeps_requests :
      (session : Text) (steps : List (Step Encrypted Olm)) (c : Ctx)
      → requests_for session c ≤ requests_for session (run steps c)
  run_keeps_requests session [] c = omega arith
  run_keeps_requests session (s ∷ steps) c =
      omega (arith, step-requests_for session s c, run_keeps_requests session steps (step s c))

  first_request :
      (session room : Text) (raw : Encrypted) (c : Ctx)
      → requests_for session (step (undecryptable room raw (some session)) c)
        ≡ requests_for session c + allowance session c
  unfolding maybe_request_room_key
  first_request session room raw c =
      elim (Bool-cases (elem Text-discrete session (requested_sessions J S H D c))) [
        | inl h ↦ rw h (omega arith)
        | inr h ↦ rw h (ground (arith, h))
      ]

  -- From an event on that cannot be decrypted for want of a session's key, whatever other such
  -- events come, whenever the tasks that they start run, fail or succeed, and whatever becomes of the
  -- machine meanwhile: if the session is not
  -- noted as asked for, at least one request is started for it, and at most one and one more for
  -- each task of the session that fails; if it is noted, at most these.
  pub run-requests_for :
      (session room : Text) (raw : Encrypted) (steps : List (Step Encrypted Olm)) (c : Ctx)
      → let first = undecryptable room raw (some session) in
        (requests_for session c + allowance session c
          ≤ requests_for session (run (first ∷ steps) c))
        × (requests_for session (run (first ∷ steps) c)
            ≤ requests_for session c + allowance session c + failures session (first ∷ steps) c)
  run-requests_for session room raw steps c =
      let first : Step Encrypted Olm = undecryptable room raw (some session) in
      (
        omega (
          arith,
          first_request session room raw c,
          run_keeps_requests session steps (step first c),
        ),
        omega (arith, run-allowance session (first ∷ steps) c),
      )

  -- After the task for a session has failed, another event of the session starts one request more;
  -- after it has succeeded, where the session is noted, none.
  pub key_request_retried :
      (k : KeyRequest Encrypted) (room : Text) (raw : Encrypted) (c : Ctx)
      → elem Text-discrete k.session_id (requested_sessions J S H D c) ≡ true
      → (run (task k ∷ undecryptable room raw (some k.session_id) ∷ []) c).key_requests ≡ (
          if (request_and_send J S H D request_room_key send_and_mark k c.rooms.olm).1
          then c.key_requests
          else record { room_id = room; session_id = k.session_id; raw = raw } ∷ c.key_requests)
  unfolding maybe_request_room_key key_request_task
  key_request_retried k room raw c h =
      elim (Bool-cases (request_and_send J S H D request_room_key send_and_mark k c.rooms.olm).1) [
        | inl sent ↦ rw (sent, h) refl
        | inr failed ↦
            rw failed (rw (elem-remove Text-discrete k.session_id k.session_id) (ground arith))
      ]
