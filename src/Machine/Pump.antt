-- ===== src/Machine/Pump.antt =====
-- `pump` and `upload_pending_backups` of src/crypto/machine.rs. The loop that drains the queue runs
-- on fuel.
use ement_e2ee.Prelude.{
  ℕ, zero, suc, Bool, true, false, Option, none, some, List, [], ◌∷◌, ◌++◌, Text, codes,
  if◌then◌else◌,
}
use ement_e2ee.Json.{Json}
use ement_e2ee.Http.{Homeserver, Method, Request}
use ement_e2ee.Machine.Requests.{
  Queue, Wire, OutgoingRequest, KeysBackupRequest, send_and_mark, exchange,
}

-- How the loop over the queue ends.
pub data Drain : Type 0 where
  drained : Drain
  failed : Drain
  out_of_fuel : Drain

abbrev pub max_batches : ℕ
max_batches = 100

module _ (J : Json) (enc : Text → Text) (Q : Queue (Json.Value J)) (ask : Homeserver (Json.Value J))
    (token : Text) where
  open J use {Value, object}
  open Q use {
    Olm, outgoing_requests, backup_enabled, backup, parse_backup_response, mark_backup_as_sent,
  }

  -- The requests of one round, up to the first that fails.
  unfoldable pub send_all : List (OutgoingRequest Value) → Wire Q → Wire Q × Bool
  send_all [] w = (w, true)
  send_all (r ∷ rs) w =
      let (after, done) = send_and_mark J enc Q ask token r w in
      let rest = send_all rs after in if done then rest else (after, false)

  unfoldable pub drain_round : (Wire Q → Wire Q × Drain) → Wire Q → Wire Q × Drain
  unfolding send_all
  drain_round again w =
      let (olm, requests) = outgoing_requests w.olm in
      let listed : Wire Q = record w { olm = olm } in
      elim requests [
        | none ↦ (listed, failed)
        | some rs ↦ elim rs [
          | [] ↦ (listed, drained)
          | r ∷ more ↦
              let (after, done) = send_all (r ∷ more) listed in
              if done then again after else (after, failed)
        ]
      ]

  unfoldable pub drain : ℕ → Wire Q → Wire Q × Drain
  unfolding drain_round
  drain zero w = (w, out_of_fuel)
  drain (suc fuel) w = drain_round (drain fuel) w

  abbrev pub batch_request : KeysBackupRequest Value → Request Value
  batch_request request = record {
    method = Method.put;
    path_and_query = codes "/_matrix/client/v3/room_keys/keys?version=" ++ enc request.version;
    token = token;
    body = some (object ((codes "rooms", request.rooms) ∷ []));
  }

  unfoldable pub mark_batch : Text → Option Value → Wire Q → Wire Q × Bool
  mark_batch txn_id none w = (w, false)
  mark_batch txn_id (some body) w = elim (parse_backup_response body) [
    | none ↦ (w, false)
    | some response ↦
        let (olm, done) = mark_backup_as_sent txn_id response w.olm in
        (record w { olm = olm }, done)
  ]

  unfoldable pub upload_batch : Text → KeysBackupRequest Value → Wire Q → Wire Q × Bool
  unfolding mark_batch
  upload_batch txn_id request w =
      let (after, answer) = exchange J enc Q ask token (batch_request request) w in
      mark_batch txn_id answer after

  unfoldable pub upload_batches : ℕ → Wire Q → Wire Q × Bool
  unfolding upload_batch
  upload_batches zero w = (w, true)
  upload_batches (suc n) w =
      let (olm, batch) = backup w.olm in
      let asked : Wire Q = record w { olm = olm } in
      elim batch [
        | none ↦ (asked, false)
        | some none ↦ (asked, true)
        | some (some (txn_id, request)) ↦
            let (after, done) = upload_batch txn_id request asked in
            let rest = upload_batches n after in if done then rest else (after, false)
      ]

  unfoldable pub upload_pending_backups : Wire Q → Wire Q × Bool
  unfolding upload_batches
  upload_pending_backups w =
      if backup_enabled w.olm then upload_batches max_batches w else (w, true)

  -- New room keys are backed up once the queue is drained; their errors are only logged.
  abbrev pub then_backup : Wire Q × Drain → Wire Q × Drain
  then_backup (w, drained) = ((upload_pending_backups w).0, drained)
  then_backup (w, failed) = (w, failed)
  then_backup (w, out_of_fuel) = (w, out_of_fuel)

  unfoldable pub pump : ℕ → Wire Q → Wire Q × Drain
  unfolding drain upload_pending_backups
  pump fuel w = then_backup (drain fuel w)
