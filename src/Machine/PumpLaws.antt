-- ===== src/Machine/PumpLaws.antt =====
-- How far the loops of src/crypto/machine.rs go.
use ement_e2ee.Prelude.{
  ℕ, zero, suc, ◌+◌, ◌≤◌, ◌≡◌, ◌⊎◌, refl, ap, ◌∙◌, true, false, Option, none, some, List, [], ◌∷◌,
  Text, arith, length, Bool-cases, Option-cases, inl, inr,
}
use ement_e2ee.Json.{Json}
use ement_e2ee.Http.{Homeserver, Request}
use ement_e2ee.Machine.Requests.{
  Queue, Wire, OutgoingRequest, KeysBackupRequest, Kind, send_and_mark, send_as, mark_as_sent,
  exchange, http_request, kind,
}
use ement_e2ee.Machine.Pump.{
  Drain, send_all, drain, drain_round, upload_batch, mark_batch, batch_request, max_batches,
  upload_batches, upload_pending_backups,
}
use Drain.{drained, failed, out_of_fuel}

module _ (J : Json) (enc : Text → Text) (Q : Queue (Json.Value J)) (ask : Homeserver (Json.Value J))
    (token : Text) where
  open J use {Value}
  open Q use {
    Olm, Response, outgoing_requests, mark_request_as_sent, parse_response, backup,
    parse_backup_response, backup_enabled,
  }

  sent_by_exchange :
      (request : Request Value) (w : Wire Q)
      → length (exchange J enc Q ask token request w).0.sent ≡ suc (length w.sent)
  unfolding exchange
  sent_by_exchange request w = elim (Option-cases (ask request)) [
    | inl e ↦ rw (exchange, e) refl
    | inr ((status, body), e) ↦ rw (exchange, e) refl
  ]

  mark_as_sent-sent :
      (id : Text) (k : Kind) (body : Value) (w : Wire Q)
      → (mark_as_sent J enc Q ask token id k body w).0.sent ≡ w.sent
  unfolding mark_as_sent
  mark_as_sent-sent id k body w = elim (Option-cases (parse_response k body)) [
    | inl e ↦ rw (mark_as_sent, e) refl
    | inr (response, e) ↦ rw (mark_as_sent, e) refl
  ]

  send_and_mark-sent :
      (r : OutgoingRequest Value) (w : Wire Q)
      → length (send_and_mark J enc Q ask token r w).0.sent ≡ suc (length w.sent)
  unfolding send_and_mark send_as
  send_and_mark-sent r w =
      let request = http_request J enc token r.request in
      let x = exchange J enc Q ask token request w in
      elim (Option-cases x.1) [
        | inl e ↦ rw (send_as, e) (sent_by_exchange request w)
        | inr (body, e) ↦
            rw (send_as, e)
              (ap length (mark_as_sent-sent r.request_id (kind r.request) body x.0)
                ∙ sent_by_exchange request w)
      ]

  send_all-sent :
      (rs : List (OutgoingRequest Value)) (w : Wire Q)
      → (send_all J enc Q ask token rs w).1 ≡ true
      → length (send_all J enc Q ask token rs w).0.sent ≡ length rs + length w.sent
  unfolding send_all
  send_all-sent [] w h = omega arith
  send_all-sent (r ∷ rs) w h =
      let one = send_and_mark J enc Q ask token r w in
      elim (Bool-cases one.1) [
        | inr e ↦ absurd (ground arith)
        | inl e ↦
            let g = rw (send_all, e) at h in
            rw (send_all, e) (omega (arith, send_and_mark-sent r w, send_all-sent rs one.0 g))
      ]

  send_all-failed :
      (rs : List (OutgoingRequest Value)) (w : Wire Q)
      → (send_all J enc Q ask token rs w).1 ≡ false
      → (v : Wire Q) × (r : OutgoingRequest Value) × (send_and_mark J enc Q ask token r v
          ≡ ((send_all J enc Q ask token rs w).0, false))
  unfolding send_all send_and_mark
  send_all-failed [] w h = absurd (ground arith)
  send_all-failed (r ∷ rs) w h =
      let one = send_and_mark J enc Q ask token r w in
      elim (Bool-cases one.1) [
        | inr e ↦ (w, r, rw (send_all, e) (ap (λ b. (one.0, b)) e))
        | inl e ↦
            let (v, last, g) = send_all-failed rs one.0 (rw (send_all, e) at h) in
            (v, last, rw (send_all, e) g)
      ]

  -- What a run of the loop that starts with so many requests sent comes to, on so much fuel: where
  -- it ends as drained, the machine's last listing was empty; where it has failed, the machine could
  -- not list its requests, or the last request that was sent failed; where its fuel is used up, it
  -- has sent a request at least for each unit.
  abbrev pub Progress : ℕ → ℕ → Wire Q × Drain → Type 0
  Progress fuel sent (w, drained) = (o : Olm) × (outgoing_requests o ≡ (w.olm, some []))
  Progress fuel sent (w, failed) =
      ((o : Olm) × (outgoing_requests o ≡ (w.olm, none)))
      ⊎ ((v : Wire Q) × (r : OutgoingRequest Value) × (send_and_mark J enc Q ask token r v
            ≡ (w, false)))
  Progress fuel sent (w, out_of_fuel) = fuel + sent ≤ length w.sent

  later-Progress :
      (fuel before sent : ℕ) (result : Wire Q × Drain)
      → suc before ≤ sent
      → Progress fuel sent result
      → Progress (suc fuel) before result
  later-Progress fuel before sent (w, drained) h p = p
  later-Progress fuel before sent (w, failed) h p = p
  later-Progress fuel before sent (w, out_of_fuel) h p = omega (arith, h, p)

  -- A round, if the loop's next turn makes progress; and with another next turn, if both come to the
  -- same where the first does not run out of fuel.
  drain_round-Progress :
      (fuel : ℕ) (again other : Wire Q → Wire Q × Drain) (w : Wire Q)
      → ((v : Wire Q)
          → Progress fuel (length v.sent) (again v)
            × (((again v).1 ≡ out_of_fuel) ⊎ (other v ≡ again v)))
      → Progress (suc fuel) (length w.sent) (drain_round J enc Q ask token again w)
        × (((drain_round J enc Q ask token again w).1 ≡ out_of_fuel)
            ⊎ (drain_round J enc Q ask token other w ≡ drain_round J enc Q ask token again w))
  unfolding drain_round
  drain_round-Progress fuel again other w h =
      let listed : Wire Q = record w { olm = (outgoing_requests w.olm).0 } in
      elim (Option-cases (outgoing_requests w.olm).1) [
        | inl e ↦
            rw (drain_round, e)
              (inl (w.olm, ap (λ x. ((outgoing_requests w.olm).0, x)) e), inr refl)
        | inr ([], e) ↦
            rw (drain_round, e) ((w.olm, ap (λ x. ((outgoing_requests w.olm).0, x)) e), inr refl)
        | inr (r ∷ more, e) ↦
            let all_sent = send_all J enc Q ask token (r ∷ more) listed in
            elim (Bool-cases all_sent.1) [
              | inr f ↦ rw (drain_round, e, f) (inr (send_all-failed (r ∷ more) listed f), inr refl)
              | inl f ↦
                  let (progress, same) = h all_sent.0 in
                  rw (drain_round, e, f)
                    (
                      later-Progress fuel (length w.sent) (length all_sent.0.sent)
                          (again all_sent.0) (omega (arith, send_all-sent (r ∷ more) listed f))
                          progress,
                      same,
                    )
            ]
      ]

  -- The loop that drains the queue neither spins nor stops early, whatever the homeserver and the
  -- machine answer: on any fuel, either it has sent a request at least for each unit, or it has
  -- ended, and more fuel would make no difference. Where it has ended as drained, the machine's last
  -- listing was empty; where it has failed, the machine could not list its requests, or the last
  -- request that it sent failed.
  pub drain-Progress :
      (fuel more : ℕ) (w : Wire Q)
      → Progress fuel (length w.sent) (drain J enc Q ask token fuel w)
        × (((drain J enc Q ask token fuel w).1 ≡ out_of_fuel)
            ⊎ (drain J enc Q ask token (fuel + more) w ≡ drain J enc Q ask token fuel w))
  unfolding drain
  drain-Progress zero more w = (omega arith, inl refl)
  drain-Progress (suc fuel) more w =
      let e : suc fuel + more ≡ suc (fuel + more) = omega arith in
      rw e (
        drain_round-Progress fuel (drain J enc Q ask token fuel)
          (drain J enc Q ask token (fuel + more)) w (λ v. drain-Progress fuel more v))

  mark_batch-sent :
      (txn_id : Text) (answer : Option Value) (w : Wire Q)
      → (mark_batch J enc Q ask token txn_id answer w).0.sent ≡ w.sent
  unfolding mark_batch
  mark_batch-sent txn_id none w = refl
  mark_batch-sent txn_id (some body) w = elim (Option-cases (parse_backup_response body)) [
    | inl e ↦ rw (mark_batch, e) refl
    | inr (response, e) ↦ rw (mark_batch, e) refl
  ]

  upload_batch-sent :
      (txn_id : Text) (request : KeysBackupRequest Value) (w : Wire Q)
      → length (upload_batch J enc Q ask token txn_id request w).0.sent ≡ suc (length w.sent)
  unfolding upload_batch
  upload_batch-sent txn_id request w =
      let x = exchange J enc Q ask token (batch_request J enc Q ask token request) w in
      ap length (mark_batch-sent txn_id x.1 x.0)
      ∙ sent_by_exchange (batch_request J enc Q ask token request) w

  upload_batches-sent :
      (n : ℕ) (w : Wire Q)
      → length (upload_batches J enc Q ask token n w).0.sent ≤ n + length w.sent
  unfolding upload_batches
  upload_batches-sent zero w = omega arith
  upload_batches-sent (suc n) w =
      let asked : Wire Q = record w { olm = (backup w.olm).0 } in
      elim (Option-cases (backup w.olm).1) [
        | inl e ↦ rw (upload_batches, e) (omega arith)
        | inr (none, e) ↦ rw (upload_batches, e) (omega arith)
        | inr (some (txn_id, request), e) ↦
            let one = upload_batch J enc Q ask token txn_id request asked in
            elim (Bool-cases one.1) [
              | inr f ↦
                  rw (upload_batches, e, f) (omega (arith, upload_batch-sent txn_id request asked))
              | inl f ↦
                  rw (upload_batches, e, f)
                    (omega
                      (arith, upload_batch-sent txn_id request asked, upload_batches-sent n one.0))
            ]
      ]

  -- A pump uploads at most a hundred batches of room keys, however many there are.
  pub upload_pending_backups-bounded :
      (w : Wire Q)
      → length (upload_pending_backups J enc Q ask token w).0.sent ≤ 100 + length w.sent
  unfolding upload_pending_backups
  upload_pending_backups-bounded w = elim (Bool-cases (backup_enabled w.olm)) [
    | inl e ↦ rw e (upload_batches-sent max_batches w)
    | inr e ↦ rw e (omega arith)
  ]
