-- ===== src/Sync/ReceiveLaws.antt =====
-- What the sync of src/crypto/sync.rs makes of the to-device events: each is handed over once,
-- and what failed may come again.
use ement_e2ee.Prelude.{
  ℕ, ◌+◌, ◌≡◌, refl, sym, ap, ◌∙◌, inl, inr, true, false, none, some, List, [], ◌∷◌, arith, length,
  length-append, Bool-cases, Option-cases,
}
use ement_e2ee.Json.{Json}
use ement_e2ee.Sync.Seen.{insert}
use ement_e2ee.Sync.SeenLaws.{IsValid, insert-IsValid}
use ement_e2ee.Sync.Receive.{SyncSdk, Batch, note_repeat, note_new, push_event, collect}

module _ (J : Json) (K : SyncSdk (Json.Value J)) (hash : Json.Value J → ℕ) where
  open J use {Value}
  open K use {Raw, parse_raw}

  pub collect-repeat :
      (event : Value) (events : List Value) (b : Batch J K)
      → (insert (hash event) b.seen).1 ≡ false
      → collect J K hash (event ∷ events) b
        ≡ collect J K hash events (note_repeat J K (hash event) b)
  unfolding collect
  collect-repeat event events b old = rw (collect, old) refl

  pub collect-new :
      (event : Value) (events : List Value) (b : Batch J K) (raw : Raw)
      → (insert (hash event) b.seen).1 ≡ true
      → parse_raw event ≡ some raw
      → collect J K hash (event ∷ events) b
        ≡ collect J K hash events (push_event J K raw (note_new J K (hash event) b))
  unfolding collect
  collect-new event events b raw new good = rw (collect, new, good) refl

  pub collect-bad :
      (event : Value) (events : List Value) (b : Batch J K)
      → (insert (hash event) b.seen).1 ≡ true
      → parse_raw event ≡ none
      → (collect J K hash (event ∷ events) b).1 ≡ false
  unfolding collect
  collect-bad event events b new bad = rw (collect, new, bad) refl

  -- What a loop over the events adds to its locals when every event parses: it counts each event
  -- once, as new or as a repeat, and hands each new one over.
  unfoldable pub Counted : Batch J K → ℕ → Batch J K → Type 0
  Counted b n after =
      (length after.new_keys + after.duplicates ≡ length b.new_keys + b.duplicates + n)
      × (length after.to_device_events + length b.new_keys
          ≡ length after.new_keys + length b.to_device_events)

  pub collect-Counted :
      (events : List Value) (b : Batch J K)
      → (collect J K hash events b).1 ≡ true
      → Counted b (length events) (collect J K hash events b).0
  unfolding Counted collect
  collect-Counted [] b ok = (omega arith, omega arith)
  collect-Counted (event ∷ events) b ok = elim (Bool-cases (insert (hash event) b.seen).1) [
    | inl new ↦ elim (Option-cases (parse_raw event)) [
      | inl bad ↦ absurd (ground (arith, collect-bad event events b new bad))
      | inr (raw, good) ↦ rw (collect-new event events b raw new good) (
          let c =
            collect-Counted events (push_event J K raw (note_new J K (hash event) b))
              (sym (ap (λ r. r.1) (collect-new event events b raw new good)) ∙ ok) in
          (
            omega (arith, c.0, length-append b.new_keys (hash event ∷ [])),
            omega (
              arith,
              c.1,
              length-append b.new_keys (hash event ∷ []),
              length-append b.to_device_events (raw ∷ []),
            ),
          ))
    ]
    | inr old ↦ rw (collect-repeat event events b old) (
        let c =
          collect-Counted events (note_repeat J K (hash event) b)
            (sym (ap (λ r. r.1) (collect-repeat event events b old)) ∙ ok) in
        (omega (arith, c.0), omega (arith, c.1)))
  ]

  pub collect-IsValid :
      (events : List Value) (b : Batch J K)
      → IsValid b.seen
      → IsValid (collect J K hash events b).0.seen
  unfolding collect
  collect-IsValid [] b v = v
  collect-IsValid (event ∷ events) b v =
      let w = insert-IsValid (hash event) b.seen v in
      elim (Bool-cases (insert (hash event) b.seen).1) [
        | inl new ↦ elim (Option-cases (parse_raw event)) [
          | inl bad ↦ rw (collect, new, bad) w
          | inr (raw, good) ↦ rw (collect, new, good) (collect-IsValid events _ w)
        ]
        | inr old ↦ rw (collect, old) (collect-IsValid events _ w)
      ]
