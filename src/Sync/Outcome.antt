-- ===== src/Sync/Outcome.antt =====
-- What a processed sync response leaves behind in src/crypto/sync.rs: the memory of the events, the
-- statistics, and the one-time-key counts that the OlmMachine is told.
use ement_e2ee.Prelude.{
  ℕ, suc, ◌+◌, ◌≡◌, refl, sym, ap, subst, ◌∙◌, inl, inr, Bool, true, false, Option, none, some,
  List, [], ◌∷◌, arith, Text, Text-discrete, ℕ_discrete, length, elem, elem-remove, Bool-cases,
  Option-cases,
}
use ement_e2ee.Prelude.Map
use ement_e2ee.Prelude.Map.{Map}
use ement_e2ee.Json.{Json}
use ement_e2ee.Sync.Seen.{SeenToDevice, forget, forget_all}
use ement_e2ee.Sync.SeenLaws.{IsValid, forget-IsValid}
use ement_e2ee.Sync.Receive.{
  SyncSdk, SyncStats, Account, Batch, collect, start, incoming, receive_batch, receive_sync_changes,
  process_sync_changes, settle, note_received, changes_of, with_zero, signed_curve25519, count_sync,
}
use ement_e2ee.Sync.ReceiveLaws.{collect-IsValid, Counted, collect-Counted}

forget_all-IsValid : (keys : List ℕ) (s : SeenToDevice) → IsValid s → IsValid (forget_all keys s)
unfolding forget_all
forget_all-IsValid [] s v = v
forget_all-IsValid (k ∷ keys) s v = forget_all-IsValid keys (forget k s) (forget-IsValid k s v)

-- Forgetting keeps a key only if it is none of the forgotten ones.
forget-set :
    (k j : ℕ) (s : SeenToDevice)
    → elem ℕ_discrete j (forget k s).set
      ≡ elim (ℕ_discrete j k) [ yes _ ↦ false | no _ ↦ elem ℕ_discrete j s.set ]
unfolding forget
forget-set k j s = ground (arith, elem-remove ℕ_discrete j k s.set)

forget_all-keeps_absent :
    (keys : List ℕ) (j : ℕ) (s : SeenToDevice)
    → elem ℕ_discrete j s.set ≡ false
    → elem ℕ_discrete j (forget_all keys s).set ≡ false
unfolding forget_all
forget_all-keeps_absent [] j s h = h
forget_all-keeps_absent (k ∷ keys) j s h =
    forget_all-keeps_absent keys j (forget k s) (ground (arith, forget-set k j s))

forget_all-forgets :
    (keys : List ℕ) (j : ℕ) (s : SeenToDevice)
    → elem ℕ_discrete j keys ≡ true
    → elem ℕ_discrete j (forget_all keys s).set ≡ false
unfolding forget_all
forget_all-forgets [] j s h = absurd (ground arith)
forget_all-forgets (k ∷ keys) j s h = elim (ℕ_discrete j k) [
  | yes e ↦ forget_all-keeps_absent keys j (forget k s) (ground (arith, forget-set k j s))
  | no d ↦ forget_all-forgets keys j (forget k s) (ground arith)
]

module _ (J : Json) (K : SyncSdk (Json.Value J)) (hash : Json.Value J → ℕ) where
  open J use {Value}
  open K use {Raw}

  note_received-stats :
      (olm : SyncSdk.Olm K) (sessions : Option (List Text)) (a : Account J K)
      → (note_received J K olm sessions a).0.stats ≡ a.stats
  unfolding note_received
  note_received-stats olm none a = refl
  note_received-stats olm (some sessions) a = refl

  process-stats :
      (body : Value) (events : List Raw) (a : Account J K)
      → (process_sync_changes J K body events a).0.stats ≡ a.stats
  unfolding process_sync_changes
  process-stats body events a = elim (Option-cases (changes_of J K body events)) [
    | inl bad ↦ rw (process_sync_changes, bad) refl
    | inr (changes, good) ↦ rw (process_sync_changes, good) (note_received-stats _ _ a)
  ]

  -- What settling a batch does: all is counted, or the new keys are forgotten and nothing is.
  Settled : ℕ → Batch J K → Account J K → Account J K × Bool → Type 0
  Settled now b a (after, true) =
      (after.seen ≡ b.seen)
      × (room_keys : ℕ) × (after.stats
          ≡ count_sync J K now (length b.new_keys) b.duplicates room_keys a.stats)
  Settled now b a (after, false) =
      (after.seen ≡ forget_all b.new_keys b.seen) × (after.stats ≡ a.stats)

  settle-Settled :
      (now : ℕ) (b : Batch J K) (a mid : Account J K) (answer : Option ℕ)
      → mid.stats ≡ a.stats
      → Settled now b a (settle J K now b mid answer)
  unfolding settle Settled
  settle-Settled now b a mid none e = (refl, e)
  settle-Settled now b a mid (some room_keys) e =
      (refl, room_keys, ap (count_sync J K now (length b.new_keys) b.duplicates room_keys) e)

  receive_batch-Settled :
      (now : ℕ) (body : Value) (b : Batch J K) (a : Account J K)
      → Settled now b a (receive_batch J K now body b a)
  unfolding receive_batch
  receive_batch-Settled now body b a =
      let processed = process_sync_changes J K body b.to_device_events a in
      settle-Settled now b a processed.0 processed.1 (process-stats body b.to_device_events a)

  Settled-IsValid :
      (now : ℕ) (b : Batch J K) (a : Account J K) (r : Account J K × Bool)
      → IsValid b.seen
      → Settled now b a r
      → IsValid r.0.seen
  unfolding Settled
  Settled-IsValid now b a (after, true) v (e, _, _) = subst (λ s. IsValid s) (sym e) v
  Settled-IsValid now b a (after, false) v (e, _) =
      subst (λ s. IsValid s) (sym e) (forget_all-IsValid b.new_keys b.seen v)

  -- Whatever a sync response holds and however its processing ends, a well-formed memory of the
  -- to-device events stays well-formed: deque and set hold the same keys, each once, at most 4096.
  pub receive_sync_changes-IsValid :
      (now : ℕ) (body : Value) (a : Account J K)
      → IsValid a.seen
      → IsValid (receive_sync_changes J K hash now body a).0.seen
  unfolding receive_sync_changes
  receive_sync_changes-IsValid now body a v =
      let w = collect-IsValid J K hash (incoming J K body) (start J K a.seen) v in
      elim (Bool-cases (collect J K hash (incoming J K body) (start J K a.seen)).1) [
        | inl ok ↦ rw ok (Settled-IsValid now _ a _ w (receive_batch-Settled now body _ a))
        | inr bad ↦ rw bad w
      ]

  Settled-forgets :
      (now : ℕ) (b : Batch J K) (a : Account J K) (r : Account J K × Bool) (k : ℕ)
      → Settled now b a r
      → r.1 ≡ false
      → elem ℕ_discrete k b.new_keys ≡ true
      → (elem ℕ_discrete k r.0.seen.set ≡ false) × (r.0.stats ≡ a.stats)
  unfolding Settled
  Settled-forgets now b a (after, true) k h failed new = absurd (ground arith)
  Settled-forgets now b a (after, false) k (e, same) failed new = (
    ap (λ (s : SeenToDevice). elem ℕ_discrete k s.set) e
        ∙ forget_all-forgets b.new_keys k b.seen new,
    same,
  )

  -- Where the to-device events of a sync response all parse but its processing fails, the key of
  -- each event that was new in it counts as unseen afterwards, so that a later delivery is let
  -- through, and the statistics are as before.
  pub failed_sync_forgets :
      (now : ℕ) (body : Value) (a : Account J K) (k : ℕ)
      → (collect J K hash (incoming J K body) (start J K a.seen)).1 ≡ true
      → (receive_sync_changes J K hash now body a).1 ≡ false
      → elem ℕ_discrete k (collect J K hash (incoming J K body) (start J K a.seen)).0.new_keys
        ≡ true
      → let after = (receive_sync_changes J K hash now body a).0 in
        (elem ℕ_discrete k after.seen.set ≡ false) × (after.stats ≡ a.stats)
  unfolding receive_sync_changes receive_batch
  failed_sync_forgets now body a k ok failed new =
      let b = (collect J K hash (incoming J K body) (start J K a.seen)).0 in
      let same : receive_sync_changes J K hash now body a ≡ receive_batch J K now body b a =
        rw (receive_sync_changes, ok) refl in
      rw same (
        Settled-forgets now b a (receive_batch J K now body b a) k
          (receive_batch-Settled now body b a) (sym (ap (λ r. r.1) same) ∙ failed) new)

  Settled-counts :
      (now n : ℕ) (b : Batch J K) (a : Account J K) (r : Account J K × Bool)
      → Settled now b a r
      → length b.new_keys + b.duplicates ≡ n
      → r.1 ≡ true
      → (r.0.stats.client_syncs ≡ suc a.stats.client_syncs)
        × (r.0.stats.to_device_events + r.0.stats.to_device_duplicates
            ≡ a.stats.to_device_events + a.stats.to_device_duplicates + n)
  unfolding Settled count_sync
  Settled-counts now n b a (after, false) h e good = absurd (ground arith)
  Settled-counts now n b a (after, true) (_, room_keys, e) count good = (
    ap (λ (s : SyncStats). s.client_syncs) e,
    omega (
      arith,
      ap (λ (s : SyncStats). s.to_device_events) e,
      ap (λ (s : SyncStats). s.to_device_duplicates) e,
      count,
    ),
  )

  -- A sync response that is processed counts as one sync, and each of its to-device events counts
  -- once, as handed over or as a repeat.
  pub receive_sync_changes-counts :
      (now : ℕ) (body : Value) (a : Account J K)
      → (receive_sync_changes J K hash now body a).1 ≡ true
      → let after = (receive_sync_changes J K hash now body a).0.stats in
        (after.client_syncs ≡ suc a.stats.client_syncs)
        × (after.to_device_events + after.to_device_duplicates
            ≡ a.stats.to_device_events + a.stats.to_device_duplicates + length (incoming J K body))
  unfolding Counted receive_sync_changes receive_batch
  receive_sync_changes-counts now body a good =
      let b = (collect J K hash (incoming J K body) (start J K a.seen)).0 in
      elim (Bool-cases (collect J K hash (incoming J K body) (start J K a.seen)).1) [
        | inl ok ↦
            let same : receive_sync_changes J K hash now body a ≡ receive_batch J K now body b a =
              rw (receive_sync_changes, ok) refl in
            let counted = collect-Counted J K hash (incoming J K body) (start J K a.seen) ok in
            rw same (
              Settled-counts now (length (incoming J K body)) b a (receive_batch J K now body b a)
                (receive_batch-Settled now body b a) (omega (arith, counted.0))
                (sym (ap (λ r. r.1) same) ∙ good))
        | inr bad ↦
            let ended : (receive_sync_changes J K hash now body a).1 ≡ false =
              rw (receive_sync_changes, bad) refl in
            absurd (ground arith)
      ]

  -- The counts that the OlmMachine is told: where the response has the field, the count of
  -- signed_curve25519 is listed, as the response gives it or else as zero; each other algorithm's
  -- is as the response gives it. Where the field is missing, no count is told.
  pub with_zero_lem :
      (present : Bool) (counts : Map Text ℕ) (algorithm : Text)
      → Map.get Text-discrete algorithm (with_zero J K present counts) ≡ elim present [
        | false ↦ Map.get Text-discrete algorithm counts
        | true ↦ elim (Map.get Text-discrete algorithm counts) [
          | some n ↦ some n
          | none ↦ elim (Text-discrete algorithm signed_curve25519) [ yes _ ↦ some 0 | no _ ↦ none ]
        ]
      ]
  unfolding with_zero
  with_zero_lem false counts algorithm = refl
  with_zero_lem true counts algorithm =
      ground (arith, Map.get-insert Text-discrete signed_curve25519 algorithm 0 counts)
