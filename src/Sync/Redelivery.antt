-- ===== src/Sync/Redelivery.antt =====
-- Repeated and failed deliveries of to-device events in src/crypto/sync.rs.
use ement_e2ee.Prelude.{
  ℕ, suc, ◌+◌, ◌≤◌, ◌<◌, ◌≡◌, refl, sym, ap, ◌∙◌, inl, inr, Bool, true, false, ◌||◌, List, [], ◌∷◌,
  ◌++◌, map, arith, ℕ_discrete, ltb, length, elem, elem-append, length-append, Bool-cases,
  Option-cases,
}
use ement_e2ee.Json.{Json}
use ement_e2ee.Sync.Seen.{SeenToDevice, seen_to_device_capacity, insert, pop_oldest}
use ement_e2ee.Sync.SeenLaws.{IsValid}
use ement_e2ee.Sync.Receive.{SyncSdk, Batch, note_repeat, note_new, push_event, collect, start}
use ement_e2ee.Sync.ReceiveLaws.{collect-repeat, collect-new, collect-bad, collect-IsValid}

-- The keys are the last that the deque took in.
Latest : List ℕ → SeenToDevice → Type 0
Latest keys s = (older : List ℕ) × (s.order ≡ older ++ keys)

append_assoc : (xs ys zs : List ℕ) → (xs ++ ys) ++ zs ≡ xs ++ (ys ++ zs)
append_assoc [] ys zs = refl
append_assoc (x ∷ xs) ys zs = cc (append_assoc xs ys zs)

append_nil : (xs : List ℕ) → xs ++ [] ≡ xs
append_nil [] = refl
append_nil (x ∷ xs) = cc (append_nil xs)

or_true : (b : Bool) → (b || true) ≡ true
or_true true = refl
or_true false = refl

pop_oldest-Latest :
    (s : SeenToDevice) (older keys : List ℕ)
    → length keys ≤ seen_to_device_capacity
    → seen_to_device_capacity < length (older ++ keys)
    → Latest keys (pop_oldest s (older ++ keys))
unfolding pop_oldest Latest
pop_oldest-Latest s [] keys few full = absurd (omega arith)
pop_oldest-Latest s (x ∷ older) keys few full = (older, refl)

insert-Latest :
    (k : ℕ) (keys : List ℕ) (s : SeenToDevice)
    → (insert k s).1 ≡ true
    → length keys < seen_to_device_capacity
    → Latest keys s
    → Latest (keys ++ k ∷ []) (insert k s).0
unfolding insert Latest
insert-Latest k keys s new few (older, e) =
    let assoc : s.order ++ k ∷ [] ≡ older ++ (keys ++ k ∷ []) =
      cc (e, append_assoc older keys (k ∷ [])) in
    elim (Bool-cases (elem ℕ_discrete k s.set)) [
      | inl old ↦ absurd (ground arith)
      | inr fresh ↦
          rw (fresh, assoc)
            (elim (Bool-cases (ltb 4096 (length (older ++ (keys ++ k ∷ []))))) [
              | inl full ↦ rw full (
                  pop_oldest-Latest (record { order = older ++ (keys ++ k ∷ []); set = k ∷ s.set })
                    older (keys ++ k ∷ []) (omega (arith, length-append keys (k ∷ [])))
                    (ground arith))
              | inr room ↦ rw room (older, refl)
            ])
    ]

insert-repeat :
    (k : ℕ) (s : SeenToDevice) → elem ℕ_discrete k s.set ≡ true → insert k s ≡ (s, false)
unfolding insert
insert-repeat k s h = rw h refl

insert-repeat_same : (k : ℕ) (s : SeenToDevice) → (insert k s).1 ≡ false → (insert k s).0 ≡ s
unfolding insert
insert-repeat_same k s h = ground arith

module _ (J : Json) (K : SyncSdk (Json.Value J)) (hash : Json.Value J → ℕ) where
  open J use {Value}
  open K use {Raw, parse_raw}

  note_new-Latest :
      (k : ℕ) (b : Batch J K)
      → (insert k b.seen).1 ≡ true
      → length b.new_keys < seen_to_device_capacity
      → Latest b.new_keys b.seen
      → Latest (note_new J K k b).new_keys (note_new J K k b).seen
  note_new-Latest k b new few latest = insert-Latest k b.new_keys b.seen new few latest

  collect-Latest :
      (events : List Value) (b : Batch J K)
      → length b.new_keys + length events ≤ seen_to_device_capacity
      → Latest b.new_keys b.seen
      → let after = (collect J K hash events b).0 in Latest after.new_keys after.seen
  unfolding collect
  collect-Latest [] b few latest = latest
  collect-Latest (event ∷ events) b few latest =
      let longer = length-append b.new_keys (hash event ∷ []) in
      elim (Bool-cases (insert (hash event) b.seen).1) [
        | inl new ↦
            let noted = note_new-Latest (hash event) b new (omega (arith, few)) latest in
            elim (Option-cases (parse_raw event)) [
              | inl bad ↦ rw (collect, new, bad) noted
              | inr (raw, good) ↦
                  rw (collect, new, good)
                    (collect-Latest events (push_event J K raw (note_new J K (hash event) b))
                      (omega (arith, few, longer)) noted)
            ]
        | inr old ↦
            rw (collect, old)
              (collect-Latest events (note_repeat J K (hash event) b) (omega (arith, few))
                (rw (insert-repeat_same (hash event) b.seen old) latest))
      ]

  -- All of these events count as seen.
  AllSeen : List Value → SeenToDevice → Type 0
  AllSeen [] s = Unit
  AllSeen (event ∷ events) s = (elem ℕ_discrete (hash event) s.set ≡ true) × AllSeen events s

  recount :
      (b : Batch J K) (m n : ℕ)
      → m ≡ n
      → ◌≡◌ {A = Batch J K × Bool}
          (record b { duplicates = m }, true)
          (record b { duplicates = n }, true)
  recount b m n e = rw e refl

  collect-AllSeen :
      (events : List Value) (b : Batch J K)
      → AllSeen events b.seen
      → collect J K hash events b ≡ (record b { duplicates = b.duplicates + length events }, true)
  unfolding collect AllSeen
  collect-AllSeen [] b h = recount b b.duplicates (b.duplicates + 0) (omega arith)
  collect-AllSeen (event ∷ events) b (h, hs) =
      let old : (insert (hash event) b.seen).1 ≡ false =
        ap (λ r. r.1) (insert-repeat (hash event) b.seen h) in
      collect-repeat J K hash event events b old
      ∙ (ap
            (λ (s : SeenToDevice).
              collect J K hash events (record b { seen = s; duplicates = suc b.duplicates }))
            (insert-repeat_same (hash event) b.seen old)
          ∙ (collect-AllSeen events (record b { duplicates = suc b.duplicates }) hs
              ∙ recount b (suc b.duplicates + length events) _ (omega arith)))

  elem-AllSeen :
      (events : List Value) (s : SeenToDevice)
      → ((k : ℕ) → elem ℕ_discrete k (map hash events) ≡ true → elem ℕ_discrete k s.set ≡ true)
      → AllSeen events s
  unfolding AllSeen
  elem-AllSeen [] s h = tt
  elem-AllSeen (event ∷ events) s h =
      (h (hash event) (ground arith), elem-AllSeen events s (λ k e. h k (ground arith)))

  collect-duplicates_mono :
      (events : List Value) (b : Batch J K)
      → b.duplicates ≤ (collect J K hash events b).0.duplicates
  unfolding collect
  collect-duplicates_mono [] b = omega arith
  collect-duplicates_mono (event ∷ events) b = elim (Bool-cases (insert (hash event) b.seen).1) [
    | inl new ↦ elim (Option-cases (parse_raw event)) [
      | inl bad ↦ rw (collect, new, bad) (omega arith)
      | inr (raw, good) ↦
          rw (collect, new, good)
            (collect-duplicates_mono events (push_event J K raw (note_new J K (hash event) b)))
    ]
    | inr old ↦
        rw (collect, old)
          (omega (arith, collect-duplicates_mono events (note_repeat J K (hash event) b)))
  ]

  -- Without a repeat, the keys of all events are noted, in order.
  collect-fresh :
      (events : List Value) (b : Batch J K)
      → (collect J K hash events b).1 ≡ true
      → (collect J K hash events b).0.duplicates ≡ b.duplicates
      → (collect J K hash events b).0.new_keys ≡ b.new_keys ++ map hash events
  unfolding collect
  collect-fresh [] b ok none_old = sym (append_nil b.new_keys)
  collect-fresh (event ∷ events) b ok none_old = elim (Bool-cases (insert (hash event) b.seen).1) [
    | inl new ↦ elim (Option-cases (parse_raw event)) [
      | inl bad ↦ absurd (ground (arith, collect-bad J K hash event events b new bad))
      | inr (raw, good) ↦
          let next = push_event J K raw (note_new J K (hash event) b) in
          let step = collect-new J K hash event events b raw new good in
          rw step (
            collect-fresh events next (sym (ap (λ r. r.1) step) ∙ ok)
              (sym (ap (λ r. r.0.duplicates) step) ∙ none_old)
            ∙ append_assoc b.new_keys (hash event ∷ []) (map hash events))
    ]
    | inr old ↦ absurd (
        omega (
          arith,
          collect-duplicates_mono events (note_repeat J K (hash event) b),
          ap (λ r. r.0.duplicates) (collect-repeat J K hash event events b old),
          none_old,
        ))
  ]

  -- A batch of at most 4096 events that all parse and are all new to a well-formed memory is
  -- not handed over twice: delivered again at once, it yields no event and no new key, counts each
  -- event as a repeat, and leaves the memory as it is.
  pub redelivery :
      (events : List Value) (s : SeenToDevice)
      → IsValid s
      → length events ≤ seen_to_device_capacity
      → (collect J K hash events (start J K s)).1 ≡ true
      → (collect J K hash events (start J K s)).0.duplicates ≡ 0
      → let seen = (collect J K hash events (start J K s)).0.seen in
        collect J K hash events (start J K seen)
        ≡ (record (start J K seen) { duplicates = length events }, true)
  unfolding Latest
  redelivery events s v few ok fresh =
      let first = (collect J K hash events (start J K s)).0 in
      let keys = collect-fresh events (start J K s) ok fresh in
      let valid = collect-IsValid J K hash events (start J K s) v in
      let (older, order) =
        collect-Latest events (start J K s) (omega (arith, few))
          (s.order, sym (append_nil s.order)) in
      collect-AllSeen events (start J K first.seen) (
        elem-AllSeen events first.seen (λ k e.
          valid.same k
          ∙ (ap (elem ℕ_discrete k) (order ∙ ap (λ x. older ++ x) keys)
              ∙ (elem-append ℕ_discrete k older (map hash events) ∙ rw e (or_true _)))))
      ∙ recount (start J K first.seen) (0 + length events) (length events) (omega arith)
