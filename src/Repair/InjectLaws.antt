-- ===== src/Repair/InjectLaws.antt =====
-- What becomes of the repairs that src/crypto/repair.rs takes for a sync response.
use ement_e2ee.Prelude.{
  ℕ, ◌≡◌, ◌≢◌, refl, sym, ap, ◌∙◌, Bool, true, false, Bool-cases, Option-cases, inl, inr, Option,
  none, some, List, [], ◌∷◌, ◌++◌, Text, codes, Text-discrete, arith, elem, ◌>>=?◌, is_some,
  is_empty,
}
use ement_e2ee.Prelude.Map
use ement_e2ee.Prelude.Map.{Map, get-insert, get-insert_ne}
use ement_e2ee.Json
use ement_e2ee.Json.{Json}
use ement_e2ee.Sdk.{Sdk}
use ement_e2ee.Media.Cache.{MediaHost}
use ement_e2ee.Repair.Queue.{PendingRepair, RepairQueue, requeue, take_ready}
use ement_e2ee.Repair.Synthetic.{joined_rooms, synthetic_edit, delivered_event_ids}
use ement_e2ee.Repair.Inject.{
  Pushed, timeline_path, room_path, events_of, room_entry, of_option, with_unread, append_event,
  push_new, push_into_sync, room_exists, inject, inject_all, inject_one, after_decryption,
}
use ement_e2ee.Decrypt.Event.{DecryptSdk, Decryption, Context, decrypt}
use ement_e2ee.Decrypt.EventLaws.{decrypt-repairs}
use Decryption.{decrypted, undecryptable, untouched}
use Pushed.{pushed}

not_empty {ℓ} : {A : Type ℓ} (xs : List A) (x : A) (ys : List A) → is_empty (xs ++ x ∷ ys) ≡ false
not_empty [] x ys = refl
not_empty (y ∷ xs) x ys = refl

module _ (J : Json) where
  open J use {Value, array, object, as_array, as_object, as_object-object, as_array-array}

  of_option_pushed : (o : Option Value) (u : Value) → of_option J o ≡ pushed u → o ≡ some u
  of_option_pushed none u h = absurd (ground arith)
  of_option_pushed (some v) u h = ground arith

  append_event-events :
      (room : Text) (event body u : Value)
      → append_event J room event body ≡ pushed u
      → Json.pointer J (timeline_path J room) u ≡ some (array (events_of J room body ++ event ∷ []))
  unfolding append_event
  append_event-events room event body u h =
      let after = array (events_of J room body ++ event ∷ []) in
      Json.pointer-assign J (timeline_path J room) after body u (of_option_pushed _ u h)

  missing :
      (room : Text) (body : Value)
      → room_exists J room body ≡ false
      → (Json.pointer J (codes "rooms" ∷ codes "join" ∷ []) body >>=? Json.get J room) ≡ none
  unfolding joined_rooms Json.get
  missing room body h = ground arith

  -- A room that is not in the body has no events in it.
  events_of-missing :
      (room : Text) (body : Value) → room_exists J room body ≡ false → events_of J room body ≡ []
  unfolding joined_rooms Json.pointer Json.get
  events_of-missing room body h =
      rw
        (Json.pointer_below J (codes "rooms" ∷ codes "join" ∷ [])
          (codes "timeline" ∷ codes "events" ∷ []) room body (missing room body h))
        refl

  abbrev empty_timeline : Map Text Value
  empty_timeline = (codes "events", array []) ∷ (codes "limited", J.bool false) ∷ []

  get-room_entry :
      (unread : Option Value)
      → Json.get J (codes "timeline") (room_entry J unread) ≡ some (object empty_timeline)
  unfolding Json.get Map.get Text-discrete
  get-room_entry none =
      rw (Json.get, as_object-object ((codes "timeline", object empty_timeline) ∷ [])) refl
  get-room_entry (some unread) =
      let entry : Map Text Value = (codes "timeline", object empty_timeline) ∷ [] in
      rw (Json.get, as_object-object (with_unread J (some unread) entry))
        (get-insert_ne Text-discrete (codes "unread_notifications") (codes "timeline") unread entry
          (ground arith))

  room_entry-events :
      (unread : Option Value)
      → Json.pointer J (codes "timeline" ∷ codes "events" ∷ []) (room_entry J unread)
        ≡ some (array [])
  unfolding Json.pointer Json.get Map.get Text-discrete
  room_entry-events unread =
      rw (Json.pointer, get-room_entry unread)
        (rw (Json.pointer, Json.get, as_object-object empty_timeline) refl)

  events_of-entry :
      (room : Text) (unread : Option Value) (body extended : Value)
      → Json.assign J (room_path J room) (room_entry J unread) body ≡ some extended
      → events_of J room extended ≡ []
  events_of-entry room unread body extended h =
      rw
        (
          Json.pointer-append J (room_path J room) (codes "timeline" ∷ codes "events" ∷ [])
              extended,
          Json.pointer-assign J (room_path J room) (room_entry J unread) body extended h,
          room_entry-events unread,
          as_array-array [],
        )
        refl

  push_new-events :
      (last : Option (Option Value)) (room : Text) (event body u : Value)
      → push_new J room last event body ≡ pushed u
      → Json.pointer J (timeline_path J room) u ≡ some (array (event ∷ []))
  unfolding push_new
  push_new-events none room event body u h = absurd (ground arith)
  push_new-events (some unread) room event body u h =
      elim (Option-cases (Json.assign J (room_path J room) (room_entry J unread) body)) [
        | inl e ↦ absurd (ground arith)
        | inr (extended, e) ↦
            append_event-events room event extended u (rw (push_new, e) at h)
            ∙ ap (λ events. some (array (events ++ event ∷ [])))
                (events_of-entry room unread body extended e)
      ]

  -- An event that is pushed into a sync response stands at the end of its room's timeline, after
  -- exactly the events that were there; of a room that the response did not have, alone.
  pub push_into_sync-events :
      (last : Option (Option Value)) (room : Text) (event body u : Value)
      → push_into_sync J last room event body ≡ pushed u
      → Json.pointer J (timeline_path J room) u ≡ some (array (events_of J room body ++ event ∷ []))
  unfolding push_into_sync
  push_into_sync-events last room event body u h = elim (Bool-cases (is_some (as_object body))) [
    | inr e ↦ absurd (ground arith)
    | inl e ↦ elim (Bool-cases (room_exists J room body)) [
      | inl f ↦ append_event-events room event body u (rw (push_into_sync, e, f) at h)
      | inr f ↦
          push_new-events last room event body u (rw (push_into_sync, e, f) at h)
          ∙ ap (λ events. some (array (events ++ event ∷ []))) (sym (events_of-missing room body f))
    ]
  ]

module _ (J : Json) (S : Sdk) (H : MediaHost J) (D : DecryptSdk J S) where
  open J use {Value}
  open D use {Encrypted}

  abbrev Ctx : Type 0
  Ctx = Context J S H D

  abbrev queued : Text → Ctx → Bool
  queued id c = Map.contains_key Text-discrete id c.repairs.pending

  requeue-queued :
      (id : Text) (r : PendingRepair Value) (q : RepairQueue Value)
      → Map.contains_key Text-discrete id q.pending ≡ true
      → Map.contains_key Text-discrete id (requeue r q).pending ≡ true
  unfolding requeue
  requeue-queued id r q h = ground (arith, get-insert Text-discrete r.event_id id r q.pending)

  requeue-itself :
      (r : PendingRepair Value) (q : RepairQueue Value)
      → Map.contains_key Text-discrete r.event_id (requeue r q).pending ≡ true
  unfolding requeue
  requeue-itself r q = ground (arith, get-insert Text-discrete r.event_id r.event_id r q.pending)

  after_decryption-queued :
      (id : Text) (r : PendingRepair Value) (result : Decryption Value Encrypted) (body : Value)
      (n : ℕ) (c : Ctx)
      → queued id c ≡ true
      → queued id (after_decryption J S H D r result body n c).0 ≡ true
  unfolding after_decryption
  after_decryption-queued id r (decrypted plain) body n c h =
      elim (Option-cases (synthetic_edit J plain)) [
        | inl e ↦ rw (after_decryption, e) h
        | inr (edit, e) ↦ rw (after_decryption, e) h
      ]
  after_decryption-queued id r (undecryptable _ _ _) body n c h = requeue-queued id r c.repairs h
  after_decryption-queued id r untouched body n c h = requeue-queued id r c.repairs h

  inject_one-queued :
      (delivered : List Text) (id : Text) (r : PendingRepair Value) (body : Value) (n : ℕ) (c : Ctx)
      → queued id c ≡ true
      → queued id (inject_one J S H D delivered r body n c).0 ≡ true
  unfolding inject_one
  inject_one-queued delivered id r body n c h =
      let (after, result) = decrypt J S H D r.room_id r.event c in
      elim (Bool-cases (elem Text-discrete r.event_id delivered)) [
        | inl e ↦ rw e h
        | inr e ↦ rw e (
            after_decryption-queued id r result body n after
              (rw (decrypt-repairs J S H D r.room_id r.event c) h))
      ]

  inject_all-queued :
      (delivered : List Text) (id : Text) (rs : List (PendingRepair Value)) (body : Value) (n : ℕ)
      (c : Ctx)
      → queued id c ≡ true
      → queued id (inject_all J S H D delivered rs body n c).0 ≡ true
  unfolding inject_all
  inject_all-queued delivered id [] body n c h = h
  inject_all-queued delivered id (r ∷ rs) body n c h =
      let one = inject_one J S H D delivered r body n c in
      let kept = inject_one-queued delivered id r body n c h in
      elim (Option-cases one.1) [
        | inl e ↦ rw (inject_all, e) kept
        | inr ((changed, m), e) ↦
            rw (inject_all, e) (inject_all-queued delivered id rs changed m one.0 kept)
      ]

  -- The event does not decrypt with what the account has then.
  abbrev pub StillSealed : PendingRepair Value → Ctx → Type 0
  StillSealed r c = (plain : Value) → (decrypt J S H D r.room_id r.event c).1 ≢ decrypted plain

  after_decryption-requeues :
      (r : PendingRepair Value) (result : Decryption Value Encrypted) (body : Value) (n : ℕ)
      (c : Ctx)
      → ((plain : Value) → result ≢ decrypted plain)
      → queued r.event_id (after_decryption J S H D r result body n c).0 ≡ true
  unfolding after_decryption
  after_decryption-requeues r (decrypted plain) body n c h = absurd (h plain refl)
  after_decryption-requeues r (undecryptable _ _ _) body n c h = requeue-itself r c.repairs
  after_decryption-requeues r untouched body n c h = requeue-itself r c.repairs

  inject_one-requeues :
      (delivered : List Text) (r : PendingRepair Value) (body : Value) (n : ℕ) (c : Ctx)
      → elem Text-discrete r.event_id delivered ≡ false
      → StillSealed r c
      → queued r.event_id (inject_one J S H D delivered r body n c).0 ≡ true
  unfolding inject_one
  inject_one-requeues delivered r body n c h sealed =
      let (after, result) = decrypt J S H D r.room_id r.event c in
      rw h (after_decryption-requeues r result body n after sealed)

  -- The body that a run over the repairs ends with, if it does not panic.
  abbrev pub Finished : Ctx × Option (Value × ℕ) → Type 0
  Finished (after, none) = ⊥
  Finished (after, some result) = Unit

  inject_all-requeues :
      (delivered : List Text) (before rest : List (PendingRepair Value)) (r : PendingRepair Value)
      (body : Value) (n : ℕ) (c : Ctx)
      → elem Text-discrete r.event_id delivered ≡ false
      → StillSealed r (inject_all J S H D delivered before body n c).0
      → Finished (inject_all J S H D delivered before body n c)
      → queued r.event_id (inject_all J S H D delivered (before ++ r ∷ rest) body n c).0 ≡ true
  unfolding inject_all
  inject_all-requeues delivered [] rest r body n c h sealed finished =
      let one = inject_one J S H D delivered r body n c in
      let kept = inject_one-requeues delivered r body n c h sealed in
      elim (Option-cases one.1) [
        | inl e ↦ rw (inject_all, e) kept
        | inr ((changed, m), e) ↦
            rw (inject_all, e) (inject_all-queued delivered r.event_id rest changed m one.0 kept)
      ]
  inject_all-requeues delivered (b ∷ before) rest r body n c h sealed finished =
      let one = inject_one J S H D delivered b body n c in
      elim (Option-cases one.1) [
        | inl e ↦ absurd (rw (inject_all, e) at finished)
        | inr ((changed, m), e) ↦
            rw (inject_all, e)
              (inject_all-requeues delivered before rest r changed m one.0 h
                (rw (inject_all, e) at sealed) (rw (inject_all, e) at finished))
      ]

  -- The queue without the repairs that are ready.
  abbrev pub taken : Ctx → Ctx
  taken c = record c { repairs = (take_ready c.repairs).0 }

  -- A repair that is ready is in the queue again after the injection, if the response does not
  -- deliver its event, the repairs taken before it end without a panic, and its event does not
  -- decrypt with what the account has when its turn comes, as where the key turned out not to be
  -- there after all. Nothing is asked of what comes after it: its event may decrypt later.
  pub inject-requeues :
      (body : Value) (c : Ctx) (before rest : List (PendingRepair Value)) (r : PendingRepair Value)
      → (take_ready c.repairs).1 ≡ before ++ r ∷ rest
      → elem Text-discrete r.event_id (delivered_event_ids J body) ≡ false
      → StillSealed r (inject_all J S H D (delivered_event_ids J body) before body 0 (taken c)).0
      → Finished (inject_all J S H D (delivered_event_ids J body) before body 0 (taken c))
      → queued r.event_id (inject J S H D body c).0 ≡ true
  unfolding inject
  inject-requeues body c before rest r t h sealed finished =
      rw (inject, t, not_empty before r rest)
        (inject_all-requeues (delivered_event_ids J body) before rest r body 0 (taken c) h sealed
          finished)
