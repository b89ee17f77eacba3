-- ===== src/Repair/Laws.antt =====
-- The invariant of the repair queue of src/crypto/repair.rs: the deque and the map hold the same
-- event IDs, each once, and each entry stands under its own ID.
use ement_e2ee.Prelude.{
  ◌≤◌, ◌≡◌, refl, sym, ◌∙◌, inl, inr, false, Option, List, [], ◌∷◌, ◌++◌, arith, Text,
  Text-discrete, length, elem, Distinct, elem-concat, Distinct-concat, Bool-cases,
}
use ement_e2ee.Prelude.Map
use ement_e2ee.Prelude.Map.{Map, get-insert, get-remove}
use ement_e2ee.Repair.Queue.{
  PendingRepair, RepairQueue, max_pending, trim, track_id, note_room_keys, requeue,
}

module _ {V : Type 0} where
  -- Each entry stands under its event's ID, and no ID twice.
  abbrev pub Keyed : Map Text (PendingRepair V) → Type 0
  Keyed [] = Unit
  Keyed ((k, r) ∷ m) = (r.event_id ≡ k) × (Map.contains_key Text-discrete k m ≡ false) × Keyed m

  -- The map and the deque agree.
  pub record Agree (pending : Map Text (PendingRepair V)) (order : List Text) : Type 0 where
    pub same : (k : Text) → Map.contains_key Text-discrete k pending ≡ elem Text-discrete k order
    pub once : Distinct Text-discrete order
    pub keyed : Keyed pending

  abbrev pub IsValid : RepairQueue V → Type 0
  IsValid q = Agree q.pending q.order

  Keyed-remove :
      (k : Text) (m : Map Text (PendingRepair V)) → Keyed m → Keyed (Map.remove Text-discrete k m)
  unfolding Map.remove
  Keyed-remove k [] h = tt
  Keyed-remove k ((j, r) ∷ m) h =
      ground (arith, Keyed-remove k m h.2, get-remove Text-discrete k j m)

  pub Agree-remove :
      (x : Text) (xs : List Text) (m : Map Text (PendingRepair V))
      → Agree m (x ∷ xs)
      → Agree (Map.remove Text-discrete x m) xs
  Agree-remove x xs m a = record {
    same = λ k. ground (arith, get-remove Text-discrete x k m, a.same k);
    once = a.once.1;
    keyed = Keyed-remove x m a.keyed;
  }

  pub Agree-insert :
      (r : PendingRepair V) (xs : List Text) (m : Map Text (PendingRepair V))
      → Map.contains_key Text-discrete r.event_id m ≡ false
      → Agree m xs
      → Agree (Map.insert Text-discrete r.event_id r m) (xs ++ r.event_id ∷ [])
  unfolding Map.insert
  Agree-insert r xs m h a = record {
    same = λ k. ground (
      arith,
      get-insert Text-discrete r.event_id k r m,
      elem-concat Text-discrete k r.event_id xs,
      a.same k,
    );
    once = Distinct-concat Text-discrete r.event_id xs (sym (a.same r.event_id) ∙ h) a.once;
    keyed = (
      refl,
      ground (arith, get-remove Text-discrete r.event_id r.event_id m),
      Keyed-remove r.event_id m a.keyed,
    );
  }

  trim-Agree :
      (m : Map Text (PendingRepair V)) (order : List Text)
      → Agree m order
      → Agree (trim m order).0 (trim m order).1
  unfolding trim
  trim-Agree m [] a = a
  trim-Agree m (x ∷ xs) a =
      ground (arith, a, trim-Agree (Map.remove Text-discrete x m) xs (Agree-remove x xs m a))

  length-trim-le :
      (m : Map Text (PendingRepair V)) (order : List Text) → length (trim m order).1 ≤ max_pending
  unfolding trim
  length-trim-le m [] = omega arith
  length-trim-le m (x ∷ xs) = ground (arith, length-trim-le (Map.remove Text-discrete x m) xs)

  -- Tracking an event keeps the map and the deque of a queue in agreement: the same event IDs, each
  -- once, and each placeholder under its own ID.
  pub track_id-IsValid :
      (event_id room_id : Text) (event : V) (session_id : Option Text) (q : RepairQueue V)
      → IsValid q
      → IsValid (track_id event_id room_id event session_id q)
  unfolding track_id
  track_id-IsValid event_id room_id event session_id q a =
      elim (Bool-cases (Map.contains_key Text-discrete event_id q.pending)) [
        | inl old ↦ rw old a
        | inr new ↦
            let repair : PendingRepair V = record {
              room_id = room_id;
              event_id = event_id;
              session_id = session_id;
              event = event;
            } in
            rw new (trim-Agree _ _ (Agree-insert repair q.order q.pending new a))
      ]

  -- Tracking an event keeps a queue of at most 2000 placeholders at no more than those.
  pub track_id_bounded :
      (event_id room_id : Text) (event : V) (session_id : Option Text) (q : RepairQueue V)
      → length q.order ≤ max_pending
      → length (track_id event_id room_id event session_id q).order ≤ max_pending
  unfolding track_id
  track_id_bounded event_id room_id event session_id q h =
      elim (Bool-cases (Map.contains_key Text-discrete event_id q.pending)) [
        | inl old ↦ rw old h
        | inr new ↦ rw new (length-trim-le _ _)
      ]

  -- Putting back a placeholder that is not in the queue keeps its map and its deque in agreement.
  pub requeue-IsValid :
      (r : PendingRepair V) (q : RepairQueue V)
      → Map.contains_key Text-discrete r.event_id q.pending ≡ false
      → IsValid q
      → IsValid (requeue r q)
  unfolding requeue
  requeue-IsValid r q new a = Agree-insert r q.order q.pending new a

  pub note_room_keys-pending :
      (ids : List Text) (q : RepairQueue V)
      → ((note_room_keys ids q).pending ≡ q.pending) × ((note_room_keys ids q).order ≡ q.order)
  unfolding note_room_keys
  note_room_keys-pending ids q = ground arith
