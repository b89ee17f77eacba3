-- ===== src/Repair/Queue.antt =====
-- `RepairQueue` of src/crypto/repair.rs: the placeholders that the client was shown, and which of
-- them may be decrypted by now. A queue is the contents of its mutex; `wakes` counts the calls of
-- `notify_waiters`.
use ement_e2ee.Prelude.{
  ℕ, suc, Bool, true, false, ◌||◌, Option, none, some, List, [], ◌∷◌, ◌++◌, map, Text, codes,
  Text-discrete, ltb, if◌then◌else◌, length, any, retain, elem, is_empty,
}
use ement_e2ee.Prelude.Map
use ement_e2ee.Prelude.Map.{Map}
use ement_e2ee.Json
use ement_e2ee.Json.{Json}

abbrev pub max_pending : ℕ
max_pending = 2000

-- An event the client was shown as a placeholder, with the original event.
pub record PendingRepair (V : Type 0) : Type 0 where
  pub room_id : Text
  pub event_id : Text
  pub session_id : Option Text
  pub event : V

pub record RepairQueue (V : Type 0) : Type 0 where
  pub pending : Map Text (PendingRepair V)
  pub order : List Text
  pub ready_sessions : List Text
  pub retry_all : Bool
  pub wakes : ℕ

-- What `order.retain` leaves behind: the order, the map, and what was taken, oldest first.
pub record Sweep (V : Type 0) : Type 0 where
  pub order : List Text
  pub pending : Map Text (PendingRepair V)
  pub taken : List (PendingRepair V)

module _ {V : Type 0} where
  unfoldable pub is_ready : RepairQueue V → PendingRepair V → Bool
  is_ready q repair =
      q.retry_all
      || elim repair.session_id [ none ↦ false | some id ↦ elem Text-discrete id q.ready_sessions ]

  unfoldable pub any_ready : RepairQueue V → Bool
  unfolding is_ready
  any_ready q = any (λ e. is_ready q e.1) q.pending

  -- `while inner.order.len() > MAX_PENDING`
  unfoldable pub trim :
      Map Text (PendingRepair V) → List Text → Map Text (PendingRepair V) × List Text
  trim pending [] = (pending, [])
  trim pending (oldest ∷ rest) = elim (ltb max_pending (length (oldest ∷ rest))) [
    | true ↦ trim (Map.remove Text-discrete oldest pending) rest
    | false ↦ (pending, oldest ∷ rest)
  ]

  -- `track`, from where the event's ID is known.
  unfoldable pub track_id : Text → Text → V → Option Text → RepairQueue V → RepairQueue V
  track_id event_id room_id event session_id q =
      if Map.contains_key Text-discrete event_id q.pending
      then q
      else let repair : PendingRepair V = record {
        room_id = room_id;
        event_id = event_id;
        session_id = session_id;
        event = event;
      } in
        let (pending, order) =
          trim (Map.insert Text-discrete event_id repair q.pending) (q.order ++ event_id ∷ []) in
        record q { pending = pending; order = order }

  unfoldable pub note_room_keys : List Text → RepairQueue V → RepairQueue V
  unfolding any_ready
  note_room_keys session_ids q =
      if is_empty q.pending
      then q
      else let extended : RepairQueue V = record q {
        ready_sessions = session_ids ++ q.ready_sessions;
      } in
        if any_ready extended
        then record extended { wakes = suc extended.wakes }
        else record extended { ready_sessions = [] }

  unfoldable pub note_bulk_import : RepairQueue V → RepairQueue V
  note_bulk_import q =
      if is_empty q.pending then q else record q { retry_all = true; wakes = suc q.wakes }

  abbrev pub has_ready : RepairQueue V → Bool
  has_ready q = any_ready q

  -- The event IDs of the placeholders that are ready, as `take_ready` collects them.
  unfoldable pub ready_ids : RepairQueue V → Map Text (PendingRepair V) → List Text
  unfolding is_ready
  ready_ids q m = map (λ e. e.1.event_id) (retain (λ e. is_ready q e.1) m)

  abbrev pub push_taken : Option (PendingRepair V) → List (PendingRepair V) → List (PendingRepair V)
  push_taken none taken = taken
  push_taken (some repair) taken = repair ∷ taken

  unfoldable pub sweep : List Text → List Text → Map Text (PendingRepair V) → Sweep V
  sweep ready [] pending = record { order = []; pending = pending; taken = [] }
  sweep ready (event_id ∷ rest) pending = elim (elem Text-discrete event_id ready) [
    | true ↦
        let swept = sweep ready rest (Map.remove Text-discrete event_id pending) in
        record swept { taken = push_taken (Map.get Text-discrete event_id pending) swept.taken }
    | false ↦
        let swept = sweep ready rest pending in record swept { order = event_id ∷ swept.order }
  ]

  unfoldable pub take_ready : RepairQueue V → RepairQueue V × List (PendingRepair V)
  unfolding ready_ids sweep
  take_ready q =
      let swept = sweep (ready_ids q q.pending) q.order q.pending in
      (
        record q {
          pending = swept.pending;
          order = swept.order;
          ready_sessions = [];
          retry_all = false;
        },
        swept.taken,
      )

  unfoldable pub requeue : PendingRepair V → RepairQueue V → RepairQueue V
  requeue repair q = record q {
    order = q.order ++ repair.event_id ∷ [];
    pending = Map.insert Text-discrete repair.event_id repair q.pending;
  }

  -- `pending()`, the snapshot in order.
  unfoldable pub snapshot : List Text → Map Text (PendingRepair V) → List (PendingRepair V)
  snapshot [] pending = []
  snapshot (event_id ∷ rest) pending =
      push_taken (Map.get Text-discrete event_id pending) (snapshot rest pending)

module _ (J : Json) where
  open J use {Value}

  unfoldable pub track : Text → Value → Option Text → RepairQueue Value → RepairQueue Value
  unfolding track_id
  track room_id event session_id q = elim (Json.get_str J (codes "event_id") event) [
    | none ↦ q
    | some event_id ↦ track_id event_id room_id event session_id q
  ]
