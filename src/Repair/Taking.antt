-- ===== src/Repair/Taking.antt =====
-- What `take_ready` of src/crypto/repair.rs takes, in which order, and what it leaves.
use ement_e2ee.Prelude.{
  suc, ◌≡◌, refl, sym, ap, ◌∙◌, Bool, true, false, not, ◌&&◌, Option, none, some, List, [], ◌∷◌,
  ◌++◌, arith, Text, Text-discrete, if◌then◌else◌, any, retain, is_empty, elem, Distinct,
  elem-append, subst,
}
use ement_e2ee.Prelude.Map
use ement_e2ee.Prelude.Map.{Map, get-insert, get-remove}
use ement_e2ee.Repair.Queue.{
  PendingRepair, RepairQueue, is_ready, any_ready, note_room_keys, has_ready, ready_ids, push_taken,
  sweep, take_ready,
}
use ement_e2ee.Repair.Laws.{Keyed, IsValid}

retain_congr :
    (p r : Text → Bool) (xs : List Text) → ((x : Text) → p x ≡ r x) → retain p xs ≡ retain r xs
retain_congr p r [] h = refl
retain_congr p r (x ∷ xs) h = ground (arith, h x, retain_congr p r xs h)

module _ {V : Type 0} where
  -- The entry with this ID is there and satisfies the test.
  abbrev pub holds : (PendingRepair V → Bool) → Option (PendingRepair V) → Bool
  holds p none = false
  holds p (some r) = p r

  -- The IDs that `take_ready` collects from the map's values are the keys of the ready entries.
  elem-ready_ids :
      (q : RepairQueue V) (x : Text) (m : Map Text (PendingRepair V))
      → Keyed m
      → elem Text-discrete x (ready_ids q m) ≡ holds (is_ready q) (Map.get Text-discrete x m)
  unfolding ready_ids Map.get
  elem-ready_ids q x [] h = refl
  elem-ready_ids q x ((k, r) ∷ m) h = ground (arith, elem-ready_ids q x m h.2)

  -- The specification: the entries of the IDs that are ready, in the order of the deque.
  unfoldable pub pick : List Text → List Text → Map Text (PendingRepair V) → List (PendingRepair V)
  pick ready [] m = []
  pick ready (x ∷ xs) m = elim (elem Text-discrete x ready) [
    | true ↦ push_taken (Map.get Text-discrete x m) (pick ready xs m)
    | false ↦ pick ready xs m
  ]

  pick-remove :
      (ready : List Text) (x : Text) (xs : List Text) (m : Map Text (PendingRepair V))
      → elem Text-discrete x xs ≡ false
      → pick ready xs (Map.remove Text-discrete x m) ≡ pick ready xs m
  unfolding pick
  pick-remove ready x [] m h = refl
  pick-remove ready x (y ∷ xs) m h =
      ground (arith, pick-remove ready x xs m, get-remove Text-discrete x y m)

  sweep-taken :
      (ready xs : List Text) (m : Map Text (PendingRepair V))
      → Distinct Text-discrete xs
      → (sweep ready xs m).taken ≡ pick ready xs m
  unfolding sweep pick
  sweep-taken ready [] m d = refl
  sweep-taken ready (x ∷ xs) m d = ground (
    arith,
    sweep-taken ready xs m,
    sweep-taken ready xs (Map.remove Text-discrete x m),
    pick-remove ready x xs m,
  )

  sweep-order :
      (ready xs : List Text) (m : Map Text (PendingRepair V))
      → (sweep ready xs m).order ≡ retain (λ x. not (elem Text-discrete x ready)) xs
  unfolding sweep
  sweep-order ready [] m = refl
  sweep-order ready (x ∷ xs) m =
      ground (arith, sweep-order ready xs m, sweep-order ready xs (Map.remove Text-discrete x m))

  get-sweep :
      (ready xs : List Text) (m : Map Text (PendingRepair V)) (k : Text)
      → Map.get Text-discrete k (sweep ready xs m).pending ≡ (
          if elem Text-discrete k xs && elem Text-discrete k ready
          then none
          else Map.get Text-discrete k m)
  unfolding sweep
  get-sweep ready [] m k = refl
  get-sweep ready (x ∷ xs) m k = ground (
    arith,
    get-sweep ready xs m k,
    get-sweep ready xs (Map.remove Text-discrete x m) k,
    get-remove Text-discrete x k m,
  )

  -- The same, by what each entry is: the ready entries of the queue, oldest first.
  unfoldable pub ready_in_order : RepairQueue V → List Text → List (PendingRepair V)
  ready_in_order q [] = []
  ready_in_order q (x ∷ xs) = elim (Map.get Text-discrete x q.pending) [
    | none ↦ ready_in_order q xs
    | some r ↦ elim (is_ready q r) [ true ↦ r ∷ ready_in_order q xs | false ↦ ready_in_order q xs ]
  ]

  pick-ready_ids :
      (q : RepairQueue V) (xs : List Text)
      → Keyed q.pending
      → pick (ready_ids q q.pending) xs q.pending ≡ ready_in_order q xs
  unfolding pick ready_in_order
  pick-ready_ids q [] h = refl
  pick-ready_ids q (x ∷ xs) h =
      ground (arith, pick-ready_ids q xs h, elem-ready_ids q x q.pending h)

  take_ready-taken : (q : RepairQueue V) → IsValid q → (take_ready q).1 ≡ ready_in_order q q.order
  unfolding take_ready
  take_ready-taken q a =
      sweep-taken (ready_ids q q.pending) q.order q.pending a.once
      ∙ pick-ready_ids q q.order a.keyed

  take_ready-order :
      (q : RepairQueue V)
      → IsValid q
      → (take_ready q).0.order
        ≡ retain (λ x. not (holds (is_ready q) (Map.get Text-discrete x q.pending))) q.order
  unfolding take_ready
  take_ready-order q a =
      sweep-order (ready_ids q q.pending) q.order q.pending
      ∙ retain_congr _ _ q.order (λ x. ap not (elem-ready_ids q x q.pending a.keyed))

  get-take_ready :
      (q : RepairQueue V) (k : Text)
      → IsValid q
      → Map.get Text-discrete k (take_ready q).0.pending ≡ (
          if holds (is_ready q) (Map.get Text-discrete k q.pending)
          then none
          else Map.get Text-discrete k q.pending)
  unfolding take_ready
  get-take_ready q k a = ground (
    arith,
    get-sweep (ready_ids q q.pending) q.order q.pending k,
    elem-ready_ids q k q.pending a.keyed,
    a.same k,
  )

  nothing_ready :
      (q : RepairQueue V) (m : Map Text (PendingRepair V))
      → q.retry_all ≡ false
      → q.ready_sessions ≡ []
      → any (λ e. is_ready q e.1) m ≡ false
  unfolding is_ready
  nothing_ready q [] h e = refl
  nothing_ready q ((k, r) ∷ m) h e = ground (arith, nothing_ready q m h e)

  has_ready-take_ready : (q : RepairQueue V) → has_ready (take_ready q).0 ≡ false
  unfolding take_ready any_ready
  has_ready-take_ready q = nothing_ready (take_ready q).0 (take_ready q).0.pending refl refl

  -- Of a queue whose map and deque agree, `take_ready` returns the ready placeholders, oldest
  -- first; it leaves those that are not ready, in their order, under their IDs; and it forgets every
  -- note that keys arrived, of single sessions as of a bulk import, so that nothing is ready.
  pub take_ready_exact :
      (q : RepairQueue V)
      → IsValid q
      → ((take_ready q).1 ≡ ready_in_order q q.order)
        × ((k : Text)
            → Map.get Text-discrete k (take_ready q).0.pending ≡ (
                if holds (is_ready q) (Map.get Text-discrete k q.pending)
                then none
                else Map.get Text-discrete k q.pending))
        × ((take_ready q).0.order
            ≡ retain (λ x. not (holds (is_ready q) (Map.get Text-discrete x q.pending))) q.order)
        × ((take_ready q).0.ready_sessions ≡ [])
        × ((take_ready q).0.retry_all ≡ false)
        × (has_ready (take_ready q).0 ≡ false)
  unfolding take_ready
  take_ready_exact q a = (
    take_ready-taken q a,
    λ k. get-take_ready q k a,
    take_ready-order q a,
    refl,
    refl,
    has_ready-take_ready q,
  )

  any_of_get :
      (p : PendingRepair V → Bool) (k : Text) (m : Map Text (PendingRepair V)) (r : PendingRepair V)
      → Map.get Text-discrete k m ≡ some r
      → p r ≡ true
      → any (λ e. p e.1) m ≡ true
  unfolding Map.get
  any_of_get p k [] r h t = cc
  any_of_get p k ((j, s) ∷ m) r h t = ground (arith, any_of_get p k m r)

  not_empty_of_get :
      (k : Text) (m : Map Text (PendingRepair V)) (r : PendingRepair V)
      → Map.get Text-discrete k m ≡ some r
      → is_empty m ≡ false
  unfolding Map.get
  not_empty_of_get k [] r g = cc
  not_empty_of_get k (e ∷ m) r g = refl

  is_ready_of_session :
      (ids old : List Text) (q : RepairQueue V) (r : PendingRepair V) (id : Text)
      → q.ready_sessions ≡ ids ++ old
      → r.session_id ≡ some id
      → elem Text-discrete id ids ≡ true
      → is_ready q r ≡ true
  unfolding is_ready
  is_ready_of_session ids old q r id s e h = ground (arith, elem-append Text-discrete id ids old)

  any_ready_of_get :
      (q : RepairQueue V) (k : Text) (r : PendingRepair V)
      → Map.get Text-discrete k q.pending ≡ some r
      → is_ready q r ≡ true
      → any_ready q ≡ true
  unfolding any_ready
  any_ready_of_get q k r g h = any_of_get (is_ready q) k q.pending r g h

  note_room_keys_wakes_lem :
      (ids : List Text) (q : RepairQueue V)
      → is_empty q.pending ≡ false
      → any_ready (record q { ready_sessions = ids ++ q.ready_sessions }) ≡ true
      → note_room_keys ids q
        ≡ record q { ready_sessions = ids ++ q.ready_sessions; wakes = suc q.wakes }
  unfolding note_room_keys
  note_room_keys_wakes_lem ids q h r = rw (h, r)

  -- A placeholder that waits for one of the sessions whose key arrives makes the queue ready and
  -- wakes the long-polling sync once.
  pub note_room_keys_wakes :
      (ids : List Text) (q : RepairQueue V) (k id : Text) (r : PendingRepair V)
      → Map.get Text-discrete k q.pending ≡ some r
      → r.session_id ≡ some id
      → elem Text-discrete id ids ≡ true
      → (has_ready (note_room_keys ids q) ≡ true)
        × ((note_room_keys ids q).wakes ≡ suc q.wakes)
        × (is_ready (note_room_keys ids q) r ≡ true)
  note_room_keys_wakes ids q k id r g e h =
      let extended : RepairQueue V = record q { ready_sessions = ids ++ q.ready_sessions } in
      let woken : RepairQueue V = record extended { wakes = suc q.wakes } in
      let ready = λ (p : RepairQueue V). is_ready_of_session ids q.ready_sessions p r id in
      subst (λ p. (has_ready p ≡ true) × (p.wakes ≡ suc q.wakes) × (is_ready p r ≡ true))
        (sym (
          note_room_keys_wakes_lem ids q (not_empty_of_get k q.pending r g)
            (any_ready_of_get extended k r g (ready extended refl e h))))
        (any_ready_of_get woken k r g (ready woken refl e h), refl, ready woken refl e h)
