-- ===== src/Verify/LogLaws.antt =====
-- The log of finished flows of src/crypto/verify.rs is bounded, and answers for the flow that was
-- recorded last.
use ement_e2ee.Prelude.{
  ◌+◌, ◌≤◌, ◌<◌, ◌≡◌, ◌≢◌, refl, sym, ◌∙◌, inl, inr, false, some, List, [], ◌∷◌, ◌++◌, arith, Text,
  Text-discrete, ltb, length, elem, Distinct, length-append, elem-concat, Distinct-concat,
  Bool-cases,
}
use ement_e2ee.Prelude.Map
use ement_e2ee.Prelude.Map.{get-insert, get-remove}
use ement_e2ee.Verify.Log.{
  VerificationLog, max_finished, default, pop_oldest, record_flow, get_flow,
}

module _ {V : Type 0} where
  pub record IsValid (l : VerificationLog V) : Type 0 where
    pub same :
        (k : Text) → Map.contains_key Text-discrete k l.finished ≡ elem Text-discrete k l.order
    pub once : Distinct Text-discrete l.order
    pub bounded : length l.order ≤ max_finished

  pub default-IsValid : IsValid (default {V = V})
  unfolding Map.get
  default-IsValid = record { same = λ k. refl; once = tt; bounded = omega arith }

  pop_oldest-IsValid :
      (l : VerificationLog V) (order : List Text)
      → l.order ≡ order
      → length order ≡ max_finished + 1
      → ((k : Text) → Map.contains_key Text-discrete k l.finished ≡ elem Text-discrete k order)
      → Distinct Text-discrete order
      → IsValid (pop_oldest l order)
  unfolding pop_oldest
  pop_oldest-IsValid l [] e h s d = absurd (omega arith)
  pop_oldest-IsValid l (x ∷ xs) e h s d = record {
    same = λ k. ground (arith, get-remove Text-discrete x k l.finished, s k);
    once = d.1;
    bounded = omega arith;
  }

  -- Recording a flow keeps the log well-formed: map and deque hold the same flows, each once, and no
  -- more than 32.
  pub record_flow-IsValid :
      (flow_id : Text) (summary : V) (l : VerificationLog V)
      → IsValid l
      → IsValid (record_flow flow_id summary l)
  unfolding record_flow
  record_flow-IsValid id v l h = elim (Bool-cases (Map.contains_key Text-discrete id l.finished)) [
    | inl old ↦ rw old (record {
      same = λ k. ground (arith, get-insert Text-discrete id k v l.finished, h.same k, h.same id);
      once = h.once;
      bounded = h.bounded;
    })
    | inr new ↦ rw new (elim (Bool-cases (ltb 32 (length (l.order ++ id ∷ [])))) [
      | inl full ↦ rw full (
          pop_oldest-IsValid _ _ refl (ground (arith, length-append l.order (id ∷ []), h.bounded))
            (λ k. ground (
              arith,
              get-insert Text-discrete id k v l.finished,
              elem-concat Text-discrete k id l.order,
              h.same k,
            ))
            (Distinct-concat Text-discrete id l.order (sym (h.same id) ∙ new) h.once))
      | inr room ↦ rw room (record {
        same = λ k. ground (
          arith,
          get-insert Text-discrete id k v l.finished,
          elem-concat Text-discrete k id l.order,
          h.same k,
        );
        once = Distinct-concat Text-discrete id l.order (sym (h.same id) ∙ new) h.once;
        bounded = ground arith;
      })
    ])
  ]

  get-pop_oldest :
      (l : VerificationLog V) (order : List Text) (id : Text) (v : V)
      → 0 < length order
      → elem Text-discrete id order ≡ false
      → Map.get Text-discrete id l.finished ≡ some v
      → get_flow id (pop_oldest l (order ++ id ∷ [])) ≡ some v
  unfolding pop_oldest get_flow
  get-pop_oldest l [] id v h n g = absurd (omega arith)
  get-pop_oldest l (x ∷ xs) id v h n g = ground (arith, get-remove Text-discrete x id l.finished)

  -- Right after a flow is recorded, a well-formed log answers for it with this summary, whether or
  -- not an older flow had to go.
  pub get_flow-record_flow :
      (id : Text) (v : V) (l : VerificationLog V)
      → IsValid l
      → get_flow id (record_flow id v l) ≡ some v
  unfolding record_flow
  get_flow-record_flow id v l h = elim (Bool-cases (Map.contains_key Text-discrete id l.finished)) [
    | inl old ↦
        rw old (unfold get_flow in ground (arith, get-insert Text-discrete id id v l.finished))
    | inr new ↦ rw new (elim (Bool-cases (ltb 32 (length (l.order ++ id ∷ [])))) [
      | inl full ↦ rw full (
          get-pop_oldest _ l.order id v (ground (arith, length-append l.order (id ∷ [])))
            (sym (h.same id) ∙ new) (ground (arith, get-insert Text-discrete id id v l.finished)))
      | inr room ↦
          rw room (unfold get_flow in ground (arith, get-insert Text-discrete id id v l.finished))
    ])
  ]

  -- Where the log has room, or knows the flow already, no other flow is lost.
  pub get_flow-record_flow_ne :
      (id j : Text) (v : V) (l : VerificationLog V)
      → j ≢ id
      → length l.order < max_finished
      → get_flow j (record_flow id v l) ≡ get_flow j l
  unfolding record_flow get_flow
  get_flow-record_flow_ne id j v l n h =
      ground (arith, length-append l.order (id ∷ []), get-insert Text-discrete id j v l.finished)
