-- ===== src/Verify/Log.antt =====
-- `VerificationLog` of src/crypto/verify.rs: how the verification flows that ended lately ended.
-- A summary is a JSON value, which the log only stores.
use ement_e2ee.Prelude.{
  ℕ, Bool, ◌||◌, Option, none, some, List, [], ◌∷◌, ◌++◌, Text, Text-discrete, ltb, if◌then◌else◌,
  length, elem,
}
use ement_e2ee.Prelude.Map
use ement_e2ee.Prelude.Map.{Map}

abbrev pub max_finished : ℕ
max_finished = 32

pub record VerificationLog (V : Type 0) : Type 0 where
  pub users : List Text
  pub finished : Map Text V
  pub order : List Text

module _ {V : Type 0} where
  abbrev pub default : VerificationLog V
  default = record { users = []; finished = []; order = [] }

  unfoldable pub watch : Text → VerificationLog V → VerificationLog V
  watch user l = if elem Text-discrete user l.users then l else record l { users = user ∷ l.users }

  -- `pop_front`, and the removal of what it returned.
  unfoldable pub pop_oldest : VerificationLog V → List Text → VerificationLog V
  pop_oldest l [] = l
  pop_oldest l (oldest ∷ rest) = record l {
    finished = Map.remove Text-discrete oldest l.finished;
    order = rest;
  }

  -- `record` of the source. An entry that is replaced keeps its place.
  unfoldable pub record_flow : Text → V → VerificationLog V → VerificationLog V
  unfolding pop_oldest
  record_flow flow_id summary l =
      let inserted : VerificationLog V = record l {
        finished = Map.insert Text-discrete flow_id summary l.finished;
      } in
      let pushed : VerificationLog V = record inserted { order = l.order ++ flow_id ∷ [] } in
      if Map.contains_key Text-discrete flow_id l.finished
      then inserted
      else if ltb max_finished (length pushed.order)
      then pop_oldest pushed pushed.order
      else pushed

  unfoldable pub get_flow : Text → VerificationLog V → Option V
  get_flow flow_id l = Map.get Text-discrete flow_id l.finished

  unfoldable pub collect : List Text → Map Text V → List V
  collect [] m = []
  collect (flow_id ∷ rest) m = elim (Map.get Text-discrete flow_id m) [
    | none ↦ collect rest m
    | some summary ↦ summary ∷ collect rest m
  ]

  -- `all`, oldest first.
  unfoldable pub all_flows : VerificationLog V → List V
  unfolding collect
  all_flows l = collect l.order l.finished

-- `record_finished`: `requests` gives the flows that the OlmMachine has with a user, of the type
-- `F`, and `summary` their summaries with `finished` set.
module _ {F V : Type 0} (is_done is_cancelled : F → Bool) (flow_id : F → Text)
    (summary : F → V) where
  unfoldable pub record_requests : List F → VerificationLog V → VerificationLog V
  record_requests [] l = l
  record_requests (request ∷ rest) l =
      if is_done request || is_cancelled request
      then record_requests rest (record_flow (flow_id request) (summary request) l)
      else record_requests rest l

  unfoldable pub record_users : (Text → List F) → List Text → VerificationLog V → VerificationLog V
  unfolding record_requests
  record_users requests [] l = l
  record_users requests (user ∷ rest) l =
      record_users requests rest (record_requests (requests user) l)

  unfoldable pub record_finished : (Text → List F) → Text → VerificationLog V → VerificationLog V
  unfolding record_users
  record_finished requests own l = record_users requests (l.users ++ own ∷ []) l
