-- ===== src/Sync/Handle.antt =====
-- `handle_sync`, `repair_only_response` and `query_param` of src/crypto/sync.rs. `dec` is the
-- percent decoding, `parse` is `serde_json::from_slice`. The rewriting of the body
-- (src/crypto/decrypt.rs) and the injection of repairs (src/crypto/repair.rs) are arguments.
use ement_e2ee.Prelude.{
  Bool-cases, Option-cases, inl, inr, ℕ, ◌≡◌, refl, Bool, true, false, ◌||◌, Option, none, some,
  List, [], ◌∷◌, ◌++◌, Text, codes, eqb, if◌then◌else◌, arith,
}
use ement_e2ee.Prelude.Str.{split, split_once, lacks, split-append, split_once-append}
use ement_e2ee.Json.{Json}
use ement_e2ee.Http.{is_success}
use ement_e2ee.Proxy.Error.{ProxyError}
use ement_e2ee.Repair.Queue.{has_ready}
use ement_e2ee.Sync.Receive.{SyncSdk, Account, receive_sync_changes, is_unknown_token}

-- A pair without `=` is passed over.
unfoldable pub param_of : Text → Option (Text × Text) → Option Text
param_of name none = none
param_of name (some (key, value)) = if eqb key name then some value else none

unfoldable pub find_param : (Text → Text) → Text → List Text → Option Text
unfolding param_of
find_param dec name [] = none
find_param dec name (pair ∷ pairs) = elim (param_of name (split_once b'=' pair)) [
  | none ↦ find_param dec name pairs
  | some value ↦ some (dec value)
]

unfoldable pub query_param : (Text → Text) → Text → Text → Option Text
unfolding find_param
query_param dec query name = find_param dec name (split b'&' query)

eqb_refl : (s : Text) → eqb s s ≡ true
eqb_refl s = ground arith

-- A parameter at the head of a query, with a value that holds no `&` and a name that holds neither
-- `&` nor `=`, is found, whatever follows it, and decoded.
pub query_param-head :
    (dec : Text → Text) (name value rest : Text)
    → lacks b'=' name ≡ true
    → lacks b'&' (name ++ b'=' ∷ value) ≡ true
    → query_param dec ((name ++ b'=' ∷ value) ++ b'&' ∷ rest) name ≡ some (dec value)
unfolding query_param find_param param_of
query_param-head dec name value rest h g =
    rw (split-append b'&' (name ++ b'=' ∷ value) rest g)
      (rw (find_param, split_once-append b'=' name value h, eqb_refl name) refl)

-- What the client is answered: a synthetic body, the homeserver's answer as it is, the rewritten
-- body, or an error.
pub data SyncAnswer (V : Type 0) : Type 0 where
  repairs : V → SyncAnswer V
  relayed : ℕ → Text → SyncAnswer V
  rewritten : V → SyncAnswer V
  failed : ProxyError → SyncAnswer V

-- Whether the session is evicted.
abbrev pub Evicted : Type 0
Evicted = Bool

module _ (J : Json) (K : SyncSdk (Json.Value J)) (hash : Json.Value J → ℕ)
    (parse : Text → Option (Json.Value J))
    (rewrite inject : Account J K → Json.Value J → Account J K × Json.Value J) where
  open J use {Value, string, object}

  abbrev pub Handled : Type 0
  Handled = Account J K × Evicted × SyncAnswer Value

  unfoldable pub repair_only_response : Text → Account J K → Handled
  repair_only_response since a =
      let (after, body) = inject a (object ((codes "next_batch", string since) ∷ [])) in
      (after, false, repairs body)

  -- A response of success, whose body is JSON or not.
  unfoldable pub process_response : ℕ → Option Value → Account J K → Handled
  process_response now none a = (a, false, failed ProxyError.internal)
  process_response now (some body) a =
      let (received, done) = receive_sync_changes J K hash now body a in
      if done
      then (let (after, changed) = rewrite received body in (after, false, rewritten changed))
      else (received, false, failed ProxyError.internal)

  unfoldable pub with_response : ℕ → Option (ℕ × Text) → Account J K → Handled
  unfolding process_response
  with_response now none a = (a, false, failed ProxyError.upstream)
  with_response now (some (status, bytes)) a =
      if is_success status
      then process_response now (parse bytes) a
      else (a, is_unknown_token J K parse status bytes, relayed status bytes)

  -- `woken`: a repair became possible before the homeserver answered.
  unfoldable pub handle_sync : Option Text → Bool → ℕ → Option (ℕ × Text) → Account J K → Handled
  unfolding repair_only_response with_response
  handle_sync none woken now answer a = with_response now answer a
  handle_sync (some since) woken now answer a =
      if has_ready a.repairs || woken
      then repair_only_response since a
      else with_response now answer a

  -- An answer with a rewritten body has behind it an answer of success from the homeserver with a
  -- JSON body, which was processed before it was rewritten; and the session is not evicted.
  abbrev pub Processed : ℕ → Option (ℕ × Text) → Account J K → Handled → Type 0
  Processed now answer a (after, evicted, rewritten v) =
      (status : ℕ) × (bytes : Text) × (body : Value) × (answer ≡ some (status, bytes))
      × (is_success status ≡ true)
      × (parse bytes ≡ some body)
      × ((receive_sync_changes J K hash now body a).1 ≡ true)
      × (rewrite (receive_sync_changes J K hash now body a).0 body ≡ (after, v))
      × (evicted ≡ false)
  Processed now answer a (after, evicted, _) = Unit

  with_response-Processed :
      (now : ℕ) (answer : Option (ℕ × Text)) (a : Account J K)
      → Processed now answer a (with_response now answer a)
  unfolding with_response process_response
  with_response-Processed now none a = tt
  with_response-Processed now (some (status, bytes)) a = elim (Bool-cases (is_success status)) [
    | inr bad ↦ rw bad tt
    | inl good ↦ elim (Option-cases (parse bytes)) [
      | inl no_json ↦ rw (good, no_json) tt
      | inr (body, parsed) ↦ elim (Bool-cases (receive_sync_changes J K hash now body a).1) [
        | inr bad ↦ rw (good, parsed, bad) tt
        | inl done ↦
            rw (good, parsed, done) (status, bytes, body, refl, good, parsed, done, refl, refl)
      ]
    ]
  ]

  -- A sync is answered with a rewritten body only if the homeserver answered with success and JSON
  -- whose crypto sections were processed before, without an error; the body is what the rewriting
  -- made of it after that, and the session stays.
  pub handle_sync-Processed :
      (since : Option Text) (woken : Bool) (now : ℕ) (answer : Option (ℕ × Text)) (a : Account J K)
      → Processed now answer a (handle_sync since woken now answer a)
  unfolding handle_sync repair_only_response
  handle_sync-Processed none woken now answer a = with_response-Processed now answer a
  handle_sync-Processed (some since) woken now answer a =
      elim (Bool-cases (has_ready a.repairs || woken)) [
        | inl ready ↦ rw ready tt
        | inr idle ↦ rw idle (with_response-Processed now answer a)
      ]

  -- Where a repair is possible, or becomes possible before the homeserver answers, an incremental
  -- sync is answered with repairs alone, from the position that the client named, whatever the
  -- homeserver says; an initial sync does not depend on it.
  pub handle_sync-repairs :
      (since : Text) (woken : Bool) (now : ℕ) (answer : Option (ℕ × Text)) (a : Account J K)
      → (has_ready a.repairs || woken) ≡ true
      → (handle_sync (some since) woken now answer a ≡ repair_only_response since a)
        × (handle_sync none woken now answer a ≡ handle_sync none false now answer a)
  unfolding handle_sync
  handle_sync-repairs since woken now answer a ready = (rw ready refl, refl)
