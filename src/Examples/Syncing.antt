-- ===== src/Examples/Syncing.antt =====
-- The sync on concrete responses: events are hashed by their number.
use ement_e2ee.Prelude.{
  ℕ, ◌≡◌, ◌+◌, refl, Bool, true, false, Option, none, some, List, [], ◌∷◌, Text, codes, elem,
  ℕ_discrete, Text-discrete, arith,
}
use ement_e2ee.Prelude.Map
use ement_e2ee.Json
use ement_e2ee.Sync.Seen
use ement_e2ee.Sync.Seen.{SeenToDevice}
use ement_e2ee.Sync.SeenLaws.{IsValid, default-IsValid}
use ement_e2ee.Sync.Receive.{SyncSdk, Account, collect, start, incoming, receive_sync_changes}
use ement_e2ee.Sync.Redelivery.{redelivery}
use ement_e2ee.Sync.Outcome.{
  receive_sync_changes-IsValid, receive_sync_changes-counts, failed_sync_forgets,
}
use ement_e2ee.Examples.Tree.{Tree, leaf, count, tree_json, object_of, array_of}

abbrev pub number_of : Tree → ℕ
number_of (count n) = n
number_of _ = 0

-- A machine that counts the batches it took in, and fails on the third.
abbrev pub take_in : ℕ → ℕ × Option (List Text)
take_in n = if_third n
  where
    if_third : ℕ → ℕ × Option (List Text)
    if_third n = elim (ℕ_discrete n 2) [
      | yes _ ↦ (n, none)
      | no _ ↦ (n + 1, some (codes "megolm" ∷ []))
    ]

abbrev pub sync_sdk : SyncSdk Tree
sync_sdk = record {
  Olm = ℕ;
  Raw = Tree;
  Devices = Bool;
  Flow = Bool;
  no_devices = false;
  parse_raw = some;
  parse_devices = λ v. some true;
  parse_counts = λ v. some [];
  parse_algorithms = λ v. some [];
  receive_sync_changes = λ changes n. take_in n;
  verification_requests = λ n user. [];
  is_done = λ f. f;
  is_cancelled = λ f. false;
  flow_id = λ f. [];
  finished_summary = λ f. leaf;
}

abbrev pub account : ℕ → Account tree_json sync_sdk
account n = record {
  user_id = codes "@a:b";
  olm = n;
  seen = record { order = []; set = [] };
  stats = record {
    client_syncs = 4;
    last_client_sync = none;
    to_device_events = 7;
    to_device_duplicates = 1;
    room_keys_received = 2;
  };
  repairs = record { pending = []; order = []; ready_sessions = []; retry_all = false; wakes = 0 };
  verifications = record { users = []; finished = []; order = [] };
}

abbrev events : List Tree
events = count 5 ∷ count 9 ∷ []

abbrev body : Tree
body = object_of (
    (
      codes "to_device",
      object_of ((codes "events", array_of (count 5 ∷ count 9 ∷ count 5 ∷ [])) ∷ []),
    )
    ∷ [])

empty-IsValid : IsValid (record { order = []; set = [] })
unfolding Seen.default
empty-IsValid = default-IsValid

redelivery_example :
    let seen =
      (collect tree_json sync_sdk number_of events
        (start tree_json sync_sdk (record { order = []; set = [] }))).0.seen in
    collect tree_json sync_sdk number_of events (start tree_json sync_sdk seen)
    ≡ (record (start tree_json sync_sdk seen) { duplicates = 2 }, true)
unfolding collect Seen.insert ℕ_discrete
redelivery_example =
    redelivery tree_json sync_sdk number_of events (record { order = []; set = [] }) empty-IsValid
      (omega arith) refl refl

receive_sync_changes-IsValid_example :
    IsValid (receive_sync_changes tree_json sync_sdk number_of 10 body (account 0)).0.seen
receive_sync_changes-IsValid_example =
    receive_sync_changes-IsValid tree_json sync_sdk number_of 10 body (account 0) empty-IsValid

receive_sync_changes-counts_example :
    let after = (receive_sync_changes tree_json sync_sdk number_of 10 body (account 0)).0.stats in
    (after.client_syncs ≡ 5) × (after.to_device_events + after.to_device_duplicates ≡ 11)
unfolding receive_sync_changes incoming Json.pointer Json.get Map.get Text-discrete Seen.insert
receive_sync_changes-counts_example =
    receive_sync_changes-counts tree_json sync_sdk number_of 10 body (account 0) refl

failed_sync_forgets_example :
    let after = (receive_sync_changes tree_json sync_sdk number_of 10 body (account 2)).0 in
    (elem ℕ_discrete 9 after.seen.set ≡ false) × (after.stats ≡ (account 2).stats)
unfolding receive_sync_changes incoming Json.pointer Json.get Map.get Text-discrete Seen.insert
failed_sync_forgets_example =
    failed_sync_forgets tree_json sync_sdk number_of 10 body (account 2) 9 refl refl refl
