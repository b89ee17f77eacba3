-- ===== src/Sync/Receive.antt =====
-- `receive_sync_changes` and `process_sync_changes` of src/crypto/sync.rs. The OlmMachine and the
-- parsers of ruma are a parameter, `SyncSdk`; `now` is the clock and `hash` the keyed hasher.
use ement_e2ee.Prelude.{
  ℕ, suc, ◌+◌, ◌&&◌, ◌==◌, eqb, Bool, true, false, Option, none, some, List, [], ◌∷◌, ◌++◌, Text,
  codes, Text-discrete, if◌then◌else◌, length, is_some, or_else, unwrap_or, ◌>>=?◌,
}
use ement_e2ee.Prelude.Map
use ement_e2ee.Prelude.Map.{Map}
use ement_e2ee.Json
use ement_e2ee.Json.{Json}
use ement_e2ee.Sync.Seen.{SeenToDevice, insert, forget_all}
use ement_e2ee.Repair.Queue.{RepairQueue, note_room_keys}
use ement_e2ee.Verify.Log.{VerificationLog, record_finished}

-- `EncryptionSyncChanges` of matrix-sdk-crypto.
pub record Changes (Raw Devices : Type 0) : Type 0 where
  pub to_device_events : List Raw
  pub changed_devices : Devices
  pub one_time_keys_counts : Map Text ℕ
  pub unused_fallback_keys : Option (List Text)
  pub next_batch_token : Option Text

-- What the program uses of matrix-sdk-crypto and ruma to process a sync response. A parser's
-- `none` is its error. Of a room key the program reads its session's ID alone.
pub record SyncSdk (Value : Type 0) : Type 1 where
  pub Olm : Type 0
  pub Raw : Type 0
  pub Devices : Type 0
  pub Flow : Type 0
  pub no_devices : Devices
  pub parse_raw : Value → Option Raw
  pub parse_devices : Value → Option Devices
  pub parse_counts : Value → Option (Map Text ℕ)
  pub parse_algorithms : Value → Option (List Text)
  -- The machine may have changed where it fails.
  pub receive_sync_changes : Changes Raw Devices → Olm → Olm × Option (List Text)
  pub verification_requests : Olm → Text → List Flow
  pub is_done : Flow → Bool
  pub is_cancelled : Flow → Bool
  pub flow_id : Flow → Text
  pub finished_summary : Flow → Value

pub record SyncStats : Type 0 where
  pub client_syncs : ℕ
  pub last_client_sync : Option ℕ
  pub to_device_events : ℕ
  pub to_device_duplicates : ℕ
  pub room_keys_received : ℕ

-- `.map(parse).transpose()?`: a field that is absent parses, as `none`.
abbrev pub transpose {ℓ κ} :
    {A : Type ℓ} {B : Type κ} → (A → Option B) → Option A → Option (Option B)
transpose parse none = some none
transpose parse (some a) = elim (parse a) [ none ↦ none | some b ↦ some (some b) ]

-- `OneTimeKeyAlgorithm::SignedCurve25519`
abbrev pub signed_curve25519 : Text
signed_curve25519 = codes "signed_curve25519"

module _ (J : Json) (K : SyncSdk (Json.Value J)) where
  open J use {Value, as_str, as_array}
  open K use {
    Olm, Raw, Devices, Flow, no_devices, parse_raw, parse_devices, parse_counts, parse_algorithms,
    verification_requests, is_done, is_cancelled, flow_id, finished_summary,
  }

  -- What an account's context holds for the sync.
  pub record Account : Type 0 where
    pub user_id : Text
    pub olm : Olm
    pub seen : SeenToDevice
    pub stats : SyncStats
    pub repairs : RepairQueue Value
    pub verifications : VerificationLog Value

  -- The locals of the loop over the incoming events, with the state it updates.
  pub record Batch : Type 0 where
    pub seen : SeenToDevice
    pub to_device_events : List Raw
    pub new_keys : List ℕ
    pub duplicates : ℕ

  -- `body.pointer("/to_device/events")`
  unfoldable pub incoming : Value → List Value
  incoming body =
      unwrap_or (Json.pointer J (codes "to_device" ∷ codes "events" ∷ []) body >>=? as_array) []

  abbrev pub start : SeenToDevice → Batch
  start seen = record { seen = seen; to_device_events = []; new_keys = []; duplicates = 0 }

  -- `insert` answered that the event is a repeat, or that it is new.
  abbrev pub note_repeat : ℕ → Batch → Batch
  note_repeat key b = record b { seen = (insert key b.seen).0; duplicates = suc b.duplicates }

  abbrev pub note_new : ℕ → Batch → Batch
  note_new key b = record b { seen = (insert key b.seen).0; new_keys = b.new_keys ++ key ∷ [] }

  abbrev pub push_event : Raw → Batch → Batch
  push_event raw b = record b { to_device_events = b.to_device_events ++ raw ∷ [] }

  -- The loop; false where it returned early, on an event that does not parse.
  unfoldable pub collect : (Value → ℕ) → List Value → Batch → Batch × Bool
  collect hash [] b = (b, true)
  collect hash (event ∷ events) b = elim (insert (hash event) b.seen).1 [
    | false ↦ collect hash events (note_repeat (hash event) b)
    | true ↦ elim (parse_raw event) [
      | none ↦ (note_new (hash event) b, false)
      | some raw ↦ collect hash events (push_event raw (note_new (hash event) b))
    ]
  ]

  -- `entry(SignedCurve25519).or_insert(0)`, where the response has the field at all.
  unfoldable pub with_zero : Bool → Map Text ℕ → Map Text ℕ
  with_zero false counts = counts
  with_zero true counts =
      if Map.contains_key Text-discrete signed_curve25519 counts
      then counts
      else Map.insert Text-discrete signed_curve25519 0 counts

  abbrev counts_field : Value → Option Value
  counts_field body = Json.get J (codes "device_one_time_keys_count") body

  unfoldable pub changes_of : Value → List Raw → Option (Changes Raw Devices)
  unfolding with_zero
  changes_of body events =
      transpose parse_devices (Json.get J (codes "device_lists") body) >>=? λ devices.
      transpose parse_counts (counts_field body) >>=? λ counts.
      transpose parse_algorithms (
        or_else (Json.get J (codes "device_unused_fallback_key_types") body)
          (Json.get J (codes "org.matrix.msc2732.device_unused_fallback_key_types") body))
      >>=? λ fallback. some (record {
        to_device_events = events;
        changed_devices = unwrap_or devices no_devices;
        one_time_keys_counts = with_zero (is_some (counts_field body)) (unwrap_or counts []);
        unused_fallback_keys = fallback;
        next_batch_token = Json.get_str J (codes "next_batch") body;
      })

  -- After the machine has answered: the number of room keys, or its failure.
  unfoldable pub note_received : Olm → Option (List Text) → Account → Account × Option ℕ
  note_received olm none a = (record a { olm = olm }, none)
  note_received olm (some sessions) a = (
    record a {
      olm = olm;
      repairs = note_room_keys sessions a.repairs;
      verifications =
          record_finished is_done is_cancelled flow_id finished_summary (verification_requests olm)
            a.user_id a.verifications;
    },
    some (length sessions),
  )

  unfoldable pub process_sync_changes : Value → List Raw → Account → Account × Option ℕ
  unfolding changes_of note_received
  process_sync_changes body events a = elim (changes_of body events) [
    | none ↦ (a, none)
    | some changes ↦
        let answer = K.receive_sync_changes changes a.olm in note_received answer.0 answer.1 a
  ]

  unfoldable pub count_sync : ℕ → ℕ → ℕ → ℕ → SyncStats → SyncStats
  count_sync now new duplicates room_keys s = record {
    client_syncs = suc s.client_syncs;
    last_client_sync = some now;
    to_device_events = s.to_device_events + new;
    to_device_duplicates = s.to_device_duplicates + duplicates;
    room_keys_received = s.room_keys_received + room_keys;
  }

  -- From the answer of `process_sync_changes` on; the Boolean is `is_ok`.
  unfoldable pub settle : ℕ → Batch → Account → Option ℕ → Account × Bool
  unfolding count_sync
  settle now b a none = (record a { seen = forget_all b.new_keys b.seen }, false)
  settle now b a (some room_keys) = (
    record a {
      seen = b.seen;
      stats = count_sync now (length b.new_keys) b.duplicates room_keys a.stats;
    },
    true,
  )

  unfoldable pub receive_batch : ℕ → Value → Batch → Account → Account × Bool
  unfolding process_sync_changes settle
  receive_batch now body b a =
      let processed = process_sync_changes body b.to_device_events a in
      settle now b processed.0 processed.1

  unfoldable pub receive_sync_changes : (Value → ℕ) → ℕ → Value → Account → Account × Bool
  unfolding collect receive_batch incoming
  receive_sync_changes hash now body a =
      let (b, parsed) = collect hash (incoming body) (start a.seen) in
      if parsed then receive_batch now body b a else (record a { seen = b.seen }, false)

  -- `is_unknown_token`; `parse` is `serde_json::from_slice`.
  unfoldable pub is_unknown_token : (Text → Option Value) → ℕ → Text → Bool
  is_unknown_token parse status body = elim (parse body >>=? Json.get_str J (codes "errcode")) [
    | none ↦ false
    | some code ↦ (status == 401) && eqb code (codes "M_UNKNOWN_TOKEN")
  ]
