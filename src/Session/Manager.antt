-- ===== src/Session/Manager.antt =====
-- `SessionManager` of src/session.rs. The disk, matrix-sdk-crypto and matrix-sdk-sqlite are a
-- parameter, `Host`; the tasks that `insert` spawns are noted in `spawned`, in order.
use ement_e2ee.Prelude.{
  Bool, true, false, not, ◌&&◌, Option, none, some, List, [], ◌∷◌, ◌++◌, Text, codes, eqb,
  if◌then◌else◌, retain,
}
use ement_e2ee.Prelude.{Text-discrete}
use ement_e2ee.Prelude.Map
use ement_e2ee.Prelude.Map.{Map}
use ement_e2ee.Json
use ement_e2ee.Json.{Json}
use ement_e2ee.Http.{Method, Request, Homeserver, is_success}
use ement_e2ee.Session.Paths.{account_store_dir}
use ement_e2ee.Session.Device.{DeviceConflict, published_identity}
use ement_e2ee.Rooms.Tracker
use ement_e2ee.Rooms.Tracker.{RoomTracker}
use ement_e2ee.Sync.Seen
use ement_e2ee.Sync.Seen.{SeenToDevice}
use ement_e2ee.Repair.Queue.{RepairQueue}
use ement_e2ee.Verify.Log
use ement_e2ee.Verify.Log.{VerificationLog}

-- The file system, and opening the crypto store and the media store in it.
pub record Host : Type 1 where
  pub Disk : Type 0
  pub Olm : Type 0
  pub Media : Type 0
  pub Vis : Type 0
  pub has_store : List Text → Disk → Bool
  pub open_machine : List Text → Text → Text → Disk → Disk × Option Olm
  pub open_media : List Text → Disk → Disk × Option Media
  -- `identity_keys().ed25519.to_base64()`
  pub identity_key : Olm → Text
  -- `UserId::parse`
  pub parse_user : Text → Option Text

-- The errors that `context_for` tells apart.
pub data InitError : Type 0 where
  device_conflict : DeviceConflict → InitError
  device_unchecked : Text → InitError
  other_error : InitError

pub data Result (A : Type 0) : Type 0 where
  ok : A → Result A
  err : InitError → Result A

pub data Task : Type 0 where
  republish : Text → Task
  pump : Text → Task

-- `other` names the user and the device of `conflict`.
abbrev pub same_device : DeviceConflict → DeviceConflict → Bool
same_device conflict other =
    eqb other.user_id conflict.user_id && eqb other.device_id conflict.device_id

module _ (J : Json) (H : Host) (store_dir : List Text) where
  open J use {Value, as_str}
  open H use {Disk, Olm, Media, Vis, has_store, open_machine, open_media, identity_key, parse_user}

  pub record AccountContext : Type 0 where
    pub user_id : Text
    pub device_id : Text
    pub token : Text
    pub olm : Olm
    pub rooms : RoomTracker Vis Value
    pub media : Media
    pub sync : SeenToDevice
    pub repairs : RepairQueue Value
    pub verifications : VerificationLog Value

  pub record SessionManager : Type 0 where
    pub inner : Map Text AccountContext
    pub refused : List DeviceConflict
    pub disk : Disk
    pub spawned : List Task

  unfoldable pub refuse : DeviceConflict → SessionManager → SessionManager × Result AccountContext
  refuse conflict m = (
    record m {
      refused = retain (λ other. not (same_device conflict other)) m.refused ++ conflict ∷ [];
    },
    err (device_conflict conflict),
  )

  unfoldable pub remove : Text → SessionManager → SessionManager
  remove token m = record m { inner = Map.remove Text-discrete token m.inner }

  unfoldable pub new_context : Text → Text → Text → Olm → Media → AccountContext
  new_context token user_id device_id olm media = record {
    user_id = user_id;
    device_id = device_id;
    token = token;
    olm = olm;
    rooms = Tracker.default;
    media = media;
    sync = Seen.default;
    repairs = record {
      pending = [];
      order = [];
      ready_sessions = [];
      retry_all = false;
      wakes = 0;
    };
    verifications = Log.default;
  }

  abbrev pub tasks : Bool → Text → List Task
  tasks false token = pump token ∷ []
  tasks true token = republish token ∷ pump token ∷ []

  -- From the opening of the media store on.
  unfoldable pub start_session :
      Text → Text → Text → Olm → Bool → SessionManager → SessionManager × Result AccountContext
  unfolding new_context
  start_session token user_id device_id olm again m =
      let opened = open_media (account_store_dir store_dir user_id device_id) m.disk in
      elim opened.1 [
        | none ↦ (record m { disk = opened.0 }, err other_error)
        | some media ↦
            let ctx = new_context token user_id device_id olm media in
            (
              record {
                inner = Map.insert Text-discrete token ctx m.inner;
                refused = retain (λ conflict. not (eqb conflict.user_id user_id)) m.refused;
                disk = opened.0;
                spawned = m.spawned ++ tasks again token;
              },
              ok ctx,
            )
      ]

  -- The store was there before: its key must be the one that the homeserver has, if it has one.
  unfoldable pub continue_device :
      Text
      → Text
      → Text
      → Olm
      → Option (Option Text)
      → SessionManager
      → SessionManager × Result AccountContext
  unfolding start_session refuse
  continue_device token user_id device_id olm none m =
      start_session token user_id device_id olm false m
  continue_device token user_id device_id olm (some none) m =
      start_session token user_id device_id olm true m
  continue_device token user_id device_id olm (some (some key)) m =
      if eqb key (identity_key olm)
      then start_session token user_id device_id olm false m
      else refuse
          (record {
            user_id = user_id;
            device_id = device_id;
            store = some (account_store_dir store_dir user_id device_id);
          })
          m

  unfoldable pub open_and_continue :
      Bool
      → Text
      → Text
      → Text
      → Option (Option Text)
      → SessionManager
      → SessionManager × Result AccountContext
  unfolding continue_device
  open_and_continue had_store token user_id device_id published m =
      let opened =
        open_machine (account_store_dir store_dir user_id device_id) user_id device_id m.disk in
      elim opened.1 [
        | none ↦ (record m { disk = opened.0 }, err other_error)
        | some olm ↦
            if had_store
            then continue_device token user_id device_id olm published
                (record m { disk = opened.0 })
            else start_session token user_id device_id olm false (record m { disk = opened.0 })
      ]

  -- No store yet: only a device that has no keys may be given new ones.
  unfoldable pub new_device :
      Text
      → Text
      → Text
      → Option (Option Text)
      → SessionManager
      → SessionManager × Result AccountContext
  unfolding open_and_continue refuse
  new_device token user_id device_id none m = (m, err (device_unchecked device_id))
  new_device token user_id device_id (some (some key)) m =
      refuse (record { user_id = user_id; device_id = device_id; store = none }) m
  new_device token user_id device_id (some none) m =
      open_and_continue false token user_id device_id (some none) m

  -- `insert`, under the write lock.
  unfoldable pub insert_locked :
      Text
      → Text
      → Text
      → Option (Option Text)
      → SessionManager
      → SessionManager × Result AccountContext
  unfolding new_device open_and_continue
  insert_locked token user_id device_id published m = elim (Map.get Text-discrete token m.inner) [
    | some ctx ↦ (m, ok ctx)
    | none ↦ elim (has_store (account_store_dir store_dir user_id device_id) m.disk) [
      | false ↦ new_device token user_id device_id published m
      | true ↦ open_and_continue true token user_id device_id published m
    ]
  ]

  module _ (ask : Homeserver Value) where
    unfoldable pub insert :
        Text → Text → Text → SessionManager → SessionManager × Result AccountContext
    unfolding insert_locked
    insert token user device_id m = elim (parse_user user) [
      | none ↦ (m, err other_error)
      | some user_id ↦
          insert_locked token user_id device_id (published_identity J ask token user_id device_id) m
    ]

    abbrev field : Text → Value → Option Text
    field k v = as_str (Json.index J k v)

    unfoldable pub insert_from_whoami :
        Text → Value → SessionManager → SessionManager × Result AccountContext
    unfolding insert
    insert_from_whoami token body m = elim (field (codes "user_id") body) [
      | none ↦ (m, err other_error)
      | some user_id ↦ elim (field (codes "device_id") body) [
        | none ↦ (m, err other_error)
        | some device_id ↦ insert token user_id device_id m
      ]
    ]

    unfoldable pub get_or_init : Text → SessionManager → SessionManager × Result AccountContext
    unfolding insert_from_whoami
    get_or_init token m = elim (Map.get Text-discrete token m.inner) [
      | some ctx ↦ (m, ok ctx)
      | none ↦
          let whoami : Request Value = record {
            method = Method.get;
            path_and_query = codes "/_matrix/client/v3/account/whoami";
            token = token;
            body = none;
          } in
          elim (ask whoami) [
            | none ↦ (m, err other_error)
            | some (status, body) ↦
                if is_success status then insert_from_whoami token body m else (m, err other_error)
          ]
    ]

    unfoldable pub insert_from_login :
        Value → SessionManager → SessionManager × Result AccountContext
    unfolding insert_from_whoami
    insert_from_login response m = elim (field (codes "access_token") response) [
      | none ↦ (m, err other_error)
      | some token ↦ insert_from_whoami token response m
    ]
