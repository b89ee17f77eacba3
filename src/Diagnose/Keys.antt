-- ===== src/Diagnose/Keys.antt =====
-- The session that is checked, and the checks of its token and its keys: src/admin/diagnose.rs.
-- The answers of the homeserver, `none` where the request fails, and what the OlmMachine says are
-- arguments.
use ement_e2ee.Prelude.{
  ℕ, Bool, false, ◌==◌, Option, none, some, List, [], ◌∷◌, ◌++◌, Text, codes, eqb, if◌then◌else◌,
  unwrap_or, ◌>>=?◌,
}
use ement_e2ee.Json
use ement_e2ee.Json.{Json}
use ement_e2ee.Http.{is_success}
use ement_e2ee.Repair.Queue.{PendingRepair}
use ement_e2ee.Diagnose.Checks.{Check, Piece, said, check_ok, check_warn, check_fail}
use Piece.{text, number, json, error}

-- `get_device` for the session's own device: whether its owner has cross-signed it, and its keys.
pub data OwnDevice (V : Type 0) : Type 0 where
  known : Bool → Option V → OwnDevice V
  not_listed : OwnDevice V
  store_error : OwnDevice V

pub record CrossSigning : Type 0 where
  pub has_master : Bool
  pub has_self_signing : Bool
  pub has_user_signing : Bool

pub record Backup : Type 0 where
  pub enabled : Bool
  pub local_version : Option Text
  -- How many room keys there are, and how many are backed up.
  pub counts : Option (ℕ × ℕ)

pub record Session (V : Type 0) : Type 0 where
  pub user_id : Text
  pub device_id : Text
  pub store_dir : Text
  pub identity_key : Text
  pub whoami : Option (ℕ × V)
  -- `published_identity`
  pub published : Option (Option Text)
  pub keys_upload : Option (ℕ × V)
  pub cross_signing : CrossSigning
  pub own_device : OwnDevice V
  pub self_signing_key : Option Text
  pub backup : Backup
  pub backup_version : Option (ℕ × V)
  -- How long ago the client last synced, in seconds.
  pub sync_age : Option ℕ
  pub pending : List (PendingRepair V)

abbrev pub new_device_hint : Text → Text
new_device_hint store_dir =
    codes "sign this session out from another client, delete "
    ++ store_dir
    ++ codes " and log in again from ement to continue as a new device"

module _ (J : Json) where
  open J use {Value, as_str, as_u64}

  abbrev pub is_text : Value → Text → Bool
  is_text v s = elim (as_str v) [ none ↦ false | some t ↦ eqb t s ]

  unfoldable pub token_check : Text → ℕ → Value → Check Value
  token_check device_id status body =
      if is_success status
      then (if is_text (Json.index J (codes "device_id") body) device_id
          then check_ok (codes "token") (said (codes "access token is valid"))
          else check_fail (codes "token")
              (text (codes "the token now belongs to device ")
                ∷ json (Json.index J (codes "device_id") body)
                ∷ [])
              (codes "restart the proxy and reconnect ement"))
      else check_fail (codes "token")
          (text (codes "the homeserver rejects the access token (")
            ∷ number status
            ∷ text (codes " ")
            ∷ json (Json.index J (codes "errcode") body)
            ∷ text (codes ")")
            ∷ [])
          (codes "log in again from ement (through the proxy)")

  unfoldable pub check_token : Session Value → Check Value
  unfolding token_check
  check_token s = elim s.whoami [
    | none ↦
        check_fail (codes "token") (text (codes "could not ask the homeserver: ") ∷ error ∷ [])
          (codes "check the network")
    | some (status, body) ↦ token_check s.device_id status body
  ]

  unfoldable pub device_keys_check : Text → Text → Option Text → Check Value
  device_keys_check ours store_dir none =
      check_fail (codes "device_keys") (said (codes "this device's keys are not on the homeserver"))
        (codes
          "they are published when a session starts: reconnect ement (M-x ement-disconnect, M-x ement-connect); if they stay missing see `ement-e2ee ctl debug logs --level warn`")
  device_keys_check ours store_dir (some key) =
      if eqb key ours
      then check_ok (codes "device_keys")
          (text (codes "published (ed25519 ") ∷ text ours ∷ text (codes ")") ∷ [])
      else check_fail (codes "device_keys")
          (said (
            codes
              "the homeserver has other keys on record for this device ID than this device holds"))
          (codes "a device's keys cannot be replaced: " ++ new_device_hint store_dir)

  unfoldable pub check_device_keys : Session Value → Check Value
  unfolding device_keys_check
  check_device_keys s = elim s.published [
    | none ↦
        check_warn (codes "device_keys")
          (text (codes "could not ask the homeserver: ") ∷ error ∷ []) (codes "retry later")
    | some key ↦ device_keys_check s.identity_key s.store_dir key
  ]

  abbrev pub key_count : Value → ℕ
  key_count body =
      unwrap_or
        (Json.pointer J (codes "one_time_key_counts" ∷ codes "signed_curve25519" ∷ []) body
          >>=? as_u64)
        0

  unfoldable pub one_time_keys_check : ℕ → Value → Check Value
  one_time_keys_check status body =
      if is_success status
      then (if key_count body == 0
          then check_warn (codes "one_time_keys")
              (said (codes "no one-time keys left on the homeserver"))
              (codes
                "others cannot open new sessions with this device until they are replenished, which happens on the next sync; if it stays at 0 see the logs")
          else check_ok (codes "one_time_keys")
              (number (key_count body) ∷ text (codes " on the homeserver") ∷ []))
      else check_warn (codes "one_time_keys")
          (text (codes "keys/upload answered ") ∷ number status ∷ []) (codes "retry later")

  unfoldable pub check_one_time_keys : Session Value → Check Value
  unfolding one_time_keys_check
  check_one_time_keys s = elim s.keys_upload [
    | none ↦
        check_warn (codes "one_time_keys") (text (codes "keys/upload failed: ") ∷ error ∷ [])
          (codes "retry later")
    | some (status, body) ↦ one_time_keys_check status body
  ]
