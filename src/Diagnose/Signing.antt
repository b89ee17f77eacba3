-- ===== src/Diagnose/Signing.antt =====
-- The checks of a session's cross-signing: src/admin/diagnose.rs.
use ement_e2ee.Prelude.{
  Bool, true, false, Option, none, some, [], ◌∷◌, ◌++◌, Text, codes, is_some, ◌>>=?◌,
}
use ement_e2ee.Json
use ement_e2ee.Json.{Json}
use ement_e2ee.Diagnose.Checks.{Check, Detail, Piece, said, check_ok, check_warn, check_fail}
use Piece.{text, error}
use ement_e2ee.Diagnose.Keys.{Session, OwnDevice, new_device_hint}
use OwnDevice.{known, not_listed, store_error}

module _ (J : Json) where
  open J use {Value, as_str, as_u64}

  abbrev pub yes_or_no : Bool → Detail Value
  yes_or_no true = said (codes "true")
  yes_or_no false = said (codes "false")

  abbrev pub some_keys : Bool → Bool → Bool → Check Value
  some_keys master self_signing user_signing =
      check_warn (codes "cross_signing")
        (said (codes "only some private keys are here (master: ")
          ++ yes_or_no master
          ++ said (codes ", self-signing: ")
          ++ yes_or_no self_signing
          ++ said (codes ", user-signing: ")
          ++ yes_or_no user_signing
          ++ said (codes ")"))
        (codes "run `ement-e2ee ctl bootstrap` again")

  unfoldable pub cross_signing_check : Bool → Bool → Bool → Check Value
  cross_signing_check true true true =
      check_ok (codes "cross_signing") (said (codes "all three private keys are on this device"))
  cross_signing_check false false false =
      check_warn (codes "cross_signing") (said (codes "this device has no cross-signing keys"))
        (codes "run `ement-e2ee ctl bootstrap` with your recovery key")
  cross_signing_check true true false = some_keys true true false
  cross_signing_check true false user_signing = some_keys true false user_signing
  cross_signing_check false true user_signing = some_keys false true user_signing
  cross_signing_check false false true = some_keys false false true

  abbrev pub check_cross_signing : Session Value → Check Value
  check_cross_signing s =
      cross_signing_check s.cross_signing.has_master s.cross_signing.has_self_signing
        s.cross_signing.has_user_signing

  -- The device's keys as they serialize carry a signature of the account's self-signing key.
  unfoldable pub has_stale_cross_signature : Text → Option Text → Bool → Option Value → Bool
  has_stale_cross_signature user_id self_signing_key true keys = false
  has_stale_cross_signature user_id none false keys = false
  has_stale_cross_signature user_id (some key) false keys = is_some (
      keys >>=? λ k.
      Json.get J (codes "ed25519:" ++ key)
        (Json.index J user_id (Json.index J (codes "signatures") k)))

  abbrev pub device_hint : Text
  device_hint =
      codes "run `ement-e2ee ctl bootstrap`, or `ement-e2ee ctl verify` against a verified device"

  unfoldable pub own_device_check : Text → Bool → Bool → Check Value
  own_device_check store_dir true stale =
      check_ok (codes "device_verified")
        (said (codes "cross-signed: other clients show it as verified"))
  own_device_check store_dir false true =
      check_fail (codes "device_verified")
        (said (
          codes
            "the homeserver holds a cross-signing signature for this device ID that does not match the device's keys, and keeps it whatever is signed anew: other clients show this device as unverified, and verifying it again changes nothing"))
        (codes "this device ID had other keys once: " ++ new_device_hint store_dir)
  own_device_check store_dir false false =
      check_warn (codes "device_verified")
        (said (codes "not cross-signed: other clients show this device as unverified")) device_hint

  unfoldable pub check_device_verified : Session Value → Check Value
  unfolding own_device_check has_stale_cross_signature
  check_device_verified s = elim s.own_device [
    | known cross_signed keys ↦
        own_device_check s.store_dir cross_signed
          (has_stale_cross_signature s.user_id s.self_signing_key cross_signed keys)
    | not_listed ↦
        check_warn (codes "device_verified")
          (said (codes "this device is not in its own device list yet"))
          (codes "it appears after the first key query; retry in a moment")
    | store_error ↦
        check_fail (codes "device_verified") (text (codes "store error: ") ∷ error ∷ [])
          (codes "see the logs")
  ]
