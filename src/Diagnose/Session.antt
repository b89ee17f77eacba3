-- ===== src/Diagnose/Session.antt =====
-- The checks of a session's backup, sync and placeholders, and all of its checks:
-- src/admin/diagnose.rs.
use ement_e2ee.Prelude.{
  ℕ, Bool, true, false, ◌==◌, Option, none, some, List, [], ◌∷◌, Text, codes, eqb, Text-discrete,
  leb, if◌then◌else◌, is_empty, length, elem, unwrap_or,
}
use ement_e2ee.Json
use ement_e2ee.Json.{Json}
use ement_e2ee.Http.{is_success}
use ement_e2ee.Repair.Queue.{PendingRepair}
use ement_e2ee.Diagnose.Checks.{is_fail, Check, Detail, Piece, said, check_ok, check_warn}
use Piece.{text, number, error}
use ement_e2ee.Diagnose.Keys.{Session, Backup, check_token, check_device_keys, check_one_time_keys}
use ement_e2ee.Diagnose.Signing.{check_cross_signing, check_device_verified}

module _ (J : Json) where
  open J use {Value, as_str, as_u64}

  abbrev pub progress : Option (ℕ × ℕ) → Detail Value
  progress none = said []
  progress (some (total, backed_up)) =
      text (codes ", ")
      ∷ number backed_up
      ∷ text (codes " of ")
      ∷ number total
      ∷ text (codes " room keys uploaded")
      ∷ []

  abbrev pub other_version : Option Text → Text → Check Value
  other_version local server =
      check_warn (codes "backup")
        (text (codes "this device backs up to version ")
          ∷ text (unwrap_or local (codes "?"))
          ∷ text (codes ", the account is now on version ")
          ∷ text server
          ∷ [])
        (codes "the backup was reset elsewhere: run `ement-e2ee ctl bootstrap` again")

  abbrev pub same_version : Option (ℕ × ℕ) → Text → Check Value
  same_version counts server =
      check_ok (codes "backup") (text (codes "version ") ∷ text server ∷ progress counts)

  unfoldable pub backup_check : Option (ℕ × ℕ) → Bool → Option Text → Option Text → Check Value
  backup_check counts true (some local) (some server) =
      if eqb local server then same_version counts server else other_version (some local) server
  backup_check counts true none (some server) = other_version none server
  backup_check counts true local none =
      check_warn (codes "backup")
        (said (codes "this device has a backup key but the account has no backup any more"))
        (codes "set up key backup again in another client, then `ement-e2ee ctl bootstrap`")
  backup_check counts false local (some server) =
      check_warn (codes "backup")
        (text (codes "the account has a key backup (version ")
          ∷ text server
          ∷ text (codes ") this device does not use")
          ∷ [])
        (codes "run `ement-e2ee ctl bootstrap` to restore from it and back up new keys")
  backup_check counts false local none =
      check_ok (codes "backup") (said (codes "the account has no key backup"))

  unfoldable pub backup_answer : Backup → ℕ → Value → Check Value
  unfolding backup_check
  backup_answer b status body =
      if is_success status
      then backup_check b.counts b.enabled b.local_version
          (as_str (Json.index J (codes "version") body))
      else if status == 404
      then backup_check b.counts b.enabled b.local_version none
      else check_warn (codes "backup")
          (text (codes "room_keys/version answered ") ∷ number status ∷ []) (codes "retry later")

  unfoldable pub check_backup : Session Value → Check Value
  unfolding backup_answer
  check_backup s = elim s.backup_version [
    | none ↦
        check_warn (codes "backup") (text (codes "could not ask the homeserver: ") ∷ error ∷ [])
          (codes "retry later")
    | some (status, body) ↦ backup_answer s.backup status body
  ]

  abbrev pub client_sync_stale : ℕ
  client_sync_stale = 120

  abbrev sync_hint : Text
  sync_hint = codes "keys and verification only move while ement is connected and syncing"

  unfoldable pub check_client_sync : Session Value → Check Value
  check_client_sync s = elim s.sync_age [
    | none ↦
        check_warn (codes "client_sync")
          (said (codes "ement has not synced since the proxy started")) sync_hint
    | some age ↦
        if leb age client_sync_stale
        then check_ok (codes "client_sync")
            (text (codes "ement synced ") ∷ number age ∷ text (codes " s ago") ∷ [])
        else check_warn (codes "client_sync")
            (text (codes "ement last synced ") ∷ number age ∷ text (codes " s ago") ∷ []) sync_hint
  ]

  -- The rooms of the placeholders, each once.
  unfoldable pub rooms_of : List (PendingRepair Value) → List Text
  rooms_of [] = []
  rooms_of (repair ∷ repairs) =
      let rest = rooms_of repairs in
      if elem Text-discrete repair.room_id rest then rest else repair.room_id ∷ rest

  unfoldable pub check_placeholders : Session Value → Check Value
  unfolding rooms_of
  check_placeholders s =
      if is_empty s.pending
      then check_ok (codes "placeholders") (said (codes "no message is waiting for a key"))
      else check_warn (codes "placeholders")
          (number (length s.pending)
            ∷ text (codes " message(s) in ")
            ∷ number (length (rooms_of s.pending))
            ∷ text (codes " room(s) are shown as undecryptable")
            ∷ [])
          (codes
            "they repair themselves when a key arrives; `ement-e2ee ctl debug room ROOM` lists them and `ement-e2ee ctl debug event ROOM EVENT` says what each is missing")

  -- Nothing below the token can be judged with a dead one.
  unfoldable pub check_session : Session Value → List (Check Value)
  unfolding check_backup check_client_sync check_placeholders
  check_session s =
      let token = check_token J s in
      if is_fail token.status
      then token ∷ []
      else (token
          ∷ check_device_keys J s
          ∷ check_one_time_keys J s
          ∷ check_cross_signing J s
          ∷ check_device_verified J s
          ∷ check_backup s
          ∷ check_client_sync s
          ∷ check_placeholders s
          ∷ [])
