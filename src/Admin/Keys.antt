-- ===== src/Admin/Keys.antt =====
-- `keys_export`, `keys_import` and `bootstrap` of src/admin/mod.rs. The store of the OlmMachine and
-- the format of an export are a parameter; `none` is an error of theirs. So is src/crypto/ssss.rs.
use ement_e2ee.Prelude.{ℕ, Option, none, some, List, Text, codes, length}
use ement_e2ee.Json
use ement_e2ee.Json.{Json}
use ement_e2ee.Repair.Queue.{RepairQueue, note_bulk_import}
use ement_e2ee.Admin.Params.{Answered, AdminSession, resolve_session}
use Answered.{ok, json_error}

pub record KeyHost : Type 1 where
  pub Olm : Type 0
  pub RoomKey : Type 0
  pub Report : Type 0
  pub export_room_keys : Olm → Option (List RoomKey)
  -- How many keys are new, and how many there are.
  pub import_room_keys : List RoomKey → Olm → Olm × Option (ℕ × ℕ)
  -- With the passphrase and the number of rounds.
  pub encrypt_room_key_export : List RoomKey → Text → ℕ → Option Text
  pub decrypt_room_key_export : Text → Text → Option (List RoomKey)
  -- `ssss::bootstrap`, with the recovery key.
  pub ssss_bootstrap : Text → Olm → Olm × Option Report

module _ (J : Json) (K : KeyHost) where
  open J use {Value}
  open K use {
    Olm, RoomKey, Report, export_room_keys, import_room_keys, encrypt_room_key_export,
    decrypt_room_key_export, ssss_bootstrap,
  }

  pub record KeyContext : Type 0 where
    pub olm : Olm
    pub repairs : RepairQueue Value

  abbrev pub KeySession : Type 0
  KeySession = AdminSession KeyContext

  -- A response, with the session as it leaves it where one was resolved.
  pub data KeyAnswer : Type 0 where
    refused : ℕ → KeyAnswer
    bad_request : KeyAnswer
    internal : KeySession → KeyAnswer
    answered_status : ℕ → KeySession → KeyAnswer
    exported : ℕ → Text → KeySession → KeyAnswer
    imported : ℕ → ℕ → KeySession → KeyAnswer
    bootstrapped : Report → KeySession → KeyAnswer

  abbrev pub for_session : Value → List KeySession → (KeySession → KeyAnswer) → KeyAnswer
  for_session body sessions f =
      elim (resolve_session (Json.get_str J (codes "user_id") body) sessions) [
        | json_error status ↦ refused status
        | ok s ↦ f s
      ]

  abbrev pub with_olm : Olm → KeySession → KeySession
  with_olm olm s = record s { context = record s.context { olm = olm } }

  -- Placeholders that the client shows may be decryptable now.
  unfoldable pub after_import : Olm → KeySession → KeySession
  unfolding note_bulk_import
  after_import olm s = record s {
    context = record { olm = olm; repairs = note_bulk_import s.context.repairs };
  }

  unfoldable pub export_from : Text → KeySession → KeyAnswer
  export_from passphrase s = elim (export_room_keys s.context.olm) [
    | none ↦ internal s
    | some keys ↦ elim (encrypt_room_key_export keys passphrase 100000) [
      | none ↦ internal s
      | some blob ↦ exported (length keys) blob s
    ]
  ]

  unfoldable pub keys_export : List KeySession → Value → KeyAnswer
  unfolding export_from
  keys_export sessions body = elim (Json.get_str J (codes "passphrase") body) [
    | none ↦ refused 400
    | some passphrase ↦ for_session body sessions (export_from passphrase)
  ]

  unfoldable pub import_into : Text → Text → KeySession → KeyAnswer
  unfolding after_import
  import_into passphrase blob s = elim (decrypt_room_key_export blob passphrase) [
    | none ↦ answered_status 400 s
    | some keys ↦
        let (olm, result) = import_room_keys keys s.context.olm in
        elim result [
          | none ↦ internal (with_olm olm s)
          | some (count, total) ↦ imported count total (after_import olm s)
        ]
  ]

  unfoldable pub keys_import : List KeySession → Value → KeyAnswer
  unfolding import_into
  keys_import sessions body = elim (Json.get_str J (codes "passphrase") body) [
    | none ↦ refused 400
    | some passphrase ↦ elim (Json.get_str J (codes "data") body) [
      | none ↦ refused 400
      | some blob ↦ for_session body sessions (import_into passphrase blob)
    ]
  ]

  unfoldable pub bootstrap_with : Text → KeySession → KeyAnswer
  unfolding after_import
  bootstrap_with recovery_key s =
      let (olm, result) = ssss_bootstrap recovery_key s.context.olm in
      elim result [
        | none ↦ answered_status 500 (with_olm olm s)
        | some report ↦ bootstrapped report (after_import olm s)
      ]

  unfoldable pub bootstrap : List KeySession → Value → KeyAnswer
  unfolding bootstrap_with
  bootstrap sessions body = elim (Json.get_str J (codes "recovery_key") body) [
    | none ↦ bad_request
    | some recovery_key ↦ for_session body sessions (bootstrap_with recovery_key)
  ]
