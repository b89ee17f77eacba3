-- ===== src/Admin/KeysLaws.antt =====
-- What an import of room keys does to the placeholders of its session: `keys_import` and `bootstrap`
-- of src/admin/mod.rs.
use ement_e2ee.Prelude.{
  ℕ, ◌≡◌, subst, arith, true, false, List, Text, codes, is_empty, Option-cases, inl, inr,
}
use ement_e2ee.Json
use ement_e2ee.Json.{Json}
use ement_e2ee.Repair.Queue.{PendingRepair, RepairQueue, note_bulk_import, is_ready}
use ement_e2ee.Admin.Params.{Answered, resolve_session}
use Answered.{ok, json_error}
use ement_e2ee.Admin.Keys.{
  KeyHost, KeySession, KeyAnswer, after_import, import_into, keys_import, bootstrap_with, bootstrap,
  for_session,
}
use KeyAnswer.{imported, bootstrapped}

module _ (J : Json) (K : KeyHost) where
  open K use {decrypt_room_key_export, import_room_keys, ssss_bootstrap}

  note_bulk_import-is_ready :
      (q : RepairQueue (Json.Value J)) (r : PendingRepair (Json.Value J))
      → is_empty (note_bulk_import q).pending ≡ false
      → is_ready (note_bulk_import q) r ≡ true
  unfolding note_bulk_import is_ready
  note_bulk_import-is_ready q r h = ground arith

  -- Every placeholder that the session still has is ready.
  pub AllReady : KeySession J K → Type 0
  AllReady s =
      (r : PendingRepair (Json.Value J))
      → is_empty s.context.repairs.pending ≡ false
      → is_ready s.context.repairs r ≡ true

  -- What an answer says of the session that it leaves.
  Woken : KeyAnswer J K → Type 0
  Woken (KeyAnswer.refused status) = Unit
  Woken KeyAnswer.bad_request = Unit
  Woken (KeyAnswer.internal s) = Unit
  Woken (KeyAnswer.answered_status status s) = Unit
  Woken (KeyAnswer.exported count blob s) = Unit
  Woken (KeyAnswer.imported count total s) = AllReady s
  Woken (KeyAnswer.bootstrapped report s) = AllReady s

  after_import-AllReady :
      (olm : KeyHost.Olm K) (s : KeySession J K) → AllReady (after_import J K olm s)
  unfolding after_import AllReady
  after_import-AllReady olm s r h = note_bulk_import-is_ready s.context.repairs r h

  for_session-Woken :
      (body : Json.Value J) (sessions : List (KeySession J K)) (f : KeySession J K → KeyAnswer J K)
      → ((s : KeySession J K) → Woken (f s))
      → Woken (for_session J K body sessions f)
  unfolding Woken
  for_session-Woken body sessions f h =
      elim (resolve_session (Json.get_str J (codes "user_id") body) sessions)
        as (λ a. Woken (elim a [ json_error status ↦ KeyAnswer.refused status | ok s ↦ f s ])) [
          | json_error status ↦ tt
          | ok s ↦ h s
        ]

  import_into-Woken :
      (passphrase blob : Text) (s : KeySession J K) → Woken (import_into J K passphrase blob s)
  unfolding import_into Woken
  import_into-Woken passphrase blob s =
      elim (Option-cases (decrypt_room_key_export blob passphrase)) [
        | inl e ↦ rw (Woken, import_into, e) tt
        | inr (keys, e) ↦ elim (Option-cases (import_room_keys keys s.context.olm).1) [
          | inl f ↦ rw (Woken, import_into, e, f) tt
          | inr (r, f) ↦
              rw (Woken, import_into, e, f)
                (after_import-AllReady (import_room_keys keys s.context.olm).0 s)
        ]
      ]

  bootstrap_with-Woken : (key : Text) (s : KeySession J K) → Woken (bootstrap_with J K key s)
  unfolding bootstrap_with Woken
  bootstrap_with-Woken key s = elim (Option-cases (ssss_bootstrap key s.context.olm).1) [
    | inl e ↦ rw (Woken, bootstrap_with, e) tt
    | inr (r, e) ↦
        rw (Woken, bootstrap_with, e) (after_import-AllReady (ssss_bootstrap key s.context.olm).0 s)
  ]

  keys_import-Woken :
      (sessions : List (KeySession J K)) (body : Json.Value J)
      → Woken (keys_import J K sessions body)
  unfolding keys_import Woken
  keys_import-Woken sessions body = elim (Option-cases (Json.get_str J (codes "passphrase") body)) [
    | inl e ↦ rw (Woken, keys_import, e) tt
    | inr (p, e) ↦ elim (Option-cases (Json.get_str J (codes "data") body)) [
      | inl f ↦ rw (Woken, keys_import, e, f) tt
      | inr (b, f) ↦
          rw (Woken, keys_import, e, f)
            (for_session-Woken body sessions (import_into J K p b) (import_into-Woken p b))
    ]
  ]

  bootstrap-Woken :
      (sessions : List (KeySession J K)) (body : Json.Value J) → Woken (bootstrap J K sessions body)
  unfolding bootstrap Woken
  bootstrap-Woken sessions body = elim (Option-cases (Json.get_str J (codes "recovery_key") body)) [
    | inl e ↦ rw (Woken, bootstrap, e) tt
    | inr (key, e) ↦
        rw (Woken, bootstrap, e)
          (for_session-Woken body sessions (bootstrap_with J K key) (bootstrap_with-Woken key))
  ]

  -- After room keys have been imported, every placeholder that the session still has is ready.
  pub keys_import-is_ready :
      (sessions : List (KeySession J K)) (body : Json.Value J) (count total : ℕ)
      (s : KeySession J K) (r : PendingRepair (Json.Value J))
      → keys_import J K sessions body ≡ imported count total s
      → is_empty s.context.repairs.pending ≡ false
      → is_ready s.context.repairs r ≡ true
  unfolding Woken AllReady
  keys_import-is_ready sessions body count total s r h =
      subst Woken h (keys_import-Woken sessions body) r

  -- After a bootstrap has succeeded, every placeholder that the session still has is ready.
  pub bootstrap-is_ready :
      (sessions : List (KeySession J K)) (body : Json.Value J) (report : KeyHost.Report K)
      (s : KeySession J K) (r : PendingRepair (Json.Value J))
      → bootstrap J K sessions body ≡ bootstrapped report s
      → is_empty s.context.repairs.pending ≡ false
      → is_ready s.context.repairs r ≡ true
  unfolding Woken AllReady
  bootstrap-is_ready sessions body report s r h = subst Woken h (bootstrap-Woken sessions body) r
