-- ===== src/Diagnose/SessionLaws.antt =====
-- What it means that a session's checks (src/admin/diagnose.rs) all come out well.
use ement_e2ee.Prelude.{
  ℕ, ◌≡◌, ◌≤◌, ◌<◌, ◌⊎◌, inl, inr, refl, Bool, true, false, ◌==◌, Bool-cases, Option-cases, Option,
  none, some, Text, codes, arith, all, and_left, and_right, is_empty,
}
use ement_e2ee.Json
use ement_e2ee.Json.{Json}
use ement_e2ee.Http.{is_success}
use ement_e2ee.Diagnose.Checks.{Check, Status, is_fail}
use ement_e2ee.Diagnose.Keys.{
  Session, OwnDevice, check_token, token_check, check_device_keys, device_keys_check,
  check_one_time_keys, one_time_keys_check, key_count, is_text,
}
use ement_e2ee.Diagnose.Signing.{
  cross_signing_check, check_device_verified, own_device_check, has_stale_cross_signature,
}
use ement_e2ee.Diagnose.Session.{
  check_backup, backup_answer, backup_check, check_client_sync, check_placeholders, check_session,
}

abbrev pub is_ok : Status → Bool
is_ok Status.ok = true
is_ok _ = false

module _ (J : Json) where
  open J use {Value, as_str}

  abbrev Well : Check Value → Type 0
  Well c = is_ok c.status ≡ true

  device_keys-Well :
      (s : Session Value) → Well (check_device_keys J s) → s.published ≡ some (some s.identity_key)
  unfolding check_device_keys device_keys_check
  device_keys-Well s h = elim (Option-cases s.published) [
    | inl e ↦ absurd (ground arith)
    | inr (none, e) ↦ absurd (ground arith)
    | inr (some key, e) ↦ ground arith
  ]

  one_time_keys-Well :
      (s : Session Value)
      → Well (check_one_time_keys J s)
      → (status : ℕ) × (body : Value) × (s.keys_upload ≡ some (status, body))
        × (is_success status ≡ true)
        × (0 < key_count J body)
  unfolding check_one_time_keys one_time_keys_check
  one_time_keys-Well s h = elim (Option-cases s.keys_upload) [
    | inl e ↦ absurd (ground arith)
    | inr ((status, body), e) ↦ (status, body, e, ground arith, ground arith)
  ]

  cross_signing-Well :
      (m t u : Bool) → Well (cross_signing_check J m t u) → (m ≡ true) × (t ≡ true) × (u ≡ true)
  unfolding cross_signing_check
  cross_signing-Well true true true h = (refl, refl, refl)
  cross_signing-Well true true false h = absurd (ground arith)
  cross_signing-Well true false u h = absurd (ground arith)
  cross_signing-Well false true u h = absurd (ground arith)
  cross_signing-Well false false true h = absurd (ground arith)
  cross_signing-Well false false false h = absurd (ground arith)

  unverified :
      (store_dir : Text) (stale : Bool) → Well (own_device_check J store_dir false stale) → ⊥
  unfolding own_device_check
  unverified store_dir true h = ground arith
  unverified store_dir false h = ground arith

  own_device-Well :
      (s : Session Value) (d : OwnDevice Value)
      → s.own_device ≡ d
      → Well (check_device_verified J s)
      → (keys : Option Value) × (d ≡ OwnDevice.known true keys)
  unfolding check_device_verified own_device_check
  own_device-Well s (OwnDevice.known true keys) e h = (keys, refl)
  own_device-Well s (OwnDevice.known false keys) e h = absurd (
      unverified s.store_dir (has_stale_cross_signature J s.user_id s.self_signing_key false keys)
        (rw (check_device_verified, e) at h))
  own_device-Well s OwnDevice.not_listed e h = absurd (ground arith)
  own_device-Well s OwnDevice.store_error e h = absurd (ground arith)

  device_verified-Well :
      (s : Session Value)
      → Well (check_device_verified J s)
      → (keys : Option Value) × (s.own_device ≡ OwnDevice.known true keys)
  device_verified-Well s h = own_device-Well s s.own_device refl h

  -- The backup that the device uses, if it uses one, is the account's.
  abbrev pub Agree : Bool → Option Text → Option Text → Type 0
  Agree true (some local) (some server) = local ≡ server
  Agree false local none = Unit
  Agree _ _ _ = ⊥

  backup_check-Well :
      (counts : Option (ℕ × ℕ)) (enabled : Bool) (local server : Option Text)
      → Well (backup_check J counts enabled local server)
      → Agree enabled local server
  unfolding backup_check
  backup_check-Well counts true (some local) (some server) h = ground arith
  backup_check-Well counts true none (some server) h = absurd (ground arith)
  backup_check-Well counts true (some local) none h = absurd (ground arith)
  backup_check-Well counts true none none h = absurd (ground arith)
  backup_check-Well counts false local (some server) h = absurd (ground arith)
  backup_check-Well counts false local none h = tt

  -- The account's backup version, as the homeserver says it.
  abbrev pub Answered : Option (ℕ × Value) → Option Text → Type 0
  Answered answer server =
      (status : ℕ) × (body : Value) × (answer ≡ some (status, body))
      × (((is_success status ≡ true) × (server ≡ as_str (Json.index J (codes "version") body)))
          ⊎ ((status ≡ 404) × (server ≡ none)))

  backup-Well :
      (s : Session Value)
      → Well (check_backup J s)
      → (server : Option Text) × Answered s.backup_version server
        × Agree s.backup.enabled s.backup.local_version server
  unfolding check_backup backup_answer
  backup-Well s h = elim (Option-cases s.backup_version) [
    | inl e ↦ absurd (ground arith)
    | inr ((status, body), e) ↦ elim (Bool-cases (is_success status)) [
      | inl f ↦
          let server = as_str (Json.index J (codes "version") body) in
          (
            server,
            (status, body, e, inl (f, refl)),
            backup_check-Well s.backup.counts s.backup.enabled s.backup.local_version server
                (rw (check_backup, e, f) at h),
          )
      | inr f ↦ elim (Bool-cases (status == 404)) [
        | inl g ↦ (
          none,
          (status, body, e, inr (ground arith, refl)),
          backup_check-Well s.backup.counts s.backup.enabled s.backup.local_version none
              (rw (check_backup, e, f, g) at h),
        )
        | inr g ↦ absurd (ground arith)
      ]
    ]
  ]

  client_sync-Well :
      (s : Session Value)
      → Well (check_client_sync J s)
      → (age : ℕ) × (s.sync_age ≡ some age) × (age ≤ 120)
  unfolding check_client_sync
  client_sync-Well s h = elim (Option-cases s.sync_age) [
    | inl e ↦ absurd (ground arith)
    | inr (age, e) ↦ (age, e, ground arith)
  ]

  placeholders-Well :
      (s : Session Value) → Well (check_placeholders J s) → is_empty s.pending ≡ true
  unfolding check_placeholders
  placeholders-Well s h = elim (Bool-cases (is_empty s.pending)) [
    | inl e ↦ e
    | inr e ↦ absurd (ground arith)
  ]

  token-Well :
      (s : Session Value)
      → Well (check_token J s)
      → (status : ℕ) × (body : Value) × (s.whoami ≡ some (status, body))
        × (is_success status ≡ true)
        × (is_text J (Json.index J (codes "device_id") body) s.device_id ≡ true)
  unfolding check_token token_check
  token-Well s h = elim (Option-cases s.whoami) [
    | inl e ↦ absurd (ground arith)
    | inr ((status, body), e) ↦ (status, body, e, ground arith, ground arith)
  ]

  -- What a session is that has nothing wrong.
  pub record Healthy (s : Session Value) : Type 0 where
    pub token :
        (status : ℕ) × (body : Value) × (s.whoami ≡ some (status, body))
        × (is_success status ≡ true)
        × (is_text J (Json.index J (codes "device_id") body) s.device_id ≡ true)
    pub published : s.published ≡ some (some s.identity_key)
    pub one_time_keys :
        (status : ℕ) × (body : Value) × (s.keys_upload ≡ some (status, body))
        × (is_success status ≡ true)
        × (0 < key_count J body)
    pub cross_signing :
        (s.cross_signing.has_master ≡ true)
        × (s.cross_signing.has_self_signing ≡ true)
        × (s.cross_signing.has_user_signing ≡ true)
    pub verified : (keys : Option Value) × (s.own_device ≡ OwnDevice.known true keys)
    pub backup :
        (server : Option Text) × Answered s.backup_version server
        × Agree s.backup.enabled s.backup.local_version server
    pub client_sync : (age : ℕ) × (s.sync_age ≡ some age) × (age ≤ 120)
    pub placeholders : is_empty s.pending ≡ true

  -- A session whose checks are all in order has a token that is its device's, publishes the key that
  -- it holds, has one-time keys left, all cross-signing keys, and a cross-signed device, uses the
  -- account's backup if there is one, was synced in the last two minutes, and waits for no key.
  pub check_session-Healthy :
      (s : Session Value) → all (λ c. is_ok c.status) (check_session J s) ≡ true → Healthy s
  unfolding check_session
  check_session-Healthy s h = elim (Bool-cases (is_fail (check_token J s).status)) [
    | inl e ↦ absurd (ground arith)
    | inr e ↦
        let h0 = rw (check_session, e) at h in
        let h1 = and_right _ _ h0 in
        let h2 = and_right _ _ h1 in
        let h3 = and_right _ _ h2 in
        let h4 = and_right _ _ h3 in
        let h5 = and_right _ _ h4 in
        let h6 = and_right _ _ h5 in
        let h7 = and_right _ _ h6 in
        record {
          token = token-Well s (and_left _ _ h0);
          published = device_keys-Well s (and_left _ _ h1);
          one_time_keys = one_time_keys-Well s (and_left _ _ h2);
          cross_signing =
              cross_signing-Well s.cross_signing.has_master s.cross_signing.has_self_signing
                s.cross_signing.has_user_signing (and_left _ _ h3);
          verified = device_verified-Well s (and_left _ _ h4);
          backup = backup-Well s (and_left _ _ h5);
          client_sync = client_sync-Well s (and_left _ _ h6);
          placeholders = placeholders-Well s (and_left _ _ h7);
        }
  ]
