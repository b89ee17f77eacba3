-- ===== src/Session/Keys.antt =====
-- One device ID, one set of identity keys: what src/session.rs does about the keys that the
-- homeserver publishes for a device.
use ement_e2ee.Prelude.{
  ◌≡◌, ◌≢◌, refl, inl, inr, Bool, true, false, Option, none, some, List, arith, Text, Text-discrete,
  eqb, Bool-cases, Option-cases,
}
use ement_e2ee.Prelude.Map
use ement_e2ee.Json.{Json}
use ement_e2ee.Session.Paths.{account_store_dir}
use ement_e2ee.Session.Manager.{
  Host, Result, AccountContext, SessionManager, refuse, start_session, continue_device,
  open_and_continue, new_device, insert_locked, new_context,
}

module _ (J : Json) (H : Host) (store_dir : List Text) where
  open H use {Olm, has_store, open_machine, open_media, identity_key}

  abbrev Manager : Type 0
  Manager = SessionManager J H store_dir

  abbrev Answered : Type 0
  Answered = Manager × Result (AccountContext J H store_dir)

  -- Turned away, with the disk untouched.
  abbrev pub TurnedAway : Manager → Answered → Type 0
  TurnedAway m (after, Result.ok ctx) = ⊥
  TurnedAway m (after, Result.err e) = (after.disk ≡ m.disk) × (after.inner ≡ m.inner)

  -- For a token without a session, a device without a store here is turned away, with nothing
  -- written to the disk and no session added, unless the homeserver says that it has no keys for
  -- the device: no new identity keys are made for a device that has some, nor for one of which
  -- that is not known.
  pub no_new_keys :
      (token user_id device_id : Text) (published : Option (Option Text)) (m : Manager)
      → Map.get Text-discrete token m.inner ≡ none
      → has_store (account_store_dir store_dir user_id device_id) m.disk ≡ false
      → published ≢ some none
      → TurnedAway m (insert_locked J H store_dir token user_id device_id published m)
  unfolding insert_locked new_device refuse
  no_new_keys token user_id device_id none m new had unknown =
      rw (insert_locked, new, had) (refl, refl)
  no_new_keys token user_id device_id (some (some key)) m new had unknown =
      rw (insert_locked, new, had) (refl, refl)
  no_new_keys token user_id device_id (some none) m new had unknown = absurd (unknown refl)

  -- A session that is served has this identity key.
  abbrev pub HasKey : Text → Answered → Type 0
  HasKey key (after, Result.ok ctx) = key ≡ identity_key ctx.olm
  HasKey key (after, Result.err e) = Unit

  start_session-HasKey :
      (key token user_id device_id : Text) (olm : Olm) (again : Bool) (m : Manager)
      → key ≡ identity_key olm
      → HasKey key (start_session J H store_dir token user_id device_id olm again m)
  unfolding start_session new_context
  start_session-HasKey key token user_id device_id olm again m same =
      elim (Option-cases (open_media (account_store_dir store_dir user_id device_id) m.disk).1) [
        | inl failed ↦ rw (start_session, failed) tt
        | inr (media, opened) ↦ rw (start_session, opened) same
      ]

  continue_device-HasKey :
      (key token user_id device_id : Text) (olm : Olm) (m : Manager)
      → HasKey key (continue_device J H store_dir token user_id device_id olm (some (some key)) m)
  unfolding continue_device refuse
  continue_device-HasKey key token user_id device_id olm m =
      elim (Bool-cases (eqb key (identity_key olm))) [
        | inl same ↦
            rw same
              (start_session-HasKey key token user_id device_id olm false m (ground (arith, same)))
        | inr differs ↦ rw differs tt
      ]

  open_and_continue-HasKey :
      (key token user_id device_id : Text) (m : Manager)
      → HasKey key
          (open_and_continue J H store_dir true token user_id device_id (some (some key)) m)
  unfolding open_and_continue
  open_and_continue-HasKey key token user_id device_id m =
      let opened =
        open_machine (account_store_dir store_dir user_id device_id) user_id device_id m.disk in
      elim (Option-cases opened.1) [
        | inl failed ↦ rw (open_and_continue, failed) tt
        | inr (olm, good) ↦
            rw (open_and_continue, good)
              (continue_device-HasKey key token user_id device_id olm
                (record m { disk = opened.0 }))
      ]

  -- Where the homeserver publishes an identity key for a device, a new session that is served for
  -- it has exactly that key, wherever its store comes from.
  pub served_has_published_key :
      (key token user_id device_id : Text) (m : Manager)
      → Map.get Text-discrete token m.inner ≡ none
      → HasKey key (insert_locked J H store_dir token user_id device_id (some (some key)) m)
  unfolding insert_locked new_device refuse
  served_has_published_key key token user_id device_id m new =
      elim (Bool-cases (has_store (account_store_dir store_dir user_id device_id) m.disk)) [
        | inl had ↦
            rw (insert_locked, new, had) (open_and_continue-HasKey key token user_id device_id m)
        | inr had ↦ rw (insert_locked, new, had) tt
      ]
