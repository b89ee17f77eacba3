-- ===== src/Session/Laws.antt =====
-- What the session manager of src/session.rs keeps true.
use ement_e2ee.Prelude.{
  ◌≡◌, refl, inl, inr, Bool, true, false, Option, none, some, List, Text, Text-discrete, eqb,
  Bool-cases, Option-cases, if◌then◌else◌,
}
use ement_e2ee.Prelude.Map
use ement_e2ee.Json.{Json}
use ement_e2ee.Session.Paths.{account_store_dir}
use ement_e2ee.Session.Manager.{
  Host, Result, AccountContext, SessionManager, refuse, start_session, continue_device,
  open_and_continue, new_device, insert_locked,
}

module _ (J : Json) (H : Host) (store_dir : List Text) where
  open H use {Olm, has_store, open_machine, open_media, identity_key}

  abbrev Manager : Type 0
  Manager = SessionManager J H store_dir

  abbrev Answered : Type 0
  Answered = Manager × Result (AccountContext J H store_dir)

  -- A session that is served is in the map under its token, and an error leaves the map and the
  -- spawned tasks as they are.
  unfoldable pub Served : Text → Manager → Answered → Type 0
  Served token m (after, Result.ok ctx) = Map.get Text-discrete token after.inner ≡ some ctx
  Served token m (after, Result.err e) = (after.inner ≡ m.inner) × (after.spawned ≡ m.spawned)

  start_session-Served :
      (token user_id device_id : Text) (olm : Olm) (again : Bool) (m : Manager)
      → Served token m (start_session J H store_dir token user_id device_id olm again m)
  unfolding start_session Served
  start_session-Served token user_id device_id olm again m =
      elim (Option-cases (open_media (account_store_dir store_dir user_id device_id) m.disk).1) [
        | inl failed ↦ rw (start_session, failed) (refl, refl)
        | inr (media, opened) ↦
            rw (start_session, opened) (Map.get-insert_same Text-discrete token _ m.inner)
      ]

  continue_device-Served :
      (token user_id device_id : Text) (olm : Olm) (published : Option (Option Text)) (m : Manager)
      → Served token m (continue_device J H store_dir token user_id device_id olm published m)
  unfolding continue_device refuse Served
  continue_device-Served token user_id device_id olm none m =
      start_session-Served token user_id device_id olm false m
  continue_device-Served token user_id device_id olm (some none) m =
      start_session-Served token user_id device_id olm true m
  continue_device-Served token user_id device_id olm (some (some key)) m =
      elim (Bool-cases (eqb key (identity_key olm))) [
        | inl same ↦ rw same (start_session-Served token user_id device_id olm false m)
        | inr differs ↦ rw differs (refl, refl)
      ]

  -- A disk that differs does not count.
  Served-disk :
      (token : Text) (m : Manager) (d : Host.Disk H) (r : Answered)
      → Served token (record m { disk = d }) r
      → Served token m r
  unfolding Served
  Served-disk token m d (after, Result.ok ctx) h = h
  Served-disk token m d (after, Result.err e) h = h

  open_and_continue-Served :
      (had_store : Bool) (token user_id device_id : Text) (published : Option (Option Text))
      (m : Manager)
      → Served token m
          (open_and_continue J H store_dir had_store token user_id device_id published m)
  unfolding open_and_continue Served
  open_and_continue-Served had_store token user_id device_id published m =
      let opened =
        open_machine (account_store_dir store_dir user_id device_id) user_id device_id m.disk in
      elim (Option-cases opened.1) [
        | inl failed ↦ rw (open_and_continue, failed) (refl, refl)
        | inr (olm, good) ↦
            rw (open_and_continue, good)
              (let n : Manager = record m { disk = opened.0 } in
                Served-disk token m opened.0
                  (if had_store
                    then continue_device J H store_dir token user_id device_id olm published n
                    else start_session J H store_dir token user_id device_id olm false n)
                  (choose had_store olm n))
      ]
    where
      choose :
          (had : Bool) (olm : Olm) (n : Manager)
          → Served token n (
              if had
              then continue_device J H store_dir token user_id device_id olm published n
              else start_session J H store_dir token user_id device_id olm false n)
      choose true olm n = continue_device-Served token user_id device_id olm published n
      choose false olm n = start_session-Served token user_id device_id olm false n

  new_device-Served :
      (token user_id device_id : Text) (published : Option (Option Text)) (m : Manager)
      → Served token m (new_device J H store_dir token user_id device_id published m)
  unfolding new_device refuse Served
  new_device-Served token user_id device_id none m = (refl, refl)
  new_device-Served token user_id device_id (some (some key)) m = (refl, refl)
  new_device-Served token user_id device_id (some none) m =
      open_and_continue-Served false token user_id device_id (some none) m

  -- Whatever the homeserver publishes for the device, a session that is served is in the map under
  -- its token; a session that is turned away leaves the map of the sessions as it is, and no task
  -- is spawned for it.
  pub insert_locked-Served :
      (token user_id device_id : Text) (published : Option (Option Text)) (m : Manager)
      → Served token m (insert_locked J H store_dir token user_id device_id published m)
  unfolding insert_locked Served
  insert_locked-Served token user_id device_id published m =
      elim (Option-cases (Map.get Text-discrete token m.inner)) [
        | inr (ctx, known) ↦ rw (insert_locked, known) known
        | inl new ↦
            elim (Bool-cases (has_store (account_store_dir store_dir user_id device_id) m.disk)) [
              | inl had ↦
                  rw (insert_locked, new, had)
                    (open_and_continue-Served true token user_id device_id published m)
              | inr had ↦
                  rw (insert_locked, new, had)
                    (new_device-Served token user_id device_id published m)
            ]
      ]
