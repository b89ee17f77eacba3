-- ===== src/Session/Refusals.antt =====
-- The refusals that src/session.rs keeps for the diagnosis.
use ement_e2ee.Prelude.{
  ◌≡◌, refl, sym, subst, ◌∙◌, inl, inr, Bool, true, false, not, Option, none, some, List, [], ◌∷◌,
  ◌++◌, arith, Text, Text-discrete, eqb, retain, Bool-cases, Option-cases,
}
use ement_e2ee.Prelude.Map
use ement_e2ee.Json.{Json}
use ement_e2ee.Session.Paths.{account_store_dir}
use ement_e2ee.Session.Device.{DeviceConflict}
use ement_e2ee.Session.Manager.{
  Host, SessionManager, refuse, start_session, continue_device, open_and_continue, new_device,
  insert_locked, same_device,
}

-- No two refusals are of one device.
abbrev pub OnePerDevice : List DeviceConflict → Type 0
OnePerDevice [] = Unit
OnePerDevice (c ∷ cs) = (retain (same_device c) cs ≡ []) × OnePerDevice cs

retain-retain_none :
    (p q : DeviceConflict → Bool) (xs : List DeviceConflict)
    → retain p xs ≡ []
    → retain p (retain q xs) ≡ []
retain-retain_none p q [] h = refl
retain-retain_none p q (x ∷ xs) h = elim (Bool-cases (p x)) [
  | inl yes_p ↦ absurd (ground (arith, h, yes_p))
  | inr no_p ↦
      let rest = retain-retain_none p q xs (ground (arith, h, no_p)) in ground (arith, rest, no_p)
]

retain_kept :
    (q : DeviceConflict → Bool) (x : DeviceConflict) (xs : List DeviceConflict)
    → q x ≡ true
    → retain q (x ∷ xs) ≡ x ∷ retain q xs
retain_kept q x xs kept = ground (arith, kept)

retain_gone :
    (q : DeviceConflict → Bool) (x : DeviceConflict) (xs : List DeviceConflict)
    → q x ≡ false
    → retain q (x ∷ xs) ≡ retain q xs
retain_gone q x xs gone = ground (arith, gone)

retain_none-parts :
    (p : DeviceConflict → Bool) (x : DeviceConflict) (xs : List DeviceConflict)
    → retain p (x ∷ xs) ≡ []
    → (p x ≡ false) × (retain p xs ≡ [])
retain_none-parts p x xs h = elim (Bool-cases (p x)) [
  | inl kept ↦ absurd (ground (arith, h, kept))
  | inr gone ↦ (gone, ground (arith, h, gone))
]

retain_none-append :
    (p : DeviceConflict → Bool) (c : DeviceConflict) (xs : List DeviceConflict)
    → retain p xs ≡ []
    → p c ≡ false
    → retain p (xs ++ c ∷ []) ≡ []
retain_none-append p c [] h other = rw other refl
retain_none-append p c (x ∷ xs) h other =
    let (gone, rest) = retain_none-parts p x xs h in
    retain_gone p x (xs ++ c ∷ []) gone ∙ retain_none-append p c xs rest other

retain-OnePerDevice :
    (q : DeviceConflict → Bool) (xs : List DeviceConflict)
    → OnePerDevice xs
    → OnePerDevice (retain q xs)
retain-OnePerDevice q [] h = tt
retain-OnePerDevice q (x ∷ xs) (alone, h) = elim (Bool-cases (q x)) [
  | inl kept ↦
      subst OnePerDevice (sym (retain_kept q x xs kept))
        (retain-retain_none (same_device x) q xs alone, retain-OnePerDevice q xs h)
  | inr gone ↦ subst OnePerDevice (sym (retain_gone q x xs gone)) (retain-OnePerDevice q xs h)
]

retain_others :
    (p : DeviceConflict → Bool) (xs : List DeviceConflict)
    → retain p (retain (λ x. not (p x)) xs) ≡ []
retain_others p [] = refl
retain_others p (x ∷ xs) = ground (arith, retain_others p xs)

same_device-sym : (c d : DeviceConflict) → same_device c d ≡ false → same_device d c ≡ false
same_device-sym c d h = ground (arith, h)

append-OnePerDevice :
    (c : DeviceConflict) (xs : List DeviceConflict)
    → retain (same_device c) xs ≡ []
    → OnePerDevice xs
    → OnePerDevice (xs ++ c ∷ [])
append-OnePerDevice c [] absent h = (refl, tt)
append-OnePerDevice c (x ∷ xs) absent (alone, h) =
    let (differs, rest) = retain_none-parts (same_device c) x xs absent in
    (
      retain_none-append (same_device x) c xs alone (same_device-sym c x differs),
      append-OnePerDevice c xs rest h,
    )

module _ (J : Json) (H : Host) (store_dir : List Text) where
  open H use {Olm, has_store, open_machine, open_media, identity_key}

  abbrev Manager : Type 0
  Manager = SessionManager J H store_dir

  refuse-OnePerDevice :
      (c : DeviceConflict) (m : Manager)
      → OnePerDevice m.refused
      → OnePerDevice (refuse J H store_dir c m).0.refused
  unfolding refuse
  refuse-OnePerDevice c m h =
      append-OnePerDevice c (retain (λ other. not (same_device c other)) m.refused)
        (retain_others (same_device c) m.refused)
        (retain-OnePerDevice (λ other. not (same_device c other)) m.refused h)

  start_session-OnePerDevice :
      (token user_id device_id : Text) (olm : Olm) (again : Bool) (m : Manager)
      → OnePerDevice m.refused
      → OnePerDevice (start_session J H store_dir token user_id device_id olm again m).0.refused
  unfolding start_session
  start_session-OnePerDevice token user_id device_id olm again m h =
      elim (Option-cases (open_media (account_store_dir store_dir user_id device_id) m.disk).1) [
        | inl failed ↦ rw (start_session, failed) h
        | inr (media, opened) ↦
            rw (start_session, opened)
              (retain-OnePerDevice (λ c. not (eqb c.user_id user_id)) m.refused h)
      ]

  continue_device-OnePerDevice :
      (token user_id device_id : Text) (olm : Olm) (published : Option (Option Text)) (m : Manager)
      → OnePerDevice m.refused
      → OnePerDevice
          (continue_device J H store_dir token user_id device_id olm published m).0.refused
  unfolding continue_device
  continue_device-OnePerDevice token user_id device_id olm none m h =
      start_session-OnePerDevice token user_id device_id olm false m h
  continue_device-OnePerDevice token user_id device_id olm (some none) m h =
      start_session-OnePerDevice token user_id device_id olm true m h
  continue_device-OnePerDevice token user_id device_id olm (some (some key)) m h =
      elim (Bool-cases (eqb key (identity_key olm))) [
        | inl same ↦ rw same (start_session-OnePerDevice token user_id device_id olm false m h)
        | inr differs ↦ rw differs (refuse-OnePerDevice _ m h)
      ]

  open_and_continue-OnePerDevice :
      (had : Bool) (token user_id device_id : Text) (published : Option (Option Text)) (m : Manager)
      → OnePerDevice m.refused
      → OnePerDevice
          (open_and_continue J H store_dir had token user_id device_id published m).0.refused
  unfolding open_and_continue
  open_and_continue-OnePerDevice had token user_id device_id published m h =
      let opened =
        open_machine (account_store_dir store_dir user_id device_id) user_id device_id m.disk in
      elim (Option-cases opened.1) [
        | inl failed ↦ rw (open_and_continue, failed) h
        | inr (olm, good) ↦
            rw (open_and_continue, good)
              (elim (Bool-cases had) [
                | inl store ↦ rw store (
                    continue_device-OnePerDevice token user_id device_id olm published
                      (record m { disk = opened.0 }) h)
                | inr new ↦ rw new (
                    start_session-OnePerDevice token user_id device_id olm false
                      (record m { disk = opened.0 }) h)
              ])
      ]

  new_device-OnePerDevice :
      (token user_id device_id : Text) (published : Option (Option Text)) (m : Manager)
      → OnePerDevice m.refused
      → OnePerDevice (new_device J H store_dir token user_id device_id published m).0.refused
  unfolding new_device
  new_device-OnePerDevice token user_id device_id none m h = h
  new_device-OnePerDevice token user_id device_id (some (some key)) m h = refuse-OnePerDevice _ m h
  new_device-OnePerDevice token user_id device_id (some none) m h =
      open_and_continue-OnePerDevice false token user_id device_id (some none) m h

  -- Whatever becomes of a session, the list of the sessions turned away holds at most one refusal
  -- for each device of each user, if it did before.
  pub insert_locked-OnePerDevice :
      (token user_id device_id : Text) (published : Option (Option Text)) (m : Manager)
      → OnePerDevice m.refused
      → OnePerDevice (insert_locked J H store_dir token user_id device_id published m).0.refused
  unfolding insert_locked
  insert_locked-OnePerDevice token user_id device_id published m h =
      elim (Option-cases (Map.get Text-discrete token m.inner)) [
        | inr (ctx, known) ↦ rw (insert_locked, known) h
        | inl new ↦
            elim (Bool-cases (has_store (account_store_dir store_dir user_id device_id) m.disk)) [
              | inl had ↦
                  rw (insert_locked, new, had)
                    (open_and_continue-OnePerDevice true token user_id device_id published m h)
              | inr had ↦
                  rw (insert_locked, new, had)
                    (new_device-OnePerDevice token user_id device_id published m h)
            ]
      ]
