-- ===== src/Login/Chosen.antt =====
-- Which device a login continues, in src/crypto/device.rs.
use ement_e2ee.Prelude.{
  ℕ, ◌≡◌, refl, sym, ap, ◌∙◌, ◌⊎◌, inl, inr, true, false, Option, none, some, List, [], ◌∷◌, arith,
  Text, codes, eqb, unwrap_or, ltb, Bool-cases, Option-cases,
}
use ement_e2ee.Json
use ement_e2ee.Json.{Json}
use ement_e2ee.Session.Paths.{sanitize_for_path}
use ement_e2ee.Login.Stores.{
  LoginRecord, DeviceDir, UserDir, names_user, newer, consider, newest_of, device_of, search_users,
  device_id_for_login,
}
use ement_e2ee.Login.Plan.{login_user, plan_device, plan_login}

-- A directory with a store whose login record says: this device, for that request.
abbrev IsDevice : Text → Text → DeviceDir → Type 0
IsDevice requested id dir =
    (dir.has_store ≡ true)
    × (login : LoginRecord) × (dir.login ≡ some login)
    × (login.device_id ≡ id)
    × (login.requested_device_id ≡ requested)

abbrev AnyDevice : Text → Text → List DeviceDir → Type 0
AnyDevice requested id [] = ⊥
AnyDevice requested id (dir ∷ dirs) = IsDevice requested id dir ⊎ AnyDevice requested id dirs

-- In one of the user's directories there is a store under the requested ID, which is the device's,
-- or a store whose login record names the device for the request.
abbrev pub Continues : Text → Text → Text → List UserDir → Type 0
Continues user requested id [] = ⊥
Continues user requested id (dir ∷ dirs) =
    ((names_user dir user ≡ true)
      × (((dir.store_at (sanitize_for_path requested) ≡ true) × (id ≡ requested))
          ⊎ AnyDevice requested id dir.devices))
    ⊎ Continues user requested id dirs

newer-cases :
    (used : ℕ) (device id : Text) (newest : Option (ℕ × Text))
    → device_of (newer used device newest) ≡ some id
    → (device ≡ id) ⊎ (device_of newest ≡ some id)
unfolding newer
newer-cases used device id none h = inl (ground (arith, h))
newer-cases used device id (some (latest, other)) h = elim (Bool-cases (ltb latest used)) [
  | inl later ↦ inl (ground (arith, h, later))
  | inr earlier ↦ inr (ground (arith, h, earlier))
]

consider-cases :
    (requested id : Text) (dir : DeviceDir) (newest : Option (ℕ × Text))
    → device_of (consider requested dir newest) ≡ some id
    → IsDevice requested id dir ⊎ (device_of newest ≡ some id)
unfolding consider
consider-cases requested id dir newest h = elim (Bool-cases dir.has_store) [
  | inr no_store ↦ inr (ground (arith, h, no_store))
  | inl store ↦ elim (Option-cases dir.login) [
    | inl unread ↦ inr (ground (arith, h, store, unread))
    | inr (login, read) ↦ elim (Bool-cases (eqb login.requested_device_id requested)) [
      | inr another ↦ inr (ground (arith, h, store, read, another))
      | inl same ↦
          let taken : device_of (newer dir.used login.device_id newest) ≡ some id =
            sym (ap device_of (opened login store read same)) ∙ h in
          elim (newer-cases dir.used login.device_id id newest taken) [
            | inl this ↦ inl (store, login, read, this, ground (arith, same))
            | inr older ↦ inr older
          ]
    ]
  ]
]
  where
    opened :
        (login : LoginRecord)
        → dir.has_store ≡ true
        → dir.login ≡ some login
        → eqb login.requested_device_id requested ≡ true
        → consider requested dir newest ≡ newer dir.used login.device_id newest
    opened login store read same = ground (arith, store, read, same)

newest_of-cases :
    (requested id : Text) (dirs : List DeviceDir) (newest : Option (ℕ × Text))
    → device_of (newest_of requested dirs newest) ≡ some id
    → AnyDevice requested id dirs ⊎ (device_of newest ≡ some id)
unfolding newest_of
newest_of-cases requested id [] newest h = inr h
newest_of-cases requested id (dir ∷ dirs) newest h =
    elim (newest_of-cases requested id dirs (consider requested dir newest) h) [
      | inl later ↦ inl (inr later)
      | inr considered ↦ elim (consider-cases requested id dir newest considered) [
        | inl here ↦ inl (inl here)
        | inr older ↦ inr older
      ]
    ]

search_users-cases :
    (user requested id : Text) (dirs : List UserDir) (newest : Option (ℕ × Text))
    → search_users user requested dirs newest ≡ some id
    → Continues user requested id dirs ⊎ (device_of newest ≡ some id)
unfolding search_users
search_users-cases user requested id [] newest h = inr h
search_users-cases user requested id (dir ∷ dirs) newest h =
    elim (Bool-cases (names_user dir user)) [
      | inr another ↦ elim (search_users-cases user requested id dirs newest (skipped another)) [
        | inl later ↦ inl (inr later)
        | inr older ↦ inr older
      ]
      | inl named ↦ elim (Bool-cases (dir.store_at (sanitize_for_path requested))) [
        | inl store ↦ inl (inl (named, inl (store, chosen named store)))
        | inr no_store ↦
            elim (search_users-cases user requested id dirs (newest_of requested dir.devices newest)
              (looked named no_store)) [
                | inl later ↦ inl (inr later)
                | inr found ↦ elim (newest_of-cases requested id dir.devices newest found) [
                  | inl device ↦ inl (inl (named, inr device))
                  | inr older ↦ inr older
                ]
              ]
      ]
    ]
  where
    skipped : names_user dir user ≡ false → search_users user requested dirs newest ≡ some id
    skipped another = ground (arith, h, another)

    chosen :
        names_user dir user ≡ true
        → dir.store_at (sanitize_for_path requested) ≡ true
        → id ≡ requested
    chosen named store = ground (arith, h, named, store)

    looked :
        names_user dir user ≡ true
        → dir.store_at (sanitize_for_path requested) ≡ false
        → search_users user requested dirs (newest_of requested dir.devices newest) ≡ some id
    looked named no_store = ground (arith, h, named, no_store)

-- A login is made to continue a device only if a directory of its user has a store for it: under
-- the requested ID, which is then the device's, or with a login record that names the device for
-- exactly the requested ID.
pub device_id_for_login_sound :
    (dirs : List UserDir) (user requested id : Text)
    → device_id_for_login dirs user requested ≡ some id
    → Continues user requested id dirs
unfolding device_id_for_login
device_id_for_login_sound dirs user requested id h =
    elim (search_users-cases user requested id dirs none h) [
      | inl found ↦ found
      | inr impossible ↦ absurd (ground arith)
    ]

module _ (J : Json) where
  open J use {Value, string, as_str}

  get_str-get :
      (k : Text) (v : Value) (s : Text)
      → Json.get_str J k v ≡ some s
      → (u : Value) × (Json.get J k v ≡ some u)
  unfolding Json.get_str
  get_str-get k v s h = elim (Option-cases (Json.get J k v)) [
    | inl absent ↦ absurd (ground (arith, h, absent))
    | inr found ↦ found
  ]

  plan_device_lem :
      (requested : Text) (login : Value) (device : Option Text)
      → Json.get_str J (codes "device_id") login ≡ some requested
      → Json.get_str J
          (codes "device_id")
          (unwrap_or (plan_device J requested login device).body login)
        ≡ device
  unfolding plan_device
  plan_device_lem requested login none h =
      unfold Json.get_str in rw (Json.get-remove J (codes "device_id") login) refl
  plan_device_lem requested login (some id) h = elim (Bool-cases (eqb id requested)) [
    | inl same ↦ rw same (h ∙ ground (arith, same))
    | inr differs ↦
        let (u, given) = get_str-get (codes "device_id") login requested h in
        rw differs (
          unfold Json.get_str in
          (rw (Json.get-set J (codes "device_id") (string id) login u given) (J.as_str-string id)))
  ]

  -- The device ID in the body of a login that goes to the homeserver, where the client names a
  -- device and a user, is that of the device which the login continues; where there is none, the
  -- body names no device, and the homeserver picks a new one.
  pub plan_login-device :
      (dirs : List UserDir) (login : Value) (user requested : Text)
      → Json.get_str J (codes "device_id") login ≡ some requested
      → login_user J login ≡ some user
      → Json.get_str J (codes "device_id") (unwrap_or (plan_login J dirs (some login)).body login)
        ≡ device_id_for_login dirs user requested
  unfolding plan_login
  plan_login-device dirs login user requested named who =
      rw (plan_login, named, who)
        (plan_device_lem requested login (device_id_for_login dirs user requested) named)
