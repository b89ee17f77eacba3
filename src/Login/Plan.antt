-- ===== src/Login/Plan.antt =====
-- `plan_login` of src/crypto/device.rs, on the body as JSON, if it is. A planned body is the value
-- that is serialised.
use ement_e2ee.Prelude.{
  Option, none, some, List, [], ◌∷◌, Text, codes, eqb, if◌then◌else◌, or_else, ◌>>=?◌,
}
use ement_e2ee.Json
use ement_e2ee.Json.{Json}
use ement_e2ee.Login.Stores.{UserDir, device_id_for_login}

module _ (J : Json) where
  open J use {Value, string, as_str}

  pub record LoginPlan : Type 0 where
    pub body : Option Value
    pub requested : Option Text

  abbrev pub default : LoginPlan
  default = record { body = none; requested = none }

  -- Who the client says it is.
  unfoldable pub login_user : Value → Option Text
  login_user login =
      or_else (Json.pointer J (codes "identifier" ∷ codes "user" ∷ []) login)
        (Json.get J (codes "user") login)
      >>=? as_str

  unfoldable pub plan_device : Text → Value → Option Text → LoginPlan
  plan_device requested login none = record {
    body = some (Json.remove J (codes "device_id") login);
    requested = some requested;
  }
  plan_device requested login (some device_id) =
      if eqb device_id requested
      then record { body = none; requested = some requested }
      else record {
        body = some (Json.set J (codes "device_id") (string device_id) login);
        requested = some requested;
      }

  unfoldable pub plan_login : List UserDir → Option Value → LoginPlan
  unfolding login_user plan_device
  plan_login dirs none = default
  plan_login dirs (some login) = elim (Json.get_str J (codes "device_id") login) [
    | none ↦ default
    | some requested ↦ elim (login_user login) [
      | none ↦ default
      | some user ↦ plan_device requested login (device_id_for_login dirs user requested)
    ]
  ]
