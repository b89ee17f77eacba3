-- ===== src/Login/Sent.antt =====
-- `handle_login` and `note_device` of src/proxy/login.rs. The homeserver's answer to a login is a
-- status and its body as JSON, if it is; the content type is left out.
use ement_e2ee.Prelude.{
  ℕ, ◌≡◌, refl, inl, inr, false, Option, none, some, List, Text, codes, eqb, if◌then◌else◌, arith,
  Bool-cases, ◌>>=?◌,
}
use ement_e2ee.Json
use ement_e2ee.Json.{Json}
use ement_e2ee.Http.{Homeserver, is_success}
use ement_e2ee.Proxy.Error.{ProxyError}
use ement_e2ee.Session.Paths.{account_store_dir}
use ement_e2ee.Session.Manager.{Host, SessionManager, insert_from_login}
use ement_e2ee.Login.Stores.{UserDir, LoginRecord}
use ement_e2ee.Login.Plan.{plan_login}

-- A login record and the directory that it is written to.
abbrev pub Noted : Type 0
Noted = Option (List Text × LoginRecord)

-- The answer to the client: an error, or the homeserver's, with the record that was noted.
pub data LoginAnswer : Type 0 where
  failed : ProxyError → LoginAnswer
  answered : ℕ → Noted → LoginAnswer

-- The client's body could not be read, or was, and is JSON or not.
pub data LoginBody (V : Type 0) : Type 0 where
  unreadable : LoginBody V
  bytes : Text → Option V → LoginBody V

-- The body that goes to the homeserver: the client's own bytes, or a planned one.
pub data Upstream (V : Type 0) : Type 0 where
  own : Text → Upstream V
  planned : V → Upstream V

module _ (J : Json) (H : Host) (store_dir : List Text) (ask : Homeserver (Json.Value J))
    (login : Upstream (Json.Value J) → Option (ℕ × Option (Json.Value J))) where
  open J use {Value, as_str}
  open H use {parse_user}

  abbrev pub Manager : Type 0
  Manager = SessionManager J H store_dir

  unfoldable pub note_ids : Option Text → Option Text → Text → Noted
  note_ids none device requested = none
  note_ids (some user_id) none requested = none
  note_ids (some user_id) (some device_id) requested =
      if eqb device_id requested
      then none
      else some (
        account_store_dir store_dir user_id device_id,
        record { device_id = device_id; requested_device_id = requested },
      )

  unfoldable pub note_device : Value → Text → Noted
  unfolding note_ids
  note_device response requested =
      note_ids (as_str (Json.index J (codes "user_id") response) >>=? parse_user)
        (as_str (Json.index J (codes "device_id") response)) requested

  unfoldable pub note_planned : Value → Option Text → Noted
  unfolding note_device
  note_planned response none = none
  note_planned response (some requested) = note_device response requested

  -- After an answer of success: note the device, and make the session, whose failure is only logged.
  unfoldable pub logged_in : ℕ → Option Value → Option Text → Manager → Manager × LoginAnswer
  unfolding note_planned
  logged_in status none requested m = (m, answered status none)
  logged_in status (some response) requested m = (
    (insert_from_login J H store_dir ask response m).0,
    answered status (note_planned response requested),
  )

  unfoldable pub upstream_body : Text → Option Value → Upstream Value
  upstream_body body none = own body
  upstream_body body (some plan) = planned plan

  unfoldable pub conclude_login :
      Option (ℕ × Option Value) → Option Text → Manager → Manager × LoginAnswer
  unfolding logged_in
  conclude_login none requested m = (m, failed ProxyError.upstream)
  conclude_login (some (status, response)) requested m =
      if is_success status then logged_in status response requested m else (m, answered status none)

  unfoldable pub handle_login : List UserDir → LoginBody Value → Manager → Manager × LoginAnswer
  unfolding upstream_body conclude_login
  handle_login dirs unreadable m = (m, failed ProxyError.bad_request)
  handle_login dirs (bytes body json) m =
      let plan = plan_login J dirs json in
      conclude_login (login (upstream_body body plan.body)) plan.requested m

  -- The answer that a homeserver's answer comes to, whatever is noted.
  abbrev pub Relayed : Option (ℕ × Option Value) → Manager → Manager × LoginAnswer → Type 0
  Relayed none m (after, answer) = (after ≡ m) × (answer ≡ failed ProxyError.upstream)
  Relayed (some (status, response)) m (after, failed e) = ⊥
  Relayed (some (status, response)) m (after, answered s noted) =
      (s ≡ status) × (is_success status ≡ false → (after ≡ m) × (noted ≡ none))

  conclude_login-Relayed :
      (answer : Option (ℕ × Option Value)) (requested : Option Text) (m : Manager)
      → Relayed answer m (conclude_login answer requested m)
  unfolding conclude_login logged_in
  conclude_login-Relayed none requested m = (refl, refl)
  conclude_login-Relayed (some (status, none)) requested m = elim (Bool-cases (is_success status)) [
    | inl good ↦ rw good (refl, λ e. (refl, refl))
    | inr bad ↦ rw bad (refl, λ e. (refl, refl))
  ]
  conclude_login-Relayed (some (status, some response)) requested m =
      elim (Bool-cases (is_success status)) [
        | inl good ↦ rw good (refl, λ e. absurd (ground (arith, good, e)))
        | inr bad ↦ rw bad (refl, λ e. (refl, refl))
      ]

  -- A login that the client sends is answered with the status that the homeserver gives to the body
  -- as planned, whatever becomes of the session, and with an error where the request fails; after a
  -- status that is no success the sessions are as before, and no device is noted.
  pub handle_login-Relayed :
      (dirs : List UserDir) (body : Text) (json : Option Value) (m : Manager)
      → Relayed
          (login (upstream_body body (plan_login J dirs json).body))
          m
          (handle_login dirs (bytes body json) m)
  unfolding handle_login
  handle_login-Relayed dirs body json m =
      conclude_login-Relayed (login (upstream_body body (plan_login J dirs json).body))
        (plan_login J dirs json).requested m
