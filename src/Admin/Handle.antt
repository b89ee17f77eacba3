-- ===== src/Admin/Handle.antt =====
-- `handle` and `debug` of src/admin/mod.rs: what a request of the admin API is answered with, or
-- which operation it comes to, with its session and parameters. The operations are src/admin/,
-- src/crypto/verify.rs and src/crypto/ssss.rs.
use ement_e2ee.Prelude.{
  ℕ, Bool, true, false, not, ◌&&◌, Option, none, some, List, [], ◌∷◌, map, Text, codes, eqb,
  Text-discrete, if◌then◌else◌, unwrap_or, retain, is_empty, ◌>>=?◌,
}
use ement_e2ee.Prelude.Str.{split, strip_prefix}
use ement_e2ee.Prelude.Map
use ement_e2ee.Prelude.Map.{Map}
use ement_e2ee.Json
use ement_e2ee.Json.{Json}
use ement_e2ee.Admin.Params.{
  Answered, AdminSession, parse_query, json_params, read_json_body, resolve_session, verify_target,
}
use ement_e2ee.Admin.Route.{AdminRoute, VerifyAction, is_get, is_post, admin_route, action_of}
use AdminRoute.{
  status, bootstrap, keys_export, keys_import, verify_list, verify_start, unknown, verify_show,
  verify_action, debug,
}

-- What a request of the admin API comes to.
pub data Operation (C V : Type 0) : Type 0 where
  answer_status : ℕ → Operation C V
  bad_body : Operation C V
  run_status run_check run_report : Operation C V
  run_bootstrap run_export run_import : V → Operation C V
  list_flows : AdminSession C → Text → Operation C V
  start_flow : AdminSession C → Text → Operation C V
  show_flow : AdminSession C → Text → Text → Operation C V
  act_on_flow : AdminSession C → Text → Text → VerifyAction → Operation C V
  inspect_session : AdminSession C → Operation C V
  inspect_devices : AdminSession C → Text → Operation C V
  inspect_room : AdminSession C → Text → Operation C V
  inspect_event : AdminSession C → Text → Text → Operation C V
  read_logs : ℕ → ℕ → Operation C V
  set_filter : Text → Operation C V

-- What of a request the admin API reads; the body is `none` where it cannot be read.
pub record AdminRequest : Type 0 where
  pub method : Text
  pub authorization : Option Text
  pub query : Option Text
  pub body : Option Text

-- ruma's parsers of IDs, tracing's of levels, std's of numbers, and the percent decoding.
pub record Parsers : Type 0 where
  pub user : Text → Option Text
  pub room : Text → Option Text
  pub level : Text → Option ℕ
  pub limit : Text → Option ℕ
  pub decode : Text → Text

-- The control of the log filter, if there is one: whether it takes a filter.
abbrev pub LogControl : Type 0
LogControl = Option (Text → Bool)

abbrev pub bearer : Option Text → Option Text
bearer authorization = authorization >>=? strip_prefix (codes "Bearer ")

unfoldable pub admits : Option Text → Option Text → Bool
admits none authorization = true
admits (some expected) authorization = elim (bearer authorization) [
  | none ↦ false
  | some token ↦ eqb token expected
]

module _ (J : Json) {C : Type 0} (parse : Text → Option (Json.Value J)) (P : Parsers)
    (log_control : LogControl) (sessions : List (AdminSession C)) where
  open J use {Value, as_bool, as_str}

  abbrev pub Op : Type 0
  Op = Operation C Value

  abbrev pub with_session : Answered (AdminSession C) → (AdminSession C → Op) → Op
  with_session (Answered.json_error code) f = answer_status code
  with_session (Answered.ok s) f = f s

  abbrev pub with_target : Map Text Text → (AdminSession C → Text → Op) → Op
  with_target params f = elim (verify_target P.user params sessions) [
    | Answered.json_error code ↦ answer_status code
    | Answered.ok (s, user) ↦ f s user
  ]

  abbrev pub with_room : Text → (Text → Op) → Op
  with_room room_id f = elim (P.room room_id) [ none ↦ answer_status 400 | some room ↦ f room ]

  abbrev devices_of : Map Text Text → AdminSession C → Op
  devices_of query s = elim (Map.get Text-discrete (codes "user") query) [
    | none ↦ inspect_devices s s.user_id
    | some user ↦ elim (P.user (P.decode user)) [
      | none ↦ answer_status 400
      | some u ↦ inspect_devices s u
    ]
  ]

  abbrev logs_of : Map Text Text → Op
  logs_of query =
      elim (P.level (unwrap_or (Map.get Text-discrete (codes "level") query) (codes "info"))) [
        | none ↦ answer_status 400
        | some level ↦
            read_logs level
              (unwrap_or (Map.get Text-discrete (codes "limit") query >>=? P.limit) 50)
      ]

  abbrev filter_of : Value → Op
  filter_of body = elim (Json.get_str J (codes "filter") body) [
    | none ↦ answer_status 400
    | some filter ↦ elim log_control [
      | none ↦ answer_status 409
      | some control ↦ if control filter then set_filter filter else answer_status 400
    ]
  ]

  unfoldable pub debug_path :
      List Text → Text → Map Text Text → Value → Answered (AdminSession C) → Op
  debug_path [] method query body session = answer_status 404
  debug_path (a ∷ []) method query body session =
      if is_get method && eqb a (codes "check")
      then run_check
      else if is_get method && eqb a (codes "report")
      then run_report
      else if is_get method && eqb a (codes "session")
      then with_session session inspect_session
      else if is_get method && eqb a (codes "devices")
      then with_session session (devices_of query)
      else if is_get method && eqb a (codes "logs")
      then logs_of query
      else if is_post method && eqb a (codes "log-level")
      then filter_of body
      else answer_status 404
  debug_path (a ∷ b ∷ []) method query body session =
      if is_get method && eqb a (codes "room")
      then with_room b (λ room. with_session session (λ s. inspect_room s room))
      else answer_status 404
  debug_path (a ∷ b ∷ c ∷ []) method query body session =
      if is_get method && eqb a (codes "event")
      then with_room b (λ room. with_session session (λ s. inspect_event s room c))
      else answer_status 404
  debug_path (a ∷ b ∷ c ∷ d ∷ rest) method query body session = answer_status 404

  unfoldable pub debug_operation : Text → List Text → Map Text Text → Value → Op
  unfolding debug_path
  debug_operation method path query body =
      let user_id = Map.get Text-discrete (codes "user_id") query >>=? λ u. some (P.decode u) in
      let session = resolve_session user_id sessions in debug_path path method query body session

  abbrev pub with_body : AdminRequest → (Value → Op) → Op
  with_body req f = elim (read_json_body J parse req.body) [ none ↦ bad_body | some body ↦ f body ]

  abbrev start_of : Value → Op
  start_of body =
      let params = json_params J body in
      with_target params (λ s user. elim (Map.get Text-discrete (codes "device_id") params) [
        | none ↦ answer_status 400
        | some device_id ↦ start_flow s device_id
      ])

  abbrev wants_sas : Value → Bool
  wants_sas body = unwrap_or (Json.get J (codes "start_sas") body >>=? as_bool) false

  abbrev act_of : Text → Text → Value → Op
  act_of flow action body = with_target (json_params J body) (λ s user.
      elim (action_of (wants_sas body) action) [
        | none ↦ answer_status 404
        | some act ↦ act_on_flow s user flow act
      ])

  unfoldable pub route_operation : AdminRoute → AdminRequest → Op
  unfolding action_of debug_operation
  route_operation status req = run_status
  route_operation bootstrap req = with_body req run_bootstrap
  route_operation keys_export req = with_body req run_export
  route_operation keys_import req = with_body req run_import
  route_operation verify_list req = with_target (parse_query req.query) list_flows
  route_operation verify_start req = with_body req start_of
  route_operation (verify_show flow) req =
      with_target (parse_query req.query) (λ s user. show_flow s user flow)
  route_operation (verify_action flow action) req = with_body req (act_of flow action)
  route_operation (debug rest) req =
      if is_post req.method
      then with_body req (debug_operation req.method (map P.decode rest) (parse_query req.query))
      else debug_operation req.method (map P.decode rest) (parse_query req.query) J.null
  route_operation unknown req = answer_status 404

  unfoldable pub handle : Option Text → Text → AdminRequest → Op
  unfolding route_operation admin_route admits
  handle admin_token sub req =
      if admits admin_token req.authorization
      then route_operation
          (admin_route req.method (retain (λ s. not (is_empty s)) (split b'/' sub))) req
      else answer_status 401
