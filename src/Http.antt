-- ===== src/Http.antt =====
-- `json_request` of src/upstream.rs as its callers see it: the homeserver is a function from a
-- request to its answer, a status and a body, and `none` where the request fails. `is_success` is
-- `StatusCode::is_success`.
use ement_e2ee.Prelude.{ℕ, Bool, ◌&&◌, Option, Text, leb, ltb}

pub data Method : Type 0 where
  get : Method
  post : Method
  put : Method

pub record Request (V : Type 0) : Type 0 where
  pub method : Method
  pub path_and_query : Text
  pub token : Text
  pub body : Option V

abbrev pub Homeserver : Type 0 → Type 0
Homeserver V = Request V → Option (ℕ × V)

abbrev pub is_success : ℕ → Bool
is_success status = leb 200 status && ltb status 300
