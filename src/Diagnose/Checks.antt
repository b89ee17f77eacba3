-- ===== src/Diagnose/Checks.antt =====
-- `Status` and `Check` of src/admin/diagnose.rs. A detail is the sequence of the pieces that
-- `format!` puts together; how a number, a JSON value or an error is printed is left out.
use ement_e2ee.Prelude.{ℕ, Bool, true, false, Option, none, some, List, [], ◌∷◌, Text}

pub data Status : Type 0 where
  ok : Status
  warn : Status
  fail : Status

abbrev pub is_fail : Status → Bool
is_fail Status.fail = true
is_fail _ = false

pub data Piece (V : Type 0) : Type 0 where
  text : Text → Piece V
  number : ℕ → Piece V
  json : V → Piece V
  error : Piece V

abbrev pub Detail : Type 0 → Type 0
Detail V = List (Piece V)

pub record Check (V : Type 0) : Type 0 where
  pub id : Text
  pub status : Status
  pub detail : Detail V
  pub hint : Option Text

module _ {V : Type 0} where
  abbrev pub said : Text → Detail V
  said s = text s ∷ []

  abbrev pub check_ok : Text → Detail V → Check V
  check_ok id detail = record { id = id; status = ok; detail = detail; hint = none }

  abbrev pub check_warn : Text → Detail V → Text → Check V
  check_warn id detail hint = record { id = id; status = warn; detail = detail; hint = some hint }

  abbrev pub check_fail : Text → Detail V → Text → Check V
  check_fail id detail hint = record { id = id; status = fail; detail = detail; hint = some hint }
