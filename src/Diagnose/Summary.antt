-- ===== src/Diagnose/Summary.antt =====
-- `check` of src/admin/diagnose.rs: every check, of the proxy and of each session, and their tally.
use ement_e2ee.Prelude.{ℕ, zero, suc, List, [], ◌∷◌, ◌++◌, Text, codes, length}
use ement_e2ee.Json.{Json}
use ement_e2ee.Diagnose.Checks.{
  Check, Detail, Piece, Status, check_ok, check_warn, check_fail, said,
}
use ement_e2ee.Diagnose.Keys.{Session}
use ement_e2ee.Diagnose.Session.{check_session}
use Piece.{text, number}

pub record Tally : Type 0 where
  pub ok : ℕ
  pub warn : ℕ
  pub fail : ℕ

-- A session's place in the report.
pub record SessionReport (V : Type 0) : Type 0 where
  pub user_id : Text
  pub device_id : Text
  pub checks : List (Check V)

pub record Report (V : Type 0) : Type 0 where
  pub proxy : List (Check V)
  pub sessions : List (SessionReport V)
  pub summary : Tally

abbrev pub count_status : Status → Tally → Tally
count_status Status.ok t = record t { ok = suc t.ok }
count_status Status.warn t = record t { warn = suc t.warn }
count_status Status.fail t = record t { fail = suc t.fail }

unfoldable pub tally : {V : Type 0} → List (Check V) → Tally → Tally
tally [] t = t
tally (check ∷ checks) t = tally checks (count_status check.status t)

module _ (J : Json) where
  open J use {Value}

  -- A refusal's detail and hint: `DeviceConflict::detail` and `hint`.
  abbrev pub Refusal : Type 0
  Refusal = Detail Value × Text

  unfoldable pub sessions_check : ℕ → List Refusal → List (Check Value)
  sessions_check zero [] =
      check_warn (codes "sessions") (said (codes "no session yet"))
        (codes "connect ement through the proxy (`ement-e2ee setup` prints how)")
      ∷ []
  sessions_check zero (r ∷ refused) = []
  sessions_check (suc n) refused =
      check_ok (codes "sessions") (number (suc n) ∷ text (codes " connected") ∷ []) ∷ []

  unfoldable pub refusal_checks : List Refusal → List (Check Value)
  refusal_checks [] = []
  refusal_checks ((detail, hint) ∷ refused) =
      check_fail (codes "refused_session") detail hint ∷ refusal_checks refused

  unfoldable pub proxy_checks :
      List (Check Value) → ℕ → List Refusal → Check Value → Check Value → List (Check Value)
  unfolding sessions_check refusal_checks
  proxy_checks homeserver connected refused store log =
      homeserver ++ sessions_check connected refused ++ refusal_checks refused ++ store ∷ log ∷ []

  unfoldable pub session_reports : List (Session Value) → Tally → List (SessionReport Value) × Tally
  unfolding check_session tally
  session_reports [] t = ([], t)
  session_reports (s ∷ sessions) t =
      let checks = check_session J s in
      let (reports, last) = session_reports sessions (tally checks t) in
      (record { user_id = s.user_id; device_id = s.device_id; checks = checks } ∷ reports, last)

  -- `homeserver`, `store` and `log` are the results of `check_homeserver`, `check_store` and
  -- `check_log`.
  unfoldable pub check :
      List (Check Value)
      → List (Session Value)
      → List Refusal
      → Check Value
      → Check Value
      → Report Value
  unfolding proxy_checks session_reports tally
  check homeserver sessions refused store log =
      let proxy = proxy_checks homeserver (length sessions) refused store log in
      let (reports, summary) =
        session_reports sessions (tally proxy (record { ok = 0; warn = 0; fail = 0 })) in
      record { proxy = proxy; sessions = reports; summary = summary }
