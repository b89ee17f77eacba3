-- ===== src/Diagnose/Proxy.antt =====
-- The checks of the proxy itself: src/admin/diagnose.rs. Times and spans are in nanoseconds.
use ement_e2ee.Prelude.{
  ℕ, ◌+◌, ◌-◌, ◌*◌, ◌/◌, Bool, Option, none, some, List, [], ◌∷◌, Text, codes, ltb, leb,
  if◌then◌else◌,
}
use ement_e2ee.Http.{is_success}
use ement_e2ee.Logbuf.{LogLine, count_since}
use ement_e2ee.Diagnose.Checks.{Check, Detail, Piece, said, check_ok, check_warn, check_fail}
use Piece.{text, number, error}

abbrev pub second : ℕ
second = 1000000000

abbrev pub clock_skew_warn : ℕ
clock_skew_warn = 30 * second

abbrev pub clock_skew_fail : ℕ
clock_skew_fail = 300 * second

-- `duration_since`, whichever of the two is later.
abbrev pub distance : ℕ → ℕ → ℕ
distance a b = if ltb a b then b - a else a - b

-- What the `Date` header's resolution and the request's duration cannot explain.
unfoldable pub unexplained_skew : ℕ → ℕ → ℕ → ℕ
unexplained_skew now server_time round_trip = distance now server_time - (round_trip + second)

abbrev pub clock_hint : Text
clock_hint = codes "sync the system clock (on WSL2: `sudo hwclock -s`, or restart WSL)"

-- What `std::fs::metadata` says of a path.
pub data Metadata : Type 0 where
  directory : Metadata
  not_found : Metadata
  other : Metadata

module _ {V : Type 0} where
  abbrev pub skew_detail : ℕ → Detail V
  skew_detail skew = number (skew / second) ∷ text (codes " s off the homeserver's clock") ∷ []

  unfoldable pub clock_check : ℕ → ℕ → ℕ → Check V
  unfolding unexplained_skew
  clock_check now server_time round_trip =
      let skew = unexplained_skew now server_time round_trip in
      if leb clock_skew_fail skew
      then check_fail (codes "clock") (skew_detail skew) clock_hint
      else if leb clock_skew_warn skew
      then check_warn (codes "clock") (skew_detail skew) clock_hint
      else check_ok (codes "clock") (said (codes "agrees with the homeserver's"))

  -- The answer to `/versions`: its status and its date, if there is one that parses.
  unfoldable pub homeserver_check : Text → ℕ → ℕ → Check V
  homeserver_check homeserver status elapsed =
      if is_success status
      then check_ok (codes "homeserver") (
          text homeserver
          ∷ text (codes " answers in ")
          ∷ number (elapsed / 1000000)
          ∷ text (codes " ms")
          ∷ [])
      else check_fail (codes "homeserver")
          (text homeserver
            ∷ text (codes " answered ")
            ∷ number status
            ∷ text (codes " to /_matrix/client/versions")
            ∷ [])
          (codes "is `homeserver` the client-server API base URL?")

  abbrev dated_check : ℕ → Option ℕ → ℕ → List (Check V)
  dated_check now none elapsed = []
  dated_check now (some server_time) elapsed = clock_check now server_time elapsed ∷ []

  unfoldable pub check_homeserver : Text → ℕ → ℕ → Option (ℕ × Option ℕ) → List (Check V)
  unfolding homeserver_check clock_check
  check_homeserver homeserver now elapsed none =
      check_fail (codes "homeserver")
        (text homeserver ∷ text (codes " is unreachable: ") ∷ error ∷ [])
        (codes "check the network and the `homeserver` setting")
      ∷ []
  check_homeserver homeserver now elapsed (some (status, date)) =
      homeserver_check homeserver status elapsed ∷ dated_check now date elapsed

  unfoldable pub check_store : Text → Bool → Metadata → Check V
  check_store dir has_passphrase directory = check_ok (codes "store") (
      text dir
      ∷ text (codes " (")
      ∷ text (
          if has_passphrase
          then codes "encrypted with the store passphrase"
          else codes "not encrypted at rest")
      ∷ text (codes ")")
      ∷ [])
  check_store dir has_passphrase not_found =
      check_ok (codes "store") (text dir ∷ text (codes " (not created yet)") ∷ [])
  check_store dir has_passphrase other =
      check_fail (codes "store") (text dir ∷ text (codes " is not a usable directory") ∷ [])
        (codes "check `store_dir` and its permissions")

  unfoldable pub log_check : ℕ → ℕ → Check V
  log_check errors warnings =
      if ltb 0 errors
      then check_warn (codes "log")
          (number errors
            ∷ text (codes " error(s) and ")
            ∷ number warnings
            ∷ text (codes " warning(s) in the last 10 minutes")
            ∷ [])
          (codes "see `ement-e2ee ctl debug logs --level warn`")
      else check_ok (codes "log") (
          text (codes "no errors in the last 10 minutes (")
          ∷ number warnings
          ∷ text (codes " warning(s))")
          ∷ [])

  -- The two counts are taken one after the other, so the buffer and the clock may be others for the
  -- second. `none` is the overflow of the subtraction on `usize`.
  unfoldable pub check_log :
      (Text → Option ℕ) → ℕ → ℕ → ℕ → List LogLine → ℕ → List LogLine → Option (Check V)
  unfolding log_check
  check_log parse_level error_level warn_level now lines later lines' =
      let window = 600 * second in
      let errors = count_since parse_level now error_level window lines in
      let counted = count_since parse_level later warn_level window lines' in
      if leb errors counted then some (log_check errors (counted - errors)) else none
