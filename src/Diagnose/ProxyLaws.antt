-- ===== src/Diagnose/ProxyLaws.antt =====
-- What the checks of the clock and of the log (src/admin/diagnose.rs) say.
use ement_e2ee.Prelude.{
  ℕ, ◌+◌, ◌*◌, ◌≤◌, ◌<◌, ◌≡◌, true, Option, List, [], ◌∷◌, Text, arith, is_some,
}
use ement_e2ee.Logbuf.{LogLine, count_since, at_level, is_recent}
use ement_e2ee.Diagnose.Checks.{Status}
use ement_e2ee.Diagnose.Proxy.{clock_check, unexplained_skew, distance, second, check_log}

-- The clock is called right where it is less than 31 seconds and the round trip off the
-- homeserver's, wrong from 301 seconds and the round trip on, and doubtful between.
pub clock_check-status :
    (V : Type 0) (now server_time round_trip : ℕ)
    → (distance now server_time < round_trip + 31 * second
        → (clock_check {V = V} now server_time round_trip).status ≡ Status.ok)
      × (round_trip + 31 * second ≤ distance now server_time
          → distance now server_time < round_trip + 301 * second
          → (clock_check {V = V} now server_time round_trip).status ≡ Status.warn)
      × (round_trip + 301 * second ≤ distance now server_time
          → (clock_check {V = V} now server_time round_trip).status ≡ Status.fail)
unfolding clock_check unexplained_skew
clock_check-status V now server_time round_trip =
    (λ h. ground arith, λ h g. ground arith, λ h. ground arith)

count_since_mono :
    (parse_level : Text → Option ℕ) (now window severe mild : ℕ) (lines : List LogLine)
    → severe ≤ mild
    → count_since parse_level now severe window lines
      ≤ count_since parse_level now mild window lines
unfolding count_since at_level is_recent
count_since_mono parse_level now window severe mild [] h = omega arith
count_since_mono parse_level now window severe mild (line ∷ lines) h =
    ground (arith, count_since_mono parse_level now window severe mild lines h)

-- The log check's subtraction does not overflow where both counts are taken of the same lines at
-- the same time, as long as an error is no less severe than a warning.
pub check_log-total :
    (V : Type 0) (parse_level : Text → Option ℕ) (error_level warn_level now : ℕ)
    (lines : List LogLine)
    → error_level ≤ warn_level
    → is_some (check_log {V = V} parse_level error_level warn_level now lines now lines) ≡ true
unfolding check_log
check_log-total V parse_level error_level warn_level now lines h =
    ground (arith, count_since_mono parse_level now (600 * second) error_level warn_level lines h)
