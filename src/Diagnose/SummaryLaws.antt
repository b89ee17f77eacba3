-- ===== src/Diagnose/SummaryLaws.antt =====
-- The tally of the health checks (src/admin/diagnose.rs) leaves none out.
use ement_e2ee.Prelude.{
  ℕ, suc, ◌+◌, ◌≡◌, true, false, List, [], ◌∷◌, ◌++◌, arith, length, length-append,
}
use ement_e2ee.Json.{Json}
use ement_e2ee.Diagnose.Checks.{Check, Status, is_fail}
use ement_e2ee.Diagnose.Keys.{Session}
use ement_e2ee.Diagnose.Session.{check_session}
use ement_e2ee.Diagnose.Summary.{
  Tally, SessionReport, Refusal, tally, count_status, session_reports, check,
}

abbrev pub total : Tally → ℕ
total t = t.ok + t.warn + t.fail

-- The checks that failed.
abbrev pub failed : {V : Type 0} → List (Check V) → ℕ
failed [] = 0
failed (c ∷ cs) = elim (is_fail c.status) [ true ↦ suc (failed cs) | false ↦ failed cs ]

abbrev pub reported : {V : Type 0} → List (SessionReport V) → List (Check V)
reported [] = []
reported (r ∷ rs) = r.checks ++ reported rs

total-count_status : (s : Status) (t : Tally) → total (count_status s t) ≡ suc (total t)
total-count_status Status.ok t = omega arith
total-count_status Status.warn t = omega arith
total-count_status Status.fail t = omega arith

total-tally :
    {V : Type 0} (cs : List (Check V)) (t : Tally) → total (tally cs t) ≡ length cs + total t
unfolding tally
total-tally [] t = omega arith
total-tally (c ∷ cs) t =
    omega (arith, total-tally cs (count_status c.status t), total-count_status c.status t)

fail-tally : {V : Type 0} (cs : List (Check V)) (t : Tally) → (tally cs t).fail ≡ failed cs + t.fail
unfolding tally
fail-tally [] t = omega arith
fail-tally (c ∷ cs) t = ground (arith, fail-tally cs (count_status c.status t))

failed-append : {V : Type 0} (cs ds : List (Check V)) → failed (cs ++ ds) ≡ failed cs + failed ds
failed-append [] ds = omega arith
failed-append (c ∷ cs) ds = ground (arith, failed-append cs ds)

module _ (J : Json) where
  total-session_reports :
      (sessions : List (Session (Json.Value J))) (t : Tally)
      → total (session_reports J sessions t).1
        ≡ length (reported (session_reports J sessions t).0) + total t
  unfolding session_reports
  total-session_reports [] t = omega arith
  total-session_reports (s ∷ sessions) t =
      let checks = check_session J s in
      omega (
        arith,
        total-session_reports sessions (tally checks t),
        total-tally checks t,
        length-append checks (reported (session_reports J sessions (tally checks t)).0),
      )

  fail-session_reports :
      (sessions : List (Session (Json.Value J))) (t : Tally)
      → (session_reports J sessions t).1.fail
        ≡ failed (reported (session_reports J sessions t).0) + t.fail
  unfolding session_reports
  fail-session_reports [] t = omega arith
  fail-session_reports (s ∷ sessions) t =
      let checks = check_session J s in
      omega (
        arith,
        fail-session_reports sessions (tally checks t),
        fail-tally checks t,
        failed-append checks (reported (session_reports J sessions (tally checks t)).0),
      )

  -- The summary of a report counts each check of the proxy and of every session once, and counts as
  -- failed exactly those that failed.
  pub check-summary :
      (homeserver : List (Check (Json.Value J))) (sessions : List (Session (Json.Value J)))
      (refused : List (Refusal J)) (store log : Check (Json.Value J))
      → let report = check J homeserver sessions refused store log in
        (total report.summary ≡ length report.proxy + length (reported report.sessions))
        × (report.summary.fail ≡ failed report.proxy + failed (reported report.sessions))
  unfolding check
  check-summary homeserver sessions refused store log =
      let zero_tally : Tally = record { ok = 0; warn = 0; fail = 0 } in
      let proxy = (check J homeserver sessions refused store log).proxy in
      (
        omega (
          arith,
          total-session_reports sessions (tally proxy zero_tally),
          total-tally proxy zero_tally,
        ),
        omega (
          arith,
          fail-session_reports sessions (tally proxy zero_tally),
          fail-tally proxy zero_tally,
        ),
      )
