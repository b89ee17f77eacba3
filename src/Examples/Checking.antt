-- ===== src/Examples/Checking.antt =====
-- The health checks of a session that is well, and of one without a token.
use ement_e2ee.Prelude.{
  ℕ, ◌+◌, ◌≡◌, refl, true, false, Option, none, some, List, [], ◌∷◌, Text, codes, length, all,
}
use ement_e2ee.Diagnose.Checks.{check_ok, said}
use ement_e2ee.Diagnose.Keys.{Session, OwnDevice}
use ement_e2ee.Diagnose.Session.{check_session}
use ement_e2ee.Diagnose.SessionLaws.{Healthy, check_session-Healthy}
use ement_e2ee.Diagnose.Summary.{Report, check}
use ement_e2ee.Diagnose.SummaryLaws.{total, failed, reported, check-summary}
use ement_e2ee.Examples.Tree.{Tree, leaf, text, count, tree_json, object_of}

abbrev sound : Session Tree
sound = record {
  user_id = codes "@a:b";
  device_id = codes "D";
  store_dir = codes "/s";
  identity_key = codes "key";
  whoami = some (200, object_of ((codes "device_id", text (codes "D")) ∷ []));
  published = some (some (codes "key"));
  keys_upload = some (
    200,
    object_of (
        (codes "one_time_key_counts", object_of ((codes "signed_curve25519", count 50) ∷ [])) ∷ []),
  );
  cross_signing = record { has_master = true; has_self_signing = true; has_user_signing = true };
  own_device = OwnDevice.known true none;
  self_signing_key = none;
  backup = record { enabled = false; local_version = none; counts = none };
  backup_version = some (404, leaf);
  sync_age = some 3;
  pending = [];
}

abbrev signed_out : Session Tree
signed_out = record sound { whoami = some (401, leaf) }

check_session-Healthy_example : Healthy tree_json sound
unfolding check_session ement_e2ee.Diagnose.Keys.check_token ement_e2ee.Json.index
    ement_e2ee.Prelude.Map.get ement_e2ee.Prelude.Text-discrete
    ement_e2ee.Diagnose.Keys.check_device_keys ement_e2ee.Diagnose.Keys.check_one_time_keys
    ement_e2ee.Json.pointer ement_e2ee.Diagnose.Signing.cross_signing_check
    ement_e2ee.Diagnose.Signing.check_device_verified
check_session-Healthy_example = check_session-Healthy tree_json sound refl

abbrev report : Report Tree
report =
    check tree_json [] (sound ∷ signed_out ∷ []) [] (check_ok (codes "store") (said []))
      (check_ok (codes "log") (said []))

check-summary_example :
    (total report.summary ≡ length report.proxy + length (reported report.sessions))
    × (report.summary.fail ≡ failed report.proxy + failed (reported report.sessions))
check-summary_example =
    check-summary tree_json [] (sound ∷ signed_out ∷ []) [] (check_ok (codes "store") (said []))
      (check_ok (codes "log") (said []))
