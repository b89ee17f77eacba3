-- ===== src/Examples/Logins.antt =====
-- Logins and syncs from the client's side.
use ement_e2ee.Prelude.{
  ℕ, ◌≡◌, ◌++◌, refl, Bool, true, false, Option, none, some, List, [], ◌∷◌, Text, codes,
  Text-discrete, unwrap_or,
}
use ement_e2ee.Json
use ement_e2ee.Json.{Json}
use ement_e2ee.Login.Stores.{UserDir, device_id_for_login}
use ement_e2ee.Login.Plan.{plan_login}
use ement_e2ee.Login.Chosen.{Continues, device_id_for_login_sound, plan_login-device}
use ement_e2ee.Login.Sent.{
  Upstream, LoginBody, handle_login, handle_login-Relayed, Relayed, upstream_body,
}
use ement_e2ee.Sync.Receive.{Account}
use ement_e2ee.Sync.Handle.{handle_sync, handle_sync-Processed, Processed}
use ement_e2ee.Examples.Tree.{Tree, text, tree_json, object_of}
use ement_e2ee.Examples.Sessions.{list_host, home, manager, answers}
use ement_e2ee.Examples.Syncing.{sync_sdk, account, number_of}

-- One user, with one store that a login for `req` made as the device `DEV`.
abbrev users : List UserDir
users =
    record {
      name = some (codes "@a:b");
      store_at = λ name. false;
      devices =
          record {
            has_store = true;
            login = some (record { device_id = codes "DEV"; requested_device_id = codes "req" });
            used = 5;
          }
          ∷ [];
    }
    ∷ []

abbrev login_body : Tree
login_body =
    object_of ((codes "user", text (codes "A")) ∷ (codes "device_id", text (codes "req")) ∷ [])

device_id_for_login_sound_example : Continues (codes "A") (codes "req") (codes "DEV") users
unfolding device_id_for_login ement_e2ee.Prelude.Str.strip_prefix
    ement_e2ee.Session.Paths.sanitize_for_path ement_e2ee.Prelude.Str.split_once Text-discrete
device_id_for_login_sound_example =
    device_id_for_login_sound users (codes "A") (codes "req") (codes "DEV") refl

plan_login-device_example :
    Json.get_str tree_json
      (codes "device_id")
      (unwrap_or (plan_login tree_json users (some login_body)).body login_body)
    ≡ device_id_for_login users (codes "A") (codes "req")
unfolding Json.get_str ement_e2ee.Prelude.Map.get Text-discrete ement_e2ee.Login.Plan.login_user
    Json.pointer
plan_login-device_example =
    plan_login-device tree_json users login_body (codes "A") (codes "req") refl refl

abbrev refuses : Upstream Tree → Option (ℕ × Option Tree)
refuses body = some (403, none)

handle_login-Relayed_example :
    Relayed tree_json list_host home answers refuses
      (refuses (
        upstream_body tree_json list_host home answers refuses
          (codes "{}")
          (plan_login tree_json users (some login_body)).body))
      (manager [])
      (handle_login tree_json list_host home answers refuses users
        (LoginBody.bytes (codes "{}") (some login_body))
        (manager []))
handle_login-Relayed_example =
    handle_login-Relayed tree_json list_host home answers refuses users (codes "{}")
      (some login_body) (manager [])

abbrev same : Text → Text
same t = t

abbrev no_json : Text → Option Tree
no_json bytes = none

abbrev leave : Account tree_json sync_sdk → Tree → Account tree_json sync_sdk × Tree
leave a body = (a, body)

abbrev any_json : Text → Option Tree
any_json bytes = some (object_of [])

handle_sync-Processed_example :
    Processed tree_json sync_sdk number_of any_json leave leave 9
      (some (200, codes "{}"))
      (account 0)
      (handle_sync tree_json sync_sdk number_of any_json leave leave
        (some (codes "s1"))
        false
        9
        (some (200, codes "{}"))
        (account 0))
handle_sync-Processed_example =
    handle_sync-Processed tree_json sync_sdk number_of any_json leave leave (some (codes "s1"))
      false 9 (some (200, codes "{}")) (account 0)
