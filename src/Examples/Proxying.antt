-- ===== src/Examples/Proxying.antt =====
-- The pump, the configuration and the verification messages on concrete inputs.
use ement_e2ee.Prelude.{
  ℕ, zero, suc, ◌-◌, ◌≡◌, ◌≢◌, ◌<◌, ◌≤◌, ◌⊎◌, refl, true, false, Bool, Option, none, some, List, [],
  ◌∷◌, ◌++◌, Text, codes, arith, all, is_empty, ltb, if◌then◌else◌,
}
use ement_e2ee.Rooms.Settings.{Rooms}
use ement_e2ee.Rooms.Encryption.{is_room_encrypted}
use ement_e2ee.Machine.Requests.{Queue, Wire, OutgoingRequest, AnyOutgoingRequest}
use ement_e2ee.Machine.Pump.{Drain, drain}
use ement_e2ee.Machine.PumpLaws.{Progress, drain-Progress}
use ement_e2ee.Config.Load.{IpAddr, System, ServeArgs, Config, empty_config}
use ement_e2ee.Encrypt.RoomMessage.{
  RoomMessageRequest, Expected, send_room_message_request, send_room_message_request-Expected,
}
use ement_e2ee.Examples.Tree.{Tree, leaf, text, tree_json}
use ement_e2ee.Examples.Rooming.{
  table_sdk, crypt, rooms_with, room, as_is, members_answer, megolm, accepts,
}

-- A machine that has so many requests left.
abbrev listing : ℕ → List (OutgoingRequest Tree)
listing zero = []
listing (suc n) =
    record { request_id = codes "r"; request = AnyOutgoingRequest.signature_upload leaf } ∷ []

abbrev marking : ℕ → ℕ × Bool
marking zero = (zero, false)
marking (suc n) = (n, true)

abbrev counting : Queue Tree
counting = record {
  Olm = ℕ;
  Response = Tree;
  BackupResponse = Tree;
  outgoing_requests = λ n. (n, some (listing n));
  parse_response = λ k body. some body;
  mark_request_as_sent = λ id response n. marking n;
  backup_enabled = λ n. false;
  backup = λ n. (n, some none);
  parse_backup_response = some;
  mark_backup_as_sent = λ id response n. (n, true);
}

abbrev three_left : Wire counting
three_left = record { olm = 3; sent = [] }

drain-Progress_example :
    Progress tree_json as_is counting accepts
      (codes "tok")
      4
      0
      (drain tree_json as_is counting accepts (codes "tok") 4 three_left)
    × (((drain tree_json as_is counting accepts (codes "tok") 4 three_left).1 ≡ Drain.out_of_fuel)
        ⊎ (drain tree_json as_is counting accepts (codes "tok") 9 three_left
            ≡ drain tree_json as_is counting accepts (codes "tok") 4 three_left))
drain-Progress_example =
    drain-Progress tree_json as_is counting accepts (codes "tok") 4 5 three_left

-- Three rounds send what is left, and a fourth finds the queue empty.
drain_drains : (drain tree_json as_is counting accepts (codes "tok") 4 three_left).1 ≡ Drain.drained
unfolding drain ement_e2ee.Machine.Requests.send_and_mark
drain_drains = refl

abbrev machine : System
machine = record {
  Url = Text;
  parse_url = some;
  url_path = λ u. [];
  set_path = λ p u. u;
  exists = λ p. true;
  read_to_string = λ p. some [];
  parse_toml = λ t. some (record empty_config {
    homeserver = some (codes "https://b");
    store_passphrase_command = some (codes "pass");
    log_level = some (codes "debug");
  });
  config_dir = none;
  data_dir = some (codes "data" ∷ []);
  home_dir = none;
  run_command = λ command. some (true, some (codes "pw" ++ 10 ∷ []));
}

abbrev arguments : ServeArgs
arguments = record {
  config = some (codes "c" ∷ []);
  homeserver = none;
  store_dir = none;
  listen = none;
  log_level = some (codes "warn");
}

abbrev loaded : Option (Config Text) → Config Text
loaded none = record {
  listen = record { ip = IpAddr.v4 0; port = 0 };
  homeserver = [];
  store_dir = [];
  log_level = [];
  store_passphrase = none;
  admin_token = none;
}
loaded (some c) = c

abbrev request : RoomMessageRequest Tree
request = record {
  room_id = room;
  txn_id = codes "t";
  event_type = codes "m.key.verification.ready";
  content = text (codes "ready");
}

abbrev encrypted_rooms : Rooms tree_json table_sdk
encrypted_rooms = rooms_with [] ((room, megolm) ∷ [])

send_room_message_request-Expected_example :
    let asked = is_room_encrypted tree_json table_sdk as_is members_answer room encrypted_rooms in
    Expected tree_json table_sdk as_is members_answer crypt some accepts
      (λ txn body olm. some olm)
      (codes "tok")
      0
      request
      asked.0
      asked.1
      (send_room_message_request tree_json table_sdk as_is members_answer crypt some accepts
        (λ txn body olm. some olm)
        (codes "tok")
        0
        request
        encrypted_rooms).1
send_room_message_request-Expected_example =
    send_room_message_request-Expected tree_json table_sdk as_is members_answer crypt some accepts
      (λ txn body olm. some olm) (codes "tok") 0 request encrypted_rooms
