-- ===== src/Examples/Events.antt =====
-- Decryption, repairs and attachments on concrete events.
use ement_e2ee.Prelude.{
  ℕ, ◌+◌, ◌≤◌, ◌≡◌, ◌≢◌, refl, true, false, ◌&&◌, Option, none, some, List, [], ◌∷◌, ◌++◌, Text,
  codes, Text-discrete, arith, map, if◌then◌else◌, elem, ◌>>=?◌, Bool,
}
use ement_e2ee.Prelude.Map
use ement_e2ee.Prelude.Map.{Map}
use ement_e2ee.Json
use ement_e2ee.Sdk.{RoomSettings}
use ement_e2ee.Repair.Queue.{PendingRepair, RepairQueue, take_ready}
use ement_e2ee.Repair.Synthetic.{synthetic_edit, delivered_event_ids}
use ement_e2ee.Repair.SyntheticLaws.{EditOf, synthetic_edit_shape}
use ement_e2ee.Repair.Inject.{Pushed, push_into_sync, timeline_path, inject, inject_all}
use ement_e2ee.Repair.InjectLaws.{push_into_sync-events, inject-requeues, StillSealed, taken}
use ement_e2ee.Media.Cache.{MediaEntry}
use ement_e2ee.Media.Rewrite.{rewrite_content_for_encrypted_room, harvest_and_rewrite_decrypted}
use ement_e2ee.Media.RewriteLaws.{rewritten_content_sealed, harvest-rewritten}
use ement_e2ee.Media.Transfer.{Answer, Upload, Download, handle_upload, handle_download}
use ement_e2ee.Media.TransferLaws.{upload_download}
use ement_e2ee.Decrypt.Placeholder.{Placeholder, utd_placeholder}
use ement_e2ee.Decrypt.PlaceholderLaws.{utd_placeholder_envelope}
use ement_e2ee.Decrypt.Event.{Context, Decryption, KeyRequest, decrypt, ready_event}
use ement_e2ee.Decrypt.EventLaws.{decrypted_event_members}
use ement_e2ee.Decrypt.KeyRequests.{maybe_request_room_key, key_request_task}
use ement_e2ee.Decrypt.KeyRequestsLaws.{
  Step, run, requests_for, allowance, failures, run-requests_for,
}
use ement_e2ee.Decrypt.BodiesLaws.{id_of}
use ement_e2ee.Proxy.Routes.{Route}
use ement_e2ee.Proxy.History.{HistoryAnswer, handle_history_get, handle_history_get-messages}
use ement_e2ee.Examples.Tree.{Tree, leaf, text, count, tree_json, object_of, array_of}
use ement_e2ee.Examples.Rooming.{table_sdk, rooms_with, room, megolm}
use ement_e2ee.Examples.Crypto.{media_host, decrypt_sdk, keyed_sdk}

abbrev sealed_event : Tree
sealed_event = object_of (
    (codes "type", text (codes "m.room.encrypted"))
    ∷ (codes "event_id", text (codes "$1"))
    ∷ (codes "session", text (codes "s"))
    ∷ [])

abbrev opened_event : Tree
opened_event = object_of (
    (codes "type", text (codes "m.room.message"))
    ∷ (codes "event_id", text (codes "$1"))
    ∷ (codes "sender", text (codes "@a:b"))
    ∷ (codes "content", object_of ((codes "body", text (codes "hi")) ∷ []))
    ∷ [])

abbrev empty_queue : RepairQueue Tree
empty_queue = record { pending = []; order = []; ready_sessions = []; retry_all = false; wakes = 0 }

abbrev with_repairs : RepairQueue Tree → Context tree_json table_sdk media_host decrypt_sdk
with_repairs q = record { rooms = rooms_with [] []; repairs = q; media = []; key_requests = [] }

abbrev waiting : PendingRepair Tree
waiting = record {
  room_id = room;
  event_id = codes "$1";
  session_id = some (codes "s");
  event = sealed_event;
}

abbrev ready_queue : RepairQueue Tree
ready_queue = record {
  pending = (codes "$1", waiting) ∷ [];
  order = codes "$1" ∷ [];
  ready_sessions = [];
  retry_all = true;
  wakes = 1;
}

sealed_ne :
    (r : Text) (s : Option Text) (raw v : Tree)
    → ◌≢◌ {A = Decryption Tree Tree} (Decryption.undecryptable r s raw) (Decryption.decrypted v)
sealed_ne r s raw v h = ground (arith, h)

-- An account without the key of the room, or with it.
abbrev account : Map Text (RoomSettings Text) → Context tree_json table_sdk media_host keyed_sdk
account keys = record {
  rooms = rooms_with [] keys;
  repairs = ready_queue;
  media = [];
  key_requests = [];
}

waiting-StillSealed :
    StillSealed tree_json table_sdk media_host keyed_sdk waiting
      (taken tree_json table_sdk media_host keyed_sdk (account []))
unfolding decrypt Json.get_str Map.get Text-discrete
waiting-StillSealed v h = sealed_ne _ _ _ v h

inject-requeues_example :
    Map.contains_key Text-discrete
      (codes "$1")
      (inject tree_json table_sdk media_host keyed_sdk
        (object_of [])
        (account [])).0.repairs.pending
    ≡ true
unfolding take_ready Text-discrete Map.get delivered_event_ids Json.pointer Json.get inject_all
    decrypt Json.get_str
inject-requeues_example =
    inject-requeues tree_json table_sdk media_host keyed_sdk (object_of []) (account []) [] []
      waiting refl refl waiting-StillSealed tt

-- With the key, the same repair leaves the queue.
inject_with_key :
    Map.contains_key Text-discrete
      (codes "$1")
      (inject tree_json table_sdk media_host keyed_sdk
        (object_of [])
        (account ((room, megolm) ∷ []))).0.repairs.pending
    ≡ false
unfolding take_ready Text-discrete Map.get delivered_event_ids Json.pointer Json.get inject decrypt
    Json.get_str Json.set synthetic_edit harvest_and_rewrite_decrypted Map.insert Map.remove
inject_with_key = refl

synthetic_edit_shape_example :
    EditOf tree_json opened_event
      (elim (synthetic_edit tree_json opened_event) [ none ↦ leaf | some edit ↦ edit ])
      (codes "sender")
unfolding synthetic_edit Json.get_str Map.get Text-discrete Json.assign Json.pointer
synthetic_edit_shape_example =
    synthetic_edit_shape tree_json opened_event _ (codes "sender") refl refl

abbrev joined_body : Tree
joined_body = object_of (
    (
      codes "rooms",
      object_of (
          (
            codes "join",
            object_of (
                (
                  room,
                  object_of (
                      (codes "timeline", object_of ((codes "events", array_of (count 1 ∷ [])) ∷ []))
                      ∷ []),
                )
                ∷ []),
          )
          ∷ []),
    )
    ∷ [])

abbrev pushed_body : Tree
pushed_body = elim (push_into_sync tree_json none room (count 2) joined_body) [
  | Pushed.pushed v ↦ v
  | Pushed.left_out ↦ leaf
  | Pushed.panics ↦ leaf
]

push_into_sync-events_example :
    Json.pointer tree_json (timeline_path tree_json room) pushed_body
    ≡ some (array_of (count 1 ∷ count 2 ∷ []))
unfolding push_into_sync ement_e2ee.Repair.Synthetic.joined_rooms Json.pointer Json.get Map.get
    Text-discrete Json.assign
push_into_sync-events_example =
    push_into_sync-events tree_json none room (count 2) joined_body pushed_body refl

utd_placeholder_envelope_example :
    let shown =
      utd_placeholder tree_json sealed_event (codes "MissingRoomKey") (some (codes "s")) true in
    (Json.get tree_json (codes "session") shown ≡ none)
    × (Json.pointer tree_json (codes "unsigned" ∷ codes "session" ∷ []) shown ≡ none)
unfolding Text-discrete Map.get Map.insert Map.remove Json.get
utd_placeholder_envelope_example =
    utd_placeholder_envelope tree_json sealed_event (codes "MissingRoomKey") (some (codes "s")) true
      (codes "session")

abbrev plaintext : Map Text Tree
plaintext =
    (codes "event_id", text (codes "$1"))
    ∷ (codes "content", object_of ((codes "body", text (codes "hi")) ∷ []))
    ∷ []

decrypted_event_members_example :
    (shown : Tree) × ((ready_event tree_json table_sdk media_host decrypt_sdk sealed_event leaf
        plaintext
        (with_repairs empty_queue)).1
      ≡ Decryption.decrypted shown)
    × (Json.get tree_json (codes "event_id") shown ≡ some (text (codes "$1")))
    × ((Json.get tree_json (codes "content") shown >>=? Json.get tree_json (codes "body"))
        ≡ some (text (codes "hi")))
    × (Json.pointer tree_json (codes "unsigned" ∷ codes "age" ∷ []) shown ≡ none)
unfolding Map.get Text-discrete Json.get
decrypted_event_members_example =
    decrypted_event_members tree_json table_sdk media_host decrypt_sdk sealed_event leaf plaintext
      [] (with_repairs empty_queue) (codes "event_id") (codes "body") (codes "age") refl
      (ground arith) (ground arith) (ground arith) (ground arith) (ground arith)

-- A request of one number, and a homeserver that takes none.
abbrev request_one :
    Tree
    → Text
    → Map Text (RoomSettings Text)
    → Map Text (RoomSettings Text) × Option (Option ℕ × ℕ)
request_one raw id olm = (olm, some (none, 1))

abbrev send_none : ℕ → Map Text (RoomSettings Text) → Map Text (RoomSettings Text) × Bool
send_none request olm = (olm, false)

abbrev key_request : KeyRequest Tree
key_request = record { room_id = room; session_id = codes "s"; raw = leaf }

-- The request fails, and two more events of the session follow.
abbrev later_steps : List (Step Tree (Map Text (RoomSettings Text)))
later_steps =
    Step.task key_request
    ∷ Step.machine_changes ((room, megolm) ∷ [])
    ∷ Step.undecryptable room leaf (some (codes "s"))
    ∷ Step.undecryptable room leaf (some (codes "s"))
    ∷ []

abbrev all_steps : List (Step Tree (Map Text (RoomSettings Text)))
all_steps = Step.undecryptable room leaf (some (codes "s")) ∷ later_steps

run-requests_for_example :
    (requests_for tree_json table_sdk media_host decrypt_sdk request_one send_none
          (codes "s")
          (with_repairs empty_queue)
        + allowance tree_json table_sdk media_host decrypt_sdk request_one send_none
            (codes "s")
            (with_repairs empty_queue)
      ≤ requests_for tree_json table_sdk media_host decrypt_sdk request_one send_none (codes "s") (
          run tree_json table_sdk media_host decrypt_sdk request_one send_none all_steps
            (with_repairs empty_queue)))
    × (requests_for tree_json table_sdk media_host decrypt_sdk request_one send_none (codes "s") (
          run tree_json table_sdk media_host decrypt_sdk request_one send_none all_steps
            (with_repairs empty_queue))
        ≤ requests_for tree_json table_sdk media_host decrypt_sdk request_one send_none
            (codes "s")
            (with_repairs empty_queue)
          + allowance tree_json table_sdk media_host decrypt_sdk request_one send_none
              (codes "s")
              (with_repairs empty_queue)
          + failures tree_json table_sdk media_host decrypt_sdk request_one send_none
              (codes "s")
              all_steps
              (with_repairs empty_queue))
run-requests_for_example =
    run-requests_for tree_json table_sdk media_host decrypt_sdk request_one send_none (codes "s")
      room leaf later_steps (with_repairs empty_queue)

-- These steps start two requests.
two_requests :
    requests_for tree_json table_sdk media_host decrypt_sdk request_one send_none (codes "s") (
      run tree_json table_sdk media_host decrypt_sdk request_one send_none all_steps
        (with_repairs empty_queue))
    ≡ 2
unfolding Text-discrete maybe_request_room_key key_request_task
two_requests = refl

abbrev page : Text → Option Tree
page bytes = some (object_of ((codes "chunk", array_of (sealed_event ∷ [])) ∷ []))

abbrev serve_page : Text → Option (ℕ × Option Text × Text)
serve_page path = some (200, none, [])

handle_history_get-messages_example :
    (shown_page : Tree) × (shown : List Tree) × ((handle_history_get tree_json table_sdk media_host
        decrypt_sdk page some serve_page
        (some (codes "/p"))
        (Route.messages room)
        (with_repairs empty_queue)).1
      ≡ HistoryAnswer.rewritten none shown_page)
    × (Json.pointer tree_json (codes "chunk" ∷ []) shown_page ≡ some (array_of shown))
    × (map (id_of tree_json table_sdk media_host decrypt_sdk) shown ≡ some (text (codes "$1")) ∷ [])
unfolding Json.pointer Json.get Map.get Text-discrete
handle_history_get-messages_example =
    handle_history_get-messages tree_json table_sdk media_host decrypt_sdk page some serve_page
      (codes "/p") room room 200 none []
      (object_of ((codes "chunk", array_of (sealed_event ∷ [])) ∷ [])) (sealed_event ∷ [])
      (with_repairs empty_queue) refl refl refl refl refl

abbrev mxc : Text
mxc = codes "mxc://b/1"

abbrev known_media : Map Text (MediaEntry ℕ)
known_media = (mxc, record { info = 7; mimetype = none; filename = none }) ∷ []

abbrev image : Map Text Tree
image = (codes "msgtype", text (codes "m.image")) ∷ (codes "url", text mxc) ∷ []

rewritten_content_sealed_example :
    Json.get tree_json
      (codes "url")
      (rewrite_content_for_encrypted_room tree_json media_host known_media (object_of image))
    ≡ none
unfolding Json.get_str Map.get Text-discrete
rewritten_content_sealed_example =
    rewritten_content_sealed tree_json media_host known_media (object_of image) image
      ((codes "k", count 7) ∷ []) mxc (codes "url")
      (record { info = 7; mimetype = none; filename = none }) refl refl refl refl (ground arith)

abbrev received : Tree
received = object_of (
    (
      codes "content",
      rewrite_content_for_encrypted_room tree_json media_host known_media (object_of image),
    )
    ∷ [])

harvest-rewritten_example :
    (Json.pointer tree_json
        (codes "content" ∷ codes "url" ∷ [])
        (harvest_and_rewrite_decrypted tree_json media_host received []).1
      ≡ some (text mxc))
    × (Json.pointer tree_json
          (codes "content" ∷ codes "file" ∷ [])
          (harvest_and_rewrite_decrypted tree_json media_host received []).1
        ≡ none)
unfolding Json.get_str Map.get Text-discrete
harvest-rewritten_example =
    harvest-rewritten tree_json media_host known_media [] (object_of image) received image
      ((codes "k", count 7) ∷ []) mxc (record { info = 7; mimetype = none; filename = none }) refl
      refl refl refl refl (λ e. (_, refl))

abbrev parse_uri : Text → Option Tree
parse_uri bytes = some (object_of ((codes "content_uri", text (codes "mxc://b/1")) ∷ []))

abbrev stored : Text → Option Download
stored path = some (record { status = 200; content_type = none; bytes = 7 ∷ codes "cat" })

upload_download_example :
    handle_download tree_json media_host parse_uri
      (λ t. t)
      (λ t. t)
      stored
      (codes "b")
      (codes "1")
      (handle_upload tree_json media_host parse_uri
        (λ t. t)
        (λ t. t)
        7
        (λ u. some (200, []))
        (codes "filename=a.png")
        (some (codes "image/png"))
        (codes "cat")
        []).0
    ≡ Answer.decrypted (codes "image/png") (some (codes "inline; filename=\"a.png\"")) (codes "cat")
unfolding Json.get_str Map.get Text-discrete ement_e2ee.Media.Transfer.header_or_opaque
    ement_e2ee.Media.Transfer.filename_in ement_e2ee.Prelude.Str.split
    ement_e2ee.Prelude.Str.strip_prefix
upload_download_example =
    upload_download tree_json media_host parse_uri (λ t. t) (λ t. t) 7 (λ u. some (200, [])) stored
      (codes "filename=a.png") (some (codes "image/png")) (codes "cat") (7 ∷ codes "cat") []
      (codes "b") (codes "1") 7 200
      (record { status = 200; content_type = none; bytes = 7 ∷ codes "cat" }) [] _ refl refl refl
      refl refl refl refl refl
