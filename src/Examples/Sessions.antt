-- ===== src/Examples/Sessions.antt =====
-- Sessions on a disk that is the list of the directories with a store.
use ement_e2ee.Prelude.{
  ◌≡◌, refl, Bool, true, false, none, some, List, [], ◌∷◌, Text, codes, Text-discrete, arith,
}
use ement_e2ee.Prelude.Map
use ement_e2ee.Http.{Homeserver}
use ement_e2ee.Session.Device.{DeviceConflict}
use ement_e2ee.Session.Manager.{Host, SessionManager, insert_locked, get_or_init}
use ement_e2ee.Session.Keys.{TurnedAway, HasKey, no_new_keys, served_has_published_key}
use ement_e2ee.Proxy.Error.{ProxyError}
use ement_e2ee.Proxy.Routes.{Route}
use ement_e2ee.Proxy.Handle.{Handling, dispatch}
use ement_e2ee.Proxy.HeldBack.{dispatch-HeldBack}
use ement_e2ee.Examples.Tree.{Tree, text, tree_json, object_of}

abbrev pub has_dir : List Text → List Text → Bool
has_dir dir [] = false
has_dir dir (d ∷ ds) = true

-- The disk is the list of the devices that have a store, and a key is the device's ID.
abbrev pub list_host : Host
list_host = record {
  Disk = List Text;
  Olm = Text;
  Media = Bool;
  Vis = Bool;
  has_store = has_dir;
  open_machine = λ dir user device d. (device ∷ d, some device);
  open_media = λ dir d. (d, some true);
  identity_key = λ k. k;
  parse_user = some;
}

abbrev pub home : List Text
home = codes "h" ∷ []

abbrev pub manager : List Text → SessionManager tree_json list_host home
manager disk = record { inner = []; refused = []; disk = disk; spawned = [] }

-- A homeserver that answers whoami, and the query for keys with the key of no store.
abbrev pub answers : Homeserver Tree
answers request = some (
  200,
  object_of (
      (codes "user_id", text (codes "@a:b"))
      ∷ (codes "device_id", text (codes "D"))
      ∷ (
        codes "device_keys",
        object_of (
            (
              codes "@a:b",
              object_of (
                  (
                    codes "D",
                    object_of (
                        (codes "keys", object_of ((codes "ed25519:D", text (codes "other")) ∷ []))
                        ∷ []),
                  )
                  ∷ []),
            )
            ∷ []),
      )
      ∷ []),
)

no_new_keys_example : TurnedAway tree_json list_host home (manager []) (
    insert_locked tree_json list_host home
      (codes "tok")
      (codes "@a:b")
      (codes "D")
      (some (some (codes "other")))
      (manager []))
unfolding Map.get
no_new_keys_example =
    no_new_keys tree_json list_host home (codes "tok") (codes "@a:b") (codes "D")
      (some (some (codes "other"))) (manager []) refl refl (λ e. ground arith)

served_has_published_key_example : HasKey tree_json list_host home (codes "D") (
    insert_locked tree_json list_host home
      (codes "tok")
      (codes "@a:b")
      (codes "D")
      (some (some (codes "D")))
      (manager (codes "D" ∷ [])))
unfolding Map.get
served_has_published_key_example =
    served_has_published_key tree_json list_host home (codes "D") (codes "tok") (codes "@a:b")
      (codes "D") (manager (codes "D" ∷ [])) refl

dispatch-HeldBack_example :
    (dispatch tree_json list_host home answers Route.sync (some (codes "tok")) (manager [])).1
    ≡ Handling.refused (
        ProxyError.device_conflict
          (record { user_id = codes "@a:b"; device_id = codes "D"; store = none }))
unfolding get_or_init Map.get ement_e2ee.Json.index Text-discrete
    ement_e2ee.Session.Device.published_identity
dispatch-HeldBack_example =
    dispatch-HeldBack tree_json list_host home answers
      (ProxyError.device_conflict
        (record { user_id = codes "@a:b"; device_id = codes "D"; store = none }))
      Route.sync (codes "tok") (manager []) tt refl
