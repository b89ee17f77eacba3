-- ===== src/Examples/Crypto.antt =====
-- Attachments that are sealed by their key's number, and events that decrypt where they say so.
use ement_e2ee.Prelude.{
  ℕ, ◌≡◌, refl, sym, ap, subst, ◌∙◌, ◌==◌, Bool, true, false, Option, none, some, [], ◌∷◌, Text,
  codes, Text-discrete, arith, if◌then◌else◌, ◌>>=?◌, some_inj, Option-cases, inl, inr,
}
use ement_e2ee.Prelude.Map
use ement_e2ee.Prelude.Map.{Map, get-insert_same}
use ement_e2ee.Json
use ement_e2ee.Json.{Json}
use ement_e2ee.Sdk.{RoomSettings}
use ement_e2ee.Media.Cache.{MediaHost, MediaEntry}
use ement_e2ee.Decrypt.Event.{DecryptSdk, Tried}
use ement_e2ee.Examples.Tree.{Tree, leaf, count, text, tree_json, object_of}
use ement_e2ee.Examples.Rooming.{table_sdk}
use Tried.{plain, unable}

abbrev pub open_with : Text → ℕ → Option Text
open_with [] i = none
open_with (c ∷ s) i = if c == i then some s else none

pub open_sealed :
    (seed : ℕ) (s sealed : Text) (i : ℕ)
    → ◌≡◌ {A = Option (Text × ℕ)} (some (seed ∷ s, seed)) (some (sealed, i))
    → open_with sealed i ≡ some s
open_sealed seed s sealed i h =
    subst (λ p. open_with p.0 p.1 ≡ some s) (some_inj _ _ h) (ground arith)

abbrev pub file_members : ℕ → Map Text Tree
file_members i = (codes "k", count i) ∷ []

abbrev pub parse_file_value : Tree → Option (Text × ℕ)
parse_file_value v = Json.get_str tree_json (codes "url") v >>=? λ url.
    Json.get tree_json (codes "k") v >>=? λ k. Json.as_u64 tree_json k >>=? λ i. some (url, i)

pub parsed_back :
    (i : ℕ) (m : Map Text Tree) (url : Text)
    → some (file_members i) ≡ some m
    → parse_file_value (object_of (Map.insert Text-discrete (codes "url") (text url) m))
      ≡ some (url, i)
unfolding Json.get Json.get_str Map.get Map.insert Map.remove Text-discrete
parsed_back i m url h =
    subst
      (λ t.
        parse_file_value (object_of (Map.insert Text-discrete (codes "url") (text url) t))
        ≡ some (url, i))
      (some_inj _ _ h) refl

pub put_back :
    (m : Text) (e : MediaEntry ℕ) (d d' : Map Text (MediaEntry ℕ))
    → some (Map.insert Text-discrete m e d) ≡ some d'
    → Map.get Text-discrete m d' ≡ some e
put_back m e d d' h =
    subst (λ t. Map.get Text-discrete m t ≡ some e) (some_inj _ _ h)
      (get-insert_same Text-discrete m e d)

abbrev pub media_host : MediaHost tree_json
media_host = record {
  Info = ℕ;
  Seed = ℕ;
  Db = Map Text (MediaEntry ℕ);
  put = λ m e d. some (Map.insert Text-discrete m e d);
  look = λ m d. Map.get Text-discrete m d;
  encrypt = λ seed s. some (seed ∷ s, seed);
  decrypt = open_with;
  file_of = λ i. some (file_members i);
  parse_file = parse_file_value;
  valid_header = λ s. true;
  look-put = put_back;
  decrypt-encrypt = open_sealed;
  parse_file-file_of = parsed_back;
}

abbrev pub attempt : Tree → Tried Tree
attempt raw = elim (Json.get tree_json (codes "open") raw) [
  | none ↦ unable (codes "MissingRoomKey") (Json.get_str tree_json (codes "session") raw)
  | some _ ↦
      plain (some (Json.set tree_json (codes "type") (text (codes "m.room.message")) raw)) leaf
]

abbrev plain_of : Tried Tree → Tree
plain_of (plain (some v) info) = v
plain_of _ = leaf

attempt-id :
    (raw v info : Tree)
    → attempt raw ≡ plain (some v) info
    → Json.get tree_json (codes "event_id") v ≡ Json.get tree_json (codes "event_id") raw
attempt-id raw v info h = elim (Option-cases (Json.get tree_json (codes "open") raw)) [
  | inl e ↦ absurd (ground arith)
  | inr (o, e) ↦
      let same = ap plain_of (rw (attempt, e) at h) in
      subst
        (λ t. Json.get tree_json (codes "event_id") t ≡ Json.get tree_json (codes "event_id") raw)
        same
        (Json.get-set_ne tree_json (codes "type") (codes "event_id") (text (codes "m.room.message"))
          raw (ground arith))
]

pub kept_id :
    (event raw : Tree) (room : Text) (olm after : Map Text (RoomSettings Text)) (v info : Tree)
    → some event ≡ some raw
    → ◌≡◌ {A = Map Text (RoomSettings Text) × Tried Tree}
        (olm, attempt raw)
        (after, plain (some v) info)
    → Json.get tree_json (codes "event_id") v ≡ Json.get tree_json (codes "event_id") event
kept_id event raw room olm after v info p t =
    attempt-id raw v info (ap (λ x. x.1) t)
    ∙ ap (λ e. Json.get tree_json (codes "event_id") e) (sym (some_inj event raw p))

abbrev pub decrypt_sdk : DecryptSdk tree_json table_sdk
decrypt_sdk = record {
  Encrypted = Tree;
  Message = Tree;
  parse_encrypted = some;
  parse_message = some;
  try_decrypt_room_event = λ raw room olm. (olm, attempt raw);
  receive_verification_event = λ message olm. olm;
  event_id_kept = kept_id;
}

-- A machine that decrypts an event where it has the room's settings, which stand for its key.
abbrev pub keyed_attempt : Bool → Tree → Tried Tree
keyed_attempt false raw =
    unable (codes "MissingRoomKey") (Json.get_str tree_json (codes "session") raw)
keyed_attempt true raw =
    plain (some (Json.set tree_json (codes "type") (text (codes "m.room.message")) raw)) leaf

keyed_attempt-id :
    (has_key : Bool) (raw v info : Tree)
    → keyed_attempt has_key raw ≡ plain (some v) info
    → Json.get tree_json (codes "event_id") v ≡ Json.get tree_json (codes "event_id") raw
keyed_attempt-id false raw v info h = absurd (ground arith)
keyed_attempt-id true raw v info h =
    subst (λ t. Json.get tree_json (codes "event_id") t ≡ Json.get tree_json (codes "event_id") raw)
      (ap plain_of h)
      (Json.get-set_ne tree_json (codes "type") (codes "event_id") (text (codes "m.room.message"))
        raw (ground arith))

pub keyed_id :
    (event raw : Tree) (room : Text) (olm after : Map Text (RoomSettings Text)) (v info : Tree)
    → some event ≡ some raw
    → ◌≡◌ {A = Map Text (RoomSettings Text) × Tried Tree}
        (olm, keyed_attempt (Map.contains_key Text-discrete room olm) raw)
        (after, plain (some v) info)
    → Json.get tree_json (codes "event_id") v ≡ Json.get tree_json (codes "event_id") event
keyed_id event raw room olm after v info p t =
    keyed_attempt-id (Map.contains_key Text-discrete room olm) raw v info (ap (λ x. x.1) t)
    ∙ ap (λ e. Json.get tree_json (codes "event_id") e) (sym (some_inj event raw p))

abbrev pub keyed_sdk : DecryptSdk tree_json table_sdk
keyed_sdk = record {
  Encrypted = Tree;
  Message = Tree;
  parse_encrypted = some;
  parse_message = some;
  try_decrypt_room_event =
      λ raw room olm. (olm, keyed_attempt (Map.contains_key Text-discrete room olm) raw);
  receive_verification_event = λ message olm. olm;
  event_id_kept = keyed_id;
}
