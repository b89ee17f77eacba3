-- ===== src/Media/Rewrite.antt =====
-- `rewrite_content_for_encrypted_room`, `harvest_and_rewrite_decrypted` and `harvest_file` of
-- src/crypto/media.rs: a message's `url` becomes a `file` with its key on the way out, and back on
-- the way in.
use ement_e2ee.Prelude.{
  Option, none, some, [], Text, codes, Text-discrete, ◌>>=?◌, is_some, if◌then◌else◌,
}
use ement_e2ee.Prelude.Map
use ement_e2ee.Prelude.Map.{Map}
use ement_e2ee.Json
use ement_e2ee.Json.{Json}
use ement_e2ee.Media.Cache.{MediaHost, MediaEntry, insert, get}

-- `entry(key).or_insert(value)`
unfoldable pub or_insert {ℓ} : {V : Type ℓ} → Text → V → Map Text V → Map Text V
or_insert k v m = if is_some (Map.get Text-discrete k m) then m else Map.insert Text-discrete k v m

module _ (J : Json) (H : MediaHost J) where
  open J use {Value, string, object, as_str, as_object}
  open H use {Info, Db, file_of, parse_file}

  abbrev pub member : Text → Map Text Value → Option Value
  member k m = Map.get Text-discrete k m

  -- The mimetype goes into an `info` that is an object and does not have one.
  unfoldable pub fill_info : Text → Value → Value
  unfolding or_insert
  fill_info mimetype info = elim (as_object info) [
    | none ↦ info
    | some i ↦ object (or_insert (codes "mimetype") (string mimetype) i)
  ]

  -- The value under a key, changed in place.
  abbrev pub modify : Text → (Value → Value) → Map Text Value → Map Text Value
  modify k f m = elim (member k m) [ none ↦ m | some v ↦ Map.insert Text-discrete k (f v) m ]

  unfoldable pub with_mimetype : Option Text → Map Text Value → Map Text Value
  unfolding or_insert fill_info
  with_mimetype none content = content
  with_mimetype (some mimetype) content =
      modify (codes "info") (fill_info mimetype) (or_insert (codes "info") (object []) content)

  unfoldable pub as_file : Text → Map Text Value → Map Text Value → Map Text Value
  as_file mxc file content =
      Map.insert Text-discrete (codes "file")
        (object (Map.insert Text-discrete (codes "url") (string mxc) file))
        (Map.remove Text-discrete (codes "url") content)

  unfoldable pub rewrite_entry : Text → MediaEntry Info → Value → Value
  unfolding with_mimetype as_file
  rewrite_entry mxc entry content = elim (file_of entry.info) [
    | none ↦ content
    | some file ↦ elim (as_object content) [
      | none ↦ content
      | some m ↦ object (with_mimetype entry.mimetype (as_file mxc file m))
    ]
  ]

  unfoldable pub rewrite_content_for_encrypted_room : Db → Value → Value
  unfolding rewrite_entry
  rewrite_content_for_encrypted_room db content = elim (Json.get_str J (codes "url") content) [
    | none ↦ content
    | some mxc ↦ elim (get J H mxc db) [
      | none ↦ content
      | some entry ↦ rewrite_entry mxc entry content
    ]
  ]

  unfoldable pub harvest_file : Value → Option Text → Option Text → Db → Db × Option Text
  unfolding insert
  harvest_file file_value mimetype filename db = elim (parse_file file_value) [
    | none ↦ (db, none)
    | some (url, info) ↦ elim (insert J H url info mimetype filename db) [
      | none ↦ (db, none)
      | some after ↦ (after, some url)
    ]
  ]

  -- The URL of the file that was harvested takes the file's place.
  abbrev pub replace_key : Text → Text → Option Text → Map Text Value → Map Text Value
  replace_key file url none m = m
  replace_key file url (some mxc) m =
      Map.insert Text-discrete url (string mxc) (Map.remove Text-discrete file m)

  unfoldable pub harvest_member :
      Text → Text → Option Text → Option Text → Map Text Value → Db → Db × Map Text Value
  unfolding harvest_file
  harvest_member file url mimetype filename m db = elim (member file m) [
    | none ↦ (db, m)
    | some value ↦
        let (after, mxc) = harvest_file value mimetype filename db in
        (after, replace_key file url mxc m)
  ]

  -- `content.get(key).and_then(|i| i.get("mimetype")).and_then(as_str)`
  abbrev pub mimetype_in : Text → Map Text Value → Option Text
  mimetype_in key m = member key m >>=? Json.get_str J (codes "mimetype")

  abbrev pub info_object : Map Text Value → Option (Map Text Value)
  info_object content = member (codes "info") content >>=? as_object

  unfoldable pub harvest_thumbnail : Map Text Value → Db → Db × Map Text Value
  unfolding harvest_member
  harvest_thumbnail content db = elim (info_object content) [
    | none ↦ (db, content)
    | some info ↦
        let (after, changed) =
          harvest_member (codes "thumbnail_file") (codes "thumbnail_url")
            (mimetype_in (codes "thumbnail_info") info) none info db in
        (after, Map.insert Text-discrete (codes "info") (object changed) content)
  ]

  unfoldable pub harvest_content : Map Text Value → Db → Db × Map Text Value
  unfolding harvest_member harvest_thumbnail
  harvest_content content db =
      let (after, changed) =
        harvest_member (codes "file") (codes "url") (mimetype_in (codes "info") content)
          (member (codes "body") content >>=? as_str) content db in
      harvest_thumbnail changed after

  unfoldable pub harvest_and_rewrite_decrypted : Value → Db → Db × Value
  unfolding harvest_content
  harvest_and_rewrite_decrypted event db =
      elim (Json.get J (codes "content") event >>=? as_object) [
        | none ↦ (db, event)
        | some content ↦
            let (after, changed) = harvest_content content db in
            (after, Json.set J (codes "content") (object changed) event)
      ]
