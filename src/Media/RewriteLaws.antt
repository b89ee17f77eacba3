-- ===== src/Media/RewriteLaws.antt =====
-- What the rewriting of src/crypto/media.rs does to a message's `url` and `file`.
use ement_e2ee.Prelude.{
  ◌≡◌, ◌≢◌, refl, ◌∙◌, Option, none, some, [], ◌∷◌, ◌>>=?◌, Text, codes, Text-discrete, arith, eqb,
  if◌then◌else◌, Option-cases, inl, inr,
}
use ement_e2ee.Prelude.Map
use ement_e2ee.Prelude.Map.{Map, get-insert, get-insert_ne, get-insert_same, get-remove}
use ement_e2ee.Json
use ement_e2ee.Json.{Json}
use ement_e2ee.Media.Cache.{MediaHost, MediaEntry, insert}
use ement_e2ee.Media.Rewrite.{
  or_insert, modify, info_object, mimetype_in, with_mimetype, rewrite_entry,
  rewrite_content_for_encrypted_room, fill_info, as_file, harvest_thumbnail, harvest_member,
  harvest_content, harvest_and_rewrite_decrypted, harvest_file, replace_key,
}

get-or_insert_ne {ℓ} :
    {V : Type ℓ} (k j : Text) (v : V) (m : Map Text V)
    → j ≢ k
    → Map.get Text-discrete j (or_insert k v m) ≡ Map.get Text-discrete j m
unfolding or_insert
get-or_insert_ne k j v m d = ground (arith, get-insert Text-discrete k j v m)

module _ (J : Json) (H : MediaHost J) where
  open J use {Value, string, object, as_str, as_object, as_object-object}
  open H use {Info, Db, put, look, file_of, parse_file, parse_file-file_of}

  get-modify_ne :
      (j k : Text) (f : Value → Value) (m : Map Text Value)
      → k ≢ j
      → Map.get Text-discrete k (modify J H j f m) ≡ Map.get Text-discrete k m
  get-modify_ne j k f m d = elim (Option-cases (Map.get Text-discrete j m)) [
    | inl e ↦ rw (modify, e) refl
    | inr (v, e) ↦ rw (modify, e) (get-insert_ne Text-discrete j k (f v) m d)
  ]

  get-with_mimetype_ne :
      (mimetype : Option Text) (k : Text) (m : Map Text Value)
      → k ≢ codes "info"
      → Map.get Text-discrete k (with_mimetype J H mimetype m) ≡ Map.get Text-discrete k m
  unfolding with_mimetype or_insert fill_info
  get-with_mimetype_ne none k m d = refl
  get-with_mimetype_ne (some t) k m d =
      get-modify_ne (codes "info") k (fill_info J H t) (or_insert (codes "info") (object []) m) d
      ∙ get-or_insert_ne (codes "info") k (object []) m d

  get-harvest_thumbnail_ne :
      (k : Text) (m : Map Text Value) (db : Db)
      → k ≢ codes "info"
      → Map.get Text-discrete k (harvest_thumbnail J H m db).1 ≡ Map.get Text-discrete k m
  unfolding harvest_thumbnail
  get-harvest_thumbnail_ne k m db d = elim (Option-cases (info_object J H m)) [
    | inl e ↦ rw (harvest_thumbnail, e) refl
    | inr (info, e) ↦ rw (harvest_thumbnail, e) (get-insert_ne Text-discrete (codes "info") k _ m d)
  ]

  get-replace_key_ne :
      (file url k : Text) (mxc : Option Text) (m : Map Text Value)
      → k ≢ file
      → k ≢ url
      → Map.get Text-discrete k (replace_key J H file url mxc m) ≡ Map.get Text-discrete k m
  get-replace_key_ne file url k none m d e = refl
  get-replace_key_ne file url k (some mxc) m d e =
      get-insert_ne Text-discrete url k (string mxc) (Map.remove Text-discrete file m) e
      ∙ ground (arith, get-remove Text-discrete file k m, d)

  get-harvest_member_ne :
      (file url k : Text) (mimetype filename : Option Text) (m : Map Text Value) (db : Db)
      → k ≢ file
      → k ≢ url
      → Map.get Text-discrete k (harvest_member J H file url mimetype filename m db).1
        ≡ Map.get Text-discrete k m
  unfolding harvest_member
  get-harvest_member_ne file url k mimetype filename m db d e =
      elim (Option-cases (Map.get Text-discrete file m)) [
        | inl f ↦ rw (harvest_member, f) refl
        | inr (value, f) ↦
            rw (harvest_member, f)
              (get-replace_key_ne file url k (harvest_file J H value mimetype filename db).1 m d e)
      ]

  -- The harvest leaves every member of a content but `file`, `url` and `info`.
  pub get-harvest_content_ne :
      (k : Text) (m : Map Text Value) (db : Db)
      → k ≢ codes "file"
      → k ≢ codes "url"
      → k ≢ codes "info"
      → Map.get Text-discrete k (harvest_content J H m db).1 ≡ Map.get Text-discrete k m
  unfolding harvest_content
  get-harvest_content_ne k m db d e f =
      get-harvest_thumbnail_ne k _ _ f
      ∙ get-harvest_member_ne (codes "file") (codes "url") k (mimetype_in J H (codes "info") m) _ m
          db d e

  -- What a message with an uploaded attachment becomes: the members it has where it is rewritten.
  rewrite_entry-object :
      (mxc : Text) (entry : MediaEntry Info) (content : Value) (m file : Map Text Value)
      → as_object content ≡ some m
      → file_of entry.info ≡ some file
      → as_object (rewrite_entry J H mxc entry content)
        ≡ some (with_mimetype J H entry.mimetype (as_file J H mxc file m))
  unfolding rewrite_entry
  rewrite_entry-object mxc entry content m file h f = rw (rewrite_entry, f, h) (as_object-object _)

  get-as_file :
      (mxc : Text) (file m : Map Text Value)
      → (Map.get Text-discrete (codes "url") (as_file J H mxc file m) ≡ none)
        × (Map.get Text-discrete (codes "file") (as_file J H mxc file m)
            ≡ some (object (Map.insert Text-discrete (codes "url") (string mxc) file)))
  unfolding as_file
  get-as_file mxc file m =
      let bare = Map.remove Text-discrete (codes "url") m in
      let value = object (Map.insert Text-discrete (codes "url") (string mxc) file) in
      (
        ground (
          arith,
          get-insert Text-discrete (codes "file") (codes "url") value bare,
          get-remove Text-discrete (codes "url") (codes "url") m,
        ),
        ground (arith, get-insert Text-discrete (codes "file") (codes "file") value bare),
      )

  -- The members of a message whose attachment's key is known, after it is rewritten.
  abbrev pub sealed_content :
      Text → MediaEntry Info → Map Text Value → Map Text Value → Map Text Value
  sealed_content mxc entry file m = with_mimetype J H entry.mimetype (as_file J H mxc file m)

  get-sealed_content :
      (mxc : Text) (entry : MediaEntry Info) (file m : Map Text Value)
      → (Map.get Text-discrete (codes "url") (sealed_content mxc entry file m) ≡ none)
        × (Map.get Text-discrete (codes "file") (sealed_content mxc entry file m)
            ≡ some (object (Map.insert Text-discrete (codes "url") (string mxc) file)))
  get-sealed_content mxc entry file m = (
    get-with_mimetype_ne entry.mimetype (codes "url") (as_file J H mxc file m) (ground arith)
        ∙ (get-as_file mxc file m).0,
    get-with_mimetype_ne entry.mimetype (codes "file") (as_file J H mxc file m) (ground arith)
        ∙ (get-as_file mxc file m).1,
  )

  rewritten-object :
      (db : Db) (content : Value) (m file : Map Text Value) (mxc : Text) (entry : MediaEntry Info)
      → as_object content ≡ some m
      → Json.get_str J (codes "url") content ≡ some mxc
      → look mxc db ≡ some entry
      → file_of entry.info ≡ some file
      → as_object (rewrite_content_for_encrypted_room J H db content)
        ≡ some (sealed_content mxc entry file m)
  unfolding rewrite_content_for_encrypted_room
  rewritten-object db content m file mxc entry o u l f =
      rw (rewrite_content_for_encrypted_room, u, l)
        (rewrite_entry-object mxc entry content m file o f)

  -- The member that a rewritten message has under a key.
  abbrev pub sealed_member : Text → Text → Map Text Value → Map Text Value → Option Value
  sealed_member k mxc file m =
      if eqb k (codes "url")
      then none
      else if eqb k (codes "file")
      then some (object (Map.insert Text-discrete (codes "url") (string mxc) file))
      else Map.get Text-discrete k m

  get-as_file_lem :
      (mxc : Text) (file m : Map Text Value) (k : Text)
      → Map.get Text-discrete k (as_file J H mxc file m) ≡ sealed_member k mxc file m
  unfolding as_file
  get-as_file_lem mxc file m k = ground (
    arith,
    get-insert Text-discrete (codes "file") k
        (object (Map.insert Text-discrete (codes "url") (string mxc) file))
        (Map.remove Text-discrete (codes "url") m),
    get-remove Text-discrete (codes "url") k m,
  )

  -- A message whose `url` names an upload of which the key is known leaves for an encrypted room
  -- without the `url`, with the key and the same URL in its `file`, and with its other members but
  -- `info` as they were.
  pub rewritten_content_sealed :
      (db : Db) (content : Value) (m file : Map Text Value) (mxc k : Text) (entry : MediaEntry Info)
      → as_object content ≡ some m
      → Json.get_str J (codes "url") content ≡ some mxc
      → look mxc db ≡ some entry
      → file_of entry.info ≡ some file
      → k ≢ codes "info"
      → Json.get J k (rewrite_content_for_encrypted_room J H db content)
        ≡ sealed_member k mxc file m
  unfolding Json.get
  rewritten_content_sealed db content m file mxc k entry o u l f i =
      rw (Json.get, rewritten-object db content m file mxc entry o u l f)
        (get-with_mimetype_ne entry.mimetype k (as_file J H mxc file m) i
          ∙ get-as_file_lem mxc file m k)

  harvest_member_done :
      (mimetype filename : Option Text) (m : Map Text Value) (db after : Db) (value : Value)
      (url : Text) (info : Info)
      → Map.get Text-discrete (codes "file") m ≡ some value
      → parse_file value ≡ some (url, info)
      → put url (record { info = info; mimetype = mimetype; filename = filename }) db ≡ some after
      → harvest_member J H (codes "file") (codes "url") mimetype filename m db ≡ (
        after,
        Map.insert Text-discrete
            (codes "url")
            (string url)
            (Map.remove Text-discrete (codes "file") m),
      )
  unfolding harvest_member harvest_file insert
  harvest_member_done mimetype filename m db after value url info g p d =
      rw (harvest_member, g) (rw (harvest_file, p) (rw d refl))

  get-restored :
      (mxc : Text) (m : Map Text Value)
      → let restored =
          Map.insert Text-discrete
            (codes "url")
            (string mxc)
            (Map.remove Text-discrete (codes "file") m) in
        (Map.get Text-discrete (codes "url") restored ≡ some (string mxc))
        × (Map.get Text-discrete (codes "file") restored ≡ none)
  get-restored mxc m =
      let bare = Map.remove Text-discrete (codes "file") m in
      (
        get-insert_same Text-discrete (codes "url") (string mxc) bare,
        ground (
          arith,
          get-insert Text-discrete (codes "url") (codes "file") (string mxc) bare,
          get-remove Text-discrete (codes "file") (codes "file") m,
        ),
      )

  -- A table that takes in every key for this URL.
  abbrev pub Accepts : Text → Db → Type 0
  Accepts mxc db = (e : MediaEntry Info) → (after : Db) × (put mxc e db ≡ some after)

  harvest_content-restores :
      (m : Map Text Value) (db : Db) (value : Value) (mxc : Text) (info : Info)
      → Map.get Text-discrete (codes "file") m ≡ some value
      → parse_file value ≡ some (mxc, info)
      → Accepts mxc db
      → (Map.get Text-discrete (codes "url") (harvest_content J H m db).1 ≡ some (string mxc))
        × (Map.get Text-discrete (codes "file") (harvest_content J H m db).1 ≡ none)
  unfolding harvest_content
  harvest_content-restores m db value mxc info g p accepts =
      let mimetype = mimetype_in J H (codes "info") m in
      let filename = Map.get Text-discrete (codes "body") m >>=? as_str in
      let (after, put_in) =
        accepts (record { info = info; mimetype = mimetype; filename = filename }) in
      let restored =
        Map.insert Text-discrete (codes "url") (string mxc)
          (Map.remove Text-discrete (codes "file") m) in
      rw
        (
          harvest_content,
          harvest_member_done mimetype filename m db after value mxc info g p put_in,
        )
        (
          get-harvest_thumbnail_ne (codes "url") restored after (ground arith)
              ∙ (get-restored mxc m).0,
          get-harvest_thumbnail_ne (codes "file") restored after (ground arith)
              ∙ (get-restored mxc m).1,
        )

  -- A message that was rewritten for an encrypted room, and is then received and decrypted, where
  -- the table takes in the key: it has the `url` again that it was sent with, and no `file`.
  pub harvest-rewritten :
      (db other : Db) (content event : Value) (m file : Map Text Value) (mxc : Text)
      (entry : MediaEntry Info)
      → as_object content ≡ some m
      → Json.get_str J (codes "url") content ≡ some mxc
      → look mxc db ≡ some entry
      → file_of entry.info ≡ some file
      → Json.get J (codes "content") event
        ≡ some (rewrite_content_for_encrypted_room J H db content)
      → Accepts mxc other
      → (Json.pointer J
            (codes "content" ∷ codes "url" ∷ [])
            (harvest_and_rewrite_decrypted J H event other).1
          ≡ some (string mxc))
        × (Json.pointer J
              (codes "content" ∷ codes "file" ∷ [])
              (harvest_and_rewrite_decrypted J H event other).1
            ≡ none)
  unfolding harvest_and_rewrite_decrypted Json.pointer Json.get
  harvest-rewritten db other content event m file mxc entry o u l f g accepts =
      let sealed = sealed_content mxc entry file m in
      let (url, no_file) =
        harvest_content-restores sealed other _ mxc entry.info
          (get-sealed_content mxc entry file m).1 (parse_file-file_of entry.info file mxc f)
          accepts in
      let changed = (harvest_content J H sealed other).1 in
      rw (harvest_and_rewrite_decrypted, g)
        (rw (rewritten-object db content m file mxc entry o u l f) (
          rw (Json.pointer, Json.get-set J (codes "content") (object changed) event _ g)
              (rw (Json.pointer, Json.get, as_object-object changed) (rw url refl)),
          rw (Json.pointer, Json.get-set J (codes "content") (object changed) event _ g)
              (rw (Json.pointer, Json.get, as_object-object changed) (rw no_file refl)),
        ))
