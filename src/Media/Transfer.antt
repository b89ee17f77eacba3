-- ===== src/Media/Transfer.antt =====
-- `handle_upload`, `handle_download` and `reupload_plaintext_if_needed` of src/crypto/media.rs. The
-- homeserver's media repository is given by its answers, `none` where a request fails; `parse` is
-- `serde_json::from_slice`, `dec` the percent decoding, and `enc` is `machine::enc`.
use ement_e2ee.Prelude.{
  ℕ, Option, none, some, List, [], ◌∷◌, ◌++◌, Text, codes, if◌then◌else◌, ◌>>=?◌, unwrap_or,
}
use ement_e2ee.Prelude.Str.{split, split_once, strip_prefix}
use ement_e2ee.Json
use ement_e2ee.Json.{Json}
use ement_e2ee.Http.{is_success}
use ement_e2ee.Proxy.Error.{ProxyError}
use ement_e2ee.Media.Cache.{
  MediaHost, MediaEntry, insert, get, encrypt_attachment, decrypt_attachment,
}

-- What the client is answered: the status, the content type, the name for the disposition, the body.
pub data Answer : Type 0 where
  raw : ℕ → Option Text → Text → Answer
  decrypted : Text → Option Text → Text → Answer
  failed : ProxyError → Answer

-- `/_matrix/media/v3/upload` with a content type, a file name and a body.
pub record Upload : Type 0 where
  pub content_type : Text
  pub filename : Option Text
  pub body : Text

-- A download's status, content type and body.
pub record Download : Type 0 where
  pub status : ℕ
  pub content_type : Option Text
  pub bytes : Text

abbrev pub octet_stream : Text
octet_stream = codes "application/octet-stream"

unfoldable pub filename_in : (Text → Text) → List Text → Option Text
filename_in dec [] = none
filename_in dec (pair ∷ pairs) = elim (strip_prefix (codes "filename=") pair) [
  | none ↦ filename_in dec pairs
  | some v ↦ some (dec v)
]

abbrev pub mxc_uri : Text → Text → Text
mxc_uri server media_id = codes "mxc://" ++ server ++ b'/' ∷ media_id

module _ (J : Json) (H : MediaHost J) (parse : Text → Option (Json.Value J))
    (dec enc : Text → Text) where
  open J use {Value, string}
  open H use {Info, Seed, Db, valid_header}

  abbrev pub content_uri : Text → Option Text
  content_uri bytes = parse bytes >>=? Json.get_str J (codes "content_uri")

  -- The ciphertext, of an opaque type and without a name.
  abbrev pub sealed_upload : Text → Upload
  sealed_upload sealed = record { content_type = octet_stream; filename = none; body = sealed }

  unfoldable pub remember : Info → Option Text → Option Text → ℕ → Text → Db → Db × Answer
  unfolding insert
  remember info mimetype filename status bytes db = elim (content_uri bytes) [
    | none ↦ (db, raw status (some (codes "application/json")) bytes)
    | some mxc ↦ elim (insert J H mxc info mimetype filename db) [
      | none ↦ (db, failed ProxyError.internal)
      | some after ↦ (after, raw status (some (codes "application/json")) bytes)
    ]
  ]

  -- The upload is cut off above 512 MiB before this; `req` is the body that was read.
  unfoldable pub handle_upload :
      Seed → (Upload → Option (ℕ × Text)) → Text → Option Text → Text → Db → Db × Answer
  unfolding remember filename_in
  handle_upload seed send query content_type req db = elim (encrypt_attachment J H seed req) [
    | none ↦ (db, failed ProxyError.internal)
    | some (sealed, info) ↦ elim (send (sealed_upload sealed)) [
      | none ↦ (db, failed ProxyError.upstream)
      | some (status, bytes) ↦
          if is_success status
          then remember info content_type (filename_in dec (split b'&' query)) status bytes db
          else (db, raw status (some (codes "application/json")) bytes)
    ]
  ]

  abbrev pub download_path : Text → Text → Text
  download_path server media_id =
      codes "/_matrix/client/v1/media/download/" ++ enc server ++ b'/' ∷ enc media_id

  -- A mimetype that is no header value gives way to the opaque one.
  unfoldable pub header_or_opaque : Option Text → Text
  header_or_opaque none = octet_stream
  header_or_opaque (some m) = if valid_header m then m else octet_stream

  abbrev pub disposition : Option Text → Option Text
  disposition none = none
  disposition (some filename) =
      let header = codes "inline; filename=\"" ++ filename ++ codes "\"" in
      if valid_header header then some header else none

  unfoldable pub opened : MediaEntry Info → Text → Answer
  unfolding header_or_opaque
  opened entry bytes = elim (decrypt_attachment J H bytes entry.info) [
    | none ↦ failed ProxyError.internal
    | some plain ↦ decrypted (header_or_opaque entry.mimetype) (disposition entry.filename) plain
  ]

  unfoldable pub relay_or_open : Option (MediaEntry Info) → Download → Answer
  unfolding opened
  relay_or_open none d = raw d.status d.content_type d.bytes
  relay_or_open (some entry) d =
      if is_success d.status then opened entry d.bytes else raw d.status d.content_type d.bytes

  unfoldable pub handle_download : (Text → Option Download) → Text → Text → Db → Answer
  unfolding relay_or_open
  handle_download fetch server media_id db = elim (fetch (download_path server media_id)) [
    | none ↦ failed ProxyError.upstream
    | some d ↦ relay_or_open (get J H (mxc_uri server media_id) db) d
  ]

  unfoldable pub upload_plain :
      (Upload → Option (ℕ × Text)) → MediaEntry Info → Text → Value → Option Value
  upload_plain send entry plain content =
      elim (send (record {
        content_type = unwrap_or entry.mimetype octet_stream;
        filename = entry.filename;
        body = plain;
      })) [
        | none ↦ none
        | some (status, bytes) ↦
            if is_success status
            then (content_uri bytes >>=? λ new_mxc.
                some (Json.set J (codes "url") (string new_mxc) content))
            else none
      ]

  unfoldable pub reupload :
      (Text → Option Download)
      → (Upload → Option (ℕ × Text))
      → Text
      → MediaEntry Info
      → Value
      → Option Value
  unfolding upload_plain
  reupload fetch send mxc entry content =
      strip_prefix (codes "mxc://") mxc >>=? split_once b'/' >>=? λ (server, media_id).
      fetch (download_path server media_id) >>=? λ d.
      if is_success d.status
      then (decrypt_attachment J H d.bytes entry.info >>=? λ plain.
          upload_plain send entry plain content)
      else none

  -- The content afterwards, or `none` for an error.
  unfoldable pub reupload_plaintext_if_needed :
      (Text → Option Download) → (Upload → Option (ℕ × Text)) → Db → Value → Option Value
  unfolding reupload
  reupload_plaintext_if_needed fetch send db content = elim (Json.get_str J (codes "url") content) [
    | none ↦ some content
    | some mxc ↦ elim (get J H mxc db) [
      | none ↦ some content
      | some entry ↦ reupload fetch send mxc entry content
    ]
  ]
