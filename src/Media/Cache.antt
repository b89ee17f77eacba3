-- ===== src/Media/Cache.antt =====
-- `MediaKeyCache` and `MediaEntry` of src/crypto/media.rs. The table in sqlite is a parameter, and so
-- are the cipher of matrix-sdk-crypto, with the random key and counter that it draws as an argument
-- `Seed`, and the JSON forms of its keys. A key that is stored in the table stays readable there.
use ement_e2ee.Prelude.{◌≡◌, Bool, Option, some, Text}
use ement_e2ee.Prelude.Map
use ement_e2ee.Prelude.Map.{Map}
use ement_e2ee.Prelude.{Text-discrete, codes}
use ement_e2ee.Json.{Json}

pub record MediaEntry (Info : Type 0) : Type 0 where
  pub info : Info
  pub mimetype : Option Text
  pub filename : Option Text

pub record MediaHost (J : Json) : Type 1 where
  pub Info : Type 0
  pub Seed : Type 0
  pub Db : Type 0
  -- `INSERT OR REPLACE` and `SELECT` by the mxc URI; `none` is an error of sqlite.
  pub put : Text → MediaEntry Info → Db → Option Db
  pub look : Text → Db → Option (MediaEntry Info)
  -- `AttachmentEncryptor` and `AttachmentDecryptor`
  pub encrypt : Seed → Text → Option (Text × Info)
  pub decrypt : Text → Info → Option Text
  -- `to_value` of a `MediaEncryptionInfo`, which is a struct, and `from_value` of an `EncryptedFile`,
  -- which is such a struct with the URL.
  pub file_of : Info → Option (Map Text (Json.Value J))
  pub parse_file : Json.Value J → Option (Text × Info)
  -- `HeaderValue::from_str` accepts the text.
  pub valid_header : Text → Bool
  pub look-put :
      (m : Text) (e : MediaEntry Info) (d d' : Db) → put m e d ≡ some d' → look m d' ≡ some e
  pub decrypt-encrypt :
      (seed : Seed) (plain sealed : Text) (i : Info)
      → encrypt seed plain ≡ some (sealed, i)
      → decrypt sealed i ≡ some plain
  pub parse_file-file_of :
      (i : Info) (m : Map Text (Json.Value J)) (url : Text)
      → file_of i ≡ some m
      → parse_file (Json.object J (Map.insert Text-discrete (codes "url") (Json.string J url) m))
        ≡ some (url, i)

module _ (J : Json) (H : MediaHost J) where
  open H use {Info, Seed, Db, put, look, encrypt, decrypt}

  unfoldable pub insert : Text → Info → Option Text → Option Text → Db → Option Db
  insert mxc info mimetype filename db =
      put mxc (record { info = info; mimetype = mimetype; filename = filename }) db

  abbrev pub get : Text → Db → Option (MediaEntry Info)
  get mxc db = look mxc db

  abbrev pub encrypt_attachment : Seed → Text → Option (Text × Info)
  encrypt_attachment seed plain = encrypt seed plain

  abbrev pub decrypt_attachment : Text → Info → Option Text
  decrypt_attachment bytes info = decrypt bytes info
