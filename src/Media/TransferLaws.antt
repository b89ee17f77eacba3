-- ===== src/Media/TransferLaws.antt =====
-- What is uploaded through the proxy comes back as it was: src/crypto/media.rs.
use ement_e2ee.Prelude.{ℕ, ◌≡◌, refl, true, Option, some, Text}
use ement_e2ee.Prelude.Str.{split}
use ement_e2ee.Json.{Json}
use ement_e2ee.Http.{is_success}
use ement_e2ee.Media.Cache.{MediaHost, MediaEntry, insert}
use ement_e2ee.Media.Transfer.{
  Answer, Upload, Download, handle_upload, handle_download, remember, opened, relay_or_open,
  sealed_upload, content_uri, mxc_uri, download_path, header_or_opaque, disposition, filename_in,
}
use Answer.{decrypted}

module _ (J : Json) (H : MediaHost J) (parse : Text → Option (Json.Value J))
    (dec enc : Text → Text) where
  open H use {Info, Seed, Db, encrypt, decrypt, look, put, look-put, decrypt-encrypt}

  -- The entry that an upload leaves in the table.
  abbrev pub uploaded : Info → Option Text → Text → MediaEntry Info
  uploaded info content_type query = record {
    info = info;
    mimetype = content_type;
    filename = filename_in dec (split b'&' query);
  }

  handle_upload-db :
      (seed : Seed) (send : Upload → Option (ℕ × Text)) (query : Text) (content_type : Option Text)
      (req sealed bytes mxc : Text) (info : Info) (status : ℕ) (db after : Db)
      → encrypt seed req ≡ some (sealed, info)
      → send (sealed_upload J H parse dec enc sealed) ≡ some (status, bytes)
      → is_success status ≡ true
      → content_uri J H parse dec enc bytes ≡ some mxc
      → put mxc (uploaded info content_type query) db ≡ some after
      → (handle_upload J H parse dec enc seed send query content_type req db).0 ≡ after
  unfolding handle_upload remember insert
  handle_upload-db seed send query content_type req sealed bytes mxc info status db after e s g u
        p =
      rw (handle_upload, e) (rw (s) (rw (remember, g, u) (rw p refl)))

  handle_download-opens :
      (fetch : Text → Option Download) (server media_id plain : Text) (entry : MediaEntry Info)
      (d : Download) (db : Db)
      → fetch (download_path J H parse dec enc server media_id) ≡ some d
      → is_success d.status ≡ true
      → look (mxc_uri server media_id) db ≡ some entry
      → decrypt d.bytes entry.info ≡ some plain
      → handle_download J H parse dec enc fetch server media_id db
        ≡ decrypted
            (header_or_opaque J H parse dec enc entry.mimetype)
            (disposition J H parse dec enc entry.filename)
            plain
  unfolding handle_download relay_or_open opened
  handle_download-opens fetch server media_id plain entry d db f g l o =
      rw (handle_download, f, l) (rw (g) (rw (opened, o) refl))

  -- What is uploaded with success, and is downloaded again from where the homeserver put it, comes
  -- back decrypted as it was, with the content type and the file name of the upload as far as they
  -- can stand in a header, when the homeserver gives back the bytes that it was sent.
  pub upload_download :
      (seed : Seed) (send : Upload → Option (ℕ × Text)) (fetch : Text → Option Download)
      (query : Text) (content_type : Option Text) (req sealed bytes server media_id : Text)
      (info : Info) (status : ℕ) (d : Download) (db after : Db)
      → encrypt seed req ≡ some (sealed, info)
      → send (sealed_upload J H parse dec enc sealed) ≡ some (status, bytes)
      → is_success status ≡ true
      → content_uri J H parse dec enc bytes ≡ some (mxc_uri server media_id)
      → put (mxc_uri server media_id) (uploaded info content_type query) db ≡ some after
      → fetch (download_path J H parse dec enc server media_id) ≡ some d
      → is_success d.status ≡ true
      → d.bytes ≡ sealed
      → handle_download J H parse dec enc fetch server media_id
          (handle_upload J H parse dec enc seed send query content_type req db).0
        ≡ decrypted
            (header_or_opaque J H parse dec enc content_type)
            (disposition J H parse dec enc (filename_in dec (split b'&' query)))
            req
  upload_download seed send fetch query content_type req sealed bytes server media_id info status d
        db after e s g u p f o b =
      rw
        (handle_upload-db seed send query content_type req sealed bytes _ info status db after e s g
          u p)
        (handle_download-opens fetch server media_id req (uploaded info content_type query) d after
          f o (look-put _ _ db after p) (rw b (decrypt-encrypt seed req sealed info e)))
