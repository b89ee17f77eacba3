-- ===== src/Decrypt/EventLaws.antt =====
-- What decryption (src/crypto/decrypt.rs) does to an event's members and to the account.
use ement_e2ee.Prelude.{
  ◌≡◌, ◌≢◌, refl, ap, sym, ◌∙◌, Bool-cases, Option-cases, inl, inr, Option, none, some, [], ◌∷◌,
  Text, codes, Text-discrete, arith, eqb, if◌then◌else◌, or_else, ◌>>=?◌, rewrap, unwrap_or,
}
use ement_e2ee.Prelude.Map
use ement_e2ee.Prelude.Map.{Map, get-insert, get-insert_ne, get-insert_same}
use ement_e2ee.Json
use ement_e2ee.Json.{Json}
use ement_e2ee.Sdk.{Sdk}
use ement_e2ee.Media.Cache.{MediaHost}
use ement_e2ee.Media.Rewrite.{or_insert, harvest_and_rewrite_decrypted, harvest_content}
use ement_e2ee.Media.RewriteLaws.{get-harvest_content_ne}
use ement_e2ee.Decrypt.Placeholder.{unsigned_object}
use ement_e2ee.Decrypt.Event.{
  DecryptSdk, Decryption, Tried, Context, merge_unsigned, marked_unsigned, with_unsigned,
  ready_event, after_try, decrypt, is_encrypted, with_olm, decrypted_marker,
}
use Decryption.{decrypted, undecryptable, untouched}
use Tried.{plain, unable, store_error}

get-or_insert {ℓ} :
    {V : Type ℓ} (k j : Text) (v : V) (m : Map Text V)
    → Map.get Text-discrete j (or_insert k v m)
      ≡ or_else
          (Map.get Text-discrete j m)
          (elim (Text-discrete j k) [ yes _ ↦ some v | no _ ↦ none ])
unfolding or_insert
get-or_insert k j v m = elim (Option-cases (Map.get Text-discrete k m)) [
  | inl e ↦ rw e (ground (arith, get-insert Text-discrete k j v m))
  | inr (w, e) ↦ rw e (ground arith)
]

module _ (J : Json) (S : Sdk) (H : MediaHost J) (D : DecryptSdk J S) where
  open J use {Value, string, object, as_object, as_object-object}
  open H use {Db}
  open D use {Encrypted, parse_encrypted, try_decrypt_room_event, event_id_kept}

  abbrev Ctx : Type 0
  Ctx = Context J S H D

  get-merge_unsigned :
      (k : Text) (original new : Map Text Value)
      → Map.get Text-discrete k (merge_unsigned J S H D original new)
        ≡ or_else (Map.get Text-discrete k new) (Map.get Text-discrete k original)
  unfolding merge_unsigned Map.get
  get-merge_unsigned k [] new = ground arith
  get-merge_unsigned k ((j, v) ∷ original) new =
      ground (arith, get-merge_unsigned k original (or_insert j v new), get-or_insert j k v new)

  get-harvested :
      (k : Text) (event : Value) (db : Db)
      → k ≢ codes "content"
      → Json.get J k (harvest_and_rewrite_decrypted J H event db).1 ≡ Json.get J k event
  unfolding harvest_and_rewrite_decrypted
  get-harvested k event db d =
      elim (Option-cases (Json.get J (codes "content") event >>=? as_object)) [
        | inl e ↦ rw (harvest_and_rewrite_decrypted, e) refl
        | inr (content, e) ↦
            rw (harvest_and_rewrite_decrypted, e)
              (Json.get-set_ne J (codes "content") k (object (harvest_content J H content db).1)
                event d)
      ]

  get-with_unsigned_ne :
      (k : Text) (event info : Value) (m : Map Text Value)
      → k ≢ codes "unsigned"
      → Json.get J k (object (with_unsigned J S H D event info m)) ≡ Map.get Text-discrete k m
  unfolding Json.get with_unsigned
  get-with_unsigned_ne k event info m d =
      rw (Json.get, as_object-object (with_unsigned J S H D event info m))
        (get-insert_ne Text-discrete (codes "unsigned") k _ m d)

  get-member :
      (k : Text) (v : Value) (m : Map Text Value)
      → as_object v ≡ some m
      → Map.get Text-discrete k m ≡ Json.get J k v
  unfolding Json.get
  get-member k v m e = rw e refl

  -- A member of `content` that the harvest of media leaves.
  content-harvested :
      (k : Text) (event : Value) (db : Db)
      → k ≢ codes "file"
      → k ≢ codes "url"
      → k ≢ codes "info"
      → (Json.get J (codes "content") (harvest_and_rewrite_decrypted J H event db).1
          >>=? Json.get J k)
        ≡ (Json.get J (codes "content") event >>=? Json.get J k)
  unfolding harvest_and_rewrite_decrypted
  content-harvested k event db d e f = elim (Option-cases (Json.get J (codes "content") event)) [
    | inl g ↦ rw (harvest_and_rewrite_decrypted, g) (rw g refl)
    | inr (content, g) ↦ elim (Option-cases (as_object content)) [
      | inl h ↦ rw (harvest_and_rewrite_decrypted, g, h) (ap (λ o. o >>=? Json.get J k) g)
      | inr (m, h) ↦
          let changed = (harvest_content J H m db).1 in
          rw (harvest_and_rewrite_decrypted, g, h)
            (ap (λ o. o >>=? Json.get J k)
                (Json.get-set J (codes "content") (object changed) event content g)
              ∙ sym (get-member k (object changed) changed (as_object-object changed))
              ∙ get-harvest_content_ne J H k m db d e f
              ∙ get-member k content m h)
    ]
  ]

  get-marked :
      (event info new : Value) (u : Map Text Value) (k : Text)
      → as_object new ≡ some u
      → Json.get J k (marked_unsigned J S H D event info new)
        ≡ Map.get Text-discrete k (
            Map.insert Text-discrete
              (codes "ement_e2ee")
              (decrypted_marker J S H D info)
              (merge_unsigned J S H D (unwrap_or (unsigned_object J event) []) u))
  unfolding Json.get marked_unsigned
  get-marked event info new u k e = rw (marked_unsigned, e) (rw (as_object-object _) refl)

  get-unsigned :
      (event info : Value) (m : Map Text Value) (db : Db)
      → Json.get J
          (codes "unsigned")
          (harvest_and_rewrite_decrypted J H (object (with_unsigned J S H D event info m)) db).1
        ≡ some (
            marked_unsigned J S H D event info
              (unwrap_or (Map.get Text-discrete (codes "unsigned") m) (object [])))
  unfolding Json.get with_unsigned
  get-unsigned event info m db =
      get-harvested (codes "unsigned") _ db (ground arith)
      ∙ rw (Json.get, as_object-object (with_unsigned J S H D event info m))
          (get-insert_same Text-discrete (codes "unsigned") _ m)

  -- The member of `unsigned` under a key: the proxy's own, the decrypted event's or the sent one's.
  abbrev pub unsigned_member : Value → Value → Map Text Value → Text → Option Value
  unsigned_member event info u k =
      if eqb k (codes "ement_e2ee")
      then some (decrypted_marker J S H D info)
      else or_else (Map.get Text-discrete k u)
          (Map.get Text-discrete k (unwrap_or (unsigned_object J event) []))

  get-own_marker :
      (event info : Value) (u : Map Text Value) (k : Text)
      → Map.get Text-discrete k (
          Map.insert Text-discrete
            (codes "ement_e2ee")
            (decrypted_marker J S H D info)
            (merge_unsigned J S H D (unwrap_or (unsigned_object J event) []) u))
        ≡ unsigned_member event info u k
  get-own_marker event info u k =
      let original = unwrap_or (unsigned_object J event) [] in
      ground (
        arith,
        get-insert Text-discrete (codes "ement_e2ee") k (decrypted_marker J S H D info)
            (merge_unsigned J S H D original u),
        get-merge_unsigned k original u,
      )

  -- What the client is shown of an event that decrypts to an object, whose `unsigned` is an object
  -- or missing: the members of the decrypted event, but for `unsigned` and `content`; those of its
  -- `content`, but for `file`, `url` and `info`, where media are; in `unsigned`, those of the
  -- decrypted event and, where it has none of that name, those of the event that was sent, so that
  -- a transaction ID survives; and the proxy's own marker.
  pub decrypted_event_members :
      (event info : Value) (m u : Map Text Value) (c : Ctx) (k i j : Text)
      → as_object (unwrap_or (Map.get Text-discrete (codes "unsigned") m) (object [])) ≡ some u
      → k ≢ codes "unsigned"
      → k ≢ codes "content"
      → i ≢ codes "file"
      → i ≢ codes "url"
      → i ≢ codes "info"
      → (shown : Value) × ((ready_event J S H D event info m c).1 ≡ decrypted shown)
        × (Json.get J k shown ≡ Map.get Text-discrete k m)
        × ((Json.get J (codes "content") shown >>=? Json.get J i)
            ≡ (Map.get Text-discrete (codes "content") m >>=? Json.get J i))
        × (Json.pointer J (codes "unsigned" ∷ j ∷ []) shown ≡ unsigned_member event info u j)
  unfolding ready_event Json.pointer
  decrypted_event_members event info m u c k i j h d e file url media =
      let merged = merge_unsigned J S H D (unwrap_or (unsigned_object J event) []) u in
      (
        (harvest_and_rewrite_decrypted J H (object (with_unsigned J S H D event info m)) c.media).1,
        refl,
        get-harvested k _ c.media e ∙ get-with_unsigned_ne k event info m d,
        content-harvested i _ c.media file url media
            ∙ ap (λ o. o >>=? Json.get J i)
                (get-with_unsigned_ne (codes "content") event info m (ground arith)),
        rw (Json.pointer, get-unsigned event info m c.media)
            (rw (Json.pointer, get-marked event info _ u j h)
              (rewrap _ ∙ get-own_marker event info u j)),
      )

  -- The repair queue is as it was, and a decrypted event has the event's ID.
  abbrev pub Kept : Value → Ctx → Ctx × Decryption Value Encrypted → Type 0
  Kept event c (after, decrypted shown) =
      (after.repairs ≡ c.repairs)
      × (Json.get J (codes "event_id") shown ≡ Json.get J (codes "event_id") event)
  Kept event c (after, _) = after.repairs ≡ c.repairs

  after_try-Kept :
      (event : Value) (raw : Encrypted) (tried : Tried Value) (c : Ctx)
      → ((v info : Value)
          → tried ≡ plain (some v) info
          → Json.get J (codes "event_id") v ≡ Json.get J (codes "event_id") event)
      → Kept event c (after_try J S H D event raw tried c)
  unfolding after_try ready_event Json.get
  after_try-Kept event raw (plain none info) c h = refl
  after_try-Kept event raw (plain (some v) info) c h = elim (Option-cases (as_object v)) [
    | inl e ↦ rw (after_try, e) refl
    | inr (m, e) ↦
        rw (after_try, e)
          (
            refl,
            get-harvested (codes "event_id") _ c.media (ground arith)
                ∙ get-with_unsigned_ne (codes "event_id") event info m (ground arith)
                ∙ get-member (codes "event_id") v m e
                ∙ h v info refl,
          )
  ]
  after_try-Kept event raw (unable reason session_id) c h = refl
  after_try-Kept event raw store_error c h = refl

  pub decrypt-Kept :
      (room : Text) (event : Value) (c : Ctx) → Kept event c (decrypt J S H D room event c)
  unfolding decrypt
  decrypt-Kept room event c = elim (Bool-cases (is_encrypted J S H D event)) [
    | inr other ↦ rw (decrypt, other) refl
    | inl encrypted ↦ elim (Option-cases (parse_encrypted event)) [
      | inl e ↦ rw (decrypt, encrypted, e) refl
      | inr (raw, e) ↦
          let tried = try_decrypt_room_event raw room c.rooms.olm in
          rw (decrypt, encrypted, e)
            (after_try-Kept event raw tried.1 (with_olm J S H D tried.0 c) (λ v info t.
              event_id_kept event raw room c.rooms.olm tried.0 v info e (ap (λ x. (tried.0, x)) t)))
    ]
  ]

  repairs_of_Kept :
      (event : Value) (c after : Ctx) (result : Decryption Value Encrypted)
      → Kept event c (after, result)
      → after.repairs ≡ c.repairs
  repairs_of_Kept event c after (decrypted shown) k = k.0
  repairs_of_Kept event c after (undecryptable reason session_id raw) k = k
  repairs_of_Kept event c after untouched k = k

  pub decrypt-repairs :
      (room : Text) (event : Value) (c : Ctx) → (decrypt J S H D room event c).0.repairs ≡ c.repairs
  decrypt-repairs room event c =
      repairs_of_Kept event c (decrypt J S H D room event c).0 (decrypt J S H D room event c).1
        (decrypt-Kept room event c)
