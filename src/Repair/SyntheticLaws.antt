-- ===== src/Repair/SyntheticLaws.antt =====
-- The shape of the edits of src/crypto/repair.rs.
use ement_e2ee.Prelude.{
  ◌≡◌, ◌≢◌, refl, sym, ◌∙◌, true, Option, none, some, [], ◌∷◌, ◌++◌, Text, codes, Text-discrete,
  arith, elem, Option-cases, inl, inr, ◌>>=?◌, ◌&&◌, is_some, if◌then◌else◌,
}
use ement_e2ee.Prelude.Map
use ement_e2ee.Prelude.Map.{Map, get-insert, get-insert_ne, get-insert_same, get-remove}
use ement_e2ee.Json
use ement_e2ee.Json.{Json}
use ement_e2ee.Decrypt.PlaceholderLaws.{get-copy_keys}
use ement_e2ee.Repair.Synthetic.{
  synthetic_edit, edit_of, edit_content, new_content, repair_marker, copied_keys, with_reply,
}

module _ (J : Json) where
  open J use {Value, string, object, as_object, as_object-object}

  -- What an edit is made of.
  pub record Made (plain edit : Value) : Type 0 where
    pub event_id : Text
    pub content : Map Text Value
    pub marker : Value
    pub has_id : Json.get_str J (codes "event_id") plain ≡ some event_id
    pub has_marker : repair_marker J event_id plain ≡ some marker
    pub is_edit : edit ≡ edit_of J event_id content marker plain

  some_eq : {a b : Value} → some a ≡ some b → b ≡ a
  some_eq h = ground arith

  synthetic_edit_done :
      (plain : Value) (id event_type : Text) (content : Map Text Value) (marker : Value)
      → Json.get_str J (codes "event_id") plain ≡ some id
      → Json.get_str J (codes "type") plain ≡ some event_type
      → (new_content J event_type plain >>=? as_object) ≡ some content
      → repair_marker J id plain ≡ some marker
      → synthetic_edit J plain ≡ some (edit_of J id content marker plain)
  unfolding synthetic_edit
  synthetic_edit_done plain id event_type content marker e f g k =
      rw (synthetic_edit, e, f, g, k) refl

  made : (plain edit : Value) → synthetic_edit J plain ≡ some edit → Made plain edit
  unfolding synthetic_edit
  made plain edit h = elim (Option-cases (Json.get_str J (codes "event_id") plain)) [
    | inl e ↦ absurd (ground arith)
    | inr (id, e) ↦ elim (Option-cases (Json.get_str J (codes "type") plain)) [
      | inl f ↦ absurd (ground arith)
      | inr (event_type, f) ↦ elim (Option-cases (new_content J event_type plain >>=? as_object)) [
        | inl g ↦ absurd (ground arith)
        | inr (content, g) ↦ elim (Option-cases (repair_marker J id plain)) [
          | inl k ↦ absurd (ground arith)
          | inr (marker, k) ↦ record {
            event_id = id;
            content = content;
            marker = marker;
            has_id = e;
            has_marker = k;
            is_edit =
                some_eq (sym (synthetic_edit_done plain id event_type content marker e f g k) ∙ h);
          }
        ]
      ]
    ]
  ]

  abbrev base_members : Text → Map Text Value → Value → Map Text Value
  base_members event_id content marker =
      (codes "type", string (codes "m.room.message"))
      ∷ (codes "event_id", string (event_id ++ codes "~decrypted"))
      ∷ (codes "content", object (edit_content J event_id content))
      ∷ (codes "unsigned", object ((codes "ement_e2ee", marker) ∷ []))
      ∷ []

  get-edit_of :
      (k event_id : Text) (content : Map Text Value) (marker plain : Value)
      → Json.get J k (edit_of J event_id content marker plain) ≡ (
          if elem Text-discrete k (copied_keys J) && is_some (Json.get J k plain)
          then Json.get J k plain
          else Map.get Text-discrete k (base_members event_id content marker))
  unfolding Json.get edit_of edit_content
  get-edit_of k event_id content marker plain =
      rw (Json.get, edit_of, as_object-object _)
        (get-copy_keys J k (copied_keys J) plain (base_members event_id content marker))

  base_members_else :
      (k event_id : Text) (content : Map Text Value) (marker : Value)
      → elem Text-discrete k (copied_keys J) ≡ true
      → Map.get Text-discrete k (base_members event_id content marker) ≡ none
  unfolding Map.get
  base_members_else k event_id content marker h = ground arith

  copied :
      (k event_id : Text) (content : Map Text Value) (marker plain : Value)
      → elem Text-discrete k (copied_keys J) ≡ true
      → Json.get J k (edit_of J event_id content marker plain) ≡ Json.get J k plain
  copied k event_id content marker plain h =
      get-edit_of k event_id content marker plain ∙ elim (Option-cases (Json.get J k plain)) [
        | inl e ↦ rw (h, e) (base_members_else k event_id content marker h)
        | inr (v, e) ↦ rw (h, e) refl
      ]

  abbrev relation_to : Text → Map Text Value
  relation_to event_id =
      (codes "rel_type", string (codes "m.replace")) ∷ (codes "event_id", string event_id) ∷ []

  -- The relation of an edit: it replaces the event with this ID.
  abbrev pub Replaces : Text → Map Text Value → Type 0
  Replaces event_id content =
      (relation : Map Text Value) × (Map.get Text-discrete (codes "m.relates_to") content
        ≡ some (object relation))
      × (Map.get Text-discrete (codes "rel_type") relation ≡ some (string (codes "m.replace")))
      × (Map.get Text-discrete (codes "event_id") relation ≡ some (string event_id))

  with_reply-get :
      (reply : Option Value) (event_id k : Text)
      → k ≢ codes "m.in_reply_to"
      → Map.get Text-discrete k (with_reply J reply (relation_to event_id))
        ≡ Map.get Text-discrete k (relation_to event_id)
  with_reply-get none event_id k d = refl
  with_reply-get (some reply) event_id k d =
      get-insert_ne Text-discrete (codes "m.in_reply_to") k reply (relation_to event_id) d

  edit_content-Replaces :
      (event_id : Text) (m : Map Text Value) → Replaces event_id (edit_content J event_id m)
  unfolding edit_content Map.get Text-discrete
  edit_content-Replaces event_id m =
      let reply =
        Map.get Text-discrete (codes "m.relates_to") m >>=? Json.get J (codes "m.in_reply_to") in
      (
        with_reply J reply (relation_to event_id),
        get-insert_same Text-discrete (codes "m.relates_to") _ _,
        with_reply-get reply event_id (codes "rel_type") (ground arith),
        with_reply-get reply event_id (codes "event_id") (ground arith),
      )

  -- The content that the client shows holds no relation of its own.
  edit_content-new :
      (event_id : Text) (m : Map Text Value)
      → (shown : Map Text Value) × (Map.get Text-discrete
            (codes "m.new_content")
            (edit_content J event_id m)
          ≡ some (object shown))
        × (Map.get Text-discrete (codes "m.relates_to") shown ≡ none)
  unfolding edit_content
  edit_content-new event_id m =
      let bare = Map.remove Text-discrete (codes "m.relates_to") m in
      (
        bare,
        get-insert_ne Text-discrete (codes "m.relates_to") (codes "m.new_content") _ _
              (ground arith)
            ∙ get-insert_same Text-discrete (codes "m.new_content") (object bare) bare,
        ground (arith, get-remove Text-discrete (codes "m.relates_to") (codes "m.relates_to") m),
      )

  marked :
      (event_id : Text) (content : Map Text Value) (marker plain : Value)
      → repair_marker J event_id plain ≡ some marker
      → Json.pointer J
          (codes "unsigned" ∷ codes "ement_e2ee" ∷ codes "repairs" ∷ [])
          (edit_of J event_id content marker plain)
        ≡ some (string event_id)
  unfolding Json.pointer repair_marker Json.get Map.get Text-discrete
  marked event_id content marker plain h =
      let unsigned : Map Text Value = (codes "ement_e2ee", marker) ∷ [] in
      rw (Json.pointer, get-edit_of (codes "unsigned") event_id content marker plain)
        (rw (Json.pointer, Json.get, as_object-object unsigned)
          (Json.pointer-assign J (codes "repairs" ∷ []) (string event_id) _ marker h))

  -- An edit of the event, with what it copies under the key.
  abbrev pub EditOf : Value → Value → Text → Type 0
  EditOf plain edit k =
      (event_id : Text) × (content : Map Text Value) × (shown : Map Text Value) × (Json.get_str J
          (codes "event_id") plain
        ≡ some event_id)
      × (Json.get J (codes "type") edit ≡ some (string (codes "m.room.message")))
      × (Json.get J (codes "event_id") edit ≡ some (string (event_id ++ codes "~decrypted")))
      × (Json.get J (codes "content") edit ≡ some (object content))
      × Replaces event_id content
      × (Map.get Text-discrete (codes "m.new_content") content ≡ some (object shown))
      × (Map.get Text-discrete (codes "m.relates_to") shown ≡ none)
      × (Json.pointer J (codes "unsigned" ∷ codes "ement_e2ee" ∷ codes "repairs" ∷ []) edit
          ≡ some (string event_id))
      × (Json.get J k edit ≡ Json.get J k plain)

  -- The edit for an event is a message of another ID, from the same sender, of the same time and
  -- room as far as the event has them, that replaces the event with the event's ID by a content
  -- without a relation of its own; and it is marked as the repair of that event.
  pub synthetic_edit_shape :
      (plain edit : Value) (k : Text)
      → synthetic_edit J plain ≡ some edit
      → elem Text-discrete k (copied_keys J) ≡ true
      → EditOf plain edit k
  unfolding Map.get Text-discrete
  synthetic_edit_shape plain edit k h e =
      let m = made plain edit h in
      let get = λ (j : Text). get-edit_of j m.event_id m.content m.marker plain in
      let (shown, new, bare) = edit_content-new m.event_id m.content in
      rw m.is_edit (
        m.event_id,
        edit_content J m.event_id m.content,
        shown,
        m.has_id,
        get (codes "type"),
        get (codes "event_id"),
        get (codes "content"),
        edit_content-Replaces m.event_id m.content,
        new,
        bare,
        marked m.event_id m.content m.marker plain m.has_marker,
        copied k m.event_id m.content m.marker plain e,
      )
