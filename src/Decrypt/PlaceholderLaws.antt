-- ===== src/Decrypt/PlaceholderLaws.antt =====
-- What `utd_placeholder` of src/crypto/decrypt.rs keeps of an event, and what it drops.
use ement_e2ee.Prelude.{
  ◌≡◌, ◌≢◌, refl, ◌∙◌, Bool, true, ◌&&◌, Option, none, some, List, [], ◌∷◌, Text, codes,
  Text-discrete, if◌then◌else◌, arith, subst, sym, rewrap, elem, is_some, unwrap_or, Option-cases,
  Bool-cases, inl, inr,
}
use ement_e2ee.Prelude.Map
use ement_e2ee.Prelude.Map.{Map, get-insert, get-insert_ne, get-insert_same}
use ement_e2ee.Json
use ement_e2ee.Json.{Json}
use ement_e2ee.Decrypt.Placeholder.{
  copy_keys, envelope_keys, placeholder_members, utd_placeholder, placeholder_content, utd_marker,
  unsigned_object,
}

module _ (J : Json) where
  open J use {Value, string, object, as_object, as_object-object}

  pub get-copy_keys :
      (j : Text) (ks : List Text) (from : Value) (to : Map Text Value)
      → Map.get Text-discrete j (copy_keys J ks from to) ≡ (
          if elem Text-discrete j ks && is_some (Json.get J j from)
          then Json.get J j from
          else Map.get Text-discrete j to)
  unfolding copy_keys
  get-copy_keys j [] from to = refl
  get-copy_keys j (k ∷ ks) from to = elim (Option-cases (Json.get J k from)) [
    | inl e ↦ rw (copy_keys, e) (ground (arith, get-copy_keys j ks from to))
    | inr (v, e) ↦
        rw (copy_keys, e)
          (ground (
            arith,
            get-copy_keys j ks from (Map.insert Text-discrete k v to),
            get-insert Text-discrete k j v to,
          ))
  ]

  abbrev pub fixed_members : Text → Bool → Map Text Value
  fixed_members reason can_repair =
      (codes "type", string (codes "m.room.message"))
      ∷ (codes "content", placeholder_content J reason can_repair)
      ∷ []

  fixed_members_else :
      (k reason : Text) (can_repair : Bool)
      → (k ≢ codes "type")
      → (k ≢ codes "content")
      → Map.get Text-discrete k (fixed_members reason can_repair) ≡ none
  unfolding Map.get
  fixed_members_else k reason can_repair t c = ground arith

  get-utd_placeholder :
      (k : Text) (original : Value) (reason : Text) (session_id : Option Text) (can_repair : Bool)
      → (k ≢ codes "unsigned")
      → Json.get J k (utd_placeholder J original reason session_id can_repair) ≡ (
          if elem Text-discrete k (envelope_keys J) && is_some (Json.get J k original)
          then Json.get J k original
          else Map.get Text-discrete k (fixed_members reason can_repair))
  unfolding Json.get utd_placeholder placeholder_members
  get-utd_placeholder k original reason session_id can_repair u =
      rw (Json.get, utd_placeholder, as_object-object _)
        (get-insert_ne Text-discrete (codes "unsigned") k _ _ u
          ∙ get-copy_keys k (envelope_keys J) original (fixed_members reason can_repair))

  get-unsigned :
      (original : Value) (reason : Text) (session_id : Option Text) (can_repair : Bool)
      → Json.get J (codes "unsigned") (utd_placeholder J original reason session_id can_repair)
        ≡ some (
            object (
              Map.insert Text-discrete
                (codes "ement_e2ee")
                (utd_marker J session_id)
                (unwrap_or (unsigned_object J original) [])))
  unfolding Json.get utd_placeholder placeholder_members
  get-unsigned original reason session_id can_repair =
      rw (Json.get, utd_placeholder, as_object-object _)
        (get-insert_same Text-discrete (codes "unsigned") _ _)

  other_than_envelope :
      (k : Text)
      → elem Text-discrete k (envelope_keys J) ≡ true
      → (k ≢ codes "unsigned") × (k ≢ codes "type") × (k ≢ codes "content")
  other_than_envelope k h = (
    λ e. absurd (ground (arith, subst (λ x. elem Text-discrete x (envelope_keys J) ≡ true) e h)),
    λ e. absurd (ground (arith, subst (λ x. elem Text-discrete x (envelope_keys J) ≡ true) e h)),
    λ e. absurd (ground (arith, subst (λ x. elem Text-discrete x (envelope_keys J) ≡ true) e h)),
  )

  pub envelope_kept :
      (k : Text) (original : Value) (reason : Text) (session_id : Option Text) (can_repair : Bool)
      → elem Text-discrete k (envelope_keys J) ≡ true
      → Json.get J k (utd_placeholder J original reason session_id can_repair)
        ≡ Json.get J k original
  envelope_kept k original reason session_id can_repair h =
      let (u, t, c) = other_than_envelope k h in
      get-utd_placeholder k original reason session_id can_repair u
      ∙ elim (Option-cases (Json.get J k original)) [
        | inl e ↦ rw (h, e) (fixed_members_else k reason can_repair t c)
        | inr (v, e) ↦ rw (h, e) refl
      ]

  -- The placeholder's own members.
  abbrev pub own_members : Value → Text → Option Text → Bool → Map Text Value
  own_members original reason session_id can_repair =
      (
        codes "unsigned",
        object (
            Map.insert Text-discrete (codes "ement_e2ee") (utd_marker J session_id)
              (unwrap_or (unsigned_object J original) [])),
      )
      ∷ fixed_members reason can_repair

  get-own_unsigned :
      (original : Value) (reason : Text) (session_id : Option Text) (can_repair : Bool)
      → Json.get J (codes "unsigned") (utd_placeholder J original reason session_id can_repair)
        ≡ Map.get Text-discrete
            (codes "unsigned")
            (own_members original reason session_id can_repair)
  unfolding Map.get Text-discrete
  get-own_unsigned original reason session_id can_repair =
      get-unsigned original reason session_id can_repair

  skip_unsigned :
      (k : Text) (original : Value) (reason : Text) (session_id : Option Text) (can_repair : Bool)
      → k ≢ codes "unsigned"
      → Map.get Text-discrete k (own_members original reason session_id can_repair)
        ≡ Map.get Text-discrete k (fixed_members reason can_repair)
  unfolding Map.get
  skip_unsigned k original reason session_id can_repair u = ground arith

  placeholder-get :
      (k : Text) (original : Value) (reason : Text) (session_id : Option Text) (can_repair : Bool)
      → Json.get J k (utd_placeholder J original reason session_id can_repair) ≡ (
          if elem Text-discrete k (envelope_keys J)
          then Json.get J k original
          else Map.get Text-discrete k (own_members original reason session_id can_repair))
  unfolding Map.get
  placeholder-get k original reason session_id can_repair =
      elim (Bool-cases (elem Text-discrete k (envelope_keys J))) [
        | inl e ↦ rw e (envelope_kept k original reason session_id can_repair e)
        | inr e ↦ rw e (elim (Text-discrete k (codes "unsigned")) [
          | yes u ↦
              subst
                (λ j.
                  Json.get J j (utd_placeholder J original reason session_id can_repair)
                  ≡ Map.get Text-discrete j (own_members original reason session_id can_repair))
                (sym u) (get-own_unsigned original reason session_id can_repair)
          | no u ↦
              get-utd_placeholder k original reason session_id can_repair u
              ∙ rw e (sym (skip_unsigned k original reason session_id can_repair u))
        ])
      ]

  -- The placeholder of an event has the event's ID, sender, time and room, as far as the event has
  -- them, and besides only members of its own: a type, a content and `unsigned`, so that no
  -- ciphertext is carried along; and its `unsigned` has the event's members next to the proxy's.
  pub utd_placeholder_envelope :
      (original : Value) (reason : Text) (session_id : Option Text) (can_repair : Bool) (k : Text)
      → let shown = utd_placeholder J original reason session_id can_repair in
        (Json.get J k shown ≡ (
          if elem Text-discrete k (envelope_keys J)
          then Json.get J k original
          else Map.get Text-discrete k (own_members original reason session_id can_repair)))
        × (Json.pointer J (codes "unsigned" ∷ k ∷ []) shown
            ≡ Map.get Text-discrete k (
                Map.insert Text-discrete
                  (codes "ement_e2ee")
                  (utd_marker J session_id)
                  (unwrap_or (unsigned_object J original) [])))
  unfolding Json.pointer Json.get
  utd_placeholder_envelope original reason session_id can_repair k = (
    placeholder-get k original reason session_id can_repair,
    rw (Json.pointer, get-unsigned original reason session_id can_repair)
        (rw (Json.pointer, Json.get, as_object-object _) (rewrap _)),
  )
