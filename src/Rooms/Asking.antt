-- ===== src/Rooms/Asking.antt =====
-- `is_room_encrypted` of src/crypto/rooms.rs: the order of what it asks, and a sync in between.
use ement_e2ee.Prelude.{
  ℕ, ◌≡◌, refl, sym, ap, ◌∙◌, subst, ◌≢◌, ◌⊎◌, inl, inr, Bool, true, false, Option, none, some,
  arith, Text, Text-discrete, List, [], ◌∷◌, Bool-cases, Option-cases, ◌==◌,
}
use ement_e2ee.Json.{Json}
use ement_e2ee.Http.{is_success}
use ement_e2ee.Sdk.{Sdk, RoomSettings}
use ement_e2ee.Rooms.Tracker.{is_known_unencrypted}
use ement_e2ee.Rooms.Settings.{Rooms, note_settings, room_settings_from_content}
use ement_e2ee.Rooms.Encryption.{
  Answer, known_encryption, conclude_encryption, encryption_path, is_room_encrypted,
}
use ement_e2ee.Rooms.Laws.{
  Consistent, note_settings-Consistent, mark_unencrypted-Consistent,
  is_known_unencrypted-mark_unencrypted, is_known_unencrypted-mark_encrypted,
}

module _ (J : Json) (S : Sdk) where
  open J use {Value}
  open S use {Olm, Algorithm, room_settings, set_room_settings}

  conclude-Consistent :
      (room : Text) (answer : Option (ℕ × Value)) (r : Rooms J S)
      → room_settings r.olm room ≡ some none
      → Consistent J S r
      → Consistent J S (conclude_encryption J S room answer r).0
  unfolding conclude_encryption
  conclude-Consistent room none r unset v = v
  conclude-Consistent room (some (status, body)) r unset v = elim (Bool-cases (status == 404)) [
    | inl missing ↦ rw missing (mark_unencrypted-Consistent J S room r unset v)
    | inr a ↦ elim (Bool-cases (is_success status)) [
      | inr b ↦ rw (a, b) v
      | inl good ↦ elim (Option-cases (room_settings_from_content J S body)) [
        | inl bad ↦ rw (a, good, bad) v
        | inr (s, parsed) ↦ rw (a, good, parsed) (note_settings-Consistent J S room s r v)
      ]
    ]
  ]

  -- Nothing is known of the room: it is not in the negative cache, and no settings are stored.
  known_encryption-none :
      (room : Text) (r : Rooms J S)
      → known_encryption J S room r ≡ none
      → (is_known_unencrypted room r.tracker ≡ false) × (room_settings r.olm room ≡ some none)
  unfolding known_encryption
  known_encryption-none room r unknown = elim (Bool-cases (is_known_unencrypted room r.tracker)) [
    | inl cached ↦ absurd (ground arith)
    | inr a ↦ (a, ground arith)
  ]

  known_encryption-false :
      (room : Text) (r : Rooms J S)
      → known_encryption J S room r ≡ some (Answer.ok false)
      → is_known_unencrypted room r.tracker ≡ true
  unfolding known_encryption
  known_encryption-false room r known = elim (Bool-cases (is_known_unencrypted room r.tracker)) [
    | inl cached ↦ cached
    | inr a ↦ absurd (ground arith)
  ]

  conclude-false :
      (room : Text) (answer : Option (ℕ × Value)) (r : Rooms J S)
      → (conclude_encryption J S room answer r).1 ≡ Answer.ok false
      → (body : Value) × (answer ≡ some (404, body))
  unfolding conclude_encryption
  conclude-false room none r clear = absurd (ground arith)
  conclude-false room (some (status, body)) r clear = elim (Bool-cases (status == 404)) [
    | inl missing ↦ let e : status ≡ 404 = ground arith in (body, ap (λ (n : ℕ). some (n, body)) e)
    | inr a ↦ absurd (ground arith)
  ]

  -- An answer about another room leaves the room in the negative cache.
  conclude-hidden :
      (room other : Text) (answer : Option (ℕ × Value)) (r : Rooms J S)
      → room ≢ other
      → is_known_unencrypted room r.tracker ≡ true
      → is_known_unencrypted room (conclude_encryption J S other answer r).0.tracker ≡ true
  unfolding conclude_encryption note_settings
  conclude-hidden room other none r d hidden = hidden
  conclude-hidden room other (some (status, body)) r d hidden = elim (Bool-cases (status == 404)) [
    | inl missing ↦
        rw missing
          (ground (arith, is_known_unencrypted-mark_unencrypted other room r.tracker, hidden))
    | inr a ↦ elim (Bool-cases (is_success status)) [
      | inr b ↦ rw (a, b) hidden
      | inl good ↦ elim (Option-cases (room_settings_from_content J S body)) [
        | inl bad ↦ rw (a, good, bad) hidden
        | inr (s, parsed) ↦
            rw (a, good, parsed)
              (ground (arith, is_known_unencrypted-mark_encrypted other room r.tracker, hidden))
      ]
    ]
  ]

  module _ (enc : Text → Text) (respond : Text → Option (ℕ × Value)) where
    -- Asking whether a room is encrypted, with whatever answer of the homeserver and no sync in
    -- between, keeps the negative cache and the stored settings apart.
    pub is_room_encrypted-Consistent :
        (room : Text) (r : Rooms J S)
        → Consistent J S r
        → Consistent J S (is_room_encrypted J S enc respond room r).0
    unfolding is_room_encrypted
    is_room_encrypted-Consistent room r v = elim (Option-cases (known_encryption J S room r)) [
      | inr (answer, known) ↦ rw (is_room_encrypted, known) v
      | inl unknown ↦
          rw (is_room_encrypted, unknown)
            (conclude-Consistent room (respond (encryption_path J S enc respond room)) r
              (known_encryption-none room r unknown).1 v)
    ]

    -- A room whose settings are stored is answered to be encrypted, without a request, as long as
    -- the negative cache and the stored settings are apart.
    pub is_room_encrypted-of_settings :
        (room : Text) (r : Rooms J S) (s : RoomSettings Algorithm)
        → Consistent J S r
        → room_settings r.olm room ≡ some (some s)
        → is_room_encrypted J S enc respond room r ≡ (r, Answer.ok true)
    unfolding is_room_encrypted known_encryption Consistent
    is_room_encrypted-of_settings room r s v stored =
        elim (Bool-cases (is_known_unencrypted room r.tracker)) [
          | inl cached ↦ absurd (v room s cached stored)
          | inr a ↦ rw (is_room_encrypted, known_encryption, a, stored) refl
        ]

    is_room_encrypted-of_cached :
        (room : Text) (r : Rooms J S)
        → is_known_unencrypted room r.tracker ≡ true
        → is_room_encrypted J S enc respond room r ≡ (r, Answer.ok false)
    unfolding is_room_encrypted known_encryption
    is_room_encrypted-of_cached room r cached =
        rw (is_room_encrypted, known_encryption, cached) refl

    -- A room is answered to be in the clear only if it is in the negative cache or if the
    -- homeserver has answered 404 to the request for its encryption state.
    pub is_room_encrypted-false :
        (room : Text) (r : Rooms J S)
        → (is_room_encrypted J S enc respond room r).1 ≡ Answer.ok false
        → (is_known_unencrypted room r.tracker ≡ true)
          ⊎ ((body : Value) × (respond (encryption_path J S enc respond room) ≡ some (404, body)))
    unfolding is_room_encrypted known_encryption
    is_room_encrypted-false room r clear = elim (Option-cases (known_encryption J S room r)) [
      | inl unknown ↦ inr (
          conclude-false room (respond (encryption_path J S enc respond room)) r
            (sym (ap (λ x. x.1) (opened unknown)) ∙ clear))
      | inr (answer, known) ↦
          let said : answer ≡ Answer.ok false =
            sym (ap (λ x. x.1) (decided answer known)) ∙ clear in
          inl (known_encryption-false room r (known ∙ ap some said))
    ]
      where
        opened :
            known_encryption J S room r ≡ none
            → is_room_encrypted J S enc respond room r
              ≡ conclude_encryption J S room (respond (encryption_path J S enc respond room)) r
        opened unknown = rw (is_room_encrypted, unknown) refl

        decided :
            (answer : Answer Bool)
            → known_encryption J S room r ≡ some answer
            → is_room_encrypted J S enc respond room r ≡ (r, answer)
        decided answer known = rw (is_room_encrypted, known) refl

    is_room_encrypted-hidden :
        (room other : Text) (r : Rooms J S)
        → is_known_unencrypted room r.tracker ≡ true
        → is_known_unencrypted room (is_room_encrypted J S enc respond other r).0.tracker ≡ true
    unfolding is_room_encrypted
    is_room_encrypted-hidden room other r hidden = elim (Text-discrete room other) [
      | yes e ↦
          let cached =
            is_room_encrypted-of_cached other r
              (subst (λ x. is_known_unencrypted x r.tracker ≡ true) e hidden) in
          rw cached hidden
      | no d ↦ elim (Option-cases (known_encryption J S other r)) [
        | inr (answer, known) ↦ rw (is_room_encrypted, known) hidden
        | inl unknown ↦
            rw (is_room_encrypted, unknown)
              (conclude-hidden room other (respond (encryption_path J S enc respond other)) r d
                hidden)
      ]
    ]

    -- What is known after questions about these rooms, one after the other.
    unfoldable pub asked : List Text → Rooms J S → Rooms J S
    asked [] r = r
    asked (room ∷ rooms) r = asked rooms (is_room_encrypted J S enc respond room r).0

    asked-hidden :
        (room : Text) (rooms : List Text) (r : Rooms J S)
        → is_known_unencrypted room r.tracker ≡ true
        → is_known_unencrypted room (asked rooms r).tracker ≡ true
    unfolding asked
    asked-hidden room [] r hidden = hidden
    asked-hidden room (other ∷ rooms) r hidden =
        asked-hidden room rooms (is_room_encrypted J S enc respond other r).0
          (is_room_encrypted-hidden room other r hidden)

    -- Where nothing was known of a room when it was asked for, and a sync stores its settings
    -- before the 404 to that question arrives, the settings are stored, and yet the room is
    -- answered to be in the clear, without a request, after however many further questions about
    -- whatever rooms, as long as no other step comes between.
    pub late_404_hides_encryption :
        (room : Text) (r : Rooms J S) (o : Olm) (s : RoomSettings Algorithm) (body : Value)
        (rooms : List Text)
        → known_encryption J S room r ≡ none
        → set_room_settings r.olm room s ≡ some o
        → let after =
            (conclude_encryption J S room (some (404, body)) (note_settings J S room s r)).0 in
          (room_settings after.olm room ≡ some (some s))
          × (is_room_encrypted J S enc respond room (asked rooms after)
              ≡ (asked rooms after, Answer.ok false))
    unfolding conclude_encryption note_settings
    late_404_hides_encryption room r o s body rooms unknown stored =
        let r' = (conclude_encryption J S room (some (404, body)) (note_settings J S room s r)).0 in
        let hidden : is_known_unencrypted room r'.tracker ≡ true =
          is_known_unencrypted-mark_unencrypted room room _ ∙ ground arith in
        (
          rw stored (S.room_settings-set_room_settings r.olm o room s stored),
          is_room_encrypted-of_cached room (asked rooms r') (asked-hidden room rooms r' hidden),
        )
