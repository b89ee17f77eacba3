-- ===== src/Decrypt/BodiesLaws.antt =====
-- What the rewriting of timelines (src/crypto/decrypt.rs) keeps.
use ement_e2ee.Prelude.{
  ◌≡◌, refl, ap, Option-cases, inl, inr, Option, some, List, [], ◌∷◌, map, Text, codes, arith,
  ◌>>=?◌,
}
use ement_e2ee.Prelude.Map
use ement_e2ee.Prelude.Map.{Map}
use ement_e2ee.Json
use ement_e2ee.Json.{Json}
use ement_e2ee.Sdk.{Sdk}
use ement_e2ee.Media.Cache.{MediaHost}
use ement_e2ee.Decrypt.Placeholder.{Placeholder, is_repairable}
use ement_e2ee.Decrypt.PlaceholderLaws.{envelope_kept}
use ement_e2ee.Decrypt.Event.{DecryptSdk, Decryption, Context, decrypt}
use ement_e2ee.Decrypt.EventLaws.{Kept, decrypt-Kept}
use ement_e2ee.Decrypt.Bodies.{decrypt_event, decrypt_events, decrypt_at, shown_event}
use Decryption.{decrypted, undecryptable, untouched}
use Placeholder.{repairable}

module _ (J : Json) (S : Sdk) (H : MediaHost J) (D : DecryptSdk J S) where
  open J use {Value, array, as_array}
  open D use {Encrypted}

  abbrev Ctx : Type 0
  Ctx = Context J S H D

  abbrev pub id_of : Value → Option Value
  id_of event = Json.get J (codes "event_id") event

  shown_event-id :
      (room : Text) (event : Value) (placeholder : Placeholder) (before c : Ctx)
      (result : Decryption Value Encrypted)
      → Kept J S H D event before (c, result)
      → id_of (shown_event J S H D room event placeholder result c).1 ≡ id_of event
  unfolding shown_event
  shown_event-id room event placeholder before c (decrypted shown) k = k.1
  shown_event-id room event placeholder before c (undecryptable reason session_id raw) k =
      envelope_kept J (codes "event_id") event reason session_id (is_repairable placeholder)
        (ground arith)
  shown_event-id room event placeholder before c untouched k = refl

  decrypt_event-id :
      (room : Text) (placeholder : Placeholder) (event : Value) (c : Ctx)
      → id_of (decrypt_event J S H D room placeholder event c).1 ≡ id_of event
  unfolding decrypt_event
  decrypt_event-id room placeholder event c =
      shown_event-id room event placeholder c (decrypt J S H D room event c).0
        (decrypt J S H D room event c).1 (decrypt-Kept J S H D room event c)

  decrypt_events-ids :
      (room : Text) (events : List Value) (c : Ctx)
      → map id_of (decrypt_events J S H D room events c).1 ≡ map id_of events
  unfolding decrypt_events
  decrypt_events-ids room [] c = refl
  decrypt_events-ids room (event ∷ events) c =
      let after = (decrypt_event J S H D room repairable event c).0 in
      rw (decrypt_event-id room repairable event c)
        (ap (λ ids. id_of event ∷ ids) (decrypt_events-ids room events after))

  -- Rewriting a timeline, wherever it stands in a response, gives back as many events with the same
  -- IDs in the same order, whether they decrypt, become placeholders or are passed on.
  pub decrypt_at-ids :
      (room : Text) (path : List Text) (body : Value) (events : List Value) (c : Ctx)
      → (Json.pointer J path body >>=? as_array) ≡ some events
      → (shown : List Value) × (Json.pointer J path (decrypt_at J S H D room path body c).1
          ≡ some (array shown))
        × (map id_of shown ≡ map id_of events)
  unfolding decrypt_at
  decrypt_at-ids room path body events c h = elim (Option-cases (Json.pointer J path body)) [
    | inl e ↦ absurd (ground arith)
    | inr (x, e) ↦
        let shown = (decrypt_events J S H D room events c).1 in
        let (u, a) = Json.assign_of_pointer J path (array shown) body x e in
        (
          shown,
          rw (decrypt_at, h, a) (Json.pointer-assign J path (array shown) body u a),
          decrypt_events-ids room events c,
        )
  ]
