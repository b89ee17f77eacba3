-- ===== src/Proxy/History.antt =====
-- `forward_get_json` and `handle_history_get` of src/proxy/intercept.rs. `fetch` is the GET with the
-- session's token: the status, the content type and the bytes; `parse` is `serde_json::from_slice`.
use ement_e2ee.Prelude.{
  ℕ, ◌≡◌, refl, true, false, Option, none, some, List, [], ◌∷◌, Text, codes, if◌then◌else◌,
  unwrap_or, map, ◌>>=?◌,
}
use ement_e2ee.Json
use ement_e2ee.Json.{Json}
use ement_e2ee.Sdk.{Sdk}
use ement_e2ee.Http.{is_success}
use ement_e2ee.Media.Cache.{MediaHost}
use ement_e2ee.Proxy.Error.{ProxyError}
use ement_e2ee.Proxy.Routes.{Route}
use ement_e2ee.Decrypt.Event.{DecryptSdk, Context}
use ement_e2ee.Decrypt.Bodies.{
  process_messages_body, process_context_body, process_event_body, process_notifications_body,
  decrypt_at, scan_at,
}
use ement_e2ee.Decrypt.BodiesLaws.{id_of, decrypt_at-ids}

pub data HistoryAnswer (V : Type 0) : Type 0 where
  raw : ℕ → Option Text → Text → HistoryAnswer V
  rewritten : Option Text → V → HistoryAnswer V
  failed : ProxyError → HistoryAnswer V

module _ (J : Json) (S : Sdk) (H : MediaHost J) (D : DecryptSdk J S)
    (parse : Text → Option (Json.Value J)) (parse_room : Text → Option Text) where
  open J use {Value, array, as_array}

  abbrev pub Ctx : Type 0
  Ctx = Context J S H D

  -- The room of a route that has one, if its ID parses.
  abbrev pub room_of : Route → Option Text
  room_of (Route.messages room) = parse_room room
  room_of (Route.context room) = parse_room room
  room_of (Route.room_event room) = parse_room room
  room_of _ = none

  unfoldable pub rewrite_room : Route → Option Text → Value → Ctx → Ctx × Value
  rewrite_room (Route.messages _) (some room) body c = process_messages_body J S H D room body c
  rewrite_room (Route.context _) (some room) body c = process_context_body J S H D room body c
  rewrite_room (Route.room_event _) (some room) body c = process_event_body J S H D room body c
  rewrite_room _ _ body c = (c, body)

  unfoldable pub rewrite_history : Route → Value → Ctx → Ctx × Value
  unfolding rewrite_room
  rewrite_history Route.notifications body c = process_notifications_body J S H D parse_room body c
  rewrite_history route body c = rewrite_room route (room_of route) body c

  unfoldable pub answer_history : Route → ℕ → Option Text → Text → Ctx → Ctx × HistoryAnswer Value
  unfolding rewrite_history
  answer_history route status content_type bytes c =
      if is_success status
      then (elim (parse bytes) [
        | none ↦ (c, failed ProxyError.internal)
        | some body ↦
            let (after, changed) = rewrite_history route body c in
            (after, rewritten content_type changed)
      ])
      else (c, raw status content_type bytes)

  unfoldable pub handle_history_get :
      (Text → Option (ℕ × Option Text × Text))
      → Option Text
      → Route
      → Ctx
      → Ctx × HistoryAnswer Value
  unfolding answer_history
  handle_history_get fetch path_and_query route c =
      elim (fetch (unwrap_or path_and_query (codes "/"))) [
        | none ↦ (c, failed ProxyError.upstream)
        | some (status, content_type, bytes) ↦ answer_history route status content_type bytes c
      ]

  -- A page of messages that the homeserver gives out is answered as a page with as many events, with
  -- the same IDs in the same order, and with the content type that it had.
  pub handle_history_get-messages :
      (fetch : Text → Option (ℕ × Option Text × Text)) (path room id : Text) (status : ℕ)
      (content_type : Option Text) (bytes : Text) (body : Value) (events : List Value) (c : Ctx)
      → fetch path ≡ some (status, content_type, bytes)
      → is_success status ≡ true
      → parse bytes ≡ some body
      → parse_room room ≡ some id
      → (Json.pointer J (codes "chunk" ∷ []) body >>=? as_array) ≡ some events
      → (page : Value) × (shown : List Value) × ((handle_history_get fetch
            (some path)
            (Route.messages room)
            c).1
          ≡ rewritten content_type page)
        × (Json.pointer J (codes "chunk" ∷ []) page ≡ some (array shown))
        × (map (id_of J S H D) shown ≡ map (id_of J S H D) events)
  unfolding handle_history_get answer_history rewrite_history rewrite_room process_messages_body
  handle_history_get-messages fetch path room id status content_type bytes body events c f s p r e =
      let scanned = scan_at J S H D id (codes "state" ∷ []) body c in
      let (shown, at, ids) = decrypt_at-ids J S H D id (codes "chunk" ∷ []) body events scanned e in
      (
        (decrypt_at J S H D id (codes "chunk" ∷ []) body scanned).1,
        shown,
        rw (handle_history_get, f, s, p) (rw r refl),
        at,
        ids,
      )

  -- An answer that is no success is relayed as it is, and nothing is noted of it.
  pub handle_history_get-error :
      (fetch : Text → Option (ℕ × Option Text × Text)) (path : Text) (route : Route) (status : ℕ)
      (content_type : Option Text) (bytes : Text) (c : Ctx)
      → fetch path ≡ some (status, content_type, bytes)
      → is_success status ≡ false
      → handle_history_get fetch (some path) route c ≡ (c, raw status content_type bytes)
  unfolding handle_history_get answer_history
  handle_history_get-error fetch path route status content_type bytes c f s =
      rw (handle_history_get, f, s) refl
