-- ===== src/Proxy/HeldBack.antt =====
-- Tokens and held-back sessions in the dispatch of src/proxy/mod.rs.
use ement_e2ee.Prelude.{◌≡◌, refl, ap, true, false, Option, some, List, ◌++◌, Text, codes}
use ement_e2ee.Prelude.Str.{strip_prefix-append}
use ement_e2ee.Json.{Json}
use ement_e2ee.Http.{Homeserver}
use ement_e2ee.Proxy.Error.{ProxyError}
use ement_e2ee.Proxy.Routes.{Route}
use ement_e2ee.Proxy.Handle.{
  Handling, Context, bearer_token, context_of_result, context_for, with_context, serve_with,
  dispatch,
}
use ement_e2ee.Session.Manager.{
  Host, InitError, Result, SessionManager, AccountContext, get_or_init,
}

-- The Authorization header wins: with a Bearer token in it, the query is not read.
pub bearer_token-header :
    (token : Text) (query : Option Text)
    → bearer_token (some (codes "Bearer " ++ token)) query ≡ some token
unfolding bearer_token
bearer_token-header token query = rw (strip_prefix-append (codes "Bearer ") token) refl

-- The routes that ask for a session of the request's own.
abbrev pub AsksForSession : Route → Type 0
AsksForSession Route.sync = Unit
AsksForSession (Route.messages room) = Unit
AsksForSession (Route.context room) = Unit
AsksForSession (Route.room_event room) = Unit
AsksForSession Route.notifications = Unit
AsksForSession (Route.send room event_type txn) = Unit
AsksForSession Route.media_upload = Unit
AsksForSession (Route.media_download server media_id true) = Unit
AsksForSession _ = ⊥

module _ (J : Json) (H : Host) (store_dir : List Text) (ask : Homeserver (Json.Value J)) where
  abbrev Manager : Type 0
  Manager = SessionManager J H store_dir

  -- The session of a token is held back over its device's keys, with this error.
  abbrev pub HeldBack : ProxyError → Result (AccountContext J H store_dir) → Type 0
  HeldBack e (Result.err (InitError.device_conflict c)) = e ≡ ProxyError.device_conflict c
  HeldBack e (Result.err (InitError.device_unchecked d)) = e ≡ ProxyError.device_unchecked
  HeldBack e (Result.err InitError.other_error) = ⊥
  HeldBack e (Result.ok ctx) = ⊥

  context_of_result-HeldBack :
      (e : ProxyError) (result : Result (AccountContext J H store_dir))
      → HeldBack e result
      → context_of_result J H store_dir ask result ≡ Context.held_back e
  unfolding context_of_result
  context_of_result-HeldBack e (Result.err (InitError.device_conflict c)) h = cc h
  context_of_result-HeldBack e (Result.err (InitError.device_unchecked d)) h = cc h
  context_of_result-HeldBack e (Result.err InitError.other_error) h = absurd h
  context_of_result-HeldBack e (Result.ok ctx) h = absurd h

  serve_with-HeldBack :
      (e : ProxyError)
      (serve : AccountContext J H store_dir → Handling (AccountContext J H store_dir))
      (token : Text) (m : Manager)
      → HeldBack e (get_or_init J H store_dir ask token m).1
      → (serve_with J H store_dir ask serve (some token) m).1 ≡ Handling.refused e
  unfolding serve_with context_for with_context
  serve_with-HeldBack e serve token m h =
      ap (with_context J H store_dir ask serve)
        (context_of_result-HeldBack e (get_or_init J H store_dir ask token m).1 h)

  -- A request with the token of a session that is held back, because the homeserver has other keys
  -- for its device or does not say whether it has some, is refused with that error on every route
  -- that asks for the request's session: it is never passed through to the homeserver.
  pub dispatch-HeldBack :
      (e : ProxyError) (route : Route) (token : Text) (m : Manager)
      → AsksForSession route
      → HeldBack e (get_or_init J H store_dir ask token m).1
      → (dispatch J H store_dir ask route (some token) m).1 ≡ Handling.refused e
  unfolding dispatch
  dispatch-HeldBack e Route.sync token m a h = serve_with-HeldBack e _ token m h
  dispatch-HeldBack e (Route.messages room) token m a h = serve_with-HeldBack e _ token m h
  dispatch-HeldBack e (Route.context room) token m a h = serve_with-HeldBack e _ token m h
  dispatch-HeldBack e (Route.room_event room) token m a h = serve_with-HeldBack e _ token m h
  dispatch-HeldBack e Route.notifications token m a h = serve_with-HeldBack e _ token m h
  dispatch-HeldBack e (Route.send room event_type txn) token m a h =
      serve_with-HeldBack e _ token m h
  dispatch-HeldBack e Route.media_upload token m a h = serve_with-HeldBack e _ token m h
  dispatch-HeldBack e (Route.media_download server media_id true) token m a h =
      serve_with-HeldBack e _ token m h
  dispatch-HeldBack e (Route.media_download server media_id false) token m a h = absurd a
  dispatch-HeldBack e (Route.admin sub) token m a h = absurd a
  dispatch-HeldBack e Route.login token m a h = absurd a
  dispatch-HeldBack e Route.passthrough token m a h = absurd a
