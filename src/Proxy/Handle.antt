-- ===== src/Proxy/Handle.antt =====
-- `bearer_token`, `context_for` and the dispatch of `handle` in src/proxy/mod.rs: which handler a
-- request goes to, with which session. The handlers themselves are not called here.
use ement_e2ee.Prelude.{
  true, false, Option, none, some, List, [], ◌∷◌, Text, codes, or_else, ◌>>=?◌,
}
use ement_e2ee.Prelude.Str.{strip_prefix, split}
use ement_e2ee.Json.{Json}
use ement_e2ee.Http.{Homeserver}
use ement_e2ee.Proxy.Error.{ProxyError}
use ement_e2ee.Proxy.Routes.{Method, Route, classify}
use ement_e2ee.Session.Manager.{
  Host, InitError, Result, AccountContext, SessionManager, get_or_init,
}

-- `find_map(|kv| kv.strip_prefix("access_token="))`
unfoldable pub token_of_pairs : List Text → Option Text
token_of_pairs [] = none
token_of_pairs (kv ∷ rest) = or_else (strip_prefix (codes "access_token=") kv) (token_of_pairs rest)

-- `bearer_token`, of the Authorization header, where it is text, and the query.
unfoldable pub bearer_token : Option Text → Option Text → Option Text
unfolding token_of_pairs
bearer_token authorization query =
    or_else (authorization >>=? strip_prefix (codes "Bearer "))
      (query >>=? λ q. token_of_pairs (split b'&' q))

-- What of a request the dispatch reads.
pub record Incoming : Type 0 where
  pub method : Method
  pub path : Text
  pub authorization : Option Text
  pub query : Option Text

-- The handler that a request goes to, with its session.
pub data Handling (C : Type 0) : Type 0 where
  to_admin : Text → Handling C
  to_login : Handling C
  to_sync : C → Handling C
  to_history : C → Route → Handling C
  to_send : C → Text → Text → Text → Handling C
  to_upload : C → Handling C
  to_download : C → Text → Text → Handling C
  to_upstream : Handling C
  refused : ProxyError → Handling C

-- A `Result` of a session that there may be none of.
pub data Context (C : Type 0) : Type 0 where
  session : C → Context C
  no_session : Context C
  held_back : ProxyError → Context C

module _ (J : Json) (H : Host) (store_dir : List Text) (ask : Homeserver (Json.Value J)) where
  abbrev pub Ctx : Type 0
  Ctx = AccountContext J H store_dir

  unfoldable pub context_of_result : Result Ctx → Context Ctx
  context_of_result (Result.ok ctx) = session ctx
  context_of_result (Result.err (InitError.device_conflict c)) =
      held_back (ProxyError.device_conflict c)
  context_of_result (Result.err (InitError.device_unchecked d)) =
      held_back ProxyError.device_unchecked
  context_of_result (Result.err InitError.other_error) = no_session

  unfoldable pub context_for :
      Option Text → SessionManager J H store_dir → SessionManager J H store_dir × Context Ctx
  unfolding context_of_result
  context_for none m = (m, no_session)
  context_for (some token) m =
      let (after, result) = get_or_init J H store_dir ask token m in
      (after, context_of_result result)

  -- `match context_for(...).await? { Some(ctx) => serve(ctx), None => passthrough }`
  unfoldable pub with_context : (Ctx → Handling Ctx) → Context Ctx → Handling Ctx
  with_context serve (session ctx) = serve ctx
  with_context serve no_session = to_upstream
  with_context serve (held_back e) = refused e

  -- `sessions.list().into_iter().next()`
  unfoldable pub any_session : SessionManager J H store_dir → Context Ctx
  any_session m = elim m.inner [ [] ↦ no_session | (_, ctx) ∷ _ ↦ session ctx ]

  unfoldable pub serve_with :
      (Ctx → Handling Ctx)
      → Option Text
      → SessionManager J H store_dir
      → SessionManager J H store_dir × Handling Ctx
  unfolding with_context
  serve_with serve token m =
      let (after, ctx) = context_for token m in (after, with_context serve ctx)

  unfoldable pub dispatch :
      Route
      → Option Text
      → SessionManager J H store_dir
      → SessionManager J H store_dir × Handling Ctx
  unfolding serve_with any_session with_context
  dispatch (Route.admin sub) token m = (m, to_admin sub)
  dispatch Route.login token m = (m, to_login)
  dispatch Route.sync token m = serve_with to_sync token m
  dispatch (Route.messages room) token m =
      serve_with (λ ctx. to_history ctx (Route.messages room)) token m
  dispatch (Route.context room) token m =
      serve_with (λ ctx. to_history ctx (Route.context room)) token m
  dispatch (Route.room_event room) token m =
      serve_with (λ ctx. to_history ctx (Route.room_event room)) token m
  dispatch Route.notifications token m =
      serve_with (λ ctx. to_history ctx Route.notifications) token m
  dispatch (Route.send room event_type txn) token m =
      serve_with (λ ctx. to_send ctx room event_type txn) token m
  dispatch Route.media_upload token m = serve_with to_upload token m
  dispatch (Route.media_download server media_id true) token m =
      serve_with (λ ctx. to_download ctx server media_id) token m
  dispatch (Route.media_download server media_id false) token m =
      (m, with_context (λ ctx. to_download ctx server media_id) (any_session m))
  dispatch Route.passthrough token m = (m, to_upstream)

  unfoldable pub handle :
      (Text → Text)
      → Incoming
      → SessionManager J H store_dir
      → SessionManager J H store_dir × Handling Ctx
  unfolding dispatch bearer_token
  handle dec req m =
      dispatch (classify dec req.method req.path) (bearer_token req.authorization req.query) m
