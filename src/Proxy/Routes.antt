-- ===== src/Proxy/Routes.antt =====
-- `classify` of src/proxy/routes.rs. Percent decoding is a crate's, so it is a parameter.
use ement_e2ee.Prelude.{
  Bool, true, false, ◌&&◌, Option, none, some, List, [], ◌∷◌, Text, codes, eqb, if◌then◌else◌,
  or_else, unwrap_or,
}
use ement_e2ee.Prelude.Str.{strip_prefix, split, trim_start_matches}

-- The methods that the program tests for, and all others.
pub data Method : Type 0 where
  get post put other : Method

abbrev pub is_get : Method → Bool
is_get get = true
is_get _ = false

abbrev pub is_post : Method → Bool
is_post post = true
is_post _ = false

abbrev pub is_put : Method → Bool
is_put put = true
is_put _ = false

pub data Route : Type 0 where
  login sync notifications media_upload passthrough : Route
  -- the room, the event type and the transaction
  send : Text → Text → Text → Route
  messages context room_event : Text → Route
  -- the server, the media ID, and whether the path is the authenticated one
  media_download : Text → Text → Bool → Route
  admin : Text → Route

-- `["_matrix", "client", _v, word]`
abbrev pub is_client : Text → Text → Bool
is_client a b = eqb a (codes "_matrix") && eqb b (codes "client")

abbrev pub is_media : Text → Text → Bool
is_media a b = eqb a (codes "_matrix") && eqb b (codes "media")

-- The arms of the `match`, in pairs of a guard and a route; the first whose guard holds wins.
abbrev pub when : Bool → Route → Option Route
when true r = some r
when false r = none

unfoldable pub arms4 : Method → Text → Text → Text → Option Route
arms4 m a b d = or_else (when (is_client a b && eqb d (codes "login") && is_post m) login) (
    or_else (when (is_client a b && eqb d (codes "sync") && is_get m) sync) (
      or_else (when (is_client a b && eqb d (codes "notifications") && is_get m) notifications)
        (when (is_media a b && eqb d (codes "upload") && is_post m) media_upload)))

module _ (dec : Text → Text) where
  unfoldable pub arm_messages : Method → Text → Text → Text → Text → Text → Option Route
  arm_messages m a b d room f =
      when (is_client a b && eqb d (codes "rooms") && eqb f (codes "messages") && is_get m)
        (messages (dec room))

  -- `/context/{event}` and `/event/{event}`
  unfoldable pub arms7 : Method → Text → Text → Text → Text → Text → Option Route
  arms7 m a b d room f =
      or_else
        (when (is_client a b && eqb d (codes "rooms") && eqb f (codes "context") && is_get m)
          (context (dec room)))
        (when (is_client a b && eqb d (codes "rooms") && eqb f (codes "event") && is_get m)
          (room_event (dec room)))

  unfoldable pub arm_send : Method → Text → Text → Text → Text → Text → Text → Text → Option Route
  arm_send m a b d room f event_type txn =
      when (is_client a b && eqb d (codes "rooms") && eqb f (codes "send") && is_put m)
        (send (dec room) (dec event_type) (dec txn))

  -- `["_matrix", "client", _v, "media", "download", server, media_id, ..]`
  unfoldable pub arm_download : Method → List Text → Option Route
  arm_download m (a ∷ b ∷ v ∷ d ∷ e ∷ server ∷ media_id ∷ rest) =
      when (is_client a b && eqb d (codes "media") && eqb e (codes "download") && is_get m)
        (media_download (dec server) (dec media_id) true)
  arm_download m _ = none

  -- `["_matrix", "media", _v, "download", server, media_id, ..]`
  unfoldable pub arm_legacy_download : Method → List Text → Option Route
  arm_legacy_download m (a ∷ b ∷ v ∷ d ∷ server ∷ media_id ∷ rest) =
      when (is_media a b && eqb d (codes "download") && is_get m)
        (media_download (dec server) (dec media_id) false)
  arm_legacy_download m _ = none

  -- The arms whose patterns have a fixed length.
  unfoldable pub fixed_arms : Method → List Text → Option Route
  unfolding arms4 arm_messages arms7 arm_send
  fixed_arms m (a ∷ b ∷ v ∷ d ∷ []) = arms4 m a b d
  fixed_arms m (a ∷ b ∷ v ∷ d ∷ room ∷ f ∷ []) = arm_messages m a b d room f
  fixed_arms m (a ∷ b ∷ v ∷ d ∷ room ∷ f ∷ event ∷ []) = arms7 m a b d room f
  fixed_arms m (a ∷ b ∷ v ∷ d ∷ room ∷ f ∷ event_type ∷ txn ∷ []) =
      arm_send m a b d room f event_type txn
  fixed_arms m _ = none

  unfoldable pub classify_segments : Method → List Text → Route
  unfolding fixed_arms arm_download arm_legacy_download
  classify_segments m segments =
      unwrap_or
        (or_else (fixed_arms m segments)
          (or_else (arm_download m segments) (arm_legacy_download m segments)))
        passthrough

  unfoldable pub classify : Method → Text → Route
  unfolding classify_segments
  classify m path =
      let segments = split b'/' (trim_start_matches b'/' path) in
      let by_segments =
        if eqb path (codes "/_ement") then admin [] else classify_segments m segments in
      elim (strip_prefix (codes "/_ement/") path) [ some rest ↦ admin rest | none ↦ by_segments ]
