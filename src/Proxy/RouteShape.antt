-- ===== src/Proxy/RouteShape.antt =====
-- Only requests of these shapes are intercepted by src/proxy/routes.rs.
use ement_e2ee.Prelude.{
  ◌≡◌, refl, Bool, true, false, ◌&&◌, Option, none, some, List, [], ◌∷◌, arith, Text, codes, eqb,
  or_else, unwrap_or,
}
use ement_e2ee.Proxy.Routes.{
  Method, get, post, put, Route, is_client, is_media, is_get, is_post, when, login, sync,
  notifications, media_upload, passthrough, send, messages, context, room_event, media_download,
  admin, arms4, arm_messages, arms7, arm_send, arm_download, arm_legacy_download, fixed_arms,
  classify_segments,
}

module _ (dec : Text → Text) where
  -- What a route says of the method and the segments it came from.
  abbrev pub Shape : Method → List Text → Route → Type 0
  Shape m segs passthrough = Unit
  Shape m segs (admin rest) = ⊥
  Shape m segs login =
      (m ≡ post) × ((v : Text) × (segs ≡ codes "_matrix" ∷ codes "client" ∷ v ∷ codes "login" ∷ []))
  Shape m segs sync =
      (m ≡ get) × ((v : Text) × (segs ≡ codes "_matrix" ∷ codes "client" ∷ v ∷ codes "sync" ∷ []))
  Shape m segs notifications =
      (m ≡ get)
      × ((v : Text) × (segs ≡ codes "_matrix" ∷ codes "client" ∷ v ∷ codes "notifications" ∷ []))
  Shape m segs media_upload =
      (m ≡ post) × ((v : Text) × (segs ≡ codes "_matrix" ∷ codes "media" ∷ v ∷ codes "upload" ∷ []))
  Shape m segs (send r e t) =
      (m ≡ put)
      × ((v : Text) × (room : Text) × (event_type : Text) × (txn : Text) × (segs
            ≡ codes "_matrix"
              ∷ codes "client"
              ∷ v
              ∷ codes "rooms"
              ∷ room
              ∷ codes "send"
              ∷ event_type
              ∷ txn
              ∷ [])
          × (r ≡ dec room)
          × (e ≡ dec event_type)
          × (t ≡ dec txn))
  Shape m segs (messages r) =
      (m ≡ get)
      × ((v : Text) × (room : Text) × (segs
            ≡ codes "_matrix" ∷ codes "client" ∷ v ∷ codes "rooms" ∷ room ∷ codes "messages" ∷ [])
          × (r ≡ dec room))
  Shape m segs (context r) =
      (m ≡ get)
      × ((v : Text) × (room : Text) × (event : Text) × (segs
            ≡ codes "_matrix"
              ∷ codes "client"
              ∷ v
              ∷ codes "rooms"
              ∷ room
              ∷ codes "context"
              ∷ event
              ∷ [])
          × (r ≡ dec room))
  Shape m segs (room_event r) =
      (m ≡ get)
      × ((v : Text) × (room : Text) × (event : Text) × (segs
            ≡ codes "_matrix"
              ∷ codes "client"
              ∷ v
              ∷ codes "rooms"
              ∷ room
              ∷ codes "event"
              ∷ event
              ∷ [])
          × (r ≡ dec room))
  Shape m segs (media_download s i true) =
      (m ≡ get)
      × ((v : Text) × (server : Text) × (media_id : Text) × (rest : List Text) × (segs
            ≡ codes "_matrix"
              ∷ codes "client"
              ∷ v
              ∷ codes "media"
              ∷ codes "download"
              ∷ server
              ∷ media_id
              ∷ rest)
          × (s ≡ dec server)
          × (i ≡ dec media_id))
  Shape m segs (media_download s i false) =
      (m ≡ get)
      × ((v : Text) × (server : Text) × (media_id : Text) × (rest : List Text) × (segs
            ≡ codes "_matrix" ∷ codes "media" ∷ v ∷ codes "download" ∷ server ∷ media_id ∷ rest)
          × (s ≡ dec server)
          × (i ≡ dec media_id))

  abbrev Fits : Method → List Text → Option Route → Type 0
  Fits m segs none = Unit
  Fits m segs (some r) = Shape m segs r

  when_Fits {ℓ} :
      (F : Option Route → Type ℓ) (b : Bool) (r : Route)
      → F none
      → (b ≡ true → F (some r))
      → F (when b r)
  when_Fits F true r n h = h refl
  when_Fits F false r n h = n

  arm_send-Fits :
      (m : Method) (a b v d room f e t : Text)
      → Fits m (a ∷ b ∷ v ∷ d ∷ room ∷ f ∷ e ∷ t ∷ []) (arm_send dec m a b d room f e t)
  unfolding arm_send
  arm_send-Fits m a b v d room f e t =
      when_Fits (λ o. Fits m (a ∷ b ∷ v ∷ d ∷ room ∷ f ∷ e ∷ t ∷ []) o) _ _ tt
        (λ h. (ground arith, (v, room, e, t, ground arith, refl, refl, refl)))

  or_else-Fits :
      (m : Method) (segs : List Text) (o p : Option Route)
      → Fits m segs o
      → Fits m segs p
      → Fits m segs (or_else o p)
  or_else-Fits m segs none p h k = k
  or_else-Fits m segs (some r) p h k = h

  arms4-Fits : (m : Method) (a b v d : Text) → Fits m (a ∷ b ∷ v ∷ d ∷ []) (arms4 m a b d)
  unfolding arms4
  arms4-Fits m a b v d =
      let segs : List Text = a ∷ b ∷ v ∷ d ∷ [] in
      or_else-Fits m segs _ _
        (when_Fits (Fits m segs) (is_client a b && eqb d (codes "login") && is_post m) login tt
          (λ h. (ground arith, (v, ground arith))))
        (or_else-Fits m segs _ _
          (when_Fits (Fits m segs) (is_client a b && eqb d (codes "sync") && is_get m) sync tt
            (λ h. (ground arith, (v, ground arith))))
          (or_else-Fits m segs _ _
            (when_Fits (Fits m segs) (is_client a b && eqb d (codes "notifications") && is_get m)
              notifications tt (λ h. (ground arith, (v, ground arith))))
            (when_Fits (Fits m segs) (is_media a b && eqb d (codes "upload") && is_post m)
              media_upload tt (λ h. (ground arith, (v, ground arith))))))

  arm_messages-Fits :
      (m : Method) (a b v d room f : Text)
      → Fits m (a ∷ b ∷ v ∷ d ∷ room ∷ f ∷ []) (arm_messages dec m a b d room f)
  unfolding arm_messages
  arm_messages-Fits m a b v d room f =
      when_Fits (Fits m (a ∷ b ∷ v ∷ d ∷ room ∷ f ∷ [])) _ _ tt
        (λ h. (ground arith, (v, room, ground arith, refl)))

  arms7-Fits :
      (m : Method) (a b v d room f event : Text)
      → Fits m (a ∷ b ∷ v ∷ d ∷ room ∷ f ∷ event ∷ []) (arms7 dec m a b d room f)
  unfolding arms7
  arms7-Fits m a b v d room f event =
      let segs : List Text = a ∷ b ∷ v ∷ d ∷ room ∷ f ∷ event ∷ [] in
      or_else-Fits m segs _ _
        (when_Fits (Fits m segs)
          (is_client a b && eqb d (codes "rooms") && eqb f (codes "context") && is_get m)
          (context (dec room)) tt (λ h. (ground arith, (v, room, event, ground arith, refl))))
        (when_Fits (Fits m segs)
          (is_client a b && eqb d (codes "rooms") && eqb f (codes "event") && is_get m)
          (room_event (dec room)) tt (λ h. (ground arith, (v, room, event, ground arith, refl))))

  fixed_arms-Fits : (m : Method) (segs : List Text) → Fits m segs (fixed_arms dec m segs)
  unfolding fixed_arms
  fixed_arms-Fits m (a ∷ b ∷ v ∷ d ∷ []) = arms4-Fits m a b v d
  fixed_arms-Fits m (a ∷ b ∷ v ∷ d ∷ room ∷ f ∷ []) = arm_messages-Fits m a b v d room f
  fixed_arms-Fits m (a ∷ b ∷ v ∷ d ∷ room ∷ f ∷ event ∷ []) = arms7-Fits m a b v d room f event
  fixed_arms-Fits m (a ∷ b ∷ v ∷ d ∷ room ∷ f ∷ event_type ∷ txn ∷ []) =
      arm_send-Fits m a b v d room f event_type txn
  fixed_arms-Fits m _ = tt

  arm_download-Fits : (m : Method) (segs : List Text) → Fits m segs (arm_download dec m segs)
  unfolding arm_download
  arm_download-Fits m (a ∷ b ∷ v ∷ d ∷ e ∷ server ∷ media_id ∷ rest) =
      when_Fits (Fits m (a ∷ b ∷ v ∷ d ∷ e ∷ server ∷ media_id ∷ rest)) _ _ tt
        (λ h. (ground arith, (v, server, media_id, rest, ground arith, refl, refl)))
  arm_download-Fits m _ = tt

  arm_legacy_download-Fits :
      (m : Method) (segs : List Text) → Fits m segs (arm_legacy_download dec m segs)
  unfolding arm_legacy_download
  arm_legacy_download-Fits m (a ∷ b ∷ v ∷ d ∷ server ∷ media_id ∷ rest) =
      when_Fits (Fits m (a ∷ b ∷ v ∷ d ∷ server ∷ media_id ∷ rest)) _ _ tt
        (λ h. (ground arith, (v, server, media_id, rest, ground arith, refl, refl)))
  arm_legacy_download-Fits m _ = tt

  unwrap_Fits :
      (m : Method) (segs : List Text) (o : Option Route)
      → Fits m segs o
      → Shape m segs (unwrap_or o passthrough)
  unwrap_Fits m segs none h = tt
  unwrap_Fits m segs (some r) h = h

  -- Every route that the segments of a path give fixes the method and the shape of the path: only
  -- such a request is intercepted, and its parameters are the decoded segments at their places.
  pub classify_segments_sound :
      (m : Method) (segs : List Text) → Shape m segs (classify_segments dec m segs)
  unfolding classify_segments
  classify_segments_sound m segs = unwrap_Fits m segs _ (
      or_else-Fits m segs (fixed_arms dec m segs) _ (fixed_arms-Fits m segs) (
        or_else-Fits m segs (arm_download dec m segs) _ (arm_download-Fits m segs)
          (arm_legacy_download-Fits m segs)))
