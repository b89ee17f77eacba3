-- ===== src/Proxy/RoutePaths.antt =====
-- From a path to its route in src/proxy/routes.rs: the admin prefix, and the segments of a path.
use ement_e2ee.Prelude.{
  ◌≡◌, ◌≢◌, refl, sym, ap, subst, ◌∙◌, inl, inr, ◌⊎◌, Option-cases, Bool, true, none, List, [], ◌∷◌,
  ◌++◌, arith, Text, Text-discrete, codes, all,
}
use ement_e2ee.Prelude.Str.{
  strip_prefix, split, trim_start_matches, lacks, split-append, split_of_lacks,
  strip_prefix-eq-some,
}
use ement_e2ee.Proxy.Routes.{Method, put, send, admin, classify_segments, classify}
use ement_e2ee.Proxy.RouteShape.{Shape, classify_segments_sound}

-- The path of these segments.
abbrev pub join : Text → List Text → Text
join s [] = s
join s (t ∷ ts) = s ++ b'/' ∷ join t ts

abbrev pub clean : List Text → Bool
clean = all (lacks b'/')

split-join : (s : Text) (ts : List Text) → clean (s ∷ ts) ≡ true → split b'/' (join s ts) ≡ s ∷ ts
split-join s [] h = split_of_lacks b'/' s (ground arith)
split-join s (t ∷ ts) h =
    split-append b'/' s (join t ts) (ground arith) ∙ ap (◌∷◌ s) (split-join t ts (ground arith))

-- The path of the Matrix API with these segments, none of which holds a slash.
abbrev pub matrix_path : List Text → Text
matrix_path ts = b'/' ∷ join (codes "_matrix") ts

abbrev pub send_segments : Text → Text → Text → Text → List Text
send_segments v room event_type txn =
    codes "client" ∷ v ∷ codes "rooms" ∷ room ∷ codes "send" ∷ event_type ∷ txn ∷ []

matrix_not_admin :
    (ts : List Text)
    → (strip_prefix (codes "/_ement/") (matrix_path ts) ≡ none)
      × (matrix_path ts ≢ codes "/_ement")
      × (trim_start_matches b'/' (matrix_path ts) ≡ join (codes "_matrix") ts)
unfolding strip_prefix trim_start_matches
matrix_not_admin [] = (refl, (λ e. cc), refl)
matrix_not_admin (t ∷ ts) = (refl, (λ e. cc), refl)

module _ (dec : Text → Text) where
  -- The admin API is exactly `/_ement` and what lies under `/_ement/`.
  pub classify_admin :
      (m : Method) (rest : Text)
      → (classify dec m (codes "/_ement/" ++ rest) ≡ admin rest)
        × (classify dec m (codes "/_ement") ≡ admin [])
  unfolding classify strip_prefix Text-discrete
  classify_admin m rest = (refl, refl)

  -- No segments give an admin route.
  no_admin :
      (m : Method) (segs : List Text) (rest : Text) → classify_segments dec m segs ≢ admin rest
  no_admin m segs rest e = subst (Shape dec m segs) e (classify_segments_sound dec m segs)

  classify_by_segments :
      (m : Method) (path : Text)
      → strip_prefix (codes "/_ement/") path ≡ none
      → path ≢ codes "/_ement"
      → classify dec m path ≡ classify_segments dec m (split b'/' (trim_start_matches b'/' path))
  unfolding classify
  classify_by_segments m path e n = ground (arith, e)

  -- A request goes to the admin API only if its path is `/_ement` or lies under `/_ement/`, and what
  -- follows the prefix is what the API is given.
  pub classify_admin_only :
      (m : Method) (path rest : Text)
      → classify dec m path ≡ admin rest
      → (path ≡ codes "/_ement/" ++ rest) ⊎ ((path ≡ codes "/_ement") × (rest ≡ []))
  classify_admin_only m path rest h = elim (Option-cases (strip_prefix (codes "/_ement/") path)) [
    | inl e ↦ elim (Text-discrete path (codes "/_ement")) [
      | yes p ↦ inr (p, unfold classify in ground (arith, e))
      | no n ↦ absurd (no_admin m _ rest (sym (classify_by_segments m path e n) ∙ h))
    ]
    | inr (t, e) ↦ inl (
        strip_prefix-eq-some (codes "/_ement/") path rest
          (e ∙ unfold classify in ground (arith, e)))
  ]

  classify-matrix_path :
      (m : Method) (ts : List Text)
      → clean ts ≡ true
      → classify dec m (matrix_path ts) ≡ classify_segments dec m (codes "_matrix" ∷ ts)
  classify-matrix_path m ts h =
      let (no_prefix, ne, trimmed) = matrix_not_admin ts in
      classify_by_segments m (matrix_path ts) no_prefix ne
      ∙ ap (λ t. classify_segments dec m (split b'/' t)) trimmed
      ∙ ap (classify_segments dec m) (split-join (codes "_matrix") ts h)

  -- A send is recognised whatever the version segment, and its room, event type and transaction
  -- are the decoded segments.
  pub classify_send :
      (v room event_type txn : Text)
      → clean (v ∷ room ∷ event_type ∷ txn ∷ []) ≡ true
      → classify dec put (matrix_path (send_segments v room event_type txn))
        ≡ send (dec room) (dec event_type) (dec txn)
  unfolding classify_segments Text-discrete
  classify_send v room event_type txn h =
      classify-matrix_path put (send_segments v room event_type txn) h
