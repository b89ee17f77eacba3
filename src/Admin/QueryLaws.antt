-- ===== src/Admin/QueryLaws.antt =====
-- What the admin API (src/admin/mod.rs) reads of the queries that its client sends (`query` of
-- src/admin/debug.rs, `common_query` of src/admin/ctl.rs).
use ement_e2ee.Prelude.{
  ℕ, ◌≡◌, refl, ap, ◌∙◌, Bool, true, false, not, ◌&&◌, Option, none, some, List, [], ◌∷◌, ◌++◌, map,
  Text, codes, eqb, Text-discrete, all, arith, ◌>>=?◌, ◌==◌,
}
use ement_e2ee.Prelude.Str.{
  lacks, split, split_once, split-append, split_of_lacks, split_once-append, strip_prefix,
}
use ement_e2ee.Prelude.Map
use ement_e2ee.Prelude.Map.{Map}
use mathlib.Core.Option
use ement_e2ee.Json.{Json}
use ement_e2ee.Admin.Params.{
  AdminSession, collect_pair, collect_pairs, parse_query, resolve_session,
}
use ement_e2ee.Admin.Handle.{Parsers, LogControl, debug_path, debug_operation}
use ement_e2ee.Admin.Query.{
  joined, query_of, pair_text, optional_pair, encoded_pair, debug_query, common_query, query_part,
}

-- Neither side of the pair can be taken for another pair, nor the name for a pair.
abbrev pub is_plain : Text × Text → Bool
is_plain (k, v) = lacks b'=' k && lacks b'&' k && lacks b'&' v

abbrev pub insert_all : List (Text × Text) → Map Text Text → Map Text Text
insert_all [] m = m
insert_all ((k, v) ∷ ps) m = insert_all ps (Map.insert Text-discrete k v m)

lacks-append :
    (c x : ℕ) (s t : Text)
    → lacks c s ≡ true
    → (x == c) ≡ false
    → lacks c t ≡ true
    → lacks c (s ++ x ∷ t) ≡ true
lacks-append c x [] t h d g = ground arith
lacks-append c x (y ∷ s) t h d g = ground (arith, lacks-append c x s t)

pair_text-lacks : (p : Text × Text) → is_plain p ≡ true → lacks b'&' (pair_text p) ≡ true
pair_text-lacks (k, v) h = ground (arith, lacks-append b'&' b'=' k v)

collect_pairs-joined :
    (p : Text × Text) (ps : List (Text × Text)) (m : Map Text Text)
    → all is_plain (p ∷ ps) ≡ true
    → collect_pairs (split b'&' (joined (map pair_text (p ∷ ps)))) m ≡ insert_all (p ∷ ps) m
unfolding collect_pairs joined
collect_pairs-joined (k, v) [] m h =
    ap (λ l. collect_pairs l m)
      (split_of_lacks b'&' (pair_text (k, v)) (pair_text-lacks (k, v) (ground (arith, h))))
    ∙ ap (λ o. collect_pair o m) (split_once-append b'=' k v (ground (arith, h)))
collect_pairs-joined (k, v) (q ∷ ps) m h =
    ap (λ l. collect_pairs l m)
      (split-append b'&' (pair_text (k, v)) (joined (map pair_text (q ∷ ps)))
        (pair_text-lacks (k, v) (ground (arith, h))))
    ∙ ap (λ o. collect_pairs (split b'&' (joined (map pair_text (q ∷ ps)))) (collect_pair o m))
        (split_once-append b'=' k v (ground (arith, h)))
    ∙ collect_pairs-joined q ps (Map.insert Text-discrete k v m) (ground (arith, h))

parse_query-query_of :
    (ps : List (Text × Text))
    → all is_plain ps ≡ true
    → parse_query (query_part (query_of (map pair_text ps))) ≡ insert_all ps []
unfolding parse_query query_of collect_pairs split split_once strip_prefix
parse_query-query_of [] h = refl
parse_query-query_of (p ∷ ps) h = collect_pairs-joined p ps [] h

-- A name that none of the pairs has.
abbrev pub is_new : Text → Text × Text → Bool
is_new k (j, v) = not (eqb k j)

get-insert_all :
    (k : Text) (ps : List (Text × Text)) (m : Map Text Text)
    → all (is_new k) ps ≡ true
    → Map.get Text-discrete k (insert_all ps m) ≡ Map.get Text-discrete k m
get-insert_all k [] m h = refl
get-insert_all k ((j, v) ∷ ps) m h =
    get-insert_all k ps (Map.insert Text-discrete j v m) (ground (arith, h))
    ∙ Map.get-insert_ne Text-discrete j k v m (ground (arith, h))

user_of_query :
    (user : Option Text) (ps : List (Text × Text))
    → all is_plain (optional_pair (codes "user_id") user ++ ps) ≡ true
    → all (is_new (codes "user_id")) ps ≡ true
    → Map.get Text-discrete (codes "user_id") (
        parse_query
          (query_part (query_of (map pair_text (optional_pair (codes "user_id") user ++ ps)))))
      ≡ user
unfolding Map.get
user_of_query none ps h g =
    ap (Map.get Text-discrete (codes "user_id")) (parse_query-query_of ps h)
    ∙ get-insert_all (codes "user_id") ps [] g
user_of_query (some u) ps h g =
    ap (Map.get Text-discrete (codes "user_id"))
      (parse_query-query_of ((codes "user_id", u) ∷ ps) h)
    ∙ get-insert_all (codes "user_id") ps (Map.insert Text-discrete (codes "user_id") u []) g
    ∙ Map.get-insert_same Text-discrete (codes "user_id") u []

common_pairs : Option Text → Option Text → List (Text × Text)
common_pairs user_id other =
    optional_pair (codes "user_id") user_id ++ optional_pair (codes "with_user") other

get-common_pairs :
    (user_id other : Option Text)
    → (Map.get Text-discrete (codes "user_id") (insert_all (common_pairs user_id other) [])
        ≡ user_id)
      × (Map.get Text-discrete (codes "with_user") (insert_all (common_pairs user_id other) [])
          ≡ other)
unfolding common_pairs Map.get Map.insert Map.remove Text-discrete
get-common_pairs none none = (refl, refl)
get-common_pairs none (some w) = (refl, refl)
get-common_pairs (some u) none = (refl, refl)
get-common_pairs (some u) (some w) = (refl, refl)

abbrev pub values : Option Text → List Text
values none = []
values (some v) = v ∷ []

common_pairs-is_plain :
    (user_id other : Option Text)
    → all (lacks b'&') (values user_id ++ values other) ≡ true
    → all is_plain (common_pairs user_id other) ≡ true
unfolding common_pairs
common_pairs-is_plain none none h = refl
common_pairs-is_plain none (some w) h = ground (arith, h)
common_pairs-is_plain (some u) none h = ground (arith, h)
common_pairs-is_plain (some u) (some w) h = ground (arith, h)

-- The user IDs that select a verification come back as they were given, if none has an `&`.
pub common_query-parse_query :
    (user_id other : Option Text)
    → all (lacks b'&') (values user_id ++ values other) ≡ true
    → (Map.get Text-discrete
          (codes "user_id")
          (parse_query (query_part (common_query user_id other)))
        ≡ user_id)
      × (Map.get Text-discrete
            (codes "with_user")
            (parse_query (query_part (common_query user_id other)))
          ≡ other)
unfolding common_query common_pairs
common_query-parse_query user_id other h =
    let read =
      parse_query-query_of (common_pairs user_id other) (common_pairs-is_plain user_id other h) in
    (
      ap (Map.get Text-discrete (codes "user_id")) read ∙ (get-common_pairs user_id other).0,
      ap (Map.get Text-discrete (codes "with_user")) read ∙ (get-common_pairs user_id other).1,
    )

abbrev pub is_parameter : Text × Text → Bool
is_parameter (k, v) = lacks b'=' k && lacks b'&' k && is_new (codes "user_id") (k, v)

module _ (enc : Text → Text) (escaped : (s : Text) → lacks b'&' (enc s) ≡ true) where
  encoded-is_plain :
      (ps : List (Text × Text))
      → all is_parameter ps ≡ true
      → all is_plain (map (encoded_pair enc) ps) ≡ true
  encoded-is_plain [] h = refl
  encoded-is_plain ((k, v) ∷ ps) h = ground (arith, h, escaped v, encoded-is_plain ps)

  encoded-is_new :
      (ps : List (Text × Text))
      → all is_parameter ps ≡ true
      → all (is_new (codes "user_id")) (map (encoded_pair enc) ps) ≡ true
  encoded-is_new [] h = refl
  encoded-is_new ((k, v) ∷ ps) h = ground (arith, h, encoded-is_new ps)

  user_of_debug_query :
      (user : Option Text) (extra : List (Text × Text))
      → all is_parameter extra ≡ true
      → Map.get Text-discrete
          (codes "user_id")
          (parse_query (query_part (debug_query enc user extra)))
        ≡ Option.map enc user
  unfolding debug_query
  user_of_debug_query none extra h =
      user_of_query none (map (encoded_pair enc) extra) (encoded-is_plain extra h)
        (encoded-is_new extra h)
  user_of_debug_query (some u) extra h =
      user_of_query (some (enc u)) (map (encoded_pair enc) extra)
        (ground (arith, escaped u, encoded-is_plain extra h)) (encoded-is_new extra h)

  module _ (J : Json) {C : Type 0} (parse : Text → Option (Json.Value J)) (P : Parsers)
      (decoded : (s : Text) → P.decode (enc s) ≡ s) (log_control : LogControl)
      (sessions : List (AdminSession C)) where
    decoded_user : (user : Option Text) → (Option.map enc user >>=? λ u. some (P.decode u)) ≡ user
    decoded_user none = refl
    decoded_user (some u) = ap some (decoded u)

    -- If the encoding writes no `&` and the decoding undoes it, a debug command reaches the session
    -- of the user that it was given, or the only session if it was given none, for every route, and
    -- for further parameters whose names have no `=` or `&` and are not `user_id`.
    pub debug_operation-debug_query :
        (user : Option Text) (extra : List (Text × Text)) (method : Text) (path : List Text)
        (body : Json.Value J)
        → all is_parameter extra ≡ true
        → debug_operation J parse P log_control sessions method path
            (parse_query (query_part (debug_query enc user extra)))
            body
          ≡ debug_path J parse P log_control sessions path method
              (parse_query (query_part (debug_query enc user extra)))
              body
              (resolve_session user sessions)
    unfolding debug_operation
    debug_operation-debug_query user extra method path body h =
        let query = parse_query (query_part (debug_query enc user extra)) in
        let at = λ (u : Option Text).
          debug_path J parse P log_control sessions path method query body
            (resolve_session u sessions) in
        ap (λ u. at (u >>=? λ v. some (P.decode v))) (user_of_debug_query user extra h)
        ∙ ap at (decoded_user user)
