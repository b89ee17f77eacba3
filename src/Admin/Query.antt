-- ===== src/Admin/Query.antt =====
-- The queries that the command line client sends: `query` in `run` of src/admin/debug.rs and
-- `common_query` of src/admin/ctl.rs.
use ement_e2ee.Prelude.{Option, none, some, List, [], ◌∷◌, ◌++◌, map, Text, codes}
use ement_e2ee.Prelude.Str.{strip_prefix}

-- `join("&")`
unfoldable pub joined : List Text → Text
joined [] = []
joined (s ∷ []) = s
joined (s ∷ t ∷ ss) = s ++ b'&' ∷ joined (t ∷ ss)

unfoldable pub query_of : List Text → Text
unfolding joined
query_of [] = []
query_of (s ∷ ss) = b'?' ∷ joined (s ∷ ss)

abbrev pub pair_text : Text × Text → Text
pair_text (k, v) = k ++ b'=' ∷ v

abbrev pub optional_pair : Text → Option Text → List (Text × Text)
optional_pair k none = []
optional_pair k (some v) = (k, v) ∷ []

abbrev pub encoded_pair : (Text → Text) → Text × Text → Text × Text
encoded_pair enc (k, v) = (k, enc v)

unfoldable pub debug_query : (Text → Text) → Option Text → List (Text × Text) → Text
unfolding query_of
debug_query enc user_id extra =
    query_of
      (map pair_text (map (encoded_pair enc) (optional_pair (codes "user_id") user_id ++ extra)))

-- The values go out as they are.
unfoldable pub common_query : Option Text → Option Text → Text
unfolding query_of
common_query user_id with_user = query_of (
    map pair_text
      (optional_pair (codes "user_id") user_id ++ optional_pair (codes "with_user") with_user))

-- The query of the URI that ends in the text.
abbrev pub query_part : Text → Option Text
query_part = strip_prefix (b'?' ∷ [])
