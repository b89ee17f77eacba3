-- ===== src/Examples/Administering.antt =====
-- A request of the admin API with its token, and a session picked by its user ID.
use ement_e2ee.Prelude.{
  ◌+◌, ◌-◌, ◌≡◌, ◌≢◌, ◌⊎◌, refl, true, arith, Option, none, some, List, [], ◌∷◌, ◌++◌, Text, codes,
}
use ement_e2ee.Prelude.Str.{lacks}
use ement_e2ee.Prelude.Map.{Map}
use ement_e2ee.Admin.Params.{AdminSession, parse_query, resolve_session}
use ement_e2ee.Admin.Handle.{AdminRequest, Parsers, Operation, handle, debug_operation, debug_path}
use ement_e2ee.Admin.HandleLaws.{Among, handle_guarded, resolve_session_sound}
use ement_e2ee.Admin.Query.{debug_query, query_part}
use ement_e2ee.Admin.QueryLaws.{debug_operation-debug_query}
use ement_e2ee.Examples.Tree.{leaf, tree_json}

abbrev parsers : Parsers
parsers = record {
  user = some;
  room = some;
  level = λ level. none;
  limit = λ limit. none;
  decode = λ s. s;
}

abbrev ann : AdminSession Text
ann = record { user_id = codes "@ann:b"; context = [] }

abbrev bob : AdminSession Text
bob = record { user_id = codes "@bob:b"; context = [] }

abbrev status_request : AdminRequest
status_request = record {
  method = codes "GET";
  authorization = some (codes "Bearer key");
  query = none;
  body = none;
}

handle_guarded_example :
    ((status_request.authorization ≡ some (codes "Bearer " ++ codes "key"))
      × (handle tree_json
            (λ text. some leaf)
            parsers
            none
            (ann ∷ [])
            (some (codes "key"))
            (codes "status")
            status_request
          ≡ handle tree_json
              (λ text. some leaf)
              parsers
              none
              (ann ∷ [])
              none
              (codes "status")
              status_request))
    ⊎ ((status_request.authorization ≢ some (codes "Bearer " ++ codes "key"))
        × (handle tree_json
              (λ text. some leaf)
              parsers
              none
              (ann ∷ [])
              (some (codes "key"))
              (codes "status")
              status_request
            ≡ Operation.answer_status 401))
handle_guarded_example =
    handle_guarded tree_json (λ text. some leaf) parsers none (ann ∷ []) (codes "key")
      (codes "status") status_request

handle_runs :
    handle tree_json
      (λ text. some leaf)
      parsers
      none
      (ann ∷ [])
      (some (codes "key"))
      (codes "status")
      status_request
    ≡ Operation.run_status
unfolding handle ement_e2ee.Prelude.Str.strip_prefix ement_e2ee.Prelude.Text-discrete
    ement_e2ee.Prelude.Str.split
handle_runs = refl

resolve_session_sound_example :
    ((some (codes "@bob:b") ≡ none) × (ann ∷ bob ∷ [] ≡ bob ∷ []))
    ⊎ ((some (codes "@bob:b") ≡ some bob.user_id) × Among bob (ann ∷ bob ∷ []))
unfolding resolve_session ement_e2ee.Prelude.Text-discrete
resolve_session_sound_example =
    resolve_session_sound (some (codes "@bob:b")) (ann ∷ bob ∷ []) bob refl

-- A reversible code whose texts have no `&`.
abbrev shift : Text → Text
shift [] = []
shift (x ∷ s) = (x + 39) ∷ shift s

abbrev shift_back : Text → Text
shift_back [] = []
shift_back (x ∷ s) = (x - 39) ∷ shift_back s

shift-lacks : (s : Text) → lacks b'&' (shift s) ≡ true
shift-lacks [] = refl
shift-lacks (x ∷ s) = ground (arith, shift-lacks s)

shift_back-shift : (s : Text) → shift_back (shift s) ≡ s
shift_back-shift [] = refl
shift_back-shift (x ∷ s) = ground (arith, shift_back-shift s)

abbrev shifted_parsers : Parsers
shifted_parsers = record parsers { decode = shift_back }

abbrev named : Map Text Text
named =
    parse_query
      (query_part (debug_query shift (some (codes "@bob:b")) ((codes "user", codes "@ann:b") ∷ [])))

debug_operation-debug_query_example :
    debug_operation tree_json
      (λ text. some leaf)
      shifted_parsers
      none
      (ann ∷ bob ∷ [])
      (codes "GET")
      (codes "devices" ∷ [])
      named
      leaf
    ≡ debug_path tree_json
        (λ text. some leaf)
        shifted_parsers
        none
        (ann ∷ bob ∷ [])
        (codes "devices" ∷ [])
        (codes "GET")
        named
        leaf
        (resolve_session (some (codes "@bob:b")) (ann ∷ bob ∷ []))
unfolding ement_e2ee.Prelude.Text-discrete
debug_operation-debug_query_example =
    debug_operation-debug_query shift shift-lacks tree_json (λ text. some leaf) shifted_parsers
      shift_back-shift none (ann ∷ bob ∷ []) (some (codes "@bob:b"))
      ((codes "user", codes "@ann:b") ∷ []) (codes "GET") (codes "devices" ∷ []) leaf refl
