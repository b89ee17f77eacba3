-- ===== src/Admin/HandleLaws.antt =====
-- Who the admin API lets in, and which session a request is about: `handle` and `resolve_session`
-- of src/admin/mod.rs.
use ement_e2ee.Prelude.{
  ◌≡◌, ◌⊎◌, ◌≢◌, subst, Bool-cases, Option-cases, some_inj, inl, inr, refl, ap, sym, ◌∙◌, true,
  false, Option, none, some, List, [], ◌∷◌, ◌++◌, Text, codes, eqb, if◌then◌else◌, arith,
}
use ement_e2ee.Prelude.Str.{strip_prefix, strip_prefix-append, strip_prefix-eq-some}
use ement_e2ee.Json.{Json}
use ement_e2ee.Admin.Params.{Answered, AdminSession, find_user, only_session, resolve_session}
use Answered.{ok}
use ement_e2ee.Admin.Handle.{AdminRequest, Parsers, LogControl, Operation, handle, admits}
use Operation.{answer_status}

-- The session is one of the list.
unfoldable pub Among : {C : Type 0} → AdminSession C → List (AdminSession C) → Type 0
Among s [] = ⊥
Among s (t ∷ sessions) = (s ≡ t) ⊎ Among s sessions

eqb-eq : (s t : Text) → eqb s t ≡ true → s ≡ t
eqb-eq s t h = grind (arith)

eqb_refl : (s : Text) → eqb s s ≡ true
eqb_refl s = grind (arith)

admits_bearer : (token : Text) → admits (some token) (some (codes "Bearer " ++ token)) ≡ true
unfolding admits
admits_bearer token =
    ap (λ o. elim o [ none ↦ false | some t ↦ eqb t token ])
      (strip_prefix-append (codes "Bearer ") token)
    ∙ eqb_refl token

admits-true :
    (token : Text) (authorization : Option Text)
    → admits (some token) authorization ≡ true
    → authorization ≡ some (codes "Bearer " ++ token)
unfolding admits
admits-true token none h = ground arith
admits-true token (some value) h = elim (Option-cases (strip_prefix (codes "Bearer ") value)) [
  | inl e ↦ ground (arith, e)
  | inr (t, e) ↦
      let same : t ≡ token =
        eqb-eq t token (subst (λ o. elim o [ none ↦ false | some u ↦ eqb u token ] ≡ true) e h) in
      ap some
        (strip_prefix-eq-some (codes "Bearer ") value t e ∙ ap (λ u. codes "Bearer " ++ u) same)
]

admitted_and_refused :
    {token : Text} {authorization : Option Text}
    → authorization ≡ some (codes "Bearer " ++ token)
    → admits (some token) authorization ≡ false
    → ⊥
admitted_and_refused {token} h e =
    let admitted = subst (λ a. admits (some token) a ≡ true) (sym h) (admits_bearer token) in cc

module _ (J : Json) {C : Type 0} (parse : Text → Option (Json.Value J)) (P : Parsers)
    (log_control : LogControl) (sessions : List (AdminSession C)) where
  -- With an admin token set, a request whose Authorization header is exactly `Bearer` and that token
  -- comes to the same operation as without one, and every other request is answered 401.
  pub handle_guarded :
      (token sub : Text) (req : AdminRequest)
      → ((req.authorization ≡ some (codes "Bearer " ++ token))
          × (handle J parse P log_control sessions (some token) sub req
              ≡ handle J parse P log_control sessions none sub req))
        ⊎ ((req.authorization ≢ some (codes "Bearer " ++ token))
            × (handle J parse P log_control sessions (some token) sub req ≡ answer_status 401))
  unfolding handle
  handle_guarded token sub req = elim (Bool-cases (admits (some token) req.authorization)) [
    | inl e ↦ inl (admits-true token req.authorization e, ground (arith, e))
    | inr e ↦ inr ((λ h. admitted_and_refused h e), ground (arith, e))
  ]

module _ {C : Type 0} where
  only_session-ok :
      (sessions : List (AdminSession C)) (s : AdminSession C)
      → only_session sessions ≡ ok s
      → sessions ≡ s ∷ []
  unfolding only_session
  only_session-ok [] s h = ground arith
  only_session-ok (t ∷ []) s h = ground arith
  only_session-ok (t ∷ u ∷ sessions) s h = ground arith

  find_user-Among :
      (user_id : Text) (sessions : List (AdminSession C)) (s : AdminSession C)
      → find_user user_id sessions ≡ some s
      → Among s sessions × (s.user_id ≡ user_id)
  unfolding find_user Among
  find_user-Among user_id [] s h = ground arith
  find_user-Among user_id (t ∷ sessions) s h = elim (Bool-cases (eqb t.user_id user_id)) [
    | inl e ↦
        let same =
          some_inj t s
            (subst (λ b. (if b then some t else find_user user_id sessions) ≡ some s) e h) in
        (inl (sym same), ap (λ u. u.user_id) (sym same) ∙ eqb-eq t.user_id user_id e)
    | inr e ↦
        let (among, same) =
          find_user-Among user_id sessions s
            (subst (λ b. (if b then some t else find_user user_id sessions) ≡ some s) e h) in
        (inr among, same)
  ]

  -- A session that the admin API resolves is the only one where no user ID is given; else it is one
  -- of the sessions and has the user ID that was given.
  pub resolve_session_sound :
      (user_id : Option Text) (sessions : List (AdminSession C)) (s : AdminSession C)
      → resolve_session user_id sessions ≡ ok s
      → ((user_id ≡ none) × (sessions ≡ s ∷ [])) ⊎ ((user_id ≡ some s.user_id) × Among s sessions)
  unfolding resolve_session
  resolve_session_sound none sessions s h = inl (refl, only_session-ok sessions s h)
  resolve_session_sound (some user) sessions s h = elim (Option-cases (find_user user sessions)) [
    | inl e ↦ ground (arith, e)
    | inr (t, e) ↦
        let same : t ≡ s = ground (arith, e) in
        let (among, named) = find_user-Among user sessions s (e ∙ ap some same) in
        inr (ap some (sym named), among)
  ]
