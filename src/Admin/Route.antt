-- ===== src/Admin/Route.antt =====
-- The routes of the admin API, and the actions on a verification: `handle` of src/admin/mod.rs.
use ement_e2ee.Prelude.{
  Bool, ◌&&◌, Option, none, some, List, [], ◌∷◌, Text, codes, eqb, if◌then◌else◌,
}

pub data AdminRoute : Type 0 where
  status bootstrap keys_export keys_import verify_list verify_start unknown : AdminRoute
  verify_show : Text → AdminRoute
  verify_action : Text → Text → AdminRoute
  debug : List Text → AdminRoute

pub data VerifyAction : Type 0 where
  -- Whether the short authentication string is to be started too.
  advance : Bool → VerifyAction
  mismatch accept start_sas sas_accept confirm cancel : VerifyAction

abbrev pub is_get : Text → Bool
is_get method = eqb method (codes "GET")

abbrev pub is_post : Text → Bool
is_post method = eqb method (codes "POST")

unfoldable pub other_route : List Text → AdminRoute
other_route [] = unknown
other_route (a ∷ rest) = if eqb a (codes "debug") then debug rest else unknown

unfoldable pub admin_route : Text → List Text → AdminRoute
unfolding other_route
admin_route method [] = unknown
admin_route method (a ∷ []) =
    if is_get method && eqb a (codes "status")
    then status
    else if is_post method && eqb a (codes "bootstrap")
    then bootstrap
    else if is_get method && eqb a (codes "verify")
    then verify_list
    else other_route (a ∷ [])
admin_route method (a ∷ b ∷ []) =
    if is_post method && eqb a (codes "keys") && eqb b (codes "export")
    then keys_export
    else if is_post method && eqb a (codes "keys") && eqb b (codes "import")
    then keys_import
    else if is_post method && eqb a (codes "verify") && eqb b (codes "start")
    then verify_start
    else if is_get method && eqb a (codes "verify")
    then verify_show b
    else other_route (a ∷ b ∷ [])
admin_route method (a ∷ b ∷ c ∷ []) =
    if is_post method && eqb a (codes "verify")
    then verify_action b c
    else other_route (a ∷ b ∷ c ∷ [])
admin_route method (a ∷ b ∷ c ∷ d ∷ rest) = other_route (a ∷ b ∷ c ∷ d ∷ rest)

unfoldable pub action_of : Bool → Text → Option VerifyAction
action_of with_sas action =
    if eqb action (codes "advance")
    then some (advance with_sas)
    else if eqb action (codes "mismatch")
    then some mismatch
    else if eqb action (codes "accept")
    then some accept
    else if eqb action (codes "start-sas")
    then some start_sas
    else if eqb action (codes "sas-accept")
    then some sas_accept
    else if eqb action (codes "confirm")
    then some confirm
    else if eqb action (codes "cancel")
    then some cancel
    else none
