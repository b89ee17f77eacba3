-- ===== src/Verify/StageLaws.antt =====
-- What the stage of a flow says about it, and what `advance` does on its own.
use ement_e2ee.Prelude.{◌≡◌, refl, Bool, true, false, ◌||◌, Option, none, some, arith}
use ement_e2ee.Verify.Stage.{
  Request, Sas, cancelled, compare, sas_and, stage, accept_request, start_sas, accept_sas, rest,
  advance,
}

-- A flow that the request or the SAS reports as cancelled is shown as cancelled, even if the other
-- of the two reports it as done; and only such a flow is.
pub stage-cancelled_iff :
    (r : Request) (s : Option Sas)
    → ((stage r s ≡ cancelled → (r.is_cancelled || sas_and (λ t. t.is_cancelled) s) ≡ true))
      × ((r.is_cancelled || sas_and (λ t. t.is_cancelled) s) ≡ true → stage r s ≡ cancelled)
unfolding stage
stage-cancelled_iff r none = (ground arith, ground arith)
stage-cancelled_iff r (some s) = (ground arith, ground arith)

-- The users are asked to compare only in a live flow whose SAS can be presented, which this side
-- has not confirmed, and which it started or has accepted.
pub stage_compare :
    (r : Request) (s : Option Sas)
    → stage r s ≡ compare
    → (r.is_cancelled ≡ false)
      × (r.is_done ≡ false)
      × ((t : Sas) × (s ≡ some t)
          × (t.is_cancelled ≡ false)
          × (t.is_done ≡ false)
          × (t.can_be_presented ≡ true)
          × (t.have_we_confirmed ≡ false)
          × ((t.we_started || t.has_been_accepted) ≡ true))
unfolding stage
stage_compare r none h = absurd (ground arith)
stage_compare r (some t) h = (
  ground arith,
  ground arith,
  (t, refl, ground arith, ground arith, ground arith, ground arith, ground arith),
)

-- `advance` takes a step only in a flow that is neither cancelled nor done. It starts a SAS only
-- where there is none, the flow is ready, and this side sent the request or was told to start;
-- it accepts a SAS only if the other side started it and this side has not accepted; and it
-- accepts a request only if this side did not send it.
pub advance_guards :
    (start : Bool) (r : Request) (s : Option Sas)
    → ((r.is_cancelled || r.is_done) ≡ true → advance start r s ≡ rest)
      × (advance start r s ≡ start_sas
          → (s ≡ none) × (r.is_ready ≡ true) × ((r.we_started || start) ≡ true))
      × (advance start r s ≡ accept_sas
          → (t : Sas) × (s ≡ some t) × (t.we_started ≡ false) × (t.has_been_accepted ≡ false))
      × (advance start r s ≡ accept_request
          → (s ≡ none) × (r.we_started ≡ false) × (r.is_requested ≡ true))
unfolding advance
advance_guards start r none = (ground arith, ground arith, λ h. absurd (ground arith), ground arith)
advance_guards start r (some t) = (
  ground arith,
  λ h. absurd (ground arith),
  λ h. (t, refl, ground arith, ground arith),
  λ h. absurd (ground arith),
)
