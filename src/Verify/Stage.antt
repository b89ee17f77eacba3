-- ===== src/Verify/Stage.antt =====
-- `stage` and `advance` of src/crypto/verify.rs. What the SDK's request and SAS objects answer is
-- a parameter: the two records hold those answers.
use ement_e2ee.Prelude.{Bool, false, not, ◌&&◌, ◌||◌, Option, none, some, if◌then◌else◌}

pub record Request : Type 0 where
  pub is_cancelled : Bool
  pub is_done : Bool
  pub is_ready : Bool
  pub we_started : Bool
  -- `matches!(request.state(), VerificationRequestState::Requested { .. })`
  pub is_requested : Bool

pub record Sas : Type 0 where
  pub is_cancelled : Bool
  pub is_done : Bool
  pub we_started : Bool
  pub has_been_accepted : Bool
  pub have_we_confirmed : Bool
  pub can_be_presented : Bool

pub data Stage : Type 0 where
  cancelled done sas_incoming confirmed compare key_exchange ready outgoing incoming : Stage

-- `sas.is_some_and(test)`
unfoldable pub sas_and : (Sas → Bool) → Option Sas → Bool
sas_and test none = false
sas_and test (some s) = test s

unfoldable pub live_stage : Request → Option Sas → Stage
live_stage request (some sas) =
    if not sas.we_started && not sas.has_been_accepted
    then sas_incoming
    else if sas.have_we_confirmed
    then confirmed
    else if sas.can_be_presented
    then compare
    else key_exchange
live_stage request none =
    if request.is_ready then ready else if request.we_started then outgoing else incoming

-- Where a flow stands, as one word.
unfoldable pub stage : Request → Option Sas → Stage
unfolding sas_and live_stage
stage request sas =
    if request.is_cancelled || sas_and (λ s. s.is_cancelled) sas
    then cancelled
    else if request.is_done || sas_and (λ s. s.is_done) sas
    then done
    else live_stage request sas

-- The SDK call that `advance` makes.
pub data Step : Type 0 where
  accept_request start_sas accept_sas rest : Step

unfoldable pub advance_step : Bool → Request → Stage → Step
advance_step start request incoming = if request.is_requested then accept_request else rest
advance_step start request ready = if request.we_started || start then start_sas else rest
advance_step start request sas_incoming = accept_sas
advance_step start request _ = rest

unfoldable pub advance : Bool → Request → Option Sas → Step
unfolding stage advance_step
advance start request sas = advance_step start request (stage request sas)
