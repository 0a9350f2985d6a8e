-- ===== src/Production/Preflight.antt =====
-- internal/videopipeline/production/generation.go: the input of an execution, what the runner is given
-- to work with, and the checks before a run begins. The fields of `GenerationRunner` that are interfaces
-- or functions are the record `Environment` over the state `World` of everything outside; the
-- provider, the committer, the clock and the wait may change it, and the prompt source reads it. The
-- runner is given all of them, none is nil, and their errors are failures: an error that holds a nil
-- *providercontract.Error, at which `Execute` would panic, is not modelled.
pub mod Cleared
use ai_video_series_workflow.Common.{
  ℕ, Bool, true, false, not, ◌&&◌, ◌||◌, Option, none, some, List, [], ◌∷◌, if◌then◌else◌, Text,
  text_eq, codes, ℤ, Result, ok, err, ◌>>◌, ◌>>=◌, first_some,
}
use ai_video_series_workflow.Provider.Budget.{BudgetEnvelope, BudgetPolicy, Denial, evaluate}
use ai_video_series_workflow.Provider.Contract.{GenerationRequest, AssetRef, Job, Capability}
use ai_video_series_workflow.Provider.Dispatch.{
  ModelSnapshot, ModelError, BudgetReservation, ReservationError, BudgetBindingInput, Material,
  validate_model, validate_for, capability_video,
}
use ai_video_series_workflow.Provider.Manifest.{
  GenerationManifest, evidence_mock_only, evidence_live_provider,
}
use ai_video_series_workflow.Production.RevisionState.{non_empty}
use ai_video_series_workflow.Production.Refs.{
  RevisionRef, GateApproval, gate1, gate2, is_approved, is_complete_ref, AuthorizationEvidence,
  AuthorizationError, validate_authorization, kind_source, kind_shot_spec,
}
use ai_video_series_workflow.Production.Prompt.{
  PromptCodec, Snapshot, PromptError, verify_exact_prompt_snapshot, build_generation_request,
}
use ai_video_series_workflow.Production.Run.{
  Failure, provider_failure, no_run_id, source_incomplete, shot_incomplete, not_aligned,
  prompt_refused, authorization_refused, gate1_refused, gate2_refused, route_refused, no_evidence,
  mock_route_required, mock_route_forbidden, reservation_refused, budget_denied, no_capability,
  select_capability,
}

-- The struct that `Execute` hashes.
pub record RunMaterial : Type 0 where
  pub request : GenerationRequest
  pub source_revision : RevisionRef
  pub shot_revision : RevisionRef
  pub prompt_hash : Text
  pub authorization : AuthorizationEvidence
  pub approval1 : GateApproval
  pub approval2 : GateApproval
  pub route : ModelSnapshot
  pub budget_reservation : BudgetReservation
  pub evidence : Text

-- The last three are `contentHash` of the two structs and `hashString`.
pub record Environment (c : PromptCodec) : Type 1 where
  pub World : Type 0
  pub discover : World → World × Result Failure (List Capability)
  pub submit : World → GenerationRequest → World × Result Failure Job
  pub poll : World → Text → World × Result Failure Job
  pub cancel : World → Text → World
  pub commit : World → AssetRef → World × Result Failure AssetRef
  pub get_prompt : World → Text → Option (Snapshot c)
  pub now : World → World × ℕ
  pub wait : World → ℕ → World × Option Failure
  pub binding_digest : Material → Text
  pub hash_run : RunMaterial → Option Text
  pub hash_manifest : GenerationManifest → Option Text
  pub hash_string : Text → Text

pub record GenerationInput (c : PromptCodec) : Type 0 where
  pub run_id : Text
  pub idempotency_key : Text
  pub source_revision : RevisionRef
  pub shot_revision : RevisionRef
  pub prompt : Snapshot c
  pub authorization : AuthorizationEvidence
  pub approval1 : GateApproval
  pub approval2 : GateApproval
  pub route : ModelSnapshot
  pub budget : BudgetEnvelope
  pub budget_policy : BudgetPolicy
  pub budget_reservation : BudgetReservation
  pub spent_micros : ℤ
  pub reserved_micros : ℤ
  pub callback_url : Text
  pub evidence : Text
  pub max_polls : ℤ

-- A check, with the error it fails with.
abbrev pub require : Bool → Failure → Option Failure
require true f = none
require false f = some f

abbrev pub failing {ℓ} : {E : Type ℓ} → (E → Failure) → Option E → Option Failure
failing wrap none = none
failing wrap (some e) = some (wrap e)

abbrev pub wrap_err {ℓ κ} :
    {E : Type ℓ} {A : Type κ} → (E → Failure) → Result E A → Result Failure A
wrap_err wrap (ok a) = ok a
wrap_err wrap (err e) = err (wrap e)

-- The classification of the evidence against the route.
abbrev pub evidence_failure : Text → ModelSnapshot → Option Failure
evidence_failure evidence route =
    let mock = text_eq route.verification (codes "mock_only") in
    if not (text_eq evidence evidence_mock_only) && not (text_eq evidence evidence_live_provider)
    then some no_evidence
    else if text_eq evidence evidence_mock_only && not mock
    then some mock_route_required
    else if text_eq evidence evidence_live_provider && mock
    then some mock_route_forbidden
    else none

module _ (c : PromptCodec) (e : Environment c) where
  abbrev pub Prepared : Type 0
  Prepared = e.World × Result Failure (GenerationRequest × Capability)

  abbrev pub binding_of : GenerationInput c → BudgetBindingInput
  binding_of i = record {
    run_id = i.run_id;
    input_hash = i.prompt.content_hash;
    model = i.route;
    budget = i.budget;
  }

  -- The checks of `preflight` before the request is built.
  unfoldable pub input_checks : e.World → GenerationInput c → ℕ → List (Option Failure)
  input_checks w i at =
      require (non_empty (i.run_id ∷ i.idempotency_key ∷ []) && text_eq i.run_id i.idempotency_key)
        no_run_id
      ∷ require (is_complete_ref i.source_revision) source_incomplete
      ∷ require (is_complete_ref i.shot_revision) shot_incomplete
      ∷ require
          (text_eq i.source_revision.kind kind_source
            && text_eq i.shot_revision.kind kind_shot_spec
            && text_eq i.prompt.shot_revision.id i.shot_revision.id)
          not_aligned
      ∷ failing prompt_refused (verify_exact_prompt_snapshot c (e.get_prompt w) i.prompt)
      ∷ failing authorization_refused (validate_authorization i.authorization i.source_revision at)
      ∷ require (is_approved i.approval1 gate1 i.source_revision.id i.source_revision.content_hash)
          gate1_refused
      ∷ require (is_approved i.approval2 gate2 i.shot_revision.id i.shot_revision.content_hash)
          gate2_refused
      ∷ failing route_refused (validate_model i.route capability_video)
      ∷ evidence_failure i.evidence i.route
      ∷ []

  -- Those of the reservation and the budget, after it.
  unfoldable pub budget_checks : GenerationInput c → List (Option Failure)
  budget_checks i =
      failing reservation_refused
        (validate_for e.binding_digest i.budget_reservation (binding_of i))
      ∷ failing budget_denied (evaluate i.budget_policy i.spent_micros i.reserved_micros i.budget).1
      ∷ []

  -- `preflight` up to the call of `Discover`.
  unfoldable pub request_for : e.World → GenerationInput c → ℕ → Result Failure GenerationRequest
  request_for w i at = do
    first_some (input_checks w i at)
    request ←
        wrap_err prompt_refused
          (build_generation_request c i.prompt i.run_id i.idempotency_key i.callback_url i.budget)
    first_some (budget_checks i)
    ok (record request { model_hint = i.route.model_id })

  abbrev pub selected :
      GenerationRequest → Option Capability → Result Failure (GenerationRequest × Capability)
  selected request none = err no_capability
  selected request (some capability) = ok (request, capability)

  abbrev pub select_from :
      ModelSnapshot
      → GenerationRequest
      → Result Failure (List Capability)
      → Result Failure (GenerationRequest × Capability)
  select_from route request (err f) = err f
  select_from route request (ok capabilities) =
      selected request (select_capability capabilities route request.output)

  abbrev pub discover_for : e.World → ModelSnapshot → Result Failure GenerationRequest → Prepared
  discover_for w route (err f) = (w, err f)
  discover_for w route (ok request) =
      let (w', answer) = e.discover w in (w', select_from route request answer)

  -- `GenerationRunner.preflight`.
  unfoldable pub preflight : e.World → GenerationInput c → ℕ → Prepared
  preflight w i at = discover_for w i.route (request_for w i at)
