-- ===== src/Provider/Dispatch.antt =====
-- internal/providercontract/dispatch.go: the envelope of a job, the frozen model snapshot, and the
-- budget reservation that is bound to one run, input, route and budget. The binding digest is the
-- SHA-256 of the JSON of its material; both are the Go library's, and `digest` stands for them.
pub mod Binding
pub mod Accepted
use ai_video_series_workflow.Common.{
  ℕ, Bool, true, false, not, ◌&&◌, ◌||◌, Option, none, some, List, [], ◌∷◌, if◌then◌else◌, Text,
  text_eq, codes, is_empty, is_blank, is_sha256, ℤ, pos, ltb_ℤ, Result, ok, err, ◌>>◌,
}
use ai_video_series_workflow.Provider.Budget.{BudgetEnvelope, Refusal}
use ai_video_series_workflow.Provider.Budget
use ai_video_series_workflow.Provider.Contract.{
  GenerationRequest, RequestError, validate_request, AssetRef, JobStatus, Usage, modality_text,
  modality_image, modality_video, modality_audio,
}
use ai_video_series_workflow.Provider.Errors.{ProviderError}

-- CapabilityAlias.
abbrev pub capability_text : Text
capability_text = codes "text.primary"

abbrev pub capability_image : Text
capability_image = codes "image.primary"

abbrev pub capability_video : Text
capability_video = codes "video.primary"

abbrev pub capability_speech : Text
capability_speech = codes "speech.primary"

-- `CapabilityAlias.Valid`.
unfoldable pub is_capability : Text → Bool
is_capability c =
    text_eq c capability_text
    || text_eq c capability_image
    || text_eq c capability_video
    || text_eq c capability_speech

-- `CapabilityAlias.Modality`.
unfoldable pub capability_modality : Text → Text
capability_modality c =
    if text_eq c capability_text
    then modality_text
    else if text_eq c capability_image
    then modality_image
    else if text_eq c capability_video
    then modality_video
    else if text_eq c capability_speech
    then modality_audio
    else []

pub record ModelSnapshot : Type 0 where
  pub capability_alias : Text
  pub provider : Text
  pub model_id : Text
  pub endpoint_id : Text
  pub route_version : Text
  pub capability_hash : Text
  pub verification : Text

pub data ModelError : Type 0 where
  no_capability snapshot_mismatch no_evidence : ModelError

-- `ModelSnapshot.Validate`.
unfoldable pub validate_model : ModelSnapshot → Text → Option ModelError
validate_model m alias =
    if not (is_capability alias)
    then some no_capability
    else if not (text_eq m.capability_alias alias)
        || is_blank m.provider
        || is_blank m.model_id
        || is_blank m.route_version
        || not (is_sha256 m.capability_hash)
    then some snapshot_mismatch
    else if is_blank m.verification
    then some no_evidence
    else none

pub record BudgetReservation : Type 0 where
  pub reservation_id : Text
  pub currency : Text
  pub amount_micros : ℤ
  pub pricing_version : Text
  pub confirmed_by : Text
  pub binding_hash : Text

pub record BudgetBindingInput : Type 0 where
  pub run_id : Text
  pub input_hash : Text
  pub model : ModelSnapshot
  pub budget : BudgetEnvelope

pub data ReservationError : Type 0 where
  not_approved no_run_or_input incomplete_approval : ReservationError
  model_refused : ModelError → ReservationError
  envelope_refused : Refusal → ReservationError
  below_estimate above_maximum bound_elsewhere : ReservationError

abbrev pub is_incomplete : BudgetReservation → Bool
is_incomplete b =
    is_blank b.reservation_id
    || is_blank b.currency
    || ltb_ℤ b.amount_micros (pos 0)
    || is_blank b.pricing_version
    || is_blank b.confirmed_by

-- `BudgetReservation.Validate`.
unfoldable pub validate_reservation : BudgetReservation → Option ReservationError
validate_reservation b =
    if is_incomplete b || not (is_sha256 b.binding_hash) then some not_approved else none

abbrev pub model_error : Option ModelError → Option ReservationError
model_error none = none
model_error (some e) = some (model_refused e)

abbrev pub envelope_error : Option Refusal → Option ReservationError
envelope_error none = none
envelope_error (some e) = some (envelope_refused e)

-- The first error of two checks in turn.
abbrev pub or_else {ℓ} : {E : Type ℓ} → Option E → Option E → Option E
or_else none k = k
or_else (some e) k = some e

-- `validateBudgetBindingInput`.
unfoldable pub validate_binding_input : BudgetBindingInput → Option ReservationError
validate_binding_input input =
    if is_blank input.run_id || not (is_sha256 input.input_hash)
    then some no_run_or_input
    else or_else (model_error (validate_model input.model input.model.capability_alias))
        (envelope_error (Budget.validate input.budget))

-- The struct that is hashed.
pub record Material : Type 0 where
  pub schema_version : Text
  pub run_id : Text
  pub input_hash : Text
  pub model : ModelSnapshot
  pub budget : BudgetEnvelope
  pub reservation_id : Text
  pub currency : Text
  pub amount_micros : ℤ
  pub pricing_version : Text
  pub confirmed_by : Text

-- The material of `budgetReservationBindingHash`.
unfoldable pub material : BudgetReservation → BudgetBindingInput → Material
material b input = record {
  schema_version = codes "budget-reservation-binding-v1";
  run_id = input.run_id;
  input_hash = input.input_hash;
  model = input.model;
  budget = input.budget;
  reservation_id = b.reservation_id;
  currency = b.currency;
  amount_micros = b.amount_micros;
  pricing_version = b.pricing_version;
  confirmed_by = b.confirmed_by;
}

pub record JobRequest : Type 0 where
  pub schema_version : Text
  pub job_id : Text
  pub run_id : Text
  pub capability : Text
  pub input_hash : Text
  pub model : ModelSnapshot
  pub request : GenerationRequest
  pub budget_reservation : BudgetReservation
  pub trace_id : Text
  pub simulation : Text

pub data JobError : Type 0 where
  wrong_schema ids_missing bad_capability bad_input_hash modality_mismatch : JobError
  model_invalid : ModelError → JobError
  request_invalid : RequestError → JobError
  idempotency_mismatch : JobError
  reservation_invalid : ReservationError → JobError

-- The error of a part of the job.
abbrev pub job_error {ℓ} : {E : Type ℓ} → (E → JobError) → Option E → Option JobError
job_error wrap none = none
job_error wrap (some e) = some (wrap e)

-- The switch of `JobRequest.Validate`.
unfoldable pub validate_envelope : JobRequest → Option JobError
validate_envelope r =
    if not (text_eq r.schema_version (codes "v1"))
    then some wrong_schema
    else if is_blank r.job_id || is_blank r.run_id || is_blank r.trace_id
    then some ids_missing
    else if not (is_capability r.capability)
    then some bad_capability
    else if not (is_sha256 r.input_hash)
    then some bad_input_hash
    else if not (text_eq r.request.modality (capability_modality r.capability))
    then some modality_mismatch
    else none

abbrev pub binding_input_of : JobRequest → BudgetBindingInput
binding_input_of r = record {
  run_id = r.run_id;
  input_hash = r.input_hash;
  model = r.model;
  budget = r.request.budget;
}

module _ (digest : Material → Text) where
  -- `BindBudgetReservation`.
  unfoldable pub bind_budget_reservation :
      BudgetReservation → BudgetBindingInput → Result ReservationError BudgetReservation
  bind_budget_reservation b input = do
    validate_binding_input input
    if is_incomplete b then some incomplete_approval else none
    ok (record b { binding_hash = digest (material b input) })

  -- The comparisons of `ValidateFor`, after the two validations.
  unfoldable pub validate_amount : BudgetReservation → BudgetBindingInput → Option ReservationError
  validate_amount b input =
      if ltb_ℤ b.amount_micros input.budget.estimated_cost_micros
      then some below_estimate
      else if ltb_ℤ input.budget.max_cost_micros b.amount_micros
      then some above_maximum
      else if not (text_eq b.binding_hash (digest (material b input)))
      then some bound_elsewhere
      else none

  -- `BudgetReservation.ValidateFor`.
  unfoldable pub validate_for : BudgetReservation → BudgetBindingInput → Option ReservationError
  validate_for b input =
      or_else (validate_reservation b)
        (or_else (validate_binding_input input) (validate_amount b input))

  -- `JobRequest.Validate`.
  unfoldable pub validate_job : JobRequest → Option JobError
  validate_job r = or_else (validate_envelope r) (
      or_else (job_error model_invalid (validate_model r.model r.capability)) (
        or_else (job_error request_invalid (validate_request r.request)) (
          or_else
            (if text_eq r.request.idempotency_key r.job_id then none else some idempotency_mismatch)
            (job_error reservation_invalid
              (validate_for r.budget_reservation (binding_input_of r))))))
