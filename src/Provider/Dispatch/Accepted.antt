-- ===== src/Provider/Dispatch/Accepted.antt =====
-- What a job that passes validation may spend, and on what.
use ai_video_series_workflow.Common.{
  ◌≡◌, refl, ◌⊎◌, inl, inr, Option, none, some, Text, List, text_eq, text_eq_iff, ℤ, pos, ◌≤ℤ◌,
  arith, if◌then◌else◌,
}
use ai_video_series_workflow.Provider.Budget
use ai_video_series_workflow.Provider.Budget.{Refusal}
use ai_video_series_workflow.Provider.Budget.Envelope.{IsMetered, IsSubscription, validate_iff}
use ai_video_series_workflow.Provider.Contract.{
  GenerationRequest, AssetRef, validate_request, validate_assets,
}
use ai_video_series_workflow.Provider.Dispatch.{
  JobRequest, Material, material, validate_job, validate_envelope, validate_for, validate_model,
  binding_input_of, capability_modality, JobError, job_error, ModelSnapshot, model_invalid,
  request_invalid, idempotency_mismatch, reservation_invalid,
}
use ai_video_series_workflow.Provider.Dispatch.Binding.{
  or_else-none, validate_for-hash, validate_for-covers,
}

-- What an accepted job is bound to, and the money that it may take.
pub record IsPayable (digest : Material → Text) (r : JobRequest) : Type 0 where
  pub once : r.request.idempotency_key ≡ r.job_id
  pub modality : r.request.modality ≡ capability_modality r.capability
  pub route : r.model.capability_alias ≡ r.capability
  pub bound :
      r.budget_reservation.binding_hash
      ≡ digest (material r.budget_reservation (binding_input_of r))
  pub covered : r.request.budget.estimated_cost_micros ≤ℤ r.budget_reservation.amount_micros
  pub capped : r.budget_reservation.amount_micros ≤ℤ r.request.budget.max_cost_micros
  pub billed :
      IsMetered r.request.budget
      ⊎ (IsSubscription r.request.budget × (r.budget_reservation.amount_micros ≡ pos 0))

job_error-none {ℓ} :
    {E : Type ℓ} (wrap : E → JobError) (o : Option E) → job_error wrap o ≡ none → o ≡ none
job_error-none wrap none h = refl
job_error-none wrap (some e) h = cc

envelope-modality :
    (r : JobRequest)
    → validate_envelope r ≡ none
    → r.request.modality ≡ capability_modality r.capability
unfolding validate_envelope
envelope-modality r h =
    ground (arith, text_eq_iff r.request.modality (capability_modality r.capability))

model-alias :
    (m : ModelSnapshot) (alias : Text) → validate_model m alias ≡ none → m.capability_alias ≡ alias
unfolding validate_model
model-alias m alias h = ground (arith, text_eq_iff m.capability_alias alias)

assets-budget :
    (o : Option Refusal) (assets : List AssetRef) → validate_assets o assets ≡ none → o ≡ none
assets-budget none assets h = refl
assets-budget (some r) assets h = cc

request-budget :
    (r : GenerationRequest) → validate_request r ≡ none → Budget.validate r.budget ≡ none
unfolding validate_request
request-budget r h = assets-budget (Budget.validate r.budget) r.assets (ground (arith, h))

idempotency : (a b : Text) (o : JobError) → (if text_eq a b then none else some o) ≡ none → a ≡ b
idempotency a b o h = ground (arith, text_eq_iff a b)

no_cash : (b : ℤ) (e m : ℤ) → e ≡ pos 0 → m ≡ pos 0 → e ≤ℤ b → b ≤ℤ m → b ≡ pos 0
no_cash b e m p q low high = ground arith

module _ (digest : Material → Text) where
  -- A job that passes `JobRequest.Validate` carries its own ID as idempotency key, the modality and
  -- the route of its capability, and a reservation that is bound to this run, input, route and
  -- budget and lies between the estimate and the maximum. Its budget is metered, or it is covered by
  -- a subscription and the reservation is of no cash.
  pub validate_job-IsPayable : (r : JobRequest) → validate_job digest r ≡ none → IsPayable digest r
  unfolding validate_job
  validate_job-IsPayable r h =
      let (a, h1) = or_else-none (validate_envelope r) _ h in
      let (m, h2) =
        or_else-none (job_error model_invalid (validate_model r.model r.capability)) _ h1 in
      let (q, h3) = or_else-none (job_error request_invalid (validate_request r.request)) _ h2 in
      let (i, h4) =
        or_else-none
          (if text_eq r.request.idempotency_key r.job_id then none else some idempotency_mismatch) _
          h3 in
      let v =
        job_error-none reservation_invalid
          (validate_for digest r.budget_reservation (binding_input_of r)) h4 in
      let (low, high) = validate_for-covers digest r.budget_reservation (binding_input_of r) v in
      let (_, billing) = (validate_iff r.request.budget).0 (
        request-budget r.request (job_error-none request_invalid (validate_request r.request) q)) in
      record {
        once = idempotency r.request.idempotency_key r.job_id idempotency_mismatch i;
        modality = envelope-modality r a;
        route =
            model-alias r.model r.capability
              (job_error-none model_invalid (validate_model r.model r.capability) m);
        bound = validate_for-hash digest r.budget_reservation (binding_input_of r) v;
        covered = low;
        capped = high;
        billed = elim billing [
          | inl metered ↦ inl metered
          | inr free ↦ inr (
            free,
            no_cash r.budget_reservation.amount_micros _ _ free.no_estimate free.no_cash low high,
          )
        ];
      }
