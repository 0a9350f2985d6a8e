-- ===== src/Provider/Examples.antt =====
-- The theorems on the generation boundary at one paid video job.
use ai_video_series_workflow.Common.{
  ◌≡◌, refl, ◌↔◌, ◌⊎◌, true, false, not, none, [], Text, codes, text_eq, is_blank, is_sha256,
  is_empty, pos, ◌≤ℤ◌, ◌+ℤ◌, pos_part, ◌*◌, ok, arith,
}
use ai_video_series_workflow.Provider.Budget.{
  BudgetEnvelope, BudgetPolicy, BudgetDecision, evaluate, rounded_cost, max_int64,
}
use ai_video_series_workflow.Provider.Budget
use ai_video_series_workflow.Provider.Budget.Envelope.{
  IsOrdered, IsMetered, IsSubscription, validate_iff,
}
use ai_video_series_workflow.Provider.Budget.Policy.{Guarded, Decided, evaluate_iff}
use ai_video_series_workflow.Provider.Budget.Cost.{IsCost, rounded_cost-IsCost}
use ai_video_series_workflow.Provider.Contract.{GenerationRequest, validate_request, modality_video}
use ai_video_series_workflow.Provider.Errors.{map_http_error, contains}
use ai_video_series_workflow.Provider.Errors.Retry.{blocks_content, map_http_error_retry}
use ai_video_series_workflow.Provider.Dispatch.{
  ModelSnapshot, BudgetReservation, BudgetBindingInput, JobRequest, Material, validate_model,
  validate_reservation, validate_binding_input, bind_budget_reservation, validate_for,
  validate_amount, validate_envelope, validate_job, is_capability, capability_modality,
  capability_video,
}
use ai_video_series_workflow.Provider.Dispatch.Binding.{bind-validate_for, validate_for_once}
use ai_video_series_workflow.Provider.Dispatch.Accepted.{IsPayable, validate_job-IsPayable}

abbrev some_digest : Text
some_digest = codes "352b94f7134554825a7c426e579d12943a48c30db1666120353f5f24aa9c59b3"

abbrev digest : Material → Text
digest m = some_digest

abbrev metered : BudgetEnvelope
metered = record {
  estimated_cost_micros = pos 5000000;
  max_cost_micros = pos 9000000;
  max_attempts = pos 2;
  billing_mode = [];
  reserved_afp_milli = pos 0;
}

abbrev seedance : ModelSnapshot
seedance = record {
  capability_alias = capability_video;
  provider = codes "volcengine";
  model_id = codes "seedance";
  endpoint_id = [];
  route_version = codes "1";
  capability_hash = some_digest;
  verification = codes "verified";
}

abbrev approved : BudgetReservation
approved = record {
  reservation_id = codes "r1";
  currency = codes "CNY";
  amount_micros = pos 7000000;
  pricing_version = codes "2026-01";
  confirmed_by = codes "producer";
  binding_hash = [];
}

abbrev bound : BudgetReservation
bound = record approved { binding_hash = some_digest }

abbrev run_input : BudgetBindingInput
run_input = record {
  run_id = codes "run-1";
  input_hash = some_digest;
  model = seedance;
  budget = metered;
}

abbrev video_request : GenerationRequest
video_request = record {
  request_id = codes "q1";
  idempotency_key = codes "job-1";
  modality = modality_video;
  prompt = codes "a shot";
  prompt_snapshot_id = codes "p1";
  refs = record {
    series_snapshot_id = [];
    episode_snapshot_id = [];
    scene_snapshot_id = [];
    shot_snapshot_id = [];
  };
  assets = [];
  output = record {
    width = pos 1280;
    height = pos 720;
    resolution = codes "720p";
    aspect_ratio = codes "16:9";
    fps = pos 24;
    duration_millis = pos 5000;
    format = codes "mp4";
    generate_audio = false;
  };
  model_hint = [];
  callback_url = [];
  budget = metered;
}

abbrev video_job : JobRequest
video_job = record {
  schema_version = codes "v1";
  job_id = codes "job-1";
  run_id = codes "run-1";
  capability = capability_video;
  input_hash = some_digest;
  model = seedance;
  request = video_request;
  budget_reservation = bound;
  trace_id = codes "t1";
  simulation = [];
}

approved_binds : bind_budget_reservation digest approved run_input ≡ ok bound
unfolding bind_budget_reservation validate_binding_input validate_model Budget.validate text_eq
    is_blank is_sha256 is_capability
approved_binds = refl

bound_valid : validate_for digest bound run_input ≡ none
unfolding validate_for validate_reservation validate_amount validate_binding_input validate_model
    Budget.validate text_eq is_blank is_sha256 is_capability
bound_valid = refl

video_job_valid : validate_job digest video_job ≡ none
unfolding validate_job validate_envelope validate_request validate_for validate_reservation
    validate_amount validate_binding_input validate_model Budget.validate text_eq is_blank is_sha256
    is_capability capability_modality
video_job_valid = refl

digest_hexadecimal : (m : Material) → is_sha256 (digest m) ≡ true
unfolding is_sha256
digest_hexadecimal m = refl

validate_job-IsPayable_example : IsPayable digest video_job
validate_job-IsPayable_example = validate_job-IsPayable digest video_job video_job_valid

bind-validate_for_example : validate_for digest bound run_input ≡ none
bind-validate_for_example =
    bind-validate_for digest digest_hexadecimal approved run_input bound approved_binds
      (omega arith) (omega arith)

validate_for_once_example : run_input ≡ run_input
validate_for_once_example =
    validate_for_once digest bound run_input run_input (λ _. refl) bound_valid bound_valid

abbrev policy : BudgetPolicy
policy = record {
  soft_limit_micros = pos 10000000;
  hard_limit_micros = pos 20000000;
  max_attempts = pos 3;
}

abbrev warned : BudgetDecision
warned = record { projected_micros = pos 12000000; soft_warning = true }

evaluate_iff_example : (evaluate policy (pos 2000000) (pos 1000000) metered ≡ (warned, none)) ↔ (
    Guarded policy (pos 2000000) (pos 1000000) metered
    × (pos 12000000 ≤ℤ pos max_int64)
    × Decided policy (pos 2000000 +ℤ pos 1000000 +ℤ pos 9000000) warned)
evaluate_iff_example = evaluate_iff policy (pos 2000000) (pos 1000000) metered warned

validate_iff_example :
    (Budget.validate metered ≡ none)
    ↔ (IsOrdered metered × (IsMetered metered ⊎ IsSubscription metered))
validate_iff_example = validate_iff metered

rounded_cost-IsCost_example :
    let n = pos_part (rounded_cost (pos 250001) (pos 7000000) (pos 1000000)) in
    (rounded_cost (pos 250001) (pos 7000000) (pos 1000000) ≡ pos n)
    × (pos 1 ≤ℤ pos 250001
        → pos 1 ≤ℤ pos 7000000
        → pos 1 ≤ℤ pos 1000000
        → IsCost (250001 * 7000000) 1000000 n)
    × ((pos 250001 ≤ℤ pos 0) ⊎ (pos 7000000 ≤ℤ pos 0) ⊎ (pos 1000000 ≤ℤ pos 0) → n ≡ 0)
rounded_cost-IsCost_example = rounded_cost-IsCost (pos 250001) (pos 7000000) (pos 1000000)

abbrev same_case : Text → Text
same_case s = s

map_http_error_retry_example :
    let e = map_http_error same_case (pos 429) (codes "quotaexceeded") (codes "q") (codes "m") in
    ((e.retryable ≡ true) ↔ (
      ((pos 429 ≡ pos 429) × (contains (codes "quotaexceeded") (codes "quota") ≡ false))
      ⊎ ((pos 500 ≤ℤ pos 429) × (blocks_content (codes "quotaexceeded") ≡ false))))
    × (e.retryable ≡ true → e.requires_action ≡ false)
    × (e.requires_action ≡ not (is_empty e.suggested_action))
    × (map_http_error same_case (pos 429) (codes "quotaexceeded") (codes "q") (codes "") ≡ e)
map_http_error_retry_example =
    map_http_error_retry same_case (pos 429) (codes "quotaexceeded") (codes "q") (codes "m")
