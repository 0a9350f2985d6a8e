-- ===== src/Production/Run.antt =====
-- internal/videopipeline/production/generation.go: the data of a generation run and the helpers that
-- read it. An instant is a number of nanoseconds that is 0 for the zero time.
use ai_video_series_workflow.Common.{
  ℕ, suc, ◌+◌, Bool, false, not, ◌&&◌, ◌||◌, Option, none, some, List, [], ◌∷◌, ltb, ◌==◌,
  if◌then◌else◌, Text, text_eq, codes, has_no, any, pos, ltb_ℤ,
}
use ai_video_series_workflow.Provider.Budget.{Denial}
use ai_video_series_workflow.Provider.Errors.{ProviderError, code_text}
use ai_video_series_workflow.Provider.Contract.{
  GenerationRequest, OutputSpec, Job, JobStatus, Capability, modality_video, other,
}
use ai_video_series_workflow.Provider.Dispatch.{
  ModelSnapshot, ModelError, BudgetReservation, ReservationError,
}
use ai_video_series_workflow.Provider.Manifest.{ManifestError, GateEvidence, eq_ℤ}
use ai_video_series_workflow.Production.Refs.{
  RevisionRef, Gate, gate1, gate2, gate3, GateApproval, AuthorizationError,
}
use ai_video_series_workflow.Production.Refs
use ai_video_series_workflow.Production.Prompt.{PromptError}
use ai_video_series_workflow.Production.Manifests.{StoreError}
use ai_video_series_workflow.Production.Ledger.{LedgerError}

pub record AttemptRecord : Type 0 where
  pub sequence : ℕ
  pub kind : Text
  pub state : JobStatus
  pub started_at : ℕ
  pub finished_at : ℕ
  pub provider_job_id : Text
  pub error_code : Text
  pub retryable : Bool

abbrev pub provider_submit : Text
provider_submit = codes "provider_submit"

abbrev pub provider_poll : Text
provider_poll = codes "provider_poll"

-- The fields of a `RunRecord` that the ledger only carries.
pub record RunBody : Type 0 where
  pub evidence : Text
  pub source_revision : RevisionRef
  pub shot_revision : RevisionRef
  pub prompt_snapshot_id : Text
  pub prompt_snapshot_hash : Text
  pub input_revision_hashes : List (Text × Text)
  pub capability : Capability
  pub model : ModelSnapshot
  pub budget_reservation : BudgetReservation
  pub request : GenerationRequest
  pub attempts : List AttemptRecord
  pub provider_job : Option Job
  pub manifest_id : Text
  pub started_at : ℕ

abbrev pub zero_ref : RevisionRef
zero_ref = record { id = []; kind = []; aggregate_id = []; number = pos 0; content_hash = [] }

abbrev pub zero_capability : Capability
zero_capability = record {
  provider = [];
  model_family = [];
  model_version = [];
  input_modalities = [];
  output_modality = [];
  async = false;
  supports_polling = false;
  supports_callback = false;
  supports_cancel = false;
  supports_reference_image = false;
  supports_last_frame = false;
  resolutions = [];
  aspect_ratios = [];
  min_duration_millis = pos 0;
  max_duration_millis = pos 0;
  native_fps = [];
  verification = [];
}

abbrev pub zero_request : GenerationRequest
zero_request = record {
  request_id = [];
  idempotency_key = [];
  modality = [];
  prompt = [];
  prompt_snapshot_id = [];
  refs = record {
    series_snapshot_id = [];
    episode_snapshot_id = [];
    scene_snapshot_id = [];
    shot_snapshot_id = [];
  };
  assets = [];
  output = record {
    width = pos 0;
    height = pos 0;
    resolution = [];
    aspect_ratio = [];
    fps = pos 0;
    duration_millis = pos 0;
    format = [];
    generate_audio = false;
  };
  model_hint = [];
  callback_url = [];
  budget = record {
    estimated_cost_micros = pos 0;
    max_cost_micros = pos 0;
    max_attempts = pos 0;
    billing_mode = [];
    reserved_afp_milli = pos 0;
  };
}

-- The zero value of the carried fields.
abbrev pub zero_body : RunBody
zero_body = record {
  evidence = [];
  source_revision = zero_ref;
  shot_revision = zero_ref;
  prompt_snapshot_id = [];
  prompt_snapshot_hash = [];
  input_revision_hashes = [];
  capability = zero_capability;
  model = record {
    capability_alias = [];
    provider = [];
    model_id = [];
    endpoint_id = [];
    route_version = [];
    capability_hash = [];
    verification = [];
  };
  budget_reservation = record {
    reservation_id = [];
    currency = [];
    amount_micros = pos 0;
    pricing_version = [];
    confirmed_by = [];
    binding_hash = [];
  };
  request = zero_request;
  attempts = [];
  provider_job = none;
  manifest_id = [];
  started_at = 0;
}

-- The zero value of a job.
abbrev pub zero_job : Job
zero_job = record {
  id = [];
  request_id = [];
  idempotency_key = [];
  status = other [];
  provider = [];
  provider_model = [];
  provider_region = [];
  provider_request_id = [];
  created_at = 0;
  updated_at = 0;
  output = none;
  error = none;
}

-- The errors of an execution; `foreign` is an error of the environment that is not the provider's, and
-- `nil_provider_failure` is a nil *Error in an error that is not nil. `already_terminal` has the code of
-- its *Error, and is a plain error for the empty code.
pub data Failure : Type 0 where
  provider_failure : ProviderError → Failure
  nil_provider_failure : Failure
  foreign : Text → Failure
  no_run_id source_incomplete shot_incomplete not_aligned : Failure
  prompt_refused : PromptError → Failure
  authorization_refused : AuthorizationError → Failure
  gate1_refused gate2_refused : Failure
  route_refused : ModelError → Failure
  no_evidence mock_route_required mock_route_forbidden : Failure
  reservation_refused : ReservationError → Failure
  budget_denied : Denial → Failure
  no_capability request_not_encoded : Failure
  ledger_refused : LedgerError → Failure
  already_terminal : Text → Failure
  result_mismatch negative_cost no_output_assets : Failure
  manifest_refused : ManifestError → Failure
  manifest_not_stored : StoreError → Failure

-- `errors.As` to *Error.
abbrev pub as_provider : Failure → Option ProviderError
as_provider (provider_failure e) = some e
as_provider _ = none

-- `ErrorCodeOf`, on the errors that a run can fail with.
unfoldable pub error_code_of : Failure → Text
error_code_of (provider_failure e) = code_text e.code
error_code_of (already_terminal code) = code
error_code_of _ = []

abbrev pub is_retryable : Failure → Bool
is_retryable (provider_failure e) = e.retryable
is_retryable _ = false

-- `retryDelay`.
unfoldable pub retry_delay : Option ProviderError → ℕ
retry_delay none = 100000000
retry_delay (some e) = if ltb 0 e.retry_after then e.retry_after else 100000000

-- `later`.
unfoldable pub later : ℕ → ℕ → ℕ
later candidate floor = if ltb floor candidate then candidate else floor + 1

abbrev pub count_kind : Text → List AttemptRecord → ℕ
count_kind kind [] = 0
count_kind kind (a ∷ attempts) =
    if text_eq a.kind kind then suc (count_kind kind attempts) else count_kind kind attempts

-- `countSubmitAttempts`.
unfoldable pub count_submit_attempts : List AttemptRecord → ℕ
count_submit_attempts attempts =
    if count_kind provider_submit attempts == 0 then 1 else count_kind provider_submit attempts

-- string(gate.Gate).
abbrev pub gate_text : Gate → Text
gate_text gate1 = codes "G1"
gate_text gate2 = codes "G2"
gate_text gate3 = codes "G3"
gate_text (Refs.other s) = s

-- `toManifestGate`.
unfoldable pub to_manifest_gate : GateApproval → GateEvidence
to_manifest_gate g = record {
  gate = gate_text g.gate;
  decision_id = g.decision_id;
  binding_id = g.binding_id;
  binding_hash = g.binding_hash;
  actor_id = g.actor_id;
}

-- Whether the loop of `selectCapability` skips no part of this capability.
unfoldable pub serves : ModelSnapshot → OutputSpec → Capability → Bool
serves route output c =
    text_eq c.provider route.provider
    && text_eq c.output_modality modality_video
    && not (
        not (text_eq c.model_family route.model_id)
        && text_eq route.verification (codes "mock_only"))
    && (has_no c.resolutions || any (text_eq output.resolution) c.resolutions)
    && (has_no c.aspect_ratios || any (text_eq output.aspect_ratio) c.aspect_ratios)
    && (has_no c.native_fps || any (eq_ℤ output.fps) c.native_fps)
    && not
        (ltb_ℤ (pos 0) c.min_duration_millis && ltb_ℤ output.duration_millis c.min_duration_millis)
    && not
        (ltb_ℤ (pos 0) c.max_duration_millis && ltb_ℤ c.max_duration_millis output.duration_millis)

-- `selectCapability`.
unfoldable pub select_capability : List Capability → ModelSnapshot → OutputSpec → Option Capability
select_capability [] route output = none
select_capability (c ∷ capabilities) route output =
    if serves route output c then some c else select_capability capabilities route output
