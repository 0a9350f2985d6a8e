-- ===== src/Provider/Contract.antt =====
-- internal/providercontract/contract.go: the data of the generation boundary and the validation of a
-- request. A string type with named constants is its text, but for the status of a job, which has a
-- constructor for each constant and `other` for any other text. An instant is a number of
-- nanoseconds.
use ai_video_series_workflow.Common.{
  ℕ, Bool, true, false, not, ◌&&◌, ◌||◌, Option, none, some, List, if◌then◌else◌, Text, text_eq,
  codes, is_empty, is_blank, all, ℤ, pos, negsuc,
}
use ai_video_series_workflow.Provider.Budget.{BudgetEnvelope, Refusal}
use ai_video_series_workflow.Provider.Budget
use ai_video_series_workflow.Provider.Errors.{ProviderError}

abbrev pub modality_text : Text
modality_text = codes "text"

abbrev pub modality_image : Text
modality_image = codes "image"

abbrev pub modality_video : Text
modality_video = codes "video"

abbrev pub modality_audio : Text
modality_audio = codes "audio"

pub data JobStatus : Type 0 where
  queued running succeeded failed unknown requires_action cancelled : JobStatus
  other : Text → JobStatus

-- `JobStatus.Terminal`.
unfoldable pub is_terminal : JobStatus → Bool
is_terminal succeeded = true
is_terminal failed = true
is_terminal cancelled = true
is_terminal _ = false

-- `JobStatus.Valid`.
unfoldable pub is_valid_status : JobStatus → Bool
is_valid_status queued = true
is_valid_status running = true
is_valid_status succeeded = true
is_valid_status failed = true
is_valid_status cancelled = true
is_valid_status _ = false

-- `JobStatus.rank`.
unfoldable pub rank : JobStatus → ℤ
rank queued = pos 0
rank running = pos 1
rank succeeded = pos 2
rank failed = pos 2
rank cancelled = pos 2
rank _ = negsuc 0

unfoldable pub status_eq : JobStatus → JobStatus → Bool
status_eq queued queued = true
status_eq running running = true
status_eq succeeded succeeded = true
status_eq failed failed = true
status_eq unknown unknown = true
status_eq requires_action requires_action = true
status_eq cancelled cancelled = true
status_eq (other s) (other t) = text_eq s t
status_eq _ _ = false

pub record AssetRef : Type 0 where
  pub id : Text
  pub revision : Text
  pub kind : Text
  pub role : Text
  pub uri : Text
  pub sha256 : Text
  pub license_reference : Text
  pub media_type : Text
  pub size_bytes : ℤ
  pub width : ℤ
  pub height : ℤ
  pub fps : ℤ
  pub duration_millis : ℤ

pub record ContextRefs : Type 0 where
  pub series_snapshot_id : Text
  pub episode_snapshot_id : Text
  pub scene_snapshot_id : Text
  pub shot_snapshot_id : Text

pub record OutputSpec : Type 0 where
  pub width : ℤ
  pub height : ℤ
  pub resolution : Text
  pub aspect_ratio : Text
  pub fps : ℤ
  pub duration_millis : ℤ
  pub format : Text
  pub generate_audio : Bool

pub record GenerationRequest : Type 0 where
  pub request_id : Text
  pub idempotency_key : Text
  pub modality : Text
  pub prompt : Text
  pub prompt_snapshot_id : Text
  pub refs : ContextRefs
  pub assets : List AssetRef
  pub output : OutputSpec
  pub model_hint : Text
  pub callback_url : Text
  pub budget : BudgetEnvelope

pub data RequestError : Type 0 where
  no_request_id no_idempotency_key unsupported_modality no_prompt no_prompt_snapshot : RequestError
  budget_refused : Refusal → RequestError
  asset_incomplete : RequestError

unfoldable pub is_asset_complete : AssetRef → Bool
is_asset_complete a =
    not (is_empty a.id)
    && not (is_empty a.revision)
    && not (is_empty a.sha256)
    && not (is_empty a.license_reference)

abbrev pub is_modality : Text → Bool
is_modality m =
    text_eq m modality_text
    || text_eq m modality_image
    || text_eq m modality_video
    || text_eq m modality_audio

-- The loop over the assets, after the budget.
abbrev pub validate_assets : Option Refusal → List AssetRef → Option RequestError
validate_assets (some r) assets = some (budget_refused r)
validate_assets none assets = if all is_asset_complete assets then none else some asset_incomplete

-- `GenerationRequest.Validate`.
unfoldable pub validate_request : GenerationRequest → Option RequestError
validate_request r =
    if is_blank r.request_id
    then some no_request_id
    else if is_blank r.idempotency_key
    then some no_idempotency_key
    else if not (is_modality r.modality)
    then some unsupported_modality
    else if is_blank r.prompt
    then some no_prompt
    else if is_blank r.prompt_snapshot_id
    then some no_prompt_snapshot
    else validate_assets (Budget.validate r.budget) r.assets

pub record Usage : Type 0 where
  pub input_tokens : ℤ
  pub output_tokens : ℤ
  pub video_tokens : ℤ
  pub generated_images : ℤ
  pub generated_chars : ℤ
  pub generated_millis : ℤ
  pub provider_cost_micros : ℤ
  pub input_units : ℤ
  pub output_units : ℤ
  pub unit : Text

pub record Output : Type 0 where
  pub assets : List AssetRef
  pub actual : OutputSpec
  pub usage : Usage
  pub text : Text

pub record Job : Type 0 where
  pub id : Text
  pub request_id : Text
  pub idempotency_key : Text
  pub status : JobStatus
  pub provider : Text
  pub provider_model : Text
  pub provider_region : Text
  pub provider_request_id : Text
  pub created_at : ℕ
  pub updated_at : ℕ
  pub output : Option Output
  pub error : Option ProviderError

pub record Callback : Type 0 where
  pub event_id : Text
  pub job_id : Text
  pub status : JobStatus
  pub created_at : ℕ

pub record Capability : Type 0 where
  pub provider : Text
  pub model_family : Text
  pub model_version : Text
  pub input_modalities : List Text
  pub output_modality : Text
  pub async : Bool
  pub supports_polling : Bool
  pub supports_callback : Bool
  pub supports_cancel : Bool
  pub supports_reference_image : Bool
  pub supports_last_frame : Bool
  pub resolutions : List Text
  pub aspect_ratios : List Text
  pub min_duration_millis : ℤ
  pub max_duration_millis : ℤ
  pub native_fps : List ℤ
  pub verification : Text
