-- ===== src/Provider/Manifest.antt =====
-- internal/providercontract/manifest.go: the audit record of a generation, built from the request and
-- the terminal job. A map is its bindings, whose order no test depends on; nil and empty slices and
-- maps are one value; an instant is a number of nanoseconds that is 0 for the zero time.
pub mod Built
use ai_video_series_workflow.Common.{
  ℕ, ◌+◌, ◌-◌, ◌/◌, Bool, true, false, not, ◌&&◌, ◌||◌, Option, none, some, List, [], ◌∷◌, ◌++◌,
  map, ltb, leb, ◌==◌, if◌then◌else◌, Text, text_eq, codes, is_empty, is_blank, is_sha256, byte_len,
  has_no, all, ℤ, pos, negsuc, ltb_ℤ, leb_ℤ, Result, ok, err, ◌>>◌,
}
use ai_video_series_workflow.Provider.Budget.{BudgetEnvelope, max_int64, is_zero}
use ai_video_series_workflow.Provider.Errors.{ProviderError}
use ai_video_series_workflow.Provider.Contract.{
  GenerationRequest, RequestError, validate_request, AssetRef, ContextRefs, OutputSpec, Output,
  Usage, Job, JobStatus, is_terminal, succeeded, status_eq, modality_video,
}
use ai_video_series_workflow.Provider.Dispatch.{ModelSnapshot, ModelError, validate_model, or_else}

abbrev pub manifest_schema_version : Text
manifest_schema_version = codes "1"

abbrev pub evidence_mock_only : Text
evidence_mock_only = codes "mock_only"

abbrev pub evidence_live_provider : Text
evidence_live_provider = codes "live_provider_call"

pub record AssetEvidence : Type 0 where
  pub id : Text
  pub revision : Text
  pub kind : Text
  pub role : Text
  pub sha256 : Text
  pub license_reference : Text

pub record ProviderEvidence : Type 0 where
  pub name : Text
  pub model : Text
  pub region : Text
  pub request_id : Text
  pub job_id : Text

pub record AttemptEvidence : Type 0 where
  pub number : ℤ
  pub started_at : ℕ
  pub completed_at : ℕ
  pub latency_millis : ℤ

pub record GateEvidence : Type 0 where
  pub gate : Text
  pub decision_id : Text
  pub binding_id : Text
  pub binding_hash : Text
  pub actor_id : Text

pub record GenerationManifest : Type 0 where
  pub schema_version : Text
  pub manifest_id : Text
  pub evidence : Text
  pub shot_id : Text
  pub request_id : Text
  pub idempotency_key : Text
  pub modality : Text
  pub prompt_snapshot : Text
  pub refs : ContextRefs
  pub input_revisions : List (Text × Text)
  pub input_assets : List AssetEvidence
  pub requested : OutputSpec
  pub model_snapshot : Option ModelSnapshot
  pub gates : List GateEvidence
  pub provider : ProviderEvidence
  pub attempt : AttemptEvidence
  pub status : JobStatus
  pub actual : Option OutputSpec
  pub output_assets : List AssetEvidence
  pub usage : Usage
  pub budget : BudgetEnvelope
  pub error : Option ProviderError

pub record ManifestBuildInput : Type 0 where
  pub manifest_id : Text
  pub shot_id : Text
  pub evidence : Text
  pub request : GenerationRequest
  pub job : Job
  pub attempt : ℤ
  pub started_at : ℕ
  pub completed_at : ℕ
  pub input_revision_hashes : List (Text × Text)
  pub model_snapshot : Option ModelSnapshot
  pub gates : List GateEvidence

pub data ManifestError : Type 0 where
  request_refused : RequestError → ManifestError
  wrong_schema no_manifest_id wrong_evidence no_shot_id no_identifiers no_prompt_snapshot :
      ManifestError
  no_context no_provenance bad_attempt bad_timestamps latency_mismatch not_terminal : ManifestError
  asset_refused revision_refused gate_refused : ManifestError
  model_refused : ModelError → ManifestError
  no_output no_actual : ManifestError

unfoldable pub non_empty_manifest : List Text → Bool
non_empty_manifest values = all (λ value. not (is_blank value)) values

-- `GateEvidence.Validate`: whether there is no error.
unfoldable pub is_gate_complete : GateEvidence → Bool
is_gate_complete g =
    (text_eq g.gate (codes "G1") || text_eq g.gate (codes "G2") || text_eq g.gate (codes "G3"))
    && non_empty_manifest (g.decision_id ∷ g.binding_id ∷ g.binding_hash ∷ g.actor_id ∷ [])
    && is_sha256 g.binding_hash

-- A digit that hex.DecodeString takes.
abbrev pub is_hex_digit : ℕ → Bool
is_hex_digit c = leb 48 c && leb c 57 || leb 97 c && leb c 102 || leb 65 c && leb c 70

-- `AssetEvidence.Validate`: whether there is no error.
unfoldable pub is_asset_evidence : AssetEvidence → Bool
is_asset_evidence a =
    not (
      is_empty a.id
      || is_empty a.revision
      || is_empty a.kind
      || is_empty a.role
      || is_empty a.license_reference)
    && byte_len a.sha256 == 64
    && not (text_eq a.sha256 (codes "pending_download"))
    && all is_hex_digit a.sha256

unfoldable pub to_asset_evidence : AssetRef → AssetEvidence
to_asset_evidence a = record {
  id = a.id;
  revision = a.revision;
  kind = a.kind;
  role = a.role;
  sha256 = a.sha256;
  license_reference = a.license_reference;
}

-- time.Time.Sub, which stops at the ends of int64.
unfoldable pub sub_time : ℕ → ℕ → ℤ
sub_time a b =
    if leb b a
    then pos (if leb (a - b) max_int64 then a - b else max_int64)
    else negsuc (if leb (b - a) (max_int64 + 1) then b - a - 1 else max_int64)

-- time.Duration.Milliseconds, which rounds toward zero.
abbrev pub milliseconds : ℤ → ℤ
milliseconds (pos n) = pos (n / 1000000)
milliseconds (negsuc n) = let k = (n + 1) / 1000000 in if k == 0 then pos 0 else negsuc (k - 1)

abbrev pub eq_ℤ : ℤ → ℤ → Bool
eq_ℤ a b = leb_ℤ a b && leb_ℤ b a

-- The switch of `GenerationManifest.Validate`.
unfoldable pub validate_fields : GenerationManifest → Option ManifestError
validate_fields m =
    if not (text_eq m.schema_version manifest_schema_version)
    then some wrong_schema
    else if is_blank m.manifest_id
    then some no_manifest_id
    else if not (text_eq m.evidence evidence_mock_only)
        && not (text_eq m.evidence evidence_live_provider)
    then some wrong_evidence
    else if is_blank m.shot_id
    then some no_shot_id
    else if is_blank m.request_id || is_blank m.idempotency_key
    then some no_identifiers
    else if is_blank m.prompt_snapshot
    then some no_prompt_snapshot
    else if is_empty m.refs.series_snapshot_id
        || is_empty m.refs.episode_snapshot_id
        || is_empty m.refs.scene_snapshot_id
        || is_empty m.refs.shot_snapshot_id
    then some no_context
    else if is_empty m.provider.name
        || is_empty m.provider.model
        || is_empty m.provider.region
        || is_empty m.provider.request_id
        || is_empty m.provider.job_id
    then some no_provenance
    else if ltb_ℤ m.attempt.number (pos 1)
    then some bad_attempt
    else if m.attempt.started_at == 0 || not (ltb m.attempt.started_at m.attempt.completed_at)
    then some bad_timestamps
    else if not (
        eq_ℤ m.attempt.latency_millis
          (milliseconds (sub_time m.attempt.completed_at m.attempt.started_at)))
    then some latency_mismatch
    else if not (is_terminal m.status)
    then some not_terminal
    else none

-- An entry of the map of input revisions.
abbrev pub is_revision_entry : Text × Text → Bool
is_revision_entry (name, digest) = not (is_blank name) && is_sha256 digest

abbrev pub validate_snapshot : Option ModelSnapshot → Option ManifestError
validate_snapshot none = none
validate_snapshot (some m) = snapshot_error (validate_model m m.capability_alias)
  where
    snapshot_error : Option ModelError → Option ManifestError
    snapshot_error none = none
    snapshot_error (some e) = some (model_refused e)

abbrev pub lacks_actual : OutputSpec → Bool
lacks_actual o =
    is_empty o.resolution
    || is_empty o.aspect_ratio
    || leb_ℤ o.fps (pos 0)
    || leb_ℤ o.duration_millis (pos 0)
    || is_empty o.format

-- The end of `Validate`, on a manifest that succeeded.
unfoldable pub validate_actual :
    Text → Option OutputSpec → List AssetEvidence → Option ManifestError
validate_actual modality none assets = some no_output
validate_actual modality (some actual) assets =
    if has_no assets
    then some no_output
    else if text_eq modality modality_video && lacks_actual actual
    then some no_actual
    else none

-- The loops and tests of `Validate` after its switch.
unfoldable pub validate_parts : GenerationManifest → Option ManifestError
validate_parts m =
    if not (all is_asset_evidence (m.input_assets ++ m.output_assets))
    then some asset_refused
    else if not (all is_revision_entry m.input_revisions)
    then some revision_refused
    else if not (all is_gate_complete m.gates)
    then some gate_refused
    else or_else (validate_snapshot m.model_snapshot) (
        if status_eq m.status succeeded
        then validate_actual m.modality m.actual m.output_assets
        else none)

-- `GenerationManifest.Validate`.
unfoldable pub validate_manifest : GenerationManifest → Option ManifestError
validate_manifest m = or_else (validate_fields m) (validate_parts m)

abbrev pub zero_usage : Usage
zero_usage = record {
  input_tokens = pos 0;
  output_tokens = pos 0;
  video_tokens = pos 0;
  generated_images = pos 0;
  generated_chars = pos 0;
  generated_millis = pos 0;
  provider_cost_micros = pos 0;
  input_units = pos 0;
  output_units = pos 0;
  unit = [];
}

abbrev pub actual_of : Option Output → Option OutputSpec
actual_of none = none
actual_of (some o) = some o.actual

abbrev pub usage_of : Option Output → Usage
usage_of none = zero_usage
usage_of (some o) = o.usage

abbrev pub assets_of : Option Output → List AssetRef
assets_of none = []
assets_of (some o) = o.assets

-- The manifest that `NewGenerationManifest` validates.
unfoldable pub manifest_of : ManifestBuildInput → GenerationManifest
manifest_of i = record {
  schema_version = manifest_schema_version;
  manifest_id = i.manifest_id;
  evidence = i.evidence;
  shot_id = i.shot_id;
  request_id = i.request.request_id;
  idempotency_key = i.request.idempotency_key;
  modality = i.request.modality;
  prompt_snapshot = i.request.prompt_snapshot_id;
  refs = i.request.refs;
  input_revisions = i.input_revision_hashes;
  input_assets = map to_asset_evidence i.request.assets;
  requested = i.request.output;
  model_snapshot = i.model_snapshot;
  gates = i.gates;
  provider = record {
    name = i.job.provider;
    model = i.job.provider_model;
    region = i.job.provider_region;
    request_id = i.job.provider_request_id;
    job_id = i.job.id;
  };
  attempt = record {
    number = i.attempt;
    started_at = i.started_at;
    completed_at = i.completed_at;
    latency_millis = milliseconds (sub_time i.completed_at i.started_at);
  };
  status = i.job.status;
  actual = actual_of i.job.output;
  output_assets = map to_asset_evidence (assets_of i.job.output);
  usage = usage_of i.job.output;
  budget = i.request.budget;
  error = i.job.error;
}

abbrev pub request_error : Option RequestError → Option ManifestError
request_error none = none
request_error (some e) = some (request_refused e)

-- `NewGenerationManifest`.
unfoldable pub new_generation_manifest :
    ManifestBuildInput → Result ManifestError GenerationManifest
new_generation_manifest i = do
  request_error (validate_request i.request)
  validate_manifest (manifest_of i)
  ok (manifest_of i)
