-- ===== src/Production/Prompt.antt =====
-- internal/videopipeline/production/prompt.go: the immutable snapshot of a prompt, the request that is
-- built from it and the registry of snapshots; the struct of the effective context is context.go's.
-- JSON and SHA-256 are the Go library's and enter as the record `PromptCodec`. A map is its bindings.
pub mod Registry
pub mod Diff
mod Examples
use ai_video_series_workflow.Common.{
  ℕ, suc, ◌+◌, Bool, true, false, not, ◌&&◌, ◌||◌, Option, none, some, List, [], ◌∷◌, ◌++◌, length,
  ◌==◌, if◌then◌else◌, Text, text_eq, codes, is_empty, is_blank, is_sha256, all, ℤ, pos, ltb_ℤ,
  leb_ℤ, lookup, insert, Result, ok, err, ◌>>◌, ◌>>=◌,
}
use ai_video_series_workflow.Provider.Budget.{BudgetEnvelope}
use ai_video_series_workflow.Provider.Contract.{
  AssetRef, ContextRefs, OutputSpec, GenerationRequest, RequestError, validate_request,
  modality_video,
}
use ai_video_series_workflow.Provider.Dispatch.{or_else}
use ai_video_series_workflow.Provider.Manifest.{is_revision_entry, eq_ℤ}
use ai_video_series_workflow.Production.RevisionState.{non_empty, derived_id, or_nil}
use ai_video_series_workflow.Production.Refs.{
  RevisionRef, is_complete_ref, kind_prompt, kind_shot_spec,
}

abbrev pub prompt_schema_version : Text
prompt_schema_version = codes "v1"

abbrev pub prompt_compiler_version : Text
prompt_compiler_version = codes "prompt-compiler-v2"

pub record SubtitleCue : Type 0 where
  pub start_millis : ℤ
  pub end_millis : ℤ
  pub speaker_id : Text
  pub text : Text

pub record EffectiveContext : Type 0 where
  pub id : Text
  pub content_hash : Text
  pub revision_refs : ContextRefs
  pub revision_hashes : List (Text × Text)
  pub values : List (Text × Text)
  pub origins : List (Text × Text)
  pub assets : List (Text × AssetRef)

pub record PromptSnapshot (Payload : Type 0) : Type 0 where
  pub id : Text
  pub revision_number : ℤ
  pub schema_version : Text
  pub compiler_version : Text
  pub template_ref : Text
  pub generation_profile_ref : Text
  pub shot_revision : RevisionRef
  pub effective_context : EffectiveContext
  pub assets : List AssetRef
  pub asset_aliases : List (Text × Text)
  pub previous_prompt_snapshot_id : Text
  pub previous_prompt_hash : Text
  pub tail_frame_hash : Text
  pub positive_prompt : Text
  pub negative_prompt : Text
  pub subtitle_timeline : List SubtitleCue
  pub output : OutputSpec
  pub model_payload : Payload
  pub input_revision_hashes : List (Text × Text)
  pub normalized_input_hash : Text
  pub content_hash : Text
  pub evidence_ids : List Text
  pub created_at : ℕ

-- The struct of `promptNormalizedInputHash`.
pub record NormalizedMaterial : Type 0 where
  pub compiler_version : Text
  pub template_ref : Text
  pub generation_profile_ref : Text
  pub shot_revision : RevisionRef
  pub effective_context : EffectiveContext
  pub assets : List AssetRef
  pub asset_aliases : List (Text × Text)
  pub previous_prompt_snapshot_id : Text
  pub previous_prompt_hash : Text
  pub tail_frame_hash : Text
  pub output : OutputSpec
  pub input_revision_hashes : List (Text × Text)

-- The struct of `promptSnapshotContentHash`.
pub record ContentMaterial (Payload : Type 0) : Type 0 where
  pub schema_version : Text
  pub compiler_version : Text
  pub normalized_input_hash : Text
  pub positive_prompt : Text
  pub negative_prompt : Text
  pub model_payload : Payload
  pub subtitles : List SubtitleCue
  pub output : OutputSpec

-- `contentHash` of the structs, which fails on a payload that JSON cannot carry, and of an output, and
-- `clonePromptSnapshot`, which goes through JSON.
pub record PromptCodec : Type 1 where
  pub Payload : Type 0
  pub hash_normalized : NormalizedMaterial → Text
  pub hash_content : ContentMaterial Payload → Option Text
  pub hash_snapshot : PromptSnapshot Payload → Option Text
  pub hash_output : OutputSpec → Text
  pub clone : PromptSnapshot Payload → PromptSnapshot Payload

pub data PromptError : Type 0 where
  incomplete shot_incomplete not_a_shot bad_output no_context bad_revisions bad_assets : PromptError
  not_encoded normalized_mismatch content_mismatch : PromptError
  not_persisted differs ref_incomplete mutated : PromptError
  stored_refused clone_refused : PromptError → PromptError
  request_refused : RequestError → PromptError

-- `validateOutput`: whether there is no error.
unfoldable pub is_output_complete : OutputSpec → ℤ → Bool
is_output_complete o shot_duration = not (
    leb_ℤ o.width (pos 0)
    || leb_ℤ o.height (pos 0)
    || is_empty o.resolution
    || is_empty o.aspect_ratio
    || leb_ℤ o.fps (pos 0)
    || not (eq_ℤ o.duration_millis shot_duration)
    || is_empty o.format)

-- The test of the loop over the assets of a snapshot.
abbrev pub is_asset_evident : AssetRef → Bool
is_asset_evident a =
    non_empty (a.id ∷ a.revision ∷ a.sha256 ∷ a.license_reference ∷ []) && is_sha256 a.sha256

abbrev pub is_context_complete : EffectiveContext → Bool
is_context_complete e =
    is_sha256 e.content_hash
    && non_empty (
        e.id ∷ e.revision_refs.series_snapshot_id ∷ e.revision_refs.episode_snapshot_id
        ∷ e.revision_refs.scene_snapshot_id ∷ e.revision_refs.shot_snapshot_id ∷ [])

module _ (c : PromptCodec) where
  abbrev pub Snapshot : Type 0
  Snapshot = PromptSnapshot c.Payload

  -- `PromptSnapshot.Ref`.
  unfoldable pub prompt_ref : Snapshot → RevisionRef
  prompt_ref p = record {
    id = p.id;
    kind = kind_prompt;
    aggregate_id = p.shot_revision.aggregate_id;
    number = p.revision_number;
    content_hash = p.content_hash;
  }

  -- `promptNormalizedInputHash`.
  unfoldable pub prompt_normalized_input_hash : Snapshot → Text
  prompt_normalized_input_hash p = c.hash_normalized (record {
    compiler_version = p.compiler_version;
    template_ref = p.template_ref;
    generation_profile_ref = p.generation_profile_ref;
    shot_revision = p.shot_revision;
    effective_context = p.effective_context;
    assets = p.assets;
    asset_aliases = p.asset_aliases;
    previous_prompt_snapshot_id = p.previous_prompt_snapshot_id;
    previous_prompt_hash = p.previous_prompt_hash;
    tail_frame_hash = p.tail_frame_hash;
    output = p.output;
    input_revision_hashes = p.input_revision_hashes;
  })

  -- `promptSnapshotContentHash`.
  unfoldable pub prompt_snapshot_content_hash : Snapshot → Option Text
  prompt_snapshot_content_hash p = c.hash_content (record {
    schema_version = p.schema_version;
    compiler_version = p.compiler_version;
    normalized_input_hash = p.normalized_input_hash;
    positive_prompt = p.positive_prompt;
    negative_prompt = p.negative_prompt;
    model_payload = p.model_payload;
    subtitles = p.subtitle_timeline;
    output = p.output;
  })

  -- The checks of `ValidateIntegrity` before the hashes.
  unfoldable pub validate_snapshot_fields : Snapshot → Option PromptError
  validate_snapshot_fields p =
      if not (text_eq p.schema_version prompt_schema_version)
        || not (text_eq p.compiler_version prompt_compiler_version)
        || not
            (non_empty (p.id ∷ p.template_ref ∷ p.generation_profile_ref ∷ p.positive_prompt ∷ []))
        || p.created_at == 0
      then some incomplete
      else if not (is_complete_ref p.shot_revision)
      then some shot_incomplete
      else if not (text_eq p.shot_revision.kind kind_shot_spec)
      then some not_a_shot
      else if not (is_output_complete p.output p.output.duration_millis)
      then some bad_output
      else if not (is_context_complete p.effective_context)
      then some no_context
      else if not (all is_revision_entry p.input_revision_hashes)
      then some bad_revisions
      else if not (all is_asset_evident p.assets)
      then some bad_assets
      else none

  -- The comparison with the recomputed content hash.
  abbrev pub check_content : Snapshot → Option Text → Option PromptError
  check_content p none = some not_encoded
  check_content p (some digest) =
      if not (text_eq p.content_hash digest)
        || not (text_eq p.id (derived_id (codes "prompt") digest))
      then some content_mismatch
      else none

  unfoldable pub validate_snapshot_hashes : Snapshot → Option PromptError
  validate_snapshot_hashes p =
      if not (text_eq p.normalized_input_hash (prompt_normalized_input_hash p))
      then some normalized_mismatch
      else check_content p (prompt_snapshot_content_hash p)

  -- `PromptSnapshot.ValidateIntegrity`.
  unfoldable pub validate_integrity : Snapshot → Option PromptError
  validate_integrity p = or_else (validate_snapshot_fields p) (validate_snapshot_hashes p)

  -- The request of `BuildGenerationRequest`, before it is validated.
  unfoldable pub request_of : Snapshot → Text → Text → Text → BudgetEnvelope → GenerationRequest
  request_of p request_id idempotency_key callback_url budget = record {
    request_id = request_id;
    idempotency_key = idempotency_key;
    modality = modality_video;
    prompt =
        if not (is_empty p.negative_prompt)
        then p.positive_prompt ++ (10 ∷ (codes "NEGATIVE CONSTRAINTS: " ++ p.negative_prompt))
        else p.positive_prompt;
    prompt_snapshot_id = p.id;
    refs = p.effective_context.revision_refs;
    assets = p.assets;
    output = p.output;
    model_hint = [];
    callback_url = callback_url;
    budget = budget;
  }

  abbrev pub prompt_request_error : Option RequestError → Option PromptError
  prompt_request_error none = none
  prompt_request_error (some e) = some (request_refused e)

  -- `BuildGenerationRequest`.
  unfoldable pub build_generation_request :
      Snapshot → Text → Text → Text → BudgetEnvelope → Result PromptError GenerationRequest
  build_generation_request p request_id idempotency_key callback_url budget = do
    validate_integrity p
    if is_complete_ref (prompt_ref p) then none else some ref_incomplete
    prompt_request_error
        (validate_request (request_of p request_id idempotency_key callback_url budget))
    ok (request_of p request_id idempotency_key callback_url budget)

  -- The two hashes of `VerifyExactPromptSnapshot`.
  abbrev pub same_hash : Option Text → Option Text → Option PromptError
  same_hash none stored = some not_encoded
  same_hash (some candidate) none = some not_encoded
  same_hash (some candidate) (some stored) = if text_eq candidate stored then none else some differs

  abbrev pub stored_error : Option PromptError → Option PromptError
  stored_error none = none
  stored_error (some e) = some (stored_refused e)

  abbrev pub verify_stored : Snapshot → Option Snapshot → Option PromptError
  verify_stored candidate none = some not_persisted
  verify_stored candidate (some stored) =
      or_else (stored_error (validate_integrity stored))
        (same_hash (c.hash_snapshot candidate) (c.hash_snapshot stored))

  -- `VerifyExactPromptSnapshot`; the first argument is `Get` of the source.
  unfoldable pub verify_exact_prompt_snapshot :
      (Text → Option Snapshot) → Snapshot → Option PromptError
  verify_exact_prompt_snapshot get candidate =
      or_else (validate_integrity candidate) (verify_stored candidate (get candidate.id))

  pub record PromptRegistry : Type 0 where
    pub by_id : List (Text × Snapshot)
    pub by_shot : List (Text × List Text)

  abbrev pub new_prompt_registry : PromptRegistry
  new_prompt_registry = record { by_id = []; by_shot = [] }

  abbrev pub chain_of_shot : PromptRegistry → Text → List Text
  chain_of_shot r shot = or_nil (lookup shot r.by_shot)

  abbrev pub Put : Type 0
  Put = PromptRegistry × Result PromptError Snapshot

  -- The end of `Put`, once the clone is validated.
  abbrev pub put_clone : PromptRegistry → Snapshot → Option PromptError → Put
  put_clone r p (some e) = (r, err (clone_refused e))
  put_clone r p none = (
    record {
      by_id = insert p.id (c.clone p) r.by_id;
      by_shot =
          insert p.shot_revision.aggregate_id
            (chain_of_shot r p.shot_revision.aggregate_id ++ p.id ∷ []) r.by_shot;
    },
    ok (c.clone p),
  )

  -- `Put` of a snapshot that is valid, with what the ID is bound to.
  abbrev pub put_valid : PromptRegistry → Snapshot → Option Snapshot → Put
  put_valid r p (some existing) =
      if not (text_eq existing.content_hash p.content_hash)
      then (r, err mutated)
      else (r, ok (c.clone existing))
  put_valid r p none =
      let numbered = record p {
        revision_number = pos (length (chain_of_shot r p.shot_revision.aggregate_id) + 1);
      } in
      put_clone r numbered (validate_integrity (c.clone numbered))

  abbrev pub put_checked : PromptRegistry → Snapshot → Option PromptError → Put
  put_checked r p (some e) = (r, err e)
  put_checked r p none = put_valid r p (lookup p.id r.by_id)

  -- `PromptRegistry.Put`.
  unfoldable pub put : PromptRegistry → Snapshot → Put
  put r p = put_checked r p (validate_integrity p)

  abbrev pub clone_found : Option Snapshot → Option Snapshot
  clone_found none = none
  clone_found (some p) = some (c.clone p)

  -- `PromptRegistry.Get`, `none` for false.
  unfoldable pub get_prompt : PromptRegistry → Text → Option Snapshot
  get_prompt r id = clone_found (lookup id r.by_id)

  -- The registry after puts in turn, whatever they answer.
  unfoldable pub after_puts : PromptRegistry → List Snapshot → PromptRegistry
  after_puts r [] = r
  after_puts r (p ∷ puts) = after_puts (put r p).0 puts
