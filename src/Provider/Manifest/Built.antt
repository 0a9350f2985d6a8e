-- ===== src/Provider/Manifest/Built.antt =====
-- What a manifest that was built holds.
use ai_video_series_workflow.Common.{
  ◌≡◌, refl, ap, sym, ◌∙◌, ◌<◌, true, false, not, ◌&&◌, ◌||◌, Option, none, some, has_no, List, [],
  ◌∷◌, ◌++◌, map, all, is_empty, is_some, ok, if◌then◌else◌, arith, >>-ok, check-none, Text,
}
use ai_video_series_workflow.Provider.Contract.{
  validate_request, is_terminal, succeeded, status_eq, AssetRef, Output,
}
use ai_video_series_workflow.Provider.Dispatch.{or_else}
use ai_video_series_workflow.Provider.Manifest.{
  GenerationManifest, ManifestBuildInput, validate_fields, validate_parts, validate_manifest,
  validate_actual, validate_snapshot, is_asset_evidence, is_gate_complete, manifest_of,
  request_error, new_generation_manifest, to_asset_evidence, assets_of, is_revision_entry,
  actual_of, asset_refused, revision_refused, gate_refused,
}

or_else-none {ℓ} : {E : Type ℓ} (a b : Option E) → or_else a b ≡ none → (a ≡ none) × (b ≡ none)
or_else-none none b h = (refl, h)
or_else-none (some e) b h = cc

request_error-none : (o : _) → request_error o ≡ none → o ≡ none
request_error-none none h = refl
request_error-none (some e) h = cc

-- The record of an attempt that ended: `m` is the manifest of the input `i`.
pub record IsAudit (i : ManifestBuildInput) (m : GenerationManifest) : Type 0 where
  pub same : m ≡ manifest_of i
  pub valid_request : validate_request i.request ≡ none
  pub ended : is_terminal i.job.status ≡ true
  pub named :
      (is_empty i.job.id || is_empty i.job.provider || is_empty i.job.provider_request_id) ≡ false
  pub ordered : i.started_at < i.completed_at
  pub evidenced :
      all is_asset_evidence (map to_asset_evidence (i.request.assets ++ assets_of i.job.output))
      ≡ true
  pub gated : all is_gate_complete i.gates ≡ true
  pub delivered :
      status_eq i.job.status succeeded ≡ true
      → (is_some i.job.output && not (has_no (assets_of i.job.output))) ≡ true

fields_named :
    (m : GenerationManifest)
    → validate_fields m ≡ none
    → (is_terminal m.status ≡ true)
      × ((is_empty m.provider.job_id || is_empty m.provider.name || is_empty m.provider.request_id)
          ≡ false)
      × (m.attempt.started_at < m.attempt.completed_at)
unfolding validate_fields
fields_named m h = (ground (arith, h), ground (arith, h), ground (arith, h))

map_append {ℓ κ} :
    {A : Type ℓ} {B : Type κ} (f : A → B) (xs ys : List A) → map f (xs ++ ys) ≡ map f xs ++ map f ys
map_append f [] ys = refl
map_append f (x ∷ xs) ys = ap (λ zs. f x ∷ zs) (map_append f xs ys)

parts_evidenced :
    (m : GenerationManifest)
    → validate_parts m ≡ none
    → (all is_asset_evidence (m.input_assets ++ m.output_assets) ≡ true)
      × (all is_gate_complete m.gates ≡ true)
      × (status_eq m.status succeeded ≡ true
          → validate_actual m.modality m.actual m.output_assets ≡ none)
unfolding validate_parts
parts_evidenced m h =
    let (assets, rest) =
      check-none (all is_asset_evidence (m.input_assets ++ m.output_assets)) asset_refused _ h in
    let (revisions, rest') =
      check-none (all is_revision_entry m.input_revisions) revision_refused _ rest in
    let (gates, rest'') = check-none (all is_gate_complete m.gates) gate_refused _ rest' in
    let (model, last) = or_else-none (validate_snapshot m.model_snapshot) _ rest'' in
    (
      assets,
      gates,
      λ e.
          sym (ap (λ b. if b then validate_actual m.modality m.actual m.output_assets else none) e)
          ∙ last,
    )

actual-is_some :
    (modality : Text) (o : Option Output)
    → validate_actual modality (actual_of o) (map to_asset_evidence (assets_of o)) ≡ none
    → (is_some o && not (has_no (assets_of o))) ≡ true
unfolding validate_actual
actual-is_some modality none h = cc
actual-is_some modality (some o) h = assets o.assets h
  where
    assets :
        (xs : List AssetRef)
        → validate_actual modality (some o.actual) (map to_asset_evidence xs) ≡ none
        → not (has_no xs) ≡ true
    assets [] h = cc
    assets (x ∷ xs) h = refl

-- A manifest that is built is the one of its input; the request is valid, the job has ended and has its
-- identifiers, the attempt ended after it started, every asset of the request and of the job has
-- complete evidence, every gate is complete, and a job that succeeded has delivered an asset.
pub manifest-IsAudit :
    (i : ManifestBuildInput) (m : GenerationManifest)
    → new_generation_manifest i ≡ ok m
    → IsAudit i m
unfolding new_generation_manifest validate_manifest manifest_of
manifest-IsAudit i m h =
    let (request, rest) = >>-ok (request_error (validate_request i.request)) _ h in
    let (valid, last) = >>-ok (validate_manifest (manifest_of i)) _ rest in
    let (fields, parts) =
      or_else-none (validate_fields (manifest_of i)) (validate_parts (manifest_of i)) valid in
    let (ended, named, ordered) = fields_named (manifest_of i) fields in
    let (evidenced, gated, delivered) = parts_evidenced (manifest_of i) parts in
    record {
      same = ground (arith, last);
      valid_request = request_error-none (validate_request i.request) request;
      ended = ended;
      named = named;
      ordered = ordered;
      evidenced =
          ap (all is_asset_evidence)
            (map_append to_asset_evidence i.request.assets (assets_of i.job.output))
          ∙ evidenced;
      gated = gated;
      delivered = λ e. actual-is_some i.request.modality i.job.output (delivered e);
    }
