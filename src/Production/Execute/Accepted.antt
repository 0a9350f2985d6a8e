-- ===== src/Production/Execute/Accepted.antt =====
-- A run that succeeds went through every check, and the runner keeps what it delivered.
use ai_video_series_workflow.Common.{◌≡◌, ℕ, true, some, [], ◌∷◌, ◌≤◌, pos, ◌≤ℤ◌, pos_part, All}
use ai_video_series_workflow.Provider.Contract.{
  GenerationRequest, Output, Job, succeeded, status_eq,
}
use ai_video_series_workflow.Provider.Manifest.{GenerationManifest}
use ai_video_series_workflow.Provider.Manifest.Built.{IsAudit}
use ai_video_series_workflow.Production.Prompt.{PromptCodec}
use ai_video_series_workflow.Production.RevisionState.{non_empty}
use ai_video_series_workflow.Production.Manifests.{ManifestStore, ManifestRecord, get_manifest}
use ai_video_series_workflow.Production.Run.{count_kind, provider_submit, provider_poll}
use ai_video_series_workflow.Production.Preflight.{Environment, GenerationInput}
use ai_video_series_workflow.Production.Preflight.Cleared.{IsCleared, IsServed}
use ai_video_series_workflow.Production.Loops.{Record, max_polls_of}
use ai_video_series_workflow.Production.Conclude.{build_input}
use ai_video_series_workflow.Production.Conclude.Delivered.{IsCommitted}

module _ (c : PromptCodec) (e : Environment c) where
  -- What the job of the record `r` delivered, with the store of manifests `m`.
  pub record IsAccepted (w : e.World) (at : ℕ) (m : ManifestStore) (i : GenerationInput c)
      (r : Record) : Type 0 where
    pub request : GenerationRequest
    pub cleared : IsCleared c e w i at request
    pub served : IsServed c e w i request r.body.capability
    pub requested : r.body.request ≡ request
    pub job : Job
    pub recorded : r.body.provider_job ≡ some job
    pub succeeded_job : status_eq job.status succeeded ≡ true
    pub same_provider : job.provider ≡ i.route.provider
    pub same_model : job.provider_model ≡ i.route.model_id
    pub located : non_empty (job.provider_region ∷ job.provider_request_id ∷ []) ≡ true
    pub output : Output
    pub delivered : job.output ≡ some output
    pub committed : All (IsCommitted c e) output.assets
    pub paid : pos 0 ≤ℤ output.usage.provider_cost_micros
    pub within : output.usage.provider_cost_micros ≤ℤ i.budget_reservation.amount_micros
    pub manifest : GenerationManifest
    pub audited : IsAudit (build_input c e i r job r.finished_at) manifest
    pub digest : e.hash_manifest manifest ≡ some r.manifest_hash
    pub stored :
        (mr : ManifestRecord) × (get_manifest m manifest.manifest_id ≡ some mr)
        × (mr.hash ≡ r.manifest_hash)
    pub submits : count_kind provider_submit r.body.attempts ≤ pos_part i.budget.max_attempts
    pub polls : count_kind provider_poll r.body.attempts ≤ max_polls_of i.max_polls
