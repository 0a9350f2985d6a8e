-- ===== src/Production/Execute.antt =====
-- internal/videopipeline/production/generation.go: the execution of a generation run, which is serial
-- under the runner's mutex. The runner keeps the ledger and the store of manifests; `world` is the
-- state of what is outside.
pub mod Settled
pub mod Once
pub mod Accepted
pub mod Bounded
pub mod Fixture
mod Examples
use ai_video_series_workflow.Common.{
  ℕ, zero, suc, ◌+◌, Bool, true, false, not, ◌&&◌, ◌||◌, Option, none, some, List, [], ◌∷◌, ◌++◌,
  length, has_no, ◌==◌, if◌then◌else◌, Text, text_eq, codes, is_empty, ℤ, pos, ltb_ℤ, leb_ℤ,
  pos_part, Result, ok, err, ◌>>◌, ◌>>=◌,
}
use ai_video_series_workflow.Provider.Errors.{
  ProviderError, error_of, provider_unavailable, timeout, budget_exceeded, code_text,
}
use ai_video_series_workflow.Provider.Contract.{
  GenerationRequest, AssetRef, Output, Job, JobStatus, is_terminal, succeeded, failed, cancelled,
  status_eq, Capability,
}
use ai_video_series_workflow.Provider.Dispatch.{ModelSnapshot, BudgetReservation}
use ai_video_series_workflow.Provider.Manifest.{
  GenerationManifest, ManifestBuildInput, ManifestError, new_generation_manifest, assets_of,
}
use ai_video_series_workflow.Production.RevisionState.{non_empty, derived_id}
use ai_video_series_workflow.Production.Prompt.{PromptCodec}
use ai_video_series_workflow.Production.Ledger.{
  RunRecord, RunState, run_running, run_succeeded, run_failed, run_cancelled, RunLedger,
  LedgerError, is_running, begin, complete, new_run_ledger, Begun,
}
use ai_video_series_workflow.Production.Manifests.{
  ManifestStore, ManifestRecord, StoreError, put_manifest, new_manifest_store, Stored,
}
use ai_video_series_workflow.Production.Run.{
  AttemptRecord, RunBody, zero_body, zero_job, Failure, provider_failure, nil_provider_failure,
  request_not_encoded, ledger_refused, already_terminal, result_mismatch, negative_cost,
  no_output_assets, manifest_refused, manifest_not_stored, as_provider, is_retryable, error_code_of,
  retry_delay, later, count_submit_attempts, to_manifest_gate, provider_submit, provider_poll,
}
use ai_video_series_workflow.Production.Preflight.{
  Environment, GenerationInput, RunMaterial, preflight,
}
use ai_video_series_workflow.Production.Loops.{Record, is_success}
use ai_video_series_workflow.Production.Conclude.{Ending, failed_with, concluded, Ended, generate}

module _ (c : PromptCodec) (e : Environment c) where
  pub record Runner : Type 0 where
    pub world : e.World
    pub ledger : RunLedger RunBody
    pub manifests : ManifestStore

  -- `NewGenerationRunner`.
  abbrev pub new_generation_runner : e.World → Runner
  new_generation_runner w = record {
    world = w;
    ledger = new_run_ledger RunBody;
    manifests = new_manifest_store;
  }

  -- The two results of `Execute`: the record, `none` for the zero value, and the error.
  abbrev pub Outcome : Type 0
  Outcome = Option Record × Option Failure

  abbrev pub Executed : Type 0
  Executed = Runner × Outcome

  -- The struct that is hashed.
  unfoldable pub run_material : GenerationInput c → GenerationRequest → RunMaterial
  run_material i request = record {
    request = request;
    source_revision = i.source_revision;
    shot_revision = i.shot_revision;
    prompt_hash = i.prompt.content_hash;
    authorization = i.authorization;
    approval1 = i.approval1;
    approval2 = i.approval2;
    route = i.route;
    budget_reservation = i.budget_reservation;
    evidence = i.evidence;
  }

  -- The record that `Begin` is called with.
  unfoldable pub new_record : GenerationInput c → GenerationRequest → Capability → Text → ℕ → Record
  new_record i request capability request_hash started_at = record {
    run_id = i.run_id;
    idempotency_key = i.idempotency_key;
    request_hash = request_hash;
    state = run_running;
    manifest_hash = [];
    finished_at = 0;
    error_code = [];
    body = record {
      evidence = i.evidence;
      source_revision = i.source_revision;
      shot_revision = i.shot_revision;
      prompt_snapshot_id = i.prompt.id;
      prompt_snapshot_hash = i.prompt.content_hash;
      input_revision_hashes = i.prompt.input_revision_hashes;
      capability = capability;
      model = i.route;
      budget_reservation = i.budget_reservation;
      request = request;
      attempts = [];
      provider_job = none;
      manifest_id = [];
      started_at = started_at;
    };
  }

  -- The answer for a replayed run that has ended.
  abbrev pub answer_again : Record → Outcome
  answer_again existing =
      if is_success existing.state
      then (some existing, none)
      else (some existing, some (already_terminal existing.error_code))

  -- `return completed, job.Error`, where a nil *Error is an error that is not nil.
  abbrev pub job_failure : Option ProviderError → Failure
  job_failure none = nil_provider_failure
  job_failure (some x) = provider_failure x

  -- The answer, once `Complete` has answered.
  abbrev pub answer_completed : Ending c e → Result LedgerError Record → Outcome
  answer_completed ending (err x) = (none, some (ledger_refused x))
  answer_completed (failed_with f) (ok completed) = (some completed, some f)
  answer_completed (concluded job) (ok completed) =
      if not (is_success completed.state)
      then (some completed, some (job_failure job.error))
      else (some completed, none)

  -- `Complete` of the record that a run ends with.
  unfoldable pub settle : RunLedger RunBody → Ended c e → Executed
  settle l (w, m, r, ending) =
      let (l', completed) = complete RunBody l r in
      (record { world = w; ledger = l'; manifests = m }, answer_completed ending completed)

  -- The answer of `Begin`: a run that is new, or that has not ended, is generated.
  abbrev pub on_begun :
      ManifestStore → e.World → GenerationInput c → Record → Begun RunBody → Executed
  on_begun m w i r (l, err x) =
      (record { world = w; ledger = l; manifests = m }, (none, some (ledger_refused x)))
  on_begun m w i r (l, ok (existing, replay)) =
      if replay && not (is_running existing.state)
      then (record { world = w; ledger = l; manifests = m }, answer_again existing)
      else settle l (generate c e m w i r)

  abbrev pub on_hashed :
      Runner
      → e.World
      → GenerationInput c
      → GenerationRequest
      → Capability
      → ℕ
      → Option Text
      → Executed
  on_hashed s w i request capability at none =
      (record s { world = w }, (none, some request_not_encoded))
  on_hashed s w i request capability at (some request_hash) =
      let r = new_record i request capability request_hash at in
      on_begun s.manifests w i r (begin RunBody zero_body s.ledger r)

  abbrev pub on_prepared :
      Runner
      → GenerationInput c
      → ℕ
      → e.World × Result Failure (GenerationRequest × Capability)
      → Executed
  on_prepared s i at (w, err f) = (record s { world = w }, (none, some f))
  on_prepared s i at (w, ok (request, capability)) =
      on_hashed s w i request capability at (e.hash_run (run_material i request))

  -- `GenerationRunner.Execute`.
  unfoldable pub execute : Runner → GenerationInput c → Executed
  execute s i = let (w, at) = e.now s.world in on_prepared s i at (preflight c e w i at)

  -- The runner after executions in turn.
  unfoldable pub after_executions : Runner → List (GenerationInput c) → Runner
  after_executions s [] = s
  after_executions s (i ∷ inputs) = after_executions (execute s i).0 inputs

  -- The runner that started new, after executions in turn.
  abbrev pub reached : e.World → List (GenerationInput c) → Runner
  reached w inputs = after_executions (new_generation_runner w) inputs
