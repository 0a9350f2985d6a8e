-- ===== src/Production/Conclude.antt =====
-- internal/videopipeline/production/generation.go: what `Execute` does with the job that its loops end
-- with, up to the call of `Complete`: the checks of the result, the commits and the manifest.
pub mod Cases
pub mod Delivered
use ai_video_series_workflow.Common.{
  ℕ, zero, suc, ◌+◌, Bool, true, false, not, ◌&&◌, ◌||◌, Option, none, some, List, [], ◌∷◌, ◌++◌,
  length, has_no, ◌==◌, if◌then◌else◌, Text, text_eq, codes, is_empty, ℤ, pos, ltb_ℤ, leb_ℤ,
  pos_part, Result, ok, err, ◌>>◌, ◌>>=◌,
}
use ai_video_series_workflow.Provider.Errors.{
  ProviderError, error_of, provider_unavailable, timeout, budget_exceeded, code_text,
}
use ai_video_series_workflow.Provider.Contract.{
  GenerationRequest, AssetRef, Output, Job, JobStatus, is_terminal, succeeded, failed, cancelled,
  status_eq, Capability,
}
use ai_video_series_workflow.Provider.Dispatch.{ModelSnapshot, BudgetReservation}
use ai_video_series_workflow.Provider.Manifest.{
  GenerationManifest, ManifestBuildInput, ManifestError, new_generation_manifest, assets_of,
}
use ai_video_series_workflow.Production.RevisionState.{non_empty, derived_id}
use ai_video_series_workflow.Production.Prompt.{PromptCodec}
use ai_video_series_workflow.Production.Ledger.{
  RunRecord, RunState, run_running, run_succeeded, run_failed, run_cancelled, RunLedger,
  LedgerError, is_running, begin, complete, new_run_ledger, Begun,
}
use ai_video_series_workflow.Production.Manifests.{
  ManifestStore, ManifestRecord, StoreError, put_manifest, new_manifest_store, Stored,
}
use ai_video_series_workflow.Production.Run.{
  AttemptRecord, RunBody, zero_body, zero_job, Failure, provider_failure, nil_provider_failure,
  request_not_encoded, ledger_refused, already_terminal, result_mismatch, negative_cost,
  no_output_assets, manifest_refused, manifest_not_stored, as_provider, is_retryable, error_code_of,
  retry_delay, later, count_submit_attempts, to_manifest_gate, provider_submit, provider_poll,
}
use ai_video_series_workflow.Production.Preflight.{
  Environment, GenerationInput, RunMaterial, preflight,
}
use ai_video_series_workflow.Production.Loops.{
  Record, Stage, submit_loop, poll_loop, max_polls_of, code_of_error, is_success,
}

-- The checks of `Execute` on the job that the loops end with.
unfoldable pub cost_failure : BudgetReservation → Option Output → Option Failure
cost_failure reservation none = none
cost_failure reservation (some output) =
    if ltb_ℤ output.usage.provider_cost_micros (pos 0)
    then some negative_cost
    else if ltb_ℤ reservation.amount_micros output.usage.provider_cost_micros
    then some (
        provider_failure (
          error_of budget_exceeded (codes "provider actual cost exceeds the approved reservation")))
    else none

abbrev pub state_of : JobStatus → RunState
state_of succeeded = run_succeeded
state_of cancelled = run_cancelled
state_of _ = run_failed

-- The code of a job that did not end well, where it has an error.
abbrev pub job_code : Text → Option ProviderError → Text
job_code old none = old
job_code old (some x) = code_text x.code

abbrev pub code_of_job : Record → Job → RunState → Text
code_of_job r job run_failed = job_code r.error_code job.error
code_of_job r job _ = r.error_code

-- The record of a run with a manifest.
unfoldable pub final_record : Record → Job → ℕ → ManifestRecord → Record
final_record r job completed_at mr = record r {
  state = state_of job.status;
  manifest_hash = mr.hash;
  finished_at = completed_at;
  error_code = code_of_job r job (state_of job.status);
  body = record r.body { provider_job = some job; manifest_id = mr.manifest.manifest_id };
}

abbrev pub unknown_outcome : Failure
unknown_outcome =
    provider_failure
      (record (error_of provider_unavailable (codes "provider submission outcome is unknown")) {
        retryable = true;
      })

module _ (c : PromptCodec) (e : Environment c) where
  unfoldable pub result_failure : GenerationInput c → Job → Option Failure
  result_failure i job =
      if not (is_terminal job.status)
      then some (
          provider_failure
            (record (error_of timeout
              (codes "provider job did not become terminal before the polling limit")) {
                retryable = true;
              }))
      else if not (text_eq job.provider i.route.provider)
          || not (text_eq job.provider_model i.route.model_id)
          || not (non_empty (job.provider_region ∷ job.provider_request_id ∷ []))
      then some result_mismatch
      else cost_failure i.budget_reservation job.output

  abbrev pub prepend :
      AssetRef → e.World × Result Failure (List AssetRef) → e.World × Result Failure (List AssetRef)
  prepend stored (w, ok assets) = (w, ok (stored ∷ assets))
  prepend stored (w, err f) = (w, err f)

  abbrev pub commit_rest :
      (e.World → e.World × Result Failure (List AssetRef))
      → e.World × Result Failure AssetRef
      → e.World × Result Failure (List AssetRef)
  commit_rest rest (w, err f) = (w, err f)
  commit_rest rest (w, ok stored) = prepend stored (rest w)

  -- The loop that commits the assets of a job that succeeded.
  unfoldable pub commit_all : List AssetRef → e.World → e.World × Result Failure (List AssetRef)
  commit_all [] w = (w, ok [])
  commit_all (a ∷ assets) w = commit_rest (commit_all assets) (e.commit w a)

  abbrev pub with_assets :
      Job → Output → e.World × Result Failure (List AssetRef) → e.World × Result Failure Job
  with_assets job o (w, err f) = (w, err f)
  with_assets job o (w, ok assets) =
      (w, ok (record job { output = some (record o { assets = assets }) }))

  abbrev pub commit_output : e.World → Job → Option Output → e.World × Result Failure Job
  commit_output w job none = (w, err no_output_assets)
  commit_output w job (some o) =
      if has_no o.assets
      then (w, err no_output_assets)
      else with_assets job o (commit_all o.assets w)

  -- The job with its committed assets.
  unfoldable pub commit_job : e.World → Job → e.World × Result Failure Job
  commit_job w job =
      if status_eq job.status succeeded then commit_output w job job.output else (w, ok job)

  -- How a run ends: through `fail`, or with a manifest.
  pub data Ending : Type 0 where
    failed_with : Failure → Ending
    concluded : Job → Ending

  -- The record that `Complete` is called with, and how the run ends.
  abbrev pub Ended : Type 0
  Ended = e.World × ManifestStore × Record × Ending

  -- `GenerationRunner.fail` up to the call of `Complete`.
  unfoldable pub fail : ManifestStore → e.World → Record → Failure → Ended
  fail m w r f =
      let (w', at) = e.now w in
      (
        w',
        m,
        record r {
          state = run_failed;
          finished_at = later at r.body.started_at;
          error_code = error_code_of f;
        },
        failed_with f,
      )

  unfoldable pub build_input : GenerationInput c → Record → Job → ℕ → ManifestBuildInput
  build_input i r job completed_at = record {
    manifest_id =
        derived_id (codes "manifest")
          (e.hash_string (i.run_id ++ (0 ∷ (r.request_hash ++ (0 ∷ job.id)))));
    shot_id = i.shot_revision.aggregate_id;
    evidence = i.evidence;
    request = r.body.request;
    job = job;
    attempt = pos (count_submit_attempts r.body.attempts);
    started_at = r.body.started_at;
    completed_at = completed_at;
    input_revision_hashes = i.prompt.input_revision_hashes;
    model_snapshot = some i.route;
    gates = to_manifest_gate i.approval1 ∷ to_manifest_gate i.approval2 ∷ [];
  }

  abbrev pub on_stored : e.World → Record → Job → ℕ → Stored → Ended
  on_stored w r job completed_at (m, err x) = fail m w r (manifest_not_stored x)
  on_stored w r job completed_at (m, ok mr) =
      (w, m, final_record r job completed_at mr, concluded job)

  abbrev pub on_manifest :
      ManifestStore → e.World → Record → Job → ℕ → Result ManifestError GenerationManifest → Ended
  on_manifest m w r job completed_at (err x) = fail m w r (manifest_refused x)
  on_manifest m w r job completed_at (ok manifest) =
      on_stored w r job completed_at (put_manifest e.hash_manifest m manifest)

  abbrev pub on_committed :
      ManifestStore → GenerationInput c → Record → e.World × Result Failure Job → Ended
  on_committed m i r (w, err f) = fail m w r f
  on_committed m i r (w, ok job) =
      let (w', at) = e.now w in
      let completed_at = later at r.body.started_at in
      on_manifest m w' r job completed_at
        (new_generation_manifest (build_input i r job completed_at))

  abbrev pub on_result :
      ManifestStore → GenerationInput c → e.World → Record → Job → Option Failure → Ended
  on_result m i w r job (some f) = fail m w r f
  on_result m i w r job none = on_committed m i r (commit_job w job)

  abbrev pub on_polled : ManifestStore → GenerationInput c → Stage c e → Ended
  on_polled m i (w, r, err f) = fail m w r f
  on_polled m i (w, r, ok job) = on_result m i w r job (result_failure i job)

  abbrev pub on_submitted : ManifestStore → GenerationInput c → Stage c e → Ended
  on_submitted m i (w, r, err f) = fail m w r f
  on_submitted m i (w, r, ok job) =
      if is_empty job.id
      then fail m w r unknown_outcome
      else on_polled m i (poll_loop c e (max_polls_of i.max_polls) w r job)

  -- The part of `Execute` from the first loop to the call of `Complete`.
  unfoldable pub generate : ManifestStore → e.World → GenerationInput c → Record → Ended
  generate m w i r =
      on_submitted m i (submit_loop c e (pos_part i.budget.max_attempts) r.body.request w r)
