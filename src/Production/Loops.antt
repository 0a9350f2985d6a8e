-- ===== src/Production/Loops.antt =====
-- internal/videopipeline/production/generation.go: the loops of `Execute` that submit and poll. A loop
-- recurs on the rounds that it has left.
pub mod Grown
use ai_video_series_workflow.Common.{
  ℕ, zero, suc, ◌+◌, Bool, true, false, not, ◌&&◌, ◌||◌, Option, none, some, List, [], ◌∷◌, ◌++◌,
  length, has_no, ◌==◌, if◌then◌else◌, Text, text_eq, codes, is_empty, ℤ, pos, ltb_ℤ, leb_ℤ,
  pos_part, Result, ok, err, ◌>>◌, ◌>>=◌,
}
use ai_video_series_workflow.Provider.Errors.{
  ProviderError, error_of, provider_unavailable, timeout, budget_exceeded, code_text,
}
use ai_video_series_workflow.Provider.Contract.{
  GenerationRequest, AssetRef, Output, Job, JobStatus, is_terminal, succeeded, failed, cancelled,
  status_eq, Capability,
}
use ai_video_series_workflow.Provider.Dispatch.{ModelSnapshot, BudgetReservation}
use ai_video_series_workflow.Provider.Manifest.{
  GenerationManifest, ManifestBuildInput, ManifestError, new_generation_manifest, assets_of,
}
use ai_video_series_workflow.Production.RevisionState.{non_empty, derived_id}
use ai_video_series_workflow.Production.Prompt.{PromptCodec}
use ai_video_series_workflow.Production.Ledger.{
  RunRecord, RunState, run_running, run_succeeded, run_failed, run_cancelled, RunLedger,
  LedgerError, is_running, begin, complete, new_run_ledger, Begun,
}
use ai_video_series_workflow.Production.Manifests.{
  ManifestStore, ManifestRecord, StoreError, put_manifest, new_manifest_store, Stored,
}
use ai_video_series_workflow.Production.Run.{
  AttemptRecord, RunBody, zero_body, zero_job, Failure, provider_failure, nil_provider_failure,
  request_not_encoded, ledger_refused, already_terminal, result_mismatch, negative_cost,
  no_output_assets, manifest_refused, manifest_not_stored, as_provider, is_retryable, error_code_of,
  retry_delay, later, count_submit_attempts, to_manifest_gate, provider_submit, provider_poll,
}
use ai_video_series_workflow.Production.Preflight.{
  Environment, GenerationInput, RunMaterial, preflight,
}

abbrev pub Record : Type 0
Record = RunRecord RunBody

abbrev pub is_success : RunState → Bool
is_success run_succeeded = true
is_success _ = false

abbrev pub code_of_error : Option ProviderError → Text
code_of_error none = []
code_of_error (some e) = code_text e.code

-- append(record.Attempts, attempt).
unfoldable pub add_attempt : Record → (ℕ → AttemptRecord) → Record
add_attempt r attempt = record r {
  body = record r.body { attempts = r.body.attempts ++ attempt (length r.body.attempts + 1) ∷ [] };
}

-- An attempt that was answered with a job of the status.
abbrev pub answered : Text → ℕ → ℕ → Text → JobStatus → ℕ → AttemptRecord
answered kind started finished job_id status sequence = record {
  sequence = sequence;
  kind = kind;
  state = status;
  started_at = started;
  finished_at = finished;
  provider_job_id = job_id;
  error_code = [];
  retryable = false;
}

-- An attempt that failed, for the job of the ID.
abbrev pub refused : Text → ℕ → ℕ → Text → Failure → ℕ → AttemptRecord
refused kind started finished job_id f sequence = record {
  sequence = sequence;
  kind = kind;
  state = failed;
  started_at = started;
  finished_at = finished;
  provider_job_id = job_id;
  error_code = code_of_error (as_provider f);
  retryable = is_retryable f;
}

abbrev pub max_polls_of : ℤ → ℕ
max_polls_of max = if leb_ℤ max (pos 0) then 60 else pos_part max

module _ (c : PromptCodec) (e : Environment c) where
  -- The state of the loops, and the job that they end with.
  abbrev pub Stage : Type 0
  Stage = e.World × Record × Result Failure Job

  abbrev pub retried : (e.World → Record → Stage) → Record → e.World × Option Failure → Stage
  retried again r (w, none) = again w r
  retried again r (w, some f) = (w, r, err f)

  -- The rest of a round, once the provider has answered; `left` rounds remain after it.
  abbrev pub on_submit :
      ℕ → (e.World → Record → Stage) → ℕ → ℕ → e.World → Record → Result Failure Job → Stage
  on_submit left again started finished w r (ok job) =
      (w, add_attempt r (answered provider_submit started finished job.id job.status), ok job)
  on_submit left again started finished w r (err f) =
      let r' = add_attempt r (refused provider_submit started finished [] f) in
      if not (is_retryable f) || left == 0
      then (w, r', err f)
      else retried again r' (e.wait w (retry_delay (as_provider f)))

  -- The first loop of `Execute`.
  unfoldable pub submit_loop : ℕ → GenerationRequest → e.World → Record → Stage
  submit_loop zero request w r = (w, r, ok zero_job)
  submit_loop (suc left) request w r =
      let (w1, started) = e.now w in
      let (w2, answer) = e.submit w1 request in
      let (w3, finished) = e.now w2 in
      on_submit left (submit_loop left request) started (later finished started) w3 r answer

  abbrev pub waited :
      (e.World → Record → Job → Stage) → Job → Record → e.World × Option Failure → Stage
  waited again job r (w, none) = again w r job
  waited again job r (w, some f) = (e.cancel w job.id, r, err f)

  -- The end of a round: a job that is not terminal is waited for.
  abbrev pub after_round : (e.World → Record → Job → Stage) → Job → e.World → Record → Stage
  after_round again job w r =
      if not (is_terminal job.status)
      then waited again job r (e.wait w 100000000)
      else again w r job

  abbrev pub on_poll :
      (e.World → Record → Job → Stage) → ℕ → ℕ → Job → e.World → Record → Result Failure Job → Stage
  on_poll again started finished job w r (ok polled) =
      after_round again polled w
        (add_attempt r (answered provider_poll started finished job.id polled.status))
  on_poll again started finished job w r (err f) =
      let r' = add_attempt r (refused provider_poll started finished job.id f) in
      if not (is_retryable f) then (w, r', err f) else after_round again job w r'

  -- The second loop of `Execute`.
  unfoldable pub poll_loop : ℕ → e.World → Record → Job → Stage
  poll_loop zero w r job = (w, r, ok job)
  poll_loop (suc left) w r job =
      if is_terminal job.status
      then (w, r, ok job)
      else (let (w1, started) = e.now w in
          let (w2, answer) = e.poll w1 job.id in
          let (w3, finished) = e.now w2 in
          on_poll (poll_loop left) started (later finished started) job w3 r answer)
