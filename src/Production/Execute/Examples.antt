-- ===== src/Production/Execute/Examples.antt =====
-- The theorems on the runner at a run of the fake provider.
use ai_video_series_workflow.Common.{
  ◌≡◌, refl, pos, ◌≤◌, ℕ, ◌+◌, Bool, Option, Result, err, arith, if◌then◌else◌, none, some, true,
  false, [], ◌∷◌, codes, lookup, is_some, ok, text_eq, is_blank, is_sha256, insert, padded, decimal,
  byte_len, utf8_width, is_space, zeros, digits,
}
use ai_video_series_workflow.Provider.Budget
use ai_video_series_workflow.Provider.Budget.{
  evaluate, decide_projection, checked_add_non_negative, checked_add_from,
}
use ai_video_series_workflow.Provider.Contract.{
  GenerationRequest, Capability, Job, succeeded, validate_request, is_asset_complete, is_terminal,
  status_eq,
}
use ai_video_series_workflow.Provider.Dispatch.{
  validate_model, is_capability, validate_for, validate_reservation, validate_binding_input,
  validate_amount, material,
}
use ai_video_series_workflow.Provider.Fake
use ai_video_series_workflow.Provider.Fake.{change}
use ai_video_series_workflow.Provider.FakeState.{
  FakeProvider, FakeError, invalid, reply, nil_dereference, polled, new_fake_provider,
  scenario_error, job_id, new_job, fake_output,
}
use ai_video_series_workflow.Provider.Manifest.Built.{IsAudit, manifest-IsAudit}
use ai_video_series_workflow.Provider.Manifest.{
  ManifestBuildInput, new_generation_manifest, manifest_of, validate_manifest, validate_fields,
  validate_parts, validate_actual, is_asset_evidence, is_gate_complete, non_empty_manifest,
  to_asset_evidence, sub_time,
}
use ai_video_series_workflow.Production.RevisionState.{non_empty, derived_id}
use ai_video_series_workflow.Production.Refs.{
  gate_eq, is_complete_ref, is_approved, validate_authorization,
}
use ai_video_series_workflow.Production.Prompt.{
  verify_exact_prompt_snapshot, validate_integrity, validate_snapshot_fields,
  validate_snapshot_hashes, is_output_complete, prompt_normalized_input_hash,
  prompt_snapshot_content_hash, build_generation_request, request_of, prompt_ref,
}
use ai_video_series_workflow.Production.Manifests.{put_manifest}
use ai_video_series_workflow.Production.Run.{
  later, count_submit_attempts, to_manifest_gate, serves, select_capability,
}
use ai_video_series_workflow.Production.Preflight.{
  preflight, request_for, input_checks, budget_checks,
}
use ai_video_series_workflow.Production.Loops.{Record, add_attempt, submit_loop, poll_loop}
use ai_video_series_workflow.Production.Conclude.{
  generate, result_failure, cost_failure, commit_job, commit_all, final_record, build_input, fail,
}
use ai_video_series_workflow.Production.Run.{
  zero_body, zero_request, zero_capability, RunBody, Failure, ledger_refused,
}
use ai_video_series_workflow.Production.Ledger.{or_nil_run, begin, complete, is_running, key_reused}
use ai_video_series_workflow.Production.Execute.{
  Runner, Outcome, execute, new_generation_runner, after_executions, run_material, new_record,
  settle, reached, answer_again,
}
use ai_video_series_workflow.Production.Execute.Settled.{no_run-IsRunning}
use ai_video_series_workflow.Production.Execute.Once.{IsBound, executed-once, resumed}
use ai_video_series_workflow.Production.Execute.Bounded.{IsMeter, allowed, executions-paid}
use ai_video_series_workflow.Production.Execute.Fixture.{
  codec, environment, input, start, World, answer_of, digest,
}

-- The runner after one execution.
abbrev once : Runner codec environment
once = reached codec environment start (input ∷ [])

abbrev kept : Record
kept = or_nil_run RunBody zero_body (lookup (codes "run-1") once.ledger.by_run_id)

some_or_nil : (o : Option Record) → is_some o ≡ true → o ≡ some (or_nil_run RunBody zero_body o)
some_or_nil none h = cc
some_or_nil (some r) h = refl

-- A request and a capability, where there are none.
abbrev prepared_of :
    Result Failure (GenerationRequest × Capability) → GenerationRequest × Capability
prepared_of (ok x) = x
prepared_of (err f) = (zero_request, zero_capability)

abbrev is_ok : Result Failure (GenerationRequest × Capability) → Bool
is_ok (ok x) = true
is_ok (err f) = false

prepared_ok :
    (x : World × Result Failure (GenerationRequest × Capability))
    → is_ok x.1 ≡ true
    → x ≡ (x.0, ok ((prepared_of x.1).0, (prepared_of x.1).1))
prepared_ok (w, ok (request, capability)) h = refl
prepared_ok (w, err f) h = cc

-- The checks of a second execution.
abbrev second : World × Result Failure (GenerationRequest × Capability)
second =
    preflight codec environment
      (environment.now (resumed codec environment start (input ∷ []) []).world).0 input
      (environment.now (resumed codec environment start (input ∷ []) []).world).1

-- What the execution answers.
abbrev first : Outcome codec environment
first = (execute codec environment (reached codec environment start []) input).1

abbrev succeeds : Outcome codec environment → Bool
succeeds (some r, none) = true
succeeds _ = false

-- The execution and the checks of the next compute.
once_runs :
    (is_some (lookup (codes "run-1") once.ledger.by_run_id) ≡ true)
    × (lookup (codes "run-1") once.ledger.by_idempotency ≡ some (codes "run-1"))
    × (is_ok second.1 ≡ true)
    × (succeeds first ≡ true)
unfolding after_executions execute preflight request_for input_checks budget_checks
    verify_exact_prompt_snapshot validate_integrity validate_snapshot_fields
    validate_snapshot_hashes is_output_complete non_empty gate_eq is_complete_ref is_approved
    validate_authorization build_generation_request request_of prompt_ref validate_request
    validate_model is_capability validate_for validate_reservation validate_binding_input
    validate_amount Budget.validate evaluate decide_projection checked_add_non_negative
    select_capability serves new_record begin generate submit_loop poll_loop add_attempt Fake.submit
    Fake.poll change polled new_fake_provider scenario_error job_id new_job fake_output padded
    is_terminal result_failure cost_failure commit_job commit_all status_eq final_record build_input
    new_generation_manifest validate_manifest validate_fields validate_parts manifest_of
    to_asset_evidence is_asset_evidence is_gate_complete validate_actual put_manifest settle
    complete is_running lookup insert text_eq is_blank is_sha256 fail prompt_normalized_input_hash
    prompt_snapshot_content_hash derived_id Fake.submit_new Fake.answer_submit zeros decimal digits
    count_submit_attempts later sub_time to_manifest_gate non_empty_manifest byte_len utf8_width
    is_space run_material checked_add_from is_asset_complete material
once_runs = (refl, refl, refl, refl)

no_run-IsRunning_example : is_running kept.state ≡ false
no_run-IsRunning_example =
    no_run-IsRunning codec environment start (input ∷ []) (codes "run-1") kept
      (some_or_nil (lookup (codes "run-1") once.ledger.by_run_id) once_runs.0)

kept_bound : IsBound (codes "run-1") (codes "run-1") kept once.ledger
kept_bound = record {
  named = once_runs.1;
  stands = some_or_nil (lookup (codes "run-1") once.ledger.by_run_id) once_runs.0;
}

executed-once_example :
    execute codec environment (resumed codec environment start (input ∷ []) []) input ≡ (
      record (resumed codec environment start (input ∷ []) []) { world = second.0 },
      if text_eq kept.request_hash digest
          then answer_again codec environment kept
          else (none, some (ledger_refused key_reused)),
    )
executed-once_example =
    executed-once codec environment start (input ∷ []) [] input (codes "run-1") kept second.0
      (prepared_of second.1).0 (prepared_of second.1).1 digest kept_bound
      (prepared_ok second once_runs.2) refl

abbrev submissions_of : World → ℕ
submissions_of w = w.submissions

answer_of-submissions :
    (clock n : ℕ) (x : FakeProvider × Result FakeError Job)
    → (answer_of clock n x).0.submissions ≡ n
answer_of-submissions clock n (f, ok job) = refl
answer_of-submissions clock n (f, err (reply e)) = refl
answer_of-submissions clock n (f, err (invalid e)) = refl
answer_of-submissions clock n (f, err nil_dereference) = refl

-- The number of submissions meters the environment.
submissions-IsMeter : IsMeter codec environment submissions_of
submissions-IsMeter = record {
  submit_once = λ w r.
      omega
        (arith, answer_of-submissions w.clock (w.submissions + 1) (Fake.submit none w.provider r));
  discover_free = λ w. omega arith;
  poll_free = λ w id.
      omega (arith, answer_of-submissions w.clock w.submissions (Fake.poll none w.provider id));
  cancel_free = λ w id.
      omega (arith, answer_of-submissions w.clock w.submissions (Fake.cancel none w.provider id));
  commit_free = λ w a. omega arith;
  now_free = λ w. omega arith;
  wait_free = λ w n. omega arith;
}

executions-paid_example :
    (after_executions codec environment
      (new_generation_runner codec environment start)
      (input ∷ input ∷ [])).world.submissions
    ≤ 0 + allowed codec environment submissions_of (input ∷ input ∷ [])
executions-paid_example =
    executions-paid codec environment submissions_of submissions-IsMeter
      (new_generation_runner codec environment start) (input ∷ input ∷ [])

-- The manifest of a job that succeeded.
abbrev audited : ManifestBuildInput
audited = record {
  manifest_id = codes "manifest-1";
  shot_id = codes "shot-1";
  evidence = input.evidence;
  request =
      request_of codec input.prompt input.run_id input.idempotency_key input.callback_url
        input.budget;
  job = record (new_job (codes "fake-job-001") zero_request) {
    status = succeeded;
    output = some fake_output;
  };
  attempt = pos 1;
  started_at = 100;
  completed_at = 200;
  input_revision_hashes = input.prompt.input_revision_hashes;
  model_snapshot = some input.route;
  gates = to_manifest_gate input.approval1 ∷ to_manifest_gate input.approval2 ∷ [];
}

audited_built : new_generation_manifest audited ≡ ok (manifest_of audited)
unfolding new_generation_manifest validate_manifest validate_fields validate_parts validate_actual
    manifest_of is_asset_evidence is_gate_complete non_empty_manifest to_asset_evidence
    to_manifest_gate sub_time validate_model is_capability validate_request Budget.validate
    is_asset_complete request_of new_job fake_output is_terminal status_eq is_blank is_space
    is_sha256 byte_len utf8_width text_eq
audited_built = refl

manifest-IsAudit_example : IsAudit audited (manifest_of audited)
manifest-IsAudit_example = manifest-IsAudit audited (manifest_of audited) audited_built
