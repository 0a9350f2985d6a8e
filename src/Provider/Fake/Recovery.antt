-- ===== src/Provider/Fake/Recovery.antt =====
-- The recovery scenario: a lost answer to a submit is made good by submitting again.
use ai_video_series_workflow.Common.{
  ◌≡◌, refl, ◌+◌, true, false, none, ◌∷◌, Text, text_eq, codes, any, length, lookup, insert,
  lookup-insert_self, ok, err,
}
use ai_video_series_workflow.Provider.Contract.{GenerationRequest, validate_request}
use ai_video_series_workflow.Provider.Errors.{ProviderError, error_of, provider_unavailable}
use ai_video_series_workflow.Provider.FakeState.{
  FakeProvider, reply, fake_recovery, scenario_error, new_job, job_id,
}
use ai_video_series_workflow.Provider.Fake.{submit, submit_new, answer_submit}

-- The error of the lost answer.
abbrev pub lost_answer : ProviderError
lost_answer = record (error_of provider_unavailable (codes "provider service is unavailable")) {
  retryable = true;
}

-- The state after a job is recorded and its answer lost.
abbrev lost : FakeProvider → GenerationRequest → FakeProvider
lost f r =
    let id = job_id (length f.records + 1) in
    record f {
      records = insert id (record { job = new_job id r; poll_count = 0 }) f.records;
      idempotency = insert r.idempotency_key id f.idempotency;
      recovery_failed = r.idempotency_key ∷ f.recovery_failed;
    }

submit-lost :
    (f : FakeProvider) (r : GenerationRequest)
    → f.scenario ≡ fake_recovery
    → validate_request r ≡ none
    → lookup r.idempotency_key f.idempotency ≡ none
    → any (text_eq r.idempotency_key) f.recovery_failed ≡ false
    → submit none f r ≡ (lost f r, err (reply lost_answer))
unfolding submit submit_new answer_submit scenario_error
submit-lost f r scenario valid free fresh = rw (valid, free, scenario, fresh) refl

submit-found :
    (f : FakeProvider) (r : GenerationRequest)
    → validate_request r ≡ none
    → submit none (lost f r) r ≡ (lost f r, ok (new_job (job_id (length f.records + 1)) r))
unfolding submit
submit-found f r valid =
    let id : Text = job_id (length f.records + 1) in
    rw
      (
        valid,
        lookup-insert_self r.idempotency_key id f.idempotency,
        lookup-insert_self id (record { job = new_job id r; poll_count = 0 }) f.records,
      )
      refl

-- In the recovery scenario, the first submit of a valid request under a key that is neither bound
-- nor has failed before answers with a retryable error, and the same submit in the state after it
-- answers with the one queued job that the first has recorded and changes nothing.
pub submit-recovers :
    (f : FakeProvider) (r : GenerationRequest)
    → f.scenario ≡ fake_recovery
    → validate_request r ≡ none
    → lookup r.idempotency_key f.idempotency ≡ none
    → any (text_eq r.idempotency_key) f.recovery_failed ≡ false
    → let g = (submit none f r).0 in
      ((submit none f r).1 ≡ err (reply lost_answer))
      × (submit none g r ≡ (g, ok (new_job (job_id (length f.records + 1)) r)))
submit-recovers f r scenario valid free fresh =
    rw (submit-lost f r scenario valid free fresh) (refl, submit-found f r valid)
