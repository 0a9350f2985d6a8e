-- ===== src/Provider/Fake.antt =====
-- internal/providercontract/fake.go: the deterministic provider. Its mutex makes every call one step
-- of the state, which is in FakeState.
pub mod Step
pub mod Sound
pub mod Once
pub mod Events
pub mod Settled
pub mod Recovery
mod Examples
use ai_video_series_workflow.Common.{
  ℕ, zero, suc, ◌+◌, ◌*◌, Bool, true, false, not, ◌&&◌, ◌||◌, Option, none, some, List, [], ◌∷◌,
  ◌++◌, ltb, leb, if◌then◌else◌, Text, text_eq, codes, is_empty, is_blank, any, length, pos, ltb_ℤ,
  lookup, insert, Result, ok, err, padded,
}
use ai_video_series_workflow.Provider.Contract.{
  GenerationRequest, RequestError, validate_request, AssetRef, OutputSpec, Output, Usage, Job,
  JobStatus, queued, running, succeeded, failed, cancelled, is_terminal, is_valid_status, rank,
  status_eq, Callback, modality_video,
}
use ai_video_series_workflow.Provider.Errors.{
  ProviderError, error_of, ErrorCode, ContextError, map_context_error, invalid_request, not_found,
  provider_unavailable, unauthenticated, forbidden, rate_limited, timeout, quota_exceeded,
  content_blocked, region_unavailable, model_unavailable,
}
use ai_video_series_workflow.Provider.FakeState.{
  Answer, FakeError, FakeProvider, FakeRecord, FakeScenario, cancelled_record, fake_cancel_race,
  fake_content_blocked, fake_duplicate_callback, fake_forbidden, fake_model_unavailable,
  fake_output, fake_quota_exceeded, fake_rate_limited, fake_recovery, fake_region_unavailable,
  fake_server_error, fake_success, fake_timeout, fake_unauthorized, invalid, is_cancel_race, job_id,
  new_fake_provider, new_job, nil_dereference, now, other, polled, reply, scenario_error, second,
}

abbrev pub is_recovery : FakeScenario → Bool
is_recovery fake_recovery = true
is_recovery _ = false

-- The end of `Submit`, once the job is recorded: the recovery scenario loses the first answer.
unfoldable pub answer_submit : FakeProvider → Text → Job → Answer
answer_submit f key job =
    if is_recovery f.scenario && not (any (text_eq key) f.recovery_failed)
    then (
      record f { recovery_failed = key ∷ f.recovery_failed },
      err (
          reply (record (error_of provider_unavailable (codes "provider service is unavailable")) {
            retryable = true;
          })),
    )
    else (f, ok job)

-- `Submit` of a key that is not bound.
unfoldable pub submit_new : FakeProvider → GenerationRequest → Option ProviderError → Answer
submit_new f r (some e) = (f, err (reply e))
submit_new f r none =
    let id = job_id (length f.records + 1) in
    let job = new_job id r in
    answer_submit
      (record f {
        records = insert id (record { job = job; poll_count = 0 }) f.records;
        idempotency = insert r.idempotency_key id f.idempotency;
      })
      r.idempotency_key job

-- `f.records[id].job`.
abbrev pub job_of : Option FakeRecord → Result FakeError Job
job_of (some record') = ok record'.job
job_of none = err nil_dereference

abbrev pub submit_key : FakeProvider → GenerationRequest → Option Text → Answer
submit_key f r (some id) = (f, job_of (lookup id f.records))
submit_key f r none = submit_new f r (scenario_error f.scenario)

abbrev pub submit_valid : FakeProvider → GenerationRequest → Option RequestError → Answer
submit_valid f r (some e) = (f, err (invalid e))
submit_valid f r none = submit_key f r (lookup r.idempotency_key f.idempotency)

-- `FakeProvider.Submit`; the first argument is the error of the context.
unfoldable pub submit : Option ContextError → FakeProvider → GenerationRequest → Answer
submit (some e) f r = (f, err (reply (map_context_error e)))
submit none f r = submit_valid f r (validate_request r)

-- A change of the record of an ID: the part that `Poll` and `Cancel` share.
unfoldable pub change : (FakeRecord → FakeRecord) → FakeProvider → Text → Option FakeRecord → Answer
change g f id none = (f, err (reply (error_of not_found (codes "provider job was not found"))))
change g f id (some r) =
    if is_terminal r.job.status
    then (f, ok r.job)
    else (record f { records = insert id (g r) f.records }, ok (g r).job)

-- `FakeProvider.Poll`.
unfoldable pub poll : Option ContextError → FakeProvider → Text → Answer
poll (some e) f id = (f, err (reply (map_context_error e)))
poll none f id = change (polled f.scenario) f id (lookup id f.records)

-- `FakeProvider.Cancel`.
unfoldable pub cancel : Option ContextError → FakeProvider → Text → Answer
cancel (some e) f id = (f, err (reply (map_context_error e)))
cancel none f id = change cancelled_record f id (lookup id f.records)

-- The three results of `ApplyCallback`; an error may come with a job.
pub record Applied : Type 0 where
  pub applied : Bool
  pub job : Option Job
  pub error : Option ProviderError

abbrev pub not_applied : FakeProvider → Job → FakeProvider × Applied
not_applied f job = (f, record { applied = false; job = some job; error = none })

abbrev pub refused : FakeProvider → Option Job → ErrorCode → Text → FakeProvider × Applied
refused f job code message =
    (f, record { applied = false; job = job; error = some (error_of code message) })

-- The job that a callback brings.
unfoldable pub called_back : Callback → Job → Job
called_back c job = record job {
  status = c.status;
  updated_at = if ltb job.updated_at c.created_at then c.created_at else job.updated_at;
}

-- The transition, once the event is recorded.
unfoldable pub transition : FakeProvider → Callback → FakeRecord → FakeProvider × Applied
transition f c r =
    if is_terminal r.job.status || ltb_ℤ (rank c.status) (rank r.job.status)
    then not_applied f r.job
    else if status_eq c.status r.job.status && not (ltb r.job.updated_at c.created_at)
    then not_applied f r.job
    else (
      record f { records = insert c.job_id (record r { job = called_back c r.job }) f.records },
      record { applied = true; job = some (called_back c r.job); error = none },
    )

unfoldable pub apply_to : FakeProvider → Callback → Option FakeRecord → FakeProvider × Applied
apply_to f c none = refused f none not_found (codes "provider job was not found")
apply_to f c (some r) =
    if any (text_eq c.event_id) f.callback_events
    then not_applied f r.job
    else if is_blank c.event_id || not (is_valid_status c.status)
    then refused f (some r.job) invalid_request (codes "callback event and status are invalid")
    else transition (record f { callback_events = c.event_id ∷ f.callback_events }) c r

-- `FakeProvider.ApplyCallback`. Both branches on a duplicate look the record up first and fail alike
-- when there is none.
unfoldable pub apply_callback : FakeProvider → Callback → FakeProvider × Applied
apply_callback f c =
    if is_empty c.event_id || is_empty c.job_id || not (is_valid_status c.status)
    then refused f none invalid_request (codes "valid callback event, job, and state are required")
    else apply_to f c (lookup c.job_id f.records)

pub data Call : Type 0 where
  submits : Option ContextError → GenerationRequest → Call
  polls : Option ContextError → Text → Call
  cancels : Option ContextError → Text → Call
  calls_back : Callback → Call

-- The state after a call, whatever it answers.
unfoldable pub after : FakeProvider → Call → FakeProvider
after f (submits ctx r) = (submit ctx f r).0
after f (polls ctx id) = (poll ctx f id).0
after f (cancels ctx id) = (cancel ctx f id).0
after f (calls_back c) = (apply_callback f c).0

unfoldable pub run : FakeProvider → List Call → FakeProvider
run f [] = f
run f (d ∷ ds) = run (after f d) ds
