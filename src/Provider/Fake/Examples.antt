-- ===== src/Provider/Fake/Examples.antt =====
-- The theorems on the fake provider at one submitted job.
use ai_video_series_workflow.Common.{
  ◌≡◌, refl, true, false, none, some, [], ◌∷◌, Text, text_eq, codes, is_blank, lookup, insert, pos,
  ok, padded, decimal, digits, zeros,
}
use ai_video_series_workflow.Common.{err, any, length, ◌+◌}
use ai_video_series_workflow.Provider.FakeState.{fake_recovery, reply}
use ai_video_series_workflow.Provider.Fake.Recovery.{lost_answer, submit-recovers}
use ai_video_series_workflow.Provider.Budget
use ai_video_series_workflow.Provider.Contract.{
  GenerationRequest, validate_request, Job, Callback, running, is_valid_status, is_terminal, rank,
  status_eq, modality_video,
}
use ai_video_series_workflow.Provider.Fake.{
  submits, polls, cancels, after, run, submit, submit_new, answer_submit, apply_callback, apply_to,
  transition,
}
use ai_video_series_workflow.Provider.FakeState.{
  FakeProvider, FakeRecord, fake_success, new_fake_provider, new_job, job_id, scenario_error, now,
}
use ai_video_series_workflow.Provider.Fake.Step.{IsStep, after-IsStep}
use ai_video_series_workflow.Provider.Fake.Sound.{IsSound, run-IsSound}
use ai_video_series_workflow.Provider.Fake.Once.{submit-once}
use ai_video_series_workflow.Provider.Fake.Events.{callback-once}
use ai_video_series_workflow.Provider.Fake.Settled.{HasLater, run-HasLater}

abbrev shot_request : GenerationRequest
shot_request = record {
  request_id = codes "q1";
  idempotency_key = codes "k1";
  modality = modality_video;
  prompt = codes "a shot";
  prompt_snapshot_id = codes "p1";
  refs = record {
    series_snapshot_id = [];
    episode_snapshot_id = [];
    scene_snapshot_id = [];
    shot_snapshot_id = [];
  };
  assets = [];
  output = record {
    width = pos 1280;
    height = pos 720;
    resolution = codes "720p";
    aspect_ratio = codes "16:9";
    fps = pos 24;
    duration_millis = pos 5000;
    format = codes "mp4";
    generate_audio = false;
  };
  model_hint = [];
  callback_url = [];
  budget = record {
    estimated_cost_micros = pos 5000000;
    max_cost_micros = pos 9000000;
    max_attempts = pos 2;
    billing_mode = [];
    reserved_afp_milli = pos 0;
  };
}

abbrev first_id : Text
first_id = codes "fake-job-001"

abbrev first_record : FakeRecord
first_record = record { job = new_job first_id shot_request; poll_count = 0 }

abbrev submitted : FakeProvider
submitted = record {
  scenario = fake_success;
  records = (first_id, first_record) ∷ [];
  idempotency = (codes "k1", first_id) ∷ [];
  callback_events = [];
  recovery_failed = [];
}

abbrev started : Callback
started = record { event_id = codes "e1"; job_id = first_id; status = running; created_at = now }

request_valid : validate_request shot_request ≡ none
unfolding validate_request Budget.validate text_eq is_blank
request_valid = refl

submit_answer :
    (submit none (run (new_fake_provider fake_success) []) shot_request).1
    ≡ ok (new_job first_id shot_request)
unfolding submit validate_request Budget.validate text_eq is_blank run new_fake_provider lookup
    submit_new scenario_error answer_submit job_id padded decimal digits zeros
submit_answer = refl

submit_kept :
    lookup first_id (run (new_fake_provider fake_success) (submits none shot_request ∷ [])).records
    ≡ some first_record
unfolding after submit validate_request Budget.validate text_eq is_blank run new_fake_provider
    lookup insert submit_new scenario_error answer_submit job_id padded decimal digits zeros
submit_kept = refl

callback_applied : (apply_callback submitted started).1.applied ≡ true
unfolding apply_callback apply_to transition is_blank is_valid_status lookup text_eq is_terminal
    rank status_eq new_job
callback_applied = refl

after-IsStep_example : IsStep submitted (after submitted (polls none first_id))
after-IsStep_example = after-IsStep submitted (polls none first_id)

run-IsSound_example :
    IsSound
      (run (new_fake_provider fake_success) (submits none shot_request ∷ [])).records
      (run (new_fake_provider fake_success) (submits none shot_request ∷ [])).idempotency
run-IsSound_example = run-IsSound fake_success (submits none shot_request ∷ [])

submit-once_example :
    let f = run (new_fake_provider fake_success) [] in
    let g = run (submit none f shot_request).0 (polls none first_id ∷ []) in
    (later : Job) × (submit none g shot_request ≡ (g, ok later))
    × (later.id ≡ first_id)
    × (later.idempotency_key ≡ codes "k1")
unfolding new_job
submit-once_example =
    submit-once fake_success [] (polls none first_id ∷ []) shot_request shot_request
      (new_job first_id shot_request) submit_answer refl request_valid

callback-once_example :
    let g = run (apply_callback submitted started).0 (polls none first_id ∷ []) in
    ((apply_callback g started).0 ≡ g) × ((apply_callback g started).1.applied ≡ false)
callback-once_example =
    callback-once submitted started started (polls none first_id ∷ []) callback_applied refl

run-HasLater_example :
    HasLater
      (run
        (run (new_fake_provider fake_success) (submits none shot_request ∷ []))
        (cancels none first_id ∷ polls none first_id ∷ []))
      first_id
      first_record
run-HasLater_example =
    run-HasLater fake_success (submits none shot_request ∷ [])
      (cancels none first_id ∷ polls none first_id ∷ []) first_id first_record submit_kept

recovering : (new_fake_provider fake_recovery).scenario ≡ fake_recovery
unfolding new_fake_provider
recovering = refl

key_free : lookup (codes "k1") (new_fake_provider fake_recovery).idempotency ≡ none
unfolding new_fake_provider lookup
key_free = refl

key_fresh : any (text_eq (codes "k1")) (new_fake_provider fake_recovery).recovery_failed ≡ false
unfolding new_fake_provider
key_fresh = refl

submit-recovers_example :
    let f = new_fake_provider fake_recovery in
    let g = (submit none f shot_request).0 in
    ((submit none f shot_request).1 ≡ err (reply lost_answer))
    × (submit none g shot_request ≡ (g, ok (new_job (job_id (length f.records + 1)) shot_request)))
submit-recovers_example =
    submit-recovers (new_fake_provider fake_recovery) shot_request recovering request_valid key_free
      key_fresh
