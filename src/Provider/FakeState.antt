-- ===== src/Provider/FakeState.antt =====
-- fake.go: the state of the deterministic provider and what its calls do to one record. An entry of a
-- Go set is its key, and the two pointers to one record are the binding of the record's ID in
-- `records`. `now` is the constant clock that the constructor installs.
use ai_video_series_workflow.Common.{
  ℕ, ◌+◌, ◌*◌, Bool, true, false, ◌||◌, Option, none, some, List, [], ◌∷◌, ◌++◌, leb, if◌then◌else◌,
  Text, codes, pos, Result, padded,
}
use ai_video_series_workflow.Provider.Contract.{
  GenerationRequest, RequestError, Output, Job, queued, running, succeeded, cancelled,
  modality_video,
}
use ai_video_series_workflow.Provider.Errors.{
  ProviderError, error_of, provider_unavailable, unauthenticated, forbidden, rate_limited, timeout,
  quota_exceeded, content_blocked, region_unavailable, model_unavailable,
}

pub data FakeScenario : Type 0 where
  fake_success fake_unauthorized fake_forbidden fake_rate_limited : FakeScenario
  fake_server_error fake_timeout fake_quota_exceeded fake_content_blocked : FakeScenario
  fake_region_unavailable fake_model_unavailable fake_duplicate_callback : FakeScenario
  fake_cancel_race fake_recovery : FakeScenario
  other : Text → FakeScenario

pub record FakeRecord : Type 0 where
  pub job : Job
  pub poll_count : ℕ

pub record FakeProvider : Type 0 where
  pub scenario : FakeScenario
  pub records : List (Text × FakeRecord)
  pub idempotency : List (Text × Text)
  pub callback_events : List Text
  pub recovery_failed : List Text

-- What a call answers in place of a job; the message of `invalid` is the text of the request's
-- error.
pub data FakeError : Type 0 where
  invalid : RequestError → FakeError
  reply : ProviderError → FakeError
  nil_dereference : FakeError

abbrev pub Answer : Type 0
Answer = FakeProvider × Result FakeError Job

abbrev pub second : ℕ
second = 1000000000

-- time.Unix(1_800_000_000, 0).
abbrev pub now : ℕ
now = 1800000000 * second

-- `NewFakeProvider`.
unfoldable pub new_fake_provider : FakeScenario → FakeProvider
new_fake_provider scenario = record {
  scenario = scenario;
  records = [];
  idempotency = [];
  callback_events = [];
  recovery_failed = [];
}

-- `FakeProvider.scenarioError`.
unfoldable pub scenario_error : FakeScenario → Option ProviderError
scenario_error fake_unauthorized =
    some (record (error_of unauthenticated (codes "provider authentication failed")) {
      http_status = pos 401;
    })
scenario_error fake_forbidden =
    some (record (error_of forbidden (codes "provider authorization failed")) {
      http_status = pos 403;
    })
scenario_error fake_rate_limited =
    some (record (error_of rate_limited (codes "provider rate limit exceeded")) {
      http_status = pos 429;
      retryable = true;
      retry_after = second;
    })
scenario_error fake_server_error =
    some (record (error_of provider_unavailable (codes "provider service is unavailable")) {
      http_status = pos 503;
      retryable = true;
    })
scenario_error fake_timeout =
    some (record (error_of timeout (codes "provider request timed out")) { retryable = true })
scenario_error fake_quota_exceeded =
    some (record (error_of quota_exceeded (codes "provider quota is exhausted")) {
      http_status = pos 429;
    })
scenario_error fake_content_blocked =
    some (record (error_of content_blocked (codes "provider content policy blocked the request")) {
      http_status = pos 400;
    })
scenario_error fake_region_unavailable =
    some
      (record (error_of region_unavailable
        (codes "provider model is unavailable in the configured region")) { http_status = pos 422 })
scenario_error fake_model_unavailable =
    some (record (error_of model_unavailable (codes "provider model is unavailable")) {
      http_status = pos 422;
    })
scenario_error _ = none

-- "fake-job-%03d".
unfoldable pub job_id : ℕ → Text
job_id n = codes "fake-job-" ++ padded 3 n

-- The job that `Submit` makes.
unfoldable pub new_job : Text → GenerationRequest → Job
new_job id r = record {
  id = id;
  request_id = r.request_id;
  idempotency_key = r.idempotency_key;
  status = queued;
  provider = codes "fake";
  provider_model = codes "fake-video-v1";
  provider_region = codes "local-fixture";
  provider_request_id = codes "fake-request-" ++ id;
  created_at = now;
  updated_at = now;
  output = none;
  error = none;
}

unfoldable pub fake_output : Output
fake_output = record {
  assets =
      record {
        id = codes "asset-fake-output";
        revision = codes "rev-1";
        kind = modality_video;
        role = codes "output";
        uri = codes "https://example.invalid/fake-output.mp4";
        sha256 = codes "352b94f7134554825a7c426e579d12943a48c30db1666120353f5f24aa9c59b3";
        license_reference = codes "fixture-license";
        media_type = [];
        size_bytes = pos 0;
        width = pos 0;
        height = pos 0;
        fps = pos 0;
        duration_millis = pos 0;
      }
      ∷ [];
  actual = record {
    width = pos 1280;
    height = pos 720;
    resolution = codes "720p";
    aspect_ratio = codes "16:9";
    fps = pos 24;
    duration_millis = pos 5000;
    format = codes "mp4";
    generate_audio = false;
  };
  usage = record {
    input_tokens = pos 0;
    output_tokens = pos 0;
    video_tokens = pos 250000;
    generated_images = pos 0;
    generated_chars = pos 0;
    generated_millis = pos 5000;
    provider_cost_micros = pos 7000000;
    input_units = pos 0;
    output_units = pos 0;
    unit = [];
  };
  text = [];
}

abbrev pub is_cancel_race : FakeScenario → Bool
is_cancel_race fake_cancel_race = true
is_cancel_race _ = false

-- The record after a poll of a job that is not terminal.
unfoldable pub polled : FakeScenario → FakeRecord → FakeRecord
polled scenario r =
    let count = r.poll_count + 1 in
    let updated = record r.job { updated_at = now + count * second } in
    if is_cancel_race scenario || leb 2 count
    then record {
      job = record updated { status = succeeded; output = some fake_output };
      poll_count = count;
    }
    else record { job = record updated { status = running }; poll_count = count }

unfoldable pub cancelled_record : FakeRecord → FakeRecord
cancelled_record r = record r {
  job = record r.job { status = cancelled; updated_at = now + second };
}
