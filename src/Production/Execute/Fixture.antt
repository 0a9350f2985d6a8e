-- ===== src/Production/Execute/Fixture.antt =====
-- An environment over the fake provider, with a committer that stores an asset under its digest, and an
-- input that passes the checks. Digests are one constant text.
use ai_video_series_workflow.Common.{
  ℕ, ◌+◌, true, false, none, some, [], ◌∷◌, Text, codes, pos, Result, ok, err,
}
use ai_video_series_workflow.Provider.Contract.{Job, Capability, OutputSpec, modality_video}
use ai_video_series_workflow.Provider.Dispatch.{capability_video}
use ai_video_series_workflow.Provider.Manifest.{evidence_mock_only}
use ai_video_series_workflow.Provider.FakeState.{
  FakeProvider, FakeError, new_fake_provider, fake_success, reply,
}
use ai_video_series_workflow.Provider.Fake.{submit, poll, cancel}
use ai_video_series_workflow.Production.Refs.{
  RevisionRef, gate1, gate2, kind_source, kind_shot_spec, cas_uri,
}
use ai_video_series_workflow.Production.Prompt.{
  PromptCodec, PromptSnapshot, prompt_schema_version, prompt_compiler_version,
}
use ai_video_series_workflow.Production.Run.{Failure, provider_failure, foreign, zero_capability}
use ai_video_series_workflow.Production.Preflight.{Environment, GenerationInput}

abbrev pub digest : Text
digest = codes "352b94f7134554825a7c426e579d12943a48c30db1666120353f5f24aa9c59b3"

abbrev pub codec : PromptCodec
codec = record {
  Payload = Text;
  hash_normalized = λ m. digest;
  hash_content = λ m. some digest;
  hash_snapshot = λ p. some digest;
  hash_output = λ o. digest;
  clone = λ p. p;
}

pub record World : Type 0 where
  pub provider : FakeProvider
  pub clock : ℕ
  pub submissions : ℕ

abbrev pub shot_output : OutputSpec
shot_output = record {
  width = pos 1280;
  height = pos 720;
  resolution = codes "720p";
  aspect_ratio = codes "16:9";
  fps = pos 24;
  duration_millis = pos 5000;
  format = codes "mp4";
  generate_audio = false;
}

abbrev pub prompt : PromptSnapshot Text
prompt = record {
  id = codes "prompt-352b94f7134554825a7c426e";
  revision_number = pos 1;
  schema_version = prompt_schema_version;
  compiler_version = prompt_compiler_version;
  template_ref = codes "template-1";
  generation_profile_ref = codes "profile-1";
  shot_revision = record {
    id = codes "shot-rev-1";
    kind = kind_shot_spec;
    aggregate_id = codes "shot-1";
    number = pos 1;
    content_hash = digest;
  };
  effective_context = record {
    id = codes "context-1";
    content_hash = digest;
    revision_refs = record {
      series_snapshot_id = codes "series-1";
      episode_snapshot_id = codes "episode-1";
      scene_snapshot_id = codes "scene-1";
      shot_snapshot_id = codes "shot-1";
    };
    revision_hashes = [];
    values = [];
    origins = [];
    assets = [];
  };
  assets = [];
  asset_aliases = [];
  previous_prompt_snapshot_id = [];
  previous_prompt_hash = [];
  tail_frame_hash = [];
  positive_prompt = codes "a street at night";
  negative_prompt = [];
  subtitle_timeline = [];
  output = shot_output;
  model_payload = [];
  input_revision_hashes = (codes "shot_spec", digest) ∷ [];
  normalized_input_hash = digest;
  content_hash = digest;
  evidence_ids = [];
  created_at = 7;
}

abbrev pub fake_capability : Capability
fake_capability = record zero_capability {
  provider = codes "fake";
  model_family = codes "fake-video-v1";
  output_modality = modality_video;
}

-- The answer of the fake provider as one of the environment.
abbrev pub answer_of : ℕ → ℕ → FakeProvider × Result FakeError Job → World × Result Failure Job
answer_of clock submissions (f, ok job) =
    (record { provider = f; clock = clock; submissions = submissions }, ok job)
answer_of clock submissions (f, err (reply x)) =
    (record { provider = f; clock = clock; submissions = submissions }, err (provider_failure x))
answer_of clock submissions (f, err x) = (
  record { provider = f; clock = clock; submissions = submissions },
  err (foreign (codes "fake")),
)

abbrev pub environment : Environment codec
environment = record {
  World = World;
  discover = λ w. (w, ok (fake_capability ∷ []));
  submit = λ w r. answer_of w.clock (w.submissions + 1) (submit none w.provider r);
  poll = λ w id. answer_of w.clock w.submissions (poll none w.provider id);
  cancel = λ w id. (answer_of w.clock w.submissions (cancel none w.provider id)).0;
  commit = λ w a. (w, ok (record a { uri = cas_uri a.sha256; media_type = codes "video/mp4" }));
  get_prompt = λ w id. some prompt;
  now = λ w. (record w { clock = w.clock + 1 }, w.clock + 1);
  wait = λ w n. (record w { clock = w.clock + n }, none);
  binding_digest = λ m. digest;
  hash_run = λ m. some digest;
  hash_manifest = λ m. some digest;
  hash_string = λ s. digest;
}

abbrev pub source : RevisionRef
source = record {
  id = codes "source-rev-1";
  kind = kind_source;
  aggregate_id = codes "source-1";
  number = pos 1;
  content_hash = digest;
}

abbrev pub input : GenerationInput codec
input = record {
  run_id = codes "run-1";
  idempotency_key = codes "run-1";
  source_revision = source;
  shot_revision = prompt.shot_revision;
  prompt = prompt;
  authorization = record {
    source_revision_id = source.id;
    source_hash = digest;
    license_reference = codes "license-1";
    authorized = true;
    adaptation_allowed = true;
    expires_at = 0;
  };
  approval1 = record {
    gate = gate1;
    decision_id = codes "decision-1";
    approved = true;
    binding_id = source.id;
    binding_hash = digest;
    actor_id = codes "editor";
    decided_at = 5;
  };
  approval2 = record {
    gate = gate2;
    decision_id = codes "decision-2";
    approved = true;
    binding_id = codes "shot-rev-1";
    binding_hash = digest;
    actor_id = codes "editor";
    decided_at = 6;
  };
  route = record {
    capability_alias = capability_video;
    provider = codes "fake";
    model_id = codes "fake-video-v1";
    endpoint_id = [];
    route_version = codes "1";
    capability_hash = digest;
    verification = codes "mock_only";
  };
  budget = record {
    estimated_cost_micros = pos 5000000;
    max_cost_micros = pos 9000000;
    max_attempts = pos 2;
    billing_mode = [];
    reserved_afp_milli = pos 0;
  };
  budget_policy = record {
    soft_limit_micros = pos 0;
    hard_limit_micros = pos 50000000;
    max_attempts = pos 3;
  };
  budget_reservation = record {
    reservation_id = codes "r1";
    currency = codes "CNY";
    amount_micros = pos 8000000;
    pricing_version = codes "2026-01";
    confirmed_by = codes "producer";
    binding_hash = digest;
  };
  spent_micros = pos 0;
  reserved_micros = pos 0;
  callback_url = [];
  evidence = evidence_mock_only;
  max_polls = pos 0;
}

abbrev pub start : World
start = record { provider = new_fake_provider fake_success; clock = 100; submissions = 0 }
