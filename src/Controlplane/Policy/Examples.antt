-- ===== src/Controlplane/Policy/Examples.antt =====
-- The theorems on the policy at one producer, one artifact and one route.
use ai_video_series_workflow.Common.{
  ◌≡◌, ◌≢◌, ◌↔◌, refl, Bool, true, none, [], ◌∷◌, ◌++◌, All, Text, text_eq, codes, is_sha256,
  byte_len, ◌==◌, trim_space,
}
use ai_video_series_workflow.Provider.Contract.{modality_video, modality_audio}
use ai_video_series_workflow.Provider.Dispatch.{capability_modality}
use ai_video_series_workflow.Controlplane.Policy.{
  Actor, create_plan, approve_g2, authorize, authorize_role, allowed_roles, role_of,
  validate_artifact, unique_uuids, ModelRouteSnapshot, validate_video_route, validate_speech_route,
  validate_route, validate_uuid, validate_sha256,
}
use ai_video_series_workflow.Controlplane.Policy.Roles.{
  is_production, is_creative_gate, authorize-separates,
}
use ai_video_series_workflow.Controlplane.Policy.References.{
  IsDistinct, validate_artifact_iff, unique_uuids_iff, validate_video_route-modality,
  validate_speech_route-modality,
}

abbrev same_case : Text → Text
same_case s = s

abbrev has_uuid_length : Text → Bool
has_uuid_length s = byte_len s == 36

abbrev producer : Actor
producer = record { actor_id = codes "a1"; role = codes " PRODUCER" }

plans : authorize same_case create_plan producer ≡ none
unfolding authorize authorize_role allowed_roles trim_space text_eq
plans = refl

approves : authorize same_case approve_g2 producer ≡ none
unfolding authorize authorize_role allowed_roles trim_space text_eq
approves = refl

plan_made : is_production create_plan ≡ true
unfolding is_production
plan_made = refl

gate_approved : is_creative_gate approve_g2 ≡ true
unfolding is_creative_gate
gate_approved = refl

authorize-separates_example : role_of same_case producer ≡ codes "PRODUCER"
authorize-separates_example =
    authorize-separates same_case producer create_plan approve_g2 plan_made gate_approved plans
      approves

abbrev hash : Text
hash = codes "352b94f7134554825a7c426e579d12943a48c30db1666120353f5f24aa9c59b3"

validate_artifact_iff_example :
    (validate_artifact hash (codes "cas://sha256/other") ≡ none)
    ↔ ((is_sha256 hash ≡ true) × (codes "cas://sha256/other" ≡ codes "cas://sha256/" ++ hash))
validate_artifact_iff_example = validate_artifact_iff hash (codes "cas://sha256/other")

abbrev id : Text
id = codes "0b5e3f0a-6a55-4e55-9c36-0d1c3c0f6d11"

unique_uuids_iff_example :
    (unique_uuids has_uuid_length (codes "shotIds") (id ∷ id ∷ []) ≡ none) ↔ (
      ((id ∷ id ∷ []) ≢ [])
      × All (λ v. has_uuid_length v ≡ true) (id ∷ id ∷ [])
      × IsDistinct (id ∷ id ∷ []))
unique_uuids_iff_example = unique_uuids_iff has_uuid_length (codes "shotIds") (id ∷ id ∷ [])

abbrev video_route : ModelRouteSnapshot
video_route = record {
  capability_alias = codes "video.primary";
  provider_profile_id = id;
  provider = codes "volcengine";
  model_id = codes "seedance";
  endpoint_id = [];
  route_version = codes "1";
  capability_hash = hash;
}

abbrev speech_route : ModelRouteSnapshot
speech_route = record video_route { capability_alias = codes "speech.primary" }

video_route_valid : validate_video_route has_uuid_length video_route ≡ none
unfolding validate_video_route validate_route validate_uuid validate_sha256 is_sha256 byte_len
    text_eq
video_route_valid = refl

speech_route_valid : validate_speech_route has_uuid_length speech_route ≡ none
unfolding validate_speech_route validate_route validate_uuid validate_sha256 is_sha256 byte_len
    text_eq
speech_route_valid = refl

validate_video_route-modality_example :
    (capability_modality (codes "video.primary") ≡ modality_video)
    × (has_uuid_length id ≡ true)
    × (is_sha256 hash ≡ true)
validate_video_route-modality_example =
    validate_video_route-modality has_uuid_length video_route video_route_valid

validate_speech_route-modality_example :
    (capability_modality (codes "speech.primary") ≡ modality_audio)
    × (has_uuid_length id ≡ true)
    × (is_sha256 hash ≡ true)
validate_speech_route-modality_example =
    validate_speech_route-modality has_uuid_length speech_route speech_route_valid
