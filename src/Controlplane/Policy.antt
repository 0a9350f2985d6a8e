-- ===== src/Controlplane/Policy.antt =====
-- internal/videopipeline/controlplane/policy.go: who may do what, and the validation of references.
-- `to_upper` is strings.ToUpper and `parses` tells whether uuid.Parse takes a text: both are Go
-- libraries. An error is a constructor, with the name that its message starts with.
pub mod Roles
pub mod References
mod Examples
use ai_video_series_workflow.Common.{
  Bool, true, false, not, ◌&&◌, ◌||◌, Option, none, some, List, [], ◌∷◌, ◌++◌, if◌then◌else◌, Text,
  text_eq, codes, is_empty, is_sha256, trim_space, has_no, any, Result, ok, err,
}

pub data Action : Type 0 where
  create_series create_revision compile_content create_plan start_production : Action
  create_run pause_run cancel_run resume_run : Action
  approve_g1 approve_g2 approve_q1 approve_g3 approve_safety lock_publication : Action
  other : Text → Action

pub data PolicyError : Type 0 where
  actor_required no_policy : PolicyError
  role_denied : Text → Action → PolicyError
  unknown_gate : PolicyError
  not_uuid not_sha256 no_items has_duplicates : Text → PolicyError
  wrong_uri route_incomplete not_video not_speech : PolicyError

pub record Actor : Type 0 where
  pub actor_id : Text
  pub role : Text

-- `allowedRoles`; an action that is not a key of the map has none.
unfoldable pub allowed_roles : Action → Option (List Text)
allowed_roles create_series = some (codes "CREATOR" ∷ codes "PRODUCER" ∷ codes "ADMIN" ∷ [])
allowed_roles create_revision =
    some (codes "CREATOR" ∷ codes "ARTIST" ∷ codes "PRODUCER" ∷ codes "ADMIN" ∷ [])
allowed_roles compile_content =
    some (codes "CREATOR" ∷ codes "PRODUCER" ∷ codes "OPERATOR" ∷ codes "ADMIN" ∷ [])
allowed_roles create_plan = some (codes "PRODUCER" ∷ codes "OPERATOR" ∷ codes "ADMIN" ∷ [])
allowed_roles start_production = some (codes "PRODUCER" ∷ codes "OPERATOR" ∷ codes "ADMIN" ∷ [])
allowed_roles create_run =
    some (codes "ARTIST" ∷ codes "PRODUCER" ∷ codes "OPERATOR" ∷ codes "ADMIN" ∷ [])
allowed_roles pause_run = some (codes "PRODUCER" ∷ codes "OPERATOR" ∷ codes "ADMIN" ∷ [])
allowed_roles cancel_run = some (codes "PRODUCER" ∷ codes "OPERATOR" ∷ codes "ADMIN" ∷ [])
allowed_roles resume_run = some (codes "PRODUCER" ∷ codes "OPERATOR" ∷ codes "ADMIN" ∷ [])
allowed_roles approve_g1 = some (codes "DIRECTOR" ∷ codes "PRODUCER" ∷ [])
allowed_roles approve_g2 = some (codes "DIRECTOR" ∷ codes "PRODUCER" ∷ [])
allowed_roles approve_q1 = some (codes "REVIEWER" ∷ codes "DIRECTOR" ∷ [])
allowed_roles approve_g3 = some (codes "DIRECTOR" ∷ codes "PRODUCER" ∷ [])
allowed_roles approve_safety = some (codes "SAFETY_REVIEWER" ∷ codes "ADMIN" ∷ [])
allowed_roles lock_publication = some (codes "DIRECTOR" ∷ codes "PRODUCER" ∷ [])
allowed_roles (other a) = none

-- The end of `authorize`, with the entry of the table.
unfoldable pub authorize_role : Action → Text → Option (List Text) → Option PolicyError
authorize_role action role none = some no_policy
authorize_role action role (some roles) =
    if any (text_eq role) roles then none else some (role_denied role action)

module _ (to_upper : Text → Text) where
  -- The role that `authorize` compares.
  abbrev pub role_of : Actor → Text
  role_of actor = to_upper (trim_space actor.role)

  -- `authorize`.
  unfoldable pub authorize : Action → Actor → Option PolicyError
  authorize action actor =
      if is_empty (trim_space actor.actor_id) || is_empty (role_of actor)
      then some actor_required
      else authorize_role action (role_of actor) (allowed_roles action)

  -- `approvalAction`.
  unfoldable pub approval_action : Text → Result PolicyError Action
  approval_action gate =
      let name = to_upper (trim_space gate) in
      if text_eq name (codes "G1")
      then ok approve_g1
      else if text_eq name (codes "G2")
      then ok approve_g2
      else if text_eq name (codes "Q1")
      then ok approve_q1
      else if text_eq name (codes "G3")
      then ok approve_g3
      else if text_eq name (codes "SAFETY")
      then ok approve_safety
      else err unknown_gate

-- `validateSHA256`.
unfoldable pub validate_sha256 : Text → Text → Option PolicyError
validate_sha256 name value = if is_sha256 value then none else some (not_sha256 name)

abbrev pub or_then : Option PolicyError → Option PolicyError → Option PolicyError
or_then none k = k
or_then (some e) k = some e

-- `validateArtifact`.
unfoldable pub validate_artifact : Text → Text → Option PolicyError
validate_artifact hash uri =
    or_then (validate_sha256 (codes "artifactHash") hash)
      (if text_eq uri (codes "cas://sha256/" ++ hash) then none else some wrong_uri)

pub record ModelRouteSnapshot : Type 0 where
  pub capability_alias : Text
  pub provider_profile_id : Text
  pub provider : Text
  pub model_id : Text
  pub endpoint_id : Text
  pub route_version : Text
  pub capability_hash : Text

module _ (parses : Text → Bool) where
  -- `validateUUID`.
  unfoldable pub validate_uuid : Text → Text → Option PolicyError
  validate_uuid name value = if parses value then none else some (not_uuid name)

  -- `validateRoute`.
  unfoldable pub validate_route : ModelRouteSnapshot → Option PolicyError
  validate_route r = or_then (validate_uuid (codes "providerProfileId") r.provider_profile_id) (
      if is_empty r.capability_alias
        || is_empty r.provider
        || is_empty r.model_id
        || is_empty r.route_version
      then some route_incomplete
      else validate_sha256 (codes "routeSnapshot.capabilityHash") r.capability_hash)

  -- `validateVideoRoute`.
  unfoldable pub validate_video_route : ModelRouteSnapshot → Option PolicyError
  validate_video_route r =
      or_then (validate_route r)
        (if text_eq r.capability_alias (codes "video.primary") then none else some not_video)

  -- `validateSpeechRoute`.
  unfoldable pub validate_speech_route : ModelRouteSnapshot → Option PolicyError
  validate_speech_route r =
      or_then (validate_route r)
        (if text_eq r.capability_alias (codes "speech.primary") then none else some not_speech)

  -- The loop of `uniqueUUIDs`, with the values seen.
  unfoldable pub unique_from : Text → List Text → List Text → Option PolicyError
  unique_from name seen [] = none
  unique_from name seen (v ∷ vs) = or_then (validate_uuid name v) (
      or_then (if any (text_eq v) seen then some (has_duplicates name) else none)
        (unique_from name (v ∷ seen) vs))

  -- `uniqueUUIDs`.
  unfoldable pub unique_uuids : Text → List Text → Option PolicyError
  unique_uuids name values =
      if has_no values then some (no_items name) else unique_from name [] values
