-- ===== src/Production/Refs.antt =====
-- internal/videopipeline/production: the exact references to revisions (revision.go), the approvals and
-- the authorization that generation is bound to, and the committer of artifacts (generation.go). The
-- kinds of revisions are those of content.go. An instant is a number that is 0 for the zero time.
pub mod Binding
use ai_video_series_workflow.Common.{
  ℕ, Bool, true, false, not, ◌&&◌, ◌||◌, Option, none, some, List, [], ◌∷◌, ◌++◌, ltb, leb, ◌==◌,
  if◌then◌else◌, Text, text_eq, codes, is_empty, is_sha256, ℤ, pos, ltb_ℤ, Result, ok, err,
}
use ai_video_series_workflow.Provider.Contract.{AssetRef}
use ai_video_series_workflow.Production.RevisionState.{Revision, non_empty}

abbrev pub kind_source : Text
kind_source = codes "source"

abbrev pub kind_shot_spec : Text
kind_shot_spec = codes "shot_spec"

abbrev pub kind_context : Text
kind_context = codes "context"

abbrev pub kind_prompt : Text
kind_prompt = codes "prompt"

pub record RevisionRef : Type 0 where
  pub id : Text
  pub kind : Text
  pub aggregate_id : Text
  pub number : ℤ
  pub content_hash : Text

-- `Revision.Ref`.
unfoldable pub ref_of : Revision → RevisionRef
ref_of r = record {
  id = r.id;
  kind = r.kind;
  aggregate_id = r.aggregate_id;
  number = pos r.number;
  content_hash = r.content_hash;
}

-- `RevisionRef.Validate`: whether there is no error.
unfoldable pub is_complete_ref : RevisionRef → Bool
is_complete_ref r =
    non_empty (r.id ∷ r.kind ∷ r.aggregate_id ∷ r.content_hash ∷ [])
    && not (ltb_ℤ r.number (pos 1))
    && is_sha256 r.content_hash

pub data Gate : Type 0 where
  gate1 gate2 gate3 : Gate
  other : Text → Gate

unfoldable pub gate_eq : Gate → Gate → Bool
gate_eq gate1 gate1 = true
gate_eq gate2 gate2 = true
gate_eq gate3 gate3 = true
gate_eq (other s) (other t) = text_eq s t
gate_eq _ _ = false

pub record GateApproval : Type 0 where
  pub gate : Gate
  pub decision_id : Text
  pub approved : Bool
  pub binding_id : Text
  pub binding_hash : Text
  pub actor_id : Text
  pub decided_at : ℕ

-- `GateApproval.Validate`: whether there is no error.
unfoldable pub is_approved : GateApproval → Gate → Text → Text → Bool
is_approved g expected binding_id binding_hash = not (
    not (gate_eq g.gate expected)
    || not g.approved
    || not (non_empty (g.decision_id ∷ g.binding_id ∷ g.binding_hash ∷ g.actor_id ∷ []))
    || not (text_eq g.binding_id binding_id)
    || not (text_eq g.binding_hash binding_hash)
    || not (is_sha256 g.binding_hash)
    || g.decided_at == 0)

pub record AuthorizationEvidence : Type 0 where
  pub source_revision_id : Text
  pub source_hash : Text
  pub license_reference : Text
  pub authorized : Bool
  pub adaptation_allowed : Bool
  pub expires_at : ℕ

pub data AuthorizationError : Type 0 where
  not_bound expired : AuthorizationError

-- `AuthorizationEvidence.Validate`.
unfoldable pub validate_authorization :
    AuthorizationEvidence → RevisionRef → ℕ → Option AuthorizationError
validate_authorization a source at =
    if not a.authorized
      || not a.adaptation_allowed
      || not (text_eq a.source_revision_id source.id)
      || not (text_eq a.source_hash source.content_hash)
      || not (is_sha256 a.source_hash)
      || is_empty a.license_reference
    then some not_bound
    else if not (a.expires_at == 0) && leb a.expires_at at
    then some expired
    else none

-- "cas://sha256/" and the digest.
abbrev pub cas_uri : Text → Text
cas_uri digest = codes "cas://sha256/" ++ digest

-- `RequireCASCommitter.Commit`; `none` is its policy error.
unfoldable pub commit_cas : AssetRef → Option AssetRef
commit_cas a =
    if not (is_sha256 a.sha256)
      || not (text_eq a.uri (cas_uri a.sha256))
      || not (non_empty (a.id ∷ a.revision ∷ a.license_reference ∷ a.media_type ∷ []))
    then none
    else some a
