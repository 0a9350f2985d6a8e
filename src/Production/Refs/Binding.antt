-- ===== src/Production/Refs/Binding.antt =====
-- What an approval, an authorization and a committed artifact are bound to.
use ai_video_series_workflow.Common.{
  ℕ, true, ◌≡◌, refl, sym, ap, ◌∙◌, none, some, ◌<◌, ◌⊎◌, Text, text_eq-eq, is_sha256, arith,
}
use ai_video_series_workflow.Provider.Contract.{AssetRef}
use ai_video_series_workflow.Production.Refs.{
  RevisionRef, Gate, gate1, gate2, gate3, other, gate_eq, GateApproval, is_approved,
  AuthorizationEvidence, validate_authorization, commit_cas, cas_uri,
}

gate_eq-eq : (g h : Gate) → gate_eq g h ≡ true → g ≡ h
unfolding gate_eq
gate_eq-eq gate1 gate1 e = refl
gate_eq-eq gate2 gate2 e = refl
gate_eq-eq gate3 gate3 e = refl
gate_eq-eq (other s) (other t) e = let same : s ≡ t = text_eq-eq s t e in cc
gate_eq-eq gate1 gate2 e = cc
gate_eq-eq gate1 gate3 e = cc
gate_eq-eq gate1 (other t) e = cc
gate_eq-eq gate2 gate1 e = cc
gate_eq-eq gate2 gate3 e = cc
gate_eq-eq gate2 (other t) e = cc
gate_eq-eq gate3 gate1 e = cc
gate_eq-eq gate3 gate2 e = cc
gate_eq-eq gate3 (other t) e = cc
gate_eq-eq (other s) gate1 e = cc
gate_eq-eq (other s) gate2 e = cc
gate_eq-eq (other s) gate3 e = cc

-- The approval `g` is a decision for the gate on exactly this binding.
pub record IsBoundApproval (g : GateApproval) (gate : Gate) (binding_id binding_hash : Text)
    : Type 0 where
  pub same_gate : g.gate ≡ gate
  pub given : g.approved ≡ true
  pub same_id : g.binding_id ≡ binding_id
  pub same_hash : g.binding_hash ≡ binding_hash
  pub digest : is_sha256 binding_hash ≡ true
  pub dated : 0 < g.decided_at

pub approved-IsBoundApproval :
    (g : GateApproval) (gate : Gate) (binding_id binding_hash : Text)
    → is_approved g gate binding_id binding_hash ≡ true
    → IsBoundApproval g gate binding_id binding_hash
unfolding is_approved
approved-IsBoundApproval g gate binding_id binding_hash h =
    let gate_test : gate_eq g.gate gate ≡ true = ground (arith, h) in
    let same : g.binding_hash ≡ binding_hash =
      text_eq-eq g.binding_hash binding_hash (ground (arith, h)) in
    record {
      same_gate = gate_eq-eq g.gate gate gate_test;
      given = ground (arith, h);
      same_id = text_eq-eq g.binding_id binding_id (ground (arith, h));
      same_hash = same;
      digest = ap is_sha256 (sym same) ∙ ground (arith, h);
      dated = ground (arith, h);
    }

-- The authorization `a` covers the source revision at the instant.
pub record IsCurrent (a : AuthorizationEvidence) (source : RevisionRef) (at : ℕ) : Type 0 where
  pub granted : a.authorized ≡ true
  pub adaptable : a.adaptation_allowed ≡ true
  pub same_id : a.source_revision_id ≡ source.id
  pub same_hash : a.source_hash ≡ source.content_hash
  pub unexpired : (a.expires_at ≡ 0) ⊎ (at < a.expires_at)

pub authorized-IsCurrent :
    (a : AuthorizationEvidence) (source : RevisionRef) (at : ℕ)
    → validate_authorization a source at ≡ none
    → IsCurrent a source at
unfolding validate_authorization
authorized-IsCurrent a source at h = record {
  granted = ground (arith, h);
  adaptable = ground (arith, h);
  same_id = text_eq-eq a.source_revision_id source.id (ground (arith, h));
  same_hash = text_eq-eq a.source_hash source.content_hash (ground (arith, h));
  unexpired = ground (arith, h);
}

-- A committed artifact is the one the adapter returned, under its digest's address.
pub commit_cas-address :
    (a b : AssetRef)
    → commit_cas a ≡ some b
    → (b ≡ a) × (a.uri ≡ cas_uri a.sha256) × (is_sha256 a.sha256 ≡ true)
unfolding commit_cas
commit_cas-address a b h =
    (ground (arith, h), text_eq-eq a.uri (cas_uri a.sha256) (ground (arith, h)), ground (arith, h))
