-- ===== src/Production/Revision/Cases.antt =====
-- The four ways in which `Create` ends, as one rule.
use ai_video_series_workflow.Common.{
  ◌≡◌, refl, false, Option, none, some, Text, lookup, ok, err, Bool-cases, inl, inr, [], ◌∷◌, ◌==◌,
}
use ai_video_series_workflow.Production.Revision.{
  new_revision, CreateRevisionInput, Outcome, create, create_value, create_encoded, settle,
  append_unless, chain_conflict, content_hash, revision_id, unchanged,
}
use ai_video_series_workflow.Production.RevisionState.{
  Codec, Revision, RevisionStore, ProductionError, chain_of, revision_chain_key, latest_id,
  non_empty, validation, conflict, encoding, sorted_unique, or_zero,
}

module _ (c : Codec) where
  open c use {marshal}

  abbrev pub key_of : CreateRevisionInput c → Text
  key_of input = revision_chain_key input.kind input.aggregate_id

  -- The revision that `Create` appends to the store for an encoded payload.
  unfoldable pub fresh_revision : RevisionStore → CreateRevisionInput c → Text → Revision
  fresh_revision s input payload =
      let hash = content_hash c input payload in
      let evidence_ids = sorted_unique input.evidence_ids in
      new_revision c input (chain_of s (key_of input)) (revision_id c input hash evidence_ids) hash
        evidence_ids payload

  pub create_cases {ℓ} :
      (P : Outcome c → Type ℓ) (s : RevisionStore) (input : CreateRevisionInput c)
      → ((e : ProductionError) → P (s, err e))
      → ((payload : Text)
          → chain_conflict c s (chain_of s (key_of input)) input ≡ false
          → P (settle c s input payload))
      → P (create c s input)
  unfolding create
  create_cases P s input failed settled =
      elim (Bool-cases (
        non_empty
          (input.kind ∷ input.aggregate_id ∷ input.schema_version ∷ input.created_by ∷ []))) [
            | inr e ↦ rw (e, create) (failed validation)
            | inl e ↦ rw (e, create) (with_value input.payload)
          ]
    where
      encoded : (o : Option Text) → P (create_encoded c s input o)
      encoded none = failed encoding
      encoded (some payload) =
          elim (Bool-cases (chain_conflict c s (chain_of s (key_of input)) input)) [
            | inl e ↦ rw e (failed conflict)
            | inr e ↦ rw e (settled payload e)
          ]

      with_value : (o : Option c.Value) → P (create_value c s input o)
      with_value none = failed validation
      with_value (some value) = elim (Bool-cases (input.created_at == 0)) [
        | inl e ↦ rw e (failed validation)
        | inr e ↦ rw e (encoded (marshal value))
      ]

  pub settle_cases {ℓ} :
      (P : Outcome c → Type ℓ) (s : RevisionStore) (input : CreateRevisionInput c) (payload : Text)
      → ((r : Revision) → P (s, ok r))
      → (lookup (fresh_revision s input payload).id s.by_id ≡ none
          → P (append_unless c s (key_of input) (fresh_revision s input payload) none))
      → P (settle c s input payload)
  unfolding settle fresh_revision new_revision
  settle_cases P s input payload kept appended =
      elim (Bool-cases (
        unchanged c input (chain_of s (key_of input))
          (or_zero (lookup (latest_id (chain_of s (key_of input))) s.by_id))
          (content_hash c input payload) (sorted_unique input.evidence_ids))) [
            | inl e ↦
                rw (e, settle)
                  (kept (or_zero (lookup (latest_id (chain_of s (key_of input))) s.by_id)))
            | inr e ↦
                rw (e, settle) (fresh (lookup (fresh_revision s input payload).id s.by_id) refl)
          ]
    where
      fresh :
          (o : Option Revision)
          → lookup (fresh_revision s input payload).id s.by_id ≡ o
          → P (append_unless c s (key_of input) (fresh_revision s input payload) o)
      fresh none e = appended e
      fresh (some r) e = kept r
