-- ===== src/Production/Revision.antt =====
-- internal/videopipeline/production/revision.go: the append-only store of revisions. `Create`,
-- `Get`, `Latest` and `History` hold the mutex while they use the store, so each is one function on the
-- state; a copy of an immutable value is the value. `CreateNext` and `Rollback` take the mutex for each
-- of their calls of these methods, and are modelled without a call of another in between. What another
-- call may do in between leaves them with a call of `Create` on an input that is no longer up to date,
-- which is a call of `Create` of its own. The state is in RevisionState.
pub mod Cases
pub mod Chain
pub mod Keys
pub mod Immutable
mod Examples
use ai_video_series_workflow.Common.{
  ℕ, suc, ◌+◌, Bool, true, false, not, ◌&&◌, ◌||◌, Option, none, some, List, [], ◌∷◌, ◌++◌, length,
  get_last?, ◌==◌, if◌then◌else◌, Text, text_eq, codes, is_empty, is_blank, lookup, insert, any,
  all, sort_texts, compact, Result, ok, err, take, map,
}
use ai_video_series_workflow.Production.RevisionState.{
  Codec, ProductionError, Revision, RevisionStore, chain_of, conflict, decoding, derived_id,
  encoding, is_nil, last_or_empty, latest_id, new_revision_store, non_empty, not_found, or_nil,
  or_zero, revision_chain_key, sorted_unique, texts_eq, validation, zero_revision,
}

module _ (c : Codec) where
  open c use {Value, marshal, unmarshal, marshal_content, marshal_identity, sha256_hex}

  pub record CreateRevisionInput : Type 0 where
    pub kind : Text
    pub aggregate_id : Text
    pub parent_id : Text
    pub rollback_of : Text
    pub schema_version : Text
    pub payload : Option Value
    pub evidence_ids : List Text
    pub created_by : Text
    pub created_at : ℕ

  -- Whether the rollback target is a revision of the same aggregate.
  abbrev pub same_aggregate : CreateRevisionInput → Option Revision → Bool
  same_aggregate input none = false
  same_aggregate input (some target) =
      text_eq target.kind input.kind && text_eq target.aggregate_id input.aggregate_id

  -- The checks on the chain, before anything is hashed.
  unfoldable pub chain_conflict : RevisionStore → List Text → CreateRevisionInput → Bool
  chain_conflict s chain input =
      not (text_eq input.parent_id (latest_id chain))
      || (not (is_empty input.rollback_of)
          && not (same_aggregate input (lookup input.rollback_of s.by_id)))

  unfoldable pub content_hash : CreateRevisionInput → Text → Text
  content_hash input payload = sha256_hex (marshal_content input.schema_version payload)

  unfoldable pub revision_id : CreateRevisionInput → Text → List Text → Text
  revision_id input hash evidence_ids = derived_id (codes "rev") (
      sha256_hex (
        marshal_identity input.kind input.aggregate_id input.parent_id input.rollback_of
          input.schema_version hash evidence_ids))

  -- Whether the latest revision already has this content and evidence.
  unfoldable pub unchanged : CreateRevisionInput → List Text → Revision → Text → List Text → Bool
  unchanged input chain latest hash evidence_ids =
      not (is_nil chain)
      && is_empty input.rollback_of
      && text_eq latest.content_hash hash
      && texts_eq latest.evidence_ids evidence_ids

  unfoldable pub new_revision :
      CreateRevisionInput → List Text → Text → Text → List Text → Text → Revision
  new_revision input chain id hash evidence_ids payload = record {
    id = id;
    kind = input.kind;
    aggregate_id = input.aggregate_id;
    number = length chain + 1;
    parent_id = input.parent_id;
    rollback_of = input.rollback_of;
    schema_version = input.schema_version;
    content_hash = hash;
    payload = payload;
    evidence_ids = evidence_ids;
    created_by = input.created_by;
    created_at = input.created_at;
  }

  abbrev pub Outcome : Type 0
  Outcome = RevisionStore × Result ProductionError Revision

  -- An existing revision of the derived ID is returned; otherwise the new one is appended.
  abbrev pub append_unless : RevisionStore → Text → Revision → Option Revision → Outcome
  append_unless s key revision (some existing) = (s, ok existing)
  append_unless s key revision none = (
    record {
      by_id = insert revision.id revision s.by_id;
      chains = insert key (chain_of s key ++ revision.id ∷ []) s.chains;
    },
    ok revision,
  )

  -- `Create` after the checks, on the encoded payload.
  unfoldable pub settle : RevisionStore → CreateRevisionInput → Text → Outcome
  settle s input payload =
      let key = revision_chain_key input.kind input.aggregate_id in
      let chain = chain_of s key in
      let hash = content_hash input payload in
      let evidence_ids = sorted_unique input.evidence_ids in
      let id = revision_id input hash evidence_ids in
      let latest = or_zero (lookup (latest_id chain) s.by_id) in
      if unchanged input chain latest hash evidence_ids
      then (s, ok latest)
      else append_unless s key (new_revision input chain id hash evidence_ids payload)
          (lookup id s.by_id)

  abbrev pub create_encoded : RevisionStore → CreateRevisionInput → Option Text → Outcome
  create_encoded s input none = (s, err encoding)
  create_encoded s input (some payload) =
      let chain = chain_of s (revision_chain_key input.kind input.aggregate_id) in
      if chain_conflict s chain input then (s, err conflict) else settle s input payload

  abbrev pub create_value : RevisionStore → CreateRevisionInput → Option Value → Outcome
  create_value s input none = (s, err validation)
  create_value s input (some value) =
      if input.created_at == 0 then (s, err validation) else create_encoded s input (marshal value)

  -- `Create`.
  unfoldable pub create : RevisionStore → CreateRevisionInput → Outcome
  create s input =
      if non_empty (input.kind ∷ input.aggregate_id ∷ input.schema_version ∷ input.created_by ∷ [])
      then create_value s input input.payload
      else (s, err validation)

-- `Get`.
unfoldable pub get : RevisionStore → Text → Option Revision
get s id = lookup id s.by_id

-- `Latest`.
abbrev pub revision_of : RevisionStore → Option Text → Option Revision
revision_of s none = none
revision_of s (some id) = some (or_zero (lookup id s.by_id))

unfoldable pub latest : RevisionStore → Text → Text → Option Revision
latest s kind aggregate_id =
    revision_of s (get_last? (chain_of s (revision_chain_key kind aggregate_id)))

-- `History`.
unfoldable pub history : RevisionStore → Text → Text → List Revision
history s kind aggregate_id =
    map (λ id. or_zero (lookup id s.by_id)) (chain_of s (revision_chain_key kind aggregate_id))

abbrev pub id_or_empty : Option Revision → Text
id_or_empty none = []
id_or_empty (some r) = r.id

module _ (c : Codec) where
  open c use {Value, unmarshal}

  -- The input that `CreateNext` builds.
  unfoldable pub next_input :
      RevisionStore → Text → Text → Option Value → List Text → Text → ℕ → CreateRevisionInput c
  next_input s kind aggregate_id payload evidence_ids actor at = record {
    kind = kind;
    aggregate_id = aggregate_id;
    parent_id = id_or_empty (latest s kind aggregate_id);
    rollback_of = [];
    schema_version = codes "v1";
    payload = payload;
    evidence_ids = evidence_ids;
    created_by = actor;
    created_at = at;
  }

  -- `CreateNext`.
  unfoldable pub create_next :
      RevisionStore → Text → Text → Option Value → List Text → Text → ℕ → Outcome c
  create_next s kind aggregate_id payload evidence_ids actor at =
      create c s (next_input s kind aggregate_id payload evidence_ids actor at)

  unfoldable pub rollback_input :
      Text → Text → Revision → Revision → Option Value → Text → ℕ → CreateRevisionInput c
  rollback_input kind aggregate_id target newest payload actor at = record {
    kind = kind;
    aggregate_id = aggregate_id;
    parent_id = newest.id;
    rollback_of = target.id;
    schema_version = target.schema_version;
    payload = payload;
    evidence_ids = target.evidence_ids;
    created_by = actor;
    created_at = at;
  }

  abbrev pub rollback_decoded :
      RevisionStore
      → Text
      → Text
      → Revision
      → Revision
      → Option (Option Value)
      → Text
      → ℕ
      → Outcome c
  rollback_decoded s kind aggregate_id target newest none actor at = (s, err decoding)
  rollback_decoded s kind aggregate_id target newest (some payload) actor at =
      create c s (rollback_input kind aggregate_id target newest payload actor at)

  abbrev pub rollback_from :
      RevisionStore → Text → Text → Revision → Option Revision → Text → ℕ → Outcome c
  rollback_from s kind aggregate_id target none actor at = (s, err not_found)
  rollback_from s kind aggregate_id target (some newest) actor at =
      rollback_decoded s kind aggregate_id target newest (unmarshal target.payload) actor at

  abbrev pub rollback_to : RevisionStore → Text → Text → Option Revision → Text → ℕ → Outcome c
  rollback_to s kind aggregate_id none actor at = (s, err not_found)
  rollback_to s kind aggregate_id (some target) actor at =
      if text_eq target.kind kind && text_eq target.aggregate_id aggregate_id
      then rollback_from s kind aggregate_id target (latest s kind aggregate_id) actor at
      else (s, err not_found)

  -- `Rollback`.
  unfoldable pub rollback : RevisionStore → Text → Text → Text → Text → ℕ → Outcome c
  rollback s kind aggregate_id target_id actor at =
      rollback_to s kind aggregate_id (get s target_id) actor at
