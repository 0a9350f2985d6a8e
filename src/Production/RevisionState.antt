-- ===== src/Production/RevisionState.antt =====
-- internal/videopipeline/production/revision.go and canonical.go: the state of the append-only store
-- of revisions, and the texts that its methods derive. JSON and SHA-256 are the Go library's, and
-- enter as the record `Codec`. An instant is a number that is 0 for the zero time.
use ai_video_series_workflow.Common.{
  ℕ, Bool, true, false, not, ◌&&◌, Option, none, some, List, [], ◌∷◌, ◌++◌, get_last?, Text,
  text_eq, codes, is_blank, lookup, all, sort_texts, compact, take,
}

-- encoding/json and crypto/sha256: `marshal` fails on what JSON cannot carry; the two structs
-- that are hashed hold strings and JSON, and always encode; `unmarshal` reads `null` as nil.
pub record Codec : Type 1 where
  pub Value : Type 0
  pub marshal : Value → Option Text
  pub unmarshal : Text → Option (Option Value)
  pub marshal_content : Text → Text → Text
  pub marshal_identity : Text → Text → Text → Text → Text → Text → List Text → Text
  pub sha256_hex : Text → Text

pub data ProductionError : Type 0 where
  validation conflict not_found encoding decoding : ProductionError

pub record Revision : Type 0 where
  pub id : Text
  pub kind : Text
  pub aggregate_id : Text
  pub number : ℕ
  pub parent_id : Text
  pub rollback_of : Text
  pub schema_version : Text
  pub content_hash : Text
  pub payload : Text
  pub evidence_ids : List Text
  pub created_by : Text
  pub created_at : ℕ

pub record RevisionStore : Type 0 where
  pub by_id : List (Text × Revision)
  pub chains : List (Text × List Text)

abbrev pub new_revision_store : RevisionStore
new_revision_store = record { by_id = []; chains = [] }

unfoldable pub non_empty : List Text → Bool
non_empty values = all (λ value. not (is_blank value)) values

-- kind + "\x00" + aggregateID.
unfoldable pub revision_chain_key : Text → Text → Text
revision_chain_key kind aggregate_id = kind ++ (0 ∷ aggregate_id)

unfoldable pub sorted_unique : List Text → List Text
sorted_unique values = compact (sort_texts values)

unfoldable pub texts_eq : List Text → List Text → Bool
texts_eq [] [] = true
texts_eq (s ∷ ss) (t ∷ ts) = text_eq s t && texts_eq ss ts
texts_eq _ _ = false

-- prefix + "-" + digest[:24].
unfoldable pub derived_id : Text → Text → Text
derived_id start digest = start ++ (codes "-" ++ take 24 digest)

-- A nil slice where the map has no chain.
abbrev pub or_nil : Option (List Text) → List Text
or_nil none = []
or_nil (some ids) = ids

unfoldable pub chain_of : RevisionStore → Text → List Text
chain_of s key = or_nil (lookup key s.chains)

-- A revision of the map, the zero value for a missing key.
abbrev pub zero_revision : Revision
zero_revision = record {
  id = [];
  kind = [];
  aggregate_id = [];
  number = 0;
  parent_id = [];
  rollback_of = [];
  schema_version = [];
  content_hash = [];
  payload = [];
  evidence_ids = [];
  created_by = [];
  created_at = 0;
}

abbrev pub or_zero : Option Revision → Revision
or_zero none = zero_revision
or_zero (some r) = r

abbrev pub is_nil : List Text → Bool
is_nil [] = true
is_nil (id ∷ ids) = false

abbrev pub last_or_empty : Option Text → Text
last_or_empty none = []
last_or_empty (some id) = id

-- The ID of the latest revision of a chain, "" if there is none.
unfoldable pub latest_id : List Text → Text
latest_id chain = last_or_empty (get_last? chain)
