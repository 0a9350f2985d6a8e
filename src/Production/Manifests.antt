-- ===== src/Production/Manifests.antt =====
-- internal/videopipeline/production/generation.go: the store of manifests. Its mutex makes a call one
-- step, and a deep copy of a value is the value. SHA-256 and JSON are the Go library's: `hash` stands for
-- `contentHash` of a manifest.
use ai_video_series_workflow.Common.{
  not, Option, none, some, List, [], if◌then◌else◌, Text, text_eq, lookup, insert, Result, ok, err,
}
use ai_video_series_workflow.Provider.Manifest.{
  GenerationManifest, ManifestError, validate_manifest,
}

pub record ManifestRecord : Type 0 where
  pub manifest : GenerationManifest
  pub hash : Text

pub record ManifestStore : Type 0 where
  pub by_id : List (Text × ManifestRecord)

abbrev pub new_manifest_store : ManifestStore
new_manifest_store = record { by_id = [] }

pub data StoreError : Type 0 where
  refused : ManifestError → StoreError
  not_encoded mutated : StoreError

abbrev pub Stored : Type 0
Stored = ManifestStore × Result StoreError ManifestRecord

-- The part of `Put` under the mutex, with what the ID is bound to.
abbrev pub put_record : ManifestStore → ManifestRecord → Option ManifestRecord → Stored
put_record s r (some existing) =
    if not (text_eq existing.hash r.hash) then (s, err mutated) else (s, ok existing)
put_record s r none = (record { by_id = insert r.manifest.manifest_id r s.by_id }, ok r)

abbrev pub put_hashed : ManifestStore → GenerationManifest → Option Text → Stored
put_hashed s m none = (s, err not_encoded)
put_hashed s m (some digest) =
    put_record s (record { manifest = m; hash = digest }) (lookup m.manifest_id s.by_id)

abbrev pub put_checked :
    (GenerationManifest → Option Text)
    → ManifestStore
    → GenerationManifest
    → Option ManifestError
    → Stored
put_checked hash s m (some e) = (s, err (refused e))
put_checked hash s m none = put_hashed s m (hash m)

-- `ManifestStore.Put`.
unfoldable pub put_manifest :
    (GenerationManifest → Option Text) → ManifestStore → GenerationManifest → Stored
put_manifest hash s m = put_checked hash s m (validate_manifest m)

-- `ManifestStore.Get`, `none` for false.
unfoldable pub get_manifest : ManifestStore → Text → Option ManifestRecord
get_manifest s id = lookup id s.by_id
