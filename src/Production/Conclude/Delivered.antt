-- ===== src/Production/Conclude/Delivered.antt =====
-- What the checks, the commits and the store of manifests establish of the job that a run ends with.
use ai_video_series_workflow.Production.RevisionState.{non_empty}
use ai_video_series_workflow.Common.{
  ◌≡◌, refl, sym, ap, ◌∙◌, true, false, not, Option, none, some, List, [], ◌∷◌, has_no, inl, inr,
  Text, text_eq, text_eq-eq, arith, pos, ◌≤ℤ◌, All, Bool-cases, lookup, lookup-insert_self,
  if◌then◌else◌, Result, ok, err,
}
use ai_video_series_workflow.Provider.Contract.{
  AssetRef, Output, Job, is_terminal, succeeded, status_eq,
}
use ai_video_series_workflow.Provider.Dispatch.{BudgetReservation}
use ai_video_series_workflow.Provider.Manifest.{
  GenerationManifest, validate_manifest, ManifestError,
}
use ai_video_series_workflow.Production.Prompt.{PromptCodec}
use ai_video_series_workflow.Production.Manifests.{
  ManifestStore, ManifestRecord, put_manifest, get_manifest, put_checked, put_hashed, put_record,
  mutated, Stored,
}
use ai_video_series_workflow.Production.Run.{Failure, no_output_assets}
use ai_video_series_workflow.Production.Preflight.{Environment, GenerationInput}
use ai_video_series_workflow.Production.Conclude.{
  cost_failure, result_failure, commit_all, commit_rest, prepend, commit_output, commit_job,
  with_assets,
}

-- A cost that is not refused lies between zero and the reservation.
pub cost_failure-within :
    (b : BudgetReservation) (o : Output)
    → cost_failure b (some o) ≡ none
    → (pos 0 ≤ℤ o.usage.provider_cost_micros) × (o.usage.provider_cost_micros ≤ℤ b.amount_micros)
unfolding cost_failure
cost_failure-within b o h = (ground (arith, h), ground (arith, h))

-- A manifest that is stored has the digest of its record, which the store answers for its ID.
pub put_manifest-stored :
    (hash : GenerationManifest → Option Text) (m m' : ManifestStore) (manifest : GenerationManifest)
    (mr : ManifestRecord)
    → put_manifest hash m manifest ≡ (m', ok mr)
    → (hash manifest ≡ some mr.hash) × (get_manifest m' manifest.manifest_id ≡ some mr)
unfolding put_manifest get_manifest
put_manifest-stored hash m m' manifest mr h = valid (validate_manifest manifest) h
  where
    bound :
        (digest : Text) (o : Option ManifestRecord)
        → lookup manifest.manifest_id m.by_id ≡ o
        → put_record m (record { manifest = manifest; hash = digest }) o ≡ (m', ok mr)
        → (some digest ≡ some mr.hash) × (lookup manifest.manifest_id m'.by_id ≡ some mr)
    bound digest none k h =
        let new : ManifestRecord = record { manifest = manifest; hash = digest } in
        let same : new ≡ mr = cc in
        (
          ap (λ x. some x.hash) same,
          ap (λ x. lookup manifest.manifest_id x.0.by_id) (sym h)
              ∙ lookup-insert_self manifest.manifest_id new m.by_id
              ∙ ap (λ x. some x) same,
        )
    bound digest (some existing) k h = elim (Bool-cases (text_eq existing.hash digest)) [
      | inl b ↦
          let kept = sym (ap (λ t. if not t then (m, err mutated) else (m, ok existing)) b) ∙ h in
          let same : existing ≡ mr = cc in
          (
            ap (λ x. some x) (sym (text_eq-eq existing.hash digest b)) ∙ ap (λ x. some x.hash) same,
            ap (λ x. lookup manifest.manifest_id x.0.by_id) (sym kept) ∙ k ∙ ap (λ x. some x) same,
          )
      | inr b ↦
          absurd
            (clash (sym (ap (λ t. if not t then (m, err mutated) else (m, ok existing)) b) ∙ h))
    ]
      where
        clash : ◌≡◌ {A = Stored} (m, err mutated) (m', ok mr) → ⊥
        clash h = cc

    hashed :
        (o : Option Text)
        → put_hashed m manifest o ≡ (m', ok mr)
        → (o ≡ some mr.hash) × (lookup manifest.manifest_id m'.by_id ≡ some mr)
    hashed none h = cc
    hashed (some digest) h = bound digest (lookup manifest.manifest_id m.by_id) refl h

    valid :
        (o : Option ManifestError)
        → put_checked hash m manifest o ≡ (m', ok mr)
        → (hash manifest ≡ some mr.hash) × (lookup manifest.manifest_id m'.by_id ≡ some mr)
    valid none h = hashed (hash manifest) h
    valid (some x) h = cc

module _ (c : PromptCodec) (e : Environment c) where
  -- The asset is what the committer answered for another.
  pub IsCommitted : AssetRef → Type 0
  IsCommitted a = (w : e.World) × (b : AssetRef) × ((e.commit w b).1 ≡ ok a)

  commit_rest-IsCommitted :
      (rest : e.World → e.World × Result Failure (List AssetRef)) (w : e.World) (a : AssetRef)
      (stored : List AssetRef)
      → ((w' : e.World) (others : List AssetRef) → (rest w').1 ≡ ok others → All IsCommitted others)
      → (commit_rest c e rest (e.commit w a)).1 ≡ ok stored
      → All IsCommitted stored
  unfolding IsCommitted
  commit_rest-IsCommitted rest w a stored more h = first (e.commit w a) refl h
    where
      second :
          (b : AssetRef) (w' : e.World) (o : e.World × Result Failure (List AssetRef))
          → (e.commit w a).1 ≡ ok b
          → ((others : List AssetRef) → o.1 ≡ ok others → All IsCommitted others)
          → (prepend c e b o).1 ≡ ok stored
          → All IsCommitted stored
      second b w' (w'', ok others) k more h =
          let same : stored ≡ b ∷ others = cc in rw same ((w, a, k), more others refl)
      second b w' (w'', err f) k more h = cc

      first :
          (o : e.World × Result Failure AssetRef)
          → e.commit w a ≡ o
          → (commit_rest c e rest o).1 ≡ ok stored
          → All IsCommitted stored
      first (w', ok b) k h = second b w' (rest w') (ap (λ x. x.1) k) (more w') h
      first (w', err f) k h = cc

  commit_all-IsCommitted :
      (assets : List AssetRef) (w : e.World) (stored : List AssetRef)
      → (commit_all c e assets w).1 ≡ ok stored
      → All IsCommitted stored
  unfolding commit_all
  commit_all-IsCommitted [] w stored h = let same : stored ≡ [] = cc in rw same tt
  commit_all-IsCommitted (a ∷ assets) w stored h =
      commit_rest-IsCommitted (commit_all c e assets) w a stored (commit_all-IsCommitted assets) h

  pub result_failure-matched :
      (i : GenerationInput c) (job : Job)
      → result_failure c e i job ≡ none
      → (is_terminal job.status ≡ true)
        × (job.provider ≡ i.route.provider)
        × (job.provider_model ≡ i.route.model_id)
        × (non_empty (job.provider_region ∷ job.provider_request_id ∷ []) ≡ true)
        × (cost_failure i.budget_reservation job.output ≡ none)
  unfolding result_failure
  result_failure-matched i job h = (
    ground (arith, h),
    text_eq-eq job.provider i.route.provider (ground (arith, h)),
    text_eq-eq job.provider_model i.route.model_id (ground (arith, h)),
    ground (arith, h),
    ground (arith, h),
  )

  -- `job` is `result` with assets that were committed in place of its own, which are not none.
  pub record IsDelivered (result job : Job) : Type 0 where
    pub output : Output
    pub answered : result.output ≡ some output
    pub not_bare : has_no output.assets ≡ false
    pub assets : List AssetRef
    pub committed : All IsCommitted assets
    pub same : job ≡ record result { output = some (record output { assets = assets }) }

  pub commit_job-IsDelivered :
      (w : e.World) (result job : Job)
      → (commit_job c e w result).1 ≡ ok job
      → status_eq job.status succeeded ≡ true
      → IsDelivered result job
  unfolding commit_job
  commit_job-IsDelivered w result job h success =
      elim (Bool-cases (status_eq result.status succeeded)) [
        | inl b ↦ with_output result.output refl (
            sym (
              ap (λ t. (if t then commit_output c e w result result.output else (w, ok result)).1)
                b)
            ∙ h)
        | inr b ↦
            let kept =
              sym (
                ap (λ t. (if t then commit_output c e w result result.output else (w, ok result)).1)
                  b)
              ∙ h in
            let same : result ≡ job = cc in
            absurd (clash (sym b ∙ ap (λ x. status_eq x.status succeeded) same ∙ success))
      ]
    where
      clash : false ≡ true → ⊥
      clash k = cc

      bare : ◌≡◌ {A = Result Failure Job} (err no_output_assets) (ok job) → ⊥
      bare k = cc

      assembled :
          (o : Output) (x : e.World × Result Failure (List AssetRef))
          → result.output ≡ some o
          → has_no o.assets ≡ false
          → ((assets : List AssetRef) → x.1 ≡ ok assets → All IsCommitted assets)
          → (with_assets c e result o x).1 ≡ ok job
          → IsDelivered result job
      assembled o (w', err f) k some_asset all h = cc
      assembled o (w', ok assets) k some_asset all h = record {
        output = o;
        answered = k;
        not_bare = some_asset;
        assets = assets;
        committed = all assets refl;
        same = cc;
      }

      with_output :
          (o : Option Output)
          → result.output ≡ o
          → (commit_output c e w result o).1 ≡ ok job
          → IsDelivered result job
      with_output none k h = cc
      with_output (some o) k h = elim (Bool-cases (has_no o.assets)) [
        | inl b ↦ absurd (bare (rw b at h))
        | inr b ↦
            assembled o (commit_all c e o.assets w) k b (commit_all-IsCommitted o.assets w)
              (rw b at h)
      ]
