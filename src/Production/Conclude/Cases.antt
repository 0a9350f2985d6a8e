-- ===== src/Production/Conclude/Cases.antt =====
-- The two ways a generation ends: with a failure, or with a job that passed the checks, whose assets are
-- committed and whose manifest is stored.
use ai_video_series_workflow.Common.{
  ◌≡◌, refl, ℕ, Option, none, some, inl, inr, arith, Bool-cases, is_empty, Result, ok, err,
  pos_part,
}
use ai_video_series_workflow.Provider.Contract.{Job}
use ai_video_series_workflow.Provider.Manifest.{
  GenerationManifest, new_generation_manifest, ManifestError,
}
use ai_video_series_workflow.Production.Prompt.{PromptCodec}
use ai_video_series_workflow.Production.Manifests.{
  ManifestStore, ManifestRecord, put_manifest, Stored,
}
use ai_video_series_workflow.Production.Run.{Failure, later, manifest_refused, manifest_not_stored}
use ai_video_series_workflow.Production.Preflight.{Environment, GenerationInput}
use ai_video_series_workflow.Production.Loops.{Record, Stage, poll_loop, max_polls_of}
use ai_video_series_workflow.Production.Loops.Grown.{
  IsGrown, IsGrown-refl, IsGrown-trans, StageIsGrown, submit_loop-IsGrown, poll_loop-IsGrown,
}
use ai_video_series_workflow.Production.Conclude.{
  Ended, concluded, fail, final_record, build_input, result_failure, commit_job, on_stored,
  on_manifest, on_committed, on_result, on_polled, on_submitted, generate,
}

module _ (c : PromptCodec) (e : Environment c) (m : ManifestStore) (i : GenerationInput c) where
  -- What `job`, of the record `r` at the instant `at`, went through.
  pub record IsConcluded (r : Record) (job : Job) (at : ℕ) (m' : ManifestStore)
      (mr : ManifestRecord) : Type 0 where
    pub result : Job
    pub judged : result_failure c e i result ≡ none
    pub before : e.World
    pub committed : (commit_job c e before result).1 ≡ ok job
    pub clock : ℕ
    pub dated : at ≡ later clock r.body.started_at
    pub manifest : GenerationManifest
    pub built : new_generation_manifest (build_input c e i r job at) ≡ ok manifest
    pub stored : put_manifest e.hash_manifest m manifest ≡ (m', ok mr)

  module _ {ℓ} (a b : ℕ) (r : Record) (P : Ended c e → Type ℓ)
      (fails : (m' : ManifestStore) (w : e.World) (s : Record) (f : Failure)
        → IsGrown a b r s
        → P (fail c e m' w s f))
      (ends : (m' : ManifestStore) (w : e.World) (s : Record) (job : Job) (at : ℕ)
          (mr : ManifestRecord)
        → IsGrown a b r s
        → IsConcluded s job at m' mr
        → P (w, m', final_record s job at mr, concluded job)) where
    module _ (s : Record) (g : IsGrown a b r s) (result : Job)
        (judged : result_failure c e i result ≡ none) (before : e.World) where
      on_manifest_cases :
          (w : e.World) (clock : ℕ) (job : Job) (built : Result ManifestError GenerationManifest)
          → (commit_job c e before result).1 ≡ ok job
          → let at = later clock s.body.started_at in
            new_generation_manifest (build_input c e i s job at) ≡ built
            → P (on_manifest c e m w s job at built)
      on_manifest_cases w clock job (err x) committed h = fails m w s (manifest_refused x) g
      on_manifest_cases w clock job (ok manifest) committed h =
          stored_cases (put_manifest e.hash_manifest m manifest) λ m' mr put. record {
            result = result;
            judged = judged;
            before = before;
            committed = committed;
            clock = clock;
            dated = refl;
            manifest = manifest;
            built = h;
            stored = put;
          }
        where
          stored_cases :
              (st : Stored)
              → ((m' : ManifestStore) (mr : ManifestRecord)
                  → st ≡ (m', ok mr)
                  → IsConcluded s job (later clock s.body.started_at) m' mr)
              → P (on_stored c e w s job (later clock s.body.started_at) st)
          stored_cases (m', err x) k = fails m' w s (manifest_not_stored x) g
          stored_cases (m', ok mr) k =
              ends m' w s job (later clock s.body.started_at) mr g (k m' mr refl)

      on_committed_cases :
          (committing : e.World × Result Failure Job)
          → (commit_job c e before result).1 ≡ committing.1
          → P (on_committed c e m i s committing)
      on_committed_cases (w, err f) h = fails m w s f g
      on_committed_cases (w, ok job) h =
          let (w', clock) = e.now w in on_manifest_cases w' clock job _ h refl

    on_result_cases :
        (w : e.World) (s : Record) (job : Job) (o : Option Failure)
        → IsGrown a b r s
        → result_failure c e i job ≡ o
        → P (on_result c e m i w s job o)
    on_result_cases w s job (some f) g h = fails m w s f g
    on_result_cases w s job none g h = on_committed_cases s g job h w (commit_job c e w job) refl

    on_polled_cases :
        (stage : Stage c e) → StageIsGrown c e a b r stage → P (on_polled c e m i stage)
    on_polled_cases (w, s, err f) g = fails m w s f g
    on_polled_cases (w, s, ok job) g = on_result_cases w s job (result_failure c e i job) g refl

  on_submitted_cases {ℓ} :
      (n : ℕ) (r : Record) (P : Ended c e → Type ℓ)
      (fails : (m' : ManifestStore) (w : e.World) (s : Record) (f : Failure)
        → IsGrown n (max_polls_of i.max_polls) r s
        → P (fail c e m' w s f))
      (ends : (m' : ManifestStore) (w : e.World) (s : Record) (job : Job) (at : ℕ)
          (mr : ManifestRecord)
        → IsGrown n (max_polls_of i.max_polls) r s
        → IsConcluded s job at m' mr
        → P (w, m', final_record s job at mr, concluded job))
      (stage : Stage c e)
      → StageIsGrown c e n 0 r stage
      → P (on_submitted c e m i stage)
  on_submitted_cases n r P fails ends (w, s, err f) g =
      fails m w s f (IsGrown-trans r s s g (IsGrown-refl 0 0 s) (omega arith) (omega arith))
  on_submitted_cases n r P fails ends (w, s, ok job) g = elim (Bool-cases (is_empty job.id)) [
    | inl b ↦
        rw b
          (fails m w s _ (IsGrown-trans r s s g (IsGrown-refl 0 0 s) (omega arith) (omega arith)))
    | inr b ↦ rw b (
        on_polled_cases n (max_polls_of i.max_polls) r P fails ends
          (poll_loop c e (max_polls_of i.max_polls) w s job)
          (weaken (poll_loop c e (max_polls_of i.max_polls) w s job)
            (poll_loop-IsGrown c e (max_polls_of i.max_polls) w s job)))
  ]
    where
      weaken :
          (stage : Stage c e)
          → StageIsGrown c e 0 (max_polls_of i.max_polls) s stage
          → StageIsGrown c e n (max_polls_of i.max_polls) r stage
      weaken (w', s', answer) h = IsGrown-trans r s s' g h (omega arith) (omega arith)

  pub generate_cases {ℓ} :
      (w : e.World) (r : Record) (P : Ended c e → Type ℓ)
      → ((m' : ManifestStore) (w : e.World) (s : Record) (f : Failure)
          → IsGrown (pos_part i.budget.max_attempts) (max_polls_of i.max_polls) r s
          → P (fail c e m' w s f))
      → ((m' : ManifestStore) (w : e.World) (s : Record) (job : Job) (at : ℕ) (mr : ManifestRecord)
          → IsGrown (pos_part i.budget.max_attempts) (max_polls_of i.max_polls) r s
          → IsConcluded s job at m' mr
          → P (w, m', final_record s job at mr, concluded job))
      → P (generate c e m w i r)
  unfolding generate
  generate_cases w r P fails ends =
      on_submitted_cases (pos_part i.budget.max_attempts) r P fails ends _
        (submit_loop-IsGrown c e (pos_part i.budget.max_attempts) r.body.request w r)
