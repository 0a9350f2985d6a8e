-- ===== src/Production/Execute/Bounded.antt =====
-- How often an execution submits, in any measure of the world that only a submission raises.
use ai_video_series_workflow.Common.{
  ℕ, zero, suc, ◌+◌, ◌≤◌, not, ◌&&◌, ◌||◌, Option, none, some, List, [], ◌∷◌, has_no, Text, arith,
  Bool-cases, inl, inr, pos_part, ◌==◌, is_empty, Result, ok, err,
}
use ai_video_series_workflow.Provider.Contract.{
  GenerationRequest, Capability, AssetRef, Output, Job, is_terminal, succeeded, status_eq,
}
use ai_video_series_workflow.Provider.Manifest.{GenerationManifest, ManifestError}
use ai_video_series_workflow.Production.Prompt.{PromptCodec}
use ai_video_series_workflow.Production.Ledger.{Begun, is_running}
use ai_video_series_workflow.Production.Manifests.{ManifestStore, Stored, put_manifest}
use ai_video_series_workflow.Production.Run.{
  Failure, RunBody, is_retryable, as_provider, retry_delay,
}
use ai_video_series_workflow.Production.Preflight.{
  Environment, GenerationInput, preflight, discover_for, request_for,
}
use ai_video_series_workflow.Production.Loops.{
  Record, Stage, submit_loop, poll_loop, max_polls_of, on_submit, on_poll, retried, waited,
  after_round,
}
use ai_video_series_workflow.Production.Conclude.{
  fail, generate, commit_all, commit_rest, prepend, commit_job, commit_output, with_assets,
  on_stored, on_manifest, on_committed, on_result, on_polled, on_submitted,
}
use ai_video_series_workflow.Production.Execute.{
  Runner, execute, settle, on_begun, on_hashed, on_prepared, after_executions,
}

module _ (c : PromptCodec) (e : Environment c) (paid : e.World → ℕ) where
  -- The measure is raised by a submission, by at most one, and by nothing else.
  pub record IsMeter : Type 0 where
    pub submit_once : (w : e.World) (r : GenerationRequest) → paid (e.submit w r).0 ≤ paid w + 1
    pub discover_free : (w : e.World) → paid (e.discover w).0 ≤ paid w
    pub poll_free : (w : e.World) (id : Text) → paid (e.poll w id).0 ≤ paid w
    pub cancel_free : (w : e.World) (id : Text) → paid (e.cancel w id) ≤ paid w
    pub commit_free : (w : e.World) (a : AssetRef) → paid (e.commit w a).0 ≤ paid w
    pub now_free : (w : e.World) → paid (e.now w).0 ≤ paid w
    pub wait_free : (w : e.World) (n : ℕ) → paid (e.wait w n).0 ≤ paid w

  module _ (meter : IsMeter) where
    retried-paid :
        (n k : ℕ) (again : e.World → Record → Stage c e)
        → ((w : e.World) (r : Record) → paid (again w r).0 ≤ paid w + n)
        → (r : Record) (waiting : e.World × Option Failure) → paid waiting.0 ≤ k
        → paid (retried c e again r waiting).0 ≤ k + n
    retried-paid n k again more r (w, none) h = omega (arith, more w r, h)
    retried-paid n k again more r (w, some f) h = omega (arith, h)

    on_submit-paid :
        (n k : ℕ) (again : e.World → Record → Stage c e)
        → ((w : e.World) (r : Record) → paid (again w r).0 ≤ paid w + n)
        → (started finished : ℕ) (w : e.World) (r : Record) (answer : Result Failure Job)
        → paid w ≤ k
        → paid (on_submit c e n again started finished w r answer).0 ≤ k + n
    on_submit-paid n k again more started finished w r (ok job) h = omega (arith, h)
    on_submit-paid n k again more started finished w r (err f) h =
        elim (Bool-cases (not (is_retryable f) || n == 0)) [
          | inl b ↦ rw b (omega (arith, h))
          | inr b ↦ rw b (
              retried-paid n k again more _ (e.wait w (retry_delay (as_provider f)))
                (omega (arith, meter.wait_free w (retry_delay (as_provider f)), h)))
        ]

    submit_loop-paid :
        (n : ℕ) (request : GenerationRequest) (w : e.World) (r : Record)
        → paid (submit_loop c e n request w r).0 ≤ paid w + n
    unfolding submit_loop
    submit_loop-paid zero request w r = omega arith
    submit_loop-paid (suc n) request w r =
        let w1 = (e.now w).0 in
        let w2 = (e.submit w1 request).0 in
        let w3 = (e.now w2).0 in
        let first : paid w3 ≤ paid w + 1 =
          omega (arith, meter.now_free w, meter.submit_once w1 request, meter.now_free w2) in
        shifted (
          on_submit-paid n (paid w + 1) (submit_loop c e n request) (submit_loop-paid n request) _ _
            w3 r _ first)
      where
        shifted : {x : ℕ} → x ≤ paid w + 1 + n → x ≤ paid w + suc n
        shifted h = omega (arith, h)

    waited-paid :
        (k : ℕ) (again : e.World → Record → Job → Stage c e)
        → ((w : e.World) (r : Record) (job : Job) → paid (again w r job).0 ≤ paid w)
        → (job : Job) (r : Record) (waiting : e.World × Option Failure) → paid waiting.0 ≤ k
        → paid (waited c e again job r waiting).0 ≤ k
    waited-paid k again more job r (w, none) h = omega (arith, more w r job, h)
    waited-paid k again more job r (w, some f) h = omega (arith, meter.cancel_free w job.id, h)

    after_round-paid :
        (k : ℕ) (again : e.World → Record → Job → Stage c e)
        → ((w : e.World) (r : Record) (job : Job) → paid (again w r job).0 ≤ paid w)
        → (job : Job) (w : e.World) (r : Record) → paid w ≤ k
        → paid (after_round c e again job w r).0 ≤ k
    after_round-paid k again more job w r h = elim (Bool-cases (is_terminal job.status)) [
      | inl b ↦ rw b (omega (arith, more w r job, h))
      | inr b ↦ rw b (
          waited-paid k again more job r (e.wait w 100000000)
            (omega (arith, meter.wait_free w 100000000, h)))
    ]

    on_poll-paid :
        (k : ℕ) (again : e.World → Record → Job → Stage c e)
        → ((w : e.World) (r : Record) (job : Job) → paid (again w r job).0 ≤ paid w)
        → (started finished : ℕ) (job : Job) (w : e.World) (r : Record)
          (answer : Result Failure Job)
        → paid w ≤ k
        → paid (on_poll c e again started finished job w r answer).0 ≤ k
    on_poll-paid k again more started finished job w r (ok polled) h =
        after_round-paid k again more polled w _ h
    on_poll-paid k again more started finished job w r (err f) h =
        elim (Bool-cases (is_retryable f)) [
          | inl b ↦ rw b (after_round-paid k again more job w _ h)
          | inr b ↦ rw b h
        ]

    poll_loop-paid :
        (n : ℕ) (w : e.World) (r : Record) (job : Job) → paid (poll_loop c e n w r job).0 ≤ paid w
    unfolding poll_loop
    poll_loop-paid zero w r job = omega arith
    poll_loop-paid (suc n) w r job = elim (Bool-cases (is_terminal job.status)) [
      | inl b ↦ rw b (omega arith)
      | inr b ↦
          let w1 = (e.now w).0 in
          let w2 = (e.poll w1 job.id).0 in
          let first : paid (e.now w2).0 ≤ paid w =
            omega (arith, meter.now_free w, meter.poll_free w1 job.id, meter.now_free w2) in
          rw b (
            on_poll-paid (paid w) (poll_loop c e n) (poll_loop-paid n) _ _ job (e.now w2).0 r _
              first)
    ]

    fail-paid :
        (k : ℕ) (m : ManifestStore) (w : e.World) (r : Record) (f : Failure)
        → paid w ≤ k
        → paid (fail c e m w r f).0 ≤ k
    unfolding fail
    fail-paid k m w r f h = omega (arith, meter.now_free w, h)

    prepend-paid :
        (k : ℕ) (a : AssetRef) (x : e.World × Result Failure (List AssetRef))
        → paid x.0 ≤ k
        → paid (prepend c e a x).0 ≤ k
    prepend-paid k a (w, ok assets) h = h
    prepend-paid k a (w, err f) h = h

    commit_rest-paid :
        (k : ℕ) (rest : e.World → e.World × Result Failure (List AssetRef))
        → ((w : e.World) → paid (rest w).0 ≤ paid w)
        → (x : e.World × Result Failure AssetRef) → paid x.0 ≤ k
        → paid (commit_rest c e rest x).0 ≤ k
    commit_rest-paid k rest more (w, err f) h = h
    commit_rest-paid k rest more (w, ok a) h = prepend-paid k a (rest w) (omega (arith, more w, h))

    commit_all-paid :
        (assets : List AssetRef) (w : e.World) → paid (commit_all c e assets w).0 ≤ paid w
    unfolding commit_all
    commit_all-paid [] w = omega arith
    commit_all-paid (a ∷ assets) w =
        commit_rest-paid (paid w) (commit_all c e assets) (commit_all-paid assets) (e.commit w a)
          (meter.commit_free w a)

    with_assets-paid :
        (k : ℕ) (job : Job) (o : Output) (x : e.World × Result Failure (List AssetRef))
        → paid x.0 ≤ k
        → paid (with_assets c e job o x).0 ≤ k
    with_assets-paid k job o (w, ok assets) h = h
    with_assets-paid k job o (w, err f) h = h

    commit_output-paid :
        (w : e.World) (job : Job) (o : Option Output) → paid (commit_output c e w job o).0 ≤ paid w
    commit_output-paid w job none = omega arith
    commit_output-paid w job (some o) = elim (Bool-cases (has_no o.assets)) [
      | inl b ↦ rw b (omega arith)
      | inr b ↦
          rw b (
            with_assets-paid (paid w) job o (commit_all c e o.assets w)
              (commit_all-paid o.assets w))
    ]

    commit_job-paid : (w : e.World) (job : Job) → paid (commit_job c e w job).0 ≤ paid w
    unfolding commit_job
    commit_job-paid w job = elim (Bool-cases (status_eq job.status succeeded)) [
      | inl b ↦ rw b (commit_output-paid w job job.output)
      | inr b ↦ rw b (omega arith)
    ]

    on_stored-paid :
        (k : ℕ) (w : e.World) (r : Record) (job : Job) (at : ℕ) (st : Stored)
        → paid w ≤ k
        → paid (on_stored c e w r job at st).0 ≤ k
    on_stored-paid k w r job at (m, err x) h = fail-paid k m w r _ h
    on_stored-paid k w r job at (m, ok mr) h = h

    on_manifest-paid :
        (k : ℕ) (m : ManifestStore) (w : e.World) (r : Record) (job : Job) (at : ℕ)
        (x : Result ManifestError GenerationManifest)
        → paid w ≤ k
        → paid (on_manifest c e m w r job at x).0 ≤ k
    on_manifest-paid k m w r job at (err x) h = fail-paid k m w r _ h
    on_manifest-paid k m w r job at (ok manifest) h =
        on_stored-paid k w r job at (put_manifest e.hash_manifest m manifest) h

    on_committed-paid :
        (k : ℕ) (m : ManifestStore) (i : GenerationInput c) (r : Record)
        (x : e.World × Result Failure Job)
        → paid x.0 ≤ k
        → paid (on_committed c e m i r x).0 ≤ k
    on_committed-paid k m i r (w, err f) h = fail-paid k m w r f h
    on_committed-paid k m i r (w, ok job) h =
        on_manifest-paid k m (e.now w).0 r job _ _ (omega (arith, meter.now_free w, h))

    on_result-paid :
        (k : ℕ) (m : ManifestStore) (i : GenerationInput c) (w : e.World) (r : Record) (job : Job)
        (o : Option Failure)
        → paid w ≤ k
        → paid (on_result c e m i w r job o).0 ≤ k
    on_result-paid k m i w r job (some f) h = fail-paid k m w r f h
    on_result-paid k m i w r job none h =
        on_committed-paid k m i r (commit_job c e w job) (omega (arith, commit_job-paid w job, h))

    on_polled-paid :
        (k : ℕ) (m : ManifestStore) (i : GenerationInput c) (stage : Stage c e)
        → paid stage.0 ≤ k
        → paid (on_polled c e m i stage).0 ≤ k
    on_polled-paid k m i (w, r, err f) h = fail-paid k m w r f h
    on_polled-paid k m i (w, r, ok job) h = on_result-paid k m i w r job _ h

    on_submitted-paid :
        (k : ℕ) (m : ManifestStore) (i : GenerationInput c) (stage : Stage c e)
        → paid stage.0 ≤ k
        → paid (on_submitted c e m i stage).0 ≤ k
    on_submitted-paid k m i (w, r, err f) h = fail-paid k m w r f h
    on_submitted-paid k m i (w, r, ok job) h = elim (Bool-cases (is_empty job.id)) [
      | inl b ↦ rw b (fail-paid k m w r _ h)
      | inr b ↦
          let n = max_polls_of i.max_polls in
          rw b (
            on_polled-paid k m i (poll_loop c e n w r job)
              (omega (arith, poll_loop-paid n w r job, h)))
    ]

    generate-paid :
        (m : ManifestStore) (w : e.World) (i : GenerationInput c) (r : Record)
        → paid (generate c e m w i r).0 ≤ paid w + pos_part i.budget.max_attempts
    unfolding generate
    generate-paid m w i r =
        on_submitted-paid _ m i _
          (submit_loop-paid (pos_part i.budget.max_attempts) r.body.request w r)

    on_begun-paid :
        (k : ℕ) (m : ManifestStore) (w : e.World) (i : GenerationInput c) (r : Record)
        (b : Begun RunBody)
        → paid w ≤ k
        → paid (on_begun c e m w i r b).0.world ≤ k + pos_part i.budget.max_attempts
    unfolding settle
    on_begun-paid k m w i r (l, err x) h = omega (arith, h)
    on_begun-paid k m w i r (l, ok (existing, replay)) h =
        elim (Bool-cases (replay && not (is_running existing.state))) [
          | inl b ↦ rw b (omega (arith, h))
          | inr b ↦ rw b (omega (arith, generate-paid m w i r, h))
        ]

    on_hashed-paid :
        (k : ℕ) (s : Runner c e) (w : e.World) (i : GenerationInput c) (request : GenerationRequest)
        (capability : Capability) (at : ℕ) (o : Option Text)
        → paid w ≤ k
        → paid (on_hashed c e s w i request capability at o).0.world
          ≤ k + pos_part i.budget.max_attempts
    on_hashed-paid k s w i request capability at none h = omega (arith, h)
    on_hashed-paid k s w i request capability at (some hash) h =
        on_begun-paid k s.manifests w i _ _ h

    on_prepared-paid :
        (k : ℕ) (s : Runner c e) (i : GenerationInput c) (at : ℕ)
        (x : e.World × Result Failure (GenerationRequest × Capability))
        → paid x.0 ≤ k
        → paid (on_prepared c e s i at x).0.world ≤ k + pos_part i.budget.max_attempts
    on_prepared-paid k s i at (w, err f) h = omega (arith, h)
    on_prepared-paid k s i at (w, ok (request, capability)) h =
        on_hashed-paid k s w i request capability at _ h

    preflight-paid :
        (w : e.World) (i : GenerationInput c) (at : ℕ) → paid (preflight c e w i at).0 ≤ paid w
    unfolding preflight
    preflight-paid w i at = discovered (request_for c e w i at)
      where
        discovered :
            (o : Result Failure GenerationRequest) → paid (discover_for c e w i.route o).0 ≤ paid w
        discovered (ok request) = meter.discover_free w
        discovered (err f) = omega arith

    execute-paid :
        (s : Runner c e) (i : GenerationInput c)
        → paid (execute c e s i).0.world ≤ paid s.world + pos_part i.budget.max_attempts
    unfolding execute
    execute-paid s i =
        let (w, at) = e.now s.world in
        on_prepared-paid (paid s.world) s i at (preflight c e w i at)
          (omega (arith, meter.now_free s.world, preflight-paid w i at))

  -- The submissions that the budgets of the inputs allow.
  unfoldable pub allowed : List (GenerationInput c) → ℕ
  allowed [] = 0
  allowed (i ∷ inputs) = pos_part i.budget.max_attempts + allowed inputs

  -- Executions in turn raise a measure of the world that a submission raises by at most one, and that no
  -- other call raises, by at most the sum of the attempts that their budgets allow.
  pub executions-paid :
      (meter : IsMeter) (s : Runner c e) (inputs : List (GenerationInput c))
      → paid (after_executions c e s inputs).world ≤ paid s.world + allowed inputs
  unfolding after_executions allowed
  executions-paid meter s [] = omega arith
  executions-paid meter s (i ∷ inputs) =
      omega (arith, execute-paid meter s i, executions-paid meter (execute c e s i).0 inputs)
