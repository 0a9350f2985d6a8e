-- ===== src/Provider/Fake/Once.antt =====
-- One idempotency key names at most one job.
use ai_video_series_workflow.Common.{
  ◌+◌, ◌≡◌, refl, sym, ap, ◌∙◌, inl, inr, not, ◌&&◌, Option, none, some, List, [], ◌∷◌, Text,
  text_eq, lookup, lookup-insert_free, lookup-insert_self, length, Bool-cases, ok, any, arith,
}
use ai_video_series_workflow.Provider.Contract.{
  GenerationRequest, RequestError, validate_request, Job,
}
use ai_video_series_workflow.Provider.Errors.{ProviderError}
use ai_video_series_workflow.Provider.Fake.{
  Call, submits, after, run, submit, submit_valid, submit_key, submit_new, answer_submit, job_of,
  is_recovery,
}
use ai_video_series_workflow.Provider.FakeState.{
  FakeProvider, FakeScenario, new_fake_provider, new_job, job_id, scenario_error,
}
use ai_video_series_workflow.Provider.Fake.Step.{IsStep, keeps, accepts, moves, after-IsStep}
use ai_video_series_workflow.Provider.Fake.Sound.{IsSound, run_from-IsSound, run-IsSound}

step-key :
    (f g : FakeProvider) (key id : Text)
    → IsStep f g
    → lookup key f.idempotency ≡ some id
    → lookup key g.idempotency ≡ some id
step-key f g key id (keeps p q) h = rw q h
step-key f g key id (accepts r free p q) h =
    rw q (lookup-insert_free _ key _ id f.idempotency free h)
step-key f g key id (moves _ a b found move p q) h = rw q h

-- A key that is bound stays bound to its job.
pub run-key :
    (f : FakeProvider) (ds : List Call) (key id : Text)
    → lookup key f.idempotency ≡ some id
    → lookup key (run f ds).idempotency ≡ some id
unfolding run
run-key f [] key id h = h
run-key f (d ∷ ds) key id h =
    run-key (after f d) ds key id (step-key f (after f d) key id (after-IsStep f d) h)

-- An answer of `Submit` with a job has bound the key to the job's ID.
answer_submit-job :
    (f : FakeProvider) (key : Text) (made job : Job)
    → (answer_submit f key made).1 ≡ ok job
    → (made ≡ job) × ((answer_submit f key made).0.idempotency ≡ f.idempotency)
unfolding answer_submit
answer_submit-job f key made job h =
    elim (Bool-cases (is_recovery f.scenario && not (any (text_eq key) f.recovery_failed))) [
      | inl e ↦ ground (arith, e)
      | inr e ↦ ground (arith, e)
    ]

submit_new-bound :
    (f : FakeProvider) (r : GenerationRequest) (o : Option ProviderError) (job : Job)
    → (submit_new f r o).1 ≡ ok job
    → lookup r.idempotency_key (submit_new f r o).0.idempotency ≡ some job.id
unfolding submit_new new_job
submit_new-bound f r (some e) job h = cc
submit_new-bound f r none job h =
    let (same, kept) = answer_submit-job _ r.idempotency_key _ job h in
    rw (kept, sym same)
      (lookup-insert_self r.idempotency_key (job_id (length f.records + 1)) f.idempotency)

submit_key-bound :
    (f : FakeProvider) (r : GenerationRequest) (o : Option Text) (job : Job)
    → IsSound f.records f.idempotency
    → lookup r.idempotency_key f.idempotency ≡ o
    → (submit_key f r o).1 ≡ ok job
    → lookup r.idempotency_key (submit_key f r o).0.idempotency ≡ some job.id
submit_key-bound f r none job s e h = submit_new-bound f r (scenario_error f.scenario) job h
submit_key-bound f r (some id) job s e h =
    let (q, found, own, _) = s.bound r.idempotency_key id e in
    let answered : job_of (some q) ≡ ok job = sym (ap job_of found) ∙ h in
    let same : q.job ≡ job = cc in rw (e, sym own) (ap (λ j. some j.id) same)

submit_valid-bound :
    (f : FakeProvider) (r : GenerationRequest) (o : Option RequestError) (job : Job)
    → IsSound f.records f.idempotency
    → (submit_valid f r o).1 ≡ ok job
    → lookup r.idempotency_key (submit_valid f r o).0.idempotency ≡ some job.id
submit_valid-bound f r none job s h = submit_key-bound f r _ job s refl h
submit_valid-bound f r (some e) job s h = cc

-- A submit of a valid request under a bound key finds the job and leaves the state.
submit-bound :
    (f : FakeProvider) (r : GenerationRequest) (id : Text)
    → IsSound f.records f.idempotency
    → lookup r.idempotency_key f.idempotency ≡ some id
    → validate_request r ≡ none
    → (job : Job) × (submit none f r ≡ (f, ok job))
      × (job.id ≡ id)
      × (job.idempotency_key ≡ r.idempotency_key)
unfolding submit
submit-bound f r id s h valid =
    let (q, found, own, same) = s.bound r.idempotency_key id h in
    (q.job, rw (valid, h, found) refl, own, same)

-- If `Submit` answers with a job in a state that some calls on a new provider lead to, then after
-- any further calls a submit of a valid request with the same idempotency key answers with the job
-- of the same ID, under that key, and changes nothing.
pub submit-once :
    (scenario : FakeScenario) (ds es : List Call) (r r' : GenerationRequest) (job : Job)
    → let f = run (new_fake_provider scenario) ds in
      let g = run (submit none f r).0 es in
      (submit none f r).1 ≡ ok job
      → r'.idempotency_key ≡ r.idempotency_key
      → validate_request r' ≡ none
      → (later : Job) × (submit none g r' ≡ (g, ok later))
        × (later.id ≡ job.id)
        × (later.idempotency_key ≡ r.idempotency_key)
unfolding submit after run
submit-once scenario ds es r r' job h same valid =
    let f : FakeProvider = run (new_fake_provider scenario) ds in
    let s = run-IsSound scenario ds in
    let bound = submit_valid-bound f r (validate_request r) job s h in
    let kept = run-key (submit none f r).0 es r.idempotency_key job.id bound in
    let (later, answer, own, key) =
      submit-bound (run (submit none f r).0 es) r' job.id
        (run_from-IsSound f (submits none r ∷ es) s) (rw same kept) valid in
    (later, answer, own, key ∙ same)
