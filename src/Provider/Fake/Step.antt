-- ===== src/Provider/Fake/Step.antt =====
-- Every call of the fake provider is one of three steps of its records and keys.
use ai_video_series_workflow.Common.{
  ◌+◌, ◌≡◌, refl, ◌⊎◌, inl, inr, false, not, ◌&&◌, ◌||◌, Option, none, some, List, ◌∷◌, Text,
  text_eq, is_empty, is_blank, any, length, pos, ltb_ℤ, ◌≤ℤ◌, leb, lookup, insert, Bool-cases,
  Option-cases, arith, ltb,
}
use ai_video_series_workflow.Provider.Contract.{
  GenerationRequest, RequestError, validate_request, Job, JobStatus, queued, running, succeeded,
  failed, cancelled, unknown, requires_action, is_terminal, is_valid_status, rank, status_eq,
  Callback,
}
use ai_video_series_workflow.Provider.Errors.{ProviderError}
use ai_video_series_workflow.Provider.Contract
use ai_video_series_workflow.Provider.Fake.{
  Call, submits, polls, cancels, calls_back, after, submit, submit_new, submit_valid, answer_submit,
  poll, cancel, change, apply_callback, apply_to, transition, called_back, is_recovery,
}
use ai_video_series_workflow.Provider.FakeState.{
  FakeProvider, FakeRecord, FakeScenario, new_job, job_id, polled, cancelled_record, scenario_error,
  is_cancel_race,
}

-- What may become of a record: the job stays the same job, and only an unsettled one moves, forward.
pub record IsMove (r s : FakeRecord) : Type 0 where
  pub id : s.job.id ≡ r.job.id
  pub key : s.job.idempotency_key ≡ r.job.idempotency_key
  pub unsettled : is_terminal r.job.status ≡ false
  pub forward : rank r.job.status ≤ℤ rank s.job.status

pub data IsStep (f g : FakeProvider) : Type 0 where
  keeps : g.records ≡ f.records → g.idempotency ≡ f.idempotency → IsStep f g
  accepts :
      (r : GenerationRequest)
      → lookup r.idempotency_key f.idempotency ≡ none
      → g.records
        ≡ insert
            (job_id (length f.records + 1))
            (record { job = new_job (job_id (length f.records + 1)) r; poll_count = 0 })
            f.records
      → g.idempotency ≡ insert r.idempotency_key (job_id (length f.records + 1)) f.idempotency
      → IsStep f g
  moves :
      (id : Text) (r s : FakeRecord)
      → lookup id f.records ≡ some r
      → IsMove r s
      → g.records ≡ insert id s f.records
      → g.idempotency ≡ f.idempotency
      → IsStep f g

answer_submit-kept :
    (f : FakeProvider) (key : Text) (job : Job)
    → ((answer_submit f key job).0.records ≡ f.records)
      × ((answer_submit f key job).0.idempotency ≡ f.idempotency)
unfolding answer_submit
answer_submit-kept f key job =
    elim (Bool-cases (is_recovery f.scenario && not (any (text_eq key) f.recovery_failed))) [
      | inl e ↦ rw e (refl, refl)
      | inr e ↦ rw e (refl, refl)
    ]

submit_new-IsStep :
    (f : FakeProvider) (r : GenerationRequest) (o : Option ProviderError)
    → lookup r.idempotency_key f.idempotency ≡ none
    → IsStep f (submit_new f r o).0
unfolding submit_new
submit_new-IsStep f r (some e) free = keeps refl refl
submit_new-IsStep f r none free =
    let (p, q) = answer_submit-kept _ r.idempotency_key _ in accepts r free p q

submit_valid-IsStep :
    (f : FakeProvider) (r : GenerationRequest) (o : Option RequestError)
    → IsStep f (submit_valid f r o).0
submit_valid-IsStep f r (some e) = keeps refl refl
submit_valid-IsStep f r none = elim (Option-cases (lookup r.idempotency_key f.idempotency)) [
  | inl free ↦ rw free (submit_new-IsStep f r (scenario_error f.scenario) free)
  | inr (id, e) ↦ rw e (keeps refl refl)
]

unsettled_rank : (s : JobStatus) → is_terminal s ≡ false → rank s ≤ℤ pos 1
unfolding is_terminal rank
unsettled_rank queued h = omega arith
unsettled_rank running h = omega arith
unsettled_rank succeeded h = cc
unsettled_rank failed h = cc
unsettled_rank cancelled h = cc
unsettled_rank unknown h = omega arith
unsettled_rank requires_action h = omega arith
unsettled_rank (Contract.other s) h = omega arith

≤ℤ_running : (a : _) (b : _) → a ≤ℤ pos 1 → b ≡ pos 1 ⊎ b ≡ pos 2 → a ≤ℤ b
≤ℤ_running a b h k = ground arith

polled-IsMove :
    (scenario : FakeScenario) (r : FakeRecord)
    → is_terminal r.job.status ≡ false
    → IsMove r (polled scenario r)
unfolding polled rank
polled-IsMove scenario r h =
    elim (Bool-cases (is_cancel_race scenario || leb 2 (r.poll_count + 1))) [
      | inl e ↦ rw e record {
        id = refl;
        key = refl;
        unsettled = h;
        forward = ≤ℤ_running (rank r.job.status) (pos 2) (unsettled_rank r.job.status h) (inr refl);
      }
      | inr e ↦
          rw e
            record { id = refl; key = refl; unsettled = h; forward = unsettled_rank r.job.status h }
    ]

cancelled-IsMove :
    (r : FakeRecord) → is_terminal r.job.status ≡ false → IsMove r (cancelled_record r)
unfolding cancelled_record rank
cancelled-IsMove r h = record {
  id = refl;
  key = refl;
  unsettled = h;
  forward = ≤ℤ_running (rank r.job.status) (pos 2) (unsettled_rank r.job.status h) (inr refl);
}

change-IsStep :
    (g : FakeRecord → FakeRecord) (f : FakeProvider) (id : Text)
    → ((r : FakeRecord) → is_terminal r.job.status ≡ false → IsMove r (g r))
    → IsStep f (change g f id (lookup id f.records)).0
unfolding change
change-IsStep g f id move = elim (Option-cases (lookup id f.records)) [
  | inl free ↦ rw free (keeps refl refl)
  | inr (r, found) ↦ elim (Bool-cases (is_terminal r.job.status)) [
    | inl e ↦ rw (found, e) (keeps refl refl)
    | inr e ↦ rw (found, e) (moves id r (g r) found (move r e) refl refl)
  ]
]

transition-IsStep :
    (f : FakeProvider) (c : Callback) (r : FakeRecord) (events : List Text)
    → lookup c.job_id f.records ≡ some r
    → IsStep f (transition (record f { callback_events = events }) c r).0
unfolding transition called_back
transition-IsStep f c r events found =
    elim (Bool-cases (is_terminal r.job.status || ltb_ℤ (rank c.status) (rank r.job.status))) [
      | inl e ↦ rw e (keeps refl refl)
      | inr e ↦
          elim (Bool-cases
            (status_eq c.status r.job.status && not (ltb r.job.updated_at c.created_at))) [
              | inl d ↦ rw (e, d) (keeps refl refl)
              | inr d ↦
                  rw (e, d)
                    (moves c.job_id r (record r { job = called_back c r.job }) found
                      (record {
                        id = refl;
                        key = refl;
                        unsettled = ground (arith, e);
                        forward = ground (arith, e);
                      })
                      refl refl)
            ]
    ]

apply_to-IsStep :
    (f : FakeProvider) (c : Callback) → IsStep f (apply_to f c (lookup c.job_id f.records)).0
unfolding apply_to
apply_to-IsStep f c = elim (Option-cases (lookup c.job_id f.records)) [
  | inl free ↦ rw free (keeps refl refl)
  | inr (r, found) ↦ elim (Bool-cases (any (text_eq c.event_id) f.callback_events)) [
    | inl e ↦ rw (found, e) (keeps refl refl)
    | inr e ↦ elim (Bool-cases (is_blank c.event_id || not (is_valid_status c.status))) [
      | inl d ↦ rw (found, e, d) (keeps refl refl)
      | inr d ↦ rw (found, e, d) (transition-IsStep f c r (c.event_id ∷ f.callback_events) found)
    ]
  ]
]

apply_callback-IsStep : (f : FakeProvider) (c : Callback) → IsStep f (apply_callback f c).0
unfolding apply_callback
apply_callback-IsStep f c =
    elim (Bool-cases (is_empty c.event_id || is_empty c.job_id || not (is_valid_status c.status))) [
      | inl e ↦ rw e (keeps refl refl)
      | inr e ↦ rw e (apply_to-IsStep f c)
    ]

-- Whatever a call answers, the state after it has the records and the keys of before, or one new
-- queued job under a free key and the next number, or one unsettled job moved forward.
pub after-IsStep : (f : FakeProvider) (d : Call) → IsStep f (after f d)
unfolding after submit poll cancel
after-IsStep f (submits none r) = submit_valid-IsStep f r (validate_request r)
after-IsStep f (submits (some e) r) = keeps refl refl
after-IsStep f (polls none id) = change-IsStep (polled f.scenario) f id (polled-IsMove f.scenario)
after-IsStep f (polls (some e) id) = keeps refl refl
after-IsStep f (cancels none id) = change-IsStep cancelled_record f id cancelled-IsMove
after-IsStep f (cancels (some e) id) = keeps refl refl
after-IsStep f (calls_back c) = apply_callback-IsStep f c
