-- ===== src/Provider/Fake/Events.antt =====
-- One callback event is applied at most once.
use ai_video_series_workflow.Common.{
  ◌≡◌, refl, inl, inr, true, false, not, ◌&&◌, ◌||◌, Option, none, some, List, [], ◌∷◌, Text,
  text_eq, text_eq_refl, lookup, Bool-cases, Option-cases, any, arith, is_empty, is_blank, ltb_ℤ,
  ltb,
}
use ai_video_series_workflow.Provider.Contract.{
  GenerationRequest, RequestError, validate_request, Job, Callback, is_terminal, is_valid_status,
  rank, status_eq,
}
use ai_video_series_workflow.Provider.Fake.{
  Call, submits, polls, cancels, calls_back, after, run, submit, submit_valid, submit_new,
  answer_submit, is_recovery, apply_callback, apply_to, transition, poll, cancel, change,
}
use ai_video_series_workflow.Provider.FakeState.{
  FakeProvider, FakeRecord, scenario_error, polled, cancelled_record,
}

-- The events that are recorded stay recorded.
abbrev pub IsSeen : Text → FakeProvider → Type 0
IsSeen e f = any (text_eq e) f.callback_events ≡ true

change-events :
    (g : FakeRecord → FakeRecord) (f : FakeProvider) (id : Text) (o : Option FakeRecord)
    → (change g f id o).0.callback_events ≡ f.callback_events
unfolding change
change-events g f id none = refl
change-events g f id (some r) = elim (Bool-cases (is_terminal r.job.status)) [
  | inl e ↦ rw e refl
  | inr e ↦ rw e refl
]

answer_submit-events :
    (f : FakeProvider) (key : Text) (job : Job)
    → (answer_submit f key job).0.callback_events ≡ f.callback_events
unfolding answer_submit
answer_submit-events f key job =
    elim (Bool-cases (is_recovery f.scenario && not (any (text_eq key) f.recovery_failed))) [
      | inl e ↦ rw e refl
      | inr e ↦ rw e refl
    ]

submit_valid-events :
    (f : FakeProvider) (r : GenerationRequest) (o : Option RequestError)
    → (submit_valid f r o).0.callback_events ≡ f.callback_events
unfolding submit_new
submit_valid-events f r (some e) = refl
submit_valid-events f r none = elim (Option-cases (lookup r.idempotency_key f.idempotency)) [
  | inr (id, e) ↦ rw e refl
  | inl e ↦ elim (Option-cases (scenario_error f.scenario)) [
    | inr (x, d) ↦ rw (e, d) refl
    | inl d ↦ rw (e, d) (answer_submit-events _ r.idempotency_key _)
  ]
]

transition-events :
    (f : FakeProvider) (c : Callback) (r : FakeRecord)
    → (transition f c r).0.callback_events ≡ f.callback_events
unfolding transition
transition-events f c r =
    elim (Bool-cases (is_terminal r.job.status || ltb_ℤ (rank c.status) (rank r.job.status))) [
      | inl e ↦ rw e refl
      | inr e ↦
          elim (Bool-cases
            (status_eq c.status r.job.status && not (ltb r.job.updated_at c.created_at))) [
              | inl d ↦ rw (e, d) refl
              | inr d ↦ rw (e, d) refl
            ]
    ]

apply_to-IsSeen :
    (f : FakeProvider) (c : Callback) (o : Option FakeRecord) (e : Text)
    → IsSeen e f
    → IsSeen e (apply_to f c o).0
unfolding apply_to
apply_to-IsSeen f c none e h = h
apply_to-IsSeen f c (some r) e h = elim (Bool-cases (any (text_eq c.event_id) f.callback_events)) [
  | inl p ↦ rw p h
  | inr p ↦ elim (Bool-cases (is_blank c.event_id || not (is_valid_status c.status))) [
    | inl q ↦ rw (p, q) h
    | inr q ↦
        rw
          (
            p,
            q,
            transition-events (record f { callback_events = c.event_id ∷ f.callback_events }) c r,
          )
          (ground (arith, h))
  ]
]

apply_callback-IsSeen :
    (f : FakeProvider) (c : Callback) (e : Text) → IsSeen e f → IsSeen e (apply_callback f c).0
unfolding apply_callback
apply_callback-IsSeen f c e h =
    elim (Bool-cases (is_empty c.event_id || is_empty c.job_id || not (is_valid_status c.status))) [
      | inl p ↦ rw p h
      | inr p ↦ rw p (apply_to-IsSeen f c (lookup c.job_id f.records) e h)
    ]

after-IsSeen : (f : FakeProvider) (d : Call) (e : Text) → IsSeen e f → IsSeen e (after f d)
unfolding after submit poll cancel
after-IsSeen f (submits none r) e h = rw (submit_valid-events f r (validate_request r)) h
after-IsSeen f (submits (some x) r) e h = h
after-IsSeen f (polls none id) e h =
    rw (change-events (polled f.scenario) f id (lookup id f.records)) h
after-IsSeen f (polls (some x) id) e h = h
after-IsSeen f (cancels none id) e h =
    rw (change-events cancelled_record f id (lookup id f.records)) h
after-IsSeen f (cancels (some x) id) e h = h
after-IsSeen f (calls_back c) e h = apply_callback-IsSeen f c e h

run-IsSeen : (f : FakeProvider) (ds : List Call) (e : Text) → IsSeen e f → IsSeen e (run f ds)
unfolding run
run-IsSeen f [] e h = h
run-IsSeen f (d ∷ ds) e h = run-IsSeen (after f d) ds e (after-IsSeen f d e h)

apply_to-applied :
    (f : FakeProvider) (c : Callback) (o : Option FakeRecord)
    → (apply_to f c o).1.applied ≡ true
    → IsSeen c.event_id (apply_to f c o).0
unfolding apply_to
apply_to-applied f c none h = cc
apply_to-applied f c (some r) h = elim (Bool-cases (any (text_eq c.event_id) f.callback_events)) [
  | inl p ↦ rw p p
  | inr p ↦ elim (Bool-cases (is_blank c.event_id || not (is_valid_status c.status))) [
    | inl q ↦ ground (arith, h)
    | inr q ↦
        rw
          (
            p,
            q,
            transition-events (record f { callback_events = c.event_id ∷ f.callback_events }) c r,
            text_eq_refl c.event_id,
          )
          refl
  ]
]

apply_callback-applied :
    (f : FakeProvider) (c : Callback)
    → (apply_callback f c).1.applied ≡ true
    → IsSeen c.event_id (apply_callback f c).0
unfolding apply_callback
apply_callback-applied f c h =
    elim (Bool-cases (is_empty c.event_id || is_empty c.job_id || not (is_valid_status c.status))) [
      | inl p ↦ ground (arith, h)
      | inr p ↦ rw p (apply_to-applied f c (lookup c.job_id f.records) (ground (arith, h, p)))
    ]

apply_to-again :
    (f : FakeProvider) (c : Callback) (o : Option FakeRecord)
    → IsSeen c.event_id f
    → ((apply_to f c o).0 ≡ f) × ((apply_to f c o).1.applied ≡ false)
unfolding apply_to
apply_to-again f c none h = (refl, refl)
apply_to-again f c (some r) h = rw h (refl, refl)

apply_callback-again :
    (f : FakeProvider) (c : Callback)
    → IsSeen c.event_id f
    → ((apply_callback f c).0 ≡ f) × ((apply_callback f c).1.applied ≡ false)
unfolding apply_callback
apply_callback-again f c h =
    elim (Bool-cases (is_empty c.event_id || is_empty c.job_id || not (is_valid_status c.status))) [
      | inl p ↦ rw p (refl, refl)
      | inr p ↦ rw p (apply_to-again f c (lookup c.job_id f.records) h)
    ]

-- Once `ApplyCallback` has applied an event, no callback with the same event ID is applied again,
-- whatever its job, status and time and whatever was called in between, and it changes nothing.
pub callback-once :
    (f : FakeProvider) (c d : Callback) (ds : List Call)
    → (apply_callback f c).1.applied ≡ true
    → d.event_id ≡ c.event_id
    → let g = run (apply_callback f c).0 ds in
      ((apply_callback g d).0 ≡ g) × ((apply_callback g d).1.applied ≡ false)
callback-once f c d ds h same =
    let g : FakeProvider = run (apply_callback f c).0 ds in
    apply_callback-again g d
      (rw same (run-IsSeen (apply_callback f c).0 ds c.event_id (apply_callback-applied f c h)))
