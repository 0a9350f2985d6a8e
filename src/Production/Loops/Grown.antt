-- ===== src/Production/Loops/Grown.antt =====
-- The loops add attempts to a record and leave the rest of it, and the number of attempts is bounded
-- by the number of rounds.
use ai_video_series_workflow.Common.{
  ◌≡◌, refl, sym, ap, ◌∙◌, ◌≤◌, ℕ, zero, suc, ◌+◌, not, ◌||◌, Option, none, some, List, [], ◌∷◌,
  ◌++◌, append_assoc, inl, inr, Text, text_eq, arith, Bool-cases, Result, ok, err, length, ◌==◌,
  append-nil,
}
use ai_video_series_workflow.Provider.Contract.{GenerationRequest, Job, is_terminal}
use ai_video_series_workflow.Production.Prompt.{PromptCodec}
use ai_video_series_workflow.Production.Run.{
  AttemptRecord, Failure, count_kind, provider_submit, provider_poll, is_retryable, as_provider,
  retry_delay,
}
use ai_video_series_workflow.Production.Preflight.{Environment}
use ai_video_series_workflow.Production.Loops.{
  Record, Stage, add_attempt, submit_loop, poll_loop, answered, refused, on_submit, on_poll,
  retried, waited, after_round,
}

abbrev pub with_attempts : Record → List AttemptRecord → Record
with_attempts r added = record r { body = record r.body { attempts = r.body.attempts ++ added } }

-- `s` is `r` with more attempts, of which at most so many submit and poll.
pub record IsGrown (submits polls : ℕ) (r s : Record) : Type 0 where
  pub added : List AttemptRecord
  pub same : s ≡ with_attempts r added
  pub submits_bounded : count_kind provider_submit added ≤ submits
  pub polls_bounded : count_kind provider_poll added ≤ polls

count_kind-append :
    (kind : Text) (xs ys : List AttemptRecord)
    → count_kind kind (xs ++ ys) ≡ count_kind kind xs + count_kind kind ys
count_kind-append kind [] ys = omega arith
count_kind-append kind (x ∷ xs) ys = ground (arith, count_kind-append kind xs ys)

pub IsGrown-refl : (submits polls : ℕ) (r : Record) → IsGrown submits polls r r
IsGrown-refl submits polls r = record {
  added = [];
  same =
      ap (λ xs. record r { body = record r.body { attempts = xs } })
        (sym (append-nil r.body.attempts));
  submits_bounded = omega arith;
  polls_bounded = omega arith;
}

pub IsGrown-trans :
    {a b c d m n : ℕ} (r s t : Record)
    → IsGrown a b r s
    → IsGrown c d s t
    → a + c ≤ m
    → b + d ≤ n
    → IsGrown m n r t
IsGrown-trans r s t g h p q = record {
  added = g.added ++ h.added;
  same =
      h.same
      ∙ ap (λ x. with_attempts x h.added) g.same
      ∙ ap (λ xs. record r { body = record r.body { attempts = xs } })
          (append_assoc r.body.attempts g.added h.added);
  submits_bounded = omega (
    arith,
    count_kind-append provider_submit g.added h.added,
    g.submits_bounded,
    h.submits_bounded,
  );
  polls_bounded =
      omega
        (arith, count_kind-append provider_poll g.added h.added, g.polls_bounded, h.polls_bounded);
}

added_submit :
    (r : Record) (attempt : ℕ → AttemptRecord)
    → ((n : ℕ) → (attempt n).kind ≡ provider_submit)
    → IsGrown 1 0 r (add_attempt r attempt)
unfolding add_attempt text_eq
added_submit r attempt h = record {
  added = attempt (length r.body.attempts + 1) ∷ [];
  same = refl;
  submits_bounded = rw (h (length r.body.attempts + 1)) (omega arith);
  polls_bounded = rw (h (length r.body.attempts + 1)) (omega arith);
}

added_poll :
    (r : Record) (attempt : ℕ → AttemptRecord)
    → ((n : ℕ) → (attempt n).kind ≡ provider_poll)
    → IsGrown 0 1 r (add_attempt r attempt)
unfolding add_attempt text_eq
added_poll r attempt h = record {
  added = attempt (length r.body.attempts + 1) ∷ [];
  same = refl;
  submits_bounded = rw (h (length r.body.attempts + 1)) (omega arith);
  polls_bounded = rw (h (length r.body.attempts + 1)) (omega arith);
}

module _ (c : PromptCodec) (e : Environment c) where
  -- The record of a stage is grown from `r`.
  abbrev pub StageIsGrown : ℕ → ℕ → Record → Stage c e → Type 0
  StageIsGrown submits polls r (w, s, answer) = IsGrown submits polls r s

  module _ (n : ℕ) (r : Record) (again : e.World → Record → Stage c e)
      (grows : (w : e.World) (s : Record) → StageIsGrown n 0 s (again w s)) where
    retried-IsGrown :
        (s : Record) (waiting : e.World × Option Failure)
        → IsGrown 1 0 r s
        → StageIsGrown (suc n) 0 r (retried c e again s waiting)
    retried-IsGrown s (w, none) g = IsGrown-trans r s _ g (grows w s) (omega arith) (omega arith)
    retried-IsGrown s (w, some f) g =
        IsGrown-trans r s s g (IsGrown-refl n 0 s) (omega arith) (omega arith)

    on_submit-IsGrown :
        (started finished : ℕ) (w : e.World) (answer : Result Failure Job)
        → StageIsGrown (suc n) 0 r (on_submit c e n again started finished w r answer)
    on_submit-IsGrown started finished w (ok job) =
        let g =
          added_submit r (answered provider_submit started finished job.id job.status)
            (λ _. refl) in
        IsGrown-trans r _ _ g (IsGrown-refl n 0 _) (omega arith) (omega arith)
    on_submit-IsGrown started finished w (err f) =
        let g = added_submit r (refused provider_submit started finished [] f) (λ _. refl) in
        elim (Bool-cases (not (is_retryable f) || n == 0)) [
          | inl b ↦ rw b (IsGrown-trans r _ _ g (IsGrown-refl n 0 _) (omega arith) (omega arith))
          | inr b ↦ rw b (retried-IsGrown _ (e.wait w (retry_delay (as_provider f))) g)
        ]

  pub submit_loop-IsGrown :
      (n : ℕ) (request : GenerationRequest) (w : e.World) (r : Record)
      → StageIsGrown n 0 r (submit_loop c e n request w r)
  unfolding submit_loop
  submit_loop-IsGrown zero request w r = IsGrown-refl 0 0 r
  submit_loop-IsGrown (suc n) request w r =
      on_submit-IsGrown n r (submit_loop c e n request) (submit_loop-IsGrown n request) _ _ _ _

  module _ (n : ℕ) (r : Record) (again : e.World → Record → Job → Stage c e)
      (grows : (w : e.World) (s : Record) (job : Job) → StageIsGrown 0 n s (again w s job)) where
    waited-IsGrown :
        (job : Job) (s : Record) (waiting : e.World × Option Failure)
        → IsGrown 0 1 r s
        → StageIsGrown 0 (suc n) r (waited c e again job s waiting)
    waited-IsGrown job s (w, none) g =
        IsGrown-trans r s _ g (grows w s job) (omega arith) (omega arith)
    waited-IsGrown job s (w, some f) g =
        IsGrown-trans r s s g (IsGrown-refl 0 n s) (omega arith) (omega arith)

    after_round-IsGrown :
        (job : Job) (w : e.World) (s : Record)
        → IsGrown 0 1 r s
        → StageIsGrown 0 (suc n) r (after_round c e again job w s)
    after_round-IsGrown job w s g = elim (Bool-cases (is_terminal job.status)) [
      | inl b ↦ rw b (IsGrown-trans r s _ g (grows w s job) (omega arith) (omega arith))
      | inr b ↦ rw b (waited-IsGrown job s (e.wait w 100000000) g)
    ]

    on_poll-IsGrown :
        (started finished : ℕ) (job : Job) (w : e.World) (answer : Result Failure Job)
        → StageIsGrown 0 (suc n) r (on_poll c e again started finished job w r answer)
    on_poll-IsGrown started finished job w (ok polled) =
        after_round-IsGrown polled w _
          (added_poll r (answered provider_poll started finished job.id polled.status) (λ _. refl))
    on_poll-IsGrown started finished job w (err f) =
        let g = added_poll r (refused provider_poll started finished job.id f) (λ _. refl) in
        elim (Bool-cases (is_retryable f)) [
          | inl b ↦ rw b (after_round-IsGrown job w _ g)
          | inr b ↦ rw b (IsGrown-trans r _ _ g (IsGrown-refl 0 n _) (omega arith) (omega arith))
        ]

  pub poll_loop-IsGrown :
      (n : ℕ) (w : e.World) (r : Record) (job : Job) → StageIsGrown 0 n r (poll_loop c e n w r job)
  unfolding poll_loop
  poll_loop-IsGrown zero w r job = IsGrown-refl 0 0 r
  poll_loop-IsGrown (suc n) w r job = elim (Bool-cases (is_terminal job.status)) [
    | inl b ↦ rw b (IsGrown-refl 0 (suc n) r)
    | inr b ↦ rw b (on_poll-IsGrown n r (poll_loop c e n) (poll_loop-IsGrown n) _ _ job _ _)
  ]
