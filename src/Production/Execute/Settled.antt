-- ===== src/Production/Execute/Settled.antt =====
-- Every execution closes the run that it begins.
use ai_video_series_workflow.Common.{
  ◌≡◌, refl, sym, ap, ◌∙◌, ◌⊎◌, inl, inr, ℕ, true, false, Option, none, some, List, [], ◌∷◌, ◌==◌,
  Text, text_eq, text_eq_refl, arith, lookup, insert, lookup-insert, lookup-insert_self, Bool-cases,
  Option-cases, Result, ok, err,
}
use ai_video_series_workflow.Provider.Contract.{
  GenerationRequest, Capability, JobStatus, succeeded, failed, cancelled, queued, running, unknown,
  requires_action, other,
}
use ai_video_series_workflow.Production.Prompt.{PromptCodec}
use ai_video_series_workflow.Production.Ledger.{
  RunLedger, key_reused, run_id_reused, begin, complete, is_running, LedgerError, replay,
  or_nil_run, Begun,
}
use ai_video_series_workflow.Production.Manifests.{ManifestStore}
use ai_video_series_workflow.Production.Run.{RunBody, zero_body, Failure, later}
use ai_video_series_workflow.Production.Preflight.{preflight, Environment, GenerationInput}
use ai_video_series_workflow.Production.Loops.{Record}
use ai_video_series_workflow.Production.Loops.Grown.{IsGrown}
use ai_video_series_workflow.Production.Conclude.{Ended, fail, final_record, state_of, generate}
use ai_video_series_workflow.Production.Conclude.Cases.{generate_cases}
use ai_video_series_workflow.Production.Execute.{
  Runner, reached, new_generation_runner, Executed, answer_completed, settle, answer_again, execute,
  on_begun, after_executions, new_record, on_prepared, on_hashed,
}

-- A record that the ledger answers for a key: one that it has, or the zero value.
abbrev pub IsAnswered : RunLedger RunBody → Record → Type 0
IsAnswered l r =
    ((id : Text) × (lookup id l.by_run_id ≡ some r)) ⊎ (r ≡ or_nil_run RunBody zero_body none)

-- No run of the ledger goes on.
unfoldable pub IsSettled : RunLedger RunBody → Type 0
IsSettled l = (id : Text) (r : Record) → lookup id l.by_run_id ≡ some r → is_running r.state ≡ false

-- `s` ends the run `r`.
pub record IsEnd (r s : Record) : Type 0 where
  pub same_run : s.run_id ≡ r.run_id
  pub same_request : s.request_hash ≡ r.request_hash
  pub over : is_running s.state ≡ false
  pub dated : (s.finished_at == 0) ≡ false

abbrev pub opened : RunLedger RunBody → Record → RunLedger RunBody
opened l r = record {
  by_run_id = insert r.run_id r l.by_run_id;
  by_idempotency = insert r.idempotency_key r.run_id l.by_idempotency;
}

abbrev pub closed : RunLedger RunBody → Record → RunLedger RunBody
closed l s = record l { by_run_id = insert s.run_id s l.by_run_id }

pub complete-opened :
    (l : RunLedger RunBody) (r s : Record)
    → is_running r.state ≡ true
    → IsEnd r s
    → complete RunBody (opened l r) s ≡ (closed (opened l r) s, ok s)
unfolding complete
complete-opened l r s runs end =
    rw
      (
        end.over,
        end.dated,
        end.same_run,
        lookup-insert_self r.run_id r l.by_run_id,
        end.same_request,
        text_eq_refl r.request_hash,
        runs,
      )
      refl

state_of-over : (status : JobStatus) → is_running (state_of status) ≡ false
unfolding is_running
state_of-over queued = refl
state_of-over running = refl
state_of-over succeeded = refl
state_of-over failed = refl
state_of-over unknown = refl
state_of-over requires_action = refl
state_of-over cancelled = refl
state_of-over (other s) = refl

later-dated : (candidate floor : ℕ) → (later candidate floor == 0) ≡ false
unfolding later
later-dated candidate floor = ground arith

module _ (c : PromptCodec) (e : Environment c) where
  abbrev pub EndsRun : Record → Ended c e → Type 0
  EndsRun r (w, m, s, ending) = IsEnd r s

  grown-IsEnd :
      {a b : ℕ} (r q s : Record)
      → IsGrown a b r q
      → s.run_id ≡ q.run_id
      → s.request_hash ≡ q.request_hash
      → is_running s.state ≡ false
      → (s.finished_at == 0) ≡ false
      → IsEnd r s
  grown-IsEnd r q s g same_run same_request over dated = record {
    same_run = same_run ∙ ap (λ x. x.run_id) g.same;
    same_request = same_request ∙ ap (λ x. x.request_hash) g.same;
    over = over;
    dated = dated;
  }

  pub generate-EndsRun :
      (m : ManifestStore) (w : e.World) (i : GenerationInput c) (r : Record)
      → EndsRun r (generate c e m w i r)
  unfolding fail final_record is_running
  generate-EndsRun m w i r =
      generate_cases c e m i w r (EndsRun r)
        (λ m' w' s f g.
          grown-IsEnd r s _ g refl refl refl (later-dated (e.now w').1 s.body.started_at))
        λ m' w' s job at mr g k.
          grown-IsEnd r s _ g refl refl (state_of-over job.status)
            (ap (λ t. t == 0) k.dated ∙ later-dated k.clock s.body.started_at)

  pub settle-closed :
      (l : RunLedger RunBody) (r : Record) (ended : Ended c e)
      → is_running r.state ≡ true
      → EndsRun r ended
      → settle c e (opened l r) ended ≡ (
        record { world = ended.0; ledger = closed (opened l r) ended.2; manifests = ended.1 },
        answer_completed c e ended.3 (ok ended.2),
      )
  unfolding settle
  settle-closed l r (w, m, s, ending) runs h = rw (complete-opened l r s runs h) refl

  -- What `Begin` answers, on a ledger where no run goes on.
  begin_answers {ℓ} :
      (P : Begun RunBody → Type ℓ) (l : RunLedger RunBody) (r : Record)
      → IsSettled l
      → ((x : LedgerError) → P (l, err x))
      → ((existing : Record)
          → IsAnswered l existing
          → is_running existing.state ≡ false
          → P (l, ok (existing, true)))
      → (lookup r.idempotency_key l.by_idempotency ≡ none
          → lookup r.run_id l.by_run_id ≡ none
          → P (opened l r, ok (r, false)))
      → P (begin RunBody zero_body l r)
  unfolding begin is_running IsSettled
  begin_answers P l r settled refuses replays opens =
      elim (Option-cases (lookup r.idempotency_key l.by_idempotency)) [
        | inr (id, b) ↦ elim (Option-cases (lookup id l.by_run_id)) [
          | inl d ↦ rw (b, d) (found (or_nil_run RunBody zero_body none) key_reused (inr refl) refl)
          | inr (existing, d) ↦
              rw (b, d) (found existing key_reused (inl (id, d)) (settled id existing d))
        ]
        | inl b ↦ elim (Option-cases (lookup r.run_id l.by_run_id)) [
          | inl d ↦ rw (b, d) (opens b d)
          | inr (existing, d) ↦
              rw (b, d)
                (found existing run_id_reused (inl (r.run_id, d)) (settled r.run_id existing d))
        ]
      ]
    where
      found :
          (existing : Record) (x : LedgerError)
          → IsAnswered l existing
          → is_running existing.state ≡ false
          → P (replay RunBody l r existing x)
      found existing x known over =
          elim (Bool-cases (text_eq existing.request_hash r.request_hash)) [
            | inl b ↦ rw b (replays existing known over)
            | inr b ↦ rw b (refuses x)
          ]

  -- What an execution leads to, on a ledger where no run goes on: it is refused, it answers a run that has
  -- ended, or it opens a run and closes it.
  pub execute_cases {ℓ} :
      (P : Executed c e → Type ℓ) (s : Runner c e) (i : GenerationInput c)
      → IsSettled s.ledger
      → ((w : e.World) (f : Failure) → P (record s { world = w }, (none, some f)))
      → ((w : e.World) (existing : Record)
          → IsAnswered s.ledger existing
          → is_running existing.state ≡ false
          → P (record s { world = w }, answer_again c e existing))
      → ((w : e.World) (request : GenerationRequest) (capability : Capability) (hash : Text)
          → preflight c e (e.now s.world).0 i (e.now s.world).1 ≡ (w, ok (request, capability))
          → lookup i.idempotency_key s.ledger.by_idempotency ≡ none
          → lookup i.run_id s.ledger.by_run_id ≡ none
          → let r = new_record c e i request capability hash (e.now s.world).1 in
            P (settle c e (opened s.ledger r) (generate c e s.manifests w i r)))
      → P (execute c e s i)
  unfolding execute new_record is_running
  execute_cases P s i settled refuses replays generates =
      prepared_cases (preflight c e (e.now s.world).0 i (e.now s.world).1) refl
    where
      hashed_cases :
          (w : e.World) (request : GenerationRequest) (capability : Capability)
          → preflight c e (e.now s.world).0 i (e.now s.world).1 ≡ (w, ok (request, capability))
          → (o : Option Text) → P (on_hashed c e s w i request capability (e.now s.world).1 o)
      hashed_cases w request capability h none = refuses w _
      hashed_cases w request capability h (some hash) =
          let r = new_record c e i request capability hash (e.now s.world).1 in
          begin_answers (λ b. P (on_begun c e s.manifests w i r b)) s.ledger r settled
            (λ x. refuses w _) (λ existing known over. rw over (replays w existing known over))
            λ free_key free_id. generates w request capability hash h free_key free_id

      prepared_cases :
          (o : e.World × Result Failure (GenerationRequest × Capability))
          → preflight c e (e.now s.world).0 i (e.now s.world).1 ≡ o
          → P (on_prepared c e s i (e.now s.world).1 o)
      prepared_cases (w, err f) h = refuses w f
      prepared_cases (w, ok (request, capability)) h = hashed_cases w request capability h _

  -- Closing the run that was opened leaves no run that goes on.
  closed-IsSettled :
      (l : RunLedger RunBody) (r s : Record)
      → IsSettled l
      → IsEnd r s
      → IsSettled (closed (opened l r) s)
  unfolding IsSettled
  closed-IsSettled l r s settled end id q h = elim (Bool-cases (text_eq s.run_id id)) [
    | inl b ↦
        ground (arith, end.over, h, lookup-insert s.run_id id s (insert r.run_id r l.by_run_id), b)
    | inr b ↦
        let b' : text_eq r.run_id id ≡ false = sym (ap (λ x. text_eq x id) end.same_run) ∙ b in
        settled id q (
          rw
            (
              lookup-insert s.run_id id s (insert r.run_id r l.by_run_id),
              b,
              lookup-insert r.run_id id r l.by_run_id,
              b',
            )
            at h)
  ]

  pub execute-IsSettled :
      (s : Runner c e) (i : GenerationInput c)
      → IsSettled s.ledger
      → IsSettled (execute c e s i).0.ledger
  unfolding new_record is_running
  execute-IsSettled s i settled =
      execute_cases (λ x. IsSettled x.0.ledger) s i settled (λ w f. settled)
        (λ w existing known over. settled)
        λ w request capability hash prepared free_key free_id.
          let r = new_record c e i request capability hash (e.now s.world).1 in
          let ended = generate c e s.manifests w i r in
          let end = generate-EndsRun s.manifests w i r in
          rw (settle-closed s.ledger r ended refl end)
            (closed-IsSettled s.ledger r ended.2 settled end)

  pub executions-IsSettled :
      (s : Runner c e) (inputs : List (GenerationInput c))
      → IsSettled s.ledger
      → IsSettled (after_executions c e s inputs).ledger
  unfolding after_executions
  executions-IsSettled s [] settled = settled
  executions-IsSettled s (i ∷ inputs) settled =
      executions-IsSettled (execute c e s i).0 inputs (execute-IsSettled s i settled)

  pub reached-IsSettled :
      (w : e.World) (inputs : List (GenerationInput c)) → IsSettled (reached c e w inputs).ledger
  unfolding IsSettled lookup
  reached-IsSettled w inputs =
      executions-IsSettled (new_generation_runner c e w) inputs (λ id r h. none_bound h)
    where
      none_bound : {r : Record} → none ≡ some r → is_running r.state ≡ false
      none_bound h = cc

  -- After any executions of a new runner, in any environment, no record of the ledger is running.
  pub no_run-IsRunning :
      (w : e.World) (inputs : List (GenerationInput c)) (id : Text) (r : Record)
      → lookup id (reached c e w inputs).ledger.by_run_id ≡ some r
      → is_running r.state ≡ false
  unfolding IsSettled
  no_run-IsRunning w inputs = reached-IsSettled w inputs
