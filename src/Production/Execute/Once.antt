-- ===== src/Production/Execute/Once.antt =====
-- A run is generated once: its key answers the record that ended it, without another call of `Submit`.
use ai_video_series_workflow.Common.{
  ◌≡◌, refl, sym, ap, ◌∙◌, inl, inr, none, some, List, [], ◌∷◌, Text, text_eq, text_eq-eq, lookup,
  insert, lookup-insert, lookup-insert_free, Bool-cases, ok, if◌then◌else◌,
}
use ai_video_series_workflow.Provider.Contract.{GenerationRequest, Capability}
use ai_video_series_workflow.Production.Prompt.{PromptCodec}
use ai_video_series_workflow.Production.Ledger.{RunLedger, begin, is_running, key_reused}
use ai_video_series_workflow.Production.Run.{RunBody, ledger_refused}
use ai_video_series_workflow.Production.Preflight.{preflight, Environment, GenerationInput}
use ai_video_series_workflow.Production.Loops.{Record}
use ai_video_series_workflow.Production.Conclude.{generate}
use ai_video_series_workflow.Production.Execute.{
  Runner, reached, answer_again, execute, after_executions, new_record, run_material,
}
use ai_video_series_workflow.Production.Execute.Settled.{
  IsSettled, IsEnd, opened, closed, execute_cases, generate-EndsRun, settle-closed,
  execute-IsSettled, executions-IsSettled, reached-IsSettled,
}

-- The ledger has the record of the run for the key.
pub record IsBound (key id : Text) (r : Record) (l : RunLedger RunBody) : Type 0 where
  pub named : lookup key l.by_idempotency ≡ some id
  pub stands : lookup id l.by_run_id ≡ some r

closed-IsBound :
    (key id : Text) (q : Record) (l : RunLedger RunBody) (r s : Record)
    → lookup r.idempotency_key l.by_idempotency ≡ none
    → lookup r.run_id l.by_run_id ≡ none
    → IsEnd r s
    → IsBound key id q l
    → IsBound key id q (closed (opened l r) s)
closed-IsBound key id q l r s free_key free_id end bound = record {
  named =
      lookup-insert_free r.idempotency_key key r.run_id id l.by_idempotency free_key bound.named;
  stands = elim (Bool-cases (text_eq s.run_id id)) [
    | inl b ↦ absurd (
        clash (
          sym free_id
          ∙ ap (λ x. lookup x l.by_run_id) (sym end.same_run ∙ text_eq-eq s.run_id id b)
          ∙ bound.stands))
    | inr b ↦
        rw (lookup-insert s.run_id id s (insert r.run_id r l.by_run_id), b)
          (lookup-insert_free r.run_id id r q l.by_run_id free_id bound.stands)
  ];
}
  where
    clash : none ≡ some q → ⊥
    clash h = cc

module _ (c : PromptCodec) (e : Environment c) (key id : Text) (q : Record) where
  execute-IsBound :
      (s : Runner c e) (i : GenerationInput c)
      → IsSettled s.ledger
      → IsBound key id q s.ledger
      → IsBound key id q (execute c e s i).0.ledger
  unfolding new_record is_running
  execute-IsBound s i settled bound =
      execute_cases c e (λ x. IsBound key id q x.0.ledger) s i settled (λ w f. bound)
        (λ w existing known over. bound)
        λ w request capability hash prepared free_key free_id.
          let r = new_record c e i request capability hash (e.now s.world).1 in
          let ended = generate c e s.manifests w i r in
          let end = generate-EndsRun c e s.manifests w i r in
          rw (settle-closed c e s.ledger r ended refl end)
            (closed-IsBound key id q s.ledger r ended.2 free_key free_id end bound)

  executions-IsBound :
      (s : Runner c e) (inputs : List (GenerationInput c))
      → IsSettled s.ledger
      → IsBound key id q s.ledger
      → IsBound key id q (after_executions c e s inputs).ledger
  unfolding after_executions
  executions-IsBound s [] settled bound = bound
  executions-IsBound s (i ∷ inputs) settled bound =
      executions-IsBound (execute c e s i).0 inputs (execute-IsSettled c e s i settled)
        (execute-IsBound s i settled bound)

module _ (c : PromptCodec) (e : Environment c) where
  again :
      (s : Runner c e) (i : GenerationInput c) (id : Text) (q : Record) (w : e.World)
      (request : GenerationRequest) (capability : Capability) (hash : Text)
      → IsSettled s.ledger
      → IsBound i.idempotency_key id q s.ledger
      → preflight c e (e.now s.world).0 i (e.now s.world).1 ≡ (w, ok (request, capability))
      → e.hash_run (run_material c e i request) ≡ some hash
      → execute c e s i ≡ (
        record s { world = w },
        if text_eq q.request_hash hash
            then answer_again c e q
            else (none, some (ledger_refused key_reused)),
      )
  unfolding execute begin new_record IsSettled
  again s i id q w request capability hash settled bound prepared hashed =
      let over = settled id q bound.stands in
      elim (Bool-cases (text_eq q.request_hash hash)) [
        | inl b ↦ rw (prepared, hashed, bound.named, bound.stands, b, over) refl
        | inr b ↦ rw (prepared, hashed, bound.named, bound.stands, b) refl
      ]

  -- The runner after more executions.
  abbrev pub resumed : e.World → List (GenerationInput c) → List (GenerationInput c) → Runner c e
  resumed w earlier inputs = after_executions c e (reached c e w earlier) inputs

  -- Once the ledger of a runner that started new has a record for an idempotency key, an execution with
  -- this key, after any others, whose input passes the checks answers this record if its request has
  -- the record's hash, and is refused if not; the world is the one that the clock and the checks leave,
  -- and the ledger and the manifests do not change.
  pub executed-once :
      (w : e.World) (earlier inputs : List (GenerationInput c)) (i : GenerationInput c) (id : Text)
      (q : Record) (w' : e.World) (request : GenerationRequest) (capability : Capability)
      (hash : Text)
      → IsBound i.idempotency_key id q (reached c e w earlier).ledger
      → preflight c e
          (e.now (resumed w earlier inputs).world).0
          i
          (e.now (resumed w earlier inputs).world).1
        ≡ (w', ok (request, capability))
      → e.hash_run (run_material c e i request) ≡ some hash
      → execute c e (resumed w earlier inputs) i ≡ (
        record (resumed w earlier inputs) { world = w' },
        if text_eq q.request_hash hash
            then answer_again c e q
            else (none, some (ledger_refused key_reused)),
      )
  executed-once w earlier inputs i id q w' request capability hash bound prepared hashed =
      let s = reached c e w earlier in
      let settled = reached-IsSettled c e w earlier in
      again (after_executions c e s inputs) i id q w' request capability hash
        (executions-IsSettled c e s inputs settled)
        (executions-IsBound c e i.idempotency_key id q s inputs settled bound) prepared hashed
