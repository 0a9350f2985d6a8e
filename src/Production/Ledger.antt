-- ===== src/Production/Ledger.antt =====
-- internal/videopipeline/production/generation.go: the ledger of generation runs. Its mutex makes a
-- call one step. The ledger reads and compares the fields below; the fields that it only carries are
-- `body`, of a type `Body` with the zero value `nil_body`. A deep copy of a value is the value.
pub mod Once
mod Examples
use ai_video_series_workflow.Common.{
  ℕ, Bool, true, false, not, ◌||◌, Option, none, some, List, [], ◌∷◌, ◌==◌, if◌then◌else◌, Text,
  text_eq, lookup, insert, Result, ok, err,
}

pub data RunState : Type 0 where
  run_running run_succeeded run_failed run_cancelled : RunState
  other : Text → RunState

unfoldable pub is_running : RunState → Bool
is_running run_running = true
is_running _ = false

pub data LedgerError : Type 0 where
  key_reused run_id_reused not_terminal not_begun other_terminal : LedgerError

module _ (Body : Type 0) where
  pub record RunRecord : Type 0 where
    pub run_id : Text
    pub idempotency_key : Text
    pub request_hash : Text
    pub state : RunState
    pub manifest_hash : Text
    pub finished_at : ℕ
    pub error_code : Text
    pub body : Body

  pub record RunLedger : Type 0 where
    pub by_run_id : List (Text × RunRecord)
    pub by_idempotency : List (Text × Text)

  abbrev pub new_run_ledger : RunLedger
  new_run_ledger = record { by_run_id = []; by_idempotency = [] }

  abbrev pub Begun : Type 0
  Begun = RunLedger × Result LedgerError (RunRecord × Bool)

  abbrev pub Completed : Type 0
  Completed = RunLedger × Result LedgerError RunRecord

  -- A record that is found is answered if it is of the same request.
  abbrev pub replay : RunLedger → RunRecord → RunRecord → LedgerError → Begun
  replay l r existing e =
      if not (text_eq existing.request_hash r.request_hash)
      then (l, err e)
      else (l, ok (existing, true))

  abbrev pub begin_run : RunLedger → RunRecord → Option RunRecord → Begun
  begin_run l r (some existing) = replay l r existing run_id_reused
  begin_run l r none = (
    record {
      by_run_id = insert r.run_id r l.by_run_id;
      by_idempotency = insert r.idempotency_key r.run_id l.by_idempotency;
    },
    ok (r, false),
  )

  -- `Complete` of a record that is found.
  abbrev pub complete_existing : RunLedger → RunRecord → Option RunRecord → Completed
  complete_existing l r none = (l, err not_begun)
  complete_existing l r (some existing) =
      if not (text_eq existing.request_hash r.request_hash)
      then (l, err not_begun)
      else if not (is_running existing.state)
      then (if not (text_eq existing.manifest_hash r.manifest_hash)
            || not (text_eq existing.error_code r.error_code)
          then (l, err other_terminal)
          else (l, ok existing))
      else (record l { by_run_id = insert r.run_id r l.by_run_id }, ok r)

  -- `RunLedger.Complete`.
  unfoldable pub complete : RunLedger → RunRecord → Completed
  complete l r =
      if is_running r.state || r.finished_at == 0
      then (l, err not_terminal)
      else complete_existing l r (lookup r.run_id l.by_run_id)

  -- `RunLedger.Get`.
  unfoldable pub get_run : RunLedger → Text → Option RunRecord
  get_run l run_id = lookup run_id l.by_run_id

  module _ (nil_body : Body) where
    abbrev pub nil_run : RunRecord
    nil_run = record {
      run_id = [];
      idempotency_key = [];
      request_hash = [];
      state = other [];
      manifest_hash = [];
      finished_at = 0;
      error_code = [];
      body = nil_body;
    }

    abbrev pub or_nil_run : Option RunRecord → RunRecord
    or_nil_run none = nil_run
    or_nil_run (some r) = r

    abbrev pub begin_key : RunLedger → RunRecord → Option Text → Begun
    begin_key l r (some run_id) = replay l r (or_nil_run (lookup run_id l.by_run_id)) key_reused
    begin_key l r none = begin_run l r (lookup r.run_id l.by_run_id)

    -- `RunLedger.Begin`.
    unfoldable pub begin : RunLedger → RunRecord → Begun
    begin l r = begin_key l r (lookup r.idempotency_key l.by_idempotency)

    pub data LedgerCall : Type 0 where
      begins completes : RunRecord → LedgerCall

    unfoldable pub after_call : RunLedger → LedgerCall → RunLedger
    after_call l (begins r) = (begin l r).0
    after_call l (completes r) = (complete l r).0

    unfoldable pub after_calls : RunLedger → List LedgerCall → RunLedger
    after_calls l [] = l
    after_calls l (d ∷ ds) = after_calls (after_call l d) ds
