-- ===== src/Production/Ledger/Examples.antt =====
-- The theorems on the ledger at one run that begins and ends.
use ai_video_series_workflow.Common.{
  ◌≡◌, refl, true, false, [], ◌∷◌, Text, text_eq, codes, lookup, some, if◌then◌else◌, ok, err,
}
use ai_video_series_workflow.Production.Ledger.{
  RunRecord, RunLedger, new_run_ledger, run_running, run_succeeded, key_reused, begin, begins,
  completes, after_calls,
}
use ai_video_series_workflow.Production.Ledger.Once.{IsKept, calls-IsKept, begin-once}

abbrev begun : RunRecord Text
begun = record {
  run_id = codes "run-1";
  idempotency_key = codes "k1";
  request_hash = codes "h1";
  state = run_running;
  manifest_hash = [];
  finished_at = 0;
  error_code = [];
  body = [];
}

abbrev ended : RunRecord Text
ended = record begun { state = run_succeeded; manifest_hash = codes "m1"; finished_at = 9 }

abbrev ledger : RunLedger Text
ledger = record {
  by_run_id = (codes "run-1", ended) ∷ [];
  by_idempotency = (codes "k1", codes "run-1") ∷ [];
}

begun_fresh : (begin Text [] (new_run_ledger Text) begun).1 ≡ ok (begun, false)
unfolding begin lookup
begun_fresh = refl

ended_stands : lookup ended.run_id ledger.by_run_id ≡ some ended
unfolding lookup text_eq
ended_stands = refl

calls-IsKept_example :
    IsKept Text [] (after_calls Text [] ledger (begins begun ∷ completes ended ∷ [])) ended
calls-IsKept_example =
    calls-IsKept Text [] ledger (begins begun ∷ completes ended ∷ []) ended ended_stands

begin-once_example :
    let m =
      after_calls Text [] (begin Text [] (new_run_ledger Text) begun).0 (completes ended ∷ []) in
    (kept : RunRecord Text) × (kept.run_id ≡ codes "run-1")
    × (kept.request_hash ≡ codes "h1")
    × (begin Text [] m begun
        ≡ (if text_eq (codes "h1") (codes "h1") then (m, ok (kept, true)) else (m, err key_reused)))
begin-once_example =
    begin-once Text [] (new_run_ledger Text) begun begun begun (completes ended ∷ []) begun_fresh
      refl
