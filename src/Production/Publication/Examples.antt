-- ===== src/Production/Publication/Examples.antt =====
-- The theorem on publication locks at one run that was locked.
use ai_video_series_workflow.Common.{
  ◌≡◌, refl, true, some, [], ◌∷◌, Text, codes, lookup, insert, text_eq, is_sha256, is_blank,
}
use ai_video_series_workflow.Production.RevisionState.{non_empty}
use ai_video_series_workflow.Production.Refs.{GateApproval, gate3, gate_eq, is_approved}
use ai_video_series_workflow.Production.Run.{zero_body}
use ai_video_series_workflow.Production.Ledger.{run_succeeded}
use ai_video_series_workflow.Production.Loops.{Record}
use ai_video_series_workflow.Production.Publication.{
  QualityEvidence, PublicationLock, LockCall, lock_of, lock, is_passing, after_locks,
}
use ai_video_series_workflow.Production.Publication.Locked.{IsPublishable, locked-IsPublishable}

abbrev digest : Text
digest = codes "352b94f7134554825a7c426e579d12943a48c30db1666120353f5f24aa9c59b3"

abbrev constant : Text → Text
constant s = digest

abbrev run : Record
run = record {
  run_id = codes "run-1";
  idempotency_key = codes "run-1";
  request_hash = digest;
  state = run_succeeded;
  manifest_hash = digest;
  finished_at = 9;
  error_code = [];
  body = record zero_body { manifest_id = codes "manifest-1" };
}

abbrev evidence : QualityEvidence
evidence = record {
  report_id = codes "report-1";
  run_id = codes "run-1";
  manifest_id = codes "manifest-1";
  manifest_hash = digest;
  threshold_version = codes "v1";
  report_hash = digest;
  passed = true;
  reason_codes = [];
  completed_at = 10;
}

abbrev approval : GateApproval
approval = record {
  gate = gate3;
  decision_id = codes "decision-3";
  approved = true;
  binding_id = codes "manifest-1";
  binding_hash = digest;
  actor_id = codes "editor";
  decided_at = 11;
}

abbrev call : LockCall constant
call = record { run = run; qc = evidence; approval = approval; at = 12 }

abbrev run_lock : PublicationLock
run_lock = lock_of constant run evidence approval 12

run_locked : lookup (codes "run-1") (after_locks constant [] (call ∷ [])) ≡ some run_lock
unfolding after_locks lock is_passing is_approved gate_eq non_empty is_blank is_sha256 text_eq
    lookup insert lock_of
run_locked = refl

locked-IsPublishable_example :
    IsPublishable (codes "run-1") run_lock
    × (lookup
          (codes "run-1")
          (after_locks constant (after_locks constant [] (call ∷ [])) (call ∷ []))
        ≡ some run_lock)
locked-IsPublishable_example =
    locked-IsPublishable constant (call ∷ []) (call ∷ []) (codes "run-1") run_lock run_locked
