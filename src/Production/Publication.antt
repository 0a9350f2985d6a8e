-- ===== src/Production/Publication.antt =====
-- internal/videopipeline/production/generation.go: the lock of a run for publication. The mutex makes a
-- call one step. The evidence is a value: the source keeps the caller's slice of reason codes without
-- a copy, so that a caller who writes to the slice later would write to the lock. SHA-256 is the Go
-- library's: `hash_string` stands for `hashString`.
pub mod Locked
mod Examples
use ai_video_series_workflow.Common.{
  ℕ, Bool, true, false, not, ◌&&◌, ◌||◌, Option, none, some, List, [], ◌∷◌, ◌++◌, ltb, ◌==◌,
  if◌then◌else◌, Text, text_eq, codes, is_sha256, lookup, insert, Result, ok, err,
}
use ai_video_series_workflow.Production.RevisionState.{non_empty, derived_id}
use ai_video_series_workflow.Production.Refs.{GateApproval, gate3, is_approved}
use ai_video_series_workflow.Production.Loops.{Record, is_success}

pub record QualityEvidence : Type 0 where
  pub report_id : Text
  pub run_id : Text
  pub manifest_id : Text
  pub manifest_hash : Text
  pub threshold_version : Text
  pub report_hash : Text
  pub passed : Bool
  pub reason_codes : List Text
  pub completed_at : ℕ

pub record PublicationLock : Type 0 where
  pub id : Text
  pub run_id : Text
  pub manifest_id : Text
  pub manifest_hash : Text
  pub qc : QualityEvidence
  pub approval3 : GateApproval
  pub locked_at : ℕ

pub data LockError : Type 0 where
  not_succeeded not_passed not_approved bad_time locked_otherwise : LockError

-- `QualityEvidence.Validate`: whether there is no error.
unfoldable pub is_passing : QualityEvidence → Record → Bool
is_passing q run = not (
    not q.passed
    || not (
        non_empty (
          q.report_id ∷ q.run_id ∷ q.manifest_id ∷ q.manifest_hash ∷ q.threshold_version
          ∷ q.report_hash ∷ []))
    || not (text_eq q.run_id run.run_id)
    || not (text_eq q.manifest_id run.body.manifest_id)
    || not (text_eq q.manifest_hash run.manifest_hash)
    || not (is_sha256 q.manifest_hash)
    || not (is_sha256 q.report_hash)
    || q.completed_at == 0)

-- strings.Join(values, "\x00").
abbrev pub join_zero : List Text → Text
join_zero [] = []
join_zero (s ∷ []) = s
join_zero (s ∷ t ∷ ss) = s ++ (0 ∷ join_zero (t ∷ ss))

module _ (hash_string : Text → Text) where
  -- The locks by run ID.
  abbrev pub PublicationLocker : Type 0
  PublicationLocker = List (Text × PublicationLock)

  abbrev pub new_publication_locker : PublicationLocker
  new_publication_locker = []

  unfoldable pub lock_of : Record → QualityEvidence → GateApproval → ℕ → PublicationLock
  lock_of run qc approval at = record {
    id = derived_id (codes "publication-lock") (
        hash_string (
          join_zero (
            run.run_id ∷ run.body.manifest_id ∷ run.manifest_hash ∷ qc.report_hash
            ∷ approval.decision_id ∷ [])));
    run_id = run.run_id;
    manifest_id = run.body.manifest_id;
    manifest_hash = run.manifest_hash;
    qc = qc;
    approval3 = approval;
    locked_at = at;
  }

  abbrev pub Locking : Type 0
  Locking = PublicationLocker × Result LockError PublicationLock

  -- The part of `Lock` under the mutex, with the lock that the run has.
  abbrev pub put_lock : PublicationLocker → PublicationLock → Option PublicationLock → Locking
  put_lock l k (some existing) =
      if not (text_eq existing.id k.id) then (l, err locked_otherwise) else (l, ok existing)
  put_lock l k none = (insert k.run_id k l, ok k)

  -- `PublicationLocker.Lock`.
  unfoldable pub lock : PublicationLocker → Record → QualityEvidence → GateApproval → ℕ → Locking
  lock l run qc approval at =
      if not (is_success run.state)
        || not (non_empty (run.body.manifest_id ∷ run.manifest_hash ∷ []))
        || not (is_sha256 run.manifest_hash)
      then (l, err not_succeeded)
      else if not (is_passing qc run)
      then (l, err not_passed)
      else if not (is_approved approval gate3 run.body.manifest_id run.manifest_hash)
      then (l, err not_approved)
      else if at == 0 || ltb at approval.decided_at || ltb at qc.completed_at
      then (l, err bad_time)
      else put_lock l (lock_of run qc approval at) (lookup run.run_id l)

  -- The arguments of a call of `Lock`.
  pub record LockCall : Type 0 where
    pub run : Record
    pub qc : QualityEvidence
    pub approval : GateApproval
    pub at : ℕ

  -- The locker after calls in turn, whatever they answer.
  unfoldable pub after_locks : PublicationLocker → List LockCall → PublicationLocker
  after_locks l [] = l
  after_locks l (d ∷ calls) = after_locks (lock l d.run d.qc d.approval d.at).0 calls
