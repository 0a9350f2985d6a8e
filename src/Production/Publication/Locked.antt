-- ===== src/Production/Publication/Locked.antt =====
-- A publication lock binds passing evidence and an approval to one manifest, and never changes.
use ai_video_series_workflow.Common.{
  ◌≡◌, refl, sym, ◌≤◌, ℕ, true, false, not, ◌||◌, Option, none, some, List, [], ◌∷◌, ltb, ◌==◌, inl,
  inr, Text, text_eq, text_eq-eq, is_sha256, arith, lookup, insert, lookup-insert,
  lookup-insert_free, Bool-cases,
}
use ai_video_series_workflow.Production.RevisionState.{non_empty}
use ai_video_series_workflow.Production.Refs.{GateApproval, gate3, is_approved}
use ai_video_series_workflow.Production.Refs.Binding.{IsBoundApproval, approved-IsBoundApproval}
use ai_video_series_workflow.Production.Loops.{Record, is_success}
use ai_video_series_workflow.Production.Publication.{
  QualityEvidence, PublicationLock, is_passing, PublicationLocker, lock_of, put_lock, lock,
  LockCall, after_locks,
}

-- The lock `k` of the run ID binds what passed to one manifest, after the decisions.
pub record IsPublishable (id : Text) (k : PublicationLock) : Type 0 where
  pub same_run : k.run_id ≡ id
  pub passed : k.qc.passed ≡ true
  pub checked_run : k.qc.run_id ≡ id
  pub checked_manifest : k.qc.manifest_id ≡ k.manifest_id
  pub checked_hash : k.qc.manifest_hash ≡ k.manifest_hash
  pub approved : IsBoundApproval k.approval3 gate3 k.manifest_id k.manifest_hash
  pub after_check : k.qc.completed_at ≤ k.locked_at
  pub after_approval : k.approval3.decided_at ≤ k.locked_at

module _ (hash_string : Text → Text) where
  passing-IsPublishable :
      (run : Record) (qc : QualityEvidence) (approval : GateApproval) (at : ℕ)
      → is_passing qc run ≡ true
      → is_approved approval gate3 run.body.manifest_id run.manifest_hash ≡ true
      → (at == 0 || ltb at approval.decided_at || ltb at qc.completed_at) ≡ false
      → IsPublishable run.run_id (lock_of hash_string run qc approval at)
  unfolding is_passing lock_of
  passing-IsPublishable run qc approval at passes approves dated = record {
    same_run = refl;
    passed = ground (arith, passes);
    checked_run = text_eq-eq qc.run_id run.run_id (ground (arith, passes));
    checked_manifest = text_eq-eq qc.manifest_id run.body.manifest_id (ground (arith, passes));
    checked_hash = text_eq-eq qc.manifest_hash run.manifest_hash (ground (arith, passes));
    approved =
        approved-IsBoundApproval approval gate3 run.body.manifest_id run.manifest_hash approves;
    after_check = ground (arith, dated);
    after_approval = ground (arith, dated);
  }

  -- A call leaves the locks, or adds the one of a run that has none.
  lock_cases {ℓ} :
      (P : PublicationLocker hash_string → Type ℓ) (l : PublicationLocker hash_string)
      (d : LockCall hash_string)
      → P l
      → (lookup d.run.run_id l ≡ none
          → IsPublishable d.run.run_id (lock_of hash_string d.run d.qc d.approval d.at)
          → P (insert d.run.run_id (lock_of hash_string d.run d.qc d.approval d.at) l))
      → P (lock hash_string l d.run d.qc d.approval d.at).0
  unfolding lock lock_of
  lock_cases P l d same added =
      elim (Bool-cases (
        not (is_success d.run.state)
        || not (non_empty (d.run.body.manifest_id ∷ d.run.manifest_hash ∷ []))
        || not (is_sha256 d.run.manifest_hash))) [
          | inl a ↦ rw a same
          | inr a ↦ elim (Bool-cases (is_passing d.qc d.run)) [
            | inr b ↦ rw (a, b) same
            | inl b ↦
                elim (Bool-cases
                  (is_approved d.approval gate3 d.run.body.manifest_id d.run.manifest_hash)) [
                    | inr x ↦ rw (a, b, x) same
                    | inl x ↦
                        elim (Bool-cases (
                          d.at == 0
                          || ltb d.at d.approval.decided_at
                          || ltb d.at d.qc.completed_at)) [
                            | inl y ↦ rw (a, b, x, y) same
                            | inr y ↦
                                rw (a, b, x, y)
                                  (put (lookup d.run.run_id l) refl
                                    (passing-IsPublishable d.run d.qc d.approval d.at b x y))
                          ]
                  ]
          ]
        ]
    where
      put :
          (o : Option PublicationLock)
          → lookup d.run.run_id l ≡ o
          → IsPublishable d.run.run_id (lock_of hash_string d.run d.qc d.approval d.at)
          → P (put_lock hash_string l (lock_of hash_string d.run d.qc d.approval d.at) o).0
      put none free sound = added free sound
      put (some existing) there sound =
          elim (Bool-cases
            (text_eq existing.id (lock_of hash_string d.run d.qc d.approval d.at).id)) [
              | inl e ↦ rw e same
              | inr e ↦ rw e same
            ]

  locks-keep :
      (l : PublicationLocker hash_string) (calls : List (LockCall hash_string)) (id : Text)
      (k : PublicationLock)
      → lookup id l ≡ some k
      → lookup id (after_locks hash_string l calls) ≡ some k
  unfolding after_locks
  locks-keep l [] id k h = h
  locks-keep l (d ∷ calls) id k h =
      locks-keep (lock hash_string l d.run d.qc d.approval d.at).0 calls id k (
        lock_cases (λ m. lookup id m ≡ some k) l d h
          λ free sound.
            lookup-insert_free d.run.run_id id (lock_of hash_string d.run d.qc d.approval d.at) k l
              free h)

  -- Every lock of the map is publishable.
  AreSound : PublicationLocker hash_string → Type 0
  AreSound l = (id : Text) (k : PublicationLock) → lookup id l ≡ some k → IsPublishable id k

  inserted-AreSound :
      (l : PublicationLocker hash_string) (id : Text) (k : PublicationLock)
      → IsPublishable id k
      → AreSound l
      → AreSound (insert id k l)
  unfolding AreSound
  inserted-AreSound l id k sound all j q h = elim (Bool-cases (text_eq id j)) [
    | inr e ↦ all j q (rw (lookup-insert id j k l, e) at h)
    | inl e ↦
        let found = rw (lookup-insert id j k l, e) at h in
        let same : k ≡ q = cc in rw (sym (text_eq-eq id j e), sym same) sound
  ]

  locks-AreSound :
      (l : PublicationLocker hash_string) (calls : List (LockCall hash_string))
      → AreSound l
      → AreSound (after_locks hash_string l calls)
  unfolding after_locks
  locks-AreSound l [] all = all
  locks-AreSound l (d ∷ calls) all =
      locks-AreSound (lock hash_string l d.run d.qc d.approval d.at).0 calls (
        lock_cases AreSound l d all λ free sound.
          inserted-AreSound l d.run.run_id (lock_of hash_string d.run d.qc d.approval d.at) sound
            all)

  -- After any calls of `Lock` on a new locker, the lock of a run has passing evidence for this run and
  -- for the lock's manifest, and an approval of the third gate for the same manifest, which both come
  -- before it; and it stands after any more calls.
  pub locked-IsPublishable :
      (calls more : List (LockCall hash_string)) (id : Text) (k : PublicationLock)
      → lookup id (after_locks hash_string [] calls) ≡ some k
      → IsPublishable id k
        × (lookup id (after_locks hash_string (after_locks hash_string [] calls) more) ≡ some k)
  unfolding AreSound lookup
  locked-IsPublishable calls more id k h = (
    locks-AreSound [] calls (λ j q e. absurd (clash e)) id k h,
    locks-keep (after_locks hash_string [] calls) more id k h,
  )
    where
      clash : {q : PublicationLock} → none ≡ some q → ⊥
      clash e = cc
