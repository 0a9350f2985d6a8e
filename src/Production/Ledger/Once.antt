-- ===== src/Production/Ledger/Once.antt =====
-- A run that has begun is the only one of its key, and a run that has ended is never changed.
use ai_video_series_workflow.Common.{
  ◌≡◌, refl, sym, ap, ◌∙◌, inl, inr, Bool, true, false, not, ◌||◌, Option, none, some, List, [],
  ◌∷◌, ◌==◌, Text, text_eq, text_eq-eq, arith, lookup, insert, lookup-insert, lookup-insert_self,
  lookup-insert_free, ok, err, if◌then◌else◌, Bool-cases, Option-cases,
}
use ai_video_series_workflow.Production.Ledger.{
  RunRecord, RunLedger, is_running, LedgerError, key_reused, run_id_reused, begin, begin_key,
  begin_run, replay, or_nil_run, complete, LedgerCall, begins, completes, after_call, after_calls,
}

module _ (Body : Type 0) (nil_body : Body) where
  -- What the ledger keeps of a record under its run ID.
  pub record IsKept (l : RunLedger Body) (r : RunRecord Body) : Type 0 where
    pub kept : RunRecord Body
    pub stands : lookup r.run_id l.by_run_id ≡ some kept
    pub same_run : kept.run_id ≡ r.run_id
    pub same_request : kept.request_hash ≡ r.request_hash
    pub settled : is_running r.state ≡ false → kept ≡ r

  IsKept-refl :
      (l : RunLedger Body) (r : RunRecord Body) → lookup r.run_id l.by_run_id ≡ some r → IsKept l r
  IsKept-refl l r h = record {
    kept = r;
    stands = h;
    same_run = refl;
    same_request = refl;
    settled = λ _. refl;
  }

  -- The two ledgers that a call may lead to, beside the one of before.
  begin_cases {ℓ} :
      (P : RunLedger Body → Type ℓ) (l : RunLedger Body) (r : RunRecord Body)
      → P l
      → (lookup r.idempotency_key l.by_idempotency ≡ none
          → lookup r.run_id l.by_run_id ≡ none
          → P (record {
            by_run_id = insert r.run_id r l.by_run_id;
            by_idempotency = insert r.idempotency_key r.run_id l.by_idempotency;
          }))
      → P (begin Body nil_body l r).0
  unfolding begin
  begin_cases P l r same fresh = elim (Option-cases (lookup r.idempotency_key l.by_idempotency)) [
    | inr (id, e) ↦ rw e (kept_ledger (or_nil_run Body nil_body (lookup id l.by_run_id)) key_reused)
    | inl e ↦ elim (Option-cases (lookup r.run_id l.by_run_id)) [
      | inl d ↦ rw (e, d) (fresh e d)
      | inr (existing, d) ↦ rw (e, d) (kept_ledger existing run_id_reused)
    ]
  ]
    where
      kept_ledger : (existing : RunRecord Body) (x : LedgerError) → P (replay Body l r existing x).0
      kept_ledger existing x = elim (Bool-cases (text_eq existing.request_hash r.request_hash)) [
        | inl e ↦ rw e same
        | inr e ↦ rw e same
      ]

  complete_cases {ℓ} :
      (P : RunLedger Body → Type ℓ) (l : RunLedger Body) (r : RunRecord Body)
      → P l
      → ((existing : RunRecord Body)
          → lookup r.run_id l.by_run_id ≡ some existing
          → text_eq existing.request_hash r.request_hash ≡ true
          → is_running existing.state ≡ true
          → P (record l { by_run_id = insert r.run_id r l.by_run_id }))
      → P (complete Body l r).0
  unfolding complete
  complete_cases P l r same replaced =
      elim (Bool-cases (is_running r.state || r.finished_at == 0)) [
        | inl e ↦ rw e same
        | inr e ↦ elim (Option-cases (lookup r.run_id l.by_run_id)) [
          | inl d ↦ rw (e, d) same
          | inr (x, d) ↦ elim (Bool-cases (text_eq x.request_hash r.request_hash)) [
            | inr a ↦ rw (e, d, a) same
            | inl a ↦ elim (Bool-cases (is_running x.state)) [
              | inl b ↦ rw (e, d, a, b) (replaced x d a b)
              | inr b ↦
                  elim (Bool-cases (
                    not (text_eq x.manifest_hash r.manifest_hash)
                    || not (text_eq x.error_code r.error_code))) [
                      | inl c ↦ rw (e, d, a, b, c) same
                      | inr c ↦ rw (e, d, a, b, c) same
                    ]
            ]
          ]
        ]
      ]

  begin-IsKept :
      (l : RunLedger Body) (q r : RunRecord Body)
      → lookup r.run_id l.by_run_id ≡ some r
      → IsKept (begin Body nil_body l q).0 r
  begin-IsKept l q r h =
      begin_cases (λ m. IsKept m r) l q (IsKept-refl l r h)
        λ _ free. IsKept-refl _ r (lookup-insert_free q.run_id r.run_id q r l.by_run_id free h)

  complete-IsKept :
      (l : RunLedger Body) (q r : RunRecord Body)
      → lookup r.run_id l.by_run_id ≡ some r
      → IsKept (complete Body l q).0 r
  complete-IsKept l q r h =
      complete_cases (λ m. IsKept m r) l q (IsKept-refl l r h)
        λ existing found hash runs. elim (Bool-cases (text_eq q.run_id r.run_id)) [
          | inr e ↦ IsKept-refl _ r (rw (lookup-insert q.run_id r.run_id q l.by_run_id, e) h)
          | inl e ↦
              let there = text_eq-eq q.run_id r.run_id e in
              let whole : existing ≡ r = cc in
              record {
                kept = q;
                stands = rw (lookup-insert q.run_id r.run_id q l.by_run_id, e) refl;
                same_run = there;
                same_request =
                    sym (text_eq-eq existing.request_hash q.request_hash hash)
                    ∙ ap (λ x. x.request_hash) whole;
                settled = λ s. absurd (clash (sym runs ∙ ap (λ x. is_running x.state) whole ∙ s));
              }
        ]
    where
      clash : true ≡ false → ⊥
      clash e = cc

  IsKept-trans :
      (l m : RunLedger Body) (r : RunRecord Body) → (k : IsKept l r) → IsKept m k.kept → IsKept m r
  IsKept-trans l m r k n = record {
    kept = n.kept;
    stands = ap (λ i. lookup i m.by_run_id) (sym k.same_run) ∙ n.stands;
    same_run = n.same_run ∙ k.same_run;
    same_request = n.same_request ∙ k.same_request;
    settled =
        λ s. let first = k.settled s in n.settled (ap (λ x. is_running x.state) first ∙ s) ∙ first;
  }

  call-IsKept :
      (l : RunLedger Body) (d : LedgerCall Body nil_body) (r : RunRecord Body)
      → lookup r.run_id l.by_run_id ≡ some r
      → IsKept (after_call Body nil_body l d) r
  unfolding after_call
  call-IsKept l (begins q) r h = begin-IsKept l q r h
  call-IsKept l (completes q) r h = complete-IsKept l q r h

  -- A record that stands under its run ID is followed, over any calls of `Begin` and `Complete`, by a
  -- record under the same run ID of the same request, and by itself if its state is not running.
  pub calls-IsKept :
      (l : RunLedger Body) (ds : List (LedgerCall Body nil_body)) (r : RunRecord Body)
      → lookup r.run_id l.by_run_id ≡ some r
      → IsKept (after_calls Body nil_body l ds) r
  unfolding after_calls
  calls-IsKept l [] r h = IsKept-refl l r h
  calls-IsKept l (d ∷ ds) r h =
      let k = call-IsKept l d r h in
      IsKept-trans (after_call Body nil_body l d) (after_calls Body nil_body l (d ∷ ds)) r k (
        calls-IsKept (after_call Body nil_body l d) ds k.kept
          (ap (λ i. lookup i (after_call Body nil_body l d).by_run_id) k.same_run ∙ k.stands))

  call-key :
      (l : RunLedger Body) (d : LedgerCall Body nil_body) (key id : Text)
      → lookup key l.by_idempotency ≡ some id
      → lookup key (after_call Body nil_body l d).by_idempotency ≡ some id
  unfolding after_call
  call-key l (begins q) key id h =
      begin_cases (λ m. lookup key m.by_idempotency ≡ some id) l q h
        λ free _. lookup-insert_free q.idempotency_key key q.run_id id l.by_idempotency free h
  call-key l (completes q) key id h =
      complete_cases (λ m. lookup key m.by_idempotency ≡ some id) l q h λ _ _ _ _. h

  calls-key :
      (l : RunLedger Body) (ds : List (LedgerCall Body nil_body)) (key id : Text)
      → lookup key l.by_idempotency ≡ some id
      → lookup key (after_calls Body nil_body l ds).by_idempotency ≡ some id
  unfolding after_calls
  calls-key l [] key id h = h
  calls-key l (d ∷ ds) key id h =
      calls-key (after_call Body nil_body l d) ds key id (call-key l d key id h)

  replay-begun :
      (l : RunLedger Body) (q existing r : RunRecord Body) (x : LedgerError) (b : Bool)
      → (replay Body l q existing x).1 ≡ ok (r, b)
      → b ≡ true
  replay-begun l q existing r x b h = ground (arith, h)

  begin-fresh :
      (l : RunLedger Body) (q r : RunRecord Body)
      → (begin Body nil_body l q).1 ≡ ok (r, false)
      → (lookup q.idempotency_key (begin Body nil_body l q).0.by_idempotency ≡ some q.run_id)
        × (lookup q.run_id (begin Body nil_body l q).0.by_run_id ≡ some q)
  unfolding begin
  begin-fresh l q r h = split (lookup q.idempotency_key l.by_idempotency) h
    where
      not_replayed : false ≡ true → ⊥
      not_replayed e = cc

      started :
          (o : Option (RunRecord Body))
          → (begin_run Body l q o).1 ≡ ok (r, false)
          → (lookup q.idempotency_key (begin_run Body l q o).0.by_idempotency ≡ some q.run_id)
            × (lookup q.run_id (begin_run Body l q o).0.by_run_id ≡ some q)
      started (some existing) k =
          absurd (not_replayed (replay-begun l q existing r run_id_reused false k))
      started none k = (
        lookup-insert_self q.idempotency_key q.run_id l.by_idempotency,
        lookup-insert_self q.run_id q l.by_run_id,
      )

      split :
          (o : Option Text)
          → (begin_key Body nil_body l q o).1 ≡ ok (r, false)
          → (lookup q.idempotency_key (begin_key Body nil_body l q o).0.by_idempotency
              ≡ some q.run_id)
            × (lookup q.run_id (begin_key Body nil_body l q o).0.by_run_id ≡ some q)
      split (some id) k = absurd (not_replayed (replay-begun l q _ r key_reused false k))
      split none k = started (lookup q.run_id l.by_run_id) k

  again :
      (m : RunLedger Body) (q p : RunRecord Body) (k : IsKept m q)
      → p.idempotency_key ≡ q.idempotency_key
      → lookup q.idempotency_key m.by_idempotency ≡ some q.run_id
      → begin Body nil_body m p ≡ (
          if text_eq q.request_hash p.request_hash
          then (m, ok (k.kept, true))
          else (m, err key_reused))
  unfolding begin
  again m q p k same key = elim (Bool-cases (text_eq q.request_hash p.request_hash)) [
    | inl e ↦ rw (same, key, k.stands, k.same_request, e) refl
    | inr e ↦ rw (same, key, k.stands, k.same_request, e) refl
  ]

  -- Once `Begin` has answered that a run is new, after any calls of `Begin` and `Complete` a `Begin`
  -- with the same idempotency key and request hash answers the run of the same ID as a replay, with
  -- that request hash, and one with another request hash fails; neither changes the ledger.
  pub begin-once :
      (l : RunLedger Body) (q p r : RunRecord Body) (ds : List (LedgerCall Body nil_body))
      → (begin Body nil_body l q).1 ≡ ok (r, false)
      → p.idempotency_key ≡ q.idempotency_key
      → let m = after_calls Body nil_body (begin Body nil_body l q).0 ds in
        (kept : RunRecord Body) × (kept.run_id ≡ q.run_id)
        × (kept.request_hash ≡ q.request_hash)
        × (begin Body nil_body m p ≡ (
            if text_eq q.request_hash p.request_hash
            then (m, ok (kept, true))
            else (m, err key_reused)))
  begin-once l q p r ds h same =
      let (key, stands) = begin-fresh l q r h in
      let k = calls-IsKept (begin Body nil_body l q).0 ds q stands in
      let key' = calls-key (begin Body nil_body l q).0 ds q.idempotency_key q.run_id key in
      (k.kept, k.same_run, k.same_request, again _ q p k same key')
