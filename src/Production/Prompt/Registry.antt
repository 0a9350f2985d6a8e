-- ===== src/Production/Prompt/Registry.antt =====
-- The registry of prompts holds only snapshots whose hashes check, and never changes one.
use ai_video_series_workflow.Common.{
  ◌≡◌, sym, ◌+◌, none, some, List, [], ◌∷◌, ◌++◌, length, inl, inr, Text, text_eq, pos, lookup,
  insert, lookup-insert, lookup-insert_free, Bool-cases, Option-cases,
}
use ai_video_series_workflow.Production.Prompt.{
  PromptCodec, Snapshot, validate_integrity, PromptRegistry, new_prompt_registry, chain_of_shot,
  put, after_puts,
}

module _ (c : PromptCodec) where
  -- The snapshot with the number that `Put` gives it.
  abbrev pub numbered : PromptRegistry c → Snapshot c → Snapshot c
  numbered r p = record p {
    revision_number = pos (length (chain_of_shot c r p.shot_revision.aggregate_id) + 1);
  }

  -- The registry with one more snapshot, which is numbered.
  abbrev pub extended : PromptRegistry c → Snapshot c → PromptRegistry c
  extended r p = record {
    by_id = insert p.id (c.clone p) r.by_id;
    by_shot =
        insert p.shot_revision.aggregate_id
          (chain_of_shot c r p.shot_revision.aggregate_id ++ p.id ∷ []) r.by_shot;
  }

  -- `Put` leaves the registry, or adds the clone of a new snapshot that is valid.
  put_cases {ℓ} :
      (P : PromptRegistry c → Type ℓ) (r : PromptRegistry c) (p : Snapshot c)
      → P r
      → (lookup p.id r.by_id ≡ none
          → validate_integrity c (c.clone (numbered r p)) ≡ none
          → P (extended r (numbered r p)))
      → P (put c r p).0
  unfolding put
  put_cases P r p same added = elim (Option-cases (validate_integrity c p)) [
    | inr (x, a) ↦ rw a same
    | inl a ↦ elim (Option-cases (lookup p.id r.by_id)) [
      | inr (existing, b) ↦ elim (Bool-cases (text_eq existing.content_hash p.content_hash)) [
        | inl e ↦ rw (a, b, e) same
        | inr e ↦ rw (a, b, e) same
      ]
      | inl b ↦ elim (Option-cases (validate_integrity c (c.clone (numbered r p)))) [
        | inl d ↦ rw (a, b, d) (added b d)
        | inr (x, d) ↦ rw (a, b, d) same
      ]
    ]
  ]

  puts-keep :
      (r : PromptRegistry c) (puts : List (Snapshot c)) (id : Text) (p : Snapshot c)
      → lookup id r.by_id ≡ some p
      → lookup id (after_puts c r puts).by_id ≡ some p
  unfolding after_puts
  puts-keep r [] id p h = h
  puts-keep r (q ∷ puts) id p h = puts-keep (put c r q).0 puts id p (
      put_cases (λ m. lookup id m.by_id ≡ some p) r q h
        λ free valid. lookup-insert_free q.id id (c.clone (numbered r q)) p r.by_id free h)

  AreValid : PromptRegistry c → Type 0
  AreValid r =
      (id : Text) (p : Snapshot c) → lookup id r.by_id ≡ some p → validate_integrity c p ≡ none

  inserted-AreValid :
      (r : PromptRegistry c) (q : Snapshot c)
      → validate_integrity c (c.clone q) ≡ none
      → AreValid r
      → AreValid (extended r q)
  unfolding AreValid
  inserted-AreValid r q valid all j p h = elim (Bool-cases (text_eq q.id j)) [
    | inr e ↦ all j p (rw (lookup-insert q.id j (c.clone q) r.by_id, e) at h)
    | inl e ↦
        let found = rw (lookup-insert q.id j (c.clone q) r.by_id, e) at h in
        let same : c.clone q ≡ p = cc in rw (sym same) valid
  ]

  puts-AreValid :
      (r : PromptRegistry c) (puts : List (Snapshot c))
      → AreValid r
      → AreValid (after_puts c r puts)
  unfolding after_puts
  puts-AreValid r [] all = all
  puts-AreValid r (q ∷ puts) all =
      puts-AreValid (put c r q).0 puts
        (put_cases AreValid r q all λ free valid. inserted-AreValid r (numbered r q) valid all)

  -- After any calls of `Put` on a new registry, the snapshot that is bound to an ID has the content hash, the
  -- normalized hash and the ID that its fields give, and complete fields; and it stays the one of the ID
  -- after any more calls.
  pub registered-valid :
      (puts more : List (Snapshot c)) (id : Text) (p : Snapshot c)
      → lookup id (after_puts c (new_prompt_registry c) puts).by_id ≡ some p
      → (validate_integrity c p ≡ none)
        × (lookup id (after_puts c (after_puts c (new_prompt_registry c) puts) more).by_id ≡ some p)
  unfolding AreValid lookup
  registered-valid puts more id p h = (
    puts-AreValid (new_prompt_registry c) puts (λ j q e. absurd (clash e)) id p h,
    puts-keep (after_puts c (new_prompt_registry c) puts) more id p h,
  )
    where
      clash : {q : Snapshot c} → none ≡ some q → ⊥
      clash e = cc
