-- ===== src/Production/Revision/Immutable.antt =====
-- Whatever is called, and in whatever order, a revision once in the store is never changed or lost.
use mathlib.Core.List.{append_assoc, append-nil}
use ai_video_series_workflow.Common.{
  ℕ, ◌≡◌, refl, sym, ap, ◌∙◌, Option, none, some, List, [], ◌∷◌, ◌++◌, ◌&&◌, Text, lookup, insert,
  text_eq, text_eq-eq, lookup-insert_free, all, &&-true, true, Result, err, Bool-cases, inl, inr,
}
use ai_video_series_workflow.Production.Revision.{
  CreateRevisionInput, Outcome, create, create_next, rollback, rollback_to, rollback_from,
  rollback_decoded, latest, get, next_input, rollback_input,
}
use ai_video_series_workflow.Production.RevisionState.{
  Codec, Revision, RevisionStore, chain_of, revision_chain_key, ProductionError, not_found,
  decoding, new_revision_store,
}
use ai_video_series_workflow.Production.Revision.Cases.{
  key_of, fresh_revision, create_cases, settle_cases,
}
use ai_video_series_workflow.Production.Revision.Keys.{
  is_plain, IsPlain, IsChain, Linked-IsChain, create-IsPlain,
}
use ai_video_series_workflow.Production.Revision.Chain.{
  IsWellFormed, create-IsWellFormed, chain_of-append,
}

-- The later store has every revision of the earlier one, and its chains go on where those end.
pub record Extends (s t : RevisionStore) : Type 0 where
  pub keeps : (id : Text) (r : Revision) → lookup id s.by_id ≡ some r → lookup id t.by_id ≡ some r
  pub appends : (key : Text) → (ids : List Text) × (chain_of t key ≡ chain_of s key ++ ids)

Extends-refl : (s : RevisionStore) → Extends s s
Extends-refl s = record { keeps = λ _ _ h. h; appends = λ key. ([], sym (append-nil _)) }

Extends-trans : {s t u : RevisionStore} → Extends s t → Extends t u → Extends s u
Extends-trans {s} a b = record {
  keeps = λ id r h. b.keeps id r (a.keeps id r h);
  appends = λ key.
      let (xs, p) = a.appends key in
      let (ys, q) = b.appends key in
      (xs ++ ys, q ∙ ap (λ zs. zs ++ ys) p ∙ append_assoc (chain_of s key) xs ys);
}

grown :
    (s : RevisionStore) (key id : Text) (m : List (Text × Revision)) (j : Text)
    → (ids : List Text) × (chain_of
          (record { by_id = m; chains = insert key (chain_of s key ++ id ∷ []) s.chains })
          j
        ≡ chain_of s j ++ ids)
grown s key id m j = elim (Bool-cases (text_eq key j)) [
  | inl e ↦ (id ∷ [], rw (chain_of-append s key j id m, e, text_eq-eq key j e) refl)
  | inr e ↦ ([], rw (chain_of-append s key j id m, e) (sym (append-nil _)))
]

module _ (c : Codec) where
  open c use {Value, unmarshal}

  pub create-Extends :
      (s : RevisionStore) (input : CreateRevisionInput c) → Extends s (create c s input).0
  create-Extends s input =
      create_cases c (λ o. Extends s o.0) s input (λ _. Extends-refl s)
        λ payload _.
          settle_cases c (λ o. Extends s o.0) s input payload (λ _. Extends-refl s)
            λ free. record {
              keeps = λ id r h. lookup-insert_free _ id _ r s.by_id free h;
              appends =
                  grown s (key_of c input) (fresh_revision c s input payload).id
                    (insert _ (fresh_revision c s input payload) s.by_id);
            }

  -- The calls that change the store.
  pub data Call : Type 0 where
    creates : CreateRevisionInput c → Call
    creates_next : Text → Text → Option Value → List Text → Text → ℕ → Call
    rolls_back : Text → Text → Text → Text → ℕ → Call

  unfoldable pub call : RevisionStore → Call → Outcome c
  call s (creates input) = create c s input
  call s (creates_next kind aggregate payload evidence actor at) =
      create_next c s kind aggregate payload evidence actor at
  call s (rolls_back kind aggregate target actor at) = rollback c s kind aggregate target actor at

  unfoldable pub run : RevisionStore → List Call → RevisionStore
  run s [] = s
  run s (d ∷ ds) = run (call s d).0 ds

  abbrev pub kind_of : Call → Text
  kind_of (creates input) = input.kind
  kind_of (creates_next kind aggregate payload evidence actor at) = kind
  kind_of (rolls_back kind aggregate target actor at) = kind

  -- A call either fails and leaves the store, or is a call of `Create` for its kind.
  rollback_cases {ℓ} :
      (P : Outcome c → Type ℓ) (s : RevisionStore) (kind aggregate target actor : Text) (at : ℕ)
      → ((o : Result ProductionError Revision) → P (s, o))
      → ((input : CreateRevisionInput c) → input.kind ≡ kind → P (create c s input))
      → P (rollback c s kind aggregate target actor at)
  unfolding rollback rollback_input
  rollback_cases P s kind aggregate target actor at failed created = to (get s target)
    where
      decoded :
          (r n : Revision) (o : Option (Option c.Value))
          → P (rollback_decoded c s kind aggregate r n o actor at)
      decoded r n none = failed (err decoding)
      decoded r n (some v) = created (rollback_input c kind aggregate r n v actor at) refl

      from :
          (r : Revision) (o : Option Revision) → P (rollback_from c s kind aggregate r o actor at)
      from r none = failed (err not_found)
      from r (some n) = decoded r n (unmarshal r.payload)

      to : (o : Option Revision) → P (rollback_to c s kind aggregate o actor at)
      to none = failed (err not_found)
      to (some r) = elim (Bool-cases (text_eq r.kind kind && text_eq r.aggregate_id aggregate)) [
        | inl e ↦ rw e (from r (latest s kind aggregate))
        | inr e ↦ rw e (failed (err not_found))
      ]

  call_cases {ℓ} :
      (P : Outcome c → Type ℓ) (s : RevisionStore) (d : Call)
      → ((o : Result ProductionError Revision) → P (s, o))
      → ((input : CreateRevisionInput c) → input.kind ≡ kind_of d → P (create c s input))
      → P (call s d)
  unfolding call create_next next_input
  call_cases P s (creates input) failed created = created input refl
  call_cases P s (creates_next kind aggregate payload evidence actor at) failed created =
      created (next_input c s kind aggregate payload evidence actor at) refl
  call_cases P s (rolls_back kind aggregate target actor at) failed created =
      rollback_cases P s kind aggregate target actor at failed created

  -- Over any calls of `Create`, `CreateNext` and `Rollback`, failed ones included, every revision
  -- that the store holds stays what it is, and every chain is only extended at its end.
  pub run-Extends : (s : RevisionStore) (ds : List Call) → Extends s (run s ds)
  unfolding run
  run-Extends s [] = Extends-refl s
  run-Extends s (d ∷ ds) =
      Extends-trans
        (call_cases (λ o. Extends s o.0) s d (λ _. Extends-refl s) λ i same. create-Extends s i)
        (run-Extends (call s d).0 ds)

  run_from-IsWellFormed :
      (s : RevisionStore) (ds : List Call) → IsWellFormed s → IsWellFormed (run s ds)
  unfolding run
  run_from-IsWellFormed s [] w = w
  run_from-IsWellFormed s (d ∷ ds) w =
      run_from-IsWellFormed (call s d).0 ds
        (call_cases (λ o. IsWellFormed o.0) s d (λ _. w) λ i same. create-IsWellFormed c s i w)

  run_from-IsPlain :
      (s : RevisionStore) (ds : List Call)
      → all (λ d. is_plain (kind_of d)) ds ≡ true
      → IsPlain s.by_id
      → IsPlain (run s ds).by_id
  unfolding run
  run_from-IsPlain s [] p plain = plain
  run_from-IsPlain s (d ∷ ds) p plain =
      let (first, rest) = &&-true (is_plain (kind_of d)) _ p in
      run_from-IsPlain (call s d).0 ds rest (
        call_cases (λ o. IsPlain o.0.by_id) s d (λ _. plain)
          λ i same. create-IsPlain c s i (ap is_plain same ∙ first) plain)

  -- After any calls on a new store whose kinds have no NUL, the n-th ID of the chain of such a kind and
  -- of an aggregate names a revision in the store of that kind and of that aggregate, which has that ID,
  -- the number n, and the ID before it as its parent, "" for the first.
  pub run-IsWellFormed :
      (ds : List Call) (kind aggregate : Text)
      → all (λ d. is_plain (kind_of d)) ds ≡ true
      → is_plain kind ≡ true
      → let s = run new_revision_store ds in
        IsChain s.by_id kind aggregate [] 1 (chain_of s (revision_chain_key kind aggregate))
  unfolding run chain_of lookup
  run-IsWellFormed ds kind aggregate calls plain =
      let s = run new_revision_store ds in
      Linked-IsChain s.by_id kind aggregate [] 1 _
        (run_from-IsPlain new_revision_store ds calls λ id r h. cc) plain
        (run_from-IsWellFormed new_revision_store ds (λ key. tt)
          (revision_chain_key kind aggregate))
