-- ===== src/Production/Revision/Chain.antt =====
-- The chains of the store: every ID of a chain names the revision of its place.
use ai_video_series_workflow.Common.{
  ℕ, ◌+◌, ◌≡◌, refl, ◌∙◌, false, Option, none, some, List, [], ◌∷◌, ◌++◌, arith, length, get_last?,
  if◌then◌else◌, Text, text_eq, text_eq_iff, text_eq-eq, lookup, insert, lookup-insert,
  lookup-insert_free, lookup-insert_self, Bool-cases, inl, inr,
}
use ai_video_series_workflow.Production.Revision.{
  new_revision, CreateRevisionInput, create, append_unless, chain_conflict,
}
use ai_video_series_workflow.Production.RevisionState.{
  Codec, Revision, RevisionStore, chain_of, or_nil, revision_chain_key, latest_id, last_or_empty,
}
use ai_video_series_workflow.Production.Revision.Cases.{
  key_of, fresh_revision, create_cases, settle_cases,
}

-- The IDs from place n on, after the revision of the given ID, name revisions of the key.
abbrev pub Linked : List (Text × Revision) → Text → Text → ℕ → List Text → Type 0
Linked m key parent n [] = Unit {0}
Linked m key parent n (id ∷ ids) =
    ((r : Revision) × (lookup id m ≡ some r)
      × (r.id ≡ id)
      × (revision_chain_key r.kind r.aggregate_id ≡ key)
      × (r.number ≡ n)
      × (r.parent_id ≡ parent))
    × Linked m key id (n + 1) ids

-- Every chain is linked from a first revision that has number 1 and no parent.
abbrev pub IsWellFormed : RevisionStore → Type 0
IsWellFormed s = (key : Text) → Linked s.by_id key [] 1 (chain_of s key)

-- Binding an ID that is free leaves the links.
Linked-insert :
    (m : List (Text × Revision)) (id : Text) (r : Revision)
    → lookup id m ≡ none
    → (key parent : Text) (n : ℕ) (ids : List Text) → Linked m key parent n ids
    → Linked (insert id r m) key parent n ids
Linked-insert m id r free key parent n [] l = tt
Linked-insert m id r free key parent n (i ∷ ids) ((q, found, named, keyed, placed, linked), l) = (
  (q, lookup-insert_free id i r q m free found, named, keyed, placed, linked),
  Linked-insert m id r free key i (n + 1) ids l,
)

abbrev last_or : Text → Option Text → Text
last_or parent none = parent
last_or parent (some id) = id

-- A revision that names the last ID as its parent extends the links.
last_or_any :
    (p q i : Text) (ids : List Text)
    → last_or p (get_last? (i ∷ ids)) ≡ last_or q (get_last? (i ∷ ids))
last_or_any p q i [] = refl
last_or_any p q i (j ∷ ids) = last_or_any p q j ids

Linked-snoc :
    (m : List (Text × Revision)) (key parent : Text) (n : ℕ) (ids : List Text) (r : Revision)
    → Linked m key parent n ids
    → lookup r.id m ≡ some r
    → revision_chain_key r.kind r.aggregate_id ≡ key
    → r.number ≡ n + length ids
    → r.parent_id ≡ last_or parent (get_last? ids)
    → Linked m key parent n (ids ++ r.id ∷ [])
Linked-snoc m key parent n [] r l found k e p = ((r, found, refl, k, omega arith, p), tt)
Linked-snoc m key parent n (i ∷ []) r l found k e p = (l.0, ((r, found, refl, k, e, p), tt))
Linked-snoc m key parent n (i ∷ j ∷ ids) r l found k e p = (
  l.0,
  Linked-snoc m key i (n + 1) (j ∷ ids) r l.1 found k (omega arith)
      (p ∙ last_or_any parent i j ids),
)

pub chain_of-append :
    (s : RevisionStore) (key j id : Text) (m : List (Text × Revision))
    → chain_of (record { by_id = m; chains = insert key (chain_of s key ++ id ∷ []) s.chains }) j
      ≡ (if text_eq key j then chain_of s key ++ id ∷ [] else chain_of s j)
unfolding chain_of
chain_of-append s key j id m =
    ground (arith, lookup-insert key j (or_nil (lookup key s.chains) ++ id ∷ []) s.chains)

latest_last : (o : Option Text) → last_or_empty o ≡ last_or [] o
latest_last none = refl
latest_last (some id) = refl

module _ (c : Codec) where
  -- Appending a revision that has the number and the parent of its place keeps the chains linked.
  append_unless-IsWellFormed :
      (s : RevisionStore) (key : Text) (r : Revision)
      → lookup r.id s.by_id ≡ none
      → IsWellFormed s
      → revision_chain_key r.kind r.aggregate_id ≡ key
      → r.number ≡ length (chain_of s key) + 1
      → r.parent_id ≡ latest_id (chain_of s key)
      → IsWellFormed (append_unless c s key r none).0
  unfolding latest_id
  append_unless-IsWellFormed s key r free w k e p = λ j.
      rw (chain_of-append s key j r.id (insert r.id r s.by_id)) (elim (Bool-cases (text_eq key j)) [
        | inl e' ↦
            rw (e', ← text_eq-eq key j e')
              (Linked-snoc (insert r.id r s.by_id) key [] 1 (chain_of s key) r
                (Linked-insert s.by_id r.id r free key [] 1 (chain_of s key) (w key))
                (lookup-insert_self r.id r s.by_id) k (omega arith)
                (p ∙ latest_last (get_last? (chain_of s key))))
        | inr e' ↦ rw e' (Linked-insert s.by_id r.id r free j [] 1 (chain_of s j) (w j))
      ])

  chain_conflict-parent :
      (s : RevisionStore) (chain : List Text) (input : CreateRevisionInput c)
      → chain_conflict c s chain input ≡ false
      → input.parent_id ≡ latest_id chain
  unfolding chain_conflict
  chain_conflict-parent s chain input h =
      ground (arith, text_eq_iff input.parent_id (latest_id chain))

  -- `Create` keeps every chain linked, whether it appends, finds an existing revision or fails.
  pub create-IsWellFormed :
      (s : RevisionStore) (input : CreateRevisionInput c)
      → IsWellFormed s
      → IsWellFormed (create c s input).0
  unfolding fresh_revision new_revision
  create-IsWellFormed s input w =
      create_cases c (λ o. IsWellFormed o.0) s input (λ _. w)
        λ payload agreed.
          settle_cases c (λ o. IsWellFormed o.0) s input payload (λ _. w)
            λ free.
              append_unless-IsWellFormed s (key_of c input) (fresh_revision c s input payload) free
                w refl refl (chain_conflict-parent s (chain_of s (key_of c input)) input agreed)
