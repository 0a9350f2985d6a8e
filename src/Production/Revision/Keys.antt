-- ===== src/Production/Revision/Keys.antt =====
-- The keys of the chains. `revisionChainKey` joins the kind and the aggregate with a NUL, so that only
-- kinds without one keep the chains apart.
use ai_video_series_workflow.Common.{
  ℕ, ◌+◌, ◌≡◌, refl, sym, ap₂, Bool, true, not, some, List, [], ◌∷◌, ◌++◌, arith, ◌==◌, Text,
  text_eq, lookup, insert, lookup-insert, all, &&-true, Bool-cases, inl, inr,
}
use ai_video_series_workflow.Production.Revision.{CreateRevisionInput, create, new_revision}
use ai_video_series_workflow.Production.RevisionState.{
  Codec, Revision, RevisionStore, revision_chain_key,
}
use ai_video_series_workflow.Production.Revision.Cases.{fresh_revision, create_cases, settle_cases}
use ai_video_series_workflow.Production.Revision.Chain.{Linked}

-- A kind without a NUL.
abbrev pub is_plain : Text → Bool
is_plain kind = all (λ c. not (c == 0)) kind

clash_zero : (c : ℕ) (s : Text) → c ≡ 0 → is_plain (c ∷ s) ≡ true → ⊥
clash_zero c s e h = ground (arith, e, h)

revision_chain_key-injective :
    (kind kind' aggregate aggregate' : Text)
    → is_plain kind ≡ true
    → is_plain kind' ≡ true
    → revision_chain_key kind aggregate ≡ revision_chain_key kind' aggregate'
    → (kind ≡ kind') × (aggregate ≡ aggregate')
unfolding revision_chain_key
revision_chain_key-injective [] [] a a' p p' e = let same : a ≡ a' = cc in (refl, same)
revision_chain_key-injective [] (d ∷ kind') a a' p p' e =
    let zero : d ≡ 0 = cc in absurd (clash_zero d kind' zero p')
revision_chain_key-injective (d ∷ kind) [] a a' p p' e =
    let zero : d ≡ 0 = cc in absurd (clash_zero d kind zero p)
revision_chain_key-injective (d ∷ kind) (d' ∷ kind') a a' p p' e =
    let first : d ≡ d' = cc in
    let rest : kind ++ (0 ∷ a) ≡ kind' ++ (0 ∷ a') = cc in
    let (same, same') =
      revision_chain_key-injective kind kind' a a' (&&-true (not (d == 0)) _ p).1
        (&&-true (not (d' == 0)) _ p').1 rest in
    (ap₂ ◌∷◌ first same, same')

-- The IDs from place n on, after the revision of the given ID, name revisions of the kind and aggregate.
abbrev pub IsChain : List (Text × Revision) → Text → Text → Text → ℕ → List Text → Type 0
IsChain m kind aggregate parent n [] = Unit {0}
IsChain m kind aggregate parent n (id ∷ ids) =
    ((r : Revision) × (lookup id m ≡ some r)
      × (r.id ≡ id)
      × (r.kind ≡ kind)
      × (r.aggregate_id ≡ aggregate)
      × (r.number ≡ n)
      × (r.parent_id ≡ parent))
    × IsChain m kind aggregate id (n + 1) ids

-- No revision of the store has a kind with a NUL.
abbrev pub IsPlain : List (Text × Revision) → Type 0
IsPlain m = (id : Text) (r : Revision) → lookup id m ≡ some r → is_plain r.kind ≡ true

pub Linked-IsChain :
    (m : List (Text × Revision)) (kind aggregate parent : Text) (n : ℕ) (ids : List Text)
    → IsPlain m
    → is_plain kind ≡ true
    → Linked m (revision_chain_key kind aggregate) parent n ids
    → IsChain m kind aggregate parent n ids
Linked-IsChain m kind aggregate parent n [] plain p l = tt
Linked-IsChain m kind aggregate parent n (id ∷ ids) plain p
      ((r, found, named, keyed, placed, linked), l) =
    let (same, same') =
      revision_chain_key-injective r.kind kind r.aggregate_id aggregate (plain id r found) p
        keyed in
    (
      (r, found, named, same, same', placed, linked),
      Linked-IsChain m kind aggregate id (n + 1) ids plain p l,
    )

IsPlain-insert :
    (m : List (Text × Revision)) (id : Text) (r : Revision)
    → is_plain r.kind ≡ true
    → IsPlain m
    → IsPlain (insert id r m)
IsPlain-insert m id r p plain j q found = elim (Bool-cases (text_eq id j)) [
  | inl e ↦ let same : r ≡ q = cc (rw (lookup-insert id j r m, e) at found) in rw (sym same) p
  | inr e ↦ plain j q (rw (lookup-insert id j r m, e) at found)
]

-- `Create` of a kind without a NUL keeps the store plain.
pub create-IsPlain :
    (c : Codec) (s : RevisionStore) (input : CreateRevisionInput c)
    → is_plain input.kind ≡ true
    → IsPlain s.by_id
    → IsPlain (create c s input).0.by_id
unfolding fresh_revision new_revision
create-IsPlain c s input p plain =
    create_cases c (λ o. IsPlain o.0.by_id) s input (λ _. plain)
      λ payload agreed.
        settle_cases c (λ o. IsPlain o.0.by_id) s input payload (λ _. plain)
          λ free. IsPlain-insert s.by_id _ (fresh_revision c s input payload) p plain
