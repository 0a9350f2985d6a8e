-- ===== src/Provider/Fake/Sound.antt =====
-- What every sequence of calls on a new provider keeps: no key without its record.
use ai_video_series_workflow.Common.{
  ℕ, zero, suc, ◌+◌, ◌≤◌, ◌≡◌, refl, sym, ap, ◌∙◌, inl, inr, none, some, List, [], ◌∷◌, Text,
  text_eq, text_eq-eq, length, lookup, insert, lookup-insert, lookup-insert_self,
  lookup-insert_free, if◌then◌else◌, Bool-cases, Option-cases, arith, padded-injective, is_some,
}
use ai_video_series_workflow.Provider.Contract.{GenerationRequest}
use ai_video_series_workflow.Provider.Fake.{Call, after, run}
use ai_video_series_workflow.Provider.FakeState.{
  FakeProvider, FakeRecord, FakeScenario, new_fake_provider, new_job, job_id,
}
use ai_video_series_workflow.Provider.Fake.Step.{
  IsMove, IsStep, keeps, accepts, moves, after-IsStep,
}

abbrev pub Records : Type 0
Records = List (Text × FakeRecord)

abbrev pub Keys : Type 0
Keys = List (Text × Text)

abbrev pub IsBound : Records → Text → Text → Type 0
IsBound m key id =
    (r : FakeRecord) × (lookup id m ≡ some r) × (r.job.id ≡ id) × (r.job.idempotency_key ≡ key)

-- Every record stands under a number that is in use, and every key is bound to a record that has
-- the key and the ID under which it stands.
pub record IsSound (m : Records) (keys : Keys) : Type 0 where
  pub numbered :
      (id : Text) (r : FakeRecord)
      → lookup id m ≡ some r
      → (n : ℕ) × (n ≤ length m) × (id ≡ job_id n)
  pub bound : (key id : Text) → lookup key keys ≡ some id → IsBound m key id

length-insert {ℓ} :
    {V : Type ℓ} (k : Text) (v : V) (m : List (Text × V))
    → length (insert k v m) ≡ (if is_some (lookup k m) then length m else suc (length m))
unfolding insert lookup
length-insert k v [] = refl
length-insert k v ((j, w) ∷ m) = ground (arith, length-insert k v m)

job_id-injective : (m n : ℕ) → job_id m ≡ job_id n → m ≡ n
unfolding job_id
job_id-injective m n e = padded-injective 3 m n (ap (λ s. dropped 9 s) e)
  where
    dropped : ℕ → Text → Text
    dropped zero s = s
    dropped (suc n) [] = []
    dropped (suc n) (c ∷ s) = dropped n s

-- The number of the next job is not in use.
pub next-free :
    (m : Records) (keys : Keys) → IsSound m keys → lookup (job_id (length m + 1)) m ≡ none
next-free m keys s = elim (Option-cases (lookup (job_id (length m + 1)) m)) [
  | inl free ↦ free
  | inr (r, found) ↦
      let (n, bounded, e) = s.numbered _ r found in
      absurd (omega (arith, job_id-injective (length m + 1) n e))
]

-- A binding of the map after `insert` is the new one, or one of before.
pub lookup-insert_cases {ℓ κ} :
    {V : Type ℓ} (P : Type κ) (k j : Text) (v w : V) (m : List (Text × V))
    → lookup j (insert k v m) ≡ some w
    → (k ≡ j → v ≡ w → P)
    → (lookup j m ≡ some w → P)
    → P
lookup-insert_cases P k j v w m h new old = elim (Bool-cases (text_eq k j)) [
  | inl e ↦ new (text_eq-eq k j e) (ground (arith, lookup-insert k j v m))
  | inr e ↦ old (ground (arith, lookup-insert k j v m))
]

accepts-IsSound :
    (m : Records) (keys : Keys) (r : GenerationRequest)
    → IsSound m keys
    → IsSound
        (insert
          (job_id (length m + 1))
          (record { job = new_job (job_id (length m + 1)) r; poll_count = 0 })
          m)
        (insert r.idempotency_key (job_id (length m + 1)) keys)
unfolding new_job
accepts-IsSound m keys r s =
    let next : Text = job_id (length m + 1) in
    let made : FakeRecord = record { job = new_job next r; poll_count = 0 } in
    let free : lookup next m ≡ none = next-free m keys s in
    let longer = length-insert next made m in
    record {
      numbered = λ id q h.
          lookup-insert_cases _ next id made q m h
            (λ e _. (length m + 1, ground (arith, longer, free), sym e))
            (λ old.
              let (n, bounded, e) = s.numbered id q old in (n, ground (arith, longer, free), e));
      bound = λ key id h.
          lookup-insert_cases _ r.idempotency_key key next id keys h
            (λ e d.
              let fresh : IsBound (insert next made m) r.idempotency_key next =
                (made, lookup-insert_self next made m, refl, refl) in
              rw (sym e, sym d) fresh)
            (λ old.
              let (q, found, own, same) = s.bound key id old in
              (q, lookup-insert_free next id made q m free found, own, same));
    }

moves-IsSound :
    (m : Records) (keys : Keys) (id : Text) (a b : FakeRecord)
    → IsSound m keys
    → lookup id m ≡ some a
    → IsMove a b
    → IsSound (insert id b m) keys
moves-IsSound m keys id a b s found move =
    let kept = length-insert id b m in
    record {
      numbered = λ j q h.
          lookup-insert_cases _ id j b q m h
            (λ e _.
              let (n, bounded, d) = s.numbered id a found in
              (n, ground (arith, kept, found), sym e ∙ d))
            (λ old.
              let (n, bounded, d) = s.numbered j q old in (n, ground (arith, kept, found), d));
      bound = λ key j h.
          let (q, stands, own, same) = s.bound key j h in
          elim (Bool-cases (text_eq id j)) [
            | inl e ↦
                let there = text_eq-eq id j e in
                let whole : a ≡ q = cc in
                (
                  b,
                  rw (lookup-insert id j b m, e) refl,
                  move.id ∙ ap (λ x. x.job.id) whole ∙ own,
                  move.key ∙ ap (λ x. x.job.idempotency_key) whole ∙ same,
                )
            | inr e ↦ (q, rw (lookup-insert id j b m, e) stands, own, same)
          ];
    }

pub step-IsSound :
    (f g : FakeProvider)
    → IsStep f g
    → IsSound f.records f.idempotency
    → IsSound g.records g.idempotency
step-IsSound f g (keeps p q) s = rw (p, q) s
step-IsSound f g (accepts r free p q) s = rw (p, q) (accepts-IsSound f.records f.idempotency r s)
step-IsSound f g (moves id a b found move p q) s =
    rw (p, q) (moves-IsSound f.records f.idempotency id a b s found move)

pub run_from-IsSound :
    (f : FakeProvider) (ds : List Call)
    → IsSound f.records f.idempotency
    → IsSound (run f ds).records (run f ds).idempotency
unfolding run
run_from-IsSound f [] s = s
run_from-IsSound f (d ∷ ds) s =
    run_from-IsSound (after f d) ds (step-IsSound f (after f d) (after-IsStep f d) s)

new-IsSound : IsSound [] []
unfolding lookup
new-IsSound = record {
  numbered = λ id q h. absurd (nothing h);
  bound = λ key id h. absurd (nothing h);
}
  where
    nothing : {A : Type 0} {x : A} → none ≡ some x → ⊥
    nothing h = cc

-- After any calls on a new provider, whatever they answer, every record stands under a job ID whose
-- number is at most the number of records, and every idempotency key is bound to a record that has
-- the key and the ID under which it stands.
pub run-IsSound :
    (scenario : FakeScenario) (ds : List Call)
    → IsSound
        (run (new_fake_provider scenario) ds).records
        (run (new_fake_provider scenario) ds).idempotency
unfolding new_fake_provider
run-IsSound scenario ds = run_from-IsSound (new_fake_provider scenario) ds new-IsSound
