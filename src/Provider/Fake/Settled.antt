-- ===== src/Provider/Fake/Settled.antt =====
-- A job only moves forward, and a settled one never changes.
use ai_video_series_workflow.Common.{
  ◌≡◌, refl, sym, ap, ◌∙◌, inl, inr, true, false, some, List, [], ◌∷◌, Text, text_eq, text_eq-eq,
  ◌≤ℤ◌, arith, ℤ, lookup, lookup-insert, lookup-insert_free, Bool-cases,
}
use ai_video_series_workflow.Provider.Contract.{is_terminal, rank}
use ai_video_series_workflow.Provider.Fake.{Call, after, run}
use ai_video_series_workflow.Provider.FakeState.{
  FakeProvider, FakeRecord, FakeScenario, new_fake_provider,
}
use ai_video_series_workflow.Provider.Fake.Step.{
  IsMove, IsStep, keeps, accepts, moves, after-IsStep,
}
use ai_video_series_workflow.Provider.Fake.Sound.{IsSound, next-free, step-IsSound, run-IsSound}

-- The later record of a job, beside an earlier one.
pub record IsLater (r s : FakeRecord) : Type 0 where
  pub id : s.job.id ≡ r.job.id
  pub key : s.job.idempotency_key ≡ r.job.idempotency_key
  pub forward : rank r.job.status ≤ℤ rank s.job.status
  pub settled : is_terminal r.job.status ≡ true → s ≡ r

≤ℤ-refl : (a : ℤ) → a ≤ℤ a
≤ℤ-refl a = omega arith

≤ℤ-trans : (a b c : ℤ) → a ≤ℤ b → b ≤ℤ c → a ≤ℤ c
≤ℤ-trans a b c h k = omega arith

IsLater-refl : (r : FakeRecord) → IsLater r r
IsLater-refl r = record {
  id = refl;
  key = refl;
  forward = ≤ℤ-refl (rank r.job.status);
  settled = λ _. refl;
}

IsLater-trans : (a b c : FakeRecord) → IsLater a b → IsLater b c → IsLater a c
IsLater-trans a b c p q = record {
  id = q.id ∙ p.id;
  key = q.key ∙ p.key;
  forward =
      ≤ℤ-trans (rank a.job.status) (rank b.job.status) (rank c.job.status) p.forward q.forward;
  settled =
      λ h. let same = p.settled h in q.settled (ap (λ x. is_terminal x.job.status) same ∙ h) ∙ same;
}

IsMove-IsLater : (a b : FakeRecord) → IsMove a b → IsLater a b
IsMove-IsLater a b m = record {
  id = m.id;
  key = m.key;
  forward = m.forward;
  settled = λ h. absurd (clash (sym h ∙ m.unsettled));
}
  where
    clash : true ≡ false → ⊥
    clash e = cc

abbrev pub HasLater : FakeProvider → Text → FakeRecord → Type 0
HasLater g id r = (s : FakeRecord) × (lookup id g.records ≡ some s) × IsLater r s

step-HasLater :
    (f g : FakeProvider) (id : Text) (r : FakeRecord)
    → IsSound f.records f.idempotency
    → IsStep f g
    → lookup id f.records ≡ some r
    → HasLater g id r
step-HasLater f g id r s (keeps p q) h = (r, rw p h, IsLater-refl r)
step-HasLater f g id r s (accepts _ free p q) h = (
  r,
  rw p (lookup-insert_free _ id _ r f.records (next-free f.records f.idempotency s) h),
  IsLater-refl r,
)
step-HasLater f g id r s (moves j a b found move p q) h = elim (Bool-cases (text_eq j id)) [
  | inl e ↦
      let there = text_eq-eq j id e in
      let whole : a ≡ r = cc in
      (b, rw (p, lookup-insert j id b f.records, e) refl, rw (sym whole) (IsMove-IsLater a b move))
  | inr e ↦ (r, rw (p, lookup-insert j id b f.records, e) h, IsLater-refl r)
]

run_from-HasLater :
    (f : FakeProvider) (es : List Call) (id : Text) (r : FakeRecord)
    → IsSound f.records f.idempotency
    → lookup id f.records ≡ some r
    → HasLater (run f es) id r
unfolding run
run_from-HasLater f [] id r s h = (r, h, IsLater-refl r)
run_from-HasLater f (e ∷ es) id r s h =
    let (q, stands, later) = step-HasLater f (after f e) id r s (after-IsStep f e) h in
    let (t, found, last) =
      run_from-HasLater (after f e) es id q (step-IsSound f (after f e) (after-IsStep f e) s)
        stands in
    (t, found, IsLater-trans r q t later last)

-- A record that some calls on a new provider lead to is still there after any further calls, with
-- the same job ID and idempotency key and a status of no lower rank; if its job has succeeded,
-- failed or been cancelled, the record is unchanged.
pub run-HasLater :
    (scenario : FakeScenario) (ds es : List Call) (id : Text) (r : FakeRecord)
    → lookup id (run (new_fake_provider scenario) ds).records ≡ some r
    → HasLater (run (run (new_fake_provider scenario) ds) es) id r
run-HasLater scenario ds es id r h =
    run_from-HasLater (run (new_fake_provider scenario) ds) es id r (run-IsSound scenario ds) h
