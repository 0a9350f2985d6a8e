-- ===== src/Production/Graph/Walk.antt =====
-- What the inner loop of Impacted keeps, and what it does to the variables.
use ai_video_series_workflow.Common.{
  ◌≡◌, refl, sym, ap, ◌∙◌, ◌⊎◌, inl, inr, Bool, true, false, ◌||◌, List, [], ◌∷◌, ◌++◌, any, Text,
  text_eq, text_eq-eq, text_eq_refl, arith, Bool-cases,
}
use mathlib.Core.List.{Memᴰ}
use ai_video_series_workflow.Production.Refs.{RevisionRef}
use ai_video_series_workflow.Production.Graph.{
  Dependency, DependencyGraph, dependencies_of, Work, is_seen, visit, visit_all,
}

-- A chain of dependencies leads from the first revision to the second.
pub data From (g : DependencyGraph) (p : Text) : Text → Type 0 where
  start : From g p p
  next :
      {id : Text} (d : Dependency)
      → From g p id
      → Memᴰ d (dependencies_of g id)
      → From g p d.consumer.id

abbrev pub has_id : Text → RevisionRef → Bool
has_id id r = text_eq id r.id

pub any-append {ℓ} :
    {A : Type ℓ} (p : A → Bool) (xs ys : List A) → any p (xs ++ ys) ≡ (any p xs || any p ys)
any-append p [] ys = refl
any-append p (x ∷ xs) ys = ground (arith, any-append p xs ys)

-- `out` holds of a revision whose dependencies need not be seen.
pub record IsWalk (g : DependencyGraph) (p : Text) (out : Text → Bool) (w : Work) : Type 0 where
  pub begun : is_seen w.seen p ≡ true
  pub marks :
      (id : Text) → is_seen w.seen id ≡ true → (text_eq id p || any (has_id id) w.result) ≡ true
  pub sound : (id : Text) → any (has_id id) w.result ≡ true → From g p id × (text_eq id p ≡ false)
  pub queued : (id : Text) → is_seen w.queue id ≡ true → From g p id
  pub closed :
      (id : Text)
      → is_seen w.seen id ≡ true
      → ((is_seen w.queue id || out id) ≡ true)
        ⊎ ((d : Dependency) → Memᴰ d (dependencies_of g id) → is_seen w.seen d.consumer.id ≡ true)

-- The variables after a consumer that was not seen.
abbrev pub marked : Work → Dependency → Work
marked w d = record {
  seen = d.consumer.id ∷ w.seen;
  queue = w.queue ++ d.consumer.id ∷ [];
  result = w.result ++ d.consumer ∷ [];
}

pub visit_cases {ℓ} :
    (P : Work → Type ℓ) (w : Work) (d : Dependency)
    → (is_seen w.seen d.consumer.id ≡ true → P w)
    → (is_seen w.seen d.consumer.id ≡ false → P (marked w d))
    → P (visit w d)
unfolding visit
visit_cases P w d old new = elim (Bool-cases (is_seen w.seen d.consumer.id)) [
  | inl b ↦ rw b (old b)
  | inr b ↦ rw b (new b)
]

marked-IsWalk :
    (g : DependencyGraph) (p : Text) (out : Text → Bool) (w : Work) (d : Dependency)
    → From g p d.consumer.id
    → is_seen w.seen d.consumer.id ≡ false
    → IsWalk g p out w
    → IsWalk g p out (marked w d)
marked-IsWalk g p out w d from new h = record {
  begun = ground (arith, h.begun);
  marks = λ id seen.
      ground (arith, h.marks id, any-append (has_id id) w.result (d.consumer ∷ []), seen);
  sound = λ id found. elim (Bool-cases (any (has_id id) w.result)) [
    | inl b ↦ h.sound id b
    | inr b ↦
        let same : id ≡ d.consumer.id =
          text_eq-eq id d.consumer.id
            (ground (arith, any-append (has_id id) w.result (d.consumer ∷ []), b, found)) in
        (rw same from, apart id same)
  ];
  queued = λ id found. elim (Bool-cases (is_seen w.queue id)) [
    | inl b ↦ h.queued id b
    | inr b ↦
        let same : id ≡ d.consumer.id =
          text_eq-eq id d.consumer.id
            (ground (arith, any-append (text_eq id) w.queue (d.consumer.id ∷ []), b, found)) in
        rw same from
  ];
  closed = λ id seen. elim (Bool-cases (is_seen w.seen id)) [
    | inr b ↦ inl (ground (arith, any-append (text_eq id) w.queue (d.consumer.id ∷ []), seen, b))
    | inl b ↦ elim (h.closed id b) [
      | inl q ↦ inl (ground (arith, any-append (text_eq id) w.queue (d.consumer.id ∷ []), q))
      | inr all ↦ inr (λ d' m. ground (arith, all d' m))
    ]
  ];
}
  where
    clash : false ≡ true → ⊥
    clash e = cc

    apart : (id : Text) → id ≡ d.consumer.id → text_eq id p ≡ false
    apart id same = elim (Bool-cases (text_eq id p)) [
      | inr b ↦ b
      | inl b ↦
          absurd (clash (sym new ∙ ap (is_seen w.seen) (sym same ∙ text_eq-eq id p b) ∙ h.begun))
    ]

pub visit-IsWalk :
    (g : DependencyGraph) (p : Text) (out : Text → Bool) (w : Work) (d : Dependency)
    → From g p d.consumer.id
    → IsWalk g p out w
    → IsWalk g p out (visit w d)
visit-IsWalk g p out w d from h =
    visit_cases (IsWalk g p out) w d (λ old. h) λ new. marked-IsWalk g p out w d from new h

pub visit_all-IsWalk :
    (g : DependencyGraph) (p : Text) (out : Text → Bool) (w : Work) (ds : List Dependency)
    → ((d : Dependency) → Memᴰ d ds → From g p d.consumer.id)
    → IsWalk g p out w
    → IsWalk g p out (visit_all w ds)
unfolding visit_all
visit_all-IsWalk g p out w [] from h = h
visit_all-IsWalk g p out w (d ∷ ds) from h =
    visit_all-IsWalk g p out (visit w d) ds (λ d' m. from d' (Memᴰ.tail m))
      (visit-IsWalk g p out w d (from d (Memᴰ.head refl)) h)

-- What was seen stays seen.
visit_all-grows :
    (w : Work) (ds : List Dependency) (id : Text)
    → is_seen w.seen id ≡ true
    → is_seen (visit_all w ds).seen id ≡ true
unfolding visit_all
visit_all-grows w [] id h = h
visit_all-grows w (d ∷ ds) id h =
    visit_all-grows (visit w d) ds id
      (visit_cases (λ v. is_seen v.seen id ≡ true) w d (λ old. h) λ new. ground (arith, h))

-- Every consumer is seen in the end.
pub visit_all-sees :
    (w : Work) (ds : List Dependency) (d : Dependency)
    → Memᴰ d ds
    → is_seen (visit_all w ds).seen d.consumer.id ≡ true
unfolding visit_all
visit_all-sees w [] d m = elim m [ ]
visit_all-sees w (e ∷ ds) d (Memᴰ.head same) = visit_all-grows (visit w e) ds d.consumer.id (
    rw same (
      visit_cases (λ v. is_seen v.seen e.consumer.id ≡ true) w e (λ old. old)
        λ new. ground (arith, text_eq_refl e.consumer.id)))
visit_all-sees w (e ∷ ds) d (Memᴰ.tail m) = visit_all-sees (visit w e) ds d m
