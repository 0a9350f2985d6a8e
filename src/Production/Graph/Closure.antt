-- ===== src/Production/Graph/Closure.antt =====
-- Impacted returns exactly the revisions that a chain of dependencies leads to.
use ai_video_series_workflow.Common.{
  ◌≡◌, refl, sym, ap, ◌∙◌, ◌↔◌, inl, inr, ℕ, zero, suc, Bool, true, false, ◌||◌, some, List, [],
  ◌∷◌, length, any, Text, text_eq, text_eq-eq, text_eq_refl, arith, Bool-cases,
}
use mathlib.Core.List.{Memᴰ}
use mathlib.Core.Option
use ai_video_series_workflow.Production.Refs.{RevisionRef}
use ai_video_series_workflow.Production.Graph.{
  Dependency, DependencyGraph, dependencies_of, dependencies, Work, is_seen, visit_all, walk,
  insert_ref, sort_refs, impacted,
}
use ai_video_series_workflow.Production.Graph.Walk.{
  From, start, next, has_id, IsWalk, visit_all-IsWalk, visit_all-sees,
}
use ai_video_series_workflow.Production.Graph.Fuel.{walk-returns}

-- The round of the outer loop for the revision `x`.
round-IsWalk :
    (g : DependencyGraph) (p x : Text) (seen queue : List Text) (result : List RevisionRef)
    → IsWalk g p (λ id. false) (record { seen = seen; queue = x ∷ queue; result = result })
    → IsWalk g p
        (λ id. false)
        (visit_all (record { seen = seen; queue = queue; result = result }) (dependencies_of g x))
round-IsWalk g p x seen queue result h =
    let w : Work = record { seen = seen; queue = queue; result = result } in
    let from : From g p x = h.queued x (ground (arith, text_eq_refl x)) in
    let taken : IsWalk g p (λ id. text_eq id x) w = record {
      begun = h.begun;
      marks = h.marks;
      sound = h.sound;
      queued = λ id q. h.queued id (ground (arith, q));
      closed = λ id s. elim (h.closed id s) [ inl q ↦ inl (ground (arith, q)) | inr all ↦ inr all ];
    } in
    let v =
      visit_all-IsWalk g p (λ id. text_eq id x) w (dependencies_of g x) (λ d m. next d from m)
        taken in
    record {
      begun = v.begun;
      marks = v.marks;
      sound = v.sound;
      queued = v.queued;
      closed = λ id s. elim (v.closed id s) [
        | inr all ↦ inr all
        | inl q ↦ elim (Bool-cases (text_eq id x)) [
          | inr b ↦ inl (ground (arith, q, b))
          | inl b ↦ inr (rw (text_eq-eq id x b) (λ d m. visit_all-sees w (dependencies_of g x) d m))
        ]
      ];
    }

-- The revisions of the result are those that a chain leads to, but for the start.
IsClosure : DependencyGraph → Text → List RevisionRef → Type 0
IsClosure g p rs =
    (id : Text) → (any (has_id id) rs ≡ true) ↔ (From g p id × (text_eq id p ≡ false))

finished-IsClosure :
    (g : DependencyGraph) (p : Text) (seen : List Text) (result : List RevisionRef)
    → IsWalk g p (λ id. false) (record { seen = seen; queue = []; result = result })
    → IsClosure g p result
unfolding IsClosure
finished-IsClosure g p seen result h id =
    (h.sound id, λ (from, apart). ground (arith, h.marks id (sees id from), apart))
  where
    closes :
        (id : Text)
        → is_seen seen id ≡ true
        → (d : Dependency) → Memᴰ d (dependencies_of g id)
        → is_seen seen d.consumer.id ≡ true
    closes id s = elim (h.closed id s) [ inl q ↦ absurd (clash q) | inr all ↦ all ]
      where
        clash : (false || false) ≡ true → ⊥
        clash e = cc

    sees : (id : Text) → From g p id → is_seen seen id ≡ true
    sees id start = h.begun
    sees id (next d from m) = closes _ (sees _ from) d m

walk-IsClosure :
    (n : ℕ) (g : DependencyGraph) (p : Text) (seen queue : List Text) (result rs : List RevisionRef)
    → IsWalk g p (λ id. false) (record { seen = seen; queue = queue; result = result })
    → walk n g seen queue result ≡ some rs
    → IsClosure g p rs
unfolding walk
walk-IsClosure n g p seen [] result rs h e =
    let same : result ≡ rs = cc in rw (sym same) (finished-IsClosure g p seen result h)
walk-IsClosure zero g p seen (x ∷ queue) result rs h e = cc
walk-IsClosure (suc n) g p seen (x ∷ queue) result rs h e =
    walk-IsClosure n g p _ _ _ rs (round-IsWalk g p x seen queue result h) e

any-insert_ref :
    (q : RevisionRef → Bool) (r : RevisionRef) (rs : List RevisionRef)
    → any q (insert_ref r rs) ≡ (q r || any q rs)
unfolding insert_ref
any-insert_ref q r [] = refl
any-insert_ref q r (s ∷ rs) = ground (arith, any-insert_ref q r rs)

any-sort_refs : (q : RevisionRef → Bool) (rs : List RevisionRef) → any q (sort_refs rs) ≡ any q rs
unfolding sort_refs
any-sort_refs q [] = refl
any-sort_refs q (r ∷ rs) = ground (arith, any-sort_refs q rs, any-insert_ref q r (sort_refs rs))

-- The walk before its first round.
begun-IsWalk :
    (g : DependencyGraph) (p : Text)
    → IsWalk g p (λ id. false) (record { seen = p ∷ []; queue = p ∷ []; result = [] })
begun-IsWalk g p = record {
  begun = ground (arith, text_eq_refl p);
  marks = λ id s. ground (arith, s);
  sound = λ id s. absurd (clash s);
  queued = λ id q. let same : id ≡ p = text_eq-eq id p (ground (arith, q)) in rw same start;
  closed = λ id s. inl (ground (arith, s));
}
  where
    clash : false ≡ true → ⊥
    clash e = cc

-- `Impacted` always returns, and a revision is in its result exactly when a chain of dependencies of the
-- graph leads to it from the given revision and it is another one.
pub impacted-IsClosure :
    (g : DependencyGraph) (p : Text)
    → (rs : List RevisionRef) × (impacted g p ≡ some rs)
      × ((id : Text) → (any (has_id id) rs ≡ true) ↔ (From g p id × (text_eq id p ≡ false)))
unfolding impacted IsClosure
impacted-IsClosure g p =
    let (rs, e) = walk-returns g p in
    let closure =
      walk-IsClosure (suc (length (dependencies g.downstream))) g p (p ∷ []) (p ∷ []) [] rs
        (begun-IsWalk g p) e in
    (
      sort_refs rs,
      ap (Option.map sort_refs) e,
      λ id. (
        λ found. (closure id).0 (sym (any-sort_refs (has_id id) rs) ∙ found),
        λ reached. any-sort_refs (has_id id) rs ∙ (closure id).1 reached,
      ),
    )
