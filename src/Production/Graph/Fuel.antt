-- ===== src/Production/Graph/Fuel.antt =====
-- The fuel of Impacted is enough: a round takes one revision from the queue, and a revision is queued for
-- a dependency that no longer leads to one that is not seen.
use ai_video_series_workflow.Common.{
  ◌≡◌, refl, sym, inl, inr, ℕ, zero, suc, ◌+◌, ◌≤◌, false, some, List, [], ◌∷◌, length,
  length-append, if◌then◌else◌, Text, text_eq, text_eq_refl, arith, lookup, Bool-cases,
}
use mathlib.Core.List.{Memᴰ}
use mathlib.Core.List
use ai_video_series_workflow.Production.Refs.{RevisionRef}
use ai_video_series_workflow.Production.Graph.{
  Dependency, DependencyGraph, or_nil_dependencies, dependencies_of, dependencies, Work, is_seen,
  visit, visit_all, walk,
}
use ai_video_series_workflow.Production.Graph.Walk.{visit_cases}

-- The dependencies whose consumer is not seen.
unseen : List Text → List Dependency → ℕ
unseen seen [] = 0
unseen seen (d ∷ ds) = if is_seen seen d.consumer.id then unseen seen ds else suc (unseen seen ds)

unseen-grows :
    (seen : List Text) (id : Text) (ds : List Dependency) → unseen (id ∷ seen) ds ≤ unseen seen ds
unfolding unseen
unseen-grows seen id [] = omega arith
unseen-grows seen id (d ∷ ds) = ground (arith, unseen-grows seen id ds)

unseen-marks :
    (seen : List Text) (d : Dependency) (ds : List Dependency)
    → is_seen seen d.consumer.id ≡ false
    → Memᴰ d ds
    → suc (unseen (d.consumer.id ∷ seen) ds) ≤ unseen seen ds
unfolding unseen
unseen-marks seen d [] new m = elim m [ ]
unseen-marks seen d (e ∷ ds) new (Memᴰ.head same) =
    rw (sym same)
      (ground (arith, new, text_eq_refl d.consumer.id, unseen-grows seen d.consumer.id ds))
unseen-marks seen d (e ∷ ds) new (Memᴰ.tail m) =
    ground (arith, unseen-marks seen d ds new m, unseen-grows seen d.consumer.id ds)

-- The measure of the outer loop.
abbrev work_left : Work → List Dependency → ℕ
work_left w ds = unseen w.seen ds + length w.queue

visit-work_left :
    (w : Work) (d : Dependency) (ds : List Dependency)
    → Memᴰ d ds
    → work_left (visit w d) ds ≤ work_left w ds
visit-work_left w d ds m =
    visit_cases (λ v. work_left v ds ≤ work_left w ds) w d (λ old. omega arith)
      λ new.
        omega (arith, unseen-marks w.seen d ds new m, length-append w.queue (d.consumer.id ∷ []))

visit_all-work_left :
    (w : Work) (es ds : List Dependency)
    → ((d : Dependency) → Memᴰ d es → Memᴰ d ds)
    → work_left (visit_all w es) ds ≤ work_left w ds
unfolding visit_all
visit_all-work_left w [] ds sub = omega arith
visit_all-work_left w (e ∷ es) ds sub = omega (
  arith,
  visit_all-work_left (visit w e) es ds (λ d m. sub d (Memᴰ.tail m)),
  visit-work_left w e ds (sub e (Memᴰ.head refl)),
)

found-dependencies :
    (bindings : List (Text × List Dependency)) (id : Text) (d : Dependency)
    → Memᴰ d (or_nil_dependencies (lookup id bindings))
    → Memᴰ d (dependencies bindings)
unfolding lookup dependencies
found-dependencies [] id d m = m
found-dependencies ((j, ds) ∷ bindings) id d m = elim (Bool-cases (text_eq j id)) [
  | inl b ↦ List.Memᴰ.append_left (dependencies bindings) (rw b at m)
  | inr b ↦ List.Memᴰ.append_right ds (found-dependencies bindings id d (rw b at m))
]

walk-some :
    (n : ℕ) (g : DependencyGraph) (seen queue : List Text) (result : List RevisionRef)
    → unseen seen (dependencies g.downstream) + length queue ≤ n
    → (rs : List RevisionRef) × (walk n g seen queue result ≡ some rs)
unfolding walk dependencies_of
walk-some n g seen [] result h = (result, refl)
walk-some zero g seen (id ∷ queue) result h = absurd (omega (arith, h))
walk-some (suc n) g seen (id ∷ queue) result h =
    let w : Work = record { seen = seen; queue = queue; result = result } in
    let v = visit_all w (dependencies_of g id) in
    walk-some n g v.seen v.queue v.result (
      omega (
        arith,
        h,
        visit_all-work_left w (dependencies_of g id) (dependencies g.downstream)
            (found-dependencies g.downstream id),
      ))

unseen-length : (seen : List Text) (ds : List Dependency) → unseen seen ds ≤ length ds
unfolding unseen
unseen-length seen [] = omega arith
unseen-length seen (d ∷ ds) = ground (arith, unseen-length seen ds)

pub walk-returns :
    (g : DependencyGraph) (p : Text)
    → (rs : List RevisionRef) × (walk
          (suc (length (dependencies g.downstream)))
          g
          (p ∷ [])
          (p ∷ [])
          []
        ≡ some rs)
walk-returns g p =
    walk-some _ g (p ∷ []) (p ∷ []) []
      (omega (arith, unseen-length (p ∷ []) (dependencies g.downstream)))
