-- ===== src/Production/Graph.antt =====
-- internal/videopipeline/production/revision.go: the graph of revision dependencies. Its mutex makes a
-- call one step. The loop of Impacted runs on fuel, a round for each revision that it takes from its
-- queue. slices.SortFunc leaves the order of elements that compare equal open; here they keep theirs.
-- The difference of two revision numbers is taken not to overflow.
pub mod Walk
pub mod Fuel
pub mod Closure
mod Examples
use ai_video_series_workflow.Common.{
  ℕ, zero, suc, Bool, true, false, not, ◌&&◌, ◌||◌, Option, none, some, List, [], ◌∷◌, ◌++◌, length,
  any, if◌then◌else◌, Text, text_eq, text_leb, is_empty, ℤ, ltb_ℤ, leb_ℤ, lookup, insert,
}
use mathlib.Core.Option
use ai_video_series_workflow.Production.Refs.{RevisionRef, is_complete_ref}

pub record Dependency : Type 0 where
  pub producer : RevisionRef
  pub consumer : RevisionRef
  pub role : Text

pub record DependencyGraph : Type 0 where
  pub downstream : List (Text × List Dependency)

abbrev pub new_dependency_graph : DependencyGraph
new_dependency_graph = record { downstream = [] }

pub data GraphError : Type 0 where
  producer_incomplete consumer_incomplete no_role : GraphError

abbrev pub or_nil_dependencies : Option (List Dependency) → List Dependency
or_nil_dependencies none = []
or_nil_dependencies (some ds) = ds

-- `g.downstream[id]`.
unfoldable pub dependencies_of : DependencyGraph → Text → List Dependency
dependencies_of g id = or_nil_dependencies (lookup id g.downstream)

abbrev pub is_same_dependency : Dependency → Dependency → Bool
is_same_dependency d existing =
    text_eq existing.consumer.id d.consumer.id && text_eq existing.role d.role

-- `DependencyGraph.Add`.
unfoldable pub add : DependencyGraph → Dependency → DependencyGraph × Option GraphError
add g d =
    if not (is_complete_ref d.producer)
    then (g, some producer_incomplete)
    else if not (is_complete_ref d.consumer)
    then (g, some consumer_incomplete)
    else if is_empty d.role
    then (g, some no_role)
    else if any (is_same_dependency d) (dependencies_of g d.producer.id)
    then (g, none)
    else (
      record {
        downstream = insert d.producer.id (dependencies_of g d.producer.id ++ d ∷ []) g.downstream;
      },
      none,
    )

-- The variables of Impacted.
pub record Work : Type 0 where
  pub seen : List Text
  pub queue : List Text
  pub result : List RevisionRef

abbrev pub is_seen : List Text → Text → Bool
is_seen seen id = any (text_eq id) seen

-- A round of the inner loop.
unfoldable pub visit : Work → Dependency → Work
visit w d = if is_seen w.seen d.consumer.id then w else record {
  seen = d.consumer.id ∷ w.seen;
  queue = w.queue ++ d.consumer.id ∷ [];
  result = w.result ++ d.consumer ∷ [];
}

-- The inner loop.
unfoldable pub visit_all : Work → List Dependency → Work
visit_all w [] = w
visit_all w (d ∷ ds) = visit_all (visit w d) ds

-- The outer loop; `none` when the fuel is spent before the queue.
unfoldable pub walk :
    ℕ → DependencyGraph → List Text → List Text → List RevisionRef → Option (List RevisionRef)
walk n g seen [] result = some result
walk zero g seen (id ∷ queue) result = none
walk (suc n) g seen (id ∷ queue) result =
    let w =
      visit_all (record { seen = seen; queue = queue; result = result }) (dependencies_of g id) in
    walk n g w.seen w.queue w.result

-- All dependencies of the graph.
unfoldable pub dependencies : List (Text × List Dependency) → List Dependency
dependencies [] = []
dependencies ((id, ds) ∷ bindings) = ds ++ dependencies bindings

-- Whether the comparison function is not above 0.
unfoldable pub ref_leb : RevisionRef → RevisionRef → Bool
ref_leb left right =
    if not (text_eq left.kind right.kind)
    then text_leb left.kind right.kind
    else if not (text_eq left.aggregate_id right.aggregate_id)
    then text_leb left.aggregate_id right.aggregate_id
    else leb_ℤ left.number right.number

unfoldable pub insert_ref : RevisionRef → List RevisionRef → List RevisionRef
insert_ref r [] = r ∷ []
insert_ref r (s ∷ rs) = if ref_leb r s then r ∷ s ∷ rs else s ∷ insert_ref r rs

unfoldable pub sort_refs : List RevisionRef → List RevisionRef
sort_refs [] = []
sort_refs (r ∷ rs) = insert_ref r (sort_refs rs)

-- `DependencyGraph.Impacted`, with a round for the start and for each dependency.
unfoldable pub impacted : DependencyGraph → Text → Option (List RevisionRef)
impacted g id =
    Option.map sort_refs (walk (suc (length (dependencies g.downstream))) g (id ∷ []) (id ∷ []) [])
