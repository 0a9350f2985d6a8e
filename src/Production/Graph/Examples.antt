-- ===== src/Production/Graph/Examples.antt =====
-- The theorem on the graph of dependencies at a source, a shot and a prompt.
use ai_video_series_workflow.Common.{
  ◌≡◌, ◌↔◌, true, false, some, List, any, Text, text_eq, codes, pos,
}
use ai_video_series_workflow.Production.Refs.{RevisionRef, kind_source, kind_shot_spec, kind_prompt}
use ai_video_series_workflow.Production.Graph.{
  Dependency, DependencyGraph, new_dependency_graph, add, impacted,
}
use ai_video_series_workflow.Production.Graph.Walk.{From, has_id}
use ai_video_series_workflow.Production.Graph.Closure.{impacted-IsClosure}

abbrev digest : Text
digest = codes "352b94f7134554825a7c426e579d12943a48c30db1666120353f5f24aa9c59b3"

abbrev ref : Text → Text → RevisionRef
ref id kind = record {
  id = id;
  kind = kind;
  aggregate_id = codes "a";
  number = pos 1;
  content_hash = digest;
}

abbrev source_shot : Dependency
source_shot = record {
  producer = ref (codes "s") kind_source;
  consumer = ref (codes "h") kind_shot_spec;
  role = codes "adapts";
}

abbrev shot_prompt : Dependency
shot_prompt = record {
  producer = ref (codes "h") kind_shot_spec;
  consumer = ref (codes "p") kind_prompt;
  role = codes "renders";
}

abbrev graph : DependencyGraph
graph = (add (add new_dependency_graph source_shot).0 shot_prompt).0

impacted-IsClosure_example :
    (rs : List RevisionRef) × (impacted graph (codes "s") ≡ some rs)
    × ((id : Text)
        → (any (has_id id) rs ≡ true)
          ↔ (From graph (codes "s") id × (text_eq id (codes "s") ≡ false)))
impacted-IsClosure_example = impacted-IsClosure graph (codes "s")
