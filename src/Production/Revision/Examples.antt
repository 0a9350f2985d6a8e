-- ===== src/Production/Revision/Examples.antt =====
-- The theorems on the store of revisions at two calls with a codec that keeps texts as they are.
use ai_video_series_workflow.Common.{◌≡◌, refl, length, some, List, [], ◌∷◌, ◌++◌, Text, codes}
use ai_video_series_workflow.Production.RevisionState.{
  Codec, new_revision_store, chain_of, revision_chain_key,
}
use ai_video_series_workflow.Production.Revision.{create_next, create, settle}
use ai_video_series_workflow.Production.Revision.Keys.{IsChain}
use ai_video_series_workflow.Production.Revision.Immutable.{
  Call, creates_next, rolls_back, run, call, Extends, run-Extends, run-IsWellFormed,
}

abbrev plain : Codec
plain = record {
  Value = Text;
  marshal = λ v. some v;
  unmarshal = λ s. some (some s);
  marshal_content = λ version payload. version ++ payload;
  marshal_identity =
      λ kind aggregate parent rollback version hash evidence. parent ++ rollback ++ hash;
  sha256_hex = λ s. s;
}

abbrev two_calls : List (Call plain)
two_calls =
    creates_next (codes "shot") (codes "s1") (some (codes "a")) (codes "e1" ∷ []) (codes "me") 1
    ∷ creates_next (codes "shot") (codes "s1") (some (codes "b")) [] (codes "me") 2
    ∷ []

run-IsWellFormed_example :
    IsChain (run plain new_revision_store two_calls).by_id (codes "shot") (codes "s1") [] 1 (
      chain_of
        (run plain new_revision_store two_calls)
        (revision_chain_key (codes "shot") (codes "s1")))
run-IsWellFormed_example = run-IsWellFormed plain two_calls (codes "shot") (codes "s1") refl refl

-- The chain that the theorem speaks of has both revisions.
two_calls-length :
    length (
      chain_of
        (run plain new_revision_store two_calls)
        (revision_chain_key (codes "shot") (codes "s1")))
    ≡ 2
unfolding run call create_next create settle chain_of revision_chain_key
    ai_video_series_workflow.Common.lookup ai_video_series_workflow.Common.is_blank
    ai_video_series_workflow.Common.text_eq ai_video_series_workflow.Common.insert
    ai_video_series_workflow.Production.RevisionState.non_empty
    ai_video_series_workflow.Production.RevisionState.latest_id
    ai_video_series_workflow.Production.RevisionState.derived_id
    ai_video_series_workflow.Production.Revision.next_input
    ai_video_series_workflow.Production.Revision.chain_conflict
    ai_video_series_workflow.Production.Revision.latest
    ai_video_series_workflow.Production.Revision.unchanged
    ai_video_series_workflow.Production.Revision.new_revision
    ai_video_series_workflow.Production.Revision.revision_id
    ai_video_series_workflow.Production.Revision.content_hash
two_calls-length = refl

run-Extends_example : Extends (run plain new_revision_store two_calls) (
    run plain
      (run plain new_revision_store two_calls)
      (rolls_back (codes "shot") (codes "s1") (codes "rev-v1a") (codes "me") 3 ∷ []))
run-Extends_example =
    run-Extends plain (run plain new_revision_store two_calls)
      (rolls_back (codes "shot") (codes "s1") (codes "rev-v1a") (codes "me") 3 ∷ [])
