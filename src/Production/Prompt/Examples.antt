-- ===== src/Production/Prompt/Examples.antt =====
-- The theorem on the registry at one snapshot that is put twice.
use ai_video_series_workflow.Common.{
  ◌≡◌, ◌≢◌, ◌↔◌, any, refl, Text, codes, true, none, some, [], ◌∷◌, lookup, insert, text_eq,
  is_sha256, is_blank,
}
use ai_video_series_workflow.Production.RevisionState.{non_empty, derived_id}
use ai_video_series_workflow.Production.Refs.{is_complete_ref}
use ai_video_series_workflow.Production.Prompt.{
  PromptSnapshot, validate_integrity, validate_snapshot_fields, validate_snapshot_hashes,
  is_output_complete, prompt_normalized_input_hash, prompt_snapshot_content_hash, put, after_puts,
  new_prompt_registry,
}
use ai_video_series_workflow.Production.Prompt.Diff.{diff_prompts, value_of, diff_prompts-exact}
use ai_video_series_workflow.Production.Prompt.Registry.{registered-valid}
use ai_video_series_workflow.Production.Execute.Fixture.{codec, prompt}

prompt_put :
    lookup prompt.id (after_puts codec (new_prompt_registry codec) (prompt ∷ [])).by_id
    ≡ some prompt
unfolding after_puts put validate_integrity validate_snapshot_fields validate_snapshot_hashes
    is_output_complete prompt_normalized_input_hash prompt_snapshot_content_hash derived_id
    non_empty is_complete_ref is_blank is_sha256 text_eq lookup insert
prompt_put = refl

registered-valid_example :
    (validate_integrity codec prompt ≡ none)
    × (lookup prompt.id
          (after_puts codec
            (after_puts codec (new_prompt_registry codec) (prompt ∷ []))
            (prompt ∷ [])).by_id
        ≡ some prompt)
registered-valid_example =
    registered-valid codec (prompt ∷ []) (prompt ∷ []) prompt.id prompt prompt_put

abbrev wider : PromptSnapshot Text
wider = record prompt { asset_aliases = (codes "hero", codes "asset-rev-1") ∷ [] }

diff_prompts-exact_example :
    ((any (text_eq (codes "hero")) (diff_prompts codec prompt wider).changed_context_keys ≡ true)
      ↔ (value_of (codes "hero") prompt.effective_context.values
          ≢ value_of (codes "hero") wider.effective_context.values))
    × ((any (text_eq (codes "hero")) (diff_prompts codec prompt wider).changed_asset_aliases ≡ true)
        ↔ (value_of (codes "hero") prompt.asset_aliases
            ≢ value_of (codes "hero") wider.asset_aliases))
diff_prompts-exact_example = diff_prompts-exact codec prompt wider (codes "hero")
