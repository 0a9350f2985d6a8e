-- ===== src/Postproduction/Subtitle/Examples.antt =====
-- The theorems on subtitles at two cues and their edit.
use ai_video_series_workflow.Common.{
  ◌≡◌, refl, none, [], ◌∷◌, Text, text_eq, codes, is_blank, is_sha256, pos, ok,
}
use ai_video_series_workflow.Postproduction.Subtitle.{
  Cue, SubtitleRevision, SubtitleDigestInput, digest_input, is_valid_utf8, validate_cue,
  validate_subtitle, cue_error, check_cues, hashed, new_subtitle_revision, revise_subtitle,
  next_revision, format_srt_timestamp,
}
use ai_video_series_workflow.Postproduction.Subtitle.Timeline.{IsTimeline, validate-IsTimeline}
use ai_video_series_workflow.Postproduction.Subtitle.Revise.{IsChild, revise-IsChild}
use ai_video_series_workflow.Postproduction.Subtitle.Timestamp.{
  read_srt_timestamp, read-format_srt_timestamp,
}

abbrev digest : SubtitleDigestInput → Text
digest input = codes "352b94f7134554825a7c426e579d12943a48c30db1666120353f5f24aa9c59b3"

abbrev first_cue : Cue
first_cue = record {
  id = codes "c1";
  speaker = [];
  text = codes "Hello";
  voice_ref = [];
  start_millis = pos 0;
  end_millis = pos 1500;
}

abbrev second_cue : Cue
second_cue = record {
  id = codes "c2";
  speaker = [];
  text = codes "there";
  voice_ref = [];
  start_millis = pos 1500;
  end_millis = pos 4000;
}

abbrev draft : SubtitleRevision
draft = record {
  id = codes "s1";
  parent_revision_id = [];
  revision = pos 1;
  language = codes "zh";
  source_revision_ids = codes "d1" ∷ [];
  cues = first_cue ∷ second_cue ∷ [];
  content_hash = codes "352b94f7134554825a7c426e579d12943a48c30db1666120353f5f24aa9c59b3";
}

abbrev edited : SubtitleRevision
edited = record draft {
  id = codes "s2";
  parent_revision_id = codes "s1";
  revision = pos 2;
  cues = first_cue ∷ [];
}

draft_valid : validate_subtitle digest draft (pos 5000) ≡ none
unfolding validate_subtitle validate_cue is_valid_utf8 cue_error check_cues text_eq is_blank
    is_sha256
draft_valid = refl

draft_edited : revise_subtitle digest draft (codes "s2") (first_cue ∷ []) ≡ ok edited
unfolding revise_subtitle new_subtitle_revision hashed next_revision validate_subtitle validate_cue
    is_valid_utf8 cue_error check_cues text_eq is_blank is_sha256
draft_edited = refl

validate-IsTimeline_example :
    (draft.content_hash ≡ digest (digest_input draft)) × IsTimeline (pos 5000) draft.cues
validate-IsTimeline_example = validate-IsTimeline digest draft (pos 5000) draft_valid

revise-IsChild_example :
    (validate_subtitle digest draft (pos 0) ≡ none)
    × (validate_subtitle digest edited (pos 0) ≡ none)
    × IsChild draft edited (codes "s2") (first_cue ∷ [])
revise-IsChild_example =
    revise-IsChild digest draft edited (codes "s2") (first_cue ∷ []) draft_edited

read-format_srt_timestamp_example : read_srt_timestamp (format_srt_timestamp 3723004) ≡ 3723004
read-format_srt_timestamp_example = read-format_srt_timestamp 3723004
