-- ===== src/Cer/Examples.antt =====
-- The theorems on the evaluation at a short dialogue with one homophone.
use ai_video_series_workflow.Common.{
  ℤ, All, ◌≡◌, refl, ◌↔◌, Bool, Option, none, some, List, [], ◌∷◌, Text, codes, leb, ◌==◌, pos, ℕ,
  text_eq, is_blank, is_sha256, is_space, ok,
}
use ai_video_series_workflow.Cer.{EditOperation, levenshtein_operations}
use ai_video_series_workflow.Cer.Optimal.{IsOptimal, levenshtein_operations-IsOptimal}
use ai_video_series_workflow.Cer.Unihan.Table.{IsRead, IsFound, rows, load_mandarin_readings-rows}
use ai_video_series_workflow.Cer.Unihan.{
  raw_lines, find_readings, Readings, DataEvidence, load_mandarin_readings, readings_of,
  unihan_subset_file_sha256,
}
use ai_video_series_workflow.Cer.Evaluation.{
  Input, Evidence, frozen_asr_config, input_schema_version, validate_frozen, validate_input,
  normalize_text, strip, evaluate,
}
use ai_video_series_workflow.Cer.Gate.{IsFaithful, evaluate-IsFaithful, validate_frozen_iff}

abbrev sun : Text
sun = 0x65E5 ∷ 0x4ED6 ∷ []

abbrev son : Text
son = 0x65E5 ∷ 0x5979 ∷ 0x4ED6 ∷ []

levenshtein_operations-IsOptimal_example :
    (os : List EditOperation) × (levenshtein_operations sun son ≡ some os) × IsOptimal sun son os
levenshtein_operations-IsOptimal_example = levenshtein_operations-IsOptimal sun son

validate_frozen_iff_example :
    (validate_frozen frozen_asr_config ≡ none) ↔ (frozen_asr_config ≡ frozen_asr_config)
validate_frozen_iff_example = validate_frozen_iff frozen_asr_config

abbrev simplify_none : Text → Option Text
simplify_none s = some s

abbrev is_full_stop : ℕ → Bool
is_full_stop c = c == 0x3002

abbrev is_ideograph : ℕ → Bool
is_ideograph c = leb 0x4E00 c

-- A file with a comment and the rows of the two characters.
abbrev two_rows : Text
two_rows = codes "# kMandarin\nU+4ED6\tkMandarin\ttā\nU+5979\tkMandarin\ttā jiě\n"

abbrev digest : Text → Text
digest s = unihan_subset_file_sha256

abbrev two_readings : Readings
two_readings = (pos 0x5979, codes "tā" ∷ codes "jiě" ∷ []) ∷ (pos 0x4ED6, codes "tā" ∷ []) ∷ []

abbrev two_evidence : DataEvidence
two_evidence = record { subset_file_sha256 = unihan_subset_file_sha256; entry_count = 2 }

two_rows-load : load_mandarin_readings digest (some two_rows) ≡ ok (two_readings, two_evidence)
unfolding load_mandarin_readings text_eq ai_video_series_workflow.Cer.Unihan.read_lines
    ai_video_series_workflow.Cer.Unihan.raw_lines ai_video_series_workflow.Common.byte_len
two_rows-load = refl

abbrev dialogue : Input
dialogue = record {
  schema_version = input_schema_version;
  evaluation_id = codes "evaluation-1";
  source_dialogue = record {
    sha256 = codes "352b94f7134554825a7c426e579d12943a48c30db1666120353f5f24aa9c59b3";
    duration_millis = pos 5000;
    sample_rate = pos 16000;
    channels = pos 1;
  };
  asr = frozen_asr_config;
  reference_text = 0x65E5 ∷ 0x4ED6 ∷ 0x3002 ∷ [];
  hypothesis_text = 0x65E5 ∷ 0x20 ∷ 0x5979 ∷ [];
  provider_submit_count = pos 0;
}

dialogue_valid : validate_input dialogue ≡ none
unfolding validate_input text_eq is_blank is_sha256
dialogue_valid = refl

dialogue_reference :
    normalize_text simplify_none is_full_stop dialogue.reference_text ≡ some (0x65E5 ∷ 0x4ED6 ∷ [])
unfolding normalize_text strip is_space
dialogue_reference = refl

dialogue_hypothesis :
    normalize_text simplify_none is_full_stop dialogue.hypothesis_text ≡ some (0x65E5 ∷ 0x5979 ∷ [])
unfolding normalize_text strip is_space
dialogue_hypothesis = refl

evaluate-IsFaithful_example :
    (e : Evidence) × (evaluate simplify_none is_full_stop is_ideograph digest
        (some two_rows)
        dialogue
      ≡ ok e)
    × IsFaithful is_ideograph
        (readings_of two_readings)
        (0x65E5 ∷ 0x4ED6 ∷ [])
        (0x65E5 ∷ 0x5979 ∷ [])
        e
    × (e.unihan ≡ two_evidence)
evaluate-IsFaithful_example =
    evaluate-IsFaithful simplify_none is_full_stop is_ideograph digest (some two_rows) dialogue
      (0x65E5 ∷ 0x4ED6 ∷ []) (0x65E5 ∷ 0x5979 ∷ []) two_readings two_evidence dialogue_valid
      dialogue_reference dialogue_hypothesis refl refl two_rows-load

load_mandarin_readings-rows_example :
    (text : Text) × (some two_rows ≡ some text)
    × (digest text ≡ unihan_subset_file_sha256)
    × All (IsRead two_readings) (raw_lines text)
    × ((key : ℤ) (values : List Text)
        → find_readings key two_readings ≡ some values
        → IsFound (raw_lines text) key values)
    × (two_evidence.entry_count ≡ rows (raw_lines text))
    × (two_evidence.subset_file_sha256 ≡ unihan_subset_file_sha256)
load_mandarin_readings-rows_example =
    load_mandarin_readings-rows digest (some two_rows) two_readings two_evidence two_rows-load
