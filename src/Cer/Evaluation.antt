-- ===== src/Cer/Evaluation.antt =====
-- evaluator.go: the input and its validation, the normalisation of the texts, the pass over the
-- operations, and the evidence. The parameters stand for what the source takes from elsewhere: the
-- conversion to simplified Chinese after NFKC (golang.org/x/text, opencc), the Unicode tables
-- behind unicode.IsPunct and unicode.Is(Han), and SHA-256 and the embedded file of readings. The
-- evidence is modelled without its content hash and its constant strings.
use ai_video_series_workflow.Common.{
  ℕ, ◌+◌, ◌*◌, Bool, true, false, not, ◌&&◌, ◌||◌, Option, none, some, List, [], ◌∷◌, ltb,
  if◌then◌else◌, Text, text_eq, codes, is_empty, is_blank, is_space, is_sha256, any, length, ℤ, pos,
  leb_ℤ, sort_texts, Result, ok, err, ◌>>=◌, ◌>>◌,
}
use ai_video_series_workflow.Cer.{
  get_or, EditKind, match, substitution, deletion, insertion, EditOperation, levenshtein_operations,
}
use ai_video_series_workflow.Cer.Unihan.{
  int_eq, ReadingsError, DataEvidence, load_mandarin_readings, readings_of,
}

pub record SourceDialogue : Type 0 where
  pub sha256 : Text
  pub duration_millis : ℤ
  pub sample_rate : ℤ
  pub channels : ℤ

pub record AsrConfig : Type 0 where
  pub model_id : Text
  pub model_revision : Text
  pub faster_whisper : Text
  pub device : Text
  pub compute_type : Text
  pub language : Text
  pub beam_size : ℤ
  pub vad_filter : Bool
  pub reference_prompt : Option Text
  pub project_dictionary : Bool
  pub post_hoc_allowlist : Bool

abbrev pub frozen_asr_config : AsrConfig
frozen_asr_config = record {
  model_id = codes "mobiuslabsgmbh/faster-whisper-large-v3-turbo";
  model_revision = codes "0a363e9161cbc7ed1431c9597a8ceaf0c4f78fcf";
  faster_whisper = codes "1.2.1";
  device = codes "cpu";
  compute_type = codes "int8";
  language = codes "zh";
  beam_size = pos 5;
  vad_filter = true;
  reference_prompt = none;
  project_dictionary = false;
  post_hoc_allowlist = false;
}

pub record Input : Type 0 where
  pub schema_version : Text
  pub evaluation_id : Text
  pub source_dialogue : SourceDialogue
  pub asr : AsrConfig
  pub reference_text : Text
  pub hypothesis_text : Text
  pub provider_submit_count : ℤ

abbrev pub input_schema_version : Text
input_schema_version = codes "flo104.cer-evaluation-input.v1"

pub data InputError : Type 0 where
  wrong_schema no_evaluation_id bad_digest bad_media no_reference no_hypothesis : InputError
  provider_submits configuration_not_frozen prompt_given dictionary_used : InputError

abbrev is_set {ℓ} : {A : Type ℓ} → Option A → Bool
is_set none = false
is_set (some a) = true

-- `ASRConfig.validateFrozen`.
unfoldable pub validate_frozen : AsrConfig → Option InputError
unfolding int_eq
validate_frozen c =
    let expected = frozen_asr_config in
    if not (text_eq c.model_id expected.model_id)
      || not (text_eq c.model_revision expected.model_revision)
      || not (text_eq c.faster_whisper expected.faster_whisper)
      || not (text_eq c.device expected.device)
      || not (text_eq c.compute_type expected.compute_type)
      || not (text_eq c.language expected.language)
      || not (int_eq c.beam_size expected.beam_size)
      || not c.vad_filter
    then some configuration_not_frozen
    else if is_set c.reference_prompt
    then some prompt_given
    else if c.project_dictionary || c.post_hoc_allowlist
    then some dictionary_used
    else none

-- `Input.Validate`.
unfoldable pub validate_input : Input → Option InputError
unfolding validate_frozen
validate_input i =
    if not (text_eq i.schema_version input_schema_version)
    then some wrong_schema
    else if is_blank i.evaluation_id
    then some no_evaluation_id
    else if not (is_sha256 i.source_dialogue.sha256)
    then some bad_digest
    else if leb_ℤ i.source_dialogue.duration_millis (pos 0)
        || leb_ℤ i.source_dialogue.sample_rate (pos 0)
        || leb_ℤ i.source_dialogue.channels (pos 0)
    then some bad_media
    else if is_blank i.reference_text
    then some no_reference
    else if is_blank i.hypothesis_text
    then some no_hypothesis
    else if not (int_eq i.provider_submit_count (pos 0))
    then some provider_submits
    else validate_frozen i.asr

-- `sharedReadings`: the readings of the hypothesis that the reference has too, sorted.
unfoldable pub shared_of : List Text → List Text → List Text
shared_of reference [] = []
shared_of reference (reading ∷ hypothesis) =
    let rest = shared_of reference hypothesis in
    if any (text_eq reading) reference then reading ∷ rest else rest

unfoldable pub shared_readings : List Text → List Text → List Text
unfolding shared_of
shared_readings reference hypothesis = sort_texts (shared_of reference hypothesis)

pub data Status : Type 0 where
  diagnostic_passed diagnostic_failed passed failed : Status

pub record Metric : Type 0 where
  pub errors : ℕ
  pub reference : ℕ
  pub status : Status

-- `metric`, without the percentage.
unfoldable pub metric : ℕ → ℕ → Bool → Metric
metric errors reference release_gate = record {
  errors = errors;
  reference = reference;
  status =
      if release_gate
      then (if ltb (reference * 2) (errors * 100) then failed else passed)
      else if ltb (reference * 2) (errors * 100)
      then diagnostic_failed
      else diagnostic_passed;
}

pub record Evidence : Type 0 where
  pub reference : Text
  pub hypothesis : Text
  pub reference_characters : ℕ
  pub hypothesis_characters : ℕ
  pub operations : List EditOperation
  pub standard_cer : Metric
  pub tone_aware_cer : Metric
  pub unihan : DataEvidence

-- `panicked` is an index out of range in `levenshteinOperations`.
pub data EvaluationError : Type 0 where
  invalid : InputError → EvaluationError
  not_normalized empty_text panicked : EvaluationError
  no_readings : ReadingsError → EvaluationError

abbrev or_error {ℓ} : {A : Type ℓ} → EvaluationError → Option A → Result EvaluationError A
or_error e none = err e
or_error e (some a) = ok a

abbrev invalid_input : Option InputError → Option EvaluationError
invalid_input none = none
invalid_input (some e) = some (invalid e)

abbrev when : Bool → EvaluationError → Option EvaluationError
when test e = if test then some e else none

abbrev pub is_substitution : EditKind → Bool
is_substitution substitution = true
is_substitution match = false
is_substitution deletion = false
is_substitution insertion = false

abbrev read_error {ℓ} : {A : Type ℓ} → Result ReadingsError A → Result EvaluationError A
read_error (ok a) = ok a
read_error (err e) = err (no_readings e)

module _ (simplify : Text → Option Text) (is_punct : ℕ → Bool) where
  -- The loop of `normalizeText`.
  unfoldable pub strip : Text → Text
  strip [] = []
  strip (c ∷ s) = let rest = strip s in if is_punct c || is_space c then rest else c ∷ rest

  abbrev pub stripped : Option Text → Option Text
  stripped none = none
  stripped (some simplified) = some (strip simplified)

  unfoldable pub normalize_text : Text → Option Text
  normalize_text value = stripped (simplify value)

module _ (is_han : ℕ → Bool) (readings : ℕ → List Text) where
  -- What the loop of `Evaluate` does to a substitution of one Han rune for another.
  unfoldable pub compare_readings : EditOperation → EditOperation
  compare_readings o =
      let reference_readings = readings (get_or o.reference 0 0) in
      let hypothesis_readings = readings (get_or o.hypothesis 0 0) in
      let shared = shared_readings reference_readings hypothesis_readings in
      let compared = record o {
        reference_readings = reference_readings;
        hypothesis_readings = hypothesis_readings;
        shared_readings = shared;
      } in
      if ltb 0 (length shared)
      then record compared { tone_aware_cost = 0; reclassified = true }
      else compared

  unfoldable pub classify : EditOperation → EditOperation
  unfolding compare_readings
  classify o =
      let charged = record o { tone_aware_cost = o.standard_cost } in
      if is_substitution o.kind
        && is_han (get_or o.reference 0 0)
        && is_han (get_or o.hypothesis 0 0)
      then compare_readings charged
      else charged

  -- The loop of `Evaluate` over the operations, with its two sums.
  unfoldable pub pass : ℕ → ℕ → List EditOperation → List EditOperation × ℕ × ℕ
  pass standard tone_aware [] = ([], standard, tone_aware)
  pass standard tone_aware (o ∷ os) =
      let judged = classify o in
      let (rest, s, t) =
        pass (standard + o.standard_cost) (tone_aware + judged.tone_aware_cost) os in
      (judged ∷ rest, s, t)

unfoldable pub evidence_of : Text → Text → DataEvidence → List EditOperation × ℕ × ℕ → Evidence
unfolding metric
evidence_of reference hypothesis unihan (operations, standard_errors, tone_aware_errors) = record {
  reference = reference;
  hypothesis = hypothesis;
  reference_characters = length reference;
  hypothesis_characters = length hypothesis;
  operations = operations;
  standard_cer = metric standard_errors (length reference) false;
  tone_aware_cer = metric tone_aware_errors (length reference) true;
  unihan = unihan;
}

module _ (simplify : Text → Option Text) (is_punct is_han : ℕ → Bool) (sha256_hex : Text → Text)
    (file : Option Text) where
  -- `Evaluate`.
  unfoldable pub evaluate : Input → Result EvaluationError Evidence
  evaluate input = do
    invalid_input (validate_input input)
    reference ← or_error not_normalized (normalize_text simplify is_punct input.reference_text)
    hypothesis ← or_error not_normalized (normalize_text simplify is_punct input.hypothesis_text)
    when (is_empty reference || is_empty hypothesis) empty_text
    loaded ← read_error (load_mandarin_readings sha256_hex file)
    operations ← or_error panicked (levenshtein_operations reference hypothesis)
    ok (
        evidence_of reference hypothesis loaded.1
          (pass is_han (readings_of loaded.0) 0 0 operations))
