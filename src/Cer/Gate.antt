-- ===== src/Cer/Gate.antt =====
-- What an accepted evaluation says, and when one is accepted.
use native.Mathlib.Nat.{zero-add}
use ai_video_series_workflow.Common.{
  ℕ, ◌+◌, ◌*◌, ◌≤◌, ◌≡◌, refl, ◌↔◌, Bool, true, false, ◌&&◌, Option, none, some, List, [], ◌∷◌,
  arith, ltb, if◌then◌else◌, Text, text_eq, text_eq_iff, is_empty, any, All, length,
  length-sort_texts, ok,
}
use ai_video_series_workflow.Cer.{
  get_or, EditKind, match, substitution, deletion, insertion, EditOperation,
}
use ai_video_series_workflow.Cer.Script.{Edits}
use ai_video_series_workflow.Cer.Trace.{IsEdit, IsOfKind, standard_total}
use ai_video_series_workflow.Cer.Optimal.{levenshtein_operations-IsOptimal, IsOptimal}
use ai_video_series_workflow.Cer.Unihan.{
  Readings, DataEvidence, load_mandarin_readings, readings_of,
}
use ai_video_series_workflow.Cer.Evaluation.{
  AsrConfig, frozen_asr_config, Input, validate_frozen, validate_input, shared_of, shared_readings,
  passed, Evidence, normalize_text, compare_readings, is_substitution, classify, pass, evidence_of,
  evaluate,
}

frozen_accepted : validate_frozen frozen_asr_config ≡ none
unfolding validate_frozen text_eq
frozen_accepted = refl

-- The frozen configuration is the only one that is accepted.
pub validate_frozen_iff : (c : AsrConfig) → (validate_frozen c ≡ none) ↔ (c ≡ frozen_asr_config)
unfolding validate_frozen
validate_frozen_iff c = (
  λ h. ground (
    arith,
    h,
    text_eq_iff c.model_id frozen_asr_config.model_id,
    text_eq_iff c.model_revision frozen_asr_config.model_revision,
    text_eq_iff c.faster_whisper frozen_asr_config.faster_whisper,
    text_eq_iff c.device frozen_asr_config.device,
    text_eq_iff c.compute_type frozen_asr_config.compute_type,
    text_eq_iff c.language frozen_asr_config.language,
  ),
  λ e. rw e frozen_accepted,
)

abbrev common : List Text → List Text → Bool
common reference hypothesis = any (λ r. any (text_eq r) reference) hypothesis

shared_of-common :
    (reference hypothesis : List Text)
    → ltb 0 (length (shared_of reference hypothesis)) ≡ common reference hypothesis
unfolding shared_of
shared_of-common reference [] = refl
shared_of-common reference (r ∷ hypothesis) = ground (arith, shared_of-common reference hypothesis)

shared_readings-common :
    (reference hypothesis : List Text)
    → ltb 0 (length (shared_readings reference hypothesis)) ≡ common reference hypothesis
unfolding shared_readings
shared_readings-common reference hypothesis =
    rw (length-sort_texts (shared_of reference hypothesis)) (shared_of-common reference hypothesis)

substitution_cost :
    (k : EditKind) (o : EditOperation)
    → IsOfKind k o
    → is_substitution k ≡ true
    → o.standard_cost ≡ 1
substitution_cost substitution o (x, y, r, h, c) s = c
substitution_cost match o e s = cc
substitution_cost deletion o e s = cc
substitution_cost insertion o e s = cc

module _ (is_han : ℕ → Bool) (readings : ℕ → List Text) where
  -- Two Han runes that some reading with its tone makes homophones.
  abbrev pub homophone : EditOperation → Bool
  homophone o =
      is_substitution o.kind
      && is_han (get_or o.reference 0 0)
      && is_han (get_or o.hypothesis 0 0)
      && common (readings (get_or o.reference 0 0)) (readings (get_or o.hypothesis 0 0))

  abbrev pub homophones : List EditOperation → ℕ
  homophones [] = 0
  homophones (o ∷ os) = (if homophone o then 1 else 0) + homophones os

  abbrev classified : EditOperation → EditOperation
  classified = classify is_han readings

  compare_readings_cost :
      (o : EditOperation)
      → (compare_readings is_han readings o).tone_aware_cost ≡ (
          if common (readings (get_or o.reference 0 0)) (readings (get_or o.hypothesis 0 0))
          then 0
          else o.tone_aware_cost)
  unfolding compare_readings
  compare_readings_cost o = ground (
    arith,
    shared_readings-common (readings (get_or o.reference 0 0)) (readings (get_or o.hypothesis 0 0)),
  )

  -- Judging an operation leaves its kind and its runes.
  classified_keeps :
      (o : EditOperation)
      → ((classified o).kind ≡ o.kind)
        × ((classified o).reference ≡ o.reference)
        × ((classified o).hypothesis ≡ o.hypothesis)
        × ((classified o).standard_cost ≡ o.standard_cost)
  unfolding classify compare_readings
  classified_keeps o = ground arith

  homophone-classified : (o : EditOperation) → homophone (classified o) ≡ homophone o
  homophone-classified o = let k = classified_keeps o in rw (k.0, k.1, k.2)

  classified_cost :
      (o : EditOperation)
      → IsEdit o
      → (classified o).tone_aware_cost + (if homophone o then 1 else 0) ≡ o.standard_cost
  unfolding classify
  classified_cost o e = ground (
    arith,
    substitution_cost o.kind o e,
    compare_readings_cost (record o { tone_aware_cost = o.standard_cost }),
  )

  abbrev passed_over : ℕ → ℕ → List EditOperation → List EditOperation × ℕ × ℕ
  passed_over = pass is_han readings

  pass_sums :
      (s t : ℕ) (os : List EditOperation)
      → All IsEdit os
      → let (os', s', t') = passed_over s t os in
        (s' ≡ s + standard_total os)
        × (t' + homophones os' ≡ t + standard_total os)
        × (standard_total os' ≡ standard_total os)
        × (homophones os' ≡ homophones os)
  unfolding pass
  pass_sums s t [] e = (omega arith, omega arith, refl, refl)
  pass_sums s t (o ∷ os) e =
      let (a, b, c, d) =
        pass_sums (s + o.standard_cost) (t + (classified o).tone_aware_cost) os e.1 in
      (
        omega (arith, a),
        rw (homophone-classified o) (omega (arith, b, classified_cost o e.0)),
        omega (arith, c, classified_keeps o),
        rw (homophone-classified o) (omega (arith, d)),
      )

  -- What the evidence of an accepted evaluation says of the normalised texts.
  pub record IsFaithful (reference hypothesis : Text) (e : Evidence) : Type 0 where
    pub characters : e.reference_characters ≡ length reference
    pub script : Edits reference hypothesis e.standard_cer.errors
    pub least : (n : ℕ) → Edits reference hypothesis n → e.standard_cer.errors ≤ n
    pub forgiven : e.tone_aware_cer.errors + homophones e.operations ≡ e.standard_cer.errors
    pub gate :
        (e.tone_aware_cer.status ≡ passed) ↔ (e.tone_aware_cer.errors * 100 ≤ length reference * 2)

  evidence-IsFaithful :
      (reference hypothesis : Text) (unihan : DataEvidence) (os : List EditOperation)
      → IsOptimal reference hypothesis os
      → IsFaithful reference hypothesis
          (evidence_of reference hypothesis unihan (passed_over 0 0 os))
  unfolding evidence_of
  evidence-IsFaithful reference hypothesis unihan os v =
      let (a, b, c, d) = pass_sums 0 0 os v.edits in
      record {
        characters = refl;
        script = rw (a, zero-add) v.script;
        least = λ n s. omega (arith, a, v.least n s);
        forgiven = omega (arith, a, b);
        gate = ground arith;
      }

module _ (simplify : Text → Option Text) (is_punct is_han : ℕ → Bool) (sha256_hex : Text → Text)
    (file : Option Text) where
  -- An evaluation of a valid input whose texts normalise to non-empty ones, with a data file whose
  -- readings load, returns, and its evidence counts: the standard errors are the least number of edits
  -- between the normalised texts, the tone-aware errors are those less the substitutions of homophones
  -- by the loaded readings, and the release gate passes exactly up to two errors for each hundred
  -- characters; it names the data.
  pub evaluate-IsFaithful :
      (input : Input) (reference hypothesis : Text) (m : Readings) (unihan : DataEvidence)
      → validate_input input ≡ none
      → normalize_text simplify is_punct input.reference_text ≡ some reference
      → normalize_text simplify is_punct input.hypothesis_text ≡ some hypothesis
      → is_empty reference ≡ false
      → is_empty hypothesis ≡ false
      → load_mandarin_readings sha256_hex file ≡ ok (m, unihan)
      → (e : Evidence) × (evaluate simplify is_punct is_han sha256_hex file input ≡ ok e)
        × IsFaithful is_han (readings_of m) reference hypothesis e
        × (e.unihan ≡ unihan)
  unfolding evaluate evidence_of
  evaluate-IsFaithful input reference hypothesis m unihan v r h nr nh loaded =
      let (os, returned, optimal) = levenshtein_operations-IsOptimal reference hypothesis in
      (
        evidence_of reference hypothesis unihan (pass is_han (readings_of m) 0 0 os),
        rw (v, r, h, nr, nh, loaded, returned),
        evidence-IsFaithful is_han (readings_of m) reference hypothesis unihan os optimal,
        refl,
      )
