-- ===== src/Production/Prompt/Diff.antt =====
-- internal/videopipeline/production/prompt.go: the comparison of two prompts, and what it lists. The
-- keys of two maps are taken in order, each once; a key that a map does not have has the empty text.
use ai_video_series_workflow.Common.{
  ◌≡◌, refl, sym, ap, ◌∙◌, ◌↔◌, ◌≢◌, inl, inr, Bool, true, false, not, ◌||◌, ◌&&◌, Option, none,
  some, List, [], ◌∷◌, ◌++◌, any, if◌then◌else◌, Text, text_eq, text_eq-eq, text_eq_refl,
  text_eq_iff, arith, lookup, sort_texts, insert_sorted, compact, Bool-cases,
}
use ai_video_series_workflow.Production.RevisionState.{sorted_unique}
use ai_video_series_workflow.Production.Prompt.{PromptCodec, Snapshot}

pub record PromptDiff : Type 0 where
  pub changed_shot : Bool
  pub changed_context_keys : List Text
  pub changed_asset_aliases : List Text
  pub previous_prompt_changed : Bool
  pub tail_frame_changed : Bool
  pub output_changed : Bool

abbrev pub or_empty : Option Text → Text
or_empty none = []
or_empty (some s) = s

-- `m[key]`.
abbrev pub value_of : Text → List (Text × Text) → Text
value_of key m = or_empty (lookup key m)

abbrev pub keys_of : List (Text × Text) → List Text
keys_of [] = []
keys_of ((key, value) ∷ m) = key ∷ keys_of m

abbrev pub differs_at : List (Text × Text) → List (Text × Text) → Text → Bool
differs_at before after key = not (text_eq (value_of key before) (value_of key after))

-- The loop that collects the keys that differ.
unfoldable pub differing : List (Text × Text) → List (Text × Text) → List Text → List Text
differing before after [] = []
differing before after (key ∷ keys) =
    let rest = differing before after keys in
    if differs_at before after key then key ∷ rest else rest

unfoldable pub changed_keys : List (Text × Text) → List (Text × Text) → List Text
changed_keys before after = differing before after (sorted_unique (keys_of before ++ keys_of after))

-- `DiffPrompts`.
unfoldable pub diff_prompts : (c : PromptCodec) → Snapshot c → Snapshot c → PromptDiff
diff_prompts c before after = record {
  changed_shot = not (text_eq before.shot_revision.content_hash after.shot_revision.content_hash);
  changed_context_keys =
      changed_keys before.effective_context.values after.effective_context.values;
  changed_asset_aliases = changed_keys before.asset_aliases after.asset_aliases;
  previous_prompt_changed = not (text_eq before.previous_prompt_hash after.previous_prompt_hash);
  tail_frame_changed = not (text_eq before.tail_frame_hash after.tail_frame_hash);
  output_changed = not (text_eq (c.hash_output before.output) (c.hash_output after.output));
}

abbrev has : Text → List Text → Bool
has key keys = any (text_eq key) keys

has-insert_sorted :
    (key s : Text) (ss : List Text) → has key (insert_sorted s ss) ≡ (text_eq key s || has key ss)
unfolding insert_sorted
has-insert_sorted key s [] = refl
has-insert_sorted key s (t ∷ ss) = ground (arith, has-insert_sorted key s ss)

has-sort_texts : (key : Text) (ss : List Text) → has key (sort_texts ss) ≡ has key ss
unfolding sort_texts
has-sort_texts key [] = refl
has-sort_texts key (s ∷ ss) =
    ground (arith, has-sort_texts key ss, has-insert_sorted key s (sort_texts ss))

has-compact : (key : Text) (ss : List Text) → has key (compact ss) ≡ has key ss
unfolding compact
has-compact key [] = refl
has-compact key (s ∷ []) = refl
has-compact key (s ∷ t ∷ ss) = elim (Bool-cases (text_eq s t)) [
  | inl b ↦
      let same : text_eq key s ≡ text_eq key t = ap (text_eq key) (text_eq-eq s t b) in
      ground (arith, b, same, has-compact key (t ∷ ss))
  | inr b ↦ ground (arith, b, has-compact key (t ∷ ss))
]

has-append : (key : Text) (xs ys : List Text) → has key (xs ++ ys) ≡ (has key xs || has key ys)
has-append key [] ys = refl
has-append key (x ∷ xs) ys = ground (arith, has-append key xs ys)

-- A key that a map does not have has the empty text.
absent-empty :
    (key : Text) (m : List (Text × Text)) → has key (keys_of m) ≡ false → value_of key m ≡ []
unfolding lookup
absent-empty key [] h = refl
absent-empty key ((k, v) ∷ m) h =
    ground (arith, h, absent-empty key m, text_eq_iff k key, text_eq_iff key k)

has-differing :
    (before after : List (Text × Text)) (key : Text) (keys : List Text)
    → has key (differing before after keys) ≡ (has key keys && differs_at before after key)
unfolding differing
has-differing before after key [] = refl
has-differing before after key (k ∷ keys) = elim (Bool-cases (text_eq key k)) [
  | inl b ↦
      let same : differs_at before after key ≡ differs_at before after k =
        ap (differs_at before after) (text_eq-eq key k b) in
      ground (arith, b, same, has-differing before after key keys)
  | inr b ↦ ground (arith, b, has-differing before after key keys)
]

changed_keys_iff :
    (before after : List (Text × Text)) (key : Text)
    → has key (changed_keys before after) ≡ differs_at before after key
unfolding changed_keys sorted_unique
changed_keys_iff before after key =
    let keys = keys_of before ++ keys_of after in
    let found = has-differing before after key (compact (sort_texts keys)) in
    let kept =
      has-compact key (sort_texts keys)
      ∙ has-sort_texts key keys
      ∙ has-append key (keys_of before) (keys_of after) in
    elim (Bool-cases (has key (keys_of before) || has key (keys_of after))) [
      | inl b ↦ found ∙ ap (λ t. t && differs_at before after key) (kept ∙ b)
      | inr b ↦
          let old = absent-empty key before (ground (arith, b)) in
          let new = absent-empty key after (ground (arith, b)) in
          found
          ∙ ap (λ t. t && differs_at before after key) (kept ∙ b)
          ∙ rw (old, new) (ground (arith, text_eq_refl []))
    ]

differs_iff : (s t : Text) → (not (text_eq s t) ≡ true) ↔ (s ≢ t)
differs_iff s t = (
  λ h e. clash (sym (ap not (ap (text_eq s) (sym e) ∙ text_eq_refl s)) ∙ h),
  λ apart. elim (Bool-cases (text_eq s t)) [
    | inl b ↦ absurd (apart (text_eq-eq s t b))
    | inr b ↦ ap not b
  ],
)
  where
    clash : false ≡ true → ⊥
    clash e = cc

changed_keys-exact :
    (before after : List (Text × Text)) (key : Text)
    → (any (text_eq key) (changed_keys before after) ≡ true)
      ↔ (value_of key before ≢ value_of key after)
changed_keys-exact before after key =
    let same = changed_keys_iff before after key in
    let differs = differs_iff (value_of key before) (value_of key after) in
    (λ found. differs.0 (sym same ∙ found), λ apart. same ∙ differs.1 apart)

-- `DiffPrompts` lists a context key, and an asset alias, exactly when the two prompts give it different
-- values, where a key that a prompt does not have counts as the empty text.
pub diff_prompts-exact :
    (c : PromptCodec) (before after : Snapshot c) (key : Text)
    → ((any (text_eq key) (diff_prompts c before after).changed_context_keys ≡ true) ↔ (
        value_of key before.effective_context.values ≢ value_of key after.effective_context.values))
      × ((any (text_eq key) (diff_prompts c before after).changed_asset_aliases ≡ true)
          ↔ (value_of key before.asset_aliases ≢ value_of key after.asset_aliases))
unfolding diff_prompts
diff_prompts-exact c before after key = (
  changed_keys-exact before.effective_context.values after.effective_context.values key,
  changed_keys-exact before.asset_aliases after.asset_aliases key,
)
