-- ===== src/Postproduction/Subtitle/Revise.antt =====
-- An edit makes a valid child and leaves its parent.
use ai_video_series_workflow.Common.{
  ◌≡◌, refl, sym, ◌≢◌, false, Option, none, some, List, Text, text_eq, text_eq_iff, ℤ, pos, ◌+ℤ◌,
  ltb_ℤ, leb_ℤ, arith, ok, >>-ok, if◌then◌else◌, inl, inr, Bool-cases,
}
use ai_video_series_workflow.Provider.Budget.{max_int64}
use ai_video_series_workflow.Postproduction.Subtitle.{
  Cue, SubtitleError, SubtitleRevision, SubtitleDigestInput, validate_subtitle, hashed,
  new_subtitle_revision, revise_subtitle, parent_error, same_id, next_revision,
}

-- The child of an edit.
pub record IsChild (parent child : SubtitleRevision) (id : Text) (cues : List Cue) : Type 0 where
  pub named : child.id ≡ id
  pub other_id : id ≢ parent.id
  pub parented : child.parent_revision_id ≡ parent.id
  pub numbered : child.revision ≡ parent.revision +ℤ pos 1
  pub language : child.language ≡ parent.language
  pub sources : child.source_revision_ids ≡ parent.source_revision_ids
  pub edited : child.cues ≡ cues

-- A wrapped number is not positive.
next_revision-positive :
    (r : ℤ) → ltb_ℤ (next_revision r) (pos 1) ≡ false → next_revision r ≡ r +ℤ pos 1
unfolding next_revision
next_revision-positive r h = elim (Bool-cases (leb_ℤ (pos max_int64) r)) [
  | inl e ↦ ground (arith, h, e)
  | inr e ↦ rw e refl
]

module _ (digest : SubtitleDigestInput → Text) where
  validate-positive :
      (s : SubtitleRevision)
      → validate_subtitle digest s (pos 0) ≡ none
      → ltb_ℤ s.revision (pos 1) ≡ false
  unfolding validate_subtitle
  validate-positive s h = ground (arith, h)

  parent-valid : (o : Option SubtitleError) → parent_error digest o ≡ none → o ≡ none
  parent-valid none h = refl
  parent-valid (some e) h = cc

  different : (a b : Text) → (if text_eq a b then some same_id else none) ≡ none → a ≢ b
  different a b h e = ground (arith, text_eq_iff a b)

  -- A child that `ReviseSubtitle` returns passes `Validate`, has the new ID, which is not the
  -- parent's, the parent's ID as its parent, the parent's number plus one without wrapping around,
  -- the parent's language and sources, and the edited cues; and the parent passes `Validate`.
  pub revise-IsChild :
      (parent child : SubtitleRevision) (id : Text) (cues : List Cue)
      → revise_subtitle digest parent id cues ≡ ok child
      → (validate_subtitle digest parent (pos 0) ≡ none)
        × (validate_subtitle digest child (pos 0) ≡ none)
        × IsChild parent child id cues
  unfolding revise_subtitle new_subtitle_revision hashed
  revise-IsChild parent child id cues h =
      let (p, h1) = >>-ok (parent_error digest (validate_subtitle digest parent (pos 0))) _ h in
      let (q, h2) = >>-ok (if text_eq id parent.id then some same_id else none) _ h1 in
      let made : SubtitleRevision =
        hashed digest id parent.id (next_revision parent.revision) parent.language
          parent.source_revision_ids cues in
      let (v, h3) = >>-ok (validate_subtitle digest made (pos 0)) _ h2 in
      let same : made ≡ child = cc in
      rw (sym same) (
        parent-valid (validate_subtitle digest parent (pos 0)) p,
        v,
        record {
          named = refl;
          other_id = different id parent.id q;
          parented = refl;
          numbered = next_revision-positive parent.revision (validate-positive made v);
          language = refl;
          sources = refl;
          edited = refl;
        },
      )
