-- ===== src/Postproduction/Subtitle.antt =====
-- internal/videopipeline/postproduction/subtitle.go: immutable subtitle revisions and their SRT. The
-- content hash is the SHA-256 of the canonical JSON, both of the Go library: `digest` stands for
-- them. A revision number is an `int` of 64 bits, and error messages are constructors.
pub mod Timeline
pub mod Revise
pub mod Timestamp
mod Examples
use ai_video_series_workflow.Common.{
  ℕ, zero, suc, ◌+◌, ◌/◌, ◌%◌, Bool, true, false, not, ◌&&◌, ◌||◌, Option, none, some, List, [],
  ◌∷◌, ◌++◌, ltb, leb, ◌==◌, if◌then◌else◌, Text, text_eq, codes, is_blank, has_no, trim_space,
  is_sha256, any, all, ℤ, pos, negsuc, pos_part, ◌+ℤ◌, ltb_ℤ, leb_ℤ, decimal, padded, Result, ok,
  err, ◌>>◌,
}
use ai_video_series_workflow.Provider.Budget.{max_int64}

pub record Cue : Type 0 where
  pub id : Text
  pub speaker : Text
  pub text : Text
  pub voice_ref : Text
  pub start_millis : ℤ
  pub end_millis : ℤ

pub data CueError : Type 0 where
  no_cue_id bad_text nul_text bad_timestamps : CueError

-- `utf8.ValidString`: every code point is a Unicode scalar value.
unfoldable pub is_valid_utf8 : Text → Bool
is_valid_utf8 s = all (λ c. ltb c 0xD800 || (leb 0xE000 c && ltb c 0x110000)) s

-- `Cue.Validate`.
unfoldable pub validate_cue : Cue → Option CueError
validate_cue c =
    if is_blank c.id
    then some no_cue_id
    else if not (is_valid_utf8 c.text) || is_blank c.text
    then some bad_text
    else if any (λ x. x == 0) c.text
    then some nul_text
    else if ltb_ℤ c.start_millis (pos 0) || leb_ℤ c.end_millis c.start_millis
    then some bad_timestamps
    else none

pub record SubtitleRevision : Type 0 where
  pub id : Text
  pub parent_revision_id : Text
  pub revision : ℤ
  pub language : Text
  pub source_revision_ids : List Text
  pub cues : List Cue
  pub content_hash : Text

pub record SubtitleDigestInput : Type 0 where
  pub parent_revision_id : Text
  pub revision : ℤ
  pub language : Text
  pub source_revision_ids : List Text
  pub cues : List Cue

pub data SubtitleError : Type 0 where
  no_id bad_revision no_parent no_language no_sources bad_hash wrong_hash : SubtitleError
  cue_invalid : ℕ → CueError → SubtitleError
  duplicate_cue overlapping_cue late_cue : Text → SubtitleError
  parent_invalid : SubtitleError → SubtitleError
  same_id : SubtitleError

-- `SubtitleRevision.digestInput`.
unfoldable pub digest_input : SubtitleRevision → SubtitleDigestInput
digest_input s = record {
  parent_revision_id = s.parent_revision_id;
  revision = s.revision;
  language = s.language;
  source_revision_ids = s.source_revision_ids;
  cues = s.cues;
}

-- The checks of one cue of the loop of `Validate`, after its own.
unfoldable pub cue_error : ℤ → ℕ → ℤ → List Text → Cue → Option CueError → Option SubtitleError
cue_error duration index prior_end seen c (some e) = some (cue_invalid index e)
cue_error duration index prior_end seen c none =
    if any (text_eq c.id) seen
    then some (duplicate_cue c.id)
    else if ltb 0 index && ltb_ℤ c.start_millis prior_end
    then some (overlapping_cue c.id)
    else if ltb_ℤ (pos 0) duration && ltb_ℤ duration c.end_millis
    then some (late_cue c.id)
    else none

abbrev pub or_next : Option SubtitleError → Option SubtitleError → Option SubtitleError
or_next none k = k
or_next (some e) k = some e

-- The loop, with its index, the end of the cue before and the IDs seen.
unfoldable pub check_cues : ℤ → ℕ → ℤ → List Text → List Cue → Option SubtitleError
check_cues duration index prior_end seen [] = none
check_cues duration index prior_end seen (c ∷ cs) =
    or_next (cue_error duration index prior_end seen c (validate_cue c))
      (check_cues duration (suc index) c.end_millis (c.id ∷ seen) cs)

-- `parent.Revision+1`, which wraps around.
unfoldable pub next_revision : ℤ → ℤ
next_revision r = if leb_ℤ (pos max_int64) r then negsuc max_int64 else r +ℤ pos 1

module _ (digest : SubtitleDigestInput → Text) where
  -- `SubtitleRevision.Validate`.
  unfoldable pub validate_subtitle : SubtitleRevision → ℤ → Option SubtitleError
  validate_subtitle s duration =
      if is_blank s.id
      then some no_id
      else if ltb_ℤ s.revision (pos 1)
      then some bad_revision
      else if ltb_ℤ (pos 1) s.revision && is_blank s.parent_revision_id
      then some no_parent
      else if is_blank s.language
      then some no_language
      else if has_no s.source_revision_ids
      then some no_sources
      else if not (is_sha256 s.content_hash)
      then some bad_hash
      else if not (text_eq (digest (digest_input s)) s.content_hash)
      then some wrong_hash
      else check_cues duration 0 (pos 0) [] s.cues

  -- The revision that `NewSubtitleRevision` builds.
  unfoldable pub hashed : Text → Text → ℤ → Text → List Text → List Cue → SubtitleRevision
  hashed id parent revision language sources cues = record {
    id = id;
    parent_revision_id = parent;
    revision = revision;
    language = language;
    source_revision_ids = sources;
    cues = cues;
    content_hash = digest (record {
      parent_revision_id = parent;
      revision = revision;
      language = language;
      source_revision_ids = sources;
      cues = cues;
    });
  }

  -- `NewSubtitleRevision`.
  unfoldable pub new_subtitle_revision :
      Text → Text → ℤ → Text → List Text → List Cue → Result SubtitleError SubtitleRevision
  new_subtitle_revision id parent revision language sources cues =
      let result = hashed id parent revision language sources cues in
      validate_subtitle result (pos 0) >> ok result

  abbrev pub parent_error : Option SubtitleError → Option SubtitleError
  parent_error none = none
  parent_error (some e) = some (parent_invalid e)

  -- `ReviseSubtitle`.
  unfoldable pub revise_subtitle :
      SubtitleRevision → Text → List Cue → Result SubtitleError SubtitleRevision
  revise_subtitle parent id cues = do
    parent_error (validate_subtitle parent (pos 0))
    if text_eq id parent.id then some same_id else none
    new_subtitle_revision id parent.id (next_revision parent.revision) parent.language
        parent.source_revision_ids cues

-- `formatSRTTimestamp`, of a time that is not negative.
unfoldable pub format_srt_timestamp : ℕ → Text
format_srt_timestamp milliseconds =
    let hours = milliseconds / 3600000 in
    let in_hour = milliseconds % 3600000 in
    let minutes = in_hour / 60000 in
    let in_minute = in_hour % 60000 in
    let seconds = in_minute / 1000 in
    let millis = in_minute % 1000 in
    padded 2 hours
    ++ (b':' ∷ (padded 2 minutes ++ (b':' ∷ (padded 2 seconds ++ (b',' ∷ padded 3 millis)))))

-- The two `strings.ReplaceAll`: "\r\n" to "\n", and then "\r" to "\n".
unfoldable pub line_feeds : Text → Text
line_feeds [] = []
line_feeds (c ∷ []) = (if c == 13 then 10 else c) ∷ []
line_feeds (c ∷ d ∷ s) =
    let rest = line_feeds (d ∷ s) in
    if c == 13 then (if d == 10 then rest else 10 ∷ rest) else c ∷ rest

-- One block of `RenderSRT`, whose first line is the index plus one.
unfoldable pub render_cue : ℕ → Cue → Text
render_cue index c =
    decimal (index + 1)
    ++ 10 ∷ format_srt_timestamp (pos_part c.start_millis)
    ++ codes " --> "
    ++ format_srt_timestamp (pos_part c.end_millis)
    ++ 10 ∷ trim_space (line_feeds c.text)
    ++ 10 ∷ 10 ∷ []

unfoldable pub render_cues : ℕ → List Cue → Text
render_cues index [] = []
render_cues index (c ∷ cs) = render_cue index c ++ render_cues (suc index) cs

-- `RenderSRT`; the bytes are the UTF-8 of the text.
unfoldable pub render_srt :
    (SubtitleDigestInput → Text) → SubtitleRevision → ℤ → Result SubtitleError Text
render_srt digest s duration = validate_subtitle digest s duration >> ok (render_cues 0 s.cues)
