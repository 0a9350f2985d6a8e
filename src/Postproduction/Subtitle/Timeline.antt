-- ===== src/Postproduction/Subtitle/Timeline.antt =====
-- What the loop of `SubtitleRevision.Validate`, which compares a cue with the one before it and with
-- the IDs seen, says of every two cues.
use ai_video_series_workflow.Common.{
  ℕ, suc, ◌≡◌, refl, ◌≢◌, true, false, ◌||◌, Option, none, some, List, [], ◌∷◌, All, any, Text,
  text_eq, text_eq_iff, ℤ, pos, ◌≤ℤ◌, ltb_ℤ, ltb, arith,
}
use ai_video_series_workflow.Postproduction.Subtitle.{
  Cue, CueError, SubtitleError, SubtitleRevision, SubtitleDigestInput, digest_input, validate_cue,
  validate_subtitle, cue_error, check_cues, or_next,
}

-- A cue that starts at or after another's end, under another ID.
pub record IsAfter (a b : Cue) : Type 0 where
  pub starts : a.end_millis ≤ℤ b.start_millis
  pub differs : b.id ≢ a.id

-- A cue that may stand in an episode; a duration of 0 or less is unknown.
pub record IsPlaced (duration : ℤ) (c : Cue) : Type 0 where
  pub own : validate_cue c ≡ none
  pub from_zero : pos 0 ≤ℤ c.start_millis
  pub not_empty : ltb_ℤ c.start_millis c.end_millis ≡ true
  pub ends : ltb_ℤ (pos 0) duration ≡ true → c.end_millis ≤ℤ duration

-- Every cue is placed, and every later cue is after every earlier one.
pub IsTimeline : ℤ → List Cue → Type 0
IsTimeline duration [] = Unit
IsTimeline duration (c ∷ cs) = IsPlaced duration c × All (IsAfter c) cs × IsTimeline duration cs

-- A cue that the loop may take after the end and the IDs that it has seen.
record IsNext (prior_end : ℤ) (seen : List Text) (c : Cue) : Type 0 where
  starts : prior_end ≤ℤ c.start_millis
  fresh : any (text_eq c.id) seen ≡ false

or_next-none : (a b : Option SubtitleError) → or_next a b ≡ none → (a ≡ none) × (b ≡ none)
or_next-none none b h = (refl, h)
or_next-none (some e) b h = cc

cue_times :
    (c : Cue)
    → validate_cue c ≡ none
    → (pos 0 ≤ℤ c.start_millis) × (ltb_ℤ c.start_millis c.end_millis ≡ true)
unfolding validate_cue
cue_times c h = ground (arith, h)

cue-IsPlaced :
    (duration : ℤ) (index : ℕ) (prior_end : ℤ) (seen : List Text) (c : Cue) (o : Option CueError)
    → validate_cue c ≡ o
    → cue_error duration index prior_end seen c o ≡ none
    → IsPlaced duration c
      × (any (text_eq c.id) seen ≡ false)
      × (ltb 0 index ≡ true → prior_end ≤ℤ c.start_millis)
unfolding cue_error
cue-IsPlaced duration index prior_end seen c (some e) v h = cc
cue-IsPlaced duration index prior_end seen c none v h =
    let (p, q) = cue_times c v in
    (
      record { own = v; from_zero = p; not_empty = q; ends = λ d. ground (arith, h, d) },
      ground (arith, h),
      λ i. ground (arith, h, i),
    )

clash : (a b : Text) (seen : List Text) → a ≡ b → text_eq a b || any (text_eq a) seen ≡ false → ⊥
clash a b seen e h = ground (arith, text_eq_iff a b)

le_trans : (a b c d : ℤ) → a ≤ℤ b → ltb_ℤ b c ≡ true → c ≤ℤ d → a ≤ℤ d
le_trans a b c d h k l = ground arith

-- What holds of a later cue after this one holds after those before this one.
before-cue :
    (prior_end : ℤ) (c : Cue) (seen : List Text) (cs : List Cue)
    → prior_end ≤ℤ c.start_millis
    → ltb_ℤ c.start_millis c.end_millis ≡ true
    → All (IsNext c.end_millis (c.id ∷ seen)) cs
    → All (IsNext prior_end seen) cs
before-cue prior_end c seen [] p q h = tt
before-cue prior_end c seen (d ∷ ds) p q (n, h) = (
  record {
    starts = le_trans prior_end c.start_millis c.end_millis d.start_millis p q n.starts;
    fresh = ground (arith, n.fresh);
  },
  before-cue prior_end c seen ds p q h,
)

-- What the rest of the list owes to the cue before it.
IsAfter-cue :
    (c : Cue) (seen : List Text) (cs : List Cue)
    → All (IsNext c.end_millis (c.id ∷ seen)) cs
    → All (IsAfter c) cs
IsAfter-cue c seen [] h = tt
IsAfter-cue c seen (d ∷ ds) (n, h) = (
  record { starts = n.starts; differs = λ e. clash d.id c.id seen e n.fresh },
  IsAfter-cue c seen ds h,
)

check_cues-IsNext :
    (duration : ℤ) (index : ℕ) (prior_end : ℤ) (seen : List Text) (cs : List Cue)
    → check_cues duration index prior_end seen cs ≡ none
    → ltb 0 index ≡ true
    → All (IsNext prior_end seen) cs × IsTimeline duration cs
unfolding check_cues IsTimeline
check_cues-IsNext duration index prior_end seen [] h i = (tt, tt)
check_cues-IsNext duration index prior_end seen (c ∷ cs) h i =
    let (now, later) =
      or_next-none (cue_error duration index prior_end seen c (validate_cue c)) _ h in
    let (placed, fresh, starts) = cue-IsPlaced duration index prior_end seen c _ refl now in
    let (next, line) =
      check_cues-IsNext duration (suc index) c.end_millis (c.id ∷ seen) cs later (ground arith) in
    (
      (
        record { starts = starts i; fresh = fresh },
        before-cue prior_end c seen cs (starts i) placed.not_empty next,
      ),
      (placed, IsAfter-cue c seen cs next, line),
    )

check_cues-IsTimeline :
    (duration : ℤ) (cs : List Cue)
    → check_cues duration 0 (pos 0) [] cs ≡ none
    → IsTimeline duration cs
unfolding check_cues IsTimeline
check_cues-IsTimeline duration [] h = tt
check_cues-IsTimeline duration (c ∷ cs) h =
    let (now, later) = or_next-none (cue_error duration 0 (pos 0) [] c (validate_cue c)) _ h in
    let (placed, fresh, starts) = cue-IsPlaced duration 0 (pos 0) [] c _ refl now in
    let (next, line) =
      check_cues-IsNext duration 1 c.end_millis (c.id ∷ []) cs later (ground arith) in
    (placed, IsAfter-cue c [] cs next, line)

module _ (digest : SubtitleDigestInput → Text) where
  -- A subtitle revision that passes `Validate` has the content hash of its content, and its cues are
  -- a timeline: each is valid, starts at or after 0, ends after it starts and, when the duration is
  -- positive, by the duration; and each later cue starts at or after the end of each earlier one and
  -- has another ID.
  pub validate-IsTimeline :
      (s : SubtitleRevision) (duration : ℤ)
      → validate_subtitle digest s duration ≡ none
      → (s.content_hash ≡ digest (digest_input s)) × IsTimeline duration s.cues
  unfolding validate_subtitle
  validate-IsTimeline s duration h = (
    ground (arith, h, text_eq_iff (digest (digest_input s)) s.content_hash),
    check_cues-IsTimeline duration s.cues (ground (arith, h)),
  )
