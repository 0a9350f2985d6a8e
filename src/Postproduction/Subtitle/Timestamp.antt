-- ===== src/Postproduction/Subtitle/Timestamp.antt =====
-- A timestamp of SRT can be read back.
use ai_video_series_workflow.Common.{
  ℕ, zero, suc, ◌+◌, ◌*◌, ◌-◌, ◌/◌, ◌%◌, ◌≤◌, ◌<◌, ◌≡◌, refl, sym, ap, ◌∙◌, [], ◌∷◌, ◌++◌,
  append-nil, Bool-cases, inl, inr, All, All-append, length, ltb, Text, arith, digits, decimal,
  zeros, padded, spelled, spelled-padded, if◌then◌else◌, ◌==◌,
}
use ai_video_series_workflow.Postproduction.Subtitle.{format_srt_timestamp}

-- A reader of "h:m:s,ms": the time of the fields before, and the number read in this field.
pub read_from : ℕ → ℕ → Text → ℕ
read_from total field [] = total + field
read_from total field (c ∷ s) =
    if c == b':'
    then read_from ((total + field) * 60) 0 s
    else if c == b','
    then read_from ((total + field) * 1000) 0 s
    else read_from total (field * 10 + (c - 48)) s

pub read_srt_timestamp : Text → ℕ
read_srt_timestamp s = read_from 0 0 s

IsDigit : ℕ → Type 0
IsDigit c = (48 ≤ c) × (c < 58)

digits-IsDigit : (fuel n : ℕ) → All IsDigit (digits fuel n)
unfolding digits IsDigit
digits-IsDigit zero n = tt
digits-IsDigit (suc fuel) n = elim (Bool-cases (ltb n 10)) [
  | inl e ↦ rw e ((omega arith, ground (arith, e)), tt)
  | inr e ↦ rw e (
      All-append IsDigit (digits fuel (n / 10)) ((n % 10 + 48) ∷ []) (digits-IsDigit fuel (n / 10))
        ((omega arith, omega arith), tt))
]

zeros-IsDigit : (n : ℕ) (s : Text) → All IsDigit s → All IsDigit (zeros n s)
unfolding zeros IsDigit
zeros-IsDigit zero s h = h
zeros-IsDigit (suc n) s h = ((omega arith, omega arith), zeros-IsDigit n s h)

padded-IsDigit : (w n : ℕ) → All IsDigit (padded w n)
unfolding padded decimal
padded-IsDigit w n = zeros-IsDigit (w - length (decimal n)) (decimal n) (digits-IsDigit (suc n) n)

-- The digits of a field are read into the number that they spell.
read_from-field :
    (total field : ℕ) (s t : Text)
    → All IsDigit s
    → read_from total field (s ++ t) ≡ read_from total (spelled field s) t
unfolding read_from spelled IsDigit
read_from-field total field [] t h = refl
read_from-field total field (c ∷ s) t h =
    ground (arith, h.0.0, h.0.1, read_from-field total (field * 10 + (c - 48)) s t h.1)

read_from-padded :
    (total w n : ℕ) (t : Text) → read_from total 0 (padded w n ++ t) ≡ read_from total n t
read_from-padded total w n t =
    read_from-field total 0 (padded w n) t (padded-IsDigit w n)
    ∙ ap (λ x. read_from total x t) (spelled-padded w n)

read_from-end : (total w n : ℕ) → read_from total 0 (padded w n) ≡ total + n
unfolding read_from
read_from-end total w n =
    ap (read_from total 0) (sym (append-nil (padded w n))) ∙ read_from-padded total w n []

read_from-colon :
    (total w n : ℕ) (t : Text)
    → read_from total 0 (padded w n ++ b':' ∷ t) ≡ read_from ((total + n) * 60) 0 t
unfolding read_from
read_from-colon total w n t = read_from-padded total w n (b':' ∷ t)

read_from-comma :
    (total w n : ℕ) (t : Text)
    → read_from total 0 (padded w n ++ b',' ∷ t) ≡ read_from ((total + n) * 1000) 0 t
unfolding read_from
read_from-comma total w n t = read_from-padded total w n (b',' ∷ t)

fields_sum :
    (ms : ℕ)
    → (((0 + ms / 3600000) * 60 + ms % 3600000 / 60000) * 60 + ms % 3600000 % 60000 / 1000) * 1000
        + ms % 3600000 % 60000 % 1000
      ≡ ms
fields_sum ms = omega arith

-- Reading hours, minutes, seconds and milliseconds back from a formatted timestamp gives the time.
pub read-format_srt_timestamp : (ms : ℕ) → read_srt_timestamp (format_srt_timestamp ms) ≡ ms
unfolding read_srt_timestamp format_srt_timestamp
read-format_srt_timestamp ms =
    read_from-colon 0 2 _ _
    ∙ read_from-colon _ 2 _ _
    ∙ read_from-comma _ 2 _ _
    ∙ read_from-end _ 3 _
    ∙ fields_sum ms
