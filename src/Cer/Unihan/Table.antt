-- ===== src/Cer/Unihan/Table.antt =====
-- The readings that load are the rows of the data file.
use mathlib.Core.List.{Memᴰ}
use ai_video_series_workflow.Common.{
  ◌≡◌, refl, ◌+◌, sym, ap, ◌∙◌, ◌⊎◌, inl, inr, ℕ, Bool, true, false, not, ◌||◌, Option, none, some,
  List, [], ◌∷◌, ◌==◌, arith, if◌then◌else◌, Text, text_eq, text_eq-eq, codes, is_empty, length,
  take, ℤ, ok, >>=-ok, has_no, All, Bool-cases, negsuc, pos,
}
use ai_video_series_workflow.Cer.Unihan.{
  int_eq, Readings, DataEvidence, find_readings, split_by, fields, raw_lines, drop_cr, is_comment,
  is_too_long, parse_int, drop_two, unihan_property, unihan_subset_file_sha256, new_entry,
  add_entry, read_fields, read_lines, complete, load_mandarin_readings,
}

-- A line that is a row: the code point, the property and the readings of the entry, between tabs.
pub record IsRow (raw : Text) (key : ℤ) (values : List Text) : Type 0 where
  pub name : Text
  pub text : Text
  pub parts : split_by (λ c. c == 9) (drop_cr raw) ≡ name ∷ unihan_property ∷ text ∷ []
  pub prefixed : take 2 name ≡ codes "U+"
  pub code_point : parse_int (drop_two name) ≡ some key
  pub read : fields text ≡ values

abbrev pub is_skipped : Text → Bool
is_skipped raw = is_empty (drop_cr raw) || is_comment (drop_cr raw)

-- The map `n` has the entries of the map `m`, and one entry of a new key for each row of the lines.
pub data Adds : Readings → List Text → Readings → Type 0 where
  ends : {m : Readings} → Adds m [] m
  skips :
      {m n : Readings} {raw : Text} {lines : List Text}
      → is_skipped raw ≡ true
      → Adds m lines n
      → Adds m (raw ∷ lines) n
  adds :
      {m n : Readings} {raw : Text} {lines : List Text} (key : ℤ) (values : List Text)
      → is_skipped raw ≡ false
      → IsRow raw key values
      → has_no values ≡ false
      → find_readings key m ≡ none
      → Adds ((key, values) ∷ m) lines n
      → Adds m (raw ∷ lines) n

new_entry-ok :
    (m n : Readings) (key : ℤ) (values : List Text) (o : Option (List Text))
    → new_entry m key values o ≡ ok n
    → (o ≡ none) × (has_no values ≡ false) × (n ≡ (key, values) ∷ m)
new_entry-ok m n key values (some old) h = cc
new_entry-ok m n key values none h = elim (Bool-cases (has_no values)) [
  | inl b ↦ cc (rw b at h)
  | inr b ↦ let same : n ≡ (key, values) ∷ m = cc (rw b at h) in (refl, b, same)
]

add_entry-ok :
    (m n : Readings) (o : Option ℤ) (values : List Text)
    → add_entry m o values ≡ ok n
    → (key : ℤ) × (o ≡ some key)
      × (find_readings key m ≡ none)
      × (has_no values ≡ false)
      × (n ≡ (key, values) ∷ m)
unfolding add_entry
add_entry-ok m n none values h = cc
add_entry-ok m n (some key) values h =
    let (free, some_values, same) = new_entry-ok m n key values (find_readings key m) h in
    (key, refl, free, some_values, same)

read_fields-ok :
    (m n : Readings) (raw : Text) (parts : List Text)
    → split_by (λ c. c == 9) (drop_cr raw) ≡ parts
    → read_fields m parts ≡ ok n
    → (key : ℤ) × (values : List Text) × IsRow raw key values
      × (has_no values ≡ false)
      × (find_readings key m ≡ none)
      × (n ≡ (key, values) ∷ m)
unfolding read_fields
read_fields-ok m n raw (name ∷ property ∷ text ∷ []) e h =
    elim (Bool-cases
      (not (text_eq property unihan_property) || not (text_eq (take 2 name) (codes "U+")))) [
        | inl b ↦ cc (rw b at h)
        | inr b ↦
            let (key, parsed, free, some_values, same) =
              add_entry-ok m n (parse_int (drop_two name)) (fields text) (rw b at h) in
            let is_property : property ≡ unihan_property =
              text_eq-eq property unihan_property (ground (arith, b)) in
            (
              key,
              fields text,
              record {
                name = name;
                text = text;
                parts = e ∙ ap (λ x. name ∷ x ∷ text ∷ []) is_property;
                prefixed = text_eq-eq (take 2 name) (codes "U+") (ground (arith, b));
                code_point = parsed;
                read = refl;
              },
              some_values,
              free,
              same,
            )
      ]
read_fields-ok m n raw [] e h = cc
read_fields-ok m n raw (a ∷ []) e h = cc
read_fields-ok m n raw (a ∷ b ∷ []) e h = cc
read_fields-ok m n raw (a ∷ b ∷ c ∷ d ∷ rest) e h = cc

read_lines-Adds : (m n : Readings) (lines : List Text) → read_lines m lines ≡ ok n → Adds m lines n
unfolding read_lines
read_lines-Adds m n [] h = let same : m ≡ n = cc in rw same ends
read_lines-Adds m n (raw ∷ lines) h = elim (Bool-cases (is_too_long raw)) [
  | inl b ↦ cc (rw b at h)
  | inr b ↦ elim (Bool-cases (is_skipped raw)) [
    | inl skipped ↦ skips skipped (read_lines-Adds m n lines (rw (b, skipped) at h))
    | inr kept ↦
        let (m', row, rest) =
          >>=-ok (read_fields m (split_by (λ c. c == 9) (drop_cr raw))) (λ m'. read_lines m' lines)
            (rw (b, kept) at h) in
        let (key, values, is_row, some_values, free, same) = read_fields-ok m m' raw _ refl row in
        adds key values kept is_row some_values free
          (read_lines-Adds ((key, values) ∷ m) n lines (rw same at rest))
  ]
]

int_eq-eq : (a b : ℤ) → int_eq a b ≡ true → a ≡ b
unfolding int_eq
int_eq-eq (pos a) (pos b) h = ap pos (ground (arith, h))
int_eq-eq (pos a) (negsuc b) h = ground (arith, h)
int_eq-eq (negsuc a) (pos b) h = ground (arith, h)
int_eq-eq (negsuc a) (negsuc b) h = ap negsuc (ground (arith, h))

int_eq_refl : (a : ℤ) → int_eq a a ≡ true
unfolding int_eq
int_eq_refl (pos a) = ground arith
int_eq_refl (negsuc a) = ground arith

find_readings-added :
    (m : Readings) (k key : ℤ) (values v : List Text)
    → find_readings k m ≡ none
    → find_readings key m ≡ some v
    → find_readings key ((k, values) ∷ m) ≡ some v
unfolding find_readings
find_readings-added m k key values v free found = elim (Bool-cases (int_eq k key)) [
  | inl b ↦ cc (sym found ∙ ap (λ x. find_readings x m) (sym (int_eq-eq k key b)) ∙ free)
  | inr b ↦ rw b found
]

find_readings-head :
    (m : Readings) (key : ℤ) (values : List Text)
    → find_readings key ((key, values) ∷ m) ≡ some values
unfolding find_readings
find_readings-head m key values = rw (int_eq_refl key) refl

find_readings_cases :
    (m : Readings) (k key : ℤ) (values v : List Text)
    → find_readings key ((k, values) ∷ m) ≡ some v
    → (find_readings key m ≡ some v) ⊎ ((k ≡ key) × (values ≡ v))
unfolding find_readings
find_readings_cases m k key values v h = elim (Bool-cases (int_eq k key)) [
  | inl b ↦ let same : values ≡ v = cc (rw b at h) in inr (int_eq-eq k key b, same)
  | inr b ↦ inl (rw b at h)
]

Adds-keeps :
    (m n : Readings) (lines : List Text) (key : ℤ) (v : List Text)
    → Adds m lines n
    → find_readings key m ≡ some v
    → find_readings key n ≡ some v
Adds-keeps m n lines key v ends h = h
Adds-keeps m n lines key v (skips s a) h = Adds-keeps m n _ key v a h
Adds-keeps m n lines key v (adds k values s r e free a) h =
    Adds-keeps _ n _ key v a (find_readings-added m k key values v free h)

-- A line is skipped, or it is a row whose readings the map has.
pub data IsRead (m : Readings) (raw : Text) : Type 0 where
  skipped : is_skipped raw ≡ true → IsRead m raw
  read :
      (key : ℤ) (values : List Text)
      → is_skipped raw ≡ false
      → IsRow raw key values
      → has_no values ≡ false
      → find_readings key m ≡ some values
      → IsRead m raw

Adds-IsRead : (m n : Readings) (lines : List Text) → Adds m lines n → All (IsRead n) lines
Adds-IsRead m n lines ends = tt
Adds-IsRead m n lines (skips s a) = (skipped s, Adds-IsRead m n _ a)
Adds-IsRead m n lines (adds key values s r e free a) = (
  read key values s r e (Adds-keeps _ n _ key values a (find_readings-head m key values)),
  Adds-IsRead _ n _ a,
)

-- Readings that are found are those of a row, or were there before.
abbrev pub IsFound : List Text → ℤ → List Text → Type 0
IsFound lines key values =
    (raw : Text) × Memᴰ raw lines × (is_skipped raw ≡ false) × IsRow raw key values

IsFound-later :
    (raw : Text) (lines : List Text) (key : ℤ) (v : List Text)
    → IsFound lines key v
    → IsFound (raw ∷ lines) key v
IsFound-later raw lines key v (found, member, kept, row) = (found, Memᴰ.tail member, kept, row)

Adds-IsFound :
    (m n : Readings) (lines : List Text) (key : ℤ) (v : List Text)
    → Adds m lines n
    → find_readings key n ≡ some v
    → (find_readings key m ≡ some v) ⊎ IsFound lines key v
Adds-IsFound m n lines key v ends h = inl h
Adds-IsFound m n (raw ∷ lines) key v (skips s a) h = elim (Adds-IsFound m n lines key v a h) [
  | inl found ↦ inl found
  | inr row ↦ inr (IsFound-later raw lines key v row)
]
Adds-IsFound m n (raw ∷ lines) key v (adds k values s r e free a) h =
    elim (Adds-IsFound ((k, values) ∷ m) n lines key v a h) [
      | inr row ↦ inr (IsFound-later raw lines key v row)
      | inl found ↦ elim (find_readings_cases m k key values v found) [
        | inl older ↦ inl older
        | inr (same_key, same) ↦ inr (raw, Memᴰ.head refl, s, rw (sym same_key, sym same) r)
      ]
    ]

-- The lines that are rows.
unfoldable pub rows : List Text → ℕ
rows [] = 0
rows (raw ∷ lines) = (if is_skipped raw then 0 else 1) + rows lines

length-Adds :
    (m n : Readings) (lines : List Text) → Adds m lines n → length n ≡ length m + rows lines
unfolding rows
length-Adds m n lines ends = omega arith
length-Adds m n lines (skips s a) = rw s (omega (arith, length-Adds m n _ a))
length-Adds m n lines (adds key values s r e free a) = rw s (omega (arith, length-Adds _ n _ a))

complete-ok :
    (digest : Text) (n m : Readings) (d : DataEvidence)
    → complete digest n ≡ ok (m, d)
    → (n ≡ m) × (d.entry_count ≡ length n) × (d.subset_file_sha256 ≡ digest)
complete-ok digest [] m d h = cc
complete-ok digest (entry ∷ n) m d h =
    let same : entry ∷ n ≡ m = cc in
    let evidence : record { subset_file_sha256 = digest; entry_count = length (entry ∷ n) } ≡ d =
      cc in
    (same, ap (λ x. x.entry_count) (sym evidence), ap (λ x. x.subset_file_sha256) (sym evidence))

-- The readings that load come from a file with the frozen digest: each of its lines is empty, a comment,
-- or a row with at least one reading, whose readings the map has under the row's code point; all that the
-- map has is a row's; and the evidence counts the rows and has the digest.
pub load_mandarin_readings-rows :
    (sha256_hex : Text → Text) (file : Option Text) (m : Readings) (d : DataEvidence)
    → load_mandarin_readings sha256_hex file ≡ ok (m, d)
    → (text : Text) × (file ≡ some text)
      × (sha256_hex text ≡ unihan_subset_file_sha256)
      × All (IsRead m) (raw_lines text)
      × ((key : ℤ) (values : List Text)
          → find_readings key m ≡ some values
          → IsFound (raw_lines text) key values)
      × (d.entry_count ≡ rows (raw_lines text))
      × (d.subset_file_sha256 ≡ unihan_subset_file_sha256)
unfolding load_mandarin_readings find_readings
load_mandarin_readings-rows sha256_hex none m d h = cc
load_mandarin_readings-rows sha256_hex (some text) m d h =
    elim (Bool-cases (text_eq (sha256_hex text) unihan_subset_file_sha256)) [
      | inr b ↦ cc (rw b at h)
      | inl b ↦
          let (n, loaded, last) =
            >>=-ok (read_lines [] (raw_lines text)) (complete (sha256_hex text)) (rw b at h) in
          let (same, count, digest) = complete-ok (sha256_hex text) n m d last in
          let a = read_lines-Adds [] m (raw_lines text) (loaded ∙ ap (λ x. ok x) same) in
          let hash = text_eq-eq (sha256_hex text) unihan_subset_file_sha256 b in
          (
            text,
            refl,
            hash,
            Adds-IsRead [] m (raw_lines text) a,
            λ key values found. from_row (Adds-IsFound [] m (raw_lines text) key values a found),
            count ∙ ap length same ∙ length-Adds [] m (raw_lines text) a ∙ omega arith,
            digest ∙ hash,
          )
    ]
  where
    from_row :
        {key : ℤ} {values : List Text}
        → (find_readings key [] ≡ some values) ⊎ IsFound (raw_lines text) key values
        → IsFound (raw_lines text) key values
    from_row (inl h) = cc
    from_row (inr row) = row
