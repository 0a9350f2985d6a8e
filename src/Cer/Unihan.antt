-- ===== src/Cer/Unihan.antt =====
-- internal/videopipeline/cerevaluation/unihan.go: the readings of Han characters, from the rows of the
-- embedded data file. `file` is what embed.FS answers for the file, as the text of its UTF-8, and
-- `sha256_hex` is SHA-256 in hexadecimal; bufio.Scanner, strings and strconv are written out.
pub mod Table
use ai_video_series_workflow.Common.{
  ℕ, ◌+◌, ◌-◌, ◌*◌, Bool, not, ◌&&◌, ◌||◌, Option, none, some, List, [], ◌∷◌, ltb, leb, ◌==◌,
  if◌then◌else◌, Text, text_eq, codes, is_empty, is_space, byte_len, length, take, ℤ, pos, sub_ℕ,
  leb_ℤ, Result, ok, err, ◌>>=◌, has_no,
}

pub data ReadingsError : Type 0 where
  unreadable wrong_digest line_too_long invalid_row invalid_code_point duplicate_entry :
      ReadingsError
  no_reading no_entries : ReadingsError

-- The map of the readings, and the fields of `DataEvidence` that are not constants.
abbrev pub Readings : Type 0
Readings = List (ℤ × List Text)

pub record DataEvidence : Type 0 where
  pub subset_file_sha256 : Text
  pub entry_count : ℕ

abbrev pub unihan_subset_file_sha256 : Text
unihan_subset_file_sha256 = codes "07892add965a30e0a67b5003b8c08cd8d50a4c12f56c2ffab7ccd6c15464df70"

abbrev pub unihan_property : Text
unihan_property = codes "kMandarin"

unfoldable pub int_eq : ℤ → ℤ → Bool
int_eq a b = leb_ℤ a b && leb_ℤ b a

-- A value of the map, where it has the key.
unfoldable pub find_readings : ℤ → Readings → Option (List Text)
unfolding int_eq
find_readings key [] = none
find_readings key ((k, values) ∷ m) =
    let rest = find_readings key m in if int_eq k key then some values else rest

abbrev prepend : ℕ → List Text → List Text
prepend c [] = (c ∷ []) ∷ []
prepend c (piece ∷ pieces) = (c ∷ piece) ∷ pieces

-- `strings.Split`, at the characters that the test names.
unfoldable pub split_by : (ℕ → Bool) → Text → List Text
split_by is_separator [] = [] ∷ []
split_by is_separator (c ∷ s) =
    let rest = split_by is_separator s in if is_separator c then [] ∷ rest else prepend c rest

abbrev pub non_empties : List Text → List Text
non_empties [] = []
non_empties (piece ∷ pieces) =
    let rest = non_empties pieces in if is_empty piece then rest else piece ∷ rest

-- `strings.Fields`.
unfoldable pub fields : Text → List Text
unfolding split_by is_space
fields s = non_empties (split_by is_space s)

-- The end of a text without its newline is no line if it is empty.
unfoldable pub drop_last_empty : List Text → List Text
drop_last_empty [] = []
drop_last_empty (line ∷ []) = if is_empty line then [] else line ∷ []
drop_last_empty (line ∷ next ∷ lines) = line ∷ drop_last_empty (next ∷ lines)

-- The lines of `bufio.ScanLines`, each still with a carriage return before its newline.
unfoldable pub raw_lines : Text → List Text
unfolding split_by drop_last_empty
raw_lines s = drop_last_empty (split_by (λ c. c == 10) s)

unfoldable pub drop_cr : Text → Text
drop_cr [] = []
drop_cr (c ∷ []) = if c == 13 then [] else c ∷ []
drop_cr (c ∷ d ∷ s) = c ∷ drop_cr (d ∷ s)

-- A line that does not fit the buffer of the scanner with its newline.
abbrev pub is_too_long : Text → Bool
is_too_long line = leb 65536 (byte_len line)

unfoldable pub hex_digit : ℕ → Option ℕ
hex_digit c =
    if leb b'0' c && leb c b'9'
    then some (c - b'0')
    else if leb b'a' c && leb c b'f'
    then some (c - b'a' + 10)
    else if leb b'A' c && leb c b'F'
    then some (c - b'A' + 10)
    else none

abbrev pub with_digit : Option ℕ → (ℕ → Option ℕ) → Option ℕ
with_digit none next = none
with_digit (some d) next = next d

unfoldable pub hex_value : ℕ → Text → Option ℕ
unfolding hex_digit
hex_value n [] = some n
hex_value n (c ∷ s) = with_digit (hex_digit c) λ d. hex_value (n * 16 + d) s

abbrev pub hex_number : Text → Option ℕ
hex_number s = if is_empty s then none else hex_value 0 s

abbrev pub positive : Option ℕ → Option ℤ
positive none = none
positive (some n) = if ltb n 0x80000000 then some (pos n) else none

abbrev pub negative : Option ℕ → Option ℤ
negative none = none
negative (some n) = if leb n 0x80000000 then some (sub_ℕ 0 n) else none

-- `strconv.ParseInt(s, 16, 32)`.
unfoldable pub parse_int : Text → Option ℤ
unfolding hex_value
parse_int [] = none
parse_int (c ∷ s) =
    if c == b'-'
    then negative (hex_number s)
    else if c == b'+'
    then positive (hex_number s)
    else positive (hex_number (c ∷ s))

abbrev pub drop_two : Text → Text
drop_two (c ∷ d ∷ s) = s
drop_two _ = []

abbrev pub new_entry : Readings → ℤ → List Text → Option (List Text) → Result ReadingsError Readings
new_entry m key values (some old) = err duplicate_entry
new_entry m key values none = if has_no values then err no_reading else ok ((key, values) ∷ m)

-- A row after its code point is parsed.
unfoldable pub add_entry : Readings → Option ℤ → List Text → Result ReadingsError Readings
unfolding find_readings
add_entry m none values = err invalid_code_point
add_entry m (some key) values = new_entry m key values (find_readings key m)

-- A row in its fields.
unfoldable pub read_fields : Readings → List Text → Result ReadingsError Readings
unfolding add_entry parse_int fields
read_fields m (name ∷ property ∷ values ∷ []) =
    if not (text_eq property unihan_property) || not (text_eq (take 2 name) (codes "U+"))
    then err invalid_row
    else add_entry m (parse_int (drop_two name)) (fields values)
read_fields m _ = err invalid_row

abbrev pub is_comment : Text → Bool
is_comment s = text_eq (take 1 s) (codes "#")

-- The loop over the lines.
unfoldable pub read_lines : Readings → List Text → Result ReadingsError Readings
unfolding read_fields split_by drop_cr
read_lines m [] = ok m
read_lines m (raw ∷ lines) =
    let line = drop_cr raw in
    if is_too_long raw
    then err line_too_long
    else (if is_empty line || is_comment line
        then ok m
        else read_fields m (split_by (λ c. c == 9) line))
      >>= λ m'. read_lines m' lines

abbrev pub complete : Text → Readings → Result ReadingsError (Readings × DataEvidence)
complete digest [] = err no_entries
complete digest (entry ∷ m) =
    ok (entry ∷ m, record { subset_file_sha256 = digest; entry_count = length (entry ∷ m) })

-- `loadMandarinReadings`.
module _ (sha256_hex : Text → Text) where
  abbrev pub load_data : Option Text → Result ReadingsError (Readings × DataEvidence)
  load_data none = err unreadable
  load_data (some text) =
      if not (text_eq (sha256_hex text) unihan_subset_file_sha256)
      then err wrong_digest
      else read_lines [] (raw_lines text) >>= complete (sha256_hex text)

  unfoldable pub load_mandarin_readings :
      Option Text → Result ReadingsError (Readings × DataEvidence)
  load_mandarin_readings file = load_data file

-- `readings[char]`, nil where the map has no entry.
abbrev or_nil : Option (List Text) → List Text
or_nil none = []
or_nil (some values) = values

unfoldable pub readings_of : Readings → ℕ → List Text
readings_of m c = or_nil (find_readings (pos c) m)
