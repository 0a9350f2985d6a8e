-- ===== src/Common/Strings.antt =====
-- Go strings, as the sequences of the code points that they encode in UTF-8.
use Prim.Native.Nat.{ℕ, ◌+◌}
use Prim.Native.Char.{code}
use Prim.Native.String.{String}
use mathlib.Core.Path.{◌≡◌, refl, ap₂}
use mathlib.Core.Logic.{◌↔◌}
use mathlib.Core.Bool.{Bool, true, false, ◌&&◌, ◌||◌}
use mathlib.Core.List.{List, [], ◌∷◌}
use native.Mathlib.Omega.{arith}
use ai_video_series_workflow.Common.Tests.{leb, ltb, ◌==◌, ==_iff, &&-true, if◌then◌else◌}
use ai_video_series_workflow.Common.Lists.{all}

abbrev pub Text : Type 0
Text = List ℕ

-- A literal of the source.
abbrev pub codes : String → Text
codes String.[] = []
codes (String.◌∷◌ c s) = code c ∷ codes s

unfoldable pub text_eq : Text → Text → Bool
text_eq [] [] = true
text_eq (a ∷ s) (b ∷ t) = (a == b) && text_eq s t
text_eq _ _ = false

pub text_eq_refl : (s : Text) → text_eq s s ≡ true
unfolding text_eq
text_eq_refl [] = refl
text_eq_refl (a ∷ s) = ground (arith, text_eq_refl s)

pub text_eq-eq : (s t : Text) → text_eq s t ≡ true → s ≡ t
unfolding text_eq
text_eq-eq [] [] h = refl
text_eq-eq [] (b ∷ t) h = cc
text_eq-eq (a ∷ s) [] h = cc
text_eq-eq (a ∷ s) (b ∷ t) h =
    let (p, q) = &&-true (a == b) (text_eq s t) h in ap₂ ◌∷◌ ((==_iff a b).0 p) (text_eq-eq s t q)

pub text_eq_iff : (s t : Text) → (text_eq s t ≡ true) ↔ (s ≡ t)
text_eq_iff s t = (text_eq-eq s t, λ e. ground (arith, text_eq_refl s))

abbrev pub is_empty : Text → Bool
is_empty [] = true
is_empty (c ∷ s) = false

-- `unicode.IsSpace`.
unfoldable pub is_space : ℕ → Bool
is_space c =
    (leb 9 c && leb c 13)
    || c == 32
    || c == 0x85
    || c == 0xA0
    || c == 0x1680
    || (leb 0x2000 c && leb c 0x200a)
    || c == 0x2028
    || c == 0x2029
    || c == 0x202f
    || c == 0x205f
    || c == 0x3000

-- `strings.TrimSpace(s) == ""`: nothing but white space.
unfoldable pub is_blank : Text → Bool
unfolding is_space
is_blank s = all is_space s

abbrev pub has_no {ℓ} : {A : Type ℓ} → List A → Bool
has_no [] = true
has_no (x ∷ xs) = false

unfoldable pub trim_left : Text → Text
unfolding is_space
trim_left [] = []
trim_left (c ∷ s) = let rest = trim_left s in if is_space c then rest else c ∷ s

unfoldable pub trim_right : Text → Text
unfolding is_space
trim_right [] = []
trim_right (c ∷ s) = let rest = trim_right s in if has_no rest && is_space c then [] else c ∷ rest

-- `strings.TrimSpace`.
unfoldable pub trim_space : Text → Text
unfolding trim_left trim_right
trim_space s = trim_right (trim_left s)

-- The number of bytes of a code point in UTF-8.
unfoldable pub utf8_width : ℕ → ℕ
utf8_width c = if ltb c 0x80 then 1 else if ltb c 0x800 then 2 else if ltb c 0x10000 then 3 else 4

-- `len(s)`.
unfoldable pub byte_len : Text → ℕ
unfolding utf8_width
byte_len [] = 0
byte_len (c ∷ s) = utf8_width c + byte_len s

unfoldable pub is_hex_digit : ℕ → Bool
is_hex_digit c = (leb b'0' c && leb c b'9') || (leb b'a' c && leb c b'f')

-- A digest in lowercase hexadecimal: 64 bytes, and every rune a digit.
unfoldable pub is_sha256 : Text → Bool
unfolding byte_len is_hex_digit
is_sha256 s = byte_len s == 64 && all is_hex_digit s
