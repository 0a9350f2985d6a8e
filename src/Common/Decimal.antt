-- ===== src/Common/Decimal.antt =====
-- `fmt.Sprintf` of a number that is not negative: `%d`, and `%0wd` with a width.
use Prim.Native.Nat.{ℕ, zero, suc, ◌+◌, ◌-◌, ◌*◌, ◌/◌, ◌%◌, ◌<◌}
use mathlib.Core.Path.{◌≡◌, refl, sym, ap, ◌∙◌}
use mathlib.Core.List.{[], ◌∷◌, ◌++◌}
use native.Mathlib.Omega.{arith}
use ai_video_series_workflow.Common.Tests.{ltb, if◌then◌else◌}
use ai_video_series_workflow.Common.Lists.{length}
use ai_video_series_workflow.Common.Strings.{Text}

-- The digits of n; a number has fewer digits than its successor counts.
unfoldable pub digits : ℕ → ℕ → Text
digits zero n = []
digits (suc fuel) n =
    let rest = digits fuel (n / 10) in
    if ltb n 10 then (n + 48) ∷ [] else rest ++ (n % 10 + 48) ∷ []

unfoldable pub decimal : ℕ → Text
decimal n = digits (suc n) n

unfoldable pub zeros : ℕ → Text → Text
zeros zero s = s
zeros (suc n) s = b'0' ∷ zeros n s

unfoldable pub padded : ℕ → ℕ → Text
padded width n = let s = decimal n in zeros (width - length s) s

-- The number that a text of digits spells, after a number read so far.
unfoldable pub spelled : ℕ → Text → ℕ
spelled n [] = n
spelled n (c ∷ s) = spelled (n * 10 + (c - 48)) s

spelled-append : (m : ℕ) (s : Text) (c : ℕ) → spelled m (s ++ c ∷ []) ≡ spelled m s * 10 + (c - 48)
unfolding spelled
spelled-append m [] c = refl
spelled-append m (d ∷ s) c = spelled-append (m * 10 + (d - 48)) s c

spelled-digits : (fuel n : ℕ) → n < fuel → spelled 0 (digits fuel n) ≡ n
unfolding digits spelled
spelled-digits zero n h = omega (arith, h)
spelled-digits (suc fuel) n h =
    ground
      (arith, spelled-append 0 (digits fuel (n / 10)) (n % 10 + 48), spelled-digits fuel (n / 10))

spelled-zeros : (w : ℕ) (s : Text) → spelled 0 (zeros w s) ≡ spelled 0 s
unfolding zeros spelled
spelled-zeros zero s = refl
spelled-zeros (suc w) s = spelled-zeros w s

pub spelled-padded : (w n : ℕ) → spelled 0 (padded w n) ≡ n
unfolding padded decimal
spelled-padded w n =
    spelled-zeros (w - length (decimal n)) (decimal n) ∙ spelled-digits (suc n) n (omega arith)

pub padded-injective : (w m n : ℕ) → padded w m ≡ padded w n → m ≡ n
padded-injective w m n e = sym (spelled-padded w m) ∙ ap (spelled 0) e ∙ spelled-padded w n
