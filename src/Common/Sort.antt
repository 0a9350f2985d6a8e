-- ===== src/Common/Sort.antt =====
-- `sort.Strings` and `slices.Compact`. UTF-8 keeps the order of code points, so byte order is the
-- order of the sequences of code points.
use mathlib.Core.Path.{◌≡◌, refl}
use mathlib.Core.Bool.{Bool, true, false}
use mathlib.Core.List.{List, [], ◌∷◌}
use Prim.Native.Nat.{suc}
use native.Mathlib.Omega.{arith}
use ai_video_series_workflow.Common.Tests.{ltb, ◌==◌, if◌then◌else◌}
use ai_video_series_workflow.Common.Lists.{length}
use ai_video_series_workflow.Common.Strings.{Text, text_eq}

unfoldable pub text_leb : Text → Text → Bool
text_leb [] t = true
text_leb (a ∷ s) [] = false
text_leb (a ∷ s) (b ∷ t) = if a == b then text_leb s t else ltb a b

unfoldable pub insert_sorted : Text → List Text → List Text
unfolding text_leb
insert_sorted s [] = s ∷ []
insert_sorted s (t ∷ ts) = if text_leb s t then s ∷ t ∷ ts else t ∷ insert_sorted s ts

unfoldable pub sort_texts : List Text → List Text
unfolding insert_sorted
sort_texts [] = []
sort_texts (s ∷ ss) = insert_sorted s (sort_texts ss)

-- Runs of equal elements become one.
unfoldable pub compact : List Text → List Text
compact [] = []
compact (s ∷ []) = s ∷ []
compact (s ∷ t ∷ ts) = let rest = compact (t ∷ ts) in if text_eq s t then rest else s ∷ rest

length-insert_sorted : (s : Text) (ts : List Text) → length (insert_sorted s ts) ≡ suc (length ts)
unfolding insert_sorted
length-insert_sorted s [] = refl
length-insert_sorted s (t ∷ ts) = ground (arith, length-insert_sorted s ts)

pub length-sort_texts : (ss : List Text) → length (sort_texts ss) ≡ length ss
unfolding sort_texts
length-sort_texts [] = refl
length-sort_texts (s ∷ ss) =
    omega (arith, length-insert_sorted s (sort_texts ss), length-sort_texts ss)
