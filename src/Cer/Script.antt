-- ===== src/Cer/Script.antt =====
-- Edit scripts, which say independently of the table what turning one text into another costs.
use mathlib.Core.List.{reverse, reverse-cons}
use native.Mathlib.Nat.{zero-add, suc-add, add-zero}
use native.Mathlib.Numerals.{add-one}
use ai_video_series_workflow.Common.{ℕ, suc, ◌+◌, ◌≤◌, List, [], ◌∷◌, ◌++◌, arith, append-nil}
use ai_video_series_workflow.Cer.{min3, cost}
use ai_video_series_workflow.Cer.Table.{dist, dist-nil}

-- `Edits xs ys n`: n deletions, insertions and substitutions turn xs into ys.
pub data Edits : List ℕ → List ℕ → ℕ → Type 0 where
  done : Edits [] [] 0
  keep : {xs ys : List ℕ} {n : ℕ} (x : ℕ) → Edits xs ys n → Edits (x ∷ xs) (x ∷ ys) n
  replace : {xs ys : List ℕ} {n : ℕ} (x y : ℕ) → Edits xs ys n → Edits (x ∷ xs) (y ∷ ys) (suc n)
  delete : {xs ys : List ℕ} {n : ℕ} (x : ℕ) → Edits xs ys n → Edits (x ∷ xs) ys (suc n)
  add : {xs ys : List ℕ} {n : ℕ} (y : ℕ) → Edits xs ys n → Edits xs (y ∷ ys) (suc n)

Edits-append :
    {a b c d : List ℕ} {m n : ℕ} → Edits a b m → Edits c d n → Edits (a ++ c) (b ++ d) (m + n)
Edits-append done t = rw zero-add t
Edits-append (keep x s) t = keep x (Edits-append s t)
Edits-append (replace x y s) t = rw suc-add (replace x y (Edits-append s t))
Edits-append (delete x s) t = rw suc-add (delete x (Edits-append s t))
Edits-append (add y s) t = rw suc-add (add y (Edits-append s t))

pub Edits-reverse : {xs ys : List ℕ} {n : ℕ} → Edits xs ys n → Edits (reverse xs) (reverse ys) n
Edits-reverse done = done
Edits-reverse (keep {xs} {ys} x s) =
    rw (reverse-cons x xs, reverse-cons x ys)
      (rw add-zero at (Edits-append (Edits-reverse s) (keep x done)))
Edits-reverse (replace {xs} {ys} x y s) =
    rw (reverse-cons x xs, reverse-cons y ys)
      (rw add-one at (Edits-append (Edits-reverse s) (replace x y done)))
Edits-reverse (delete {xs} x s) =
    rw (reverse-cons x xs)
      (rw (append-nil, add-one) at (Edits-append (Edits-reverse s) (delete x done)))
Edits-reverse (add {xs} {ys} y s) =
    rw (reverse-cons y ys)
      (rw (append-nil, add-one) at (Edits-append (Edits-reverse s) (add y done)))

dist-delete : (x : ℕ) (p q : List ℕ) → dist (x ∷ p) q ≤ dist p q + 1
unfolding dist min3
dist-delete x p [] = omega (arith, dist-nil p)
dist-delete x p (y ∷ q) = ground arith

dist-add : (y : ℕ) (p q : List ℕ) → dist p (y ∷ q) ≤ dist p q + 1
unfolding dist min3
dist-add y [] q = omega arith
dist-add y (x ∷ p) q = ground arith

dist-replace : (x y : ℕ) (p q : List ℕ) → dist (x ∷ p) (y ∷ q) ≤ dist p q + cost x y
unfolding dist min3
dist-replace x y p q = ground arith

-- No script is cheaper than the distance.
pub dist-le-Edits : {xs ys : List ℕ} {n : ℕ} → Edits xs ys n → dist xs ys ≤ n
unfolding dist
dist-le-Edits done = omega arith
dist-le-Edits (keep {xs} {ys} x s) = ground (arith, dist-replace x x xs ys, dist-le-Edits s)
dist-le-Edits (replace {xs} {ys} x y s) = ground (arith, dist-replace x y xs ys, dist-le-Edits s)
dist-le-Edits (delete {xs} {ys} x s) = omega (arith, dist-delete x xs ys, dist-le-Edits s)
dist-le-Edits (add {xs} {ys} y s) = omega (arith, dist-add y xs ys, dist-le-Edits s)
