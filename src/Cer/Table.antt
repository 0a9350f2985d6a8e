-- ===== src/Cer/Table.antt =====
-- The table holds the edit distances of the prefixes.
use ai_video_series_workflow.Common.{
  ℕ, zero, suc, ◌+◌, ◌≤◌, ◌<◌, ◌≡◌, refl, ap, List, [], ◌∷◌, arith, length,
}
use native.Mathlib.Numerals.{add-one}
use ai_video_series_workflow.Cer.{
  get_or, min3, ascending, cost, fill_row, fill_table, distances, cell_at,
}

-- The edit distance by its recursion, on sequences that are read from their ends.
unfoldable pub dist : List ℕ → List ℕ → ℕ
dist [] q = length q
dist (x ∷ p) [] = suc (length p)
dist (x ∷ p) (y ∷ q) = min3 (dist p q + cost x y) (dist p (y ∷ q) + 1) (dist (x ∷ p) q + 1)

pub dist-nil : (p : List ℕ) → dist p [] ≡ length p
unfolding dist
dist-nil [] = refl
dist-nil (x ∷ p) = refl

-- The prefix of length i, its last element first, on top of p.
unfoldable pub rev_take : ℕ → List ℕ → List ℕ → List ℕ
rev_take zero p xs = p
rev_take (suc i) p [] = p
rev_take (suc i) p (x ∷ xs) = rev_take i (x ∷ p) xs

pub rev_take-suc :
    (i : ℕ) (p xs : List ℕ)
    → i < length xs
    → rev_take (suc i) p xs ≡ get_or xs i 0 ∷ rev_take i p xs
unfolding rev_take
rev_take-suc i p [] h = elim h [ ]
rev_take-suc zero p (x ∷ xs) h = refl
rev_take-suc (suc i) p (x ∷ xs) h = rev_take-suc i (x ∷ p) xs (omega arith)

row_tail : List ℕ → List ℕ → List ℕ → List ℕ
row_tail p q [] = []
row_tail p q (y ∷ ys) = dist p (y ∷ q) ∷ row_tail p (y ∷ q) ys

row : List ℕ → List ℕ → List ℕ → List ℕ
row p q ys = dist p q ∷ row_tail p q ys

rows : List ℕ → List ℕ → List ℕ → List (List ℕ)
rows p [] ys = row p [] ys ∷ []
rows p (x ∷ xs) ys = row p [] ys ∷ rows (x ∷ p) xs ys

ascending-row : (q ys : List ℕ) → ascending (length q) ys ≡ row [] q ys
unfolding ascending row row_tail dist
ascending-row q [] = refl
ascending-row q (y ∷ ys) = ap (◌∷◌ (length q)) (ground (arith, ascending-row (y ∷ q) ys))

fill_row-tail :
    (x : ℕ) (p q ys : List ℕ) → fill_row x ys (dist (x ∷ p) q) (row p q ys) ≡ row_tail (x ∷ p) q ys
unfolding fill_row row row_tail dist
fill_row-tail x p q [] = refl
fill_row-tail x p q (y ∷ ys) = ap (◌∷◌ (dist (x ∷ p) (y ∷ q))) (fill_row-tail x p (y ∷ q) ys)

next_row :
    (x : ℕ) (p ys : List ℕ)
    → suc (length p) ∷ fill_row x ys (suc (length p)) (row p [] ys) ≡ row (x ∷ p) [] ys
unfolding row dist
next_row x p ys = ap (◌∷◌ (suc (length p))) (fill_row-tail x p [] ys)

fill_table-rows : (p xs ys : List ℕ) → fill_table (length p) xs ys (row p [] ys) ≡ rows p xs ys
unfolding fill_table rows
fill_table-rows p [] ys = refl
fill_table-rows p (x ∷ xs) ys =
    rw (add-one, next_row x p ys) (ap (◌∷◌ (row p [] ys)) (fill_table-rows (x ∷ p) xs ys))

row_at :
    (j : ℕ) (p q ys : List ℕ) → j ≤ length ys → get_or (row p q ys) j 0 ≡ dist p (rev_take j q ys)
unfolding row row_tail rev_take
row_at zero p q ys h = refl
row_at (suc j) p q [] h = elim h [ ]
row_at (suc j) p q (y ∷ ys) h = row_at j p (y ∷ q) ys (omega arith)

rows_at :
    (i j : ℕ) (p xs ys : List ℕ)
    → i ≤ length xs
    → j ≤ length ys
    → cell_at (rows p xs ys) i j ≡ dist (rev_take i p xs) (rev_take j [] ys)
unfolding rows rev_take
rows_at zero j p [] ys h k = row_at j p [] ys k
rows_at zero j p (x ∷ xs) ys h k = row_at j p [] ys k
rows_at (suc i) j p [] ys h k = elim h [ ]
rows_at (suc i) j p (x ∷ xs) ys h k = rows_at i j (x ∷ p) xs ys (omega arith) k

-- Each cell is the distance of its two prefixes.
pub distances_lem :
    (xs ys : List ℕ) (i j : ℕ)
    → i ≤ length xs
    → j ≤ length ys
    → cell_at (distances xs ys) i j ≡ dist (rev_take i [] xs) (rev_take j [] ys)
unfolding distances
distances_lem xs ys i j h k =
    rw (ascending-row [] ys, fill_table-rows [] xs ys) (rows_at i j [] xs ys h k)
