-- ===== src/Cer.antt =====
-- internal/videopipeline/cerevaluation/evaluator.go: the Levenshtein table and its trace, the
-- reclassification of homophones, and the gate on the character error rate. A rune is its code
-- point. The percentage of a metric is a float for display, and is left out; the gate is decided
-- on whole numbers, as in the source.
pub mod Table
pub mod Script
pub mod Trace
pub mod Optimal
pub mod Unihan
pub mod Evaluation
pub mod Gate
mod Examples
use ai_video_series_workflow.Common.{
  ℕ, zero, suc, ◌+◌, ◌*◌, Bool, true, false, ◌&&◌, ◌||◌, Option, none, some, List, [], ◌∷◌, ltb,
  leb, ◌==◌, if◌then◌else◌, Text, text_eq, length,
}
use mathlib.Core.List.{reverse}

module _ {ℓ} {A : Type ℓ} where
  -- A read at an index, with a value for the indexes that are out of range.
  abbrev pub get_or : List A → ℕ → A → A
  get_or [] i d = d
  get_or (x ∷ xs) zero d = x
  get_or (x ∷ xs) (suc i) d = get_or xs i d

unfoldable pub min3 : ℕ → ℕ → ℕ → ℕ
min3 first second third =
    if leb first second && leb first third
    then first
    else if leb second third
    then second
    else third

-- distance[0], for `j := range distance[0]`.
unfoldable pub ascending : ℕ → List ℕ → List ℕ
ascending j [] = j ∷ []
ascending j (y ∷ ys) = j ∷ ascending (j + 1) ys

abbrev pub cost : ℕ → ℕ → ℕ
cost x y = if x == y then 0 else 1

-- The loop over j: the cells right of `left`, below the row `above`.
unfoldable pub fill_row : ℕ → List ℕ → ℕ → List ℕ → List ℕ
unfolding min3
fill_row x (y ∷ ys) left (diagonal ∷ up ∷ above) =
    let cell = min3 (diagonal + cost x y) (up + 1) (left + 1) in
    cell ∷ fill_row x ys cell (up ∷ above)
fill_row x _ left above = []

-- The loop over i: the rows from `above`, which is row i, on.
unfoldable pub fill_table : ℕ → List ℕ → List ℕ → List ℕ → List (List ℕ)
unfolding fill_row
fill_table i [] ys above = above ∷ []
fill_table i (x ∷ xs) ys above =
    above ∷ fill_table (i + 1) xs ys ((i + 1) ∷ fill_row x ys (i + 1) above)

unfoldable pub distances : List ℕ → List ℕ → List (List ℕ)
unfolding ascending fill_table
distances reference hypothesis = fill_table 0 reference hypothesis (ascending 0 hypothesis)

-- distance[i][j].
abbrev pub cell_at : List (List ℕ) → ℕ → ℕ → ℕ
cell_at table i j = get_or (get_or table i []) j 0

pub data EditKind : Type 0 where
  match substitution deletion insertion : EditKind

pub record EditOperation : Type 0 where
  pub index : ℕ
  pub kind : EditKind
  pub reference_index : Option ℕ
  pub hypothesis_index : Option ℕ
  pub reference : Text
  pub hypothesis : Text
  pub standard_cost : ℕ
  pub tone_aware_cost : ℕ
  pub reference_readings : List Text
  pub hypothesis_readings : List Text
  pub shared_readings : List Text
  pub reclassified : Bool

-- EditOperation{}, of a kind and a cost.
abbrev pub operation : EditKind → ℕ → EditOperation
operation kind standard_cost = record {
  index = 0;
  kind = kind;
  reference_index = none;
  hypothesis_index = none;
  reference = [];
  hypothesis = [];
  standard_cost = standard_cost;
  tone_aware_cost = 0;
  reference_readings = [];
  hypothesis_readings = [];
  shared_readings = [];
  reclassified = false;
}

abbrev pub on_reference : ℕ → ℕ → EditOperation → EditOperation
on_reference i x o = record o { reference = x ∷ []; reference_index = some i }

abbrev pub on_hypothesis : ℕ → ℕ → EditOperation → EditOperation
on_hypothesis j y o = record o { hypothesis = y ∷ []; hypothesis_index = some j }

abbrev pub paired : EditKind → ℕ → ℕ → ℕ → ℕ → ℕ → EditOperation
paired kind n i x j y = on_hypothesis j y (on_reference i x (operation kind n))

abbrev pub and_then : EditOperation → Option (List EditOperation) → Option (List EditOperation)
and_then o none = none
and_then o (some os) = some (o ∷ os)

-- The loop that walks the table back from (i, j): the operations in the order in which they are
-- appended to `reversed`. `none` is the panic of an index -1.
unfoldable pub trace : List ℕ → List ℕ → List (List ℕ) → ℕ → ℕ → Option (List EditOperation)
trace xs ys t zero zero = some []
trace xs ys t zero (suc j) =
    and_then (on_hypothesis j (get_or ys j 0) (operation insertion 1)) (trace xs ys t zero j)
trace xs ys t (suc i) zero = elim (cell_at t (suc i) 0 == cell_at t i 0 + 1) [
  | true ↦ and_then (on_reference i (get_or xs i 0) (operation deletion 1)) (trace xs ys t i 0)
  | false ↦ none
]
trace xs ys t (suc i) (suc j) =
    elim (get_or xs i 0 == get_or ys j 0 && cell_at t (suc i) (suc j) == cell_at t i j) [
      | true ↦ and_then (paired match 0 i (get_or xs i 0) j (get_or ys j 0)) (trace xs ys t i j)
      | false ↦ elim (cell_at t (suc i) (suc j) == cell_at t i j + 1) [
        | true ↦
            and_then (paired substitution 1 i (get_or xs i 0) j (get_or ys j 0)) (trace xs ys t i j)
        | false ↦ elim (cell_at t (suc i) (suc j) == cell_at t i (suc j) + 1) [
          | true ↦
              and_then (on_reference i (get_or xs i 0) (operation deletion 1))
                (trace xs ys t i (suc j))
          | false ↦
              and_then (on_hypothesis j (get_or ys j 0) (operation insertion 1))
                (trace xs ys t (suc i) j)
        ]
      ]
    ]

-- The last loop, over the operations turned round: each gets its index.
unfoldable pub number_from : ℕ → List EditOperation → List EditOperation
number_from k [] = []
number_from k (o ∷ os) = record o { index = k } ∷ number_from (k + 1) os

abbrev pub finish : Option (List EditOperation) → Option (List EditOperation)
finish none = none
finish (some reversed) = some (number_from 0 (reverse reversed))

-- `levenshteinOperations`.
unfoldable pub levenshtein_operations : List ℕ → List ℕ → Option (List EditOperation)
unfolding trace distances number_from
levenshtein_operations xs ys = finish (trace xs ys (distances xs ys) (length xs) (length ys))
