-- ===== src/Cer/Optimal.antt =====
-- `levenshteinOperations` returns, and what it returns is a cheapest way to edit the reference into
-- the hypothesis.
use mathlib.Core.List.{reverse, reverse-cons, reverse-append, reverse-reverse}
use native.Mathlib.Nat.{zero-add}
use native.Mathlib.Numerals.{one-add}
use native.Mathlib.Nat.{le_refl}
use ai_video_series_workflow.Common.{
  ℕ, ◌+◌, ◌≤◌, ◌≡◌, refl, ap, ap₂, ◌∙◌, some, List, [], ◌∷◌, ◌++◌, arith, length, All, All-append,
  append-nil, append_assoc,
}
use ai_video_series_workflow.Cer.{
  EditKind, match, substitution, deletion, insertion, EditOperation, number_from, finish,
  levenshtein_operations, distances, trace,
}
use ai_video_series_workflow.Cer.Table.{dist, rev_take}
use ai_video_series_workflow.Cer.Script.{
  Edits, done, keep, replace, delete, add, Edits-reverse, dist-le-Edits,
}
use ai_video_series_workflow.Cer.Trace.{
  references, hypotheses, standard_total, IsEdit, IsOfKind, Traced, trace-Traced,
}

references-append :
    (os os' : List EditOperation) → references (os ++ os') ≡ references os ++ references os'
references-append [] os' = refl
references-append (o ∷ os) os' = rw (append_assoc, references-append os os')

hypotheses-append :
    (os os' : List EditOperation) → hypotheses (os ++ os') ≡ hypotheses os ++ hypotheses os'
hypotheses-append [] os' = refl
hypotheses-append (o ∷ os) os' = rw (append_assoc, hypotheses-append os os')

total-append :
    (os os' : List EditOperation)
    → standard_total (os ++ os') ≡ standard_total os + standard_total os'
total-append [] os' = omega arith
total-append (o ∷ os) os' = omega (arith, total-append os os')

-- An operation names at most one rune on each side.
IsOfKind-reverse :
    (k : EditKind) (o : EditOperation)
    → IsOfKind k o
    → (reverse o.reference ≡ o.reference) × (reverse o.hypothesis ≡ o.hypothesis)
IsOfKind-reverse match o (x, r, h, c) = (rw r, rw h)
IsOfKind-reverse substitution o (x, y, r, h, c) = (rw r, rw h)
IsOfKind-reverse deletion o (x, r, h, c) = (rw r, rw h)
IsOfKind-reverse insertion o (y, r, h, c) = (rw r, rw h)

references-reverse :
    (os : List EditOperation) → All IsEdit os → references (reverse os) ≡ reverse (references os)
references-reverse [] e = refl
references-reverse (o ∷ os) e = rw (
  reverse-cons o os,
  references-append (reverse os) (o ∷ []),
  reverse-append o.reference (references os),
  references-reverse os e.1,
  (IsOfKind-reverse o.kind o e.0).0,
  append-nil,
)

hypotheses-reverse :
    (os : List EditOperation) → All IsEdit os → hypotheses (reverse os) ≡ reverse (hypotheses os)
hypotheses-reverse [] e = refl
hypotheses-reverse (o ∷ os) e = rw (
  reverse-cons o os,
  hypotheses-append (reverse os) (o ∷ []),
  reverse-append o.hypothesis (hypotheses os),
  hypotheses-reverse os e.1,
  (IsOfKind-reverse o.kind o e.0).1,
  append-nil,
)

total-reverse : (os : List EditOperation) → standard_total (reverse os) ≡ standard_total os
total-reverse [] = refl
total-reverse (o ∷ os) =
    rw (reverse-cons o os) (omega (arith, total-append (reverse os) (o ∷ []), total-reverse os))

edits-reverse : (os : List EditOperation) → All IsEdit os → All IsEdit (reverse os)
edits-reverse [] e = tt
edits-reverse (o ∷ os) e =
    rw (reverse-cons o os)
      (All-append IsEdit (reverse os) (o ∷ []) (edits-reverse os e.1) (e.0, tt))

-- The loop that numbers the operations changes nothing else.
abbrev pub IsNumbered : ℕ → List EditOperation → Type 0
IsNumbered k [] = Unit {0}
IsNumbered k (o ∷ os) = (o.index ≡ k) × IsNumbered (k + 1) os

IsOfKind-renumber :
    (n : ℕ) (k : EditKind) (o : EditOperation) → IsOfKind k o → IsOfKind k (record o { index = n })
IsOfKind-renumber n match o e = e
IsOfKind-renumber n substitution o e = e
IsOfKind-renumber n deletion o e = e
IsOfKind-renumber n insertion o e = e

number_from_lem :
    (k : ℕ) (os : List EditOperation)
    → All IsEdit os
    → IsNumbered k (number_from k os)
      × (references (number_from k os) ≡ references os)
      × (hypotheses (number_from k os) ≡ hypotheses os)
      × (standard_total (number_from k os) ≡ standard_total os)
      × All IsEdit (number_from k os)
unfolding number_from
number_from_lem k [] e = (tt, refl, refl, refl, tt)
number_from_lem k (o ∷ os) e =
    let (n, r, h, t, a) = number_from_lem (k + 1) os e.1 in
    (
      (refl, n),
      ap (◌++◌ o.reference) r,
      ap (◌++◌ o.hypothesis) h,
      omega arith,
      (IsOfKind-renumber k o.kind o e.0, a),
    )

-- Operations are a script of what they read and write.
operations-Edits :
    (os : List EditOperation)
    → All IsEdit os
    → Edits (references os) (hypotheses os) (standard_total os)
operations-Edits [] e = done
operations-Edits (o ∷ os) e = one o.kind o e.0 (operations-Edits os e.1)
  where
    one :
        (k : EditKind) (o : EditOperation)
        → IsOfKind k o
        → Edits (references os) (hypotheses os) (standard_total os)
        → Edits
            (o.reference ++ references os)
            (o.hypothesis ++ hypotheses os)
            (o.standard_cost + standard_total os)
    one match o (x, r, h, c) s = rw (r, h, c, zero-add) (keep x s)
    one substitution o (x, y, r, h, c) s = rw (r, h, c, one-add) (replace x y s)
    one deletion o (x, r, h, c) s = rw (r, h, c, one-add) (delete x s)
    one insertion o (y, r, h, c) s = rw (r, h, c, one-add) (add y s)

rev_take-all : (p xs : List ℕ) → rev_take (length xs) p xs ≡ reverse xs ++ p
unfolding rev_take
rev_take-all p [] = refl
rev_take-all p (x ∷ xs) = rw (reverse-cons x xs, append_assoc) (rev_take-all (x ∷ p) xs)

-- The operations of an optimal edit of one text into the other.
pub record IsOptimal (xs ys : List ℕ) (os : List EditOperation) : Type 0 where
  pub numbered : IsNumbered 0 os
  pub edits : All IsEdit os
  pub reads : references os ≡ xs
  pub writes : hypotheses os ≡ ys
  pub script : Edits xs ys (standard_total os)
  pub least : (n : ℕ) → Edits xs ys n → standard_total os ≤ n

-- `levenshteinOperations` always returns, and returns operations that are numbered in order, each of
-- the shape of its kind, that read the reference and write the hypothesis from left to right, and
-- whose cost is the least number of deletions, insertions and substitutions that turns one into the
-- other.
pub levenshtein_operations-IsOptimal :
    (xs ys : List ℕ)
    → (os : List EditOperation) × (levenshtein_operations xs ys ≡ some os) × IsOptimal xs ys os
unfolding levenshtein_operations
levenshtein_operations-IsOptimal xs ys = (
  os,
  ap finish w.returned,
  record {
    numbered = n.0;
    edits = n.4;
    reads = reads;
    writes = writes;
    script = rw (reads, writes) at (operations-Edits os n.4);
    least = λ k s. omega (arith, charged, dist-le-Edits (Edits-reverse s));
  },
)
  where
    w :
        Traced
          (rev_take (length xs) [] xs)
          (rev_take (length ys) [] ys)
          (trace xs ys (distances xs ys) (length xs) (length ys))
    w = trace-Traced xs ys (length xs) (length ys) (le_refl (length xs)) (le_refl (length ys))

    os : List EditOperation
    os = number_from 0 (reverse w.walk)

    n :
        IsNumbered 0 os
        × (references os ≡ references (reverse w.walk))
        × (hypotheses os ≡ hypotheses (reverse w.walk))
        × (standard_total os ≡ standard_total (reverse w.walk))
        × All IsEdit os
    n = number_from_lem 0 (reverse w.walk) (edits-reverse w.walk w.edits)

    reads : references os ≡ xs
    reads =
        n.1
        ∙ references-reverse w.walk w.edits
        ∙ ap reverse (w.reads ∙ rev_take-all [] xs ∙ append-nil _)
        ∙ reverse-reverse xs

    writes : hypotheses os ≡ ys
    writes =
        n.2
        ∙ hypotheses-reverse w.walk w.edits
        ∙ ap reverse (w.writes ∙ rev_take-all [] ys ∙ append-nil _)
        ∙ reverse-reverse ys

    charged : standard_total os ≡ dist (reverse xs) (reverse ys)
    charged =
        n.3
        ∙ total-reverse w.walk
        ∙ w.charged
        ∙ ap₂ dist (rev_take-all [] xs ∙ append-nil _) (rev_take-all [] ys ∙ append-nil _)
