-- ===== src/Cer/Trace.antt =====
-- The operations that the walk returns turn the reference into the hypothesis, at least cost.
use ai_video_series_workflow.Common.{
  ℕ, zero, suc, ◌+◌, ◌≤◌, ◌<◌, ◌≡◌, refl, ap, sym, ◌∙◌, true, false, ◌&&◌, Option, some, List, [],
  ◌∷◌, ◌++◌, arith, length, All, ◌==◌, ==_iff, Bool-cases, &&-true, inl, inr,
}
use ai_video_series_workflow.Cer.{
  get_or, min3, cost, distances, cell_at, EditKind, match, substitution, deletion, insertion,
  EditOperation, operation, on_reference, on_hypothesis, paired, and_then, trace,
}
use ai_video_series_workflow.Cer.Table.{dist, dist-nil, rev_take, rev_take-suc, distances_lem}

-- The runes that the operations name, and their cost.
abbrev pub references : List EditOperation → List ℕ
references [] = []
references (o ∷ os) = o.reference ++ references os

abbrev pub hypotheses : List EditOperation → List ℕ
hypotheses [] = []
hypotheses (o ∷ os) = o.hypothesis ++ hypotheses os

abbrev pub standard_total : List EditOperation → ℕ
standard_total [] = 0
standard_total (o ∷ os) = o.standard_cost + standard_total os

-- What an operation of each kind names, and what it costs.
abbrev pub IsOfKind : EditKind → EditOperation → Type 0
IsOfKind match o =
    (x : ℕ) × (o.reference ≡ x ∷ []) × (o.hypothesis ≡ x ∷ []) × (o.standard_cost ≡ 0)
IsOfKind substitution o =
    (x : ℕ) × (y : ℕ) × (o.reference ≡ x ∷ []) × (o.hypothesis ≡ y ∷ []) × (o.standard_cost ≡ 1)
IsOfKind deletion o = (x : ℕ) × (o.reference ≡ x ∷ []) × (o.hypothesis ≡ []) × (o.standard_cost ≡ 1)
IsOfKind insertion o =
    (y : ℕ) × (o.reference ≡ []) × (o.hypothesis ≡ y ∷ []) × (o.standard_cost ≡ 1)

abbrev pub IsEdit : EditOperation → Type 0
IsEdit o = IsOfKind o.kind o

-- A walk that has returned, with what it has named and charged, the last rune first.
pub record Traced (p q : List ℕ) (r : Option (List EditOperation)) : Type 0 where
  pub walk : List EditOperation
  pub returned : r ≡ some walk
  pub reads : references walk ≡ p
  pub writes : hypotheses walk ≡ q
  pub charged : standard_total walk ≡ dist p q
  pub edits : All IsEdit walk

step :
    {p q p' q' : List ℕ} {r : Option (List EditOperation)} (o : EditOperation)
    → Traced p q r
    → IsEdit o
    → o.reference ++ p ≡ p'
    → o.hypothesis ++ q ≡ q'
    → o.standard_cost + dist p q ≡ dist p' q'
    → Traced p' q' (and_then o r)
step o w e a b c = record {
  walk = o ∷ w.walk;
  returned = ap (and_then o) w.returned;
  reads = ap (◌++◌ o.reference) w.reads ∙ a;
  writes = ap (◌++◌ o.hypothesis) w.writes ∙ b;
  charged = omega (arith, w.charged, c);
  edits = (e, w.edits);
}

-- Where the tests for a match, a substitution and a deletion fail, the least is the insertion.
insertion_least :
    (x y here diagonal up left : ℕ)
    → here ≡ min3 (diagonal + cost x y) (up + 1) (left + 1)
    → (x == y && here == diagonal) ≡ false
    → (here == diagonal + 1) ≡ false
    → (here == up + 1) ≡ false
    → here ≡ left + 1
unfolding min3
insertion_least x y here diagonal up left e a b c = ground arith

deletion_first : (x : ℕ) (p : List ℕ) → dist (x ∷ p) [] ≡ dist p [] + 1
unfolding dist
deletion_first x p = omega (arith, dist-nil p)

insertion_first : (y : ℕ) (q : List ℕ) → dist [] (y ∷ q) ≡ dist [] q + 1
unfolding dist
insertion_first y q = omega arith

dist-suc :
    (x y : ℕ) (p q : List ℕ)
    → dist (x ∷ p) (y ∷ q) ≡ min3 (dist p q + cost x y) (dist p (y ∷ q) + 1) (dist (x ∷ p) q + 1)
unfolding dist
dist-suc x y p q = refl

module _ (xs ys : List ℕ) where
  abbrev pub P : ℕ → List ℕ
  P i = rev_take i [] xs

  abbrev pub Q : ℕ → List ℕ
  Q j = rev_take j [] ys

  abbrev cell : ℕ → ℕ → ℕ
  cell i j = cell_at (distances xs ys) i j

  P-suc : (i : ℕ) → i < length xs → get_or xs i 0 ∷ P i ≡ P (suc i)
  P-suc i h = sym (rev_take-suc i [] xs h)

  Q-suc : (j : ℕ) → j < length ys → get_or ys j 0 ∷ Q j ≡ Q (suc j)
  Q-suc j k = sym (rev_take-suc j [] ys k)

  cell-min3 :
      (i j : ℕ)
      → i < length xs
      → j < length ys
      → cell (suc i) (suc j)
        ≡ min3
            (cell i j + cost (get_or xs i 0) (get_or ys j 0))
            (cell i (suc j) + 1)
            (cell (suc i) j + 1)
  cell-min3 i j h k =
      rw
        (
          distances_lem xs ys (suc i) (suc j) h k,
          distances_lem xs ys i j (omega arith) (omega arith),
          distances_lem xs ys i (suc j) (omega arith) k,
          distances_lem xs ys (suc i) j h (omega arith),
          rev_take-suc i [] xs h,
          rev_take-suc j [] ys k,
        )
        (dist-suc (get_or xs i 0) (get_or ys j 0) (P i) (Q j))

  trace_deletes :
      (i : ℕ)
      → i < length xs
      → Traced (P i) (Q 0) (trace xs ys (distances xs ys) i 0)
      → Traced (P (suc i)) (Q 0) (trace xs ys (distances xs ys) (suc i) 0)
  unfolding trace rev_take
  trace_deletes i h w =
      rw ((==_iff (cell (suc i) 0) (cell i 0 + 1)).1 falls, trace)
        (step (on_reference i (get_or xs i 0) (operation deletion 1)) w
          (get_or xs i 0, refl, refl, refl) (P-suc i h) refl
          (omega (
            arith,
            falls,
            distances_lem xs ys i 0 (omega arith) (omega arith),
            distances_lem xs ys (suc i) 0 h (omega arith),
          )))
    where
      falls : cell (suc i) 0 ≡ cell i 0 + 1
      falls =
          rw
            (
              distances_lem xs ys i 0 (omega arith) (omega arith),
              distances_lem xs ys (suc i) 0 h (omega arith),
              rev_take-suc i [] xs h,
            )
            (deletion_first (get_or xs i 0) (P i))

  -- The walk from a cell inside the table, from the walks of its three neighbours.
  module _ (i j : ℕ) (h : i < length xs) (k : j < length ys) where
    at_diagonal : cell i j ≡ dist (P i) (Q j)
    at_diagonal = distances_lem xs ys i j (omega arith) (omega arith)

    at_up : cell i (suc j) ≡ dist (P i) (Q (suc j))
    at_up = distances_lem xs ys i (suc j) (omega arith) k

    at_left : cell (suc i) j ≡ dist (P (suc i)) (Q j)
    at_left = distances_lem xs ys (suc i) j h (omega arith)

    at_here : cell (suc i) (suc j) ≡ dist (P (suc i)) (Q (suc j))
    at_here = distances_lem xs ys (suc i) (suc j) h k

    trace_pairs :
        Traced (P i) (Q j) (trace xs ys (distances xs ys) i j)
        → Traced (P i) (Q (suc j)) (trace xs ys (distances xs ys) i (suc j))
        → Traced (P (suc i)) (Q j) (trace xs ys (distances xs ys) (suc i) j)
        → Traced (P (suc i)) (Q (suc j)) (trace xs ys (distances xs ys) (suc i) (suc j))
    unfolding trace
    trace_pairs diagonal up left =
        elim (Bool-cases (get_or xs i 0 == get_or ys j 0 && cell (suc i) (suc j) == cell i j)) [
          | inl e ↦ rw (e, trace) (matches (&&-true _ _ e))
          | inr e ↦
              rw (e, trace)
                (elim (Bool-cases (cell (suc i) (suc j) == cell i j + 1)) [
                  | inl e' ↦ rw (e', trace) (substitutes ((==_iff _ _).0 e'))
                  | inr e' ↦
                      rw (e', trace)
                        (elim (Bool-cases (cell (suc i) (suc j) == cell i (suc j) + 1)) [
                          | inl e'' ↦ rw (e'', trace) (deletes ((==_iff _ _).0 e''))
                          | inr e'' ↦
                              rw (e'', trace)
                                (inserts (
                                  insertion_least (get_or xs i 0) (get_or ys j 0)
                                    (cell (suc i) (suc j)) (cell i j) (cell i (suc j))
                                    (cell (suc i) j) (cell-min3 i j h k) e e' e''))
                        ])
                ])
        ]
      where
        x : ℕ
        x = get_or xs i 0

        y : ℕ
        y = get_or ys j 0

        matches :
            ((x == y) ≡ true) × ((cell (suc i) (suc j) == cell i j) ≡ true)
            → Traced
                (P (suc i))
                (Q (suc j))
                (and_then (paired match 0 i x j y) (trace xs ys (distances xs ys) i j))
        matches (same, e) =
            step (paired match 0 i x j y) diagonal
              (x, refl, ap (λ (c : ℕ). c ∷ []) (sym ((==_iff x y).0 same)), refl) (P-suc i h)
              (Q-suc j k) (omega (arith, (==_iff _ _).0 e, at_diagonal, at_here))

        substitutes :
            cell (suc i) (suc j) ≡ cell i j + 1
            → Traced
                (P (suc i))
                (Q (suc j))
                (and_then (paired substitution 1 i x j y) (trace xs ys (distances xs ys) i j))
        substitutes e =
            step (paired substitution 1 i x j y) diagonal (x, y, refl, refl, refl) (P-suc i h)
              (Q-suc j k) (omega (arith, e, at_diagonal, at_here))

        deletes :
            cell (suc i) (suc j) ≡ cell i (suc j) + 1
            → Traced (P (suc i)) (Q (suc j)) (
                and_then
                  (on_reference i x (operation deletion 1))
                  (trace xs ys (distances xs ys) i (suc j)))
        deletes e =
            step (on_reference i x (operation deletion 1)) up (x, refl, refl, refl) (P-suc i h) refl
              (omega (arith, e, at_up, at_here))

        inserts :
            cell (suc i) (suc j) ≡ cell (suc i) j + 1
            → Traced (P (suc i)) (Q (suc j)) (
                and_then
                  (on_hypothesis j y (operation insertion 1))
                  (trace xs ys (distances xs ys) (suc i) j))
        inserts e =
            step (on_hypothesis j y (operation insertion 1)) left (y, refl, refl, refl) refl
              (Q-suc j k) (omega (arith, e, at_left, at_here))

  pub trace-Traced :
      (i j : ℕ)
      → i ≤ length xs
      → j ≤ length ys
      → Traced (P i) (Q j) (trace xs ys (distances xs ys) i j)
  unfolding trace rev_take dist
  trace-Traced zero zero h k = record {
    walk = [];
    returned = refl;
    reads = refl;
    writes = refl;
    charged = refl;
    edits = tt;
  }
  trace-Traced zero (suc j) h k =
      step (on_hypothesis j (get_or ys j 0) (operation insertion 1))
        (trace-Traced zero j h (omega arith)) (get_or ys j 0, refl, refl, refl) refl (Q-suc j k)
        (rw (← Q-suc j k) (omega arith))
  trace-Traced (suc i) zero h k = trace_deletes i h (trace-Traced i zero (omega arith) k)
  trace-Traced (suc i) (suc j) h k =
      trace_pairs i j h k (trace-Traced i j (omega arith) (omega arith))
        (trace-Traced i (suc j) (omega arith) k) (trace-Traced (suc i) j h (omega arith))
