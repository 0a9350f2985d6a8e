-- ===== src/Provider/Budget/Policy.antt =====
-- What the budget policy lets through.
use ai_video_series_workflow.Common.{
  ◌+◌, ◌≡◌, ◌⊎◌, ◌↔◌, true, false, Option, none, some, [], ◌∷◌, ℤ, pos, negsuc, ◌≤ℤ◌, ◌+ℤ◌, arith,
  leb, if◌then◌else◌, ap, sym, ◌∙◌,
}
use ai_video_series_workflow.Provider.Budget.{
  BudgetEnvelope, BudgetPolicy, BudgetDecision, checked_add_non_negative, decide_projection,
  evaluate, max_int64,
}

-- The sum of three amounts, if none is negative and it fits in an int64.
abbrev pub exact_sum : ℤ → ℤ → ℤ → Option ℤ
exact_sum (pos a) (pos b) (pos c) =
    if leb (a + b + c) max_int64 then some (pos (a + b + c)) else none
exact_sum _ _ _ = none

pub checked_add_exact : (a b c : ℤ) → checked_add_non_negative (a ∷ b ∷ c ∷ []) ≡ exact_sum a b c
unfolding checked_add_non_negative
checked_add_exact (pos a) (pos b) (pos c) = ground arith
checked_add_exact (pos a) (pos b) (negsuc c) = ground arith
checked_add_exact (pos a) (negsuc b) c = ground arith
checked_add_exact (negsuc a) b c = ground arith

-- The two guards before the projection.
abbrev pub Guarded : BudgetPolicy → ℤ → ℤ → BudgetEnvelope → Type 0
Guarded p spent reserved envelope =
    (pos 0 ≤ℤ spent)
    × (pos 0 ≤ℤ reserved)
    × (pos 0 ≤ℤ envelope.estimated_cost_micros)
    × (pos 0 ≤ℤ envelope.max_cost_micros)
    × (pos 0 ≤ℤ p.soft_limit_micros)
    × (pos 0 ≤ℤ p.hard_limit_micros)
    × ((p.max_attempts ≤ℤ pos 0) ⊎ (envelope.max_attempts ≤ℤ p.max_attempts))

evaluate_guards :
    (p : BudgetPolicy) (spent reserved : ℤ) (envelope : BudgetEnvelope) {d : BudgetDecision}
    → evaluate p spent reserved envelope ≡ (d, none)
    → Guarded p spent reserved envelope
      × (decide_projection p
            (checked_add_non_negative (spent ∷ reserved ∷ envelope.max_cost_micros ∷ []))
          ≡ (d, none))
unfolding evaluate
evaluate_guards p spent reserved envelope h = ground (arith, h)

evaluate_projects :
    (p : BudgetPolicy) (spent reserved : ℤ) (envelope : BudgetEnvelope) (d : BudgetDecision)
    → Guarded p spent reserved envelope
    → decide_projection p
        (checked_add_non_negative (spent ∷ reserved ∷ envelope.max_cost_micros ∷ []))
      ≡ (d, none)
    → evaluate p spent reserved envelope ≡ (d, none)
unfolding evaluate
evaluate_projects p spent reserved envelope d g e = ground arith

-- What a decision says of the projection.
abbrev pub Decided : BudgetPolicy → ℤ → BudgetDecision → Type 0
Decided p t d =
    (d.projected_micros ≡ t)
    × ((p.hard_limit_micros ≤ℤ pos 0) ⊎ (t ≤ℤ p.hard_limit_micros))
    × (d.soft_warning ≡ true → (pos 1 ≤ℤ p.soft_limit_micros) × (p.soft_limit_micros ≤ℤ t))
    × (d.soft_warning ≡ false
        → (p.soft_limit_micros ≤ℤ pos 0) ⊎ (t +ℤ pos 1 ≤ℤ p.soft_limit_micros))

projected_exactly :
    (p : BudgetPolicy) (a b c : ℤ) (d : BudgetDecision)
    → decide_projection p (exact_sum a b c) ≡ (d, none)
    → (d.projected_micros ≤ℤ pos max_int64) × Decided p (a +ℤ b +ℤ c) d
unfolding decide_projection
projected_exactly p (pos a) (pos b) (pos c) d h = ground arith
projected_exactly p (pos a) (pos b) (negsuc c) d h = ground arith
projected_exactly p (pos a) (negsuc b) c d h = ground arith
projected_exactly p (negsuc a) b c d h = ground arith

projects :
    (p : BudgetPolicy) (a b c : ℤ) (d : BudgetDecision)
    → pos 0 ≤ℤ a
    → pos 0 ≤ℤ b
    → pos 0 ≤ℤ c
    → d.projected_micros ≤ℤ pos max_int64
    → Decided p (a +ℤ b +ℤ c) d
    → decide_projection p (exact_sum a b c) ≡ (d, none)
unfolding decide_projection
projects p (pos a) (pos b) (pos c) d ha hb hc r k = ground arith
projects p (pos a) (pos b) (negsuc c) d ha hb hc r k = absurd (omega arith)
projects p (pos a) (negsuc b) c d ha hb hc r k = absurd (omega arith)
projects p (negsuc a) b c d ha hb hc r k = absurd (omega arith)

-- `Evaluate` admits a request with a decision exactly when no amount is negative, the request
-- asks for no more attempts than the policy allows, the exact sum of spent, reserved and maximal
-- cost fits in an int64 and passes no hard limit, and the decision carries that sum and warns
-- exactly from a positive soft limit on.
pub evaluate_iff :
    (p : BudgetPolicy) (spent reserved : ℤ) (envelope : BudgetEnvelope) (d : BudgetDecision)
    → (evaluate p spent reserved envelope ≡ (d, none)) ↔ (
        Guarded p spent reserved envelope
        × (d.projected_micros ≤ℤ pos max_int64)
        × Decided p (spent +ℤ reserved +ℤ envelope.max_cost_micros) d)
evaluate_iff p spent reserved envelope d = (admitted, λ h. admits h.0 h.1 h.2)
  where
    projected :
        decide_projection p
          (checked_add_non_negative (spent ∷ reserved ∷ envelope.max_cost_micros ∷ []))
        ≡ decide_projection p (exact_sum spent reserved envelope.max_cost_micros)
    projected = ap (decide_projection p) (checked_add_exact spent reserved envelope.max_cost_micros)

    admitted :
        evaluate p spent reserved envelope ≡ (d, none)
        → Guarded p spent reserved envelope
          × (d.projected_micros ≤ℤ pos max_int64)
          × Decided p (spent +ℤ reserved +ℤ envelope.max_cost_micros) d
    admitted h =
        let (g, e) = evaluate_guards p spent reserved envelope h in
        let (r, c) =
          projected_exactly p spent reserved envelope.max_cost_micros d (sym projected ∙ e) in
        (g, r, c)

    admits :
        Guarded p spent reserved envelope
        → d.projected_micros ≤ℤ pos max_int64
        → Decided p (spent +ℤ reserved +ℤ envelope.max_cost_micros) d
        → evaluate p spent reserved envelope ≡ (d, none)
    admits g r c =
        evaluate_projects p spent reserved envelope d g
          (projected ∙ projects p spent reserved envelope.max_cost_micros d g.0 g.1 g.3 r c)
