-- ===== src/Provider/Budget/Envelope.antt =====
-- What an accepted budget envelope is.
use ai_video_series_workflow.Common.{◌≡◌, ◌⊎◌, ◌↔◌, none, pos, ◌≤ℤ◌, text_eq_iff, [], arith}
use ai_video_series_workflow.Provider.Budget.{BudgetEnvelope, subscription_included_only, validate}

-- The two contracts: metered cash, or a subscription that costs no cash and reserves AFP.
pub record IsMetered (b : BudgetEnvelope) : Type 0 where
  pub no_mode : b.billing_mode ≡ []
  pub some_cash : pos 1 ≤ℤ b.max_cost_micros
  pub no_points : b.reserved_afp_milli ≡ pos 0

pub record IsSubscription (b : BudgetEnvelope) : Type 0 where
  pub mode : b.billing_mode ≡ subscription_included_only
  pub no_estimate : b.estimated_cost_micros ≡ pos 0
  pub no_cash : b.max_cost_micros ≡ pos 0
  pub some_points : pos 1 ≤ℤ b.reserved_afp_milli

pub record IsOrdered (b : BudgetEnvelope) : Type 0 where
  pub estimate_not_negative : pos 0 ≤ℤ b.estimated_cost_micros
  pub estimate_covered : b.estimated_cost_micros ≤ℤ b.max_cost_micros
  pub some_attempt : pos 1 ≤ℤ b.max_attempts

-- An envelope is accepted exactly when its amounts are ordered and it is of one of the two
-- contracts.
pub validate_iff :
    (b : BudgetEnvelope) → (validate b ≡ none) ↔ (IsOrdered b × (IsMetered b ⊎ IsSubscription b))
unfolding validate
validate_iff b = (
  λ h. ground (arith, h, text_eq_iff b.billing_mode subscription_included_only),
  λ h. ground (arith, h, text_eq_iff b.billing_mode subscription_included_only),
)
