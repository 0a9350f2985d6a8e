-- ===== src/Provider/Budget.antt =====
-- internal/providercontract/budget.go: the budget envelope of a request, the policy that gates
-- it, and the rounded costs. An int64 is an integer; every theorem that needs it says that the
-- integers lie in the range of int64. Error messages are the constructors of `Refusal`.
pub mod Envelope
pub mod Policy
pub mod Cost
use ai_video_series_workflow.Common.{
  ℕ, ◌+◌, ◌*◌, ◌/◌, ◌%◌, ◌^◌, ◌-◌, Bool, true, false, ◌&&◌, ◌||◌, not, Option, none, some, List, [],
  ◌∷◌, ℤ, pos, ◌+ℤ◌, ◌-ℤ◌, ltb_ℤ, leb_ℤ, ltb, leb, ◌==◌, if◌then◌else◌, Text, text_eq, codes,
  is_empty, pos_part,
}

-- math.MaxInt64.
abbrev pub max_int64 : ℕ
max_int64 = 9223372036854775807

abbrev pub is_zero : ℤ → Bool
is_zero a = leb_ℤ a (pos 0) && leb_ℤ (pos 0) a

pub record BudgetEnvelope : Type 0 where
  pub estimated_cost_micros : ℤ
  pub max_cost_micros : ℤ
  pub max_attempts : ℤ
  pub billing_mode : Text
  pub reserved_afp_milli : ℤ

abbrev pub subscription_included_only : Text
subscription_included_only = codes "subscription_included_only"

-- Why an envelope is refused, in the order of the checks.
pub data Refusal : Type 0 where
  estimate_negative maximum_negative estimate_above_maximum attempts_not_positive : Refusal
  reservation_negative subscription_not_cash_free unsupported_mode metered_not_positive : Refusal

-- `BudgetEnvelope.Validate`; `none` is the nil error.
unfoldable pub validate : BudgetEnvelope → Option Refusal
validate b =
    if ltb_ℤ b.estimated_cost_micros (pos 0)
    then some estimate_negative
    else if ltb_ℤ b.max_cost_micros (pos 0)
    then some maximum_negative
    else if ltb_ℤ b.max_cost_micros b.estimated_cost_micros
    then some estimate_above_maximum
    else if ltb_ℤ b.max_attempts (pos 1)
    then some attempts_not_positive
    else if ltb_ℤ b.reserved_afp_milli (pos 0)
    then some reservation_negative
    else if text_eq b.billing_mode subscription_included_only
    then (if not (is_zero b.estimated_cost_micros)
          || not (is_zero b.max_cost_micros)
          || leb_ℤ b.reserved_afp_milli (pos 0)
        then some subscription_not_cash_free
        else none)
    else if not (is_empty b.billing_mode)
    then some unsupported_mode
    else if leb_ℤ b.max_cost_micros (pos 0) || not (is_zero b.reserved_afp_milli)
    then some metered_not_positive
    else none

pub record BudgetPolicy : Type 0 where
  pub soft_limit_micros : ℤ
  pub hard_limit_micros : ℤ
  pub max_attempts : ℤ

pub record BudgetDecision : Type 0 where
  pub projected_micros : ℤ
  pub soft_warning : Bool

-- The three errors of `Evaluate`: one CodeInvalidRequest and three CodeBudgetExceeded.
pub data Denial : Type 0 where
  negative_value retry_limit out_of_range hard_limit : Denial

-- The loop of `checkedAddNonNegative` from a running total.
unfoldable pub checked_add_from : ℤ → List ℤ → Option ℤ
checked_add_from total [] = some total
checked_add_from total (value ∷ values) =
    let rest = checked_add_from (total +ℤ value) values in
    if ltb_ℤ value (pos 0) || ltb_ℤ (pos max_int64 -ℤ total) value then none else rest

unfoldable pub checked_add_non_negative : List ℤ → Option ℤ
unfolding checked_add_from
checked_add_non_negative values = checked_add_from (pos 0) values

abbrev pub no_decision : BudgetDecision
no_decision = record { projected_micros = pos 0; soft_warning = false }

-- The part of `Evaluate` that follows the projection.
unfoldable pub decide_projection : BudgetPolicy → Option ℤ → BudgetDecision × Option Denial
decide_projection p none =
    (record { projected_micros = pos max_int64; soft_warning = false }, some out_of_range)
decide_projection p (some projected) =
    if ltb_ℤ (pos 0) p.hard_limit_micros && ltb_ℤ p.hard_limit_micros projected
    then (record { projected_micros = projected; soft_warning = false }, some hard_limit)
    else (
      record {
        projected_micros = projected;
        soft_warning = ltb_ℤ (pos 0) p.soft_limit_micros && leb_ℤ p.soft_limit_micros projected;
      },
      none,
    )

-- `BudgetPolicy.Evaluate`.
unfoldable pub evaluate : BudgetPolicy → ℤ → ℤ → BudgetEnvelope → BudgetDecision × Option Denial
evaluate p spent reserved envelope =
    if ltb_ℤ spent (pos 0)
      || ltb_ℤ reserved (pos 0)
      || ltb_ℤ envelope.estimated_cost_micros (pos 0)
      || ltb_ℤ envelope.max_cost_micros (pos 0)
      || ltb_ℤ p.soft_limit_micros (pos 0)
      || ltb_ℤ p.hard_limit_micros (pos 0)
    then (no_decision, some negative_value)
    else if ltb_ℤ (pos 0) p.max_attempts && ltb_ℤ p.max_attempts envelope.max_attempts
    then (no_decision, some retry_limit)
    else decide_projection p
        (checked_add_non_negative (spent ∷ reserved ∷ envelope.max_cost_micros ∷ []))

-- `bits.Mul64` and `bits.Div64` of the Go library; `Div64` is called with high < divisor.
abbrev pub mul64 : ℕ → ℕ → ℕ × ℕ
mul64 x y = (x * y / 2 ^ 64, x * y % 2 ^ 64)

abbrev pub div64 : ℕ → ℕ → ℕ → ℕ × ℕ
div64 high low divisor = ((high * 2 ^ 64 + low) / divisor, (high * 2 ^ 64 + low) % divisor)

-- The part of `roundedCost` that follows the sign tests, on the uint64 values.
unfoldable pub rounded_quotient : ℕ → ℕ → ℕ → ℕ
rounded_quotient units rate divisor =
    let (high, low) = mul64 units rate in
    if leb divisor high
    then max_int64
    else (let (quotient, remainder) = div64 high low divisor in
        if ltb max_int64 quotient
        then max_int64
        else if ltb 0 remainder
        then (if quotient == max_int64 then max_int64 else quotient + 1)
        else quotient)

-- `roundedCost`.
unfoldable pub rounded_cost : ℤ → ℤ → ℤ → ℤ
rounded_cost units rate divisor =
    if leb_ℤ units (pos 0) || leb_ℤ rate (pos 0) || leb_ℤ divisor (pos 0)
    then pos 0
    else pos (rounded_quotient (pos_part units) (pos_part rate) (pos_part divisor))

unfoldable pub cost_per_million : ℤ → ℤ → ℤ
unfolding rounded_cost
cost_per_million units rate = rounded_cost units rate (pos 1000000)

unfoldable pub cost_per_ten_thousand : ℤ → ℤ → ℤ
unfolding rounded_cost
cost_per_ten_thousand units rate = rounded_cost units rate (pos 10000)
