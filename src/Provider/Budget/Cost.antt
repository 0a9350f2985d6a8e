-- ===== src/Provider/Budget/Cost.antt =====
-- Rounded costs: the least whole number of micros that covers the charge, or saturation.
use ai_video_series_workflow.Common.{
  ℤ, pos, pos_part, ◌≤ℤ◌, ℕ, ◌+◌, ◌*◌, ◌/◌, ◌%◌, ◌^◌, ◌≤◌, ◌<◌, ◌≡◌, refl, ap, ◌⊎◌, inl, inr, arith,
  ltb, leb, ◌==◌, if◌then◌else◌, Bool-cases, tests, ==_iff,
}
use native.Mathlib.Nat.{div-add-mod', mod-lt}
use ai_video_series_workflow.Provider.Budget.{rounded_quotient, rounded_cost, max_int64}

-- `charge` micros at a price of `divisor` units: `n` covers it and `n - 1` would not.
abbrev pub IsCeiling : ℕ → ℕ → ℕ → Type 0
IsCeiling charge divisor n = (charge ≤ n * divisor) × (n * divisor < charge + divisor)

-- A number of micros that is right for the charge, or the greatest one if none fits.
abbrev pub IsCost : ℕ → ℕ → ℕ → Type 0
IsCost charge divisor n =
    (n ≤ max_int64)
    × (IsCeiling charge divisor n ⊎ ((n ≡ max_int64) × (max_int64 * divisor < charge)))

split_128 : (x : ℕ) → x / 2 ^ 64 * 2 ^ 64 + x % 2 ^ 64 ≡ x
split_128 x = omega arith

-- The rounding of a charge, its product with the rate not yet split into two words.
abbrev round_up : ℕ → ℕ → ℕ
round_up charge divisor =
    if leb divisor (charge / 2 ^ 64)
    then max_int64
    else if ltb max_int64 (charge / divisor)
    then max_int64
    else if ltb 0 (charge % divisor)
    then (if charge / divisor == max_int64 then max_int64 else charge / divisor + 1)
    else charge / divisor

rounded_quotient-round_up :
    (units rate divisor : ℕ) → rounded_quotient units rate divisor ≡ round_up (units * rate) divisor
unfolding rounded_quotient
rounded_quotient-round_up units rate divisor = rw split_128

mul_above : (q divisor : ℕ) → max_int64 < q → (max_int64 + 1) * divisor ≤ q * divisor
mul_above q divisor h = grind arith

rounds :
    (charge divisor : ℕ)
    → 0 < divisor
    → charge / divisor ≤ max_int64
    → IsCost charge divisor (
        if ltb 0 (charge % divisor)
        then (if charge / divisor == max_int64 then max_int64 else charge / divisor + 1)
        else charge / divisor)
rounds charge divisor h below = elim (Bool-cases (ltb 0 (charge % divisor))) [
  | inl part ↦ rw part (elim (Bool-cases (charge / divisor == max_int64)) [
    | inl top ↦
        rw top (omega arith, inr (refl, omega (tests, whole, full ((==_iff _ _).0 top), part)))
    | inr room ↦ rw room (ground arith, inl (omega (arith, whole, small), omega (tests, whole)))
  ])
  | inr exact ↦ rw exact (below, inl (ground (arith, whole), omega (arith, whole)))
]
  where
    whole : charge / divisor * divisor + charge % divisor ≡ charge
    whole = div-add-mod' charge divisor

    small : charge % divisor < divisor
    small = mod-lt charge h

    full : charge / divisor ≡ max_int64 → charge / divisor * divisor ≡ max_int64 * divisor
    full e = ap (λ (t : ℕ). t * divisor) e

round_up-IsCost :
    (charge divisor : ℕ) → 0 < divisor → IsCost charge divisor (round_up charge divisor)
round_up-IsCost charge divisor h = elim (Bool-cases (leb divisor (charge / 2 ^ 64))) [
  | inl wide ↦ rw wide (omega arith, inr (refl, omega tests))
  | inr narrow ↦ rw narrow (elim (Bool-cases (ltb max_int64 (charge / divisor))) [
    | inl above ↦
        rw above
          (omega arith, inr (refl, omega (tests, whole, mul_above (charge / divisor) divisor)))
    | inr below ↦ rw below (rounds charge divisor h (ground arith))
  ])
]
  where
    whole : charge / divisor * divisor + charge % divisor ≡ charge
    whole = div-add-mod' charge divisor

pub rounded_quotient-IsCost :
    (units rate divisor : ℕ)
    → 0 < divisor
    → IsCost (units * rate) divisor (rounded_quotient units rate divisor)
rounded_quotient-IsCost units rate divisor h =
    rw rounded_quotient-round_up (round_up-IsCost (units * rate) divisor h)

rounded_cost_positive :
    (units rate divisor : ℤ)
    → pos 1 ≤ℤ units
    → pos 1 ≤ℤ rate
    → pos 1 ≤ℤ divisor
    → rounded_cost units rate divisor
      ≡ pos (rounded_quotient (pos_part units) (pos_part rate) (pos_part divisor))
unfolding rounded_cost
rounded_cost_positive units rate divisor h k l = ground arith

rounded_cost_free :
    (units rate divisor : ℤ)
    → (units ≤ℤ pos 0) ⊎ (rate ≤ℤ pos 0) ⊎ (divisor ≤ℤ pos 0)
    → rounded_cost units rate divisor ≡ pos 0
unfolding rounded_cost
rounded_cost_free units rate divisor h = ground arith

rounded_cost_counted :
    (units rate divisor : ℤ)
    → rounded_cost units rate divisor ≡ pos (pos_part (rounded_cost units rate divisor))
unfolding rounded_cost
rounded_cost_counted units rate divisor = ground arith

-- A rounded cost is never negative nor above int64. Where units, rate and divisor are positive
-- it is the least whole number of micros that covers units * rate / divisor, or the greatest int64
-- if none does; otherwise it is 0.
pub rounded_cost-IsCost :
    (units rate divisor : ℤ)
    → let n = pos_part (rounded_cost units rate divisor) in
      (rounded_cost units rate divisor ≡ pos n)
      × (pos 1 ≤ℤ units
          → pos 1 ≤ℤ rate
          → pos 1 ≤ℤ divisor
          → IsCost (pos_part units * pos_part rate) (pos_part divisor) n)
      × ((units ≤ℤ pos 0) ⊎ (rate ≤ℤ pos 0) ⊎ (divisor ≤ℤ pos 0) → n ≡ 0)
rounded_cost-IsCost units rate divisor = (
  rounded_cost_counted units rate divisor,
  λ h k l.
      rw (rounded_cost_positive units rate divisor h k l)
        (rounded_quotient-IsCost (pos_part units) (pos_part rate) (pos_part divisor) (omega arith)),
  λ h. rw (rounded_cost_free units rate divisor h) refl,
)
