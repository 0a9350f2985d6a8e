-- ===== src/Provider/Dispatch/Binding.antt =====
-- A budget reservation is good for what it was bound to, and for nothing else.
use ai_video_series_workflow.Common.{
  ◌≡◌, refl, sym, ◌∙◌, true, false, Option, none, some, Text, text_eq_iff, text_eq_refl, is_sha256,
  ◌≤ℤ◌, arith, ok,
}
use ai_video_series_workflow.Provider.Dispatch.{
  BudgetReservation, BudgetBindingInput, Material, material, is_incomplete, validate_reservation,
  validate_binding_input, bind_budget_reservation, validate_amount, validate_for, or_else,
}

pub or_else-none {ℓ} : {E : Type ℓ} (a b : Option E) → or_else a b ≡ none → (a ≡ none) × (b ≡ none)
or_else-none none b h = (refl, h)
or_else-none (some e) b h = cc

module _ (digest : Material → Text) where
  bound-fields :
      (b : BudgetReservation) (input : BudgetBindingInput) {bound : BudgetReservation}
      → bind_budget_reservation digest b input ≡ ok bound
      → (validate_binding_input input ≡ none)
        × (is_incomplete b ≡ false)
        × (bound ≡ record b { binding_hash = digest (material b input) })
  unfolding bind_budget_reservation
  bound-fields b input h = ground arith

  validate_reservation-bound :
      (b : BudgetReservation) (hash : Text)
      → is_incomplete b ≡ false
      → is_sha256 hash ≡ true
      → validate_reservation (record b { binding_hash = hash }) ≡ none
  unfolding validate_reservation
  validate_reservation-bound b hash complete h = rw (complete, h)

  validate_amount-bound :
      (b : BudgetReservation) (input : BudgetBindingInput)
      → input.budget.estimated_cost_micros ≤ℤ b.amount_micros
      → b.amount_micros ≤ℤ input.budget.max_cost_micros
      → validate_amount digest (record b { binding_hash = digest (material b input) }) input ≡ none
  unfolding validate_amount material
  validate_amount-bound b input low high = ground (arith, text_eq_refl (digest (material b input)))

  -- A reservation that `BindBudgetReservation` has bound to an input passes `ValidateFor` that
  -- input, provided that its amount covers the estimate and does not exceed the maximum.
  pub bind-validate_for :
      (hexadecimal : (m : Material) → is_sha256 (digest m) ≡ true) (b : BudgetReservation)
      (input : BudgetBindingInput) (bound : BudgetReservation)
      → bind_budget_reservation digest b input ≡ ok bound
      → input.budget.estimated_cost_micros ≤ℤ b.amount_micros
      → b.amount_micros ≤ℤ input.budget.max_cost_micros
      → validate_for digest bound input ≡ none
  unfolding validate_for
  bind-validate_for hexadecimal b input bound h low high =
      let (valid, complete, e) = bound-fields b input h in
      rw
        (
          e,
          validate_reservation-bound b (digest (material b input)) complete (hexadecimal _),
          valid,
        )
        (validate_amount-bound b input low high)

  pub validate_for-hash :
      (b : BudgetReservation) (input : BudgetBindingInput)
      → validate_for digest b input ≡ none
      → b.binding_hash ≡ digest (material b input)
  unfolding validate_for validate_amount
  validate_for-hash b input h =
      let (_, h') = or_else-none (validate_reservation b) _ h in
      let (_, h'') = or_else-none (validate_binding_input input) _ h' in
      ground (arith, h'', text_eq_iff b.binding_hash (digest (material b input)))

  pub validate_for-covers :
      (b : BudgetReservation) (input : BudgetBindingInput)
      → validate_for digest b input ≡ none
      → (input.budget.estimated_cost_micros ≤ℤ b.amount_micros)
        × (b.amount_micros ≤ℤ input.budget.max_cost_micros)
  unfolding validate_for validate_amount
  validate_for-covers b input h =
      let (_, h') = or_else-none (validate_reservation b) _ h in
      let (_, h'') = or_else-none (validate_binding_input input) _ h' in ground (arith, h'')

  -- A reservation that passes for two inputs, whose materials do not collide under the digest, has
  -- passed for the same run, input, model and budget.
  pub validate_for_once :
      (b : BudgetReservation) (i j : BudgetBindingInput)
      → (digest (material b i) ≡ digest (material b j) → material b i ≡ material b j)
      → validate_for digest b i ≡ none
      → validate_for digest b j ≡ none
      → i ≡ j
  unfolding material
  validate_for_once b i j distinct h k =
      let e : material b i ≡ material b j =
        distinct (sym (validate_for-hash b i h) ∙ validate_for-hash b j k) in
      λ t. record {
        run_id = (e t).run_id;
        input_hash = (e t).input_hash;
        model = (e t).model;
        budget = (e t).budget;
      }
