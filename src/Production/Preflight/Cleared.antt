-- ===== src/Production/Preflight/Cleared.antt =====
-- What the checks establish before a provider is asked for anything.
use mathlib.Core.List.{Memᴰ}
use ai_video_series_workflow.Common.{
  ◌≡◌, refl, sym, ap, ◌∙◌, Bool-cases, inl, inr, ℕ, Bool, true, false, ◌&&◌, Option, none, some,
  List, [], ◌∷◌, text_eq, text_eq-eq, arith, &&-true, first_some, first_some-none, >>-ok, >>=-ok,
  Result, ok, err,
}
use ai_video_series_workflow.Provider.Budget.{evaluate}
use ai_video_series_workflow.Provider.Contract.{
  GenerationRequest, validate_request, Capability, OutputSpec, modality_video,
}
use ai_video_series_workflow.Provider.Dispatch.{
  ModelSnapshot, validate_for, validate_model, capability_video,
}
use ai_video_series_workflow.Production.RevisionState.{non_empty}
use ai_video_series_workflow.Production.Refs.{
  gate1, gate2, kind_source, kind_shot_spec, is_complete_ref,
}
use ai_video_series_workflow.Production.Refs.Binding.{
  IsBoundApproval, approved-IsBoundApproval, IsCurrent, authorized-IsCurrent,
}
use ai_video_series_workflow.Production.Prompt.{
  PromptCodec, verify_exact_prompt_snapshot, build_generation_request, request_of,
}
use ai_video_series_workflow.Production.Run.{
  Failure, prompt_refused, authorization_refused, reservation_refused, budget_denied, route_refused,
  select_capability, serves,
}
use ai_video_series_workflow.Production.Preflight.{
  Environment, GenerationInput, require, failing, wrap_err, request_for, preflight, binding_of,
  evidence_failure, input_checks, budget_checks, discover_for, selected, select_from,
}

require-true : (b : Bool) (f : Failure) → require b f ≡ none → b ≡ true
require-true true f h = refl
require-true false f h = cc

failing-none {ℓ} :
    {E : Type ℓ} (wrap : E → Failure) (o : Option E) → failing wrap o ≡ none → o ≡ none
failing-none wrap none h = refl
failing-none wrap (some x) h = cc

wrap_err-ok {ℓ κ} :
    {E : Type ℓ} {A : Type κ} (wrap : E → Failure) (m : Result E A) (a : A)
    → wrap_err wrap m ≡ ok a
    → m ≡ ok a
wrap_err-ok wrap (ok b) a h = ground (arith, h)
wrap_err-ok wrap (err x) a h = cc

module _ (c : PromptCodec) (e : Environment c) where
  -- The input `i` may be generated with the request, in the world `w` at the instant.
  pub record IsCleared (w : e.World) (i : GenerationInput c) (at : ℕ) (request : GenerationRequest)
      : Type 0 where
    pub named : non_empty (i.run_id ∷ i.idempotency_key ∷ []) ≡ true
    pub same_key : i.run_id ≡ i.idempotency_key
    pub source_complete : is_complete_ref i.source_revision ≡ true
    pub shot_complete : is_complete_ref i.shot_revision ≡ true
    pub source_kind : i.source_revision.kind ≡ kind_source
    pub shot_kind : i.shot_revision.kind ≡ kind_shot_spec
    pub same_shot : i.prompt.shot_revision.id ≡ i.shot_revision.id
    pub prompt : verify_exact_prompt_snapshot c (e.get_prompt w) i.prompt ≡ none
    pub current : IsCurrent i.authorization i.source_revision at
    pub source_approved :
        IsBoundApproval i.approval1 gate1 i.source_revision.id i.source_revision.content_hash
    pub shot_approved :
        IsBoundApproval i.approval2 gate2 i.shot_revision.id i.shot_revision.content_hash
    pub route : validate_model i.route capability_video ≡ none
    pub evidence : evidence_failure i.evidence i.route ≡ none
    pub reserved : validate_for e.binding_digest i.budget_reservation (binding_of c e i) ≡ none
    pub affordable : (evaluate i.budget_policy i.spent_micros i.reserved_micros i.budget).1 ≡ none
    pub valid :
        validate_request (request_of c i.prompt i.run_id i.idempotency_key i.callback_url i.budget)
        ≡ none
    pub same_request :
        request
        ≡ record (request_of c i.prompt i.run_id i.idempotency_key i.callback_url i.budget) {
          model_hint = i.route.model_id;
        }

  built-valid :
      (i : GenerationInput c) (request : GenerationRequest)
      → build_generation_request c i.prompt i.run_id i.idempotency_key i.callback_url i.budget
        ≡ ok request
      → (validate_request (request_of c i.prompt i.run_id i.idempotency_key i.callback_url i.budget)
          ≡ none)
        × (request ≡ request_of c i.prompt i.run_id i.idempotency_key i.callback_url i.budget)
  unfolding build_generation_request
  built-valid i request h = ground (arith, h)

  pub request_for-IsCleared :
      (w : e.World) (i : GenerationInput c) (at : ℕ) (request : GenerationRequest)
      → request_for c e w i at ≡ ok request
      → IsCleared w i at request
  unfolding request_for input_checks budget_checks
  request_for-IsCleared w i at request h =
      let (first, rest) = >>-ok (first_some (input_checks c e w i at)) _ h in
      let (draft, built, last) =
        >>=-ok
          (wrap_err prompt_refused (
            build_generation_request c i.prompt i.run_id i.idempotency_key i.callback_url i.budget))
          _ rest in
      let (second, answer) = >>-ok (first_some (budget_checks c e i)) _ last in
      let (valid, same) = built-valid i draft (wrap_err-ok prompt_refused _ draft built) in
      let (c0, (c1, (c2, (c3, (c4, (c5, (c6, (c7, (c8, (c9, done)))))))))) =
        first_some-none (input_checks c e w i at) first in
      let (cost0, (cost1, end)) = first_some-none (budget_checks c e i) second in
      let keys = &&-true (non_empty (i.run_id ∷ i.idempotency_key ∷ [])) _ (require-true _ _ c0) in
      let shots =
        &&-true
          (text_eq i.source_revision.kind kind_source
            && text_eq i.shot_revision.kind kind_shot_spec)
          _ (require-true _ _ c3) in
      let kinds = &&-true (text_eq i.source_revision.kind kind_source) _ shots.0 in
      record {
        named = keys.0;
        source_complete = require-true _ _ c1;
        shot_complete = require-true _ _ c2;
        same_key = text_eq-eq i.run_id i.idempotency_key keys.1;
        source_kind = text_eq-eq i.source_revision.kind kind_source kinds.0;
        shot_kind = text_eq-eq i.shot_revision.kind kind_shot_spec kinds.1;
        same_shot = text_eq-eq i.prompt.shot_revision.id i.shot_revision.id shots.1;
        prompt = failing-none prompt_refused _ c4;
        current =
            authorized-IsCurrent i.authorization i.source_revision at
              (failing-none authorization_refused _ c5);
        source_approved = approved-IsBoundApproval i.approval1 gate1 _ _ (require-true _ _ c6);
        shot_approved = approved-IsBoundApproval i.approval2 gate2 _ _ (require-true _ _ c7);
        route = failing-none route_refused _ c8;
        evidence = c9;
        reserved = failing-none reservation_refused _ cost0;
        affordable = failing-none budget_denied _ cost1;
        valid = valid;
        same_request =
            sym (ap same_value answer)
            ∙ ap {A = GenerationRequest} (λ r. record r { model_hint = i.route.model_id }) same;
      }
    where
      same_value : Result Failure GenerationRequest → GenerationRequest
      same_value (ok r) = r
      same_value (err f) = request

  -- The capability is one that the provider discovers, and it serves the request at the frozen route.
  pub record IsServed (w : e.World) (i : GenerationInput c) (request : GenerationRequest)
      (capability : Capability) : Type 0 where
    pub capabilities : List Capability
    pub answered : (e.discover w).1 ≡ ok capabilities
    pub offered : Memᴰ capability capabilities
    pub same_provider : capability.provider ≡ i.route.provider
    pub video : capability.output_modality ≡ modality_video
    pub serving : serves i.route request.output capability ≡ true

  serves-provider :
      (route : ModelSnapshot) (output : OutputSpec) (x : Capability)
      → serves route output x ≡ true
      → (x.provider ≡ route.provider) × (x.output_modality ≡ modality_video)
  unfolding serves
  serves-provider route output x h = (
    text_eq-eq x.provider route.provider (ground (arith, h)),
    text_eq-eq x.output_modality modality_video (ground (arith, h)),
  )

  select_capability-offered :
      (capabilities : List Capability) (route : ModelSnapshot) (output : OutputSpec)
      (capability : Capability)
      → select_capability capabilities route output ≡ some capability
      → Memᴰ capability capabilities × (serves route output capability ≡ true)
  unfolding select_capability
  select_capability-offered [] route output capability h = cc
  select_capability-offered (x ∷ capabilities) route output capability h =
      elim (Bool-cases (serves route output x)) [
        | inl b ↦
            let same : x ≡ capability = cc (rw b at h) in
            (Memᴰ.head (sym same), ap (serves route output) (sym same) ∙ b)
        | inr b ↦
            let (offered, serving) =
              select_capability-offered capabilities route output capability (rw b at h) in
            (Memᴰ.tail offered, serving)
      ]

  selected-IsServed :
      (w : e.World) (i : GenerationInput c) (r request : GenerationRequest)
      (capability : Capability) (capabilities : List Capability) (o : Option Capability)
      → (e.discover w).1 ≡ ok capabilities
      → select_capability capabilities i.route r.output ≡ o
      → selected c e r o ≡ ok (request, capability)
      → (request ≡ r) × IsServed w i request capability
  selected-IsServed w i r request capability capabilities none answered k h = cc
  selected-IsServed w i r request capability capabilities (some x) answered k h =
      let same_request : request ≡ r = cc in
      let same_capability : x ≡ capability = cc in
      let (offered, serving) =
        select_capability-offered capabilities i.route r.output capability
          (k ∙ ap (λ y. some y) same_capability) in
      let (provider, video) = serves-provider i.route r.output capability serving in
      (
        same_request,
        record {
          capabilities = capabilities;
          answered = answered;
          offered = offered;
          same_provider = provider;
          video = video;
          serving =
              ap {A = GenerationRequest} (λ y. serves i.route y.output capability) same_request
              ∙ serving;
        },
      )

  -- An input that passes the checks is cleared, and the capability that is answered serves the request.
  pub preflight-IsCleared :
      (w w' : e.World) (i : GenerationInput c) (at : ℕ) (request : GenerationRequest)
      (capability : Capability)
      → preflight c e w i at ≡ (w', ok (request, capability))
      → IsCleared w i at request × IsServed w i request capability
  unfolding preflight
  preflight-IsCleared w w' i at request capability h = prepared (request_for c e w i at) refl h
    where
      prepared :
          (o : Result Failure GenerationRequest)
          → request_for c e w i at ≡ o
          → discover_for c e w i.route o ≡ (w', ok (request, capability))
          → IsCleared w i at request × IsServed w i request capability
      prepared (err f) k h = cc
      prepared (ok r) k h =
          let (same, served) = discovered r (e.discover w).1 refl (ap (λ x. x.1) h) in
          (request_for-IsCleared w i at request (k ∙ ap (λ x. ok x) (sym same)), served)
        where
          discovered :
              (r : GenerationRequest) (answer : Result Failure (List Capability))
              → (e.discover w).1 ≡ answer
              → select_from c e i.route r answer ≡ ok (request, capability)
              → (request ≡ r) × IsServed w i request capability
          discovered r (err f) k h = cc
          discovered r (ok capabilities) k h =
              selected-IsServed w i r request capability capabilities _ k refl h
