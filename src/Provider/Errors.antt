-- ===== src/Provider/Errors.antt =====
-- internal/providercontract/errors.go: the error of a provider, and the mapping of HTTP and context
-- errors. A code is a constructor for each constant, and `other` for any other text; a duration is a
-- number of nanoseconds.
pub mod Retry
use ai_video_series_workflow.Common.{
  ℕ, ◌+◌, Bool, true, false, not, ◌&&◌, ◌||◌, Option, none, some, List, [], ◌∷◌, ◌++◌, ltb, leb,
  ◌==◌, if◌then◌else◌, Text, text_eq, codes, is_empty, is_blank, any, all, ℤ, pos, negsuc, leb_ℤ,
}
use ai_video_series_workflow.Provider.Budget.{BudgetEnvelope, Refusal}
use ai_video_series_workflow.Provider.Budget

pub data ErrorCode : Type 0 where
  invalid_request unauthenticated forbidden rate_limited quota_exceeded : ErrorCode
  content_blocked model_unavailable region_unavailable timeout : ErrorCode
  provider_unavailable budget_exceeded conflict not_found : ErrorCode
  other : Text → ErrorCode

-- The string of a code.
unfoldable pub code_text : ErrorCode → Text
code_text invalid_request = codes "invalid_request"
code_text unauthenticated = codes "unauthenticated"
code_text forbidden = codes "forbidden"
code_text rate_limited = codes "rate_limited"
code_text quota_exceeded = codes "quota_exceeded"
code_text content_blocked = codes "content_blocked"
code_text model_unavailable = codes "model_unavailable"
code_text region_unavailable = codes "region_unavailable"
code_text timeout = codes "timeout"
code_text provider_unavailable = codes "provider_unavailable"
code_text budget_exceeded = codes "budget_exceeded"
code_text conflict = codes "conflict"
code_text not_found = codes "not_found"
code_text (other s) = s

pub record ProviderError : Type 0 where
  pub code : ErrorCode
  pub http_status : ℤ
  pub provider_code : Text
  pub provider_request_id : Text
  pub provider_message_class : Text
  pub retryable : Bool
  pub retry_after : ℕ
  pub safe_message : Text
  pub requires_action : Bool
  pub suggested_action : Text

-- &Error{Code: …, SafeMessage: …}.
abbrev pub error_of : ErrorCode → Text → ProviderError
error_of code message = record {
  code = code;
  http_status = pos 0;
  provider_code = [];
  provider_request_id = [];
  provider_message_class = [];
  retryable = false;
  retry_after = 0;
  safe_message = message;
  requires_action = false;
  suggested_action = [];
}

-- `strings.HasPrefix` and `strings.Contains`.
unfoldable pub has_prefix : Text → Text → Bool
has_prefix s [] = true
has_prefix [] (b ∷ t) = false
has_prefix (a ∷ s) (b ∷ t) = a == b && has_prefix s t

unfoldable pub contains : Text → Text → Bool
unfolding has_prefix
contains [] t = has_prefix [] t
contains (a ∷ s) t = has_prefix (a ∷ s) t || contains s t

-- What `MapHTTPError` assigns in a branch: code, message, retryable, and the action, if one is
-- required.
abbrev pub Verdict : Type 0
Verdict = ErrorCode × Text × Bool × Option Text

-- The switch, on the status and the provider's code in lower case.
unfoldable pub http_verdict : ℤ → Text → Verdict
unfolding contains
http_verdict status lower =
    let is = λ (n : ℕ). leb_ℤ status (pos n) && leb_ℤ (pos n) status in
    if is 401
    then (
      unauthenticated,
      codes "provider authentication failed",
      false,
      some (codes "replace_or_revalidate_credential"),
    )
    else if is 403
    then (
      forbidden,
      codes "provider authorization failed",
      false,
      some (codes "request_model_or_endpoint_access"),
    )
    else if is 429 && contains lower (codes "quota")
    then (
      quota_exceeded,
      codes "provider quota is exhausted",
      false,
      some (codes "increase_quota_or_select_another_route"),
    )
    else if is 429
    then (rate_limited, codes "provider rate limit exceeded", true, none)
    else if contains lower (codes "sensitive")
        || contains lower (codes "risk")
        || contains lower (codes "moderation")
    then (
      content_blocked,
      codes "provider content policy blocked the request",
      false,
      some (codes "revise_input_and_create_a_new_attempt"),
    )
    else if is 404 && contains lower (codes "model")
    then (
      model_unavailable,
      codes "provider model is unavailable",
      false,
      some (codes "refresh_discovery_and_select_an_available_model"),
    )
    else if is 404
    then (not_found, codes "provider resource was not found", false, none)
    else if leb_ℤ (pos 500) status
    then (provider_unavailable, codes "provider service is unavailable", true, none)
    else (invalid_request, codes "provider rejected the request", false, none)

abbrev pub action_text : Option Text → Text
action_text none = []
action_text (some a) = a

abbrev pub has_action : Option Text → Bool
has_action none = false
has_action (some a) = true

abbrev pub verdict_error : ℤ → Text → Text → Verdict → ProviderError
verdict_error status provider_code request_id (code, message, retryable, action) = record {
  code = code;
  http_status = status;
  provider_code = provider_code;
  provider_request_id = request_id;
  provider_message_class = [];
  retryable = retryable;
  retry_after = 0;
  safe_message = message;
  requires_action = has_action action;
  suggested_action = action_text action;
}

-- `MapHTTPError`; `to_lower` is strings.ToLower, with its Unicode tables.
unfoldable pub map_http_error : (Text → Text) → ℤ → Text → Text → Text → ProviderError
map_http_error to_lower status provider_code request_id raw_message =
    verdict_error status provider_code request_id (http_verdict status (to_lower provider_code))

-- The two context errors, and any other.
pub data ContextError : Type 0 where
  deadline_exceeded context_canceled connection_failed : ContextError

-- `MapContextError`.
unfoldable pub map_context_error : ContextError → ProviderError
map_context_error deadline_exceeded =
    record (error_of timeout (codes "provider request timed out")) { retryable = true }
map_context_error context_canceled = error_of conflict (codes "provider request was cancelled")
map_context_error connection_failed =
    record (error_of provider_unavailable (codes "provider connection failed")) { retryable = true }
