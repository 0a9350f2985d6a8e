-- ===== src/Provider/Errors/Retry.antt =====
-- Which errors are worth a retry.
use ai_video_series_workflow.Common.{
  ◌≡◌, refl, ◌⊎◌, ◌↔◌, Bool, true, false, ◌||◌, not, Text, ℤ, pos, negsuc, ◌≤ℤ◌, arith, is_empty,
  codes,
}
use ai_video_series_workflow.Provider.Errors.{map_http_error, http_verdict, contains}

-- A code of the provider that says its content policy refused the request.
abbrev pub blocks_content : Text → Bool
blocks_content lower =
    contains lower (codes "sensitive")
    || contains lower (codes "risk")
    || contains lower (codes "moderation")

-- An HTTP error is retryable exactly if it is a 429 that names no quota, or a status from 500 on
-- whose code names no content policy. A retryable error never requires an action, and an action is
-- suggested exactly where one is required. The raw message has no part in the result.
pub map_http_error_retry :
    (to_lower : Text → Text) (status : ℤ) (code request_id message : Text)
    → let e = map_http_error to_lower status code request_id message in
      ((e.retryable ≡ true) ↔ (
        ((status ≡ pos 429) × (contains (to_lower code) (codes "quota") ≡ false))
        ⊎ ((pos 500 ≤ℤ status) × (blocks_content (to_lower code) ≡ false))))
      × (e.retryable ≡ true → e.requires_action ≡ false)
      × (e.requires_action ≡ not (is_empty e.suggested_action))
      × (map_http_error to_lower status code request_id (codes "") ≡ e)
unfolding map_http_error http_verdict
map_http_error_retry to_lower (pos n) code request_id message =
    (ground arith, ground arith, ground arith, refl)
map_http_error_retry to_lower (negsuc n) code request_id message =
    (ground arith, ground arith, ground arith, refl)
