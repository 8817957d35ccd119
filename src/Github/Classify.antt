-- ===== src/Github/Classify.antt =====
-- internal/github/classify.go, with the two tests on errors of client.go.
pub mod Laws
use copilot_review_mcp.Common.{
  ℕ, Bool, true, false, String, Option, none, some, nat_beq, ◌||◌, if◌then◌else◌,
}
use copilot_review_mcp.Autherr.{
  AuthError, new_auth_required, new_reauth_required, new_token_refresh_failed,
  new_permission_denied, new_rate_limited, new_not_found, new_validation_error,
  new_transient_upstream_error,
}
use copilot_review_mcp.Errors.{
  GoError, subject_gone, unauthorized, loopback_required, rotation_failed, upstream_failure,
  bad_request, invalid_expiry, is_gateway, is_rate_limit, is_abuse_rate_limit, as_auth_error,
  as_response, mentions,
}

-- `IsRateLimitHTTPError`.
unfoldable pub is_rate_limit_http_error : GoError → Bool
is_rate_limit_http_error e = if is_rate_limit e then true else is_abuse_rate_limit e

-- `IsAuthError`.
unfoldable pub is_auth_error : Option GoError → Bool
is_auth_error none = false
is_auth_error (some e) = elim (as_response e) [
  | none ↦ mentions e "401 Unauthorized"
  | some none ↦ false
  | some (some status) ↦ nat_beq status 401
]

-- `IsGatewayAuthError`.
unfoldable pub is_gateway_auth_error : GoError → Bool
is_gateway_auth_error e = is_gateway subject_gone e || is_gateway rotation_failed e

-- The switch on the gateway sentinels.
unfoldable pub classify_gateway : GoError → Option AuthError
classify_gateway e =
    if is_gateway rotation_failed e
    then some new_token_refresh_failed
    else if is_gateway subject_gone e
    then some new_reauth_required
    else if is_gateway upstream_failure e
    then some new_transient_upstream_error
    else if is_gateway unauthorized e
    then some new_auth_required
    else if is_gateway loopback_required e
    then some new_auth_required
    else if is_gateway bad_request e
    then some new_validation_error
    else if is_gateway invalid_expiry e
    then some new_transient_upstream_error
    else none

-- The two tests on go-github's rate-limit errors.
unfoldable pub classify_rate_limit : GoError → Option AuthError
classify_rate_limit e =
    if is_rate_limit e
    then some (new_rate_limited true true)
    else if is_abuse_rate_limit e
    then some (new_rate_limited false false)
    else none

-- The switch on the HTTP status code.
unfoldable pub classify_status : ℕ → Option AuthError
classify_status status =
    if nat_beq status 401
    then some new_reauth_required
    else if nat_beq status 403
    then some new_permission_denied
    else if nat_beq status 404
    then some new_not_found
    else if nat_beq status 400 || nat_beq status 422
    then some new_validation_error
    else if nat_beq status 500 || nat_beq status 502 || nat_beq status 503 || nat_beq status 504
    then some new_transient_upstream_error
    else none

unfoldable pub classify_response : GoError → Option AuthError
unfolding classify_status
classify_response e = elim (as_response e) [
  | none ↦ none
  | some none ↦ none
  | some (some status) ↦ classify_status status
]

-- The switch on the text, for the plain errors of githubv4.
unfoldable pub classify_text : GoError → Option AuthError
classify_text e =
    if mentions e "401 Unauthorized"
    then some new_reauth_required
    else if mentions e "403 Forbidden" || mentions e "Resource not accessible by integration"
    then some new_permission_denied
    else if mentions e "404 Not Found"
    then some new_not_found
    else if mentions e "422 Unprocessable" || mentions e "400 Bad Request"
    then some new_validation_error
    else if mentions e "500 Internal Server Error"
        || mentions e "502 Bad Gateway"
        || mentions e "503 Service Unavailable"
        || mentions e "504 Gateway Timeout"
    then some new_transient_upstream_error
    else none

-- The first test that applies decides.
abbrev pub or_else {ℓ} : {A : Type ℓ} → Option A → Option A → Option A
or_else (some a) o = some a
or_else none o = o

-- `ClassifyGitHubError` on an error that is not nil.
unfoldable pub classify : GoError → Option AuthError
classify e = or_else (as_auth_error e) (
    or_else (classify_gateway e)
      (or_else (classify_rate_limit e) (or_else (classify_response e) (classify_text e))))

-- `ClassifyGitHubError`.
unfoldable pub classify_github_error : Option GoError → Option AuthError
classify_github_error none = none
classify_github_error (some e) = classify e
