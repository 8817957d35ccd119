-- ===== src/Github/Classify/Laws.antt =====
-- What ClassifyGitHubError tells an agent, and how it agrees with the tests of client.go.
use copilot_review_mcp.Common.{Bool, true, false, Option, none, some, arith, ◌≡◌, ◌⊎◌, inl, inr}
use copilot_review_mcp.Autherr.{
  AuthError, AuthErrorType, auth_required, reauth_required, token_refresh_failed, permission_denied,
  rate_limited, new_auth_required, new_reauth_required, new_token_refresh_failed,
  new_permission_denied, new_rate_limited, new_not_found, new_validation_error,
  new_transient_upstream_error,
}
use copilot_review_mcp.Errors.{GoError, as_auth_error, is_rate_limit}
use copilot_review_mcp.Github.Classify.{
  is_rate_limit_http_error, is_auth_error, is_gateway_auth_error, classify_gateway,
  classify_rate_limit, classify_status, classify_response, classify_text, or_else, classify,
  classify_github_error,
}

-- The types that only the user can clear.
abbrev needs_user : AuthErrorType → Bool
needs_user auth_required = true
needs_user reauth_required = true
needs_user token_refresh_failed = true
needs_user permission_denied = true
needs_user _ = false

-- The flags of a blocking error do not contradict one another.
pub record IsCoherent (a : AuthError) : Type 0 where
  pub not_ok : a.ok ≡ false
  pub blocks : a.severity ≡ "blocking"
  pub user_only : a.user_action_required ≡ needs_user a.error_type
  pub user_stops : a.user_action_required ≡ true → a.retryable ≡ false
  pub safe_is_timed :
      a.safe_to_continue ≡ true → (a.error_type ≡ rate_limited) × (a.retryable ≡ true)

gateway-IsCoherent : (e : GoError) (a : AuthError) → classify_gateway e ≡ some a → IsCoherent a
unfolding classify_gateway new_auth_required new_reauth_required new_token_refresh_failed
    new_validation_error new_transient_upstream_error
gateway-IsCoherent e a h = ground arith

rate_limit-IsCoherent :
    (e : GoError) (a : AuthError) → classify_rate_limit e ≡ some a → IsCoherent a
unfolding classify_rate_limit new_rate_limited
rate_limit-IsCoherent e a h = ground arith

response-IsCoherent : (e : GoError) (a : AuthError) → classify_response e ≡ some a → IsCoherent a
unfolding classify_response new_reauth_required new_permission_denied new_not_found
    new_validation_error new_transient_upstream_error
response-IsCoherent e a h = ground arith

text-IsCoherent : (e : GoError) (a : AuthError) → classify_text e ≡ some a → IsCoherent a
unfolding classify_text new_reauth_required new_permission_denied new_not_found new_validation_error
    new_transient_upstream_error
text-IsCoherent e a h = ground arith

or_else_cases {ℓ} :
    {A : Type ℓ} (o p : Option A) {a : A} → or_else o p ≡ some a → (o ≡ some a) ⊎ (p ≡ some a)
or_else_cases none p h = ground arith
or_else_cases (some x) p h = ground arith

-- If a blocking error that the error already wraps is coherent, so is every error that
-- ClassifyGitHubError returns: never ok, always of severity "blocking", asking for the user exactly
-- for the authentication and permission types, not retryable when it asks for the user, and safe to
-- continue only for a retryable rate limit.
pub classify-IsCoherent :
    (e : GoError) (a : AuthError)
    → ((b : AuthError) → as_auth_error e ≡ some b → IsCoherent b)
    → classify_github_error (some e) ≡ some a
    → IsCoherent a
unfolding classify_github_error classify
classify-IsCoherent e a wrapped h = elim (or_else_cases (as_auth_error e) _ h) [
  | inl p ↦ wrapped a p
  | inr h ↦ elim (or_else_cases (classify_gateway e) _ h) [
    | inl p ↦ gateway-IsCoherent e a p
    | inr h ↦ elim (or_else_cases (classify_rate_limit e) _ h) [
      | inl p ↦ rate_limit-IsCoherent e a p
      | inr h ↦ elim (or_else_cases (classify_response e) _ h) [
        | inl p ↦ response-IsCoherent e a p
        | inr p ↦ text-IsCoherent e a p
      ]
    ]
  ]
]

-- An error that wraps no blocking error and no gateway sentinel and that IsRateLimitHTTPError
-- accepts is classified as RATE_LIMITED, retryable and safe to continue exactly when it is a
-- primary rate limit.
pub classify-is_rate_limit :
    (e : GoError)
    → as_auth_error e ≡ none
    → classify_gateway e ≡ none
    → is_rate_limit_http_error e ≡ true
    → classify_github_error (some e) ≡ some (new_rate_limited (is_rate_limit e) (is_rate_limit e))
unfolding classify_github_error classify classify_rate_limit is_rate_limit_http_error
classify-is_rate_limit e a g h = ground arith

-- What the watch manager takes for an expired login, an error that IsGatewayAuthError accepts or
-- one without gateway sentinel or rate limit that IsAuthError accepts, is classified as
-- REAUTH_REQUIRED or TOKEN_REFRESH_FAILED, provided that it wraps no blocking error.
pub classify-is_auth_error :
    (e : GoError)
    → as_auth_error e ≡ none
    → (is_gateway_auth_error e ≡ true)
      ⊎ ((is_auth_error (some e) ≡ true)
          × (classify_gateway e ≡ none)
          × (classify_rate_limit e ≡ none))
    → (classify_github_error (some e) ≡ some new_reauth_required)
      ⊎ (classify_github_error (some e) ≡ some new_token_refresh_failed)
unfolding classify_github_error classify is_gateway_auth_error is_auth_error classify_gateway
    classify_response classify_status classify_text
classify-is_auth_error e a h = ground arith
