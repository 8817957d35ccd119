-- ===== src/Errors.antt =====
-- Go errors as internal/github/classify.go, client.go and internal/autherr/autherr.go inspect them.
-- An error is the list of the errors that `errors.Is` and `errors.As` visit, itself first, with the
-- text of `err.Error()`. The gateway sentinels are those of internal/github/gateway_token_source.go.
use text.Mathlib.Text.{find?}
use copilot_review_mcp.Common.{
  ℕ, Bool, true, false, String, List, [], ◌∷◌, Option, none, some, any, is_some, nat_beq, ◌≡◌, ◌⊎◌,
  inl, inr, refl,
}
use copilot_review_mcp.Autherr.{AuthError}

pub data GatewayError : Type 0 where
  subject_gone unauthorized loopback_required rotation_failed upstream_failure : GatewayError
  bad_request invalid_expiry non_loopback invalid_path : GatewayError

-- `response` is a *github.ErrorResponse with its HTTP status, `none` where its Response is nil.
pub data Layer : Type 0 where
  canceled deadline_exceeded rate_limit abuse_rate_limit other : Layer
  blocking : AuthError → Layer
  gateway : GatewayError → Layer
  response : Option ℕ → Layer

pub record GoError : Type 0 where
  pub chain : List Layer
  pub text : String

abbrev number : GatewayError → ℕ
number subject_gone = 0
number unauthorized = 1
number loopback_required = 2
number rotation_failed = 3
number upstream_failure = 4
number bad_request = 5
number invalid_expiry = 6
number non_loopback = 7
number invalid_path = 8

abbrev is_sentinel : GatewayError → Layer → Bool
is_sentinel g (gateway h) = nat_beq (number g) (number h)
is_sentinel g _ = false

abbrev is_canceled_layer : Layer → Bool
is_canceled_layer canceled = true
is_canceled_layer _ = false

abbrev is_deadline_layer : Layer → Bool
is_deadline_layer deadline_exceeded = true
is_deadline_layer _ = false

abbrev is_rate_limit_layer : Layer → Bool
is_rate_limit_layer rate_limit = true
is_rate_limit_layer _ = false

abbrev is_abuse_layer : Layer → Bool
is_abuse_layer abuse_rate_limit = true
is_abuse_layer _ = false

-- `errors.Is(err, ErrGateway…)`.
unfoldable pub is_gateway : GatewayError → GoError → Bool
is_gateway g e = any (is_sentinel g) e.chain

-- `errors.Is(err, context.Canceled)`.
unfoldable pub is_canceled : GoError → Bool
is_canceled e = any is_canceled_layer e.chain

-- `errors.Is(err, context.DeadlineExceeded)`.
unfoldable pub is_deadline_exceeded : GoError → Bool
is_deadline_exceeded e = any is_deadline_layer e.chain

-- `errors.As(err, &rateLimitErr)`.
unfoldable pub is_rate_limit : GoError → Bool
is_rate_limit e = any is_rate_limit_layer e.chain

-- `errors.As(err, &abuseErr)`.
unfoldable pub is_abuse_rate_limit : GoError → Bool
is_abuse_rate_limit e = any is_abuse_layer e.chain

abbrev first_auth_error : List Layer → Option AuthError
first_auth_error [] = none
first_auth_error (blocking a ∷ ls) = some a
first_auth_error (_ ∷ ls) = first_auth_error ls

-- `AsAuthError`.
unfoldable pub as_auth_error : GoError → Option AuthError
as_auth_error e = first_auth_error e.chain

abbrev first_response : List Layer → Option (Option ℕ)
first_response [] = none
first_response (response s ∷ ls) = some s
first_response (_ ∷ ls) = first_response ls

-- `errors.As(err, &ghErr)`, with the status of its Response.
unfoldable pub as_response : GoError → Option (Option ℕ)
as_response e = first_response e.chain

-- `strings.Contains(err.Error(), part)`.
unfoldable pub mentions : GoError → String → Bool
mentions e part = is_some (find? e.text part)

-- `errors.New(text)`, and every error with no type that the program looks for.
abbrev pub plain : String → GoError
plain s = record { chain = other ∷ []; text = s }

-- A value with a Go error.
pub data Result {ℓ} (A : Type ℓ) : Type ℓ where
  ok : A → Result A
  err : GoError → Result A

pub Result-cases {ℓ} :
    {A : Type ℓ} (r : Result A) → ((e : GoError) × (r ≡ err e)) ⊎ ((a : A) × (r ≡ ok a))
Result-cases (ok a) = inr (a, refl)
Result-cases (err e) = inl (e, refl)
