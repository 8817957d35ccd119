-- ===== src/Github/Gateway/Laws.antt =====
-- The gateway's endpoint is checked alike at start-up and for each source, and its answers lead to the
-- classes of errors that the tools act on.
use mathlib.Core.Path.{subst}
use copilot_review_mcp.Common.{
  ℕ, Bool, String, Option, none, some, arith, ◌≡◌, ◌≢◌, ◌⊎◌, ◌↔◌, ◌≤◌, ◌<◌, inl, inr, ◌==◌, ◌||◌,
  ◌&&◌, string_eq, eq_iff, nat_beq, Bool-cases, Option-cases, if◌then◌else◌,
}
use copilot_review_mcp.Autherr.{
  AuthError, new_auth_required, new_reauth_required, new_token_refresh_failed, new_validation_error,
  new_transient_upstream_error,
}
use copilot_review_mcp.Errors.{
  GoError, ok, err, Result-cases, as_auth_error, is_gateway, rotation_failed, upstream_failure,
  subject_gone, unauthorized, loopback_required, bad_request,
}
use copilot_review_mcp.Github.Classify.{
  is_gateway_auth_error, classify_gateway, classify, classify_github_error,
}
use copilot_review_mcp.Github.Gateway.{
  HttpResponse, WhoamiResponse, Token, GatewayEnv, sentinel, TokenSource, detailed, url_error,
  validate_gateway_endpoint, new_gateway_token_source, status_error, token_of, read_token, token,
}

module _ {Q : Type 0} (e : GatewayEnv Q) where
  -- The answer's error by its status.
  abbrev pub error_class : HttpResponse → Option AuthError
  error_class r =
      if nat_beq r.status 401 || nat_beq r.status 403
      then some new_auth_required
      else if nat_beq r.status 404
      then some new_reauth_required
      else if nat_beq r.status 502
      then if r.error_field == "rotation_failed"
        then some new_token_refresh_failed
        else some new_transient_upstream_error
      else some new_validation_error

  -- The user has to log in again.
  abbrev pub asks_for_login : HttpResponse → Bool
  asks_for_login r =
      nat_beq r.status 404 || (nat_beq r.status 502 && r.error_field == "rotation_failed")

  abbrev pub IsKnown : ℕ → Type 0
  IsKnown status = ((400 ≤ status) × (status < 500)) ⊎ (status ≡ 502)

  pub status_error-class :
      (r : HttpResponse)
      → IsKnown r.status
      → (x : GoError) × (status_error e r ≡ some x)
        × (classify_github_error (some x) ≡ error_class r)
        × (is_gateway_auth_error x ≡ asks_for_login r)
  unfolding status_error classify_github_error classify classify_gateway as_auth_error is_gateway
      is_gateway_auth_error
  status_error-class r k = elim (Bool-cases (nat_beq r.status 401)) [
    | inl b ↦ (sentinel unauthorized, ground arith, ground arith, ground arith)
    | inr b ↦ elim (Bool-cases (nat_beq r.status 403)) [
      | inl c ↦ (sentinel loopback_required, ground arith, ground arith, ground arith)
      | inr c ↦ elim (Bool-cases (nat_beq r.status 404)) [
        | inl d ↦ (sentinel subject_gone, ground arith, ground arith, ground arith)
        | inr d ↦ elim (Bool-cases (nat_beq r.status 502)) [
          | inr f ↦ (detailed e bad_request, ground arith, ground arith, ground arith)
          | inl f ↦ elim (Bool-cases (r.error_field == "rotation_failed")) [
            | inl g ↦ (sentinel rotation_failed, ground arith, ground arith, ground arith)
            | inr g ↦ (sentinel upstream_failure, ground arith, ground arith, ground arith)
          ]
        ]
      ]
    ]
  ]

  -- A request that is sent is answered by reading what it brings.
  abbrev pub IsSent : TokenSource → HttpResponse → Type 0
  IsSent s r =
      (body : String) × (q : Q) × (e.marshal_subject s.subject ≡ ok body)
      × (e.new_request s.endpoint s.secret body ≡ ok q)
      × (e.send q ≡ ok r)

-- A status that the gateway answers with becomes the error that it stands for. Where the request of
-- Token is answered with a 4xx status or 502, Token fails with an error that ClassifyGitHubError turns
-- into AUTH_REQUIRED for 401 and 403, REAUTH_REQUIRED for 404, TOKEN_REFRESH_FAILED for 502 with
-- rotation_failed, TRANSIENT_UPSTREAM_ERROR for any other 502, and VALIDATION_ERROR for the rest; and
-- IsGatewayAuthError holds of the error exactly for 404 and for 502 with rotation_failed.
pub token-class :
    {Q : Type 0} (e : GatewayEnv Q) (s : TokenSource) (r : HttpResponse)
    → IsSent e s r
    → IsKnown e r.status
    → (x : GoError) × (token e s ≡ err x)
      × (classify_github_error (some x) ≡ error_class e r)
      × (is_gateway_auth_error x ≡ asks_for_login e r)
unfolding token read_token
token-class e s r (body, q, a, b, c) k =
    let (x, f, g, h) = status_error-class e r k in (x, ground arith, g, h)

token_of-ok :
    {Q : Type 0} (e : GatewayEnv Q) (w : WhoamiResponse) (t : Token)
    → token_of e w ≡ ok t
    → (t.access_token ≢ "") × (w.expires_at ≢ "") × (e.parse_time w.expires_at ≡ ok t.expiry)
unfolding token_of
token_of-ok e w t h = elim (Bool-cases (w.access_token == "")) [
  | inl b ↦ ground arith
  | inr b ↦ elim (Bool-cases (w.expires_at == "")) [
    | inl c ↦ ground arith
    | inr c ↦ elim (Result-cases (e.parse_time w.expires_at)) [
      | inl (x, q) ↦ ground arith
      | inr (u, q) ↦
          let same : w.access_token ≡ t.access_token = ground arith in
          (
            subst (λ x. x ≢ "") same (ground (arith, eq_iff w.access_token "")),
            ground (arith, eq_iff w.expires_at ""),
            ground arith,
          )
    ]
  ]
]

read_token-ok :
    {Q : Type 0} (e : GatewayEnv Q) (r : HttpResponse) (t : Token)
    → read_token e r ≡ ok t
    → (r.status ≡ 200) × (w : WhoamiResponse) × (token_of e w ≡ ok t)
unfolding read_token status_error
read_token-ok e r t h = elim (Option-cases (status_error e r)) [
  | inr (x, q) ↦ ground arith
  | inl q ↦ elim (Result-cases r.body) [
    | inl (x, b) ↦ ground arith
    | inr (text, b) ↦ elim (Result-cases (e.unmarshal text)) [
      | inl (x, c) ↦ ground arith
      | inr (w, c) ↦ (ground arith, w, ground arith)
    ]
  ]
]

-- A token that Token returns comes from an answer with status 200, is not empty, and has an expiry that
-- was parsed from a text that is not empty: it is never taken for one that does not expire.
pub token-expires :
    {Q : Type 0} (e : GatewayEnv Q) (s : TokenSource) (t : Token)
    → token e s ≡ ok t
    → (r : HttpResponse) × IsSent e s r
      × (r.status ≡ 200)
      × (t.access_token ≢ "")
      × (text : String) × (text ≢ "")
      × (e.parse_time text ≡ ok t.expiry)
unfolding token read_token token_of status_error
token-expires e s t h = elim (Result-cases (e.marshal_subject s.subject)) [
  | inl (x, a) ↦ ground arith
  | inr (body, a) ↦ elim (Result-cases (e.new_request s.endpoint s.secret body)) [
    | inl (x, b) ↦ ground arith
    | inr (q, b) ↦ elim (Result-cases (e.send q)) [
      | inl (x, c) ↦ ground arith
      | inr (r, c) ↦
          let done : read_token e r ≡ ok t = ground arith in
          let (s200, w, k) = read_token-ok e r t done in
          let (one, two, three) = token_of-ok e w t k in
          (r, (body, q, a, b, c), s200, one, w.expires_at, two, three)
    ]
  ]
]

-- The check at start-up is the check of every source: a token source is made for a configuration if and
-- only if ValidateGatewayEndpoint accepts its endpoint and secret and the subject is not blank, and it
-- is made of the configuration as it is.
pub new_gateway_token_source_iff :
    {Q : Type 0} (e : GatewayEnv Q) (c : TokenSource)
    → (new_gateway_token_source e c ≡ ok c)
      ↔ ((validate_gateway_endpoint e c.endpoint c.secret ≡ none) × (e.trim_space c.subject ≢ ""))
unfolding new_gateway_token_source validate_gateway_endpoint
new_gateway_token_source_iff e c = elim (Result-cases (e.parse_url c.endpoint)) [
  | inl (x, q) ↦ ground (arith, eq_iff (e.trim_space c.subject) "")
  | inr (u, q) ↦ elim (Option-cases (url_error e u)) [
    | inl r ↦ ground (arith, eq_iff (e.trim_space c.subject) "")
    | inr (x, r) ↦ ground (arith, eq_iff (e.trim_space c.subject) "")
  ]
]
