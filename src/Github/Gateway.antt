-- ===== src/Github/Gateway.antt =====
-- internal/github/gateway_token_source.go: the check of the gateway's endpoint and the token that its
-- whoami endpoint hands out. `GatewayEnv` has what the packages net/url, net, strings, net/http,
-- encoding/json and time compute; a request is a `Q`.
pub mod Laws
use copilot_review_mcp.Common.{
  ℕ, Time, Bool, true, false, String, List, [], ◌∷◌, Option, none, some, ◌==◌, ◌||◌, ◌&&◌,
  string_eq, nat_beq, ltb, leb, not, if◌then◌else◌,
}
use copilot_review_mcp.Errors.{
  GoError, Result, ok, err, plain, gateway, other, GatewayError, subject_gone, unauthorized,
  loopback_required, rotation_failed, upstream_failure, bad_request, invalid_expiry, non_loopback,
  invalid_path,
}

-- What the program reads of a *url.URL.
pub record UrlParts : Type 0 where
  pub scheme : String
  pub hostname : String
  pub path : String

-- An answer of the gateway: `error_field` is the field `error` of its body, empty where it does not
-- decode, and `body` the body or the error of reading it.
pub record HttpResponse : Type 0 where
  pub status : ℕ
  pub error_field : String
  pub body : Result String

-- `whoamiResponse`.
pub record WhoamiResponse : Type 0 where
  pub access_token : String
  pub token_type : String
  pub expires_at : String

-- What is set of an *oauth2.Token.
pub record Token : Type 0 where
  pub access_token : String
  pub token_type : String
  pub expiry : Time

-- `parse_ip` is whether an address is a loopback address, none where the text is no address; `detail`
-- renders a sentinel with its arguments, `error` an error of its own.
pub record GatewayEnv (Q : Type 0) : Type 0 where
  pub trim_space : String → String
  pub parse_url : String → Result UrlParts
  pub equal_fold : String → String → Bool
  pub parse_ip : String → Option Bool
  pub has_suffix : String → String → Bool
  pub marshal_subject : String → Result String
  pub new_request : String → String → String → Result Q
  pub send : Q → Result HttpResponse
  pub unmarshal : String → Result WhoamiResponse
  pub parse_time : String → Result Time
  pub detail : GatewayError → String
  pub error : String → GoError
  pub wrapped : String → GoError → GoError

-- The texts of the sentinels.
abbrev pub gateway_text : GatewayError → String
gateway_text subject_gone = "gateway: subject not found (404)"
gateway_text unauthorized = "gateway: invalid shared secret (401)"
gateway_text loopback_required = "gateway: loopback required (403)"
gateway_text rotation_failed = "gateway: refresh token rotation rejected (502/rotation_failed)"
gateway_text upstream_failure = "gateway: transient upstream failure (502)"
gateway_text bad_request = "gateway: bad request (4xx)"
gateway_text invalid_expiry = "gateway: whoami response missing or invalid expires_at"
gateway_text non_loopback = "gateway: endpoint URL must be loopback (127.0.0.1 / ::1 / localhost)"
gateway_text invalid_path =
    "gateway: endpoint URL must end with \"/whoami\" (e.g. http://127.0.0.1:8081/internal/v1/whoami)"

abbrev pub sentinel : GatewayError → GoError
sentinel g = record { chain = gateway g ∷ []; text = gateway_text g }

-- `gatewayTokenSource`, and the part of its configuration that is checked.
pub record TokenSource : Type 0 where
  pub endpoint : String
  pub secret : String
  pub subject : String

module _ {Q : Type 0} (e : GatewayEnv Q) where
  -- A sentinel wrapped with `%w`.
  abbrev pub detailed : GatewayError → GoError
  detailed g = record { chain = other ∷ gateway g ∷ []; text = e.detail g }

  -- `isLoopbackHost`.
  unfoldable pub is_loopback_host : String → Bool
  is_loopback_host host =
      if host == ""
      then false
      else if e.equal_fold host "localhost"
      then true
      else elim (e.parse_ip host) [ none ↦ false | some loopback ↦ loopback ]

  -- The checks of a parsed URL.
  abbrev pub url_error : UrlParts → Option GoError
  url_error u =
      if not (u.scheme == "http") && not (u.scheme == "https")
      then some (e.error "gateway: endpoint URL scheme must be http or https, got %q")
      else if not (is_loopback_host u.hostname)
      then some (detailed non_loopback)
      else if not (e.has_suffix u.path "/whoami")
      then some (detailed invalid_path)
      else none

  -- `ValidateGatewayEndpoint`.
  unfoldable pub validate_gateway_endpoint : String → String → Option GoError
  validate_gateway_endpoint url secret =
      if e.trim_space url == ""
      then some (plain "gateway: endpoint URL is required")
      else if e.trim_space secret == ""
      then some (plain "gateway: shared secret is required")
      else elim (e.parse_url url) [
        | err x ↦ some (e.wrapped "gateway: invalid endpoint URL: %w" x)
        | ok u ↦ url_error u
      ]

  -- `NewGatewayTokenSource`, on the endpoint, secret and subject of its configuration.
  unfoldable pub new_gateway_token_source : TokenSource → Result TokenSource
  new_gateway_token_source c =
      if e.trim_space c.endpoint == ""
      then err (plain "gateway: endpoint URL is required")
      else if e.trim_space c.secret == ""
      then err (plain "gateway: shared secret is required")
      else if e.trim_space c.subject == ""
      then err (plain "gateway: subject is required")
      else elim (e.parse_url c.endpoint) [
        | err x ↦ err (e.wrapped "gateway: invalid endpoint URL: %w" x)
        | ok u ↦ elim (url_error u) [ some x ↦ err x | none ↦ ok c ]
      ]

  -- The switch on the status of the answer; none for 200.
  unfoldable pub status_error : HttpResponse → Option GoError
  status_error r =
      if nat_beq r.status 200
      then none
      else if nat_beq r.status 401
      then some (sentinel unauthorized)
      else if nat_beq r.status 403
      then some (sentinel loopback_required)
      else if nat_beq r.status 404
      then some (sentinel subject_gone)
      else if nat_beq r.status 502
      then some (
          sentinel
            (if r.error_field == "rotation_failed" then rotation_failed else upstream_failure))
      else if leb 400 r.status && ltb r.status 500
      then some (detailed bad_request)
      else some (e.error "gateway: unexpected status %d")

  -- The token of a decoded answer.
  unfoldable pub token_of : WhoamiResponse → Result Token
  token_of w =
      if w.access_token == ""
      then err (plain "gateway: whoami response missing access_token")
      else if w.expires_at == ""
      then err (sentinel invalid_expiry)
      else elim (e.parse_time w.expires_at) [
        | err x ↦ err (detailed invalid_expiry)
        | ok t ↦
            ok (record { access_token = w.access_token; token_type = w.token_type; expiry = t })
      ]

  -- The part of `Token` from the answer on.
  unfoldable pub read_token : HttpResponse → Result Token
  read_token r = elim (status_error r) [
    | some x ↦ err x
    | none ↦ elim r.body [
      | err x ↦ err (e.wrapped "gateway: read whoami body: %w" x)
      | ok text ↦ elim (e.unmarshal text) [
        | err x ↦ err (e.wrapped "gateway: decode whoami body: %w" x)
        | ok w ↦ token_of w
      ]
    ]
  ]

  -- `Token`.
  unfoldable pub token : TokenSource → Result Token
  token s = elim (e.marshal_subject s.subject) [
    | err x ↦ err (e.wrapped "gateway: marshal whoami body: %w" x)
    | ok body ↦ elim (e.new_request s.endpoint s.secret body) [
      | err x ↦ err (e.wrapped "gateway: build whoami request: %w" x)
      | ok q ↦ elim (e.send q) [
        | err x ↦ err (e.wrapped "gateway: whoami request failed: %w" x)
        | ok r ↦ read_token r
      ]
    ]
  ]
