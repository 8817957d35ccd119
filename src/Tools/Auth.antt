-- ===== src/Tools/Auth.antt =====
-- internal/tools/auth_request.go: the login, the token and the client of a call of a tool.
pub mod Laws
use copilot_review_mcp.Common.{
  Bool, String, List, [], ◌∷◌, Option, none, some, ◌==◌, string_eq, if◌then◌else◌,
}
use copilot_review_mcp.Autherr.{AuthError, new_auth_required}
use copilot_review_mcp.Errors.{GoError, blocking, Result, ok, err}
use copilot_review_mcp.Middleware.{
  Strings, Context, bearer_of, login_from_context, token_from_context,
}

-- `req.Extra`: the user ID of its TokenInfo, if there is one, and its header.
pub record Extra : Type 0 where
  pub user_id : Option String
  pub header : Option (String → String)

-- A call: its request, without one if that or its Extra is nil, and its context.
pub record Call : Type 0 where
  pub extra : Option Extra
  pub context : Context

abbrev pub user_id_of : Option Extra → String
user_id_of none = ""
user_id_of (some x) = elim x.user_id [ none ↦ "" | some id ↦ id ]

-- `loginFromToolRequest`.
unfoldable pub login_from_tool_request : Call → String
login_from_tool_request c =
    if user_id_of c.extra == "" then login_from_context c.context else user_id_of c.extra

-- `bearerTokenFromHeader`.
unfoldable pub bearer_token_from_header : Strings → Option (String → String) → String
bearer_token_from_header t none = ""
bearer_token_from_header t (some get) = bearer_of t (t.fields (get "Authorization"))

abbrev pub header_token : Strings → Option Extra → String
header_token t none = ""
header_token t (some x) = bearer_token_from_header t x.header

-- `tokenFromToolRequest`.
unfoldable pub token_from_tool_request : Strings → Call → String
token_from_tool_request t c =
    if header_token t c.extra == "" then token_from_context c.context else header_token t c.extra

abbrev pub auth_required_error : GoError
auth_required_error = record {
  chain = blocking new_auth_required ∷ [];
  text = new_auth_required.message;
}

-- `newGitHubClientProvider`; `new_client` makes a client from a token.
unfoldable pub client_provider : {C : Type 0} → Strings → (String → C) → Call → Result C
client_provider t new_client c =
    let token = token_from_tool_request t c in
    if token == "" then err auth_required_error else ok (new_client token)
