-- ===== src/Tools/Reply.antt =====
-- internal/tools/auth_result.go and the results of the tools.
use copilot_review_mcp.Common.{String, Option, none, some, ◌≢◌, arith}
use copilot_review_mcp.Autherr.{AuthError, AuthErrorType}
use copilot_review_mcp.Errors.{GoError, as_auth_error}
use copilot_review_mcp.Github.Classify.{classify_github_error}

-- What a tool returns: an output, a structured blocking error, or an error.
pub data ToolReply (A : Type 0) : Type 0 where
  output : A → ToolReply A
  auth_result : AuthError → ToolReply A
  failure : GoError → ToolReply A

-- `tryAuthResult` of internal/tools/auth_result.go.
unfoldable pub try_auth_result : GoError → Option AuthError
try_auth_result e = elim (as_auth_error e) [
  | some a ↦ some a
  | none ↦ classify_github_error (some e)
]

-- A failed call: its structured error if it has one, or else the error, wrapped.
unfoldable pub fail_with : {A : Type 0} → (GoError → GoError) → GoError → ToolReply A
fail_with wrap e = elim (try_auth_result e) [ some a ↦ auth_result a | none ↦ failure (wrap e) ]

-- `authErrString`; `type_text` renders an error type and a message.
unfoldable pub auth_err_string : (AuthErrorType → String → String) → GoError → Option String
auth_err_string render e = elim (try_auth_result e) [
  | none ↦ none
  | some a ↦ some (render a.error_type a.message)
]

-- A failed call is no output.
pub fail_with-fails :
    {A : Type 0} (wrap : GoError → GoError) (x : GoError) (o : A) → fail_with wrap x ≢ output o
unfolding fail_with
fail_with-fails wrap x o = ground arith
