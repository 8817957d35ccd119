-- ===== src/Github/Diagnostics.antt =====
-- internal/github/client.go: the diagnostics of a token, and the transport that reports rejected ones.
use copilot_review_mcp.Common.{
  ℕ, String, List, [], ◌∷◌, Option, none, some, ◌==◌, string_eq, nat_beq, not, if◌then◌else◌,
}
use copilot_review_mcp.Errors.{GoError, Result, ok, err, plain}

-- `TokenDiagnostics`.
pub record TokenDiagnostics : Type 0 where
  pub login : String
  pub scopes : List String

-- An answer of GET /user: the login, and the header X-OAuth-Scopes, empty where it is not set; it is
-- none where there is no response.
pub record User : Type 0 where
  pub login : String
  pub scopes_header : Option String

-- `new_client` makes the client of a token, `get_user` asks it; `split_comma` is strings.Split at commas.
pub record DiagnosticsEnv (C : Type 0) : Type 0 where
  pub new_client : String → Result C
  pub get_user : C → Result User
  pub split_comma : String → List String
  pub trim_space : String → String
  pub wrapped : String → GoError → GoError

module _ {C : Type 0} (e : DiagnosticsEnv C) where
  -- The loop over the parts of the header.
  unfoldable pub scopes_of : List String → List String
  scopes_of [] = []
  scopes_of (s ∷ parts) =
      let rest = scopes_of parts in
      if not (e.trim_space s == "") then e.trim_space s ∷ rest else rest

  abbrev pub header_scopes : Option String → List String
  header_scopes none = []
  header_scopes (some raw) = if not (raw == "") then scopes_of (e.split_comma raw) else []

  abbrev pub diagnostics_of : User → Result TokenDiagnostics
  diagnostics_of u =
      if u.login == ""
      then err (plain "empty login returned from GitHub API")
      else ok (record { login = u.login; scopes = header_scopes u.scopes_header })

  -- `getTokenDiagnostics`.
  unfoldable pub token_diagnostics_of : C → Result TokenDiagnostics
  token_diagnostics_of client = elim (e.get_user client) [ err x ↦ err x | ok u ↦ diagnostics_of u ]

  -- `GetTokenDiagnostics`.
  unfoldable pub get_token_diagnostics : String → Result TokenDiagnostics
  get_token_diagnostics token =
      if token == "" then err (plain "token must not be empty") else elim (e.new_client token) [
        | err x ↦ err (e.wrapped "github.NewClient: %w" x)
        | ok client ↦ token_diagnostics_of client
      ]

-- `RoundTrip` of `invalidatingTransport`, on the answer of the inner transport, a status where there is a
-- response: the answer, and the tokens that were reported so far.
unfoldable pub round_trip :
    String → Result (Option ℕ) → List String → Result (Option ℕ) × List String
round_trip token (err x) reported = (err x, reported)
round_trip token (ok none) reported = (ok none, reported)
round_trip token (ok (some status)) reported =
    (ok (some status), if nat_beq status 401 then token ∷ reported else reported)
