-- ===== src/Tools/Diagnostics.antt =====
-- internal/tools/diagnostics.go: the tool that shows the login and the scopes of a token.
use mathlib.Core.Path.{subst}
use copilot_review_mcp.Common.{
  String, List, [], ◌∷◌, Option, none, some, arith, ◌≡◌, ◌≢◌, inl, inr, refl, sym, ◌∙◌, map, keep,
  ◌==◌, string_eq, eq_iff, not, Bool-cases, if◌then◌else◌,
}
use copilot_review_mcp.Autherr.{new_auth_required}
use copilot_review_mcp.Errors.{GoError, ok, err, Result-cases}
use copilot_review_mcp.Middleware.{Strings}
use copilot_review_mcp.Github.Diagnostics.{
  TokenDiagnostics, User, DiagnosticsEnv, scopes_of, header_scopes, diagnostics_of,
  token_diagnostics_of, get_token_diagnostics,
}
use copilot_review_mcp.Tools.Auth.{Call, token_from_tool_request}
use copilot_review_mcp.Tools.Reply.{ToolReply, output, auth_result, fail_with, fail_with-fails}

-- `DiagnoseTokenOutput`.
pub record DiagnoseTokenOutput : Type 0 where
  pub login : String
  pub scopes : List String

-- `diagnoseTokenHandler`; a nil list of scopes is an empty one.
unfoldable pub diagnose_token_handler :
    {C : Type 0} → Strings → DiagnosticsEnv C → Call → ToolReply DiagnoseTokenOutput
diagnose_token_handler t e c =
    let token = token_from_tool_request t c in
    if token == "" then auth_result new_auth_required else elim (get_token_diagnostics e token) [
      | err x ↦ fail_with (λ (y : GoError). y) x
      | ok d ↦ output (record { login = d.login; scopes = d.scopes })
    ]

-- The scopes of a header: what is not blank of its parts, trimmed and in order.
abbrev pub scopes_shown : {C : Type 0} → DiagnosticsEnv C → Option String → List String
scopes_shown e none = []
scopes_shown e (some raw) =
    if raw == "" then [] else keep (λ s. not (s == "")) (map e.trim_space (e.split_comma raw))

scopes_of_lem :
    {C : Type 0} (e : DiagnosticsEnv C) (parts : List String)
    → scopes_of e parts ≡ keep (λ s. not (s == "")) (map e.trim_space parts)
unfolding scopes_of
scopes_of_lem e [] = refl
scopes_of_lem e (s ∷ parts) = ground (arith, scopes_of_lem e parts)

header_scopes_lem :
    {C : Type 0} (e : DiagnosticsEnv C) (h : Option String) → header_scopes e h ≡ scopes_shown e h
header_scopes_lem e none = refl
header_scopes_lem e (some raw) = ground (arith, scopes_of_lem e (e.split_comma raw))

token_diagnostics_of-ok :
    {C : Type 0} (e : DiagnosticsEnv C) (client : C) (d : TokenDiagnostics)
    → token_diagnostics_of e client ≡ ok d
    → (u : User) × (e.get_user client ≡ ok u)
      × (d.login ≡ u.login)
      × (d.login ≢ "")
      × (d.scopes ≡ scopes_shown e u.scopes_header)
unfolding token_diagnostics_of
token_diagnostics_of-ok e client d h = elim (Result-cases (e.get_user client)) [
  | inl (x, q) ↦ ground arith
  | inr (u, q) ↦ elim (Bool-cases (u.login == "")) [
    | inl b ↦ ground arith
    | inr b ↦
        let same : diagnostics_of e u ≡ ok d = ground arith in
        let login : u.login ≡ d.login = ground arith in
        let scopes : header_scopes e u.scopes_header ≡ d.scopes = ground arith in
        (
          u,
          q,
          sym login,
          subst (λ x. x ≢ "") login (ground (arith, eq_iff u.login "")),
          sym scopes ∙ header_scopes_lem e u.scopes_header,
        )
  ]
]

-- An output of diagnose_github_token has what GitHub answers to a client of the token of the call,
-- which is not empty: the login, which is not empty, and the parts of the header of scopes that are not
-- blank, trimmed and in order, none where there is no response.
pub diagnose_token_handler-Shows :
    {C : Type 0} (t : Strings) (e : DiagnosticsEnv C) (c : Call) (o : DiagnoseTokenOutput)
    → diagnose_token_handler t e c ≡ output o
    → (token_from_tool_request t c ≢ "")
      × (client : C) × (u : User) × (e.new_client (token_from_tool_request t c) ≡ ok client)
      × (e.get_user client ≡ ok u)
      × (o.login ≡ u.login)
      × (o.login ≢ "")
      × (o.scopes ≡ scopes_shown e u.scopes_header)
unfolding diagnose_token_handler get_token_diagnostics
diagnose_token_handler-Shows t e c o h =
    let token = token_from_tool_request t c in
    elim (Bool-cases (token == "")) [
      | inl b ↦ ground arith
      | inr b ↦ elim (Result-cases (e.new_client token)) [
        | inl (x, q) ↦ absurd (
            fail_with-fails (λ (y : GoError). y) (e.wrapped "github.NewClient: %w" x) o
              (ground arith))
        | inr (client, q) ↦ elim (Result-cases (token_diagnostics_of e client)) [
          | inl (x, r) ↦ absurd (fail_with-fails (λ (y : GoError). y) x o (ground arith))
          | inr (d, r) ↦
              let (u, f, g, k, l) = token_diagnostics_of-ok e client d r in
              let login : d.login ≡ o.login = ground arith in
              let scopes : d.scopes ≡ o.scopes = ground arith in
              (
                ground (arith, eq_iff token ""),
                client,
                u,
                q,
                f,
                sym login ∙ g,
                subst (λ x. x ≢ "") login k,
                sym scopes ∙ l,
              )
        ]
      ]
    ]
