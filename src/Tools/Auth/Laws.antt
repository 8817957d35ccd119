-- ===== src/Tools/Auth/Laws.antt =====
-- Requests fail closed, and those that are served have a login and a client.
use mathlib.Core.Path.{subst}
use copilot_review_mcp.Common.{
  true, String, List, [], ◌∷◌, Option, some, arith, ◌≡◌, ◌≢◌, ◌⊎◌, inl, inr, refl, ◌==◌, string_eq,
  eq_iff, Bool-cases,
}
use copilot_review_mcp.Errors.{ok}
use copilot_review_mcp.Middleware.{
  Strings, Context, bearer_of, extract_bearer, served, auth, token_from_context, login_from_context,
}
use copilot_review_mcp.Tools.Auth.{
  Extra, Call, user_id_of, login_from_tool_request, header_token, token_from_tool_request,
  client_provider,
}

bearer_of-cases :
    (t : Strings) (fs : List String)
    → (bearer_of t fs ≡ "")
      ⊎ ((scheme : String) × (fs ≡ scheme ∷ bearer_of t fs ∷ [])
          × (t.equal_fold scheme "bearer" ≡ true))
bearer_of-cases t [] = inl refl
bearer_of-cases t (a ∷ []) = inl refl
bearer_of-cases t (a ∷ b ∷ []) = elim (Bool-cases (t.equal_fold a "bearer")) [
  | inl e ↦ inr (a, ground arith, e)
  | inr e ↦ inl (ground arith)
]
bearer_of-cases t (a ∷ b ∷ c ∷ fs) = inl refl

-- What a context with a login and a token leads to.
context_served :
    {C : Type 0} (t : Strings) (login token : String) (new_client : String → C)
    (extra : Option Extra)
    → login ≢ ""
    → token ≢ ""
    → let c : Call = record {
      extra = extra;
      context = record { login = some login; token = some token };
    } in
      (login_from_tool_request c ≢ "") × ((x : C) × (client_provider t new_client c ≡ ok x))
unfolding login_from_tool_request client_provider token_from_tool_request token_from_context
    login_from_context
context_served t login token new_client extra h k = (
  elim (Bool-cases (user_id_of extra == "")) [
    | inl b ↦ ground arith
    | inr b ↦ ground (arith, eq_iff (user_id_of extra) "")
  ],
  elim (Bool-cases (header_token t extra == "")) [
    | inl b ↦ (new_client token, ground (arith, eq_iff token ""))
    | inr b ↦ (new_client (header_token t extra), ground arith)
  ],
)

-- What a served request has, and every call of a tool in its context.
abbrev pub IsServed :
    {C : Type 0} → Strings → (String → String) → (String → C) → Option Extra → Context → Type 0
IsServed {C} t get new_client extra context =
    let c : Call = record { extra = extra; context = context } in
    (get "X-Authenticated-User" ≢ "")
    × ((scheme : String) × (token : String) × (t.fields (get "Authorization") ≡ scheme ∷ token ∷ [])
        × (t.equal_fold scheme "bearer" ≡ true)
        × (token ≢ "")
        × (token_from_context context ≡ token))
    × (login_from_context context ≡ get "X-Authenticated-User")
    × (login_from_tool_request c ≢ "")
    × ((x : C) × (client_provider t new_client c ≡ ok x))

-- Auth fails closed. A request that it serves has an identity header that is not empty and an
-- Authorization header of exactly two fields, a bearer scheme and a token that is not empty; and
-- whatever else the call of a tool carries, it then has a login and a token, so that the client
-- provider makes a client and does not ask for authentication.
pub auth-served :
    {C : Type 0} (t : Strings) (get : String → String) (context : Context) (new_client : String → C)
    (extra : Option Extra)
    → auth t get ≡ served context
    → IsServed t get new_client extra context
unfolding auth extract_bearer token_from_context login_from_context
auth-served t get context new_client extra h =
    let login = get "X-Authenticated-User" in
    let token = extract_bearer t get in
    elim (Bool-cases (login == "")) [
      | inl b ↦ ground arith
      | inr b ↦ elim (Bool-cases (token == "")) [
        | inl c ↦ ground arith
        | inr c ↦
            let one : login ≢ "" = ground (arith, eq_iff login "") in
            let two : token ≢ "" = ground (arith, eq_iff token "") in
            let own : Context = record { login = some login; token = some token } in
            let same : own ≡ context = ground arith in
            let k = context_served t login token new_client extra one two in
            elim (bearer_of-cases t (t.fields (get "Authorization"))) [
              | inl x ↦ absurd (two x)
              | inr (scheme, x, y) ↦
                  subst (IsServed t get new_client extra) same
                    (one, (scheme, token, x, y, two, refl), refl, k.0, k.1)
            ]
      ]
    ]
