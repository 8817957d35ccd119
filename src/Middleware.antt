-- ===== src/Middleware.antt =====
-- internal/middleware/auth.go: the identity and the token of a request, from the headers that the
-- gateway sets. A header is a function of its name, as Header.Get is; `fields` and `equal_fold` are
-- those of the package strings.
use copilot_review_mcp.Common.{
  Bool, String, List, [], ◌∷◌, Option, none, some, ◌==◌, string_eq, if◌then◌else◌,
}

pub record Strings : Type 0 where
  pub fields : String → List String
  pub equal_fold : String → String → Bool

-- The values that a request's context carries.
pub record Context : Type 0 where
  pub login : Option String
  pub token : Option String

abbrev pub bearer_of : Strings → List String → String
bearer_of t (scheme ∷ token ∷ []) = if t.equal_fold scheme "bearer" then token else ""
bearer_of t _ = ""

-- `extractBearer`.
unfoldable pub extract_bearer : Strings → (String → String) → String
extract_bearer t get = bearer_of t (t.fields (get "Authorization"))

-- What `Auth` does with a request: it is answered with 401 and a code, or served in a context.
pub data AuthOutcome : Type 0 where
  unauthorized : String → AuthOutcome
  served : Context → AuthOutcome

-- `Auth`.
unfoldable pub auth : Strings → (String → String) → AuthOutcome
auth t get =
    let login = get "X-Authenticated-User" in
    let token = extract_bearer t get in
    if login == ""
    then unauthorized "missing_proxy_identity"
    else if token == ""
    then unauthorized "missing_token"
    else served (record { login = some login; token = some token })

abbrev or_empty : Option String → String
or_empty none = ""
or_empty (some s) = s

-- `TokenFromContext`.
unfoldable pub token_from_context : Context → String
token_from_context c = or_empty c.token

-- `LoginFromContext`.
unfoldable pub login_from_context : Context → String
login_from_context c = or_empty c.login
