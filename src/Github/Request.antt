-- ===== src/Github/Request.antt =====
-- `RequestCopilotReview` of internal/github/client.go. The query and the mutation are in
-- `RequestApi`, whose state is a `G`.
use copilot_review_mcp.Common.{ℤ, String, Option, none, some, ◌==◌, string_eq, not, if◌then◌else◌}
use copilot_review_mcp.Errors.{GoError, Result, ok, err}
use copilot_review_mcp.Github.Threads.{in_int32}

-- `query_node` is the node ID of the pull request, nil or a text; `mutate` adds the login of Copilot's
-- bot to the reviewers.
pub record RequestApi (G : Type 0) : Type 0 where
  pub query_node : G → Result (Option String)
  pub mutate : String → G → Result (Unit {0}) × G
  pub error : String → GoError
  pub wrapped : String → GoError → GoError

unfoldable pub request_copilot_review : {G : Type 0} → RequestApi G → ℤ → G → Result (Unit {0}) × G
request_copilot_review api pr g =
    if not (in_int32 pr)
    then (err (api.error "pr number out of valid range: %d"), g)
    else elim (api.query_node g) [
      | err e ↦ (err (api.wrapped "failed to fetch PR node ID: %w" e), g)
      | ok none ↦ (err (api.error "pull request node ID is empty"), g)
      | ok (some node) ↦
          if node == ""
          then (err (api.error "pull request node ID is empty"), g)
          else (let (r, g') = api.mutate node g in
              elim r [
                | err e ↦ (err (api.wrapped "requestReviewsByLogin mutation failed: %w" e), g')
                | ok u ↦ (ok tt, g')
              ])
    ]
