-- ===== src/Autherr.antt =====
-- internal/autherr/autherr.go: the structured blocking errors that the tools return.
use copilot_review_mcp.Common.{Bool, true, false, String, ◌&&◌, if◌then◌else◌}

pub data AuthErrorType : Type 0 where
  auth_required reauth_required token_refresh_failed permission_denied : AuthErrorType
  rate_limited not_found validation_error transient_upstream_error : AuthErrorType

pub record AuthError : Type 0 where
  pub ok : Bool
  pub error_type : AuthErrorType
  pub severity : String
  pub retryable : Bool
  pub user_action_required : Bool
  pub safe_to_continue : Bool
  pub message : String
  pub recommended_agent_action : String

-- `(*AuthError).Error`.
abbrev pub error : AuthError → String
error e = e.message

unfoldable pub new_auth_required : AuthError
new_auth_required = record {
  ok = false;
  error_type = auth_required;
  severity = "blocking";
  retryable = false;
  user_action_required = true;
  safe_to_continue = false;
  message =
      "GitHub authentication context is missing. Please sign in with a valid GitHub account before continuing.";
  recommended_agent_action =
      "Stop the current operation and ask the user to provide GitHub authentication credentials.";
}

unfoldable pub new_reauth_required : AuthError
new_reauth_required = record {
  ok = false;
  error_type = reauth_required;
  severity = "blocking";
  retryable = false;
  user_action_required = true;
  safe_to_continue = false;
  message = "GitHub authentication has expired. Please re-authenticate before continuing.";
  recommended_agent_action = "Stop the review cycle and ask the user to re-authenticate.";
}

unfoldable pub new_token_refresh_failed : AuthError
new_token_refresh_failed = record {
  ok = false;
  error_type = token_refresh_failed;
  severity = "blocking";
  retryable = false;
  user_action_required = true;
  safe_to_continue = false;
  message = "GitHub token refresh failed. Please re-authenticate before continuing.";
  recommended_agent_action = "Stop the review cycle and ask the user to re-authenticate.";
}

unfoldable pub new_permission_denied : AuthError
new_permission_denied = record {
  ok = false;
  error_type = permission_denied;
  severity = "blocking";
  retryable = false;
  user_action_required = true;
  safe_to_continue = false;
  message =
      "GitHub permission denied. The token does not have sufficient permission for this operation.";
  recommended_agent_action =
      "Stop the current operation and ask the user to grant the required GitHub permission.";
}

-- The two booleans choose the texts together.
unfoldable pub new_rate_limited : Bool → Bool → AuthError
new_rate_limited retryable safe_to_continue =
    let timed = retryable && safe_to_continue in
    record {
      ok = false;
      error_type = rate_limited;
      severity = "blocking";
      retryable = retryable;
      user_action_required = false;
      safe_to_continue = safe_to_continue;
      message =
          if timed
          then "GitHub rate limit exceeded. Wait until the rate-limit window resets before retrying."
          else "GitHub secondary (abuse) rate limit hit. The token has been temporarily blocked by GitHub. Do not retry automatically.";
      recommended_agent_action =
          if timed
          then "Wait until the rate-limit window resets, then retry the operation."
          else "Stop all operations and report to the user. Manual resolution is required; do not retry without user guidance.";
    }

unfoldable pub new_not_found : AuthError
new_not_found = record {
  ok = false;
  error_type = not_found;
  severity = "blocking";
  retryable = false;
  user_action_required = false;
  safe_to_continue = false;
  message =
      "The requested GitHub resource was not found. The repo, PR, or thread may not exist or the token may not have read access.";
  recommended_agent_action =
      "Verify that the owner, repo, and PR number are correct, then stop the review cycle.";
}

unfoldable pub new_validation_error : AuthError
new_validation_error = record {
  ok = false;
  error_type = validation_error;
  severity = "blocking";
  retryable = false;
  user_action_required = false;
  safe_to_continue = false;
  message = "The request was rejected by GitHub due to invalid arguments.";
  recommended_agent_action =
      "Check the request parameters for correctness and stop the current operation.";
}

unfoldable pub new_transient_upstream_error : AuthError
new_transient_upstream_error = record {
  ok = false;
  error_type = transient_upstream_error;
  severity = "blocking";
  retryable = true;
  user_action_required = false;
  safe_to_continue = false;
  message =
      "A transient error occurred on the GitHub API side. Retrying after a short delay may succeed.";
  recommended_agent_action =
      "Wait a moment and retry the operation. If the error persists, stop the review cycle and report to the user.";
}
