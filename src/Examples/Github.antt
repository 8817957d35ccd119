-- ===== src/Examples/Github.antt =====
-- Errors and review data as GitHub answers them.
use copilot_review_mcp.Common.{ℤ, pos, true, false, String, [], ◌∷◌, some, ◌≡◌, refl, arith}
use copilot_review_mcp.Autherr.{AuthError, new_reauth_required}
use copilot_review_mcp.Errors.{GoError, gateway, subject_gone, is_gateway, as_auth_error}
use copilot_review_mcp.Github.Classify.{classify, classify_github_error, classify_gateway}
use copilot_review_mcp.Github.Classify.Laws.{IsCoherent, classify-IsCoherent}
use copilot_review_mcp.Github.Review.{ReviewData}

abbrev gone : GoError
gone = record { chain = gateway subject_gone ∷ []; text = "gateway: 410" }

classify_gone : classify_github_error (some gone) ≡ some new_reauth_required
unfolding classify_github_error classify classify_gateway as_auth_error is_gateway
classify_gone = refl

no_auth_error : (b : AuthError) → as_auth_error gone ≡ some b → IsCoherent b
unfolding as_auth_error
no_auth_error b e = ground arith

classify-IsCoherent_example : IsCoherent new_reauth_required
classify-IsCoherent_example =
    classify-IsCoherent gone new_reauth_required no_auth_error classify_gone

abbrev format : ℤ → String
format n = "5"

abbrev reviewed : ReviewData
reviewed = record {
  is_copilot_in_reviewers = true;
  latest_copilot_review = some (record { id = pos 5; state = "COMMENTED"; submitted_at = some 30 });
  rate_limit_remaining = pos 4000;
  rate_limit_reset = 0;
  review_requested_at = some 20;
  work_started_at = some 25;
  skipped_timeline = false;
}
