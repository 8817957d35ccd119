-- ===== src/Github/Review/Laws.antt =====
-- DeriveStatus against a description of the review life cycle by rules.
use copilot_review_mcp.Common.{
  ℤ, Time, true, false, String, Option, none, some, ◌≡◌, ◌≢◌, ◌≤◌, ◌<◌, string_eq,
}
use copilot_review_mcp.Github.Review.{
  ReviewStatus, not_requested, pending, in_progress, completed, blocked, PullRequestReview,
  ReviewData, effective_requested_at,
}

module _ (format_int : ℤ → String) where
  -- A review counts if no request is known, or if it is not the review seen before the request, or,
  -- where none was recorded, if it was submitted at or after the request.
  pub data Counts (r : PullRequestReview) (req : Option Time) (prev : Option String) : Type 0 where
    unrequested : req ≡ none → Counts r req prev
    other_review :
        (t : Time) (p : String)
        → req ≡ some t
        → prev ≡ some p
        → format_int r.id ≢ p
        → Counts r req prev
    later :
        (t s : Time)
        → req ≡ some t
        → prev ≡ none
        → r.submitted_at ≡ some s
        → 0 < s
        → t ≤ s
        → Counts r req prev

  abbrev request_time : ReviewData → Option Time → Option Time
  request_time d a = effective_requested_at d.review_requested_at a

  -- No review that counts.
  abbrev IsUnreviewed : ReviewData → Option Time → Option String → Type 0
  IsUnreviewed d a prev =
      (r : PullRequestReview)
      → d.latest_copilot_review ≡ some r
      → ¬ Counts r (request_time d a) prev

  -- Work began after the last review request on the timeline, or with none on it.
  pub data IsWorking (d : ReviewData) : Type 0 where
    began : (w : Time) → d.work_started_at ≡ some w → d.review_requested_at ≡ none → IsWorking d
    began_after :
        (w q : Time)
        → d.work_started_at ≡ some w
        → d.review_requested_at ≡ some q
        → q < w
        → IsWorking d

  -- The life cycle of a review, by rules.
  pub data Derives (d : ReviewData) (a : Option Time) (prev : Option String) (s : ReviewStatus)
      : Type 0 where
    done :
        (r : PullRequestReview)
        → s ≡ completed
        → d.latest_copilot_review ≡ some r
        → Counts r (request_time d a) prev
        → r.state ≢ "CHANGES_REQUESTED"
        → Derives d a prev s
    refused :
        (r : PullRequestReview)
        → s ≡ blocked
        → d.latest_copilot_review ≡ some r
        → Counts r (request_time d a) prev
        → r.state ≡ "CHANGES_REQUESTED"
        → Derives d a prev s
    working :
        s ≡ in_progress
        → IsUnreviewed d a prev
        → d.is_copilot_in_reviewers ≡ true
        → IsWorking d
        → Derives d a prev s
    waiting :
        s ≡ pending
        → IsUnreviewed d a prev
        → d.is_copilot_in_reviewers ≡ true
        → ¬ IsWorking d
        → Derives d a prev s
    absent :
        s ≡ not_requested
        → IsUnreviewed d a prev
        → d.is_copilot_in_reviewers ≡ false
        → Derives d a prev s
