-- ===== src/Github/Review.antt =====
-- internal/github/client.go: the review data of a pull request and DeriveStatus.
pub mod Laws
use copilot_review_mcp.Common.{
  ℕ, ℤ, Bool, true, false, not, String, List, [], ◌∷◌, Option, none, some, any, Time, is_zero,
  after, before, ◌==◌, string_eq, ◌&&◌, if◌then◌else◌,
}

abbrev pub copilot_logins : List String
copilot_logins =
    "Copilot" ∷ "github-copilot[bot]" ∷ "copilot-pull-request-reviewer[bot]" ∷ "github-copilot" ∷ []

-- `IsCopilotLogin` and `isCopilot`.
unfoldable pub is_copilot : String → Bool
is_copilot login = any (λ l. login == l) copilot_logins

pub data ReviewStatus : Type 0 where
  not_requested pending in_progress completed blocked : ReviewStatus

pub record PullRequestReview : Type 0 where
  pub id : ℤ
  pub state : String
  pub submitted_at : Option Time

pub record ReviewData : Type 0 where
  pub is_copilot_in_reviewers : Bool
  pub latest_copilot_review : Option PullRequestReview
  pub rate_limit_remaining : ℤ
  pub rate_limit_reset : Time
  pub review_requested_at : Option Time
  pub work_started_at : Option Time
  pub skipped_timeline : Bool

-- The timeline's request time, or else the one of the trigger log.
abbrev pub effective_requested_at : Option Time → Option Time → Option Time
effective_requested_at (some t) requested_at = some t
effective_requested_at none requested_at = requested_at

abbrev pub submitted_or_zero : Option Time → Time
submitted_or_zero none = 0
submitted_or_zero (some t) = t

-- `format_int` is strconv.FormatInt in base 10.
module _ (format_int : ℤ → String) where
  -- The value of `relevant`, from the effective request time and the recorded review ID.
  unfoldable pub is_relevant : PullRequestReview → Option Time → Option String → Bool
  is_relevant r none prev = true
  is_relevant r (some requested) (some prev) = not (format_int r.id == prev)
  is_relevant r (some requested) none =
      let sat = submitted_or_zero r.submitted_at in not (is_zero sat) && not (before sat requested)

  -- The part of DeriveStatus below the review.
  unfoldable pub status_of_request : ReviewData → ReviewStatus
  status_of_request d =
      if d.is_copilot_in_reviewers
      then (elim d.work_started_at [
        | none ↦ pending
        | some w ↦ elim d.review_requested_at [
          | none ↦ in_progress
          | some q ↦ if after w q then in_progress else pending
        ]
      ])
      else not_requested

  -- `DeriveStatus`, also of `(*Client).DeriveStatus` and `DeriveStatusWithThreshold`.
  unfoldable pub derive_status : ReviewData → Option Time → Option String → ReviewStatus
  derive_status d requested_at prev = elim d.latest_copilot_review [
    | none ↦ status_of_request d
    | some r ↦
        if is_relevant r (effective_requested_at d.review_requested_at requested_at) prev
        then if r.state == "CHANGES_REQUESTED" then blocked else completed
        else status_of_request d
  ]
