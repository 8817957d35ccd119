-- ===== src/Github/Fetch.antt =====
-- `GetReviewData` of internal/github/client.go. What the REST API answers is in `ReviewApi`, a
-- function of the page asked for.
pub mod Laws
use copilot_review_mcp.Common.{
  ℕ, zero, suc, ℤ, pos, Time, Bool, true, false, String, List, [], ◌∷◌, Option, none, some, ◌==◌,
  ◌||◌, string_eq, int_ltb, any, is_some, is_zero, after, range_over, not, if◌then◌else◌,
}
use copilot_review_mcp.Errors.{GoError, Result, ok, err}
use copilot_review_mcp.Github.Pages.{Response, Page, paginate}
use copilot_review_mcp.Github.Review.{ReviewData, PullRequestReview, is_copilot, submitted_or_zero}

-- A submitted review of any user; the time is zero where there is none.
pub record Review : Type 0 where
  pub login : String
  pub id : ℤ
  pub state : String
  pub submitted_at : Time

-- An event of the timeline; `reviewer` is the login of the requested reviewer, if there is one.
pub record Event : Type 0 where
  pub event : String
  pub reviewer : Option String
  pub created_at : Time

pub record ReviewApi : Type 0 where
  pub list_reviewers : Result (List String × Option Response)
  pub list_reviews : ℕ → Result (Page Review)
  pub list_timeline : ℕ → Result (Page Event)

abbrev pub empty_data : ReviewData
empty_data = record {
  is_copilot_in_reviewers = false;
  latest_copilot_review = none;
  rate_limit_remaining = pos 0;
  rate_limit_reset = 0;
  review_requested_at = none;
  work_started_at = none;
  skipped_timeline = false;
}

abbrev pub is_low : ReviewData → Bool
is_low d = int_ltb d.rate_limit_remaining 10

-- The rate limit of a response, if there is one.
unfoldable pub with_rate : Option Response → ReviewData → ReviewData
with_rate none d = d
with_rate (some r) d = record d { rate_limit_remaining = r.remaining; rate_limit_reset = r.reset }

abbrev pub time_of : Option PullRequestReview → Time
time_of none = 0
time_of (some r) = submitted_or_zero r.submitted_at

abbrev pub own_review : Review → PullRequestReview
own_review r = record {
  id = r.id;
  state = r.state;
  submitted_at = if is_zero r.submitted_at then none else some r.submitted_at;
}

-- The body of the loop over the reviews, on `data.LatestCopilotReview`.
unfoldable pub take_review : Review → Option PullRequestReview → Option PullRequestReview
take_review r latest =
    if not (is_copilot r.login)
    then latest
    else if not (is_some latest) || after r.submitted_at (time_of latest)
    then some (own_review r)
    else latest

unfoldable pub step_reviews : Page Review → ReviewData → ReviewData
step_reviews p d =
    let e = with_rate p.response d in
    record e { latest_copilot_review = range_over take_review p.items d.latest_copilot_review }

-- `t` where it is later than the time so far, or the first.
abbrev pub later : Time → Option Time → Option Time
later t none = some t
later t (some u) = if after t u then some t else some u

-- The two times that the loop over the timeline finds.
pub record Times : Type 0 where
  pub requested : Option Time
  pub started : Option Time

-- The body of the loop over the events.
unfoldable pub take_event : Event → Times → Times
take_event e t =
    if e.event == "review_requested"
    then (elim e.reviewer [
      | none ↦ t
      | some login ↦
          if is_copilot login then record t { requested = later e.created_at t.requested } else t
    ])
    else if e.event == "copilot_work_started"
    then record t { started = later e.created_at t.started }
    else t

abbrev pub times_of : ReviewData → Times
times_of d = record { requested = d.review_requested_at; started = d.work_started_at }

unfoldable pub step_timeline : Page Event → ReviewData → ReviewData
step_timeline p d =
    let e = with_rate p.response d in
    let t = range_over take_event p.items (times_of d) in
    record e { review_requested_at = t.requested; work_started_at = t.started }

-- The part of `GetReviewData` for the timeline; an error there is not fatal.
unfoldable pub get_timeline : ℕ → ReviewApi → ReviewData → Option (Result ReviewData)
get_timeline fuel api d =
    if not (d.is_copilot_in_reviewers || is_some d.latest_copilot_review)
    then some (ok d)
    else if is_low d
    then some (ok (record d { skipped_timeline = true }))
    else elim (paginate api.list_timeline step_timeline fuel 0 d) [
      | none ↦ none
      | some (d', e) ↦ some (ok d')
    ]

-- The rest of `GetReviewData`, from the reviewers on.
unfoldable pub get_reviews : ℕ → ReviewApi → ReviewData → Option (Result ReviewData)
get_reviews fuel api d =
    if is_low d then some (ok d) else elim (paginate api.list_reviews step_reviews fuel 0 d) [
      | none ↦ none
      | some (d', some e) ↦ some (err e)
      | some (d', none) ↦ get_timeline fuel api d'
    ]

-- The data after the reviewers were read.
unfoldable pub with_reviewers : List String → Option Response → ReviewData
with_reviewers users r =
    let d = with_rate r empty_data in record d { is_copilot_in_reviewers = any is_copilot users }

-- `GetReviewData`; each of its two loops has the fuel.
unfoldable pub get_review_data : ℕ → ReviewApi → Option (Result ReviewData)
get_review_data fuel api = elim api.list_reviewers [
  | err e ↦ some (err e)
  | ok (users, r) ↦ get_reviews fuel api (with_reviewers users r)
]
