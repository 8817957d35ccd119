-- ===== src/Github/Fetch/Laws.antt =====
-- What `GetReviewData` returns: an answer at all, and the latest review of Copilot.
use mathlib.Core.Path.{subst}
use copilot_review_mcp.Common.{
  ℕ, suc, true, false, List, [], ◌∷◌, Option, none, some, arith, ◌≡◌, ◌⊎◌, ◌≤◌, ◌||◌, after, inl,
  inr, refl, sym, ap, ◌∙◌, is_some, All, Any, range_over, Bool-cases, Option-cases, not,
}
use copilot_review_mcp.Errors.{Result, ok, err, Result-cases}
use copilot_review_mcp.Github.Pages.{
  Page, paginate, IsNumbered, paginate_total, paginate_inv, Gathers, paginate-Gathers,
}
use copilot_review_mcp.Github.Review.{ReviewData, PullRequestReview, is_copilot}
use copilot_review_mcp.Github.Fetch.{
  Review, Event, ReviewApi, is_low, with_rate, time_of, own_review, take_review, step_reviews,
  step_timeline, get_timeline, get_reviews, with_reviewers, get_review_data,
}

-- The latest review of Copilot among some: the first of those with the latest time.
abbrev pub IsLatestReview : List Review → Option PullRequestReview → Type 0
IsLatestReview rs none = All (λ r. is_copilot r.login ≡ false) rs
IsLatestReview rs (some l) =
    Any (λ r. (is_copilot r.login ≡ true) × (own_review r ≡ l)) rs
    × All (λ r. is_copilot r.login ≡ true → r.submitted_at ≤ time_of (some l)) rs

time_of-own_review : (r : Review) → time_of (some (own_review r)) ≡ r.submitted_at
time_of-own_review r = ground arith

-- What the loop keeps, from a review that it had found before.
keeps_latest :
    (rs : List Review) (l : PullRequestReview)
    → (m : PullRequestReview) × (range_over take_review rs (some l) ≡ some m)
      × (time_of (some l) ≤ time_of (some m))
      × All (λ r. is_copilot r.login ≡ true → r.submitted_at ≤ time_of (some m)) rs
      × ((m ≡ l) ⊎ Any (λ r. (is_copilot r.login ≡ true) × (own_review r ≡ m)) rs)
unfolding take_review
keeps_latest [] l = (l, refl, omega arith, tt, inl refl)
keeps_latest (r ∷ rs) l = elim (Bool-cases (is_copilot r.login)) [
  | inr b ↦
      let (m, e, t, a, o) = keeps_latest rs l in
      (m, ground arith, t, (λ c. ground arith, a), ground arith)
  | inl b ↦ elim (Bool-cases (after r.submitted_at (time_of (some l)))) [
    | inl c ↦
        let (m, e, t, a, o) = keeps_latest rs (own_review r) in
        let same = time_of-own_review r in
        (
          m,
          ground arith,
          ground arith,
          (λ x. ground arith, a),
          inr (elim o [ inl w ↦ inl (b, sym w) | inr w ↦ inr w ]),
        )
    | inr c ↦
        let (m, e, t, a, o) = keeps_latest rs l in
        (m, ground arith, t, (λ x. ground arith, a), ground arith)
  ]
]

IsLatestReview-cons :
    (r : Review) (rs : List Review) (o : Option PullRequestReview)
    → is_copilot r.login ≡ false
    → IsLatestReview rs o
    → IsLatestReview (r ∷ rs) o
IsLatestReview-cons r rs none b h = (b, h)
IsLatestReview-cons r rs (some l) b h = (inr h.0, (λ c. ground arith, h.1))

finds_latest : (rs : List Review) → IsLatestReview rs (range_over take_review rs none)
unfolding take_review
finds_latest [] = tt
finds_latest (r ∷ rs) = elim (Bool-cases (is_copilot r.login)) [
  | inr b ↦
      let same : range_over take_review (r ∷ rs) none ≡ range_over take_review rs none =
        ap (range_over take_review rs) (ground arith) in
      subst (IsLatestReview (r ∷ rs)) (sym same)
        (IsLatestReview-cons r rs (range_over take_review rs none) b (finds_latest rs))
  | inl b ↦
      let (m, e, t, a, o) = keeps_latest rs (own_review r) in
      let same : range_over take_review (r ∷ rs) none ≡ some m =
        ap (range_over take_review rs) (ground arith) ∙ e in
      subst (IsLatestReview (r ∷ rs)) (sym same) (
        elim o [ inl w ↦ inl (b, sym w) | inr w ↦ inr w ],
        (λ c. omega (arith, time_of-own_review r), a),
      )
]

-- `GetReviewData` where the pages are numbered upwards: with as much fuel as there are pages it
-- returns data or an error.
get_timeline_total :
    (last : ℕ) (api : ReviewApi) (d : ReviewData)
    → IsNumbered api.list_timeline last
    → (r : Result ReviewData) × (get_timeline (suc last) api d ≡ some r)
unfolding get_timeline
get_timeline_total last api d h =
    let ((d', e), q) =
      paginate_total api.list_timeline step_timeline last (suc last) 0 d h (omega arith)
        (omega arith) in
    elim (Bool-cases (not (d.is_copilot_in_reviewers || is_some d.latest_copilot_review))) [
      | inl b ↦ (ok d, ground arith)
      | inr b ↦ elim (Bool-cases (is_low d)) [
        | inl c ↦ (ok (record d { skipped_timeline = true }), ground arith)
        | inr c ↦ (ok d', ground arith)
      ]
    ]

get_reviews_total :
    (last : ℕ) (api : ReviewApi) (d : ReviewData)
    → IsNumbered api.list_reviews last
    → IsNumbered api.list_timeline last
    → (r : Result ReviewData) × (get_reviews (suc last) api d ≡ some r)
unfolding get_reviews
get_reviews_total last api d h k =
    let ((d', e), q) =
      paginate_total api.list_reviews step_reviews last (suc last) 0 d h (omega arith)
        (omega arith) in
    elim (Bool-cases (is_low d)) [
      | inl b ↦ (ok d, ground arith)
      | inr b ↦ elim (Option-cases e) [
        | inl c ↦ let (r, x) = get_timeline_total last api d' k in (r, ground arith)
        | inr (x, c) ↦ (err x, ground arith)
      ]
    ]

-- If on both lists the number of the next page grows and stays below a bound, fuel above the bound is
-- enough: GetReviewData returns data or an error.
pub get_review_data_total :
    (last : ℕ) (api : ReviewApi)
    → IsNumbered api.list_reviews last
    → IsNumbered api.list_timeline last
    → (r : Result ReviewData) × (get_review_data (suc last) api ≡ some r)
unfolding get_review_data
get_review_data_total last api h k = elim (Result-cases api.list_reviewers) [
  | inl (e, q) ↦ (err e, ground arith)
  | inr ((users, r), q) ↦
      let (x, e) = get_reviews_total last api (with_reviewers users r) h k in (x, ground arith)
]

-- The timeline leaves the review as it is, and is only skipped where the rate limit is low.
abbrev IsKept : ReviewData → ReviewData → Type 0
IsKept d e =
    (e.latest_copilot_review ≡ d.latest_copilot_review)
    × (e.skipped_timeline ≡ d.skipped_timeline)
    × (e.is_copilot_in_reviewers ≡ d.is_copilot_in_reviewers)

step_timeline-IsKept :
    (d : ReviewData) (p : Page Event) (e : ReviewData) → IsKept d e → IsKept d (step_timeline p e)
unfolding step_timeline with_rate
step_timeline-IsKept d (p) e h = elim (Option-cases p.response) [
  | inl q ↦ ground arith
  | inr (r, q) ↦ ground arith
]

get_timeline-IsKept :
    (fuel : ℕ) (api : ReviewApi) (d e : ReviewData)
    → get_timeline fuel api d ≡ some (ok e)
    → is_low e ≡ false
    → IsKept d e
unfolding get_timeline
get_timeline-IsKept fuel api d e h l =
    elim (Bool-cases (not (d.is_copilot_in_reviewers || is_some d.latest_copilot_review))) [
      | inl b ↦ ground arith
      | inr b ↦ elim (Bool-cases (is_low d)) [
        | inl c ↦ ground arith
        | inr c ↦ elim (Option-cases (paginate api.list_timeline step_timeline fuel 0 d)) [
          | inl q ↦ ground arith
          | inr ((f, x), q) ↦
              let same : f ≡ e = ground arith in
              subst (IsKept d) same (
                paginate_inv api.list_timeline step_timeline (IsKept d) (step_timeline-IsKept d)
                  fuel 0 d f x q (refl, refl, refl))
        ]
      ]
    ]

step_reviews-latest :
    (p : Page Review) (d : ReviewData)
    → (step_reviews p d).latest_copilot_review
      ≡ range_over take_review p.items d.latest_copilot_review
unfolding step_reviews with_rate
step_reviews-latest p d = ground arith

step_reviews-skipped :
    (p : Page Review) (d : ReviewData)
    → d.skipped_timeline ≡ false
    → (step_reviews p d).skipped_timeline ≡ false
unfolding step_reviews with_rate
step_reviews-skipped p d h = ground arith

-- What GetReviewData returns without a low rate limit: the reviews of all pages were read, the data
-- holds the latest one of Copilot (or none where Copilot has none), and the timeline was not skipped.
-- This is why its callers refuse data with a low rate limit.
pub get_review_data-latest :
    (fuel : ℕ) (api : ReviewApi) (d : ReviewData)
    → get_review_data fuel api ≡ some (ok d)
    → is_low d ≡ false
    → (rs : List Review) × Gathers api.list_reviews 0 rs
      × IsLatestReview rs d.latest_copilot_review
      × (d.skipped_timeline ≡ false)
unfolding get_review_data get_reviews with_reviewers with_rate
get_review_data-latest fuel api d h l = elim (Result-cases api.list_reviewers) [
  | inl (e, q) ↦ ground arith
  | inr ((users, r), q) ↦
      let s = with_reviewers users r in
      let start : (s.latest_copilot_review ≡ none) × (s.skipped_timeline ≡ false) = ground arith in
      elim (Bool-cases (is_low s)) [
        | inl b ↦ ground arith
        | inr b ↦ elim (Option-cases (paginate api.list_reviews step_reviews fuel 0 s)) [
          | inl c ↦ ground arith
          | inr ((t, some e), c) ↦ ground arith
          | inr ((t, none), c) ↦
              let (rs, g, v) =
                paginate-Gathers api.list_reviews step_reviews
                  (λ (x : ReviewData). x.latest_copilot_review) take_review step_reviews-latest fuel
                  0 s t c in
              let k = get_timeline-IsKept fuel api t d (ground arith) l in
              let f =
                paginate_inv api.list_reviews step_reviews
                  (λ (x : ReviewData). x.skipped_timeline ≡ false) step_reviews-skipped fuel 0 s t
                  none c start.1 in
              (
                rs,
                g,
                subst (IsLatestReview rs)
                    (ap (range_over take_review rs) (sym start.0) ∙ sym v ∙ sym k.0)
                    (finds_latest rs),
                k.1 ∙ f,
              )
        ]
      ]
]
