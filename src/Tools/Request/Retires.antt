-- ===== src/Tools/Request/Retires.antt =====
-- What a request records sets the reviews that were there before apart from new ones.
use mathlib.Core.Option
use copilot_review_mcp.Common.{
  ℕ, ℤ, Time, second, Bool, true, String, List, Option, none, some, arith, ◌≡◌, ◌≢◌, ◌≤◌, ◌<◌, ◌+◌,
  inl, inr, refl, sym, ap, ◌∙◌, ◌==◌, string_eq, to_unix, from_unix, All, All-weaken, Option-cases,
  eq_iff, if◌then◌else◌,
}
use copilot_review_mcp.Errors.{ok}
use copilot_review_mcp.Github.Review.{
  completed, blocked, ReviewData, PullRequestReview, is_relevant, status_of_request, derive_status,
}
use copilot_review_mcp.Store.{TriggerRow, Db, Grows}
use copilot_review_mcp.Store.Trigger.{
  TriggerEntry, of_pr, entry, get_latest, insert_with_prev_review_id,
}
use copilot_review_mcp.Store.Trigger.Laws.{
  IsLatest, NoNewer, get_latest-IsLatest, get_latest-insert,
}
use copilot_review_mcp.Store.Trigger.Settled.{fault-get_latest}
use copilot_review_mcp.Watch.Poll.{requested_of, prev_of}
use copilot_review_mcp.Tools.Request.{
  RequestInput, RequestEnv, existing, is_newer, noted, not_recorded, record_trigger,
}
use copilot_review_mcp.Tools.Request.Laws.{noted_lem}

NoNewer-le :
    (sat : Time) (s r : TriggerRow)
    → from_unix r.requested_at < sat + second
    → NoNewer s r
    → s.requested_at ≤ to_unix (sat + second)
NoNewer-le sat s r h k = ground arith

-- Where the time of the request is after the latest entry, no entry is after it.
no_later :
    (p : TriggerRow → Bool) (sat : Time) (rows : List TriggerRow) (o : Option TriggerRow)
    → IsLatest p rows o
    → is_newer (sat + second) (Option.map entry o) ≡ true
    → All (λ s. p s ≡ true → s.requested_at ≤ to_unix (sat + second)) rows
no_later p sat rows none l h = All-weaken rows (λ s a b. ground arith) l
no_later p sat rows (some r) l h =
    All-weaken rows (λ s a b. NoNewer-le sat s r (ground arith) (a b)) l.2

-- What DeriveStatus makes of a request that recorded a review: a review with the recorded ID does not
-- count, and any other one does.
abbrev pub Retires : (ℤ → String) → ℤ → TriggerEntry → Type 0
Retires format_int old x =
    (n : ReviewData) (r : PullRequestReview)
    → n.latest_copilot_review ≡ some r
    → (format_int r.id ≡ format_int old
        → derive_status format_int n (requested_of (some x)) (prev_of (some x))
          ≡ status_of_request format_int n)
      × (format_int r.id ≢ format_int old
          → derive_status format_int n (requested_of (some x)) (prev_of (some x))
            ≡ (if r.state == "CHANGES_REQUESTED" then blocked else completed))

recorded-Retires :
    (format_int : ℤ → String) (old : ℤ) (x : TriggerEntry)
    → x.prev_review_id ≡ some (format_int old)
    → Retires format_int old x
unfolding derive_status is_relevant
recorded-Retires format_int old x h n r e = elim (Option-cases n.review_requested_at) [
  | inl q ↦ (
    λ k. ground (arith, eq_iff (format_int r.id) (format_int old)),
    λ k. ground (arith, eq_iff (format_int r.id) (format_int old)),
  )
  | inr (t, q) ↦ (
    λ k. ground (arith, eq_iff (format_int r.id) (format_int old)),
    λ k. ground (arith, eq_iff (format_int r.id) (format_int old)),
  )
]

-- Where nobody else writes in between and the engine chooses fresh ids, a trigger that is recorded
-- while a review of Copilot stands, later by its time than the latest entry, becomes the latest entry:
-- pending, and such that DeriveStatus no longer counts the review that stood, whatever GitHub then
-- says of it, and counts every review with another ID as completed or blocked.
pub record_trigger-Retires :
    (e : RequestEnv) (i : RequestInput) (d : ReviewData) (db db' : Db) (id : ℕ)
    (r : PullRequestReview) (sat : Time) (latest : Option TriggerEntry)
    → e.between 1 db ≡ db
    → Grows db.new_rowid
    → existing d ≡ some (r, sat)
    → get_latest i.owner i.repo i.pr db ≡ ok latest
    → is_newer (sat + second) latest ≡ true
    → record_trigger e i d db ≡ (ok id, db')
    → (x : TriggerEntry) × (get_latest i.owner i.repo i.pr db' ≡ ok (some x))
      × (x.id ≡ id)
      × (x.completed_at ≡ none)
      × Retires e.format_int r.id x
unfolding record_trigger
record_trigger-Retires e i d db db' id r sat latest quiet grows k g b h =
    let fault = fault-get_latest i.owner i.repo i.pr db latest g in
    let (o, found, l) = get_latest-IsLatest i.owner i.repo i.pr db fault in
    let same : latest ≡ Option.map entry o = ground arith in
    let bound =
      no_later (of_pr i.owner i.repo i.pr) sat db.trigger_log o l
        (sym (ap (is_newer (sat + second)) same) ∙ b) in
    let prev = e.format_int r.id in
    let (n, a, t) =
      get_latest-insert i.owner i.repo i.pr "MANUAL" (sat + second) prev db fault grows bound in
    let step : noted e not_recorded
          (insert_with_prev_review_id i.owner i.repo i.pr "MANUAL" (sat + second) prev db)
        ≡ (ok id, db') =
      ground arith in
    let done =
      noted_lem e not_recorded
        (insert_with_prev_review_id i.owner i.repo i.pr "MANUAL" (sat + second) prev db) id db'
        step in
    let x : TriggerEntry = record {
      id = n;
      trigger = "MANUAL";
      requested_at = from_unix (to_unix (sat + second));
      completed_at = none;
      prev_review_id = some prev;
    } in
    (x, ground arith, ground arith, refl, recorded-Retires e.format_int r.id x refl)
