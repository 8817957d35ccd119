-- ===== src/Tools/Status/Laws.antt =====
-- The status tool: the rendering of durations, what the answer rests on, and the update of the trigger
-- log.
use mathlib.Core.Path.{subst}
use copilot_review_mcp.Common.{
  ℕ, ℤ, pos, Time, true, false, String, List, Option, none, some, arith, ◌≡◌, ◌↔◌, ◌<◌, ◌+◌, ◌*◌,
  ◌/◌, ◌%◌, inl, inr, refl, sym, ap, ◌∙◌, not, is_some, int_ltb, ltb, ◌&&◌, Bool-cases,
}
use copilot_review_mcp.Errors.{Result, ok, err, Result-cases}
use copilot_review_mcp.Github.Pages.{Gathers}
use copilot_review_mcp.Github.Review.{
  ReviewStatus, not_requested, pending, in_progress, completed, blocked, ReviewData,
}
use copilot_review_mcp.Github.Fetch.{Review, ReviewApi, get_review_data}
use copilot_review_mcp.Github.Fetch.Laws.{IsLatestReview, get_review_data-latest}
use copilot_review_mcp.Store.{Db}
use copilot_review_mcp.Store.Trigger.Settled.{IsSettled, get_latest-settles}
use copilot_review_mcp.Store.Trigger.{TriggerEntry, get_latest, update_completed_at}
use copilot_review_mcp.Tools.Reply.{output, fail_with-fails}
use copilot_review_mcp.Tools.Status.{
  Elapsed, hours, minutes, seconds, rounded, fmt_duration, StatusEnv, GetStatusInput,
  GetStatusOutput, build_status_output, status_of, complete_entry, is_blocked, is_finished,
  is_missing, status_handler,
}

-- A number of seconds written with as few parts as it needs, each in its range.
abbrev pub IsWritten : ℕ → Elapsed → Type 0
IsWritten n (hours h m s) = (0 < h) × (m < 60) × (s < 60) × (n ≡ h * 3600 + m * 60 + s)
IsWritten n (minutes m s) = (0 < m) × (m < 60) × (s < 60) × (n ≡ m * 60 + s)
IsWritten n (seconds z) = (z ≡ pos n) × (n < 60)

-- A duration that is not negative is written as the number of its seconds, rounded to the nearest: with
-- hours only where there is one, with minutes only where there is one, and with minutes and seconds
-- below 60.
pub fmt_duration-IsWritten : (d : ℕ) → IsWritten (rounded d) (fmt_duration (pos d))
unfolding fmt_duration
fmt_duration-IsWritten d =
    let n = rounded d in
    elim (Bool-cases (ltb 0 (n / 3600))) [
      | inl b ↦
          let same : fmt_duration (pos d) ≡ hours (n / 3600) (n / 60 % 60) (n % 60) =
            ground arith in
          subst (IsWritten n) (sym same) (ground arith, omega arith, omega arith, omega arith)
      | inr b ↦ elim (Bool-cases (ltb 0 (n / 60 % 60))) [
        | inl c ↦
            let same : fmt_duration (pos d) ≡ minutes (n / 60 % 60) (n % 60) = ground arith in
            subst (IsWritten n) (sym same) (ground arith, omega arith, omega arith, ground arith)
        | inr c ↦
            let same : fmt_duration (pos d) ≡ seconds (pos (n % 60)) = ground arith in
            let small : n % 60 ≡ n = ground arith in
            subst (IsWritten n) (sym same) (ap pos small, ground arith)
      ]
    ]

-- Where others leave the database alone and the update succeeds, a finished status leaves no pending
-- latest trigger; any other status changes nothing.
pub complete_entry-settles :
    (owner repo : String) (pr : ℤ) (status : ReviewStatus) (x : Option TriggerEntry) (d d' : Db)
    (u : Unit {0})
    → get_latest owner repo pr d ≡ ok x
    → complete_entry status x d ≡ (ok u, d')
    → (is_finished status ≡ true → IsSettled (get_latest owner repo pr d'))
      × (is_finished status ≡ false → d' ≡ d)
unfolding complete_entry
complete_entry-settles owner repo pr status none d d' u h e =
    let same : d ≡ d' = ground arith in
    ((λ b. subst (λ y. IsSettled (get_latest owner repo pr y)) same (inl h)), (λ b. sym same))
complete_entry-settles owner repo pr status (some x) d d' u h e =
    elim (Bool-cases (is_finished status && not (is_some x.completed_at))) [
      | inl b ↦
          let same : (update_completed_at x.id d).1 ≡ d' = ground arith in
          (
            (λ c.
                subst (λ y. IsSettled (get_latest owner repo pr y)) same
                  (get_latest-settles owner repo pr d x h)),
            (λ c. ground arith),
          )
      | inr b ↦
          let same : d ≡ d' = ground arith in
          (
            (λ c.
                let settled : is_some x.completed_at ≡ true = ground arith in
                subst (λ y. IsSettled (get_latest owner repo pr y)) same (inr (x, h, settled))),
            (λ c. sym same),
          )
    ]

-- What an output of the handler was built from.
pub status_handler-inversion :
    (e : StatusEnv) (i : GetStatusInput) (provider : Result (Result ReviewData)) (between : Db → Db)
    (db db' : Db) (now : Time) (o : GetStatusOutput)
    → status_handler e i provider between db now ≡ (output o, db')
    → (d : ReviewData) × (entry : Option TriggerEntry) × (provider ≡ ok (ok d))
      × (int_ltb d.rate_limit_remaining 10 ≡ false)
      × (get_latest i.owner i.repo i.pr db ≡ ok entry)
      × (complete_entry (status_of e d entry) entry (between db) ≡ (ok tt, db'))
      × (o ≡ build_status_output e d entry (status_of e d entry) now)
unfolding status_handler
status_handler-inversion e i provider between db db' now o h =
    elim (Bool-cases (is_missing i.owner i.repo i.pr)) [
      | inl b ↦ ground arith
      | inr b ↦ elim (Result-cases provider) [
        | inl (x, q) ↦ ground (arith, fail_with-fails (λ y. y) x o)
        | inr (err x, q) ↦ ground (arith, fail_with-fails (λ y. y) x o)
        | inr (ok d, q) ↦ elim (Bool-cases (int_ltb d.rate_limit_remaining 10)) [
          | inl c ↦ ground arith
          | inr c ↦ elim (Result-cases (get_latest i.owner i.repo i.pr db)) [
            | inl (x, g) ↦ ground arith
            | inr (entry, g) ↦
                elim (Result-cases (complete_entry (status_of e d entry) entry (between db)).0) [
                  | inl (x, r) ↦ ground arith
                  | inr (u, r) ↦ (d, entry, q, c, g, ground arith, ground arith)
                ]
          ]
        ]
      ]
    ]

is_blocked_iff : (s : ReviewStatus) → (is_blocked s ≡ true) ↔ (s ≡ blocked)
is_blocked_iff not_requested = ground arith
is_blocked_iff pending = ground arith
is_blocked_iff in_progress = ground arith
is_blocked_iff completed = ground arith
is_blocked_iff blocked = ground arith

-- Where the client answers with GetReviewData, a status that the tool puts out rests on a complete
-- reading: the reviews of all pages were read, the data holds the latest one of Copilot, the status is
-- the one that DeriveStatus derives from that data and the latest trigger, and the output says blocking
-- exactly where the status is BLOCKED.
pub status_handler-reads_all :
    (fuel : ℕ) (api : ReviewApi) (answer : Result ReviewData) (e : StatusEnv) (i : GetStatusInput)
    (between : Db → Db) (db db' : Db) (now : Time) (o : GetStatusOutput)
    → get_review_data fuel api ≡ some answer
    → status_handler e i (ok answer) between db now ≡ (output o, db')
    → (rs : List Review) × Gathers api.list_reviews 0 rs
      × (d : ReviewData) × (answer ≡ ok d)
      × IsLatestReview rs d.latest_copilot_review
      × (entry : Option TriggerEntry) × (get_latest i.owner i.repo i.pr db ≡ ok entry)
      × (o.status ≡ status_of e d entry)
      × ((o.is_blocking ≡ true) ↔ (o.status ≡ blocked))
unfolding build_status_output
status_handler-reads_all fuel api answer e i between db db' now o a h =
    let (d, entry, q, low, g, r, s) =
      status_handler-inversion e i (ok answer) between db db' now o h in
    let same : answer ≡ ok d = ground arith in
    let (rs, all, latest, skipped) = get_review_data-latest fuel api d (a ∙ ap some same) low in
    let blocking =
      subst
        (λ (y : GetStatusOutput).
          (y.status ≡ status_of e d entry) × ((y.is_blocking ≡ true) ↔ (y.status ≡ blocked)))
        (sym s) (refl, is_blocked_iff (status_of e d entry)) in
    (rs, all, d, same, latest, entry, g, blocking.0, blocking.1)

-- Where nobody else changes the database during the call, an output with a finished status leaves the
-- latest trigger of the pull request completed (or there is none), and an output with another status
-- leaves the database as it was.
pub status_handler-settles :
    (e : StatusEnv) (i : GetStatusInput) (provider : Result (Result ReviewData)) (db db' : Db)
    (now : Time) (o : GetStatusOutput)
    → status_handler e i provider (λ y. y) db now ≡ (output o, db')
    → (is_finished o.status ≡ true → IsSettled (get_latest i.owner i.repo i.pr db'))
      × (is_finished o.status ≡ false → db' ≡ db)
unfolding build_status_output
status_handler-settles e i provider db db' now o h =
    let (d, entry, q, low, g, r, s) =
      status_handler-inversion e i provider (λ y. y) db db' now o h in
    let same : o.status ≡ status_of e d entry = ground arith in
    let k = complete_entry-settles i.owner i.repo i.pr (status_of e d entry) entry db db' tt g r in
    ((λ b. k.0 (sym (ap is_finished same) ∙ b)), (λ b. k.1 (sym (ap is_finished same) ∙ b)))
