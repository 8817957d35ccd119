-- ===== src/Tools/Status.antt =====
-- internal/tools/status.go, and `buildStatusOutput` of internal/tools/wait.go. The client's answer is
-- a parameter; `StatusEnv` renders texts. A status is the constructor of its text.
pub mod Laws
use mathlib.Core.Option
use copilot_review_mcp.Common.{
  ℕ, zero, suc, ℤ, pos, negsuc, Time, second, Bool, true, false, String, Option, none, some, ◌==◌,
  ◌||◌, ◌&&◌, ◌+◌, ◌-◌, ◌*◌, ◌/◌, ◌%◌, string_eq, is_positive, int_ltb, ltb, leb, is_some, not,
  if◌then◌else◌,
}
use copilot_review_mcp.Errors.{GoError, Result, ok, err}
use copilot_review_mcp.Github.Review.{
  ReviewStatus, completed, blocked, ReviewData, PullRequestReview, derive_status,
}
use copilot_review_mcp.Store.{Db}
use copilot_review_mcp.Store.Trigger.{TriggerEntry, get_latest, update_completed_at}
use copilot_review_mcp.Watch.Poll.{requested_of, prev_of}
use copilot_review_mcp.Tools.Reply.{ToolReply, output, failure, fail_with}

pub record GetStatusInput : Type 0 where
  pub owner : String
  pub repo : String
  pub pr : ℤ

-- The arguments of the format that `fmtDuration` chooses.
pub data Elapsed : Type 0 where
  hours : ℕ → ℕ → ℕ → Elapsed
  minutes : ℕ → ℕ → Elapsed
  seconds : ℤ → Elapsed

pub record GetStatusOutput : Type 0 where
  pub requested : Bool
  pub status : ReviewStatus
  pub trigger : Option String
  pub is_blocking : Bool
  pub last_review_at : Option String
  pub elapsed_since_request : Option Elapsed

pub record StatusEnv : Type 0 where
  pub format_int : ℤ → String
  pub rfc3339 : Time → String
  pub error : String → GoError
  pub wrapped : String → GoError → GoError

-- `d.Round(time.Second)` of a duration that is not negative, in seconds.
abbrev pub rounded : ℕ → ℕ
rounded d = (d + 500000000) / second

-- The negative of a number.
abbrev pub minus : ℕ → ℤ
minus zero = pos 0
minus (suc n) = negsuc n

-- `fmtDuration`; a duration in nanoseconds. Hours, minutes and seconds are rounded towards zero, so
-- that those of a negative duration are not positive.
unfoldable pub fmt_duration : ℤ → Elapsed
fmt_duration (pos d) =
    let n = rounded d in
    if ltb 0 (n / 3600)
    then hours (n / 3600) (n / 60 % 60) (n % 60)
    else if ltb 0 (n / 60 % 60)
    then minutes (n / 60 % 60) (n % 60)
    else seconds (pos (n % 60))
fmt_duration (negsuc d) = seconds (minus (rounded (d + 1) % 60))

-- `time.Since(t)` at a time.
abbrev pub since : Time → Time → ℤ
since now t = if leb t now then pos (now - t) else negsuc (t - now - 1)

abbrev pub is_blocked : ReviewStatus → Bool
is_blocked blocked = true
is_blocked _ = false

-- The condition on a status to mark the trigger as completed.
abbrev pub is_finished : ReviewStatus → Bool
is_finished completed = true
is_finished blocked = true
is_finished _ = false

abbrev pub submitted_at_of : ReviewData → Option Time
submitted_at_of d = elim d.latest_copilot_review [ none ↦ none | some r ↦ r.submitted_at ]

abbrev pub trigger_of : ReviewData → Option TriggerEntry → Option String
trigger_of d none = if d.is_copilot_in_reviewers then some "AUTO" else none
trigger_of d (some entry) = some entry.trigger

-- `buildStatusOutput`, and the output of the status tool.
unfoldable pub build_status_output :
    StatusEnv → ReviewData → Option TriggerEntry → ReviewStatus → Time → GetStatusOutput
build_status_output e d entry status now = record {
  requested = d.is_copilot_in_reviewers || is_some d.latest_copilot_review;
  status = status;
  trigger = trigger_of d entry;
  is_blocking = is_blocked status;
  last_review_at = Option.map e.rfc3339 (submitted_at_of d);
  elapsed_since_request =
      Option.map (λ (x : TriggerEntry). fmt_duration (since now x.requested_at)) entry;
}

-- The status from the data and the latest entry.
abbrev pub status_of : StatusEnv → ReviewData → Option TriggerEntry → ReviewStatus
status_of e d entry = derive_status e.format_int d (requested_of entry) (prev_of entry)

-- The update of completed_at.
unfoldable pub complete_entry : ReviewStatus → Option TriggerEntry → Db → Result (Unit {0}) × Db
complete_entry status none db = (ok tt, db)
complete_entry status (some entry) db =
    if is_finished status && not (is_some entry.completed_at)
    then update_completed_at entry.id db
    else (ok tt, db)

-- The guard on the three inputs that all tools of a pull request share.
abbrev pub is_missing : String → String → ℤ → Bool
is_missing owner repo pr = owner == "" || repo == "" || not (is_positive pr)

-- `statusHandler`: `provider` is what the client provider returns, a client's answer for the review
-- data; `between` is what others do to the database before the update.
unfoldable pub status_handler :
    StatusEnv
    → GetStatusInput
    → Result (Result ReviewData)
    → (Db → Db)
    → Db
    → Time
    → ToolReply GetStatusOutput × Db
status_handler e i provider between db now =
    if is_missing i.owner i.repo i.pr
    then (failure (e.error "owner, repo, and pr are required"), db)
    else elim provider [
      | err x ↦ (fail_with (λ y. y) x, db)
      | ok (err x) ↦ (fail_with (λ y. y) x, db)
      | ok (ok d) ↦
          if int_ltb d.rate_limit_remaining 10
          then (
            failure (e.error "GitHub API rate limit too low (%d remaining); retry after %s"),
            db,
          )
          else elim (get_latest i.owner i.repo i.pr db) [
            | err x ↦ (failure x, db)
            | ok entry ↦
                let status = status_of e d entry in
                let (r, db') = complete_entry status entry (between db) in
                elim r [
                  | err x ↦ (failure (e.wrapped "failed to update completed_at: %w" x), db')
                  | ok u ↦ (output (build_status_output e d entry status now), db')
                ]
          ]
    ]
