-- ===== src/Tools/Watches/View.antt =====
-- The view of a watch in internal/tools/watch.go: what the caller should do next, and when.
use mathlib.Core.Option
use copilot_review_mcp.Common.{
  ℕ, ℤ, Time, second, Bool, false, String, Option, none, some, ◌+◌, ◌-◌, ◌*◌, ◌/◌, ◌==◌, ◌||◌,
  string_eq, ltb, leb, nat_beq, if◌then◌else◌,
}
use copilot_review_mcp.Watch.State.{
  Snapshot, status_text, watching, completed, blocked, timeout, rate_limited, failed, stale,
  cancelled, reason_text, auth_expired,
}

pub data NextAction : Type 0 where
  poll_after read_review_threads start_new_watch : NextAction
  reauth_and_start_new_watch check_failure : NextAction

-- `ReviewWatchView`.
pub record ReviewWatchView : Type 0 where
  pub watch_id : String
  pub owner : String
  pub repo : String
  pub pr : ℤ
  pub resource_uri : Option String
  pub watch_status : String
  pub review_status : Option String
  pub failure_reason : Option String
  pub recommended_next_action : NextAction
  pub next_poll_seconds : Option ℕ
  pub terminal : Bool
  pub worker_running : Bool
  pub polls_done : ℕ
  pub started_at : String
  pub updated_at : String
  pub last_polled_at : Option String
  pub completed_at : Option String
  pub stale_at : Option String
  pub rate_limit_reset_at : Option String
  pub last_error : Option String
  pub recovery_hint : Option String

-- `durationSecondsCeil` of a duration that is not negative.
unfoldable pub duration_seconds_ceil : ℕ → ℕ
duration_seconds_ceil d =
    if nat_beq d 0
    then 1
    else (let seconds = (d + second - 1) / second in if ltb seconds 1 then 1 else seconds)

-- `pollInterval`, or its default.
abbrev pub interval_or_default : ℕ → ℕ
interval_or_default interval = if nat_beq interval 0 then 90 * second else interval

-- `secondsUntilNextPoll`.
unfoldable pub seconds_until_next_poll : Option Time → ℕ → Time → ℕ
seconds_until_next_poll none interval now = 1
seconds_until_next_poll (some polled) interval now =
    let due = polled + interval_or_default interval in
    if leb due now then 1 else duration_seconds_ceil (due - now)

-- `secondsUntilRateLimitReset`.
unfoldable pub seconds_until_rate_limit_reset : Option Time → ℕ → Time → ℕ
seconds_until_rate_limit_reset none fallback now = duration_seconds_ceil fallback
seconds_until_rate_limit_reset (some reset) fallback now =
    if leb reset now then 1 else duration_seconds_ceil (reset - now)

abbrev pub is_auth_expired : Option String → Bool
is_auth_expired none = false
is_auth_expired (some r) = r == reason_text auth_expired

-- `deriveRecommendedNextAction`.
unfoldable pub derive_recommended_next_action : Snapshot → ℕ → Time → NextAction × Option ℕ
derive_recommended_next_action s interval now =
    let status = s.watch_status in
    let poll : NextAction × Option ℕ =
      (poll_after, some (seconds_until_next_poll s.last_polled_at interval now)) in
    if status == status_text watching
    then poll
    else if status == status_text completed || status == status_text blocked
    then (read_review_threads, none)
    else if status == status_text rate_limited
    then (start_new_watch, some (seconds_until_rate_limit_reset s.rate_limit_reset_at interval now))
    else if status == status_text cancelled
        || status == status_text stale
        || status == status_text timeout
    then (start_new_watch, none)
    else if status == status_text failed
    then if is_auth_expired s.failure_reason
      then (reauth_and_start_new_watch, none)
      else (check_failure, none)
    else if s.terminal
    then (check_failure, none)
    else poll

-- `buildReviewWatchView`; `rfc3339` renders a time.
unfoldable pub build_review_watch_view : (Time → String) → Snapshot → ℕ → Time → ReviewWatchView
build_review_watch_view rfc3339 s interval now =
    let next = derive_recommended_next_action s interval now in
    record {
      watch_id = s.watch_id;
      owner = s.owner;
      repo = s.repo;
      pr = s.pr;
      resource_uri = s.resource_uri;
      watch_status = s.watch_status;
      review_status = s.review_status;
      failure_reason = s.failure_reason;
      recommended_next_action = next.0;
      next_poll_seconds = next.1;
      terminal = s.terminal;
      worker_running = s.worker_running;
      polls_done = s.polls_done;
      started_at = rfc3339 s.started_at;
      updated_at = rfc3339 s.updated_at;
      last_polled_at = Option.map rfc3339 s.last_polled_at;
      completed_at = Option.map rfc3339 s.completed_at;
      stale_at = Option.map rfc3339 s.stale_at;
      rate_limit_reset_at = Option.map rfc3339 s.rate_limit_reset_at;
      last_error = s.last_error;
      recovery_hint = s.recovery_hint;
    }
