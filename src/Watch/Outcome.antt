-- ===== src/Watch/Outcome.antt =====
-- How a poll of internal/watch/manager.go ends a watch or keeps it: `finishState`,
-- `handleUpstreamFailure` and the helpers of `pollOnce`.
use copilot_review_mcp.Common.{
  Time, Bool, true, false, String, Option, none, some, ◌+◌, leb, not, string_eq, if◌then◌else◌,
}
use copilot_review_mcp.Common.Map.{lookup}
use copilot_review_mcp.Errors.{GoError, subject_gone, rotation_failed, is_gateway}
use copilot_review_mcp.Github.Review.{ReviewStatus, not_requested, pending, in_progress}
use copilot_review_mcp.Watch.State.{
  Status, watching, failed, FailureReason, auth_expired, Watch, Manager, Env,
}
use copilot_review_mcp.Watch.Persist.{
  mark_poll_locked, notify, persist_or_degrade_locked, finish_locked,
}

-- `watchStatusForReview`.
unfoldable pub watch_status_for_review : ReviewStatus → Option Status
watch_status_for_review ReviewStatus.completed = some Status.completed
watch_status_for_review ReviewStatus.blocked = some Status.blocked
watch_status_for_review _ = none

abbrev same_review_status : ReviewStatus → ReviewStatus → Bool
same_review_status not_requested not_requested = true
same_review_status pending pending = true
same_review_status in_progress in_progress = true
same_review_status ReviewStatus.completed ReviewStatus.completed = true
same_review_status ReviewStatus.blocked ReviewStatus.blocked = true
same_review_status _ _ = false

-- `reviewStatusChanged`.
unfoldable pub review_status_changed : Option ReviewStatus → Option ReviewStatus → Bool
review_status_changed none none = false
review_status_changed none (some b) = true
review_status_changed (some a) none = true
review_status_changed (some a) (some b) = not (same_review_status a b)

-- `authFailureRecoveryHint`.
unfoldable pub auth_failure_recovery_hint : GoError → String
auth_failure_recovery_hint e =
    if is_gateway subject_gone e
    then "Re-authenticate: the gateway has no cached token for this user. A fresh client request will re-seed the gateway cache."
    else if is_gateway rotation_failed e
    then "Re-authenticate: your GitHub refresh token was rejected during rotation and cannot be renewed automatically."
    else "Re-authenticate with GitHub to continue watching."

module _ {S : Type 0} (env : Env S) where
  -- `finishState`, with `finishFailureWithPoll` and its kin.
  unfoldable pub finish_state :
      String
      → Time
      → Status
      → Option FailureReason
      → String
      → Bool
      → Option String
      → Manager S
      → Manager S
  finish_state id now status reason err_text counted hint m = elim (lookup id m.watches_by_id) [
    | none ↦ m
    | some w ↦
        if w.terminal
        then m
        else finish_locked env
            (if counted then mark_poll_locked now w else record w { updated_at = now }) status
            reason now err_text hint m
  ]

  -- The two tails of `handleUpstreamFailure`, on the watch with its new count.
  unfoldable pub escalate : Time → String → Watch → Manager S → Manager S
  escalate now err_text w m =
      let count = w.upstream_failure_count in
      finish_locked env (mark_poll_locked now w) failed (some auth_expired) now
        (env.format.upstream_persisted count err_text) (some (env.format.upstream_hint count)) m

  -- A poll that goes on persists the watch; a failure to do so ends it and is notified.
  unfoldable pub keep_watching : Time → Bool → Watch → Manager S → Bool × Manager S
  keep_watching now announce w m =
      let (e, m') = persist_or_degrade_locked env w watching now m in
      elim e [
        | some _ ↦ (true, notify w.resource_uri m')
        | none ↦ (false, if announce then notify w.resource_uri m' else m')
      ]

  -- `handleUpstreamFailure`.
  unfoldable pub handle_upstream_failure : String → Time → String → Manager S → Bool × Manager S
  handle_upstream_failure id now err_text m = elim (lookup id m.watches_by_id) [
    | none ↦ (true, m)
    | some w ↦
        let v = record w { upstream_failure_count = w.upstream_failure_count + 1 } in
        if w.terminal
        then (true, m)
        else if leb m.upstream_failure_threshold v.upstream_failure_count
        then (true, escalate now err_text v m)
        else keep_watching now false
            (let u = mark_poll_locked now v in record u { last_error = some err_text }) m
  ]
