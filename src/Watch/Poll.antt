-- ===== src/Watch/Poll.antt =====
-- `pollOnce` of internal/watch/manager.go in the pieces between which other calls may run: the start
-- of a poll, GitHub's answer, the update of the trigger log, and the update under the lock. Each
-- piece that can end the worker returns true where `pollOnce` does.
use mathlib.Core.Option
use copilot_review_mcp.Common.{
  ℕ, Time, Bool, true, false, String, Option, none, some, ◌+◌, ◌||◌, ◌&&◌, leb, int_ltb, is_zero,
  is_some, not, string_eq, if◌then◌else◌,
}
use copilot_review_mcp.Common.Map.{lookup}
use copilot_review_mcp.Errors.{
  GoError, Result, ok, err, upstream_failure, is_gateway, is_canceled, is_deadline_exceeded,
}
use copilot_review_mcp.Github.Classify.{
  is_rate_limit_http_error, is_auth_error, is_gateway_auth_error,
}
use copilot_review_mcp.Github.Review.{ReviewStatus, ReviewData, derive_status}
use copilot_review_mcp.Store.Trigger.{TriggerEntry}
use copilot_review_mcp.Watch.State.{
  watching, timeout, rate_limited, failed, auth_expired, github_error, internal_error, Client,
  Watch, Manager, Env,
}
use copilot_review_mcp.Watch.Persist.{mark_poll_locked, finish_locked}
use copilot_review_mcp.Watch.Outcome.{
  watch_status_for_review, review_status_changed, auth_failure_recovery_hint, finish_state,
  keep_watching, handle_upstream_failure,
}

-- The time unless it is zero.
abbrev pub nonzero : Time → Option Time
nonzero t = if is_zero t then none else some t

abbrev pub requested_of : Option TriggerEntry → Option Time
requested_of = Option.map (λ (e : TriggerEntry). e.requested_at)

abbrev pub prev_of : Option TriggerEntry → Option String
prev_of none = none
prev_of (some e) = e.prev_review_id

-- The watch's trigger, or else the one just read.
abbrev pub linked : Option ℕ → Option TriggerEntry → Option ℕ
linked (some id) entry = some id
linked none entry = Option.map (λ (e : TriggerEntry). e.id) entry

-- What GitHub's answer led to: the end of the poll, or a status to record.
pub data Reply : Type 0 where
  ended : Bool → Reply
  answered : Time → ReviewData → Option TriggerEntry → Reply

module _ {S : Type 0} where
  -- `w.ctx.Err() != nil`.
  abbrev pub is_done : Watch → Manager S → Bool
  is_done w m = w.cancelled || m.shut_down

  module _ (env : Env S) where
    -- `pollOnce` up to the call of GetReviewData: the client to call, or none where the poll ends.
    unfoldable pub poll_begin : String → Time → Manager S → Option Client × Manager S
    poll_begin id now m = elim (lookup id m.watches_by_id) [
      | none ↦ (none, m)
      | some w ↦
          if leb (w.started_at + m.max_watch_duration) now
          then (
            none,
            finish_state env id now timeout none (env.format.exceeded m.max_watch_duration) false
                none m,
          )
          else elim w.client [
            | some c ↦ (some c, m)
            | none ↦ (
              none,
              finish_state env id now failed (some internal_error) "watch client is unavailable"
                  false none m,
            )
          ]
    ]

    -- The branch of `pollOnce` for an error of GetReviewData.
    unfoldable pub poll_error : Watch → Time → GoError → Manager S → Bool × Manager S
    poll_error w now e m =
        if is_canceled e && is_done w m
        then (true, m)
        else if is_deadline_exceeded e
        then (
          true,
          if is_done w m
              then m
              else finish_state env w.id now failed (some github_error)
                  (env.format.timed_out m.poll_timeout) true none m,
        )
        else if is_rate_limit_http_error e
        then (true, finish_state env w.id now rate_limited none e.text true none m)
        else if is_gateway upstream_failure e
        then handle_upstream_failure env w.id now e.text m
        else if is_auth_error (some e) || is_gateway_auth_error e
        then (
          true,
          finish_state env w.id now failed (some auth_expired) e.text true
              (some (auth_failure_recovery_hint e)) m,
        )
        else (true, finish_state env w.id now failed (some github_error) e.text true none m)

    -- The latest trigger of the watch's pull request.
    unfoldable pub read_entry : Watch → Manager S → Result (Option TriggerEntry)
    read_entry w m = elim m.db [
      | none ↦ ok none
      | some s ↦ env.store.get_latest w.key.owner w.key.repo w.key.pr s
    ]

    -- GetReviewData's answer, and the read of the trigger log.
    unfoldable pub poll_reply : Watch → Time → Result ReviewData → Manager S → Reply × Manager S
    poll_reply w now (err e) m = let (b, m') = poll_error w now e m in (ended b, m')
    poll_reply w now (ok d) m = elim (read_entry w m) [
      | ok entry ↦ (answered now d entry, m)
      | err e ↦ (
        ended true,
        finish_state env w.id now failed (some internal_error) (env.format.trigger_read_failed e)
            true none m,
      )
    ]

    -- The review status that a poll records.
    unfoldable pub status_of : ReviewData → Option TriggerEntry → ReviewStatus
    status_of d entry = derive_status env.format.format_int d (requested_of entry) (prev_of entry)

    -- `data.RateLimitRemaining < 10`.
    abbrev pub is_low : ReviewData → Bool
    is_low d = int_ltb d.rate_limit_remaining 10

    -- `UpdateCompletedAt` before a completed review is recorded: whether the poll goes on.
    unfoldable pub poll_complete :
        String → Time → ReviewData → Option TriggerEntry → Manager S → Bool × Manager S
    poll_complete id now d none m = (true, m)
    poll_complete id now d (some entry) m = elim m.db [
      | none ↦ (true, m)
      | some s ↦
          if not (is_low d)
            && is_some (watch_status_for_review (status_of d (some entry)))
            && not (is_some entry.completed_at)
          then (let (r, s') = env.store.update_completed_at entry.id s in
              let m' = record m { db = some s' } in
              elim r [
                | ok _ ↦ (true, m')
                | err e ↦ (
                  false,
                  finish_state env id now failed (some internal_error)
                      (env.format.completion_failed e) true none m',
                )
              ])
          else (true, m)
    ]

    -- The fields that every recorded poll sets.
    unfoldable pub polled : Time → ReviewStatus → Watch → Watch
    unfolding mark_poll_locked
    polled now status w =
        let v = mark_poll_locked now w in
        record v { review_status = some status; last_error = none }

    -- The last part of `pollOnce`, under the lock, on a watch that is not terminal.
    unfoldable pub record_poll :
        Time → ReviewData → Option TriggerEntry → Watch → Manager S → Bool × Manager S
    record_poll now d entry w m =
        let status = status_of d entry in
        let v = polled now status w in
        if is_low d
        then (
          true,
          finish_locked env (record v { rate_limit_reset_at = nonzero d.rate_limit_reset })
              rate_limited none now
              (env.format.rate_limit_low d.rate_limit_remaining (nonzero d.rate_limit_reset)) none
              m,
        )
        else (let u = record v {
          rate_limit_reset_at = none;
          trigger_log_id = linked w.trigger_log_id entry;
        } in
            elim (watch_status_for_review status) [
              | some s ↦ (true, finish_locked env u s none now "" none m)
              | none ↦
                  keep_watching env now (review_status_changed w.review_status (some status))
                    (record u {
                      upstream_failure_count = 0;
                      status = watching;
                      worker_running = true;
                    })
                    m
            ])

    unfoldable pub poll_record :
        String → Time → ReviewData → Option TriggerEntry → Manager S → Bool × Manager S
    poll_record id now d entry m = elim (lookup id m.watches_by_id) [
      | none ↦ (true, m)
      | some w ↦ if w.terminal then (true, m) else record_poll now d entry w m
    ]

    -- `pollOnce` where no other call runs meanwhile; `answer` is GitHub.
    unfoldable pub poll_once :
        String → Time → Time → (Client → Result ReviewData) → Manager S → Bool × Manager S
    poll_once id now later answer m =
        let (c, m₁) = poll_begin id now m in
        elim (lookup id m.watches_by_id) [
          | none ↦ (true, m₁)
          | some w ↦ elim c [
            | none ↦ (true, m₁)
            | some client ↦
                let (r, m₂) = poll_reply w later (answer client) m₁ in
                elim r [
                  | ended b ↦ (b, m₂)
                  | answered t d entry ↦
                      let (go, m₃) = poll_complete id t d entry m₂ in
                      if go then poll_record id t d entry m₃ else (true, m₃)
                ]
          ]
        ]
