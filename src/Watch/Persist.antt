-- ===== src/Watch/Persist.antt =====
-- How internal/watch/manager.go records and ends a watch. A function that ends in `_locked` runs
-- under the manager's mutex.
use mathlib.Core.Option
use copilot_review_mcp.Common.{
  Time, true, false, String, ◌∷◌, Option, none, some, ◌+◌, ◌==◌, string_eq, not, if◌then◌else◌,
}
use copilot_review_mcp.Common.Map.{insert, delete}
use copilot_review_mcp.Errors.{GoError, Result, ok, err}
use copilot_review_mcp.Store.Watches.{ReviewWatchEntry}
use copilot_review_mcp.Watch.State.{
  Status, stale, failed, FailureReason, internal_error, status_text, reason_text, review_text,
  WatchKey, key_eq, Watch, Manager, Env,
}

-- The entry that `persistLocked` builds.
unfoldable pub entry_of : Watch → ReviewWatchEntry
entry_of w = record {
  id = w.id;
  github_login = w.key.login;
  owner = w.key.owner;
  repo = w.key.repo;
  pr = w.key.pr;
  trigger_log_id = w.trigger_log_id;
  resource_uri = w.resource_uri;
  watch_status = status_text w.status;
  review_status = Option.map review_text w.review_status;
  failure_reason = Option.map reason_text w.failure_reason;
  is_active = not w.terminal;
  started_at = w.started_at;
  updated_at = w.updated_at;
  completed_at = w.completed_at;
  stale_at = w.stale_at;
  last_error = w.last_error;
  rate_limit_reset_at = w.rate_limit_reset_at;
  recovery_hint = w.recovery_hint;
}

-- `markPollLocked`.
unfoldable pub mark_poll_locked : Time → Watch → Watch
mark_poll_locked now w = record w {
  polls_done = w.polls_done + 1;
  updated_at = now;
  last_polled_at = some now;
}

-- What `persistOrDegradeLocked` makes of a watch that could not be written.
unfoldable pub degrade : String → Status → Time → Watch → Watch
degrade message intended now w =
    let v = record w {
      updated_at = now;
      completed_at = elim w.completed_at [ none ↦ some now | some t ↦ some t ];
      last_error = some message;
      terminal = true;
      worker_running = false;
      token = "";
      client = none;
      cancelled = true;
    } in
    elim intended [
      | stale ↦ record v {
        status = stale;
        failure_reason = none;
        stale_at = elim w.stale_at [ none ↦ some now | some t ↦ some t ];
      }
      | _ ↦ record v { status = failed; failure_reason = some internal_error }
    ]

-- The fields that `finishLocked` sets; its context is cancelled under the same lock.
unfoldable pub finish :
    Status → Option FailureReason → Time → String → Option String → Watch → Watch
finish status reason now err_text hint w = record w {
  status = status;
  failure_reason = reason;
  recovery_hint = hint;
  terminal = true;
  worker_running = false;
  updated_at = now;
  completed_at = some now;
  stale_at = elim status [ stale ↦ some now | _ ↦ w.stale_at ];
  token = "";
  client = none;
  cancelled = true;
  last_error = if err_text == "" then w.last_error else some err_text;
}

module _ {S : Type 0} where
  -- The watch as it stands in the map.
  unfoldable pub put_watch : Watch → Manager S → Manager S
  put_watch w m = record m { watches_by_id = insert w.id w m.watches_by_id }

  -- `delete(m.activeByKey, key)`.
  unfoldable pub deactivate : WatchKey → Manager S → Manager S
  deactivate key m = record m { active_by_key = delete key m.active_by_key }

  -- `go m.notifyResourceUpdated(uri)`, if there is a callback and a URI.
  unfoldable pub notify : Option String → Manager S → Manager S
  notify none m = m
  notify (some uri) m = if m.notifies then record m { notified = uri ∷ m.notified } else m

  module _ (env : Env S) where
    -- `persistLocked`.
    unfoldable pub persist_locked : Watch → Manager S → Result (Unit {0}) × Manager S
    persist_locked w m = elim m.db [
      | none ↦ (ok tt, m)
      | some s ↦
          let (r, s') = env.store.upsert_review_watch (entry_of w) s in
          (r, record m { db = some s' })
    ]

    -- The rest of `persistOrDegradeLocked`, by the result of `persistLocked`: the error, and the
    -- manager with the watch in the map.
    unfoldable pub degrade_on :
        Watch → Status → Time → Result (Unit {0}) → Manager S → Option GoError × Manager S
    degrade_on w intended now (ok _) m = (none, put_watch w m)
    degrade_on w intended now (err e) m = (
      some e,
      put_watch (degrade (env.format.persist_failed intended e) intended now w)
          (deactivate w.key m),
    )

    -- `persistOrDegradeLocked`.
    unfoldable pub persist_or_degrade_locked :
        Watch → Status → Time → Manager S → Option GoError × Manager S
    persist_or_degrade_locked w intended now m =
        let (r, m') = persist_locked w m in degrade_on w intended now r m'

    -- `finishLocked`.
    unfoldable pub finish_locked :
        Watch
        → Status
        → Option FailureReason
        → Time
        → String
        → Option String
        → Manager S
        → Manager S
    finish_locked w status reason now err_text hint m =
        let v = finish status reason now err_text hint w in
        notify w.resource_uri (persist_or_degrade_locked v status now (deactivate w.key m)).1
