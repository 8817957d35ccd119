-- ===== src/Watch/Cancel.antt =====
-- `CancelByID`, `CancelLatest`, `Close` and `markStale` of internal/watch/manager.go.
use copilot_review_mcp.Common.{
  ℕ, Time, Bool, true, false, String, [], ◌∷◌, Option, none, some, ◌==◌, ◌||◌, string_eq,
  is_positive, not, if◌then◌else◌,
}
use copilot_review_mcp.Common.Map.{Map, lookup}
use copilot_review_mcp.Errors.{GoError, Result, ok, err, plain}
use copilot_review_mcp.Watch.State.{
  cancelled, stale, WatchKey, key_eq, Watch, Manager, Env, Snapshot, snapshot_from_state,
  snapshot_from_review_watch_entry,
}
use copilot_review_mcp.Watch.Persist.{deactivate, persist_or_degrade_locked, finish_locked}
use copilot_review_mcp.Watch.Reads.{latest_watch}

-- `CancelResult`; an empty result has no snapshot.
pub record CancelResult : Type 0 where
  pub snapshot : Option Snapshot
  pub found : Bool
  pub cancelled : Bool

abbrev pub nothing_found : CancelResult
nothing_found = record { snapshot = none; found = false; cancelled = false }

abbrev pub found_stopped : Snapshot → CancelResult
found_stopped s = record { snapshot = some s; found = true; cancelled = false }

abbrev id_required : GoError
id_required = plain "login and watch_id are required"

abbrev key_required : GoError
key_required = plain "login, owner, repo, and pr are required"

module _ {S : Type 0} where
  -- The snapshot of a watch as it now stands in the map.
  abbrev pub snapshot_of : String → Manager S → Option Snapshot
  snapshot_of id m = elim (lookup id m.watches_by_id) [
    | none ↦ none
    | some w ↦ some (snapshot_from_state w)
  ]

  module _ (env : Env S) where
    -- `UpdateCompletedAt` of a watch's trigger after the lock is given up; an error is only logged.
    unfoldable pub complete_trigger : Option ℕ → Manager S → Manager S
    complete_trigger none m = m
    complete_trigger (some id) m = elim m.db [
      | none ↦ m
      | some s ↦ record m { db = some (env.store.update_completed_at id s).1 }
    ]

    -- The branch of both cancellations for a watch in memory.
    unfoldable pub cancel_live : Time → Watch → Manager S → CancelResult × Manager S
    cancel_live now w m =
        if w.terminal
        then (found_stopped (snapshot_from_state w), m)
        else (let m' =
              finish_locked env w cancelled none now "watch was cancelled manually" none m in
            (
              record { snapshot = snapshot_of w.id m'; found = true; cancelled = true },
              complete_trigger w.trigger_log_id m',
            ))

    -- `CancelByID`.
    unfoldable pub cancel_by_id :
        String → String → Time → Manager S → Result CancelResult × Manager S
    cancel_by_id login id now m =
        if login == "" || id == "" then (err id_required, m) else elim (lookup id m.watches_by_id) [
          | some w ↦
              if w.key.login == login
              then (let (r, m') = cancel_live now w m in (ok r, m'))
              else (ok nothing_found, m)
          | none ↦ elim m.db [
            | none ↦ (ok nothing_found, m)
            | some s ↦ elim (env.store.get_review_watch_by_id id s) [
              | err e ↦ (err (env.format.wrapped "failed to load review_watch: %w" e), m)
              | ok none ↦ (ok nothing_found, m)
              | ok (some e) ↦
                  if e.github_login == login
                  then (ok (found_stopped (snapshot_from_review_watch_entry e)), m)
                  else (ok nothing_found, m)
            ]
          ]
        ]

    -- The watch that an active key names, terminal or not.
    unfoldable pub listed_watch : WatchKey → Manager S → Option Watch
    listed_watch key m = elim (lookup key m.active_by_key) [
      | none ↦ none
      | some id ↦ lookup id m.watches_by_id
    ]

    -- The rest of `CancelLatest` where no watch is active.
    unfoldable pub cancel_inactive : WatchKey → Manager S → Result CancelResult × Manager S
    cancel_inactive key m = elim (latest_watch key m) [
      | some w ↦ (ok (found_stopped (snapshot_from_state w)), m)
      | none ↦ elim m.db [
        | none ↦ (ok nothing_found, m)
        | some s ↦ elim (env.store.get_latest_review_watch key.login key.owner key.repo key.pr s) [
          | err e ↦ (err (env.format.wrapped "failed to load latest review_watch: %w" e), m)
          | ok none ↦ (ok nothing_found, m)
          | ok (some e) ↦ (ok (found_stopped (snapshot_from_review_watch_entry e)), m)
        ]
      ]
    ]

    -- `CancelLatest`; an active entry without its watch is dropped.
    unfoldable pub cancel_latest : WatchKey → Time → Manager S → Result CancelResult × Manager S
    cancel_latest key now m =
        if key.login == "" || key.owner == "" || key.repo == "" || not (is_positive key.pr)
        then (err key_required, m)
        else elim (listed_watch key m) [
          | some w ↦ let (r, m') = cancel_live now w m in (ok r, m')
          | none ↦ cancel_inactive key (deactivate key m)
        ]

    -- `markStale`.
    unfoldable pub mark_stale : String → String → Time → Manager S → Manager S
    mark_stale id err_text now m = elim (lookup id m.watches_by_id) [
      | none ↦ m
      | some w ↦ if w.terminal then m else finish_locked env w stale none now err_text none m
    ]

    -- The watch that `Close` persists.
    unfoldable pub close_watch : Time → Watch → Watch
    close_watch now w = record w {
      status = stale;
      terminal = true;
      worker_running = false;
      updated_at = now;
      completed_at = some now;
      stale_at = some now;
      token = "";
      client = none;
      last_error = some "watch manager closed before the watch could finish";
      cancelled = true;
    }

    -- One round of the loop of `Close`; an entry that was deleted meanwhile is not reached.
    unfoldable pub close_one : Time → WatchKey → Manager S → Manager S
    unfolding close_watch
    close_one now key m = elim (listed_watch key m) [
      | none ↦ deactivate key m
      | some w ↦
          if w.terminal
          then deactivate key m
          else deactivate key (persist_or_degrade_locked env (close_watch now w) stale now m).1
    ]

    unfoldable pub close_all : Time → Map WatchKey String → Manager S → Manager S
    unfolding close_one
    close_all now [] m = m
    close_all now ((key, id) ∷ rest) m = close_all now rest (close_one now key m)

    -- `Close`.
    unfoldable pub close : Time → Manager S → Manager S
    close now m =
        if m.closed
        then m
        else (let m' = close_all now m.active_by_key (record m { closed = true }) in
            record m' { shut_down = true })
