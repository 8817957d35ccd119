-- ===== src/Watch/Start.antt =====
-- `NewManager` and `(*Manager).Start` of internal/watch/manager.go. The times are what the calls of
-- `m.now` return.
use mathlib.Core.Option
use copilot_review_mcp.Common.{
  ℕ, ℤ, pos, negsuc, Time, second, Bool, true, false, String, [], Option, none, some, ◌+◌, ◌*◌,
  ◌==◌, ◌||◌, ◌&&◌, string_eq, is_positive, is_some, not, if◌then◌else◌,
}
use copilot_review_mcp.Common.Map.{lookup, insert}
use copilot_review_mcp.Errors.{GoError, Result, ok, err, plain}
use copilot_review_mcp.Store.Trigger.{TriggerEntry}
use copilot_review_mcp.Watch.State.{
  watching, WatchKey, key_eq, Watch, Manager, Env, Snapshot, StartInput, snapshot_from_state,
}
use copilot_review_mcp.Watch.Persist.{persist_locked, put_watch, deactivate}

-- `Options`, less the functions: durations in nanoseconds.
pub record Options : Type 0 where
  pub poll_interval : ℤ
  pub poll_timeout : ℤ
  pub max_watch_duration : ℤ
  pub upstream_failure_threshold : ℤ
  pub notifies : Bool

abbrev or_default : ℤ → ℕ → ℕ
or_default (pos n) d = if is_positive (pos n) then n else d
or_default (negsuc n) d = d

abbrev pub closed_error : GoError
closed_error = plain "watch manager is closed"

abbrev required_error : GoError
required_error = plain "login, token, owner, repo, and pr are required"

-- The watch that `Start` creates.
unfoldable pub new_watch : String → WatchKey → Option ℕ → String → String → Time → Bool → Watch
new_watch id key trigger_log_id uri token now cancelled = record {
  id = id;
  key = key;
  trigger_log_id = trigger_log_id;
  resource_uri = some uri;
  token = token;
  cancelled = cancelled;
  client = some (record { token = token; login = key.login });
  status = watching;
  review_status = none;
  failure_reason = none;
  terminal = false;
  worker_running = true;
  polls_done = 0;
  started_at = now;
  updated_at = now;
  completed_at = none;
  stale_at = none;
  last_polled_at = none;
  last_error = none;
  rate_limit_reset_at = none;
  upstream_failure_count = 0;
  recovery_hint = none;
}

-- The watch that `Start` reuses, with the token and the trigger it now has.
unfoldable pub refresh : String → Option ℕ → Time → Watch → Watch
refresh token trigger now w =
    let linked = not (is_some w.trigger_log_id) && is_some trigger in
    let v = if linked then record w { trigger_log_id = trigger; updated_at = now } else w in
    if w.token == token then v else record v {
      token = token;
      client = some (record { token = token; login = w.key.login });
      upstream_failure_count = 0;
      last_error = none;
      recovery_hint = none;
      updated_at = now;
    }

-- `tokenChanged || triggerLinked`.
abbrev pub is_changed : String → Option ℕ → Watch → Bool
is_changed token trigger w =
    not (w.token == token) || (not (is_some w.trigger_log_id) && is_some trigger)

module _ {S : Type 0} where
  -- `NewManager`.
  unfoldable pub new_manager : Option S → Options → Manager S
  new_manager db o = record {
    db = db;
    poll_interval = or_default o.poll_interval (90 * second);
    poll_timeout = or_default o.poll_timeout (30 * second);
    max_watch_duration = or_default o.max_watch_duration (7200 * second);
    upstream_failure_threshold = or_default o.upstream_failure_threshold 5;
    notifies = o.notifies;
    notified = [];
    shut_down = false;
    id_seq = 0;
    watches_by_id = [];
    active_by_key = [];
    latest_by_key = [];
    closed = false;
  }

  -- The watch of an active key that is not terminal.
  unfoldable pub active_watch : WatchKey → Manager S → Option Watch
  active_watch key m = elim (lookup key m.active_by_key) [
    | none ↦ none
    | some id ↦ elim (lookup id m.watches_by_id) [
      | none ↦ none
      | some w ↦ if w.terminal then none else some w
    ]
  ]

  module _ (env : Env S) where
    -- The trigger_log entry's id, read before the lock is taken.
    unfoldable pub read_trigger : StartInput → Manager S → Result (Option ℕ)
    read_trigger i m = elim m.db [
      | none ↦ ok none
      | some s ↦ elim (env.store.get_latest i.owner i.repo i.pr s) [
        | err e ↦ err (env.format.wrapped "failed to read trigger_log: %w" e)
        | ok entry ↦ ok (Option.map (λ (t : TriggerEntry). t.id) entry)
      ]
    ]

    persist_error : GoError → GoError
    persist_error = env.format.wrapped "failed to persist review_watch: %w"

    -- The branch of `Start` for a watch that is already active.
    unfoldable pub reuse :
        StartInput → Option ℕ → Time → Watch → Manager S → Result (Snapshot × Bool) × Manager S
    unfolding persist_error
    reuse i trigger now w m =
        let v = refresh i.token trigger now w in
        let m' = put_watch v m in
        if is_changed i.token trigger w
        then (let (r, m'') = persist_locked env v m' in
            elim r [
              | err e ↦ (err (persist_error e), m'')
              | ok _ ↦ (ok (snapshot_from_state v, true), m'')
            ])
        else (ok (snapshot_from_state v, true), m')

    -- The branch of `Start` that creates a watch.
    unfoldable pub create :
        StartInput
        → WatchKey
        → Option ℕ
        → Time
        → Time
        → Manager S
        → Result (Snapshot × Bool) × Manager S
    unfolding persist_error
    create i key trigger now id_now m =
        let seq = m.id_seq + 1 in
        let id = env.format.watch_id id_now seq in
        let w = new_watch id key trigger (env.format.resource_uri id) i.token now m.shut_down in
        let m' = record m { id_seq = seq } in
        let (r, m'') = persist_locked env w m' in
        elim r [
          | err e ↦ (err (persist_error e), m'')
          | ok _ ↦ (
            ok (snapshot_from_state w, false),
            record m'' {
              watches_by_id = insert id w m''.watches_by_id;
              active_by_key = insert key id m''.active_by_key;
              latest_by_key = insert key id m''.latest_by_key;
            },
          )
        ]

    -- The part of `Start` under the lock; an active entry without a live watch is dropped.
    unfoldable pub start_locked :
        StartInput → Option ℕ → Time → Time → Manager S → Result (Snapshot × Bool) × Manager S
    start_locked i trigger now id_now m =
        let key : WatchKey = record {
          login = i.login;
          owner = i.owner;
          repo = i.repo;
          pr = i.pr;
        } in
        if m.closed then (err closed_error, m) else elim (active_watch key m) [
          | some w ↦ reuse i trigger now w m
          | none ↦ create i key trigger now id_now (deactivate key m)
        ]

    -- `Start`, with the reused flag beside the snapshot.
    unfoldable pub start :
        StartInput → Time → Time → Manager S → Result (Snapshot × Bool) × Manager S
    start i now id_now m =
        if i.login == "" || i.token == "" || i.owner == "" || i.repo == "" || not (is_positive i.pr)
        then (err required_error, m)
        else elim (read_trigger i m) [
          | err e ↦ (err e, m)
          | ok trigger ↦ start_locked i trigger now id_now m
        ]
