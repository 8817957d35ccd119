-- ===== src/Watch/State.antt =====
-- The state of internal/watch/manager.go. `activeByKey` and the other maps are association lists; a
-- watch is reached by its id, as the program's pointers are. A client is known by the arguments that
-- the client factory was given. What fmt.Sprintf renders is in `Format`.
use mathlib.Core.Option
use copilot_review_mcp.Common.{
  ℕ, ℤ, Time, Bool, true, false, String, List, Option, none, arith, ◌≡◌, ◌↔◌, ◌&&◌, ◌==◌, Eq,
  eq_iff, int_beq_iff, string_eq, int_eq, not,
}
use copilot_review_mcp.Common.Map.{Map}
use copilot_review_mcp.Errors.{GoError, Result}
use copilot_review_mcp.Github.Review.{ReviewStatus, not_requested, pending, in_progress}
use copilot_review_mcp.Store.Trigger.{TriggerEntry}
use copilot_review_mcp.Store.Watches.{ReviewWatchEntry, ReviewWatchFilter}

pub data Status : Type 0 where
  watching completed blocked timeout rate_limited failed stale cancelled : Status

pub data FailureReason : Type 0 where
  auth_expired github_error internal_error : FailureReason

abbrev pub status_text : Status → String
status_text watching = "WATCHING"
status_text Status.completed = "COMPLETED"
status_text Status.blocked = "BLOCKED"
status_text timeout = "TIMEOUT"
status_text rate_limited = "RATE_LIMITED"
status_text failed = "FAILED"
status_text stale = "STALE"
status_text cancelled = "CANCELLED"

abbrev pub reason_text : FailureReason → String
reason_text auth_expired = "AUTH_EXPIRED"
reason_text github_error = "GITHUB_ERROR"
reason_text internal_error = "INTERNAL_ERROR"

abbrev pub review_text : ReviewStatus → String
review_text not_requested = "NOT_REQUESTED"
review_text pending = "PENDING"
review_text in_progress = "IN_PROGRESS"
review_text ReviewStatus.completed = "COMPLETED"
review_text ReviewStatus.blocked = "BLOCKED"

-- `Snapshot`.
pub record Snapshot : Type 0 where
  pub watch_id : String
  pub login : String
  pub owner : String
  pub repo : String
  pub pr : ℤ
  pub resource_uri : Option String
  pub watch_status : String
  pub review_status : Option String
  pub failure_reason : Option String
  pub terminal : Bool
  pub worker_running : Bool
  pub polls_done : ℕ
  pub started_at : Time
  pub updated_at : Time
  pub completed_at : Option Time
  pub stale_at : Option Time
  pub last_polled_at : Option Time
  pub rate_limit_reset_at : Option Time
  pub last_error : Option String
  pub recovery_hint : Option String

-- `StartInput`.
pub record StartInput : Type 0 where
  pub login : String
  pub token : String
  pub owner : String
  pub repo : String
  pub pr : ℤ

-- `watchKey`.
pub record WatchKey : Type 0 where
  pub login : String
  pub owner : String
  pub repo : String
  pub pr : ℤ

abbrev pub key_beq : WatchKey → WatchKey → Bool
key_beq a b = a.login == b.login && a.owner == b.owner && a.repo == b.repo && a.pr == b.pr

pub key_beq_iff : (a b : WatchKey) → (key_beq a b ≡ true) ↔ (a ≡ b)
key_beq_iff a b = ground (
  arith,
  eq_iff a.login b.login,
  eq_iff a.owner b.owner,
  eq_iff a.repo b.repo,
  int_beq_iff a.pr b.pr,
)

instance abbrev pub key_eq : Eq WatchKey
key_eq = record { beq = key_beq; beq_iff = key_beq_iff }

pub record Client : Type 0 where
  pub token : String
  pub login : String

-- `watchState`; `cancelled` says whether its context was cancelled.
pub record Watch : Type 0 where
  pub id : String
  pub key : WatchKey
  pub trigger_log_id : Option ℕ
  pub resource_uri : Option String
  pub token : String
  pub cancelled : Bool
  pub client : Option Client
  pub status : Status
  pub review_status : Option ReviewStatus
  pub failure_reason : Option FailureReason
  pub terminal : Bool
  pub worker_running : Bool
  pub polls_done : ℕ
  pub started_at : Time
  pub updated_at : Time
  pub completed_at : Option Time
  pub stale_at : Option Time
  pub last_polled_at : Option Time
  pub last_error : Option String
  pub rate_limit_reset_at : Option Time
  pub upstream_failure_count : ℕ
  pub recovery_hint : Option String

-- `Manager`. `notifies` says whether the callback is set, `notified` lists the URIs that it was
-- called with, newest first, and `shut_down` whether the manager's context was cancelled.
pub record Manager (S : Type 0) : Type 0 where
  pub db : Option S
  pub poll_interval : ℕ
  pub poll_timeout : ℕ
  pub max_watch_duration : ℕ
  pub upstream_failure_threshold : ℕ
  pub notifies : Bool
  pub notified : List String
  pub shut_down : Bool
  pub id_seq : ℕ
  pub watches_by_id : Map String Watch
  pub active_by_key : Map WatchKey String
  pub latest_by_key : Map WatchKey String
  pub closed : Bool

-- `watchStore`: what the manager needs of a database whose state is an `S`.
pub record WatchStore (S : Type 0) : Type 0 where
  pub get_latest : String → String → ℤ → S → Result (Option TriggerEntry)
  pub update_completed_at : ℕ → S → Result (Unit {0}) × S
  pub get_review_watch_by_id : String → S → Result (Option ReviewWatchEntry)
  pub get_latest_review_watch : String → String → String → ℤ → S → Result (Option ReviewWatchEntry)
  pub list_review_watches : ReviewWatchFilter → S → Result (List ReviewWatchEntry)
  pub upsert_review_watch : ReviewWatchEntry → S → Result (Unit {0}) × S

-- The texts that fmt and strconv render, one function for each format.
pub record Format : Type 0 where
  pub format_int : ℤ → String
  pub watch_id : Time → ℕ → String
  pub resource_uri : String → String
  pub persist_failed : Status → GoError → String
  pub exceeded : ℕ → String
  pub timed_out : ℕ → String
  pub trigger_read_failed : GoError → String
  pub completion_failed : GoError → String
  pub rate_limit_low : ℤ → Option Time → String
  pub upstream_persisted : ℕ → String → String
  pub upstream_hint : ℕ → String
  pub panicked : String → String
  pub wrapped : String → GoError → GoError

pub record Env (S : Type 0) : Type 0 where
  pub store : WatchStore S
  pub format : Format

-- `snapshotFromState`.
unfoldable pub snapshot_from_state : Watch → Snapshot
snapshot_from_state w = record {
  watch_id = w.id;
  login = w.key.login;
  owner = w.key.owner;
  repo = w.key.repo;
  pr = w.key.pr;
  resource_uri = w.resource_uri;
  watch_status = status_text w.status;
  review_status = Option.map review_text w.review_status;
  failure_reason = Option.map reason_text w.failure_reason;
  terminal = w.terminal;
  worker_running = w.worker_running;
  polls_done = w.polls_done;
  started_at = w.started_at;
  updated_at = w.updated_at;
  completed_at = w.completed_at;
  stale_at = w.stale_at;
  last_polled_at = w.last_polled_at;
  rate_limit_reset_at = w.rate_limit_reset_at;
  last_error = w.last_error;
  recovery_hint = w.recovery_hint;
}

-- `snapshotFromReviewWatchEntry`.
unfoldable pub snapshot_from_review_watch_entry : ReviewWatchEntry → Snapshot
snapshot_from_review_watch_entry e = record {
  watch_id = e.id;
  login = e.github_login;
  owner = e.owner;
  repo = e.repo;
  pr = e.pr;
  resource_uri = e.resource_uri;
  watch_status = e.watch_status;
  review_status = e.review_status;
  failure_reason = e.failure_reason;
  terminal = not e.is_active;
  worker_running = false;
  polls_done = 0;
  started_at = e.started_at;
  updated_at = e.updated_at;
  completed_at = e.completed_at;
  stale_at = e.stale_at;
  last_polled_at = none;
  rate_limit_reset_at = e.rate_limit_reset_at;
  last_error = e.last_error;
  recovery_hint = e.recovery_hint;
}
