-- ===== src/Examples/Watching.antt =====
-- Runs of a watch manager on a small database.
use Prim.Native.String.{count, ◌++◌}
use text.Mathlib.TextLemmas.{length-append}
use copilot_review_mcp.Common.{
  ◌*◌, second, ℕ, pos, zero, suc, Time, true, false, String, List, [], ◌∷◌, none, some, ◌≡◌, ◌≢◌,
  refl, eq_iff, ap, sym, ◌∙◌, arith, string_eq,
}
use copilot_review_mcp.Common.Map.{lookup, insert, delete}
use copilot_review_mcp.Errors.{plain}
use copilot_review_mcp.Store.{Db}
use copilot_review_mcp.Watch.State.{Status, WatchKey, key_eq, Watch, Env, StartInput}
use copilot_review_mcp.Watch.Persist.{
  deactivate, finish, put_watch, notify, persist_locked, degrade_on, persist_or_degrade_locked,
  finish_locked,
}
use copilot_review_mcp.Watch.Start.{
  Options, new_manager, new_watch, active_watch, read_trigger, create, start_locked, start,
}
use copilot_review_mcp.Watch.Cancel.{complete_trigger, cancel_live, cancel_by_id, close}
use copilot_review_mcp.Watch.Backed.{db_store}
use copilot_review_mcp.Watch.Life.{Inv}
use copilot_review_mcp.Watch.Life.Closing.{close-terminal}
use copilot_review_mcp.Watch.Life.Isolation.{cancel_by_id-others}
use copilot_review_mcp.Watch.Life.Runs.{
  Call, starts, cancels_id, closes, begins_poll, run_call, run_calls, run_calls-Inv, one_live_watch,
  terminal_for_ever,
}

-- A watch id with as many strokes as its number.
abbrev pub ticks : ℕ → String
ticks zero = ""
ticks (suc n) = "x" ++ ticks n

count-ticks : (n : ℕ) → count (ticks n) ≡ n
count-ticks zero = refl
count-ticks (suc n) = omega (arith, length-append "x" (ticks n), count-ticks n)

pub ticks_inj : (t u : Time) (i j : ℕ) → ticks i ≡ ticks j → i ≡ j
ticks_inj t u i j e = sym (count-ticks i) ∙ ap count e ∙ count-ticks j

abbrev pub env : Env Db
env = record {
  store = db_store;
  format = record {
    format_int = λ n. "1";
    watch_id = λ t n. ticks n;
    resource_uri = λ id. id;
    persist_failed = λ s e. e.text;
    exceeded = λ n. "exceeded";
    timed_out = λ n. "timed out";
    trigger_read_failed = λ e. e.text;
    completion_failed = λ e. e.text;
    rate_limit_low = λ n t. "low";
    upstream_persisted = λ n s. s;
    upstream_hint = λ n. "hint";
    panicked = λ s. s;
    wrapped = λ s e. e;
  };
}

abbrev pub options : Options
options = record {
  poll_interval = pos 0;
  poll_timeout = pos 0;
  max_watch_duration = pos 0;
  upstream_failure_threshold = pos 2;
  notifies = true;
}

abbrev input : StartInput
input = record { login = "ann"; token = "t"; owner = "o"; repo = "r"; pr = pos 7 }

abbrev key : WatchKey
key = record { login = "ann"; owner = "o"; repo = "r"; pr = pos 7 }

abbrev pub db : Db
db = record {
  trigger_log = [];
  review_watch = [];
  clock = 9;
  fault = none;
  new_rowid = λ ids. 1;
  constraint_error = plain "constraint";
}

abbrev pub begun : List (Call Db)
begun = starts input 10 11 ∷ []

abbrev ended : List (Call Db)
ended = starts input 10 11 ∷ cancels_id "ann" "x" 20 ∷ []

abbrev pub live_watch : Watch
live_watch = record {
  id = "x";
  key = key;
  trigger_log_id = none;
  resource_uri = some "x";
  token = "t";
  cancelled = false;
  client = some (record { token = "t"; login = "ann" });
  status = Status.watching;
  review_status = none;
  failure_reason = none;
  terminal = false;
  worker_running = true;
  polls_done = 0;
  started_at = 10;
  updated_at = 10;
  completed_at = none;
  stale_at = none;
  last_polled_at = none;
  last_error = none;
  rate_limit_reset_at = none;
  upstream_failure_count = 0;
  recovery_hint = none;
}

abbrev ended_watch : Watch
ended_watch = record live_watch {
  token = "";
  cancelled = true;
  client = none;
  status = Status.cancelled;
  terminal = true;
  worker_running = false;
  updated_at = 20;
  completed_at = some 20;
  last_error = some "watch was cancelled manually";
}

pub live_found :
    lookup "x" (run_calls env begun (new_manager none options)).watches_by_id ≡ some live_watch
unfolding lookup insert delete run_call run_calls new_manager start start_locked read_trigger create
    new_watch persist_locked active_watch deactivate
live_found = refl

-- The default of two hours.
pub limit_lem : (run_calls env begun (new_manager none options)).max_watch_duration ≡ 7200 * second
unfolding run_call run_calls new_manager start start_locked read_trigger create new_watch
    persist_locked active_watch deactivate lookup insert
limit_lem = refl

ended_found :
    lookup "x" (run_calls env ended (new_manager none options)).watches_by_id ≡ some ended_watch
unfolding lookup insert delete run_call run_calls new_manager start start_locked read_trigger create
    new_watch persist_locked active_watch deactivate cancel_by_id cancel_live finish_locked finish
    persist_or_degrade_locked degrade_on put_watch notify complete_trigger
ended_found = refl

run_calls-Inv_example :
    Inv env.format.watch_id (run_calls env ended (new_manager (some db) options))
run_calls-Inv_example = run_calls-Inv env ticks_inj ended (some db) options

one_live_watch_example : Path String "x" "x"
one_live_watch_example =
    one_live_watch env ticks_inj begun none options "x" "x" live_watch live_watch live_found
      live_found refl refl refl

terminal_for_ever_example :
    lookup "x"
      (run_calls env
        (starts input 30 31 ∷ begins_poll "x" 40 ∷ closes 50 ∷ [])
        (run_calls env ended (new_manager none options))).watches_by_id
    ≡ some ended_watch
terminal_for_ever_example =
    terminal_for_ever env ticks_inj ended (starts input 30 31 ∷ begins_poll "x" 40 ∷ closes 50 ∷ [])
      none options "x" ended_watch ended_found refl

open_yet : (run_calls env begun (new_manager none options)).closed ≡ false
unfolding run_call run_calls new_manager start start_locked read_trigger create new_watch
    persist_locked active_watch deactivate lookup
open_yet = refl

close-terminal_example :
    let n = close env 30 (run_calls env begun (new_manager none options)) in
    ((k : WatchKey) → lookup k n.active_by_key ≡ none)
    × ((id : String) (w : Watch) → lookup id n.watches_by_id ≡ some w → w.terminal ≡ true)
close-terminal_example = close-terminal env ticks_inj begun none options 30 open_yet

other_login : live_watch.key.login ≢ "bob"
other_login e = cc ((eq_iff "ann" "bob").1 e)

cancel_by_id-others_example :
    lookup "x"
      (cancel_by_id env "bob" "x" 20
        (run_calls env begun (new_manager none options))).1.watches_by_id
    ≡ some live_watch
cancel_by_id-others_example =
    cancel_by_id-others env ticks_inj begun none options "bob" "x" 20 "x" live_watch live_found
      other_login
