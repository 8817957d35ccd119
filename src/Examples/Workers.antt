-- ===== src/Examples/Workers.antt =====
-- A worker whose client fails, answers and panics, and files and lists of watches.

use copilot_review_mcp.Common.{
  ◌++◌, ◌+◌, ◌*◌, second, pos, Time, true, false, String, List, [], ◌∷◌, none, some, ◌≡◌, refl,
  arith, map, Bool, string_eq,
}
use copilot_review_mcp.Common.Map.{lookup}
use copilot_review_mcp.Common.Sorting.{IsOrder, IsLead}
use copilot_review_mcp.Errors.{ok, plain}
use copilot_review_mcp.Github.Review.{ReviewData, derive_status, status_of_request}
use copilot_review_mcp.Github.Fetch.{empty_data}
use copilot_review_mcp.Store.{Db, WatchRow}
use copilot_review_mcp.Store.Watches.{ReviewWatchFilter, scan_review_watch, list_review_watches}
use copilot_review_mcp.Store.Watches.Lists.{IsSelected, IsAnswer, list_review_watches-IsAnswer}
use copilot_review_mcp.Store.Open.{trigger_log, add_column, Faults, open_db}
use copilot_review_mcp.Store.Open.Columns.{finished}
use copilot_review_mcp.Store.Open.Laws.{IsCurrent, Restarts, open_db-Restarts}
use copilot_review_mcp.Watch.State.{Watch, Manager, Env, Snapshot, snapshot_from_state}
use copilot_review_mcp.Watch.Start.{new_manager}
use copilot_review_mcp.Watch.Outcome.{watch_status_for_review}
use copilot_review_mcp.Watch.Poll.{status_of, poll_record}
use copilot_review_mcp.Watch.Reads.{
  ListOptions, collect, list, live_snapshots, matches_list_options, sort_snapshots, insert_snapshot,
}
use copilot_review_mcp.Watch.Listing.{Precedes, list-IsLead}
use copilot_review_mcp.Watch.Life.Runs.{run_calls}
use copilot_review_mcp.Watch.Worker.{Tick, Wake, replies, panics, returned, run}
use copilot_review_mcp.Watch.Worker.Laws.{IsTracked, run-IsTracked}
use copilot_review_mcp.Watch.Worker.Deadline.{IsDue, run_returns}
use copilot_review_mcp.Watch.Worker.Failures.{fail_polls}
use copilot_review_mcp.Watch.Worker.Escalation.{Escalates, fail_polls-Escalates}
use copilot_review_mcp.Examples.Watching.{
  env, options, db, begun, ticks_inj, live_watch, live_found, limit_lem,
}
use copilot_review_mcp.Examples.Stores.{db as stored}
use copilot_review_mcp.Examples.Servers.{texts, fresh}
use copilot_review_mcp.Examples.Views.{live, one_watch}

abbrev high : ReviewData
high = record empty_data { rate_limit_remaining = pos 100 }

abbrev quiet : Tick Db
quiet = record {
  now = 20;
  later = 21;
  panicked_at = 22;
  answer = λ c. replies (ok high);
  during = [];
  meanwhile = [];
}

abbrev wild : Wake Db
wild = record {
  before = begun;
  takes_done = true;
  tick = record quiet { answer = λ c. panics "boom" };
}

run-IsTracked_example :
    IsTracked env "x"
      (run env "x" quiet (wild ∷ []) (run_calls env begun (new_manager (some db) options)))
run-IsTracked_example = run-IsTracked env ticks_inj begun (some db) options "x" quiet (wild ∷ [])

-- A round that polls two hours after the watch was started.
abbrev overdue : Wake Db
overdue = record {
  before = [];
  takes_done = false;
  tick = record quiet { now = 10 + 7200 * second };
}

overdue-IsDue : IsDue "x" overdue.tick.now (run_calls env begun (new_manager none options))
overdue-IsDue = (live_watch, live_found, ground (arith, limit_lem))

run_returns_example :
    (n : Manager Db) × (run env "x" quiet
        ((wild ∷ []) ++ overdue ∷ wild ∷ [])
        (run_calls env begun (new_manager none options))
      ≡ returned n)
run_returns_example =
    run_returns env ticks_inj begun none options "x" quiet (wild ∷ []) overdue (wild ∷ [])
      overdue-IsDue

-- A store that writes everything.
abbrev writing : Env Db
writing = record env { store = record env.store { upsert_review_watch = λ x s. (ok tt, s) } }

abbrev failures : List (Time × String)
failures = (30, "upstream") ∷ (31, "upstream") ∷ (32, "upstream") ∷ []

fail_polls-Escalates_example :
    Escalates writing "x" live 2 failures (fail_polls writing "x" failures one_watch)
    × ((n : Manager Db) × (poll_record writing "x" 40 high none one_watch ≡ (false, n))
        × (v : Watch) × (lookup "x" n.watches_by_id ≡ some v)
        × (v.terminal ≡ false)
        × (v.upstream_failure_count ≡ 0))
unfolding lookup new_manager watch_status_for_review status_of derive_status status_of_request
fail_polls-Escalates_example =
    fail_polls-Escalates writing "x" failures live one_watch 40 high none (λ x s. (s, refl)) refl
      refl refl (omega arith) refl refl

-- The column of trigger_log cannot be added.
abbrev stubborn : Faults
stubborn (add_column trigger_log) = some (plain "disk full")
stubborn s = none

open_db-Restarts_example :
    IsCurrent fresh (finished fresh) × Restarts texts fresh (open_db texts stubborn fresh)
open_db-Restarts_example = open_db-Restarts texts stubborn fresh

abbrev filter : ReviewWatchFilter
filter = record {
  github_login = "ann";
  owner = "";
  repo = "";
  pr = pos 0;
  active_only = false;
  limit = 1;
}

list_review_watches-IsAnswer_example :
    (rows all : List WatchRow) × (list_review_watches filter stored
      ≡ ok (map scan_review_watch rows))
    × IsSelected filter stored.review_watch all
    × IsAnswer 1 all rows
list_review_watches-IsAnswer_example = list_review_watches-IsAnswer filter stored refl

-- An order in which all strings are equal.
abbrev no_order : String → String → Bool
no_order s t = false

no_order-IsOrder : IsOrder no_order
no_order-IsOrder = record { asym = λ s t h. refl; trans = λ s t u h k. refl }

abbrev listing : ListOptions
listing = record { owner = ""; repo = ""; pr = pos 0; active_only = true; limit = pos 1 }

abbrev shown : List Snapshot
shown = snapshot_from_state live ∷ []

shown_lem : list env no_order "ann" listing one_watch ≡ ok shown
unfolding list collect live_snapshots snapshot_from_state matches_list_options sort_snapshots
    insert_snapshot new_manager
shown_lem = refl

list-IsLead_example :
    (all : List Snapshot) × (collect env "ann" listing one_watch ≡ ok all)
    × IsLead (Precedes no_order) 1 all shown
list-IsLead_example =
    list-IsLead env no_order "ann" listing one_watch shown no_order-IsOrder shown_lem
