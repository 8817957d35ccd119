-- ===== src/Examples/Cycles.antt =====
-- Answers of get_pr_review_cycle_status on an empty database.
use copilot_review_mcp.Common.{
  pos, true, false, List, [], ◌∷◌, Option, none, some, ◌≡◌, refl, string_eq, int_eq,
}
use copilot_review_mcp.Errors.{ok, err, plain}
use copilot_review_mcp.Github.Review.{ReviewData, derive_status, is_relevant, is_copilot}
use copilot_review_mcp.Store.{Db}
use copilot_review_mcp.Store.Trigger.{TriggerEntry, get_latest, first_row}
use copilot_review_mcp.Watch.Poll.{requested_of, prev_of}
use copilot_review_mcp.Github.Threads.{ReviewThread}
use copilot_review_mcp.Github.Checks.{CiStatus}
use copilot_review_mcp.Tools.Reply.{output}
use copilot_review_mcp.Tools.Cycle.{
  CycleStatusInput, CycleStatusOutput, CycleClient, CycleEnv, ready_to_merge, terminate,
  met_resolved, cycle_number, unresolved_threads, fix_note, action_note, unresolved_count,
  unreplied, all_replied, is_rereview_required, evaluated, evaluate, elapsed_minutes, latest_thread,
  find_latest_comment_at, latest_comment, recommend, cycle_status_of, cycle_error,
  cycle_status_handler,
}
use copilot_review_mcp.Tools.Cycle.Laws.{IsReviewed}
use copilot_review_mcp.Tools.Cycle.Handler.{handler-ready_to_merge}

abbrev env : CycleEnv
env = record {
  max_setting = none;
  threshold_setting = some 5;
  trim_space = λ s. s;
  parse_time = λ s. err (plain "no time");
  format_int = λ n. "5";
  rereview_reason = λ s. s;
  error = plain;
  wrapped = λ s e. e;
}

abbrev input : CycleStatusInput
input = record {
  owner = "o";
  repo = "r";
  pr = pos 7;
  last_comment_at = none;
  cycles_done = pos 1;
  max_cycles = pos 0;
  fix_type = "trivial";
}

abbrev logic : CycleStatusInput
logic = record input { fix_type = "logic" }

abbrev green : CiStatus
green = record { ok = true; pending_checks = []; failed_checks = [] }

abbrev threads : List ReviewThread
threads =
    record {
      id = "T1";
      is_resolved = true;
      is_outdated = false;
      path = "a.go";
      line = none;
      start_line = none;
      comments = record { author = "Copilot"; body = "nit"; created_at = "" } ∷ [];
    }
    ∷ []

abbrev reviewed : ReviewData
reviewed = record {
  is_copilot_in_reviewers = false;
  latest_copilot_review = some (record { id = pos 5; state = "COMMENTED"; submitted_at = some 30 });
  rate_limit_remaining = pos 4000;
  rate_limit_reset = 0;
  review_requested_at = none;
  work_started_at = none;
  skipped_timeline = false;
}

abbrev client : CycleClient
client = record {
  get_ci_status = ok green;
  get_review_threads = ok threads;
  get_review_data = ok reviewed;
}

abbrev db : Db
db = record {
  trigger_log = [];
  review_watch = [];
  clock = 9;
  fault = none;
  new_rowid = λ ids. 1;
  constraint_error = plain "constraint";
}

abbrev answer : CycleStatusOutput
answer = record {
  cycle_status = terminate;
  recommended_action = ready_to_merge;
  rereview_required = false;
  rereview_reason = none;
  cycles_done = pos 1;
  max_cycles = 3;
  merge_conditions = record {
    ci_ok = true;
    unresolved_count = 0;
    all_replied = true;
    pending_checks = [];
    failed_checks = [];
    unreplied_threads = [];
  };
  notes =
      cycle_number 2 3
      ∷ unresolved_threads 0
      ∷ fix_note "trivial" false
      ∷ met_resolved
      ∷ action_note ready_to_merge
      ∷ [];
}

answered : cycle_status_handler env input (ok client) db 100 ≡ output answer
unfolding cycle_status_handler cycle_error evaluate evaluated get_latest first_row elapsed_minutes
    find_latest_comment_at latest_thread latest_comment derive_status is_relevant is_copilot
    unresolved_count all_replied unreplied is_rereview_required recommend cycle_status_of
answered = refl

handler-ready_to_merge_example :
    ((ci : CiStatus) × (client.get_ci_status ≡ ok ci) × (ci.ok ≡ true))
    × ((ts : List ReviewThread) × (client.get_review_threads ≡ ok ts) × (unresolved_count ts ≡ 0))
    × (is_rereview_required "trivial" ≡ false)
    × ((d : ReviewData) × (t : Option TriggerEntry) × (client.get_review_data ≡ ok d)
        × (get_latest "o" "r" (pos 7) db ≡ ok t)
        × IsReviewed (derive_status env.format_int d (requested_of t) (prev_of t)))
handler-ready_to_merge_example = handler-ready_to_merge env input client db 100 answer answered refl

no_unresolved : unresolved_count threads ≡ 0
unfolding unresolved_count
no_unresolved = refl

logic_rereviewed : is_rereview_required "logic" ≡ true
unfolding is_rereview_required
logic_rereviewed = refl
