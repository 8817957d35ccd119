-- ===== src/Examples/Handlers.antt =====
-- Calls of the thread, status and request tools.

use copilot_review_mcp.Common.{
  pos, true, false, List, [], ◌∷◌, Option, none, some, ◌≡◌, ◌↔◌, refl, string_eq, int_eq,
}
use copilot_review_mcp.Errors.{ok, plain}
use copilot_review_mcp.Github.Pages.{Gathers}
use copilot_review_mcp.Github.Review.{ReviewData, completed, blocked, derive_status, is_relevant}
use copilot_review_mcp.Github.Fetch.{Review}
use copilot_review_mcp.Github.Fetch.Laws.{IsLatestReview}
use copilot_review_mcp.Github.Threads.{
  ReviewThread, reply_to_thread, resolve_thread, is_thread_resolved,
}
use copilot_review_mcp.Store.{TriggerRow, Db}
use copilot_review_mcp.Store.Trigger.{TriggerEntry, get_latest, first_row, update_completed_at}
use copilot_review_mcp.Store.Trigger.Settled.{IsSettled}
use copilot_review_mcp.Tools.Reply.{output}
use copilot_review_mcp.Tools.Threads.{
  GetReviewThreadsInput, GetReviewThreadsOutput, ThreadEnv, get_review_threads_handler, result_of,
  count_unresolved, ReplyAndResolveInput, ReplyAndResolveOutput, resolve_step,
  reply_and_resolve_handler,
}
use copilot_review_mcp.Tools.Threads.Laws.{IsHonest, reply_and_resolve_handler-IsHonest}
use copilot_review_mcp.Tools.Status.{
  GetStatusInput, GetStatusOutput, StatusEnv, status_of, is_finished, complete_entry,
  build_status_output, status_handler,
}
use copilot_review_mcp.Tools.Status.Laws.{status_handler-reads_all, status_handler-settles}
use copilot_review_mcp.Examples.Fetches.{service, service-Resolves, api, fetched, fetched_lem}
use copilot_review_mcp.Examples.Stores.{above}

abbrev thread_env : ThreadEnv
thread_env = record { error = plain; trim_space = λ s. s; auth_text = λ t s. s }

abbrev closed_thread : ReviewThread
closed_thread = record {
  id = "T1";
  is_resolved = true;
  is_outdated = false;
  path = "main.go";
  line = none;
  start_line = none;
  comments = [];
}

abbrev open_thread : ReviewThread
open_thread = record closed_thread { id = "T2"; is_resolved = false }

abbrev asked : GetReviewThreadsInput
asked = record { owner = "o"; repo = "r"; pr = pos 7 }

abbrev shown : GetReviewThreadsOutput
shown = record {
  threads = result_of closed_thread ∷ result_of open_thread ∷ [];
  summary = record { total = 2; unresolved = 1 };
}

shown_lem :
    get_review_threads_handler thread_env asked (ok (ok (closed_thread ∷ open_thread ∷ [])))
    ≡ output shown
unfolding get_review_threads_handler count_unresolved
shown_lem = refl

abbrev both : ReplyAndResolveInput
both = record { thread_id = "T1"; body = "done"; resolve = true }

abbrev both_done : ReplyAndResolveOutput
both_done = record {
  replied = true;
  resolved = true;
  comment_id = some "2";
  reply_error = none;
  resolve_error = none;
}

both_done_lem :
    reply_and_resolve_handler thread_env both (ok service) false ≡ (output both_done, true)
unfolding reply_and_resolve_handler reply_to_thread resolve_step resolve_thread is_thread_resolved
both_done_lem = refl

reply_and_resolve_handler-IsHonest_example :
    IsHonest both both_done
    × (both_done.replied ≡ false → true ≡ (reply_to_thread service "T1" "done" false).1)
    × (both.resolve ≡ false → true ≡ (reply_to_thread service "T1" "done" false).1)
    × (both_done.resolved ≡ true → service.query_resolved "T1" true ≡ ok true)
reply_and_resolve_handler-IsHonest_example =
    reply_and_resolve_handler-IsHonest thread_env both service false true both_done service-Resolves
      both_done_lem

abbrev pub status_env : StatusEnv
status_env = record {
  format_int = λ n. "5";
  rfc3339 = λ t. "time";
  error = plain;
  wrapped = λ s e. e;
}

abbrev trigger : TriggerRow
trigger = record {
  id = 1;
  owner = "o";
  repo = "r";
  pr = pos 7;
  trigger = "MANUAL";
  requested_at = 0;
  completed_at = none;
  prev_review_id = none;
}

abbrev pub waiting : Db
waiting = record {
  trigger_log = trigger ∷ [];
  review_watch = [];
  clock = 9;
  fault = none;
  new_rowid = above;
  constraint_error = plain "constraint";
}

abbrev pub settled : Db
settled = record waiting { trigger_log = record trigger { completed_at = some 9 } ∷ [] }

abbrev status_input : GetStatusInput
status_input = record { owner = "o"; repo = "r"; pr = pos 7 }

abbrev pub latest : TriggerEntry
latest = record {
  id = 1;
  trigger = "MANUAL";
  requested_at = 0;
  completed_at = none;
  prev_review_id = none;
}

abbrev reported : GetStatusOutput
reported = build_status_output status_env fetched (some latest) completed 100

reported_lem :
    status_handler status_env status_input (ok (ok fetched)) (λ y. y) waiting 100
    ≡ (output reported, settled)
unfolding status_handler get_latest first_row derive_status is_relevant complete_entry
    update_completed_at
reported_lem = refl

status_handler-reads_all_example :
    (rs : List Review) × Gathers api.list_reviews 0 rs
    × (d : ReviewData) × (ok fetched ≡ ok d)
    × IsLatestReview rs d.latest_copilot_review
    × (entry : Option TriggerEntry) × (get_latest "o" "r" (pos 7) waiting ≡ ok entry)
    × (reported.status ≡ status_of status_env d entry)
    × ((reported.is_blocking ≡ true) ↔ (reported.status ≡ blocked))
status_handler-reads_all_example =
    status_handler-reads_all 3 api (ok fetched) status_env status_input (λ y. y) waiting settled 100
      reported fetched_lem reported_lem

status_handler-settles_example :
    (is_finished reported.status ≡ true → IsSettled (get_latest "o" "r" (pos 7) settled))
    × (is_finished reported.status ≡ false → settled ≡ waiting)
status_handler-settles_example =
    status_handler-settles status_env status_input (ok (ok fetched)) waiting settled 100 reported
      reported_lem
