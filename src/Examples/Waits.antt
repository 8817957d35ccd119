-- ===== src/Examples/Waits.antt =====
-- A wait of up to two polls for a review that is there.
use copilot_review_mcp.Common.{
  pos, true, false, none, some, ◌≡◌, ◌≤◌, ◌+◌, refl, arith, string_eq, int_eq,
}
use copilot_review_mcp.Errors.{ok, plain}
use copilot_review_mcp.Github.Review.{ReviewStatus, completed, derive_status, is_relevant}
use copilot_review_mcp.Store.Trigger.{get_latest, first_row, update_completed_at}
use copilot_review_mcp.Tools.Reply.{ToolReply, output}
use copilot_review_mcp.Tools.Status.{is_finished, complete_entry, build_status_output}
use copilot_review_mcp.Tools.Wait.{
  WaitInput, WaitPlan, WaitWorld, WaitOutput, reviewed, take_answer, wait_poll, wait_loop,
  wait_handler,
}
use copilot_review_mcp.Tools.Wait.Plan.{wait_plan, IsBounded, wait_plan-IsBounded}
use copilot_review_mcp.Tools.Wait.Turns.{Means}
use copilot_review_mcp.Tools.Wait.Laws.{wait_handler-Means}
use copilot_review_mcp.Tools.Wait.Returns.{IsQuiet, wait_handler-returns, wait_handler-finds}
use copilot_review_mcp.Examples.Fetches.{fetched}
use copilot_review_mcp.Examples.Handlers.{status_env, waiting, settled, latest}

abbrev input : WaitInput
input = record {
  owner = "o";
  repo = "r";
  pr = pos 7;
  poll_interval_seconds = pos 0;
  max_polls = pos 2;
}

abbrev plan : WaitPlan
plan = record { interval = 120; max_polls = 2 }

wait_plan-IsBounded_example :
    ((p : WaitPlan) → wait_plan plain input ≡ ok p → IsBounded input p)
    × ((p : WaitPlan) → IsBounded input p → wait_plan plain input ≡ ok p)
wait_plan-IsBounded_example = wait_plan-IsBounded plain input

abbrev quiet_world : WaitWorld
quiet_world = record {
  start = 0;
  now = λ n. 100;
  answer = λ n. ok fetched;
  stopped = λ n. false;
  stopped_at_end = false;
  before_read = λ n y. y;
  before_update = λ n y. y;
}

abbrev found : WaitOutput
found = record {
  status = reviewed completed;
  review_status = some (build_status_output status_env fetched (some latest) completed 100);
  polls_done = 1;
  waited_seconds = 0;
}

found_lem : wait_handler status_env quiet_world input none waiting ≡ (some (output found), settled)
unfolding wait_handler wait_plan wait_loop wait_poll take_answer get_latest first_row derive_status
    is_relevant complete_entry update_completed_at
found_lem = refl

wait_handler-Means_example :
    (p : WaitPlan) × IsBounded input p × Means quiet_world p.max_polls found.status found
wait_handler-Means_example =
    wait_handler-Means status_env quiet_world input none waiting settled found found_lem

wait_handler-returns_example :
    (r : ToolReply WaitOutput) × ((wait_handler status_env quiet_world input none waiting).0
      ≡ some r)
wait_handler-returns_example = wait_handler-returns status_env quiet_world input none waiting

latest_lem : get_latest "o" "r" (pos 7) waiting ≡ ok (some latest)
unfolding get_latest first_row
latest_lem = refl

finished_lem :
    is_finished
      (derive_status status_env.format_int fetched (some latest.requested_at) latest.prev_review_id)
    ≡ true
unfolding derive_status is_relevant
finished_lem = refl

quiet_lem : IsQuiet quiet_world 1
quiet_lem n h = (refl, (fetched, refl, refl), (λ y. refl), (λ y. refl))

plan_lem : IsBounded input plan
plan_lem = (refl, refl, omega arith, omega arith, omega arith, omega arith, omega arith)

wait_handler-finds_example :
    (o : WaitOutput) × (s : ReviewStatus) × ((wait_handler status_env quiet_world input none
        waiting).0
      ≡ some (output o))
    × (o.status ≡ reviewed s)
    × (is_finished s ≡ true)
    × (o.polls_done ≤ 1 + 1)
wait_handler-finds_example =
    wait_handler-finds status_env quiet_world input plan waiting 1 fetched (some latest) refl
      plan_lem (omega arith) latest_lem quiet_lem refl finished_lem
