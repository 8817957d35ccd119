-- ===== src/Examples/Requests.antt =====
-- A request of a review where an older one stands.

use copilot_review_mcp.Common.{
  pos, negsuc, ◌*◌, Bool, true, false, ◌∷◌, none, some, ◌≡◌, ◌⊎◌, refl, string_eq, int_eq, second,
}
use copilot_review_mcp.Errors.{ok, plain}
use copilot_review_mcp.Github.Review.{ReviewData, PullRequestReview}
use copilot_review_mcp.Github.Request.{RequestApi, request_copilot_review}
use copilot_review_mcp.Store.{TriggerRow, Db}
use copilot_review_mcp.Store.Trigger.{
  TriggerEntry, get_latest, first_row, has_pending, insert_with_prev_review_id,
}
use copilot_review_mcp.Tools.Reply.{output}
use copilot_review_mcp.Tools.Request.{
  RequestInput, RequestOutput, RequestClient, RequestEnv, requested_output, record_trigger,
  request_and_record, request_handler,
}
use copilot_review_mcp.Tools.Request.Laws.{
  IsRefused, IsRequested, request_handler-outputs, request_handler-once,
}
use copilot_review_mcp.Tools.Request.Retires.{Retires, record_trigger-Retires}
use copilot_review_mcp.Examples.Fetches.{fetched}
use copilot_review_mcp.Examples.Stores.{above-Grows}
use copilot_review_mcp.Examples.Handlers.{settled, latest}
use copilot_review_mcp.Examples.Watching.{ticks}

abbrev old_review : PullRequestReview
old_review = record { id = pos 8; state = "COMMENTED"; submitted_at = some 8 }

-- Copilot has reviewed, and is no reviewer now.
abbrev unasked : ReviewData
unasked = record fetched { is_copilot_in_reviewers = false }

abbrev request_api : RequestApi Bool
request_api = record {
  query_node = λ b. ok (some "node");
  mutate = λ node b. (ok tt, true);
  error = plain;
  wrapped = λ s e. e;
}

abbrev client : RequestClient Bool
client = record { get_review_data = λ b. ok unasked; api = request_api }

abbrev request_env : RequestEnv
request_env = record {
  format_int = λ n. elim n [ pos k ↦ ticks k | negsuc k ↦ "" ];
  error = plain;
  wrapped = λ s e. e;
  between = λ n y. y;
}

abbrev request_input : RequestInput
request_input = record { owner = "o"; repo = "r"; pr = pos 7 }

abbrev added : TriggerRow
added = record {
  id = 3;
  owner = "o";
  repo = "r";
  pr = pos 7;
  trigger = "MANUAL";
  requested_at = 1;
  completed_at = none;
  prev_review_id = some "xxxxxxxx";
}

abbrev recorded : Db
recorded = record settled { trigger_log = added ∷ settled.trigger_log }

requested_lem :
    request_handler request_env request_input (ok client) false settled
    ≡ (output requested_output, true, recorded)
unfolding request_handler request_and_record request_copilot_review record_trigger has_pending
    get_latest first_row insert_with_prev_review_id
requested_lem = refl

request_handler-outputs_example :
    IsRefused requested_output false true settled recorded
    ⊎ IsRequested request_env request_input (ok client) requested_output false true settled recorded
request_handler-outputs_example =
    request_handler-outputs request_env request_input (ok client) false true settled recorded
      requested_output requested_lem

request_handler-once_example :
    (p : RequestOutput) × (request_handler request_env request_input (ok client) true recorded
      ≡ (output p, true, recorded))
    × (p.ok ≡ false)
    × (p.reason ≡ "REVIEW_IN_PROGRESS")
request_handler-once_example =
    request_handler-once request_env request_input (ok client) false true settled recorded
      requested_output client true requested_lem refl

abbrev earlier : TriggerEntry
earlier = record latest { completed_at = some (9 * second) }

earlier_lem : get_latest "o" "r" (pos 7) settled ≡ ok (some earlier)
unfolding get_latest first_row
earlier_lem = refl

recorded_lem : record_trigger request_env request_input unasked settled ≡ (ok 3, recorded)
unfolding record_trigger get_latest first_row insert_with_prev_review_id
recorded_lem = refl

record_trigger-Retires_example :
    (x : TriggerEntry) × (get_latest "o" "r" (pos 7) recorded ≡ ok (some x))
    × (x.id ≡ 3)
    × (x.completed_at ≡ none)
    × Retires request_env.format_int (pos 8) x
record_trigger-Retires_example =
    record_trigger-Retires request_env request_input unasked settled recorded 3 old_review 8
      (some earlier) refl above-Grows refl earlier_lem refl recorded_lem
