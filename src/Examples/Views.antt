-- ===== src/Examples/Views.antt =====
-- Calls with and without a header, views of a running watch, and an answer of the gateway.

use copilot_review_mcp.Common.{
  ℕ, pos, true, false, String, [], ◌∷◌, none, some, ◌≡◌, ◌↔◌, ◌≤◌, refl, inl, arith, length, All,
  string_eq, ◌==◌, if◌then◌else◌,
}
use copilot_review_mcp.Errors.{GoError, ok, err, plain}
use copilot_review_mcp.Github.Classify.{is_gateway_auth_error, classify_github_error}
use copilot_review_mcp.Github.Gateway.{HttpResponse, GatewayEnv, TokenSource, token}
use copilot_review_mcp.Github.Gateway.Laws.{error_class, asks_for_login, IsSent, token-class}
use copilot_review_mcp.Store.{Db}
use copilot_review_mcp.Middleware.{
  Strings, Context, extract_bearer, auth, served, login_from_context,
}
use copilot_review_mcp.Watch.State.{Watch, watching, Manager, snapshot_from_state}
use copilot_review_mcp.Watch.Start.{new_manager}
use copilot_review_mcp.Watch.Life.{IsWellFormed, Moves}
use copilot_review_mcp.Watch.Life.Runs.{run_calls, run_calls-Inv, run_calls-refines}
use copilot_review_mcp.Watch.Reads.{
  get_latest, list, collect, live_snapshots, matches_list_options, sort_snapshots, insert_snapshot,
}
use copilot_review_mcp.Tools.Auth.{Call, login_from_tool_request}
use copilot_review_mcp.Tools.Reply.{output}
use copilot_review_mcp.Tools.Watches.{
  ToolEnv, WatchSelector, GetReviewWatchStatusOutput, ListReviewWatchesInput,
  ListReviewWatchesOutput, view_at, status_output, list_note, get_watch_status_handler,
  limit_or_default, list_watches_handler, poll_after, build_review_watch_view,
}
use copilot_review_mcp.Tools.Watches.Laws.{IsOwn, ShowsOwn, db_store-KeepsLogins}
use copilot_review_mcp.Tools.Watches.Isolation.{
  get_watch_status_handler-IsOwn, list_watches_handler-IsOwn,
}
use copilot_review_mcp.Tools.Watches.Next.{IsTimely, view-poll_after_iff}
use copilot_review_mcp.Examples.Watching.{env, options, db, begun, ticks_inj}

abbrev pub strings : Strings
strings = record {
  fields = λ s. if s == "Bearer t" then "Bearer" ∷ "t" ∷ [] else [];
  equal_fold = λ s t. s == "Bearer";
}

abbrev pub header : String → String
header name =
    if name == "Authorization"
    then "Bearer t"
    else if name == "X-Authenticated-User"
    then "ann"
    else ""

abbrev pub context : Context
context = record { login = some "ann"; token = some "t" }

served_lem : auth strings header ≡ served context
unfolding auth extract_bearer
served_lem = refl

abbrev pub ann : Call
ann = record { extra = none; context = context }

abbrev pub tools : ToolEnv Db
tools = record {
  manager_env = env;
  strings = strings;
  rfc3339 = λ t. "time";
  id_gt = λ s t. false;
  error = plain;
  strip_prefix = λ s t. none;
  contains_any = λ s t. false;
}

abbrev pub manager : Manager Db
manager = run_calls env begun (new_manager (some db) options)

abbrev selector : WatchSelector
selector = record { watch_id = ""; owner = "o"; repo = "r"; pr = pos 7 }

abbrev status_shown : GetReviewWatchStatusOutput
status_shown =
    status_output tools manager 20
      (get_latest env (record { login = "ann"; owner = "o"; repo = "r"; pr = pos 7 }) manager)

status_shown_lem : get_watch_status_handler tools selector ann 20 manager ≡ output status_shown
unfolding get_watch_status_handler login_from_tool_request login_from_context
status_shown_lem = refl

get_watch_status_handler-IsOwn_example :
    ShowsOwn tools manager 20 (login_from_tool_request ann) status_shown.watch
get_watch_status_handler-IsOwn_example =
    get_watch_status_handler-IsOwn env.format.watch_id tools selector ann 20 manager status_shown
      (run_calls-Inv env ticks_inj begun (some db) options) db_store-KeepsLogins status_shown_lem

run_calls-refines_example :
    Moves env.format.watch_id
      (new_manager (some db) options)
      (run_calls env begun (new_manager (some db) options))
run_calls-refines_example = run_calls-refines env ticks_inj begun (some db) options

abbrev list_input : ListReviewWatchesInput
list_input = record { owner = ""; repo = ""; pr = pos 0; active_only = false; limit = pos 0 }

abbrev pub live : Watch
live = record {
  id = "x";
  key = record { login = "ann"; owner = "o"; repo = "r"; pr = pos 7 };
  trigger_log_id = none;
  resource_uri = none;
  token = "t";
  cancelled = false;
  client = some (record { token = "t"; login = "ann" });
  status = watching;
  review_status = none;
  failure_reason = none;
  terminal = false;
  worker_running = true;
  polls_done = 1;
  started_at = 5;
  updated_at = 6;
  completed_at = none;
  stale_at = none;
  last_polled_at = some 6;
  last_error = none;
  rate_limit_reset_at = none;
  upstream_failure_count = 0;
  recovery_hint = none;
}

live-IsWellFormed : IsWellFormed live
live-IsWellFormed = record {
  live = λ h. (refl, refl, refl, refl);
  ended = λ h. ground arith;
  reasoned = λ h. ground arith;
  unreasoned = λ h. refl;
  dated = λ h. ground arith;
}

view-poll_after_iff_example :
    let v = build_review_watch_view (λ t. "time") (snapshot_from_state live) 100 50 in
    ((v.recommended_next_action ≡ poll_after) ↔ (v.terminal ≡ false))
    × (v.terminal ≡ false
        → (n : ℕ) × (v.next_poll_seconds ≡ some n) × IsTimely 100 live.last_polled_at 50 n)
view-poll_after_iff_example = view-poll_after_iff (λ t. "time") live 100 50 live-IsWellFormed

-- A manager with no database.
abbrev pub one_watch : Manager Db
one_watch = record (new_manager none options) { watches_by_id = ("x", live) ∷ [] }

abbrev listed : ListReviewWatchesOutput
listed = record {
  watches = view_at tools one_watch 20 (snapshot_from_state live) ∷ [];
  count = 1;
  note = list_note (snapshot_from_state live ∷ []);
}

listed_lem : list_watches_handler tools list_input ann 20 one_watch ≡ output listed
unfolding list_watches_handler login_from_tool_request login_from_context list collect
    live_snapshots snapshot_from_state matches_list_options sort_snapshots insert_snapshot
    new_manager
listed_lem = refl

list_watches_handler-IsOwn_example :
    All (IsOwn tools one_watch 20 (login_from_tool_request ann)) listed.watches
    × (listed.count ≡ length listed.watches)
    × (listed.count ≤ limit_or_default tools list_input.limit)
    × (listed.count ≤ 100)
list_watches_handler-IsOwn_example =
    list_watches_handler-IsOwn tools list_input ann 20 one_watch listed db_store-KeepsLogins
      listed_lem

-- A gateway that answers each request with a status.
abbrev pub gateway_of : ℕ → GatewayEnv String
gateway_of status = record {
  trim_space = λ s. s;
  parse_url = λ s. ok (record { scheme = "http"; hostname = "localhost"; path = "/whoami" });
  equal_fold = λ s t. s == t;
  parse_ip = λ s. none;
  has_suffix = λ s t. s == t;
  marshal_subject = λ s. ok s;
  new_request = λ url secret body. ok body;
  send = λ q. ok (record { status = status; error_field = ""; body = ok "text" });
  unmarshal = λ s. ok (record { access_token = "a"; token_type = "bearer"; expires_at = "later" });
  parse_time = λ s. ok 99;
  detail = λ g. "detail";
  error = plain;
  wrapped = λ s e. e;
}

abbrev source : TokenSource
source = record { endpoint = "http://localhost/whoami"; secret = "s"; subject = "ann" }

abbrev answer : ℕ → HttpResponse
answer status = record { status = status; error_field = ""; body = ok "text" }

sent_lem : (status : ℕ) → IsSent (gateway_of status) source (answer status)
sent_lem status = ("ann", "ann", refl, refl, refl)

token-class_example :
    (x : GoError) × (token (gateway_of 404) source ≡ err x)
    × (classify_github_error (some x) ≡ error_class (gateway_of 404) (answer 404))
    × (is_gateway_auth_error x ≡ asks_for_login (gateway_of 404) (answer 404))
token-class_example =
    token-class (gateway_of 404) source (answer 404) (sent_lem 404) (inl (omega arith, omega arith))
