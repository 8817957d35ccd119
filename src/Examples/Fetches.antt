-- ===== src/Examples/Fetches.antt =====
-- Reads of a pull request with two pages of reviews, two runs of one check and one thread.
use mathlib.Core.Path.{subst}
use copilot_review_mcp.Common.{
  ℕ, zero, suc, pos, Bool, true, false, String, List, [], ◌∷◌, Option, none, some, ◌≡◌, ◌⊎◌, ◌≤◌,
  ◌<◌, refl, inl, inr, arith, ap, sym, string_eq,
}
use copilot_review_mcp.Errors.{Result, ok, plain}
use copilot_review_mcp.Github.Pages.{Response, Page, next_of, paginate, IsNumbered, Gathers}
use copilot_review_mcp.Github.Review.{ReviewData, is_copilot}
use copilot_review_mcp.Github.Fetch.{
  Review, Event, ReviewApi, get_review_data, get_reviews, get_timeline, with_reviewers, with_rate,
  step_reviews, take_review, step_timeline,
}
use copilot_review_mcp.Github.Fetch.Laws.{
  IsLatestReview, get_review_data_total, get_review_data-latest,
}
use copilot_review_mcp.Github.Threads.{
  ReviewThreadNode, ThreadApi, thread_of, get_review_threads, all_nodes, ThreadService,
  resolve_thread, is_thread_resolved,
}
use copilot_review_mcp.Github.Threads.Laws.{Resolves}
use copilot_review_mcp.Github.Checks.{
  CiStatus, CheckRun, ChecksApi, get_ci_status, step_runs, take_run, ci_status_of, sort_strings,
  insert_string,
}
use copilot_review_mcp.Github.Checks.Newest.{IsNewest}
use copilot_review_mcp.Github.Checks.Laws.{IsVerdict, get_ci_status-IsVerdict}
use copilot_review_mcp.Common.Map.{lookup, insert}

abbrev enough : Option Response
enough = some (record { remaining = pos 50; reset = 9; next_page = 0 })

abbrev continued : Option Response
continued = some (record { remaining = pos 50; reset = 9; next_page = 2 })

abbrev review : ℕ → Review
review n = record { login = "Copilot"; id = pos n; state = "COMMENTED"; submitted_at = n }

abbrev review_page : ℕ → Page Review
review_page zero = record { items = review 5 ∷ []; response = continued }
review_page (suc n) = record { items = review 8 ∷ []; response = enough }

abbrev pub api : ReviewApi
api = record {
  list_reviewers = ok ("Copilot" ∷ [], enough);
  list_reviews = λ n. ok (review_page n);
  list_timeline = λ n. ok (record { items = []; response = none });
}

next_of-review_page :
    (n : ℕ)
    → (next_of (review_page n).response ≡ 0)
      ⊎ ((n < next_of (review_page n).response) × (next_of (review_page n).response ≤ 2))
next_of-review_page zero = inr (omega arith, omega arith)
next_of-review_page (suc n) = inl refl

reviews-IsNumbered : IsNumbered api.list_reviews 2
reviews-IsNumbered n p h =
    let same : review_page n ≡ p = ground arith in
    subst
      (λ (q : Page Review).
        (next_of q.response ≡ 0) ⊎ ((n < next_of q.response) × (next_of q.response ≤ 2)))
      same (next_of-review_page n)

timeline-IsNumbered : IsNumbered api.list_timeline 2
timeline-IsNumbered n p h =
    let same : (record { items = []; response = none }) ≡ p = ground arith in
    inl (subst (λ (q : Page Event). next_of q.response ≡ 0) same refl)

get_review_data_total_example : (r : Result ReviewData) × (get_review_data 3 api ≡ some r)
get_review_data_total_example = get_review_data_total 2 api reviews-IsNumbered timeline-IsNumbered

abbrev pub fetched : ReviewData
fetched = record {
  is_copilot_in_reviewers = true;
  latest_copilot_review = some (record { id = pos 8; state = "COMMENTED"; submitted_at = some 8 });
  rate_limit_remaining = pos 50;
  rate_limit_reset = 9;
  review_requested_at = none;
  work_started_at = none;
  skipped_timeline = false;
}

pub fetched_lem : get_review_data 3 api ≡ some (ok fetched)
unfolding get_review_data get_reviews get_timeline with_reviewers with_rate step_reviews take_review
    step_timeline paginate is_copilot
fetched_lem = refl

get_review_data-latest_example :
    (rs : List Review) × Gathers api.list_reviews 0 rs
    × IsLatestReview rs fetched.latest_copilot_review
    × (fetched.skipped_timeline ≡ false)
get_review_data-latest_example = get_review_data-latest 3 api fetched fetched_lem refl

abbrev run : ℕ → String → CheckRun
run n conclusion = record {
  app = pos 1;
  id = n;
  name = "build";
  status = "completed";
  conclusion = conclusion;
}

abbrev checks : ChecksApi
checks = record {
  get_head = ok "abc";
  list_check_runs =
      λ sha n. ok (record { items = run 2 "success" ∷ run 1 "failure" ∷ []; response = none });
  format_int = λ n. "1";
  str_lt = λ s t. false;
  empty_head = plain "empty";
  wrapped = λ s e. e;
}

abbrev green : CiStatus
green = record { ok = true; pending_checks = []; failed_checks = [] }

green_lem : get_ci_status 1 checks ≡ some (ok green)
unfolding get_ci_status paginate step_runs take_run ci_status_of sort_strings insert_string lookup
    insert
green_lem = refl

get_ci_status-IsVerdict_example :
    (sha : String) × (checks.get_head ≡ ok sha)
    × (rs : List CheckRun) × Gathers (checks.list_check_runs sha) 0 rs
    × (newest : String → Option CheckRun) × ((k : String)
        → IsNewest checks.format_int rs k (newest k))
    × IsVerdict newest green.ok
get_ci_status-IsVerdict_example = get_ci_status-IsVerdict 1 checks green green_lem

abbrev node : ReviewThreadNode
node = record {
  id = "T1";
  is_resolved = false;
  is_outdated = false;
  path = "main.go";
  line = none;
  start_line = none;
  comments = [];
}

abbrev thread_api : ThreadApi
thread_api = record {
  query_threads = λ c. ok (record { nodes = node ∷ []; has_next_page = false; end_cursor = "" });
  rfc3339 = λ t. "time";
  out_of_range = λ n. plain "range";
  wrapped = λ s e. e;
}

threads_lem :
    get_review_threads thread_api 1 (pos 7) ≡ some (ok (thread_of thread_api.rfc3339 node ∷ []))
unfolding get_review_threads all_nodes
threads_lem = refl

-- A service whose state is whether its one thread is resolved.
abbrev pub service : ThreadService Bool
service = record {
  query_resolved = λ id b. ok b;
  query_meta =
      λ id b. ok (record { owner = "o"; repo = "r"; number = pos 7; comments = pos 1 ∷ [] });
  create_reply = λ meta body id b. (ok (record { id = pos 2; created_at = 3 }), b);
  resolve = λ id b. (ok tt, true);
  format_int = λ n. "2";
  rfc3339 = λ t. "time";
  wrapped = λ s e. e;
  no_comments = plain "no comments";
}

pub service-Resolves : Resolves service
service-Resolves id g g' u h =
    let same : true ≡ g' = ap (λ (p : Result (Unit {0}) × Bool). p.1) h in ap ok (sym same)

resolved_lem : resolve_thread service "T1" false ≡ (ok false, true)
unfolding resolve_thread is_thread_resolved
resolved_lem = refl
