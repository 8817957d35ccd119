-- ===== src/Tools/Cycle.antt =====
-- internal/tools/cycle.go: the handler of get_pr_review_cycle_status. What the GitHub client answers
-- is in `CycleClient`, what the standard library computes in `CycleEnv`. A note is a constructor with
-- the arguments of its format.
mod Data
pub mod Laws
pub mod Handler
pub use Data.*
use mathlib.Core.Option
use copilot_review_mcp.Common.{
  ℕ, ℤ, pos, Time, second, Bool, true, false, String, List, [], ◌∷◌, ◌++◌, Option, none, some, ◌+◌,
  ◌-◌, ◌*◌, ◌/◌, ◌==◌, ◌||◌, ◌&&◌, string_eq, is_positive, int_ltb, ltb, leb, nat_beq, any, length,
  not, after, is_zero, if◌then◌else◌,
}
use copilot_review_mcp.Common.Map.{Map, insert}
use copilot_review_mcp.Errors.{GoError, Result, ok, err, as_auth_error}
use copilot_review_mcp.Github.Threads.{ThreadComment, ReviewThread}
use copilot_review_mcp.Github.Checks.{CiStatus}
use copilot_review_mcp.Tools.Reply.{ToolReply, output, failure, fail_with}
use copilot_review_mcp.Github.Review.{
  ReviewStatus, not_requested, pending, in_progress, completed, blocked, ReviewData, derive_status,
  is_copilot,
}
use copilot_review_mcp.Store.{Db}
use copilot_review_mcp.Store.Trigger.{get_latest}
use copilot_review_mcp.Watch.Poll.{requested_of, prev_of}

-- `envMaxCycles` and `envNoCommentThreshold`.
abbrev pub env_max_cycles : CycleEnv → ℕ
env_max_cycles e = elim e.max_setting [ none ↦ 3 | some n ↦ if ltb 0 n then n else 3 ]

abbrev pub env_no_comment_threshold : CycleEnv → ℕ
env_no_comment_threshold e = elim e.threshold_setting [
  | none ↦ 6
  | some n ↦ if ltb 0 n then n else 6
]

-- The number of an int that is known not to be negative.
abbrev pub count : ℤ → ℕ
count (pos n) = n
count _ = 0

-- The limit from the input, or else from the environment.
abbrev pub max_cycles_of : CycleEnv → ℤ → ℕ
max_cycles_of e z = if is_positive z then count z else env_max_cycles e

-- `unresolvedCount`.
unfoldable pub unresolved_count : List ReviewThread → ℕ
unresolved_count [] = 0
unresolved_count (t ∷ ts) = let n = unresolved_count ts in if t.is_resolved then n else n + 1

-- `uniqueAuthors` of a thread.
unfoldable pub unique_authors :
    (String → String) → List ThreadComment → Map String (Unit {0}) → Map String (Unit {0})
unique_authors trim [] seen = seen
unique_authors trim (c ∷ cs) seen =
    let key = trim c.author in
    unique_authors trim cs (if key == "" then seen else insert key tt seen)

unfoldable pub is_replied : (String → String) → ReviewThread → Bool
is_replied trim t = not (ltb (length (unique_authors trim t.comments [])) 2)

-- The second result of `computeAllReplied`.
unfoldable pub unreplied : (String → String) → List ReviewThread → List String
unreplied trim [] = []
unreplied trim (t ∷ ts) =
    let rest = unreplied trim ts in
    if t.is_resolved then rest else if is_replied trim t then rest else t.id ∷ rest

-- The first result of `computeAllReplied`.
unfoldable pub all_replied : (String → String) → List ReviewThread → Bool
all_replied trim [] = true
all_replied trim (t ∷ ts) = (t.is_resolved || is_replied trim t) && all_replied trim ts

-- `findLatestCommentAt`, from the latest time so far; an author is not trimmed here.
unfoldable pub latest_comment : (String → Result Time) → List ThreadComment → Time → Time
latest_comment parse [] latest = latest
latest_comment parse (c ∷ cs) latest =
    let next : Time =
      if is_copilot c.author
      then (elim (parse c.created_at) [
        | err e ↦ latest
        | ok t ↦ if after t latest then t else latest
      ])
      else latest in
    latest_comment parse cs next

unfoldable pub latest_thread : (String → Result Time) → List ReviewThread → Time → Time
latest_thread parse [] latest = latest
latest_thread parse (t ∷ ts) latest =
    latest_thread parse ts (latest_comment parse t.comments latest)

unfoldable pub find_latest_comment_at : (String → Result Time) → List ReviewThread → Option Time
find_latest_comment_at parse ts =
    let latest = latest_thread parse ts 0 in if is_zero latest then none else some latest

abbrev pub minute : ℕ
minute = 60 * second

-- `elapsedMinutes` at a time; `Minutes` is rounded down, and what is not positive counts as 0.
unfoldable pub elapsed_minutes : CycleEnv → Time → Option String → List ReviewThread → Result ℕ
elapsed_minutes e now last ts =
    let auto : Result ℕ = elim (find_latest_comment_at e.parse_time ts) [
      | none ↦ ok 0
      | some t ↦ ok ((now - t) / minute)
    ] in
    elim last [
      | none ↦ auto
      | some text ↦ if text == "" then auto else elim (e.parse_time text) [
        | err x ↦ err (e.wrapped "invalid last_comment_at: must be RFC3339: %w" x)
        | ok t ↦ ok ((now - t) / minute)
      ]
    ]

-- `rereviewRequired`.
unfoldable pub is_rereview_required : String → Bool
is_rereview_required fix = fix == "logic" || fix == "spec_change"

-- The switch for `recommendedAction`: the status of the review, the unresolved threads, whether a
-- new review is required, whether all threads have replies, and the two termination conditions.
unfoldable pub recommend : ReviewStatus → ℕ → Bool → Bool → Bool → Bool → Action
recommend not_requested n rereview replied c₁ c₂ = wait
recommend pending n rereview replied c₁ c₂ = wait
recommend in_progress n rereview replied c₁ c₂ = wait
recommend status n rereview replied c₁ c₂ =
    if ltb 0 n
    then reply_resolve
    else if rereview
    then if replied then request_rereview else reply_resolve
    else if c₁ || c₂
    then ready_to_merge
    else wait

-- `cycleStatus`.
unfoldable pub cycle_status_of : Action → CycleStatus
cycle_status_of ready_to_merge = terminate
cycle_status_of escalate = terminate
cycle_status_of _ = continue

-- The reasons of the note where the cycle goes on.
unfoldable pub reasons : Bool → Bool → Action → ℕ → Bool → List Reason
reasons met rereview action n ci =
    let left = if ltb 0 n then unresolved_left n ∷ [] else [] in
    let unmet = left ++ (if ci then [] else ci_not_ok ∷ []) in
    if met
    then already_met ∷ (if rereview then rereview_needed else action_is action) ∷ []
    else elim unmet [ [] ↦ evaluating ∷ [] | r ∷ rs ↦ r ∷ rs ]

abbrev pub merge_conditions_of : CycleEnv → CiStatus → List ReviewThread → MergeConditions
merge_conditions_of e ci ts = record {
  ci_ok = ci.ok;
  unresolved_count = unresolved_count ts;
  all_replied = all_replied e.trim_space ts;
  pending_checks = ci.pending_checks;
  failed_checks = ci.failed_checks;
  unreplied_threads = unreplied e.trim_space ts;
}

abbrev pub reason_of : CycleEnv → String → Option String
reason_of e fix = if is_rereview_required fix then some (e.rereview_reason fix) else none

-- The answer where `cycles_done` has reached the limit.
unfoldable pub escalated :
    CycleEnv → CycleStatusInput → CiStatus → List ReviewThread → CycleStatusOutput
escalated e i ci ts =
    let limit = max_cycles_of e i.max_cycles in
    record {
      cycle_status = terminate;
      recommended_action = escalate;
      rereview_required = is_rereview_required i.fix_type;
      rereview_reason = reason_of e i.fix_type;
      cycles_done = i.cycles_done;
      max_cycles = limit;
      merge_conditions = merge_conditions_of e ci ts;
      notes = limit_reached limit ∷ pr_link i.owner i.repo i.pr ∷ human_needed ∷ [];
    }

-- The answer from all that was read.
unfoldable pub evaluated :
    CycleEnv
    → CycleStatusInput
    → CiStatus
    → List ReviewThread
    → ReviewStatus
    → ℕ
    → CycleStatusOutput
evaluated e i ci ts status elapsed =
    let n = unresolved_count ts in
    let rereview = is_rereview_required i.fix_type in
    let limit = max_cycles_of e i.max_cycles in
    let threshold = env_no_comment_threshold e in
    let c₁ = nat_beq n 0 && ci.ok in
    let c₂ = leb threshold elapsed && ci.ok in
    let action = recommend status n rereview (all_replied e.trim_space ts) c₁ c₂ in
    let ending : Note = elim (cycle_status_of action) [
      | terminate ↦ if c₁ then met_resolved else met_silent elapsed threshold
      | continue ↦ unmet (reasons (c₁ || c₂) rereview action n ci.ok)
    ] in
    record {
      cycle_status = cycle_status_of action;
      recommended_action = action;
      rereview_required = rereview;
      rereview_reason = reason_of e i.fix_type;
      cycles_done = i.cycles_done;
      max_cycles = limit;
      merge_conditions = merge_conditions_of e ci ts;
      notes =
          cycle_number (count i.cycles_done + 1) limit
          ∷ unresolved_threads n
          ∷ fix_note i.fix_type rereview
          ∷ ending
          ∷ action_note action
          ∷ [];
    }

unfoldable pub cycle_error : CycleEnv → CycleStatusInput → Option GoError
cycle_error e i =
    if i.owner == "" || i.repo == "" || not (is_positive i.pr)
    then some (e.error "owner, repo, and pr are required")
    else if int_ltb i.cycles_done 0
    then some (e.error "cycles_done must be >= 0 (got %d)")
    else if int_ltb i.max_cycles 0
    then some (e.error "max_cycles must be >= 0 when specified (got %d)")
    else if i.fix_type == ""
    then some (
        e.error
          "fix_type is required and must be one of: \"logic\", \"spec_change\", \"trivial\", \"none\"")
    else if any (λ f. i.fix_type == f) ("logic" ∷ "spec_change" ∷ "trivial" ∷ "none" ∷ [])
    then none
    else some (e.error "fix_type must be one of: logic, spec_change, trivial, none (got %q)")

-- The part of the handler after the limit of cycles.
unfoldable pub evaluate :
    CycleEnv
    → CycleStatusInput
    → CycleClient
    → Db
    → Time
    → CiStatus
    → List ReviewThread
    → ToolReply CycleStatusOutput
evaluate e i c db now ci ts = elim c.get_review_data [
  | err x ↦ fail_with (e.wrapped "failed to fetch review data: %w") x
  | ok d ↦
      if int_ltb d.rate_limit_remaining 10
      then failure (
          e.error
            "insufficient GitHub API rate limit remaining to safely derive review status: remaining=%d, retry-after=%s")
      else (elim (get_latest i.owner i.repo i.pr db) [
        | err x ↦ failure (e.wrapped "failed to fetch trigger log: %w" x)
        | ok entry ↦ elim (elapsed_minutes e now i.last_comment_at ts) [
          | err x ↦ failure x
          | ok elapsed ↦ output (
              evaluated e i ci ts
                (derive_status e.format_int d (requested_of entry) (prev_of entry)) elapsed)
        ]
      ])
]

-- `cycleStatusHandler`; `provider` is what the client provider returns.
unfoldable pub cycle_status_handler :
    CycleEnv → CycleStatusInput → Result CycleClient → Db → Time → ToolReply CycleStatusOutput
unfolding cycle_error
cycle_status_handler e i provider db now = elim (cycle_error e i) [
  | some x ↦ failure x
  | none ↦ elim provider [
    | err x ↦ fail_with (λ y. y) x
    | ok c ↦ elim c.get_ci_status [
      | err x ↦ fail_with (e.wrapped "failed to get CI status: %w") x
      | ok ci ↦ elim c.get_review_threads [
        | err x ↦ fail_with (e.wrapped "failed to fetch review threads: %w") x
        | ok ts ↦
            if not (int_ltb i.cycles_done (max_cycles_of e i.max_cycles))
            then output (escalated e i ci ts)
            else evaluate e i c db now ci ts
      ]
    ]
  ]
]
