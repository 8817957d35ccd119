-- ===== src/Github/Checks.antt =====
-- `GetCIStatus` of internal/github/client.go. What the REST API answers is in `ChecksApi`.
pub mod Newest
pub mod Laws
use copilot_review_mcp.Common.{
  ℕ, zero, suc, ℤ, Bool, true, false, String, List, [], ◌∷◌, Option, none, some, ◌==◌, ◌||◌, ◌&&◌,
  ltb, string_eq, range_over, not, map, keep, if◌then◌else◌,
}
use Prim.Native.String.{◌++◌}
use copilot_review_mcp.Common.Map.{Map, lookup, insert}
use copilot_review_mcp.Errors.{GoError, Result, ok, err}
use copilot_review_mcp.Github.Pages.{Page, paginate}

pub record CiStatus : Type 0 where
  pub ok : Bool
  pub pending_checks : List String
  pub failed_checks : List String

-- A check run; a status or conclusion that is absent is the empty text.
pub record CheckRun : Type 0 where
  pub app : ℤ
  pub id : ℕ
  pub name : String
  pub status : String
  pub conclusion : String

-- `get_head` is the SHA of the pull request's head; `list_check_runs` is for that SHA, by page.
-- `str_lt` is Go's order on strings.
pub record ChecksApi : Type 0 where
  pub get_head : Result String
  pub list_check_runs : String → ℕ → Result (Page CheckRun)
  pub format_int : ℤ → String
  pub str_lt : String → String → Bool
  pub empty_head : GoError
  pub wrapped : String → GoError → GoError

-- The key by which reruns of a check are told.
abbrev pub run_key : (ℤ → String) → CheckRun → String
run_key format_int r = format_int r.app ++ ":" ++ r.name

-- The body of the loop over the runs, on `latest`.
unfoldable pub take_run : (ℤ → String) → CheckRun → Map String CheckRun → Map String CheckRun
take_run format_int r latest =
    let key = run_key format_int r in
    elim (lookup key latest) [
      | none ↦ insert key r latest
      | some existing ↦ if ltb existing.id r.id then insert key r latest else latest
    ]

unfoldable pub step_runs : (ℤ → String) → Page CheckRun → Map String CheckRun → Map String CheckRun
step_runs format_int p latest = range_over (take_run format_int) p.items latest

abbrev pub is_pending : CheckRun → Bool
is_pending r = not (r.status == "completed")

abbrev pub is_passing : CheckRun → Bool
is_passing r = r.conclusion == "success" || r.conclusion == "skipped" || r.conclusion == "neutral"

abbrev pub is_failed : CheckRun → Bool
is_failed r = not (is_pending r) && not (is_passing r)

-- `sort.Strings`.
unfoldable pub insert_string : (String → String → Bool) → String → List String → List String
insert_string lt x [] = x ∷ []
insert_string lt x (y ∷ ys) =
    let rest = insert_string lt x ys in if lt y x then y ∷ rest else x ∷ y ∷ ys

unfoldable pub sort_strings : (String → String → Bool) → List String → List String
unfolding insert_string
sort_strings lt [] = []
sort_strings lt (x ∷ xs) = insert_string lt x (sort_strings lt xs)

abbrev pub is_empty {ℓ} : {A : Type ℓ} → List A → Bool
is_empty [] = true
is_empty (x ∷ xs) = false

abbrev pub runs_of : Map String CheckRun → List CheckRun
runs_of m = map (λ (p : String × CheckRun). p.1) m

-- The status of the latest runs.
unfoldable pub ci_status_of : (String → String → Bool) → List CheckRun → CiStatus
ci_status_of lt rs =
    let pending = sort_strings lt (map (λ (r : CheckRun). r.name) (keep is_pending rs)) in
    let failed = sort_strings lt (map (λ (r : CheckRun). r.name) (keep is_failed rs)) in
    record {
      ok = is_empty pending && is_empty failed;
      pending_checks = pending;
      failed_checks = failed;
    }

-- `GetCIStatus`, with fuel for its loop; `none` means that the fuel ran out.
unfoldable pub get_ci_status : ℕ → ChecksApi → Option (Result CiStatus)
get_ci_status fuel api = elim api.get_head [
  | err e ↦ some (err (api.wrapped "failed to get PR: %w" e))
  | ok sha ↦
      if sha == ""
      then some (err api.empty_head)
      else elim (paginate (api.list_check_runs sha) (step_runs api.format_int) fuel 0 []) [
        | none ↦ none
        | some (latest, some e) ↦ some (err (api.wrapped "failed to list check runs: %w" e))
        | some (latest, none) ↦ some (ok (ci_status_of api.str_lt (runs_of latest)))
      ]
]
