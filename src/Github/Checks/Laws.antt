-- ===== src/Github/Checks/Laws.antt =====
-- What the CI status says of the check runs: each check is judged by its newest run.
use mathlib.Core.Path.{subst}
use copilot_review_mcp.Common.{
  ℕ, suc, ℤ, Bool, true, false, String, List, [], ◌∷◌, Option, none, some, arith, ◌≡◌, ◌==◌, ◌&&◌,
  inl, inr, refl, sym, ap, ◌∙◌, string_eq, eq_iff, range_over, keep, map, not, Bool-cases,
  Option-cases,
}
use copilot_review_mcp.Common.Map.{Map, lookup, NoDup}
use copilot_review_mcp.Errors.{Result, ok, err, Result-cases}
use copilot_review_mcp.Github.Pages.{
  Page, paginate, IsNumbered, paginate_total, Gathers, paginate-Gathers,
}
use copilot_review_mcp.Github.Checks.{
  CiStatus, CheckRun, ChecksApi, take_run, step_runs, is_pending, is_passing, is_failed,
  insert_string, sort_strings, is_empty, runs_of, ci_status_of, get_ci_status,
}
use copilot_review_mcp.Github.Checks.Newest.{
  IsNewest, lookup-take_runs, finds-IsNewest, take_runs-NoDup,
}

-- Completed, with a conclusion that passes.
abbrev pub is_passed : CheckRun → Bool
is_passed r = not (is_pending r) && is_passing r

abbrev all_passed : List CheckRun → Bool
all_passed [] = true
all_passed (r ∷ rs) = is_passed r && all_passed rs

is_empty-insert_string :
    (lt : String → String → Bool) (x : String) (xs : List String)
    → is_empty (insert_string lt x xs) ≡ false
unfolding insert_string
is_empty-insert_string lt x [] = refl
is_empty-insert_string lt x (y ∷ ys) = ground arith

is_empty-sort_strings :
    (lt : String → String → Bool) (xs : List String) → is_empty (sort_strings lt xs) ≡ is_empty xs
unfolding sort_strings
is_empty-sort_strings lt [] = refl
is_empty-sort_strings lt (x ∷ xs) = is_empty-insert_string lt x (sort_strings lt xs)

both_empty :
    (rs : List CheckRun)
    → (is_empty (map (λ (r : CheckRun). r.name) (keep is_pending rs))
        && is_empty (map (λ (r : CheckRun). r.name) (keep is_failed rs)))
      ≡ all_passed rs
both_empty [] = refl
both_empty (r ∷ rs) = ground (arith, both_empty rs)

ok-ci_status_of :
    (lt : String → String → Bool) (rs : List CheckRun) → (ci_status_of lt rs).ok ≡ all_passed rs
unfolding ci_status_of
ok-ci_status_of lt rs = ground (
  arith,
  both_empty rs,
  is_empty-sort_strings lt (map (λ (r : CheckRun). r.name) (keep is_pending rs)),
  is_empty-sort_strings lt (map (λ (r : CheckRun). r.name) (keep is_failed rs)),
)

all_passed-lookup :
    (m : Map String CheckRun) (k : String) (r : CheckRun)
    → all_passed (runs_of m) ≡ true
    → lookup k m ≡ some r
    → is_passed r ≡ true
unfolding lookup
all_passed-lookup [] k r h e = ground arith
all_passed-lookup ((j, s) ∷ m) k r h e = elim (Bool-cases (j == k)) [
  | inl b ↦ let same : s ≡ r = ground arith in subst (λ x. is_passed x ≡ true) same (ground arith)
  | inr b ↦ all_passed-lookup m k r (ground arith) (ground arith)
]

not_passed-lookup :
    (m : Map String CheckRun)
    → NoDup m
    → all_passed (runs_of m) ≡ false
    → (k : String) × (r : CheckRun) × (lookup k m ≡ some r) × (is_passed r ≡ false)
unfolding lookup
not_passed-lookup [] h e = ground arith
not_passed-lookup ((j, s) ∷ m) h e = elim (Bool-cases (is_passed s)) [
  | inr b ↦ (j, s, ground (arith, eq_iff j j), b)
  | inl b ↦
      let (k, r, q, p) = not_passed-lookup m h.1 (ground arith) in
      elim (Bool-cases (j == k)) [
        | inl c ↦
            let same : j ≡ k = ground (arith, eq_iff j k) in
            let twice : lookup k m ≡ none = subst (λ x. lookup x m ≡ none) same h.0 in ground arith
        | inr c ↦ (k, r, ground arith, p)
      ]
]

-- The verdict that a choice of one run per key gives.
abbrev pub IsVerdict : (String → Option CheckRun) → Bool → Type 0
IsVerdict newest b =
    (b ≡ true → (k : String) (r : CheckRun) → newest k ≡ some r → is_passed r ≡ true)
    × (b ≡ false → (k : String) × (r : CheckRun) × (newest k ≡ some r) × (is_passed r ≡ false))

IsVerdict-ci_status_of :
    (lt : String → String → Bool) (m : Map String CheckRun)
    → NoDup m
    → IsVerdict (λ k. lookup k m) (ci_status_of lt (runs_of m)).ok
IsVerdict-ci_status_of lt m h =
    let same = ok-ci_status_of lt (runs_of m) in
    (
      (λ b k r q. all_passed-lookup m k r (sym same ∙ b) q),
      (λ b. not_passed-lookup m h (sym same ∙ b)),
    )

step_runs-range_over :
    (f : ℤ → String) (p : Page CheckRun) (m : Map String CheckRun)
    → step_runs f p m ≡ range_over (take_run f) p.items m
unfolding step_runs
step_runs-range_over f p m = refl

latest-gathered :
    (f : ℤ → String) (rs : List CheckRun) (m : Map String CheckRun)
    → m ≡ range_over (take_run f) rs []
    → NoDup m × ((k : String) → IsNewest f rs k (lookup k m))
unfolding lookup
latest-gathered f rs m e = (
  subst NoDup (sym e) (take_runs-NoDup f rs [] tt),
  (λ k.
      subst (IsNewest f rs k) (sym (ap (lookup k) e ∙ lookup-take_runs f k rs []))
        (finds-IsNewest f k rs)),
)

-- What GetCIStatus answers without an error: the runs of all pages for the head of the pull request
-- were read, each check (an app and a name) is judged by one run of its highest ID, and `ok` holds if
-- and only if each of these has completed and passed.
pub get_ci_status-IsVerdict :
    (fuel : ℕ) (api : ChecksApi) (c : CiStatus)
    → get_ci_status fuel api ≡ some (ok c)
    → (sha : String) × (api.get_head ≡ ok sha)
      × (rs : List CheckRun) × Gathers (api.list_check_runs sha) 0 rs
      × (newest : String → Option CheckRun) × ((k : String)
          → IsNewest api.format_int rs k (newest k))
      × IsVerdict newest c.ok
unfolding get_ci_status
get_ci_status-IsVerdict fuel api c h = elim (Result-cases api.get_head) [
  | inl (e, q) ↦ ground arith
  | inr (sha, q) ↦
      let f = api.format_int in
      let fetch = api.list_check_runs sha in
      elim (Bool-cases (sha == "")) [
        | inl b ↦ ground arith
        | inr b ↦ elim (Option-cases (paginate fetch (step_runs f) fuel 0 [])) [
          | inl x ↦ ground arith
          | inr ((m, some e), x) ↦ ground arith
          | inr ((m, none), x) ↦
              let (rs, g, v) =
                paginate-Gathers fetch (step_runs f) (λ y. y) (take_run f) (step_runs-range_over f)
                  fuel 0 [] m x in
              let (d, n) = latest-gathered f rs m v in
              let same : ci_status_of api.str_lt (runs_of m) ≡ c = ground arith in
              (
                sha,
                q,
                rs,
                g,
                (λ k. lookup k m),
                n,
                subst (λ y. IsVerdict (λ k. lookup k m) y.ok) same
                    (IsVerdict-ci_status_of api.str_lt m d),
              )
        ]
      ]
]

-- Where the pages are numbered upwards below a bound, fuel above the bound is enough: GetCIStatus
-- returns a status or an error.
pub get_ci_status_total :
    (last : ℕ) (api : ChecksApi)
    → ((sha : String) → IsNumbered (api.list_check_runs sha) last)
    → (r : Result CiStatus) × (get_ci_status (suc last) api ≡ some r)
unfolding get_ci_status
get_ci_status_total last api h = elim (Result-cases api.get_head) [
  | inl (e, q) ↦ (err (api.wrapped "failed to get PR: %w" e), ground arith)
  | inr (sha, q) ↦
      let ((m, e), x) =
        paginate_total (api.list_check_runs sha) (step_runs api.format_int) last (suc last) 0 []
          (h sha) (omega arith) (omega arith) in
      elim (Bool-cases (sha == "")) [
        | inl b ↦ (err api.empty_head, ground arith)
        | inr b ↦ elim (Option-cases e) [
          | inl c ↦ (ok (ci_status_of api.str_lt (runs_of m)), ground arith)
          | inr (y, c) ↦ (err (api.wrapped "failed to list check runs: %w" y), ground arith)
        ]
      ]
]
