-- ===== src/Store/Watches.antt =====
-- The review_watch methods of internal/store/db.go. The column is_active holds a Boolean, as 0 or 1.
pub mod Laws
pub mod Reads
pub mod Stale
pub mod Lists
pub mod Freshest
use mathlib.Core.Option
use copilot_review_mcp.Common.{
  ℕ, ℤ, Time, Bool, true, false, String, List, [], ◌∷◌, Option, none, some, map, length, keep, any,
  take, ltb, nat_beq, int_eq, string_eq, ◌==◌, to_unix, from_unix, is_positive, not, ◌&&◌, ◌||◌,
  if◌then◌else◌,
}
use copilot_review_mcp.Errors.{Result, ok, err}
use copilot_review_mcp.Store.{WatchRow, Db, exec, query}

-- `ReviewWatchEntry`.
pub record ReviewWatchEntry : Type 0 where
  pub id : String
  pub github_login : String
  pub owner : String
  pub repo : String
  pub pr : ℤ
  pub trigger_log_id : Option ℕ
  pub resource_uri : Option String
  pub watch_status : String
  pub review_status : Option String
  pub failure_reason : Option String
  pub is_active : Bool
  pub started_at : Time
  pub updated_at : Time
  pub completed_at : Option Time
  pub stale_at : Option Time
  pub last_error : Option String
  pub rate_limit_reset_at : Option Time
  pub recovery_hint : Option String

-- `ReviewWatchFilter`.
pub record ReviewWatchFilter : Type 0 where
  pub github_login : String
  pub owner : String
  pub repo : String
  pub pr : ℤ
  pub active_only : Bool
  pub limit : ℕ

-- The VALUES of the upsert, in a row of their own.
abbrev pub to_row : ℕ → ReviewWatchEntry → WatchRow
to_row rowid e = record {
  rowid = rowid;
  id = e.id;
  github_login = e.github_login;
  owner = e.owner;
  repo = e.repo;
  pr = e.pr;
  trigger_log_id = e.trigger_log_id;
  resource_uri = e.resource_uri;
  watch_status = e.watch_status;
  review_status = e.review_status;
  failure_reason = e.failure_reason;
  is_active = e.is_active;
  started_at = to_unix e.started_at;
  updated_at = to_unix e.updated_at;
  completed_at = Option.map to_unix e.completed_at;
  stale_at = Option.map to_unix e.stale_at;
  last_error = e.last_error;
  rate_limit_reset_at = Option.map to_unix e.rate_limit_reset_at;
  recovery_hint = e.recovery_hint;
}

-- DO UPDATE SET: the key of the watch and started_at stay.
abbrev pub update_row : WatchRow → ReviewWatchEntry → WatchRow
update_row r e = record r {
  trigger_log_id = e.trigger_log_id;
  resource_uri = e.resource_uri;
  watch_status = e.watch_status;
  review_status = e.review_status;
  failure_reason = e.failure_reason;
  is_active = e.is_active;
  updated_at = to_unix e.updated_at;
  completed_at = Option.map to_unix e.completed_at;
  stale_at = Option.map to_unix e.stale_at;
  last_error = e.last_error;
  rate_limit_reset_at = Option.map to_unix e.rate_limit_reset_at;
  recovery_hint = e.recovery_hint;
}

-- `scanReviewWatch`.
abbrev pub scan_review_watch : WatchRow → ReviewWatchEntry
scan_review_watch r = record {
  id = r.id;
  github_login = r.github_login;
  owner = r.owner;
  repo = r.repo;
  pr = r.pr;
  trigger_log_id = r.trigger_log_id;
  resource_uri = r.resource_uri;
  watch_status = r.watch_status;
  review_status = r.review_status;
  failure_reason = r.failure_reason;
  is_active = r.is_active;
  started_at = from_unix r.started_at;
  updated_at = from_unix r.updated_at;
  completed_at = Option.map from_unix r.completed_at;
  stale_at = Option.map from_unix r.stale_at;
  last_error = r.last_error;
  rate_limit_reset_at = Option.map from_unix r.rate_limit_reset_at;
  recovery_hint = r.recovery_hint;
}

-- WHERE id = ?
unfoldable pub find_row : String → List WatchRow → Option WatchRow
find_row id [] = none
find_row id (r ∷ rows) = if r.id == id then some r else find_row id rows

abbrev pub same_key : WatchRow → WatchRow → Bool
same_key r s =
    r.github_login == s.github_login && r.owner == s.owner && r.repo == s.repo && r.pr == s.pr

-- Two rows that idx_review_watch_active_per_pr does not allow together.
abbrev pub both_active : WatchRow → WatchRow → Bool
both_active r s = r.is_active && s.is_active && same_key r s

-- A row of another id forbids this one.
unfoldable pub is_forbidden : WatchRow → List WatchRow → Bool
is_forbidden r rows = any (λ s. not (s.id == r.id) && both_active r s) rows

unfoldable pub replace_row : WatchRow → List WatchRow → List WatchRow
replace_row r [] = []
replace_row r (s ∷ rows) =
    let rest = replace_row r rows in if s.id == r.id then r ∷ rows else s ∷ rest

abbrev put_rows : Db → WatchRow → List WatchRow → Result (Unit {0}) × Db
put_rows d r rows =
    if is_forbidden r d.review_watch
    then (err d.constraint_error, d)
    else (ok tt, record d { review_watch = rows })

-- `UpsertReviewWatch`.
unfoldable pub upsert_review_watch : ReviewWatchEntry → Db → Result (Unit {0}) × Db
upsert_review_watch e d = exec d (elim (find_row e.id d.review_watch) [
  | none ↦
      let r = to_row (d.new_rowid (map (λ s. s.rowid) d.review_watch)) e in
      put_rows d r (r ∷ d.review_watch)
  | some old ↦ let r = update_row old e in put_rows d r (replace_row r d.review_watch)
])

-- `GetReviewWatchByID`.
unfoldable pub get_review_watch_by_id : String → Db → Result (Option ReviewWatchEntry)
get_review_watch_by_id id d =
    query d (ok (Option.map scan_review_watch (find_row id d.review_watch)))

-- ORDER BY updated_at DESC, started_at DESC, rowid DESC: the first row comes before the second.
abbrev pub fresher : WatchRow → WatchRow → Bool
fresher r s =
    ltb s.updated_at r.updated_at
    || (nat_beq s.updated_at r.updated_at
        && (ltb s.started_at r.started_at
            || (nat_beq s.started_at r.started_at && ltb s.rowid r.rowid)))

-- ORDER BY is_active DESC, and then as above.
abbrev pub listed_before : WatchRow → WatchRow → Bool
listed_before r s =
    (r.is_active && not s.is_active)
    || ((not (r.is_active && not s.is_active) && not (s.is_active && not r.is_active))
        && fresher r s)

-- The rows in the order of a test, equal rows in table order.
unfoldable pub insert_row : (WatchRow → WatchRow → Bool) → WatchRow → List WatchRow → List WatchRow
insert_row lt r [] = r ∷ []
insert_row lt r (s ∷ rows) =
    let rest = insert_row lt r rows in if lt s r then s ∷ rest else r ∷ s ∷ rows

unfoldable pub sort_rows : (WatchRow → WatchRow → Bool) → List WatchRow → List WatchRow
unfolding insert_row
sort_rows lt [] = []
sort_rows lt (r ∷ rows) = insert_row lt r (sort_rows lt rows)

abbrev pub first {ℓ} : {A : Type ℓ} → List A → Option A
first [] = none
first (x ∷ xs) = some x

-- WHERE github_login = ? AND owner = ? AND repo = ? AND pr = ?
abbrev pub of_key : String → String → String → ℤ → WatchRow → Bool
of_key login owner repo pr r =
    r.github_login == login && r.owner == owner && r.repo == repo && r.pr == pr

-- `GetLatestReviewWatch`.
unfoldable pub get_latest_review_watch :
    String → String → String → ℤ → Db → Result (Option ReviewWatchEntry)
get_latest_review_watch login owner repo pr d = query d (
    ok (
      Option.map scan_review_watch
        (first (sort_rows fresher (keep (of_key login owner repo pr) d.review_watch)))))

-- The WHERE clause that ListReviewWatches assembles.
abbrev pub matches_filter : ReviewWatchFilter → WatchRow → Bool
matches_filter f r =
    r.github_login == f.github_login
    && (f.owner == "" || r.owner == f.owner)
    && (f.repo == "" || r.repo == f.repo)
    && (not (is_positive f.pr) || r.pr == f.pr)
    && (not f.active_only || r.is_active)

-- The LIMIT clause, left out where the limit is not positive.
abbrev pub limited {ℓ} : {A : Type ℓ} → ℕ → List A → List A
limited limit xs = if ltb 0 limit then take limit xs else xs

-- `ListReviewWatches`.
unfoldable pub list_review_watches : ReviewWatchFilter → Db → Result (List ReviewWatchEntry)
list_review_watches f d = query d (
    ok (
      map scan_review_watch
        (limited f.limit (sort_rows listed_before (keep (matches_filter f) d.review_watch)))))

-- COALESCE(column, now)
abbrev coalesce : Option ℕ → ℕ → Option ℕ
coalesce none now = some now
coalesce (some t) now = some t

-- The CASE on last_error.
abbrev stale_error : Option String → String → Option String
stale_error old text =
    if text == ""
    then old
    else elim old [ none ↦ some text | some s ↦ if s == "" then some text else some s ]

abbrev pub stale_row : ℕ → String → WatchRow → WatchRow
stale_row now text r =
    if r.is_active
    then record r {
      watch_status = "STALE";
      failure_reason = none;
      is_active = false;
      updated_at = now;
      completed_at = coalesce r.completed_at now;
      stale_at = coalesce r.stale_at now;
      last_error = stale_error r.last_error text;
    }
    else r

-- `MarkActiveReviewWatchesStale`, with the number of rows affected.
unfoldable pub mark_active_review_watches_stale : String → Db → Result ℕ × Db
mark_active_review_watches_stale text d = exec d (
  ok (length (keep (λ r. r.is_active) d.review_watch)),
  record d { review_watch = map (stale_row d.clock text) d.review_watch },
)

-- The statement at the end of `Open`.
unfoldable pub stale_on_open : Db → Result ℕ × Db
unfolding mark_active_review_watches_stale
stale_on_open =
    mark_active_review_watches_stale "watch became stale because the review-raven process restarted"
