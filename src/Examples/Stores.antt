-- ===== src/Examples/Stores.antt =====
-- A database with one trigger and one active watch.

use mathlib.Core.Option
use copilot_review_mcp.Common.{
  Option, ℕ, pos, suc, true, false, String, List, [], ◌∷◌, none, some, ◌≡◌, ◌<◌, ◌≤◌, ◌+◌, ◌==◌,
  refl, All, arith, to_unix, from_unix, string_eq, int_eq, second, ◌*◌, if◌then◌else◌,
}
use copilot_review_mcp.Errors.{ok, plain}
use copilot_review_mcp.Store.{TriggerRow, WatchRow, Db, Grows}
use copilot_review_mcp.Store.Trigger.{get_latest, insert_with_prev_review_id}
use copilot_review_mcp.Store.Trigger.Laws.{get_latest-insert}
use copilot_review_mcp.Store.Watches.{
  ReviewWatchEntry, find_row, is_forbidden, replace_row, upsert_review_watch,
  get_latest_review_watch, get_review_watch_by_id, scan_review_watch, update_row,
}
use copilot_review_mcp.Store.Watches.Freshest.{
  IsOfKey, IsFreshest, get_latest_review_watch-IsFreshest,
}
use copilot_review_mcp.Store.Watches.Reads.{merged, get-upsert}

abbrev pub above : List ℕ → ℕ
above [] = 1
above (i ∷ is) = suc i + above is

above-All : (is : List ℕ) (n : ℕ) → above is ≤ n → All (λ i. i < n) is
above-All [] n h = tt
above-All (i ∷ is) n h = (omega arith, above-All is n (omega arith))

pub above-Grows : Grows above
above-Grows is = above-All is (above is) (omega arith)

abbrev trigger_row : TriggerRow
trigger_row = record {
  id = 1;
  owner = "o";
  repo = "r";
  pr = pos 7;
  trigger = "MANUAL";
  requested_at = 3;
  completed_at = some 4;
  prev_review_id = none;
}

abbrev watch_row : WatchRow
watch_row = record {
  rowid = 1;
  id = "w";
  github_login = "ann";
  owner = "o";
  repo = "r";
  pr = pos 7;
  trigger_log_id = some 1;
  resource_uri = none;
  watch_status = "WATCHING";
  review_status = none;
  failure_reason = none;
  is_active = true;
  started_at = 3;
  updated_at = 3;
  completed_at = none;
  stale_at = none;
  last_error = none;
  rate_limit_reset_at = none;
  recovery_hint = none;
}

abbrev pub db : Db
db = record {
  trigger_log = trigger_row ∷ [];
  review_watch = watch_row ∷ [];
  clock = 9;
  fault = none;
  new_rowid = above;
  constraint_error = plain "constraint";
}

abbrev watch_name : String
watch_name = "w"

abbrev watch_entry : ReviewWatchEntry
watch_entry = scan_review_watch watch_row

abbrev later_entry : ReviewWatchEntry
later_entry = record watch_entry { watch_status = "COMPLETED"; is_active = false }

abbrev updated : Db
updated = record db { review_watch = update_row watch_row later_entry ∷ [] }

get_latest-insert_example :
    let (r, d') = insert_with_prev_review_id "o" "r" (pos 7) "AUTO" (8 * second) "5" db in
    (id : ℕ) × (r ≡ ok id)
    × (get_latest "o" "r" (pos 7) d'
        ≡ ok (
            some (record {
              id = id;
              trigger = "AUTO";
              requested_at = from_unix (to_unix (8 * second));
              completed_at = none;
              prev_review_id = some "5";
            })))
get_latest-insert_example =
    get_latest-insert "o" "r" (pos 7) "AUTO" (8 * second) "5" db refl above-Grows
      (λ e. omega arith, tt)

upsert_one : upsert_review_watch later_entry db ≡ (ok tt, updated)
unfolding upsert_review_watch find_row is_forbidden replace_row
upsert_one = refl

found_one : get_review_watch_by_id "w" db ≡ ok (some watch_entry)
unfolding get_review_watch_by_id find_row
found_one = refl

get-upsert_example : get_review_watch_by_id "w" updated ≡ (
    if watch_name == "w"
    then ok (some (merged (some watch_entry) later_entry))
    else get_review_watch_by_id "w" db)
get-upsert_example = get-upsert later_entry db updated "w" (some watch_entry) upsert_one found_one

get_latest_review_watch-IsFreshest_example :
    (r : Option WatchRow) × (get_latest_review_watch "ann" "o" "r" (pos 7) db
      ≡ ok (Option.map scan_review_watch r))
    × IsFreshest (IsOfKey "ann" "o" "r" (pos 7)) db.review_watch r
get_latest_review_watch-IsFreshest_example =
    get_latest_review_watch-IsFreshest "ann" "o" "r" (pos 7) db refl
