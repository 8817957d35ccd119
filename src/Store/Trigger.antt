-- ===== src/Store/Trigger.antt =====
-- The trigger_log methods of internal/store/db.go.
pub mod Laws
pub mod Settled
use mathlib.Core.Option
use copilot_review_mcp.Common.{
  ℕ, ℤ, Time, Bool, true, false, String, List, [], ◌∷◌, Option, none, some, map, length, keep, ltb,
  nat_beq, int_eq, string_eq, ◌==◌, to_unix, from_unix, is_some, not, ◌&&◌, ◌||◌, if◌then◌else◌,
}
use copilot_review_mcp.Errors.{Result, ok}
use copilot_review_mcp.Store.{TriggerRow, Db, exec, query}

-- `TriggerEntry`.
pub record TriggerEntry : Type 0 where
  pub id : ℕ
  pub trigger : String
  pub requested_at : Time
  pub completed_at : Option Time
  pub prev_review_id : Option String

-- WHERE owner = ? AND repo = ? AND pr = ?
abbrev pub of_pr : String → String → ℤ → TriggerRow → Bool
of_pr owner repo pr r = r.owner == owner && r.repo == repo && r.pr == pr

new_id : Db → ℕ
new_id d = d.new_rowid (map (λ r. r.id) d.trigger_log)

add_row : Db → String → String → ℤ → String → ℕ → Option String → Result ℕ × Db
unfolding new_id
add_row d owner repo pr trigger requested_at prev = exec d (
    let id = new_id d in
    (
      ok id,
      record d {
        trigger_log =
            record {
              id = id;
              owner = owner;
              repo = repo;
              pr = pr;
              trigger = trigger;
              requested_at = requested_at;
              completed_at = none;
              prev_review_id = prev;
            }
            ∷ d.trigger_log;
      },
    ))

-- `Insert`: requested_at is the column's default, the time of the statement.
unfoldable pub insert : String → String → ℤ → String → Db → Result ℕ × Db
unfolding add_row
insert owner repo pr trigger d = add_row d owner repo pr trigger d.clock none

-- `InsertWithTime`.
unfoldable pub insert_with_time : String → String → ℤ → String → Time → Db → Result ℕ × Db
unfolding add_row
insert_with_time owner repo pr trigger at d = add_row d owner repo pr trigger (to_unix at) none

-- `InsertWithPrevReviewID`.
unfoldable pub insert_with_prev_review_id :
    String → String → ℤ → String → Time → String → Db → Result ℕ × Db
unfolding add_row
insert_with_prev_review_id owner repo pr trigger at prev d =
    add_row d owner repo pr trigger (to_unix at) (some prev)

-- ORDER BY requested_at DESC, id DESC: the first row comes before the second.
abbrev pub newer : TriggerRow → TriggerRow → Bool
newer r s =
    ltb s.requested_at r.requested_at || (nat_beq s.requested_at r.requested_at && ltb s.id r.id)

abbrev pub newest : TriggerRow → Option TriggerRow → TriggerRow
newest r none = r
newest r (some s) = if newer s r then s else r

-- LIMIT 1 of the ordered rows.
unfoldable pub first_row : List TriggerRow → Option TriggerRow
first_row [] = none
first_row (r ∷ rs) = some (newest r (first_row rs))

abbrev pub entry : TriggerRow → TriggerEntry
entry r = record {
  id = r.id;
  trigger = r.trigger;
  requested_at = from_unix r.requested_at;
  completed_at = Option.map from_unix r.completed_at;
  prev_review_id = r.prev_review_id;
}

-- `GetLatest`.
unfoldable pub get_latest : String → String → ℤ → Db → Result (Option TriggerEntry)
get_latest owner repo pr d =
    query d (ok (Option.map entry (first_row (keep (of_pr owner repo pr) d.trigger_log))))

abbrev complete_row : ℕ → ℕ → TriggerRow → TriggerRow
complete_row now id r =
    if nat_beq r.id id && not (is_some r.completed_at)
    then record r { completed_at = some now }
    else r

-- `UpdateCompletedAt`.
unfoldable pub update_completed_at : ℕ → Db → Result (Unit {0}) × Db
update_completed_at id d =
    exec d (ok tt, record d { trigger_log = map (complete_row d.clock id) d.trigger_log })

-- `HasPending`.
unfoldable pub has_pending : String → String → ℤ → Db → Result Bool
has_pending owner repo pr d = query d (
    ok (
      ltb 0
        (length (keep (λ r. of_pr owner repo pr r && not (is_some r.completed_at)) d.trigger_log))))
