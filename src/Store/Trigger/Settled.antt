-- ===== src/Store/Trigger/Settled.antt =====
-- GetLatest after UpdateCompletedAt.
use mathlib.Core.Option
use copilot_review_mcp.Common.{
  ℕ, ℤ, true, String, List, [], ◌∷◌, Option, none, some, arith, ◌≡◌, ◌⊎◌, inl, inr, refl, map, keep,
  is_some, Bool-cases, Option-cases,
}
use copilot_review_mcp.Errors.{Result, ok}
use copilot_review_mcp.Store.{TriggerRow, Db}
use copilot_review_mcp.Store.Trigger.{
  TriggerEntry, of_pr, newest, first_row, entry, get_latest, complete_row, update_completed_at,
}

-- GetLatest after a row is completed: the same row, completed.
newest-complete_row :
    (now id : ℕ) (r : TriggerRow) (o : Option TriggerRow)
    → newest (complete_row now id r) (Option.map (complete_row now id) o)
      ≡ complete_row now id (newest r o)
newest-complete_row now id r none = refl
newest-complete_row now id r (some s) = ground arith

first_row-complete_row :
    (owner repo : String) (pr : ℤ) (now id : ℕ) (rows : List TriggerRow)
    → first_row (keep (of_pr owner repo pr) (map (complete_row now id) rows))
      ≡ Option.map (complete_row now id) (first_row (keep (of_pr owner repo pr) rows))
unfolding first_row
first_row-complete_row owner repo pr now id [] = refl
first_row-complete_row owner repo pr now id (r ∷ rows) =
    let ih = first_row-complete_row owner repo pr now id rows in
    let same : of_pr owner repo pr (complete_row now id r) ≡ of_pr owner repo pr r = ground arith in
    elim (Bool-cases (of_pr owner repo pr r)) [
      | inl b ↦
          ground (arith, newest-complete_row now id r (first_row (keep (of_pr owner repo pr) rows)))
      | inr b ↦ ground arith
    ]

-- No trigger of the pull request, or the latest is completed.
abbrev pub IsSettled : Result (Option TriggerEntry) → Type 0
IsSettled r =
    (r ≡ ok none) ⊎ ((x : TriggerEntry) × (r ≡ ok (some x)) × (is_some x.completed_at ≡ true))

-- A read that does not fail.
pub fault-get_latest :
    (owner repo : String) (pr : ℤ) (d : Db) (o : Option TriggerEntry)
    → get_latest owner repo pr d ≡ ok o
    → d.fault ≡ none
unfolding get_latest
fault-get_latest owner repo pr d o h = elim (Option-cases d.fault) [
  | inl q ↦ q
  | inr (e, q) ↦ ground arith
]

-- The latest entry is completed once UpdateCompletedAt has run on its id.
pub get_latest-settles :
    (owner repo : String) (pr : ℤ) (d : Db) (x : TriggerEntry)
    → get_latest owner repo pr d ≡ ok (some x)
    → IsSettled (get_latest owner repo pr (update_completed_at x.id d).1)
unfolding get_latest update_completed_at
get_latest-settles owner repo pr d x h =
    let f = fault-get_latest owner repo pr d (some x) h in
    let later = first_row-complete_row owner repo pr d.clock x.id d.trigger_log in
    elim (Option-cases (first_row (keep (of_pr owner repo pr) d.trigger_log))) [
      | inl q ↦ ground arith
      | inr (r, q) ↦ inr (entry (complete_row d.clock x.id r), ground arith, ground arith)
    ]
