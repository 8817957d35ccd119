-- ===== src/Store/Watches/Freshest.antt =====
-- The row that GetLatestReviewWatch answers with.
use mathlib.Core.Option
use mathlib.Core.Path.{subst}
use copilot_review_mcp.Common.{
  ℤ, Bool, true, String, List, [], ◌∷◌, Option, none, some, keep, All, All-weaken, Any, members,
  keep-weaken, arith, ◌≡◌, inl, inr, sym, ◌↔◌, string_eq, int_eq, eq_iff, int_beq_iff, Bool-cases,
}
use copilot_review_mcp.Common.Sorting.{
  IsSorted, sort_by, sort_by-All, All-sort_by, sort_by-IsSorted,
}
use copilot_review_mcp.Errors.{ok}
use copilot_review_mcp.Store.{WatchRow, Db}
use copilot_review_mcp.Store.Watches.{
  scan_review_watch, fresher, sort_rows, first, of_key, get_latest_review_watch,
}
use copilot_review_mcp.Store.Watches.Lists.{
  IsFresher, fresher-IsFresher, fresher-IsOrder, sort_rows-sort_by,
}

-- The row of a watch of the user for the pull request.
abbrev pub IsOfKey : String → String → String → ℤ → WatchRow → Type 0
IsOfKey login owner repo pr r =
    (r.github_login ≡ login) × (r.owner ≡ owner) × (r.repo ≡ repo) × (r.pr ≡ pr)

module _ (P : WatchRow → Type 0) where
  -- The row is of those with the property, and none of them is fresher; or there is none.
  abbrev pub IsFreshest : List WatchRow → Option WatchRow → Type 0
  IsFreshest table none = All (λ s. ¬ P s) table
  IsFreshest table (some r) =
      Any (λ s. s ≡ r) table × P r × All (λ s. ¬ (P s × IsFresher s r)) table

  module _ (p : WatchRow → Bool) (sound : (r : WatchRow) → (p r ≡ true) ↔ P r) where
    -- What holds of the rows that a test keeps, for all rows.
    keep-back :
        (Q : WatchRow → Type 0) (rows : List WatchRow)
        → All Q (keep p rows)
        → All (λ s. P s → Q s) rows
    keep-back Q [] h = tt
    keep-back Q (r ∷ rows) h = elim (Bool-cases (p r)) [
      | inl b ↦
          let same : keep p (r ∷ rows) ≡ r ∷ keep p rows = ground arith in
          let k = subst (All Q) same h in ((λ x. k.0), keep-back Q rows k.1)
      | inr b ↦
          let same : keep p (r ∷ rows) ≡ keep p rows = ground arith in
          let k = subst (All Q) same h in
          ((λ x. let y = (sound r).1 x in absurd (ground arith)), keep-back Q rows k)
    ]

    -- The first row in the order is the freshest.
    first-IsFreshest :
        (table rows : List WatchRow)
        → All (λ r. Any (λ s. s ≡ r) table × P r) rows
        → ((Q : WatchRow → Type 0) → All Q rows → All (λ s. P s → Q s) table)
        → IsSorted fresher rows
        → IsFreshest table (first rows)
    first-IsFreshest table [] f back s = All-weaken table (λ r h k. h k) (back (λ r. ⊥) tt)
    first-IsFreshest table (r ∷ rows) (found, f) back s =
        let none_ : All (λ t. ¬ IsFresher t r) (r ∷ rows) = (
          fresher-IsFresher r r (ground arith),
          All-weaken rows (λ t h. fresher-IsFresher t r h) s.0,
        ) in
        (
          found.0,
          found.1,
          All-weaken table (λ t h (k, l). h k l) (back (λ t. ¬ IsFresher t r) none_),
        )

    sorted-IsFreshest :
        (table : List WatchRow) → IsFreshest table (first (sort_by fresher (keep p table)))
    sorted-IsFreshest table =
        let kept = keep p table in
        let all : All (λ r. Any (λ s. s ≡ r) table × P r) kept =
          keep-weaken p table (λ r h b. (h, (sound r).0 b)) (members table) in
        first-IsFreshest table (sort_by fresher kept)
          (sort_by-All fresher (λ r. Any (λ s. s ≡ r) table × P r) kept all)
          (λ Q h. keep-back Q table (All-sort_by fresher Q kept h))
          (sort_by-IsSorted fresher fresher-IsOrder kept)

of_key-IsOfKey :
    (login owner repo : String) (pr : ℤ) (r : WatchRow)
    → (of_key login owner repo pr r ≡ true) ↔ IsOfKey login owner repo pr r
of_key-IsOfKey login owner repo pr r = ground (
  arith,
  eq_iff r.github_login login,
  eq_iff r.owner owner,
  eq_iff r.repo repo,
  int_beq_iff r.pr pr,
)

-- When the engine does not fail, GetLatestReviewWatch answers with a row of the table that is of the
-- user and the pull request, such that no other row of them was updated later, or updated at the same
-- time and started later, or both at the same time and has a greater rowid; or with nil where there is
-- no row of them.
pub get_latest_review_watch-IsFreshest :
    (login owner repo : String) (pr : ℤ) (d : Db)
    → d.fault ≡ none
    → (r : Option WatchRow) × (get_latest_review_watch login owner repo pr d
        ≡ ok (Option.map scan_review_watch r))
      × IsFreshest (IsOfKey login owner repo pr) d.review_watch r
unfolding get_latest_review_watch
get_latest_review_watch-IsFreshest login owner repo pr d h =
    let all = keep (of_key login owner repo pr) d.review_watch in
    (
      first (sort_rows fresher all),
      ground arith,
      subst (λ rows. IsFreshest (IsOfKey login owner repo pr) d.review_watch (first rows))
          (sym (sort_rows-sort_by fresher all))
          (sorted-IsFreshest (IsOfKey login owner repo pr) (of_key login owner repo pr)
            (of_key-IsOfKey login owner repo pr) d.review_watch),
    )
