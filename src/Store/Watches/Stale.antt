-- ===== src/Store/Watches/Stale.antt =====
-- What Open does to the watches that an earlier process left active.
use mathlib.Core.Option
use copilot_review_mcp.Common.{
  Bool-cases, Option-cases, from_unix, ℕ, true, false, String, List, [], ◌∷◌, none, some, map,
  length, keep, All, arith, ◌≡◌, inl, inr, refl, string_eq, ◌==◌,
}
use copilot_review_mcp.Errors.{ok}
use copilot_review_mcp.Store.{WatchRow, Db}
use copilot_review_mcp.Store.Watches.{
  ReviewWatchEntry, scan_review_watch, find_row, stale_row, stale_on_open, get_review_watch_by_id,
}
use copilot_review_mcp.Store.Watches.Laws.{Apart, IsConsistent}

module _ (now : ℕ) (text : String) where
  stale_row-inactive : (r : WatchRow) → (stale_row now text r).is_active ≡ false
  stale_row-inactive r = ground arith

  pub stale-none-active :
      (rows : List WatchRow) → All (λ r. r.is_active ≡ false) (map (stale_row now text) rows)
  stale-none-active [] = tt
  stale-none-active (r ∷ rows) = (stale_row-inactive r, stale-none-active rows)

  id-stale_row : (r : WatchRow) → (stale_row now text r).id ≡ r.id
  id-stale_row r = ground arith

  stale-Apart :
      (r : WatchRow) (rows : List WatchRow)
      → All (Apart r) rows
      → All (Apart (stale_row now text r)) (map (stale_row now text) rows)
  stale-Apart r [] h = tt
  stale-Apart r (s ∷ rows) h = (
    (rw (id-stale_row s, id-stale_row r) h.0.0, rw (stale_row-inactive r) refl),
    stale-Apart r rows h.1,
  )

  stale-IsConsistent :
      (rows : List WatchRow) → IsConsistent rows → IsConsistent (map (stale_row now text) rows)
  stale-IsConsistent [] h = tt
  stale-IsConsistent (r ∷ rows) h = (stale-Apart r rows h.0, stale-IsConsistent rows h.1)

  find_row-stale :
      (id : String) (rows : List WatchRow)
      → find_row id (map (stale_row now text) rows)
        ≡ Option.map (stale_row now text) (find_row id rows)
  unfolding find_row
  find_row-stale id [] = refl
  find_row-stale id (r ∷ rows) = elim (Bool-cases (r.id == id)) [
    | inl e ↦ rw (id-stale_row r, e) refl
    | inr e ↦ rw (id-stale_row r, e) (find_row-stale id rows)
  ]

inactive-length :
    (rows : List WatchRow)
    → All (λ r. r.is_active ≡ false) rows
    → length (keep (λ r. r.is_active) rows) ≡ 0
inactive-length [] h = refl
inactive-length (r ∷ rows) h = ground (arith, inactive-length rows h.1, h.0)

-- After Open has marked the active watches and the engine has not failed, no watch is active, the
-- indexes still hold, and marking again affects no row.
pub stale_on_open_lem :
    (d : Db)
    → d.fault ≡ none
    → IsConsistent d.review_watch
    → let d' = (stale_on_open d).1 in
      All (λ r. r.is_active ≡ false) d'.review_watch
      × IsConsistent d'.review_watch
      × ((stale_on_open d').0 ≡ ok 0)
unfolding stale_on_open
stale_on_open_lem d f h =
    let text : String = "watch became stale because the review-raven process restarted" in
    let off = stale-none-active d.clock text d.review_watch in
    (
      rw f off,
      rw f (stale-IsConsistent d.clock text d.review_watch h),
      ground (arith, inactive-length (map (stale_row d.clock text) d.review_watch) off),
    )

-- When the engine does not fail, a watch that was active when the database was opened reads as STALE
-- afterwards, inactive and without failure reason, completed at its old completion time or else at
-- the time of the statement; a watch that was not active reads as before.
pub get-stale_on_open :
    (d : Db) (id : String) (e : ReviewWatchEntry)
    → d.fault ≡ none
    → get_review_watch_by_id id d ≡ ok (some e)
    → (e' : ReviewWatchEntry) × (get_review_watch_by_id id (stale_on_open d).1 ≡ ok (some e'))
      × (e.is_active ≡ false → e' ≡ e)
      × (e.is_active ≡ true
          → (e'.watch_status ≡ "STALE")
            × (e'.is_active ≡ false)
            × (e'.failure_reason ≡ none)
            × (e'.completed_at
                ≡ (elim e.completed_at [ none ↦ some (from_unix d.clock) | some t ↦ some t ])))
unfolding stale_on_open get_review_watch_by_id
get-stale_on_open d id e f h =
    let text : String = "watch became stale because the review-raven process restarted" in
    elim (Option-cases (find_row id d.review_watch)) [
      | inl n ↦ ground arith
      | inr (r, n) ↦ (
        scan_review_watch (stale_row d.clock text r),
        ground (arith, find_row-stale d.clock text id d.review_watch),
        ground arith,
        ground arith,
      )
    ]
