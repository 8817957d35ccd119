-- ===== src/Store/Watches/Laws.antt =====
-- The unique indexes of review_watch, and the row of an id.
use copilot_review_mcp.Common.{
  false, String, List, [], ◌∷◌, some, All, arith, ◌≡◌, string_eq, int_eq, ◌==◌, eq_iff,
}
use copilot_review_mcp.Store.{WatchRow}
use copilot_review_mcp.Store.Watches.{find_row, both_active}

-- Two rows have different ids, and are not both active for one user and pull request.
abbrev pub Apart : WatchRow → WatchRow → Type 0
Apart r s = ((s.id == r.id) ≡ false) × (both_active r s ≡ false)

-- The primary key and idx_review_watch_active_per_pr.
abbrev pub IsConsistent : List WatchRow → Type 0
IsConsistent [] = Unit {0}
IsConsistent (r ∷ rows) = All (Apart r) rows × IsConsistent rows

-- The first row of an id has that id.
pub id-find_row :
    (id : String) (rows : List WatchRow) (r : WatchRow) → find_row id rows ≡ some r → r.id ≡ id
unfolding find_row
id-find_row id [] r h = cc
id-find_row id (s ∷ rows) r h = ground (arith, id-find_row id rows r, eq_iff s.id id)
