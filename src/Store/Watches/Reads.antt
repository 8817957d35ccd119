-- ===== src/Store/Watches/Reads.antt =====
-- What GetReviewWatchByID returns after UpsertReviewWatch.
use mathlib.Core.Option
use copilot_review_mcp.Common.{
  ℕ, Time, String, List, [], ◌∷◌, Option, none, some, map, arith, ◌≡◌, ◌⊎◌, inl, inr, refl,
  string_eq, ◌==◌, eq_iff, Option-cases, to_unix, from_unix, cut, if◌then◌else◌,
}
use copilot_review_mcp.Errors.{ok}
use copilot_review_mcp.Store.{WatchRow, Db}
use copilot_review_mcp.Store.Watches.{
  ReviewWatchEntry, to_row, update_row, scan_review_watch, find_row, replace_row,
  upsert_review_watch, get_review_watch_by_id,
}
use copilot_review_mcp.Store.Watches.Laws.{id-find_row}

find_row-replace_row :
    (j : String) (r old : WatchRow) (rows : List WatchRow)
    → find_row r.id rows ≡ some old
    → find_row j (replace_row r rows) ≡ (if r.id == j then some r else find_row j rows)
unfolding find_row replace_row
find_row-replace_row j r old [] h = cc
find_row-replace_row j r old (s ∷ rows) h =
    ground
      (arith, find_row-replace_row j r old rows, eq_iff s.id r.id, eq_iff s.id j, eq_iff r.id j)

-- The entry that a row made from `e` reads as: whole seconds, and the key and start of the watch that
-- was there before.
abbrev pub merged : Option ReviewWatchEntry → ReviewWatchEntry → ReviewWatchEntry
merged none e = record e {
  started_at = cut e.started_at;
  updated_at = cut e.updated_at;
  completed_at = Option.map cut e.completed_at;
  stale_at = Option.map cut e.stale_at;
  rate_limit_reset_at = Option.map cut e.rate_limit_reset_at;
}
merged (some old) e = record e {
  github_login = old.github_login;
  owner = old.owner;
  repo = old.repo;
  pr = old.pr;
  started_at = old.started_at;
  updated_at = cut e.updated_at;
  completed_at = Option.map cut e.completed_at;
  stale_at = Option.map cut e.stale_at;
  rate_limit_reset_at = Option.map cut e.rate_limit_reset_at;
}

map-cut : (o : Option Time) → Option.map from_unix (Option.map to_unix o) ≡ Option.map cut o
map-cut none = refl
map-cut (some t) = refl

scan-to_row : (n : ℕ) (e : ReviewWatchEntry) → scan_review_watch (to_row n e) ≡ merged none e
scan-to_row n e = simp map-cut

scan-update_row :
    (old : WatchRow) (e : ReviewWatchEntry)
    → old.id ≡ e.id
    → scan_review_watch (update_row old e) ≡ merged (some (scan_review_watch old)) e
scan-update_row old e h = simp map-cut (rw h)

-- What a successful upsert did.
upsert_cases :
    (e : ReviewWatchEntry) (d d' : Db)
    → upsert_review_watch e d ≡ (ok tt, d')
    → (d.fault ≡ none)
      × (d'.fault ≡ none)
      × (((n : ℕ) × (find_row e.id d.review_watch ≡ none)
            × (d'.review_watch ≡ to_row n e ∷ d.review_watch))
          ⊎ ((old : WatchRow) × (find_row e.id d.review_watch ≡ some old)
              × (d'.review_watch ≡ replace_row (update_row old e) d.review_watch)))
unfolding upsert_review_watch
upsert_cases e d d' h = elim (Option-cases d.fault) [
  | inr (x, f) ↦ ground arith
  | inl f ↦ elim (Option-cases (find_row e.id d.review_watch)) [
    | inl n ↦
        (f, ground arith, inl (d.new_rowid (map (λ s. s.rowid) d.review_watch), n, ground arith))
    | inr (old, n) ↦ (f, ground arith, inr (old, n, ground arith))
  ]
]

-- When UpsertReviewWatch reports success, GetReviewWatchByID returns for each id what it returned
-- before, except for the id of the entry: there it returns the entry with its times cut to whole
-- seconds, and with the user, pull request and start time that the watch had before, if it was there.
pub get-upsert :
    (e : ReviewWatchEntry) (d d' : Db) (j : String) (prior : Option ReviewWatchEntry)
    → upsert_review_watch e d ≡ (ok tt, d')
    → get_review_watch_by_id e.id d ≡ ok prior
    → get_review_watch_by_id j d'
      ≡ (if e.id == j then ok (some (merged prior e)) else get_review_watch_by_id j d)
unfolding find_row get_review_watch_by_id
get-upsert e d d' j prior h p =
    let (f, f', c) = upsert_cases e d d' h in
    elim c [
      | inl (n, a, q) ↦ rw q (ground (arith, scan-to_row n e))
      | inr (old, a, q) ↦ ground (
        arith,
        q,
        scan-update_row old e (id-find_row e.id d.review_watch old a),
        find_row-replace_row j (update_row old e) old d.review_watch,
        id-find_row e.id d.review_watch old a,
      )
    ]
