-- ===== src/Watch/Reads.antt =====
-- `GetByID`, `GetLatest` and `List` of internal/watch/manager.go.
use mathlib.Core.Option
use copilot_review_mcp.Common.{
  ℕ, ℤ, pos, negsuc, Bool, true, false, String, List, [], ◌∷◌, Option, none, some, map, keep, any,
  take, ltb, nat_beq, ◌==◌, ◌||◌, ◌&&◌, string_eq, int_eq, is_positive, not, if◌then◌else◌,
}
use copilot_review_mcp.Common.Map.{lookup}
use copilot_review_mcp.Errors.{GoError, Result, ok, err, plain}
use copilot_review_mcp.Store.Watches.{ReviewWatchEntry}
use copilot_review_mcp.Watch.State.{
  WatchKey, key_eq, Watch, Manager, Env, Snapshot, snapshot_from_state,
  snapshot_from_review_watch_entry,
}

-- `ListOptions`.
pub record ListOptions : Type 0 where
  pub owner : String
  pub repo : String
  pub pr : ℤ
  pub active_only : Bool
  pub limit : ℤ

-- `matchesListOptions`.
unfoldable pub matches_list_options : Snapshot → ListOptions → Bool
matches_list_options s o =
    if not (o.owner == "") && not (s.owner == o.owner)
    then false
    else if not (o.repo == "") && not (s.repo == o.repo)
    then false
    else if is_positive o.pr && not (s.pr == o.pr)
    then false
    else not (o.active_only && s.terminal)

-- The watch IDs are compared as strings; `id_gt` is Go's order on strings.
module _ (id_gt : String → String → Bool) where
  -- The order of `List`: the first snapshot comes before the second.
  unfoldable pub snapshot_before : Snapshot → Snapshot → Bool
  snapshot_before a b =
      if not a.terminal && b.terminal
      then true
      else if a.terminal && not b.terminal
      then false
      else if not (nat_beq a.updated_at b.updated_at)
      then ltb b.updated_at a.updated_at
      else if not (nat_beq a.started_at b.started_at)
      then ltb b.started_at a.started_at
      else id_gt a.watch_id b.watch_id

  -- `sort.Slice` by that order.
  unfoldable pub insert_snapshot : Snapshot → List Snapshot → List Snapshot
  insert_snapshot s [] = s ∷ []
  insert_snapshot s (t ∷ ts) =
      let rest = insert_snapshot s ts in if snapshot_before t s then t ∷ rest else s ∷ t ∷ ts

  unfoldable pub sort_snapshots : List Snapshot → List Snapshot
  unfolding insert_snapshot
  sort_snapshots [] = []
  sort_snapshots (s ∷ ss) = insert_snapshot s (sort_snapshots ss)

abbrev pub list_limit : ℤ → ℕ
list_limit (pos n) = if is_positive (pos n) then n else 20
list_limit (negsuc n) = 20

abbrev login_error : GoError
login_error = plain "login is required"

abbrev pub has_id : String → List Snapshot → Bool
has_id id ss = any (λ s. s.watch_id == id) ss

-- The entries of the database that no snapshot has yet, in their order.
unfoldable pub add_entries : ListOptions → List ReviewWatchEntry → List Snapshot → List Snapshot
add_entries o [] ss = ss
add_entries o (e ∷ es) ss =
    let s = snapshot_from_review_watch_entry e in
    add_entries o es (if has_id e.id ss || not (matches_list_options s o) then ss else s ∷ ss)

module _ {S : Type 0} where
  -- The watches of a login that the options let through, in memory.
  unfoldable pub live_snapshots : String → ListOptions → Manager S → List Snapshot
  live_snapshots login o m =
      keep (λ s. s.login == login && matches_list_options s o)
        (map (λ (p : String × Watch). snapshot_from_state p.1) m.watches_by_id)

  -- The watch in memory that is the latest of a key.
  unfoldable pub latest_watch : WatchKey → Manager S → Option Watch
  latest_watch key m = elim (lookup key m.latest_by_key) [
    | none ↦ none
    | some id ↦ lookup id m.watches_by_id
  ]

  module _ (env : Env S) where
    -- `GetByID`; an error of the database is only logged.
    unfoldable pub get_by_id : String → Manager S → Option Snapshot
    get_by_id id m = elim (lookup id m.watches_by_id) [
      | some w ↦ some (snapshot_from_state w)
      | none ↦ elim m.db [
        | none ↦ none
        | some s ↦ elim (env.store.get_review_watch_by_id id s) [
          | err e ↦ none
          | ok entry ↦ Option.map snapshot_from_review_watch_entry entry
        ]
      ]
    ]

    -- `GetLatest`.
    unfoldable pub get_latest : WatchKey → Manager S → Option Snapshot
    get_latest key m = elim (latest_watch key m) [
      | some w ↦ some (snapshot_from_state w)
      | none ↦ elim m.db [
        | none ↦ none
        | some s ↦ elim (env.store.get_latest_review_watch key.login key.owner key.repo key.pr s) [
          | err e ↦ none
          | ok entry ↦ Option.map snapshot_from_review_watch_entry entry
        ]
      ]
    ]

    -- The snapshots that `List` collects before it sorts.
    unfoldable pub collect : String → ListOptions → Manager S → Result (List Snapshot)
    collect login o m =
        let live = live_snapshots login o m in
        elim m.db [
          | none ↦ ok live
          | some s ↦
              elim (env.store.list_review_watches
                (record {
                  github_login = login;
                  owner = o.owner;
                  repo = o.repo;
                  pr = o.pr;
                  active_only = o.active_only;
                  limit = list_limit o.limit;
                })
                s) [
                  | err e ↦ err (env.format.wrapped "failed to list review_watch: %w" e)
                  | ok entries ↦ ok (add_entries o entries live)
                ]
        ]

    -- `List`.
    unfoldable pub list :
        (String → String → Bool) → String → ListOptions → Manager S → Result (List Snapshot)
    list id_gt login o m = if login == "" then err login_error else elim (collect login o m) [
      | err e ↦ err e
      | ok ss ↦ ok (take (list_limit o.limit) (sort_snapshots id_gt ss))
    ]
