-- ===== src/Tools/Watches/Laws.antt =====
-- A caller of the watch tools only sees watches of its own login.
use mathlib.Core.Path.{subst}
use mathlib.Core.Option
use copilot_review_mcp.Common.{
  ℕ, ℤ, Time, Bool, String, List, [], ◌∷◌, Option, none, some, arith, ◌≡◌, inr, refl, map, keep,
  ltb, ◌==◌, string_eq, eq_iff, All, All-weaken, keep-All, take-All, map-All, Any, inl, Bool-cases,
  Option-cases,
}
use copilot_review_mcp.Common.Map.{lookup}
use copilot_review_mcp.Errors.{ok, Result-cases}
use copilot_review_mcp.Store.{WatchRow}
use copilot_review_mcp.Store.Watches.{
  ReviewWatchEntry, ReviewWatchFilter, scan_review_watch, fresher, listed_before, insert_row,
  sort_rows, first, of_key, matches_filter, limited,
}
use copilot_review_mcp.Store.Watches
use copilot_review_mcp.Watch.State.{
  WatchKey, key_eq, Env, Watch, Manager, WatchStore, Snapshot, snapshot_from_state,
  snapshot_from_review_watch_entry,
}
use copilot_review_mcp.Watch.Reads.{latest_watch, get_by_id, get_latest}
use copilot_review_mcp.Watch.Backed.{db_store}
use copilot_review_mcp.Watch.Life.{Inv}
use copilot_review_mcp.Tools.Watches.{ReviewWatchView, ToolEnv, own, view_at, status_output}

-- A store answers with entries of the login asked for.
abbrev pub KeepsLogins : {S : Type 0} → WatchStore S → Type 0
KeepsLogins {S} store =
    ((login owner repo : String) (pr : ℤ) (s : S) (x : ReviewWatchEntry)
      → store.get_latest_review_watch login owner repo pr s ≡ ok (some x)
      → x.github_login ≡ login)
    × ((f : ReviewWatchFilter) (s : S) (xs : List ReviewWatchEntry)
        → store.list_review_watches f s ≡ ok xs
        → All (λ x. x.github_login ≡ f.github_login) xs)

module _ (P : WatchRow → Type 0) (lt : WatchRow → WatchRow → Bool) where
  insert_row-All :
      (r : WatchRow) (rows : List WatchRow) → P r → All P rows → All P (insert_row lt r rows)
  unfolding insert_row
  insert_row-All r [] h k = (h, tt)
  insert_row-All r (s ∷ rows) h k = elim (Bool-cases (lt s r)) [
    | inl b ↦ rw b (k.0, insert_row-All r rows h k.1)
    | inr b ↦ rw b (h, k)
  ]

  sort_rows-All : (rows : List WatchRow) → All P rows → All P (sort_rows lt rows)
  unfolding sort_rows
  sort_rows-All [] k = tt
  sort_rows-All (r ∷ rows) k = insert_row-All r (sort_rows lt rows) k.0 (sort_rows-All rows k.1)

first-All :
    (P : WatchRow → Type 0) (rows : List WatchRow) (r : WatchRow)
    → All P rows
    → first rows ≡ some r
    → P r
first-All P [] r h e = ground arith
first-All P (s ∷ rows) r h e = let same : s ≡ r = ground arith in subst P same h.0

limited-All :
    (P : WatchRow → Type 0) (n : ℕ) (rows : List WatchRow) → All P rows → All P (limited n rows)
limited-All P n rows h = elim (Bool-cases (ltb 0 n)) [
  | inl b ↦ rw b (take-All P n rows h)
  | inr b ↦ rw b h
]

-- The database is such a store.
pub db_store-KeepsLogins : KeepsLogins db_store
unfolding Watches.get_latest_review_watch Watches.list_review_watches
db_store-KeepsLogins = (
  (λ login owner repo pr d x h.
      let mine = λ (r : WatchRow). r.github_login ≡ login in
      let rows = keep (of_key login owner repo pr) d.review_watch in
      let all = sort_rows-All mine fresher rows (
        All-weaken rows (λ r b. ground (arith, eq_iff r.github_login login))
          (keep-All (of_key login owner repo pr) d.review_watch)) in
      elim (Option-cases (first (sort_rows fresher rows))) [
        | inl q ↦ ground arith
        | inr (r, q) ↦ let k = first-All mine (sort_rows fresher rows) r all q in ground arith
      ]),
  (λ f d xs h.
      let mine = λ (r : WatchRow). r.github_login ≡ f.github_login in
      let rows = keep (matches_filter f) d.review_watch in
      let all = limited-All mine f.limit (sort_rows listed_before rows) (
        sort_rows-All mine listed_before rows (
          All-weaken rows (λ r b. ground (arith, eq_iff r.github_login f.github_login))
            (keep-All (matches_filter f) d.review_watch))) in
      let same : map scan_review_watch (limited f.limit (sort_rows listed_before rows)) ≡ xs =
        ground arith in
      subst (All (λ x. x.github_login ≡ f.github_login)) same (
        map-All (λ (x : ReviewWatchEntry). x.github_login ≡ f.github_login) scan_review_watch
          (limited f.limit (sort_rows listed_before rows)) all)),
)

-- The store has answered a read with the entry.
pub data IsRead {S : Type 0} (store : WatchStore S) (d : S) (x : ReviewWatchEntry) : Type 0 where
  by_id : (id : String) → store.get_review_watch_by_id id d ≡ ok (some x) → IsRead store d x
  by_key :
      (login owner repo : String) (pr : ℤ)
      → store.get_latest_review_watch login owner repo pr d ≡ ok (some x)
      → IsRead store d x
  by_filter :
      (f : ReviewWatchFilter) (xs : List ReviewWatchEntry)
      → store.list_review_watches f d ≡ ok xs
      → Any (λ y. y ≡ x) xs
      → IsRead store d x

-- The snapshot shows a watch of the login that is in the memory of the manager or in its store.
pub data IsWatchOf {S : Type 0} (e : Env S) (m : Manager S) (login : String) (s : Snapshot)
    : Type 0 where
  in_memory :
      (id : String) (w : Watch)
      → Any (λ (p : String × Watch). p ≡ (id, w)) m.watches_by_id
      → w.key.login ≡ login
      → s ≡ snapshot_from_state w
      → IsWatchOf e m login s
  in_store :
      (d : S) (x : ReviewWatchEntry)
      → m.db ≡ some d
      → IsRead e.store d x
      → x.github_login ≡ login
      → s ≡ snapshot_from_review_watch_entry x
      → IsWatchOf e m login s

-- The view is one of a watch of the login.
abbrev pub IsOwn : {S : Type 0} → ToolEnv S → Manager S → Time → String → ReviewWatchView → Type 0
IsOwn e m now login v = (s : Snapshot) × IsWatchOf e.manager_env m login s × (v ≡ view_at e m now s)

-- What a lookup shows of a login.
abbrev pub ShowsOwn :
    {S : Type 0} → ToolEnv S → Manager S → Time → String → Option ReviewWatchView → Type 0
ShowsOwn e m now login none = Unit {0}
ShowsOwn e m now login (some v) = IsOwn e m now login v

lookup-Any :
    (id : String) (w : Watch) (m : List (String × Watch))
    → lookup id m ≡ some w
    → Any (λ (p : String × Watch). p ≡ (id, w)) m
unfolding lookup
lookup-Any id w [] h = ground arith
lookup-Any id w ((j, v) ∷ m) h = elim (Bool-cases (j == id)) [
  | inl b ↦ inl (ground (arith, eq_iff j id))
  | inr b ↦ inr (lookup-Any id w m (ground arith))
]

module _ {S : Type 0} (e : Env S) (m : Manager S) where
  -- What GetByID finds.
  pub get_by_id-IsWatchOf :
      (id : String) (s : Snapshot) → get_by_id e id m ≡ some s → IsWatchOf e m s.login s
  unfolding get_by_id snapshot_from_state snapshot_from_review_watch_entry
  get_by_id-IsWatchOf id s q = elim (Option-cases (lookup id m.watches_by_id)) [
    | inr (w, a) ↦
        let same : s ≡ snapshot_from_state w = ground arith in
        in_memory id w (lookup-Any id w m.watches_by_id a) (ground arith) same
    | inl a ↦ elim (Option-cases m.db) [
      | inl b ↦ ground arith
      | inr (d, b) ↦ elim (Result-cases (e.store.get_review_watch_by_id id d)) [
        | inl (x, c) ↦ ground arith
        | inr (none, c) ↦ ground arith
        | inr (some x, c) ↦
            let same : s ≡ snapshot_from_review_watch_entry x = ground arith in
            in_store d x b (by_id id c) (ground arith) same
      ]
    ]
  ]

  -- What GetLatest finds for a key is of its login.
  get_latest-IsWatchOf :
      (name : Time → ℕ → String) (key : WatchKey)
      → Inv name m
      → KeepsLogins e.store
      → (s : Snapshot) → get_latest e key m ≡ some s
      → IsWatchOf e m key.login s
  unfolding get_latest latest_watch
  get_latest-IsWatchOf name key h k s q = elim (Option-cases (lookup key m.latest_by_key)) [
    | inr (id, b) ↦
        let (w, f, x) = h.latest_known key id b in
        let same : s ≡ snapshot_from_state w = ground arith in
        in_memory id w (lookup-Any id w m.watches_by_id f) (ground arith) same
    | inl b ↦ elim (Option-cases m.db) [
      | inl c ↦ ground arith
      | inr (d, c) ↦
          let answer = e.store.get_latest_review_watch key.login key.owner key.repo key.pr d in
          elim (Result-cases answer) [
            | inl (x, f) ↦ ground arith
            | inr (none, f) ↦ ground arith
            | inr (some x, f) ↦
                let same : s ≡ snapshot_from_review_watch_entry x = ground arith in
                in_store d x c (by_key key.login key.owner key.repo key.pr f)
                  (k.0 key.login key.owner key.repo key.pr d x f) same
          ]
    ]
  ]

module _ {S : Type 0} (e : ToolEnv S) (m : Manager S) (now : Time) where
  pub own-shows :
      (login id : String)
      → ShowsOwn e m now login
          (Option.map (view_at e m now) (own login (get_by_id e.manager_env id m)))
  own-shows login id = elim (Option-cases (get_by_id e.manager_env id m)) [
    | inl q ↦ rw q tt
    | inr (s, q) ↦ elim (Bool-cases (s.login == login)) [
      | inr b ↦ rw (q, b) tt
      | inl b ↦
          let found = get_by_id-IsWatchOf e.manager_env m id s q in
          let mine =
            subst (λ l. IsWatchOf e.manager_env m l s) ((eq_iff s.login login).0 b) found in
          rw (q, b) (s, mine, refl)
    ]
  ]

  pub output-shows :
      (x : Option Snapshot) → (status_output e m now x).watch ≡ Option.map (view_at e m now) x
  output-shows none = refl
  output-shows (some s) = refl

  pub latest-shows :
      (name : Time → ℕ → String) (key : WatchKey)
      → Inv name m
      → KeepsLogins e.manager_env.store
      → ShowsOwn e m now key.login (Option.map (view_at e m now) (get_latest e.manager_env key m))
  latest-shows name key h k = elim (Option-cases (get_latest e.manager_env key m)) [
    | inl q ↦ rw q tt
    | inr (s, q) ↦ rw q (s, get_latest-IsWatchOf e.manager_env m name key h k s q, refl)
  ]
