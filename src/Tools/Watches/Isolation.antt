-- ===== src/Tools/Watches/Isolation.antt =====
-- The handlers of the watch tools only show watches of the caller's login.
use mathlib.Core.Path.{subst}
use mathlib.Core.Option
use copilot_review_mcp.Common.{
  ℕ, zero, suc, ℤ, pos, negsuc, Time, Bool, String, List, [], ◌∷◌, Option, none, some, arith, ◌≡◌,
  ◌≤◌, inl, inr, refl, sym, ap, ◌∙◌, map, take, length, length-map, length-take-le, not, ltb, ◌==◌,
  ◌&&◌, ◌||◌, string_eq, eq_iff, is_positive, All, Any, All-weaken, All-both, members, keep-weaken,
  take-All, map-All, Bool-cases, Option-cases,
}
use copilot_review_mcp.Errors.{ok, Result-cases}
use copilot_review_mcp.Store.Watches.{ReviewWatchEntry, ReviewWatchFilter}
use copilot_review_mcp.Watch.State.{
  key_eq, Watch, Manager, Snapshot, snapshot_from_state, snapshot_from_review_watch_entry,
}
use copilot_review_mcp.Watch.Reads.{
  ListOptions, matches_list_options, snapshot_before, insert_snapshot, sort_snapshots, list_limit,
  has_id, add_entries, live_snapshots, get_by_id, get_latest, collect, list,
}
use copilot_review_mcp.Watch.Life.{Inv}
use copilot_review_mcp.Middleware.{login_from_context}
use copilot_review_mcp.Tools.Auth.{Call, login_from_tool_request}
use copilot_review_mcp.Tools.Reply.{output}
use copilot_review_mcp.Tools.Watches.{
  ReviewWatchView, ToolEnv, WatchSelector, GetReviewWatchStatusOutput, ListReviewWatchesInput,
  ListReviewWatchesOutput, is_given, key_of, own, view_at, status_output, get_watch_status_handler,
  limit_or_default, list_watches_handler, read_watch_resource, parse_watch_id_from_uri,
}
use copilot_review_mcp.Tools.Watches.Laws.{
  IsWatchOf, in_memory, in_store, by_filter, KeepsLogins, IsOwn, ShowsOwn, own-shows, output-shows,
  latest-shows,
}

module _ {S : Type 0} (e : ToolEnv S) (m : Manager S) (now : Time) where
  status-shows :
      (login : String) (x : Option Snapshot) (o : GetReviewWatchStatusOutput)
      → ShowsOwn e m now login (Option.map (view_at e m now) x)
      → status_output e m now x ≡ o
      → ShowsOwn e m now login o.watch
  status-shows login x o h q =
      subst (ShowsOwn e m now login)
        (sym (output-shows e m now x) ∙ ap (λ (y : GetReviewWatchStatusOutput). y.watch) q) h

  -- All snapshots are of watches of a login.
  abbrev AllOwn : String → List Snapshot → Type 0
  AllOwn login ss = All (IsWatchOf e.manager_env m login) ss

  add_entries-AllOwn :
      (login : String) (o : ListOptions) (es : List ReviewWatchEntry) (ss : List Snapshot)
      → All (λ x. IsWatchOf e.manager_env m login (snapshot_from_review_watch_entry x)) es
      → AllOwn login ss
      → AllOwn login (add_entries o es ss)
  unfolding add_entries
  add_entries-AllOwn login o [] ss h k = k
  add_entries-AllOwn login o (x ∷ es) ss h k =
      elim (Bool-cases
        (has_id x.id ss || not (matches_list_options (snapshot_from_review_watch_entry x) o))) [
          | inl b ↦ rw b (add_entries-AllOwn login o es ss h.1 k)
          | inr b ↦
              rw b (
                add_entries-AllOwn login o es (snapshot_from_review_watch_entry x ∷ ss) h.1
                  (h.0, k))
        ]

  insert_snapshot-AllOwn :
      (gt : String → String → Bool) (login : String) (s : Snapshot) (ss : List Snapshot)
      → IsWatchOf e.manager_env m login s
      → AllOwn login ss
      → AllOwn login (insert_snapshot gt s ss)
  unfolding insert_snapshot
  insert_snapshot-AllOwn gt login s [] h k = (h, tt)
  insert_snapshot-AllOwn gt login s (t ∷ ss) h k = elim (Bool-cases (snapshot_before gt t s)) [
    | inl b ↦ rw b (k.0, insert_snapshot-AllOwn gt login s ss h k.1)
    | inr b ↦ rw b (h, k)
  ]

  sort_snapshots-AllOwn :
      (gt : String → String → Bool) (login : String) (ss : List Snapshot)
      → AllOwn login ss
      → AllOwn login (sort_snapshots gt ss)
  unfolding sort_snapshots
  sort_snapshots-AllOwn gt login [] k = tt
  sort_snapshots-AllOwn gt login (s ∷ ss) k =
      insert_snapshot-AllOwn gt login s (sort_snapshots gt ss) k.0
        (sort_snapshots-AllOwn gt login ss k.1)

  live-AllOwn : (login : String) (o : ListOptions) → AllOwn login (live_snapshots login o m)
  unfolding live_snapshots snapshot_from_state
  live-AllOwn login o =
      let show = λ (p : String × Watch). snapshot_from_state p.1 in
      let IsOf = λ (s : Snapshot). IsWatchOf e.manager_env m s.login s in
      let found : All IsOf (map show m.watches_by_id) = map-All IsOf show m.watches_by_id (
        All-weaken m.watches_by_id (λ (id, w) h. in_memory id w h refl refl)
          (members m.watches_by_id)) in
      keep-weaken (λ (s : Snapshot). s.login == login && matches_list_options s o)
        (map show m.watches_by_id)
        (λ s h b.
          subst (λ l. IsWatchOf e.manager_env m l s) (ground (arith, eq_iff s.login login)) h)
        found

  -- The entries that the store lists for a login.
  listed-AllOwn :
      (f : ReviewWatchFilter) (d : S) (es : List ReviewWatchEntry)
      → m.db ≡ some d
      → KeepsLogins e.manager_env.store
      → e.manager_env.store.list_review_watches f d ≡ ok es
      → All (λ x. IsWatchOf e.manager_env m f.github_login (snapshot_from_review_watch_entry x)) es
  listed-AllOwn f d es q k r =
      All-weaken es (λ x h. in_store d x q (by_filter f es r h.0) h.1 refl)
        (All-both (λ x. Any (λ y. y ≡ x) es) (λ x. x.github_login ≡ f.github_login) es (members es)
          (k.1 f d es r))

  collect-AllOwn :
      (login : String) (o : ListOptions) (ss : List Snapshot)
      → KeepsLogins e.manager_env.store
      → collect e.manager_env login o m ≡ ok ss
      → AllOwn login ss
  unfolding collect
  collect-AllOwn login o ss k h = elim (Option-cases m.db) [
    | inl q ↦
        let same : live_snapshots login o m ≡ ss = ground arith in
        subst (AllOwn login) same (live-AllOwn login o)
    | inr (d, q) ↦
        let f : ReviewWatchFilter = record {
          github_login = login;
          owner = o.owner;
          repo = o.repo;
          pr = o.pr;
          active_only = o.active_only;
          limit = list_limit o.limit;
        } in
        elim (Result-cases (e.manager_env.store.list_review_watches f d)) [
          | inl (x, r) ↦ ground arith
          | inr (es, r) ↦
              let same : add_entries o es (live_snapshots login o m) ≡ ss = ground arith in
              subst (AllOwn login) same (
                add_entries-AllOwn login o es (live_snapshots login o m)
                  (listed-AllOwn f d es q k r) (live-AllOwn login o))
        ]
  ]

  list-AllOwn :
      (login : String) (o : ListOptions) (ss : List Snapshot)
      → KeepsLogins e.manager_env.store
      → list e.manager_env e.id_gt login o m ≡ ok ss
      → AllOwn login ss × (length ss ≤ list_limit o.limit)
  unfolding list
  list-AllOwn login o ss k h = elim (Bool-cases (login == "")) [
    | inl b ↦ ground arith
    | inr b ↦ elim (Result-cases (collect e.manager_env login o m)) [
      | inl (x, q) ↦ ground arith
      | inr (all, q) ↦
          let sorted = sort_snapshots e.id_gt all in
          let n = list_limit o.limit in
          let same : take n sorted ≡ ss = ground arith in
          subst (λ ys. AllOwn login ys × (length ys ≤ n)) same
            (
              take-All (IsWatchOf e.manager_env m login) n sorted
                  (sort_snapshots-AllOwn e.id_gt login all (collect-AllOwn login o all k q)),
              length-take-le n sorted,
            )
    ]
  ]

-- Where the maps of the manager are tied together and the store keeps logins apart, a watch that
-- get_copilot_review_watch_status shows, by its id or as the latest of a pull request, is a watch in the
-- memory of the manager or an entry that the store answers with, and belongs to the login of the call.
pub get_watch_status_handler-IsOwn :
    {S : Type 0} (name : Time → ℕ → String) (e : ToolEnv S) (i : WatchSelector) (c : Call)
    (now : Time) (m : Manager S) (o : GetReviewWatchStatusOutput)
    → Inv name m
    → KeepsLogins e.manager_env.store
    → get_watch_status_handler e i c now m ≡ output o
    → ShowsOwn e m now (login_from_tool_request c) o.watch
unfolding get_watch_status_handler
get_watch_status_handler-IsOwn name e i c now m o h k q =
    let login = login_from_tool_request c in
    elim (Bool-cases (login == "")) [
      | inl b ↦ ground arith
      | inr b ↦ elim (Bool-cases (i.watch_id == "")) [
        | inr d ↦
            status-shows e m now login (own login (get_by_id e.manager_env i.watch_id m)) o
              (own-shows e m now login i.watch_id) (ground arith)
        | inl d ↦ elim (Bool-cases (is_given i)) [
          | inr f ↦ ground arith
          | inl f ↦
              status-shows e m now login (get_latest e.manager_env (key_of login i) m) o
                (latest-shows e m now name (key_of login i) h k) (ground arith)
        ]
      ]
    ]

-- What a read of a watch resource shows is a watch in memory or in the store that belongs to the login
-- of its context.
pub read_watch_resource-IsOwn :
    {S : Type 0} (e : ToolEnv S) (uri : Option String) (c : Call) (now : Time) (m : Manager S)
    (v : Option ReviewWatchView)
    → read_watch_resource e uri c now m ≡ ok v
    → ShowsOwn e m now (login_from_context c.context) v
unfolding read_watch_resource
read_watch_resource-IsOwn e none c now m v h = ground arith
read_watch_resource-IsOwn e (some uri) c now m v h =
    let login = login_from_context c.context in
    elim (Bool-cases (uri == "")) [
      | inl b ↦ ground arith
      | inr b ↦ elim (Option-cases (parse_watch_id_from_uri e uri)) [
        | inl q ↦ let same : none ≡ v = ground arith in subst (ShowsOwn e m now login) same tt
        | inr (id, q) ↦ elim (Bool-cases (login == "")) [
          | inl d ↦ ground arith
          | inr d ↦
              let x = get_by_id e.manager_env id m in
              let same : Option.map (view_at e m now) (own login x) ≡ v = ground arith in
              subst (ShowsOwn e m now login) same (own-shows e m now login id)
        ]
      ]
    ]

list_limit_or_default :
    {S : Type 0} (e : ToolEnv S) (z : ℤ)
    → list_limit (pos (limit_or_default e z)) ≡ limit_or_default e z
list_limit_or_default e (pos zero) = refl
list_limit_or_default e (pos (suc n)) = ground arith
list_limit_or_default e (negsuc n) = refl

-- Where the store keeps logins apart, all that list_copilot_review_watches shows are watches in the
-- memory of the manager or entries that the store answers with, which belong to the login of the call;
-- it counts them, and shows no more than the limit asked for, or 20, which is at most 100.
pub list_watches_handler-IsOwn :
    {S : Type 0} (e : ToolEnv S) (i : ListReviewWatchesInput) (c : Call) (now : Time)
    (m : Manager S) (o : ListReviewWatchesOutput)
    → KeepsLogins e.manager_env.store
    → list_watches_handler e i c now m ≡ output o
    → All (IsOwn e m now (login_from_tool_request c)) o.watches
      × (o.count ≡ length o.watches)
      × (o.count ≤ limit_or_default e i.limit)
      × (o.count ≤ 100)
unfolding list_watches_handler
list_watches_handler-IsOwn e i c now m o k q =
    let login = login_from_tool_request c in
    let limit = limit_or_default e i.limit in
    let options : ListOptions = record {
      owner = i.owner;
      repo = i.repo;
      pr = i.pr;
      active_only = i.active_only;
      limit = pos limit;
    } in
    elim (Bool-cases (login == "")) [
      | inl b ↦ ground arith
      | inr b ↦ elim (Bool-cases (not (i.repo == "") && i.owner == "")) [
        | inl d ↦ ground arith
        | inr d ↦ elim (Bool-cases (is_positive i.pr && (i.owner == "" || i.repo == ""))) [
          | inl f ↦ ground arith
          | inr f ↦ elim (Bool-cases (ltb 100 limit)) [
            | inl g ↦ ground arith
            | inr g ↦ elim (Result-cases (list e.manager_env e.id_gt login options m)) [
              | inl (x, r) ↦ ground arith
              | inr (ss, r) ↦
                  let (all, short) = list-AllOwn e m now login options ss k r in
                  let views : map (view_at e m now) ss ≡ o.watches = ground arith in
                  let count : length ss ≡ o.count = ground arith in
                  let own_views =
                    map-All (IsOwn e m now login) (view_at e m now) ss
                      (All-weaken ss (λ s y. (s, y, refl)) all) in
                  let bound = list_limit_or_default e i.limit in
                  (
                    subst (All (IsOwn e m now login)) views own_views,
                    sym count ∙ sym (length-map (view_at e m now) ss) ∙ ap length views,
                    ground arith,
                    ground arith,
                  )
            ]
          ]
        ]
      ]
    ]
