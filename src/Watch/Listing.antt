-- ===== src/Watch/Listing.antt =====
-- The order of the snapshots that `List` of internal/watch/manager.go answers with.
use mathlib.Core.Path.{subst}
use copilot_review_mcp.Common.{
  ◌<◌, Bool, true, false, String, List, [], ◌∷◌, take, arith, ◌≡◌, inl, inr, refl, sym, ap, ◌∙◌,
  ◌==◌, string_eq, Bool-cases,
}
use copilot_review_mcp.Common.Sorting.{
  IsOrder, IsPage, IsLead, IsPage-IsLead, insert_by, sort_by, take-IsPage,
}
use copilot_review_mcp.Errors.{ok, Result-cases}
use copilot_review_mcp.Watch.State.{Manager, Env, Snapshot}
use copilot_review_mcp.Watch.Reads.{
  ListOptions, snapshot_before, insert_snapshot, sort_snapshots, list_limit, collect, list,
}

module _ (id_gt : String → String → Bool) where
  insert_snapshot-insert_by :
      (s : Snapshot) (ss : List Snapshot)
      → insert_snapshot id_gt s ss ≡ insert_by (snapshot_before id_gt) s ss
  unfolding insert_snapshot insert_by
  insert_snapshot-insert_by s [] = refl
  insert_snapshot-insert_by s (t ∷ ts) = ground (arith, insert_snapshot-insert_by s ts)

  sort_snapshots-sort_by :
      (ss : List Snapshot) → sort_snapshots id_gt ss ≡ sort_by (snapshot_before id_gt) ss
  unfolding sort_snapshots sort_by
  sort_snapshots-sort_by [] = refl
  sort_snapshots-sort_by (s ∷ ss) =
      ap (insert_snapshot id_gt s) (sort_snapshots-sort_by ss)
      ∙ insert_snapshot-insert_by s (sort_by (snapshot_before id_gt) ss)

  snapshot_before-asym :
      IsOrder id_gt
      → (a b : Snapshot) → snapshot_before id_gt a b ≡ true
      → snapshot_before id_gt b a ≡ false
  unfolding snapshot_before
  snapshot_before-asym o a b h = ground (arith, o.asym a.watch_id b.watch_id)

  snapshot_before_trans :
      IsOrder id_gt
      → (a b c : Snapshot) → snapshot_before id_gt b a ≡ false
      → snapshot_before id_gt c b ≡ false
      → snapshot_before id_gt c a ≡ false
  unfolding snapshot_before
  snapshot_before_trans o a b c h k = ground (arith, o.trans a.watch_id b.watch_id c.watch_id)

  snapshot_before-IsOrder : IsOrder id_gt → IsOrder (snapshot_before id_gt)
  snapshot_before-IsOrder o = record {
    asym = snapshot_before-asym o;
    trans = snapshot_before_trans o;
  }

list-IsPage :
    {S : Type 0} (env : Env S) (id_gt : String → String → Bool) (login : String) (o : ListOptions)
    (m : Manager S) (ss : List Snapshot)
    → IsOrder id_gt
    → list env id_gt login o m ≡ ok ss
    → (all : List Snapshot) × (collect env login o m ≡ ok all)
      × IsPage (snapshot_before id_gt) (list_limit o.limit) all ss
unfolding list
list-IsPage env id_gt login o m ss order h = elim (Bool-cases (login == "")) [
  | inl b ↦ ground arith
  | inr b ↦ elim (Result-cases (collect env login o m)) [
    | inl (x, q) ↦ ground arith
    | inr (all, q) ↦
        let n = list_limit o.limit in
        let same : take n (sort_snapshots id_gt all) ≡ ss = ground arith in
        (
          all,
          q,
          subst (IsPage (snapshot_before id_gt) n all)
              (ap (take n) (sym (sort_snapshots-sort_by id_gt all)) ∙ same)
              (take-IsPage (snapshot_before id_gt) (snapshot_before-IsOrder id_gt order) n all),
        )
  ]
]

-- The order of the snapshots.
pub data Precedes (id_gt : String → String → Bool) (a b : Snapshot) : Type 0 where
  live_first : a.terminal ≡ false → b.terminal ≡ true → Precedes id_gt a b
  updated_later : a.terminal ≡ b.terminal → b.updated_at < a.updated_at → Precedes id_gt a b
  started_later :
      a.terminal ≡ b.terminal
      → a.updated_at ≡ b.updated_at
      → b.started_at < a.started_at
      → Precedes id_gt a b
  id_greater :
      a.terminal ≡ b.terminal
      → a.updated_at ≡ b.updated_at
      → a.started_at ≡ b.started_at
      → id_gt a.watch_id b.watch_id ≡ true
      → Precedes id_gt a b

snapshot_before-Precedes :
    (id_gt : String → String → Bool) (a b : Snapshot)
    → snapshot_before id_gt a b ≡ false
    → ¬ Precedes id_gt a b
unfolding snapshot_before
snapshot_before-Precedes id_gt a b h (live_first t u) = ground arith
snapshot_before-Precedes id_gt a b h (updated_later t u) = ground arith
snapshot_before-Precedes id_gt a b h (started_later t u s) = ground arith
snapshot_before-Precedes id_gt a b h (id_greater t u s g) = ground arith

-- Let the comparison of strings be an order. Then List answers with the first of the snapshots that it
-- collected from the memory and the database, as many as the limit allows or all of them: those that
-- are not terminal first, then the one that was updated last, then the one that was started last, then
-- the one with the greater id; and the others stand after those.
pub list-IsLead :
    {S : Type 0} (env : Env S) (id_gt : String → String → Bool) (login : String) (o : ListOptions)
    (m : Manager S) (ss : List Snapshot)
    → IsOrder id_gt
    → list env id_gt login o m ≡ ok ss
    → (all : List Snapshot) × (collect env login o m ≡ ok all)
      × IsLead (Precedes id_gt) (list_limit o.limit) all ss
list-IsLead env id_gt login o m ss order h =
    let (all, q, page) = list-IsPage env id_gt login o m ss order h in
    (
      all,
      q,
      IsPage-IsLead (Precedes id_gt) (snapshot_before id_gt) (snapshot_before-Precedes id_gt)
          (list_limit o.limit) all ss page,
    )
