-- ===== src/Store/Watches/Lists.antt =====
-- The rows that ListReviewWatches answers with, and their order.

use mathlib.Core.Path.{subst}
use mathlib.Core.List.{Perm}
use copilot_review_mcp.Common.{
  ℕ, ℤ, pos, negsuc, zero, suc, is_positive, ◌==◌, ◌||◌, ◌<◌, ◌≢◌, ◌++◌, true, not, take, keep-All,
  All-weaken, eq_iff, int_beq_iff, string_eq, int_eq, Bool, false, List, [], ◌∷◌, none, map, keep,
  ltb, All, arith, ◌≡◌, ◌⊎◌, inl, inr, refl, sym, ap, ◌∙◌, Bool-cases,
}
use copilot_review_mcp.Common.Sorting.{
  IsOrder, IsRanked, IsLead, IsSorted-IsRanked, IsPage-IsLead, insert_by, sort_by, sort_by-Perm,
  sort_by-IsSorted, take-IsPage, keep-Perm,
}
use copilot_review_mcp.Errors.{ok}
use copilot_review_mcp.Store.{WatchRow, Db}
use copilot_review_mcp.Store.Watches.{
  ReviewWatchFilter, scan_review_watch, fresher, listed_before, insert_row, sort_rows,
  matches_filter, limited, list_review_watches,
}

insert_row-insert_by :
    (lt : WatchRow → WatchRow → Bool) (r : WatchRow) (rows : List WatchRow)
    → insert_row lt r rows ≡ insert_by lt r rows
unfolding insert_row insert_by
insert_row-insert_by lt r [] = refl
insert_row-insert_by lt r (s ∷ rows) = ground (arith, insert_row-insert_by lt r rows)

pub sort_rows-sort_by :
    (lt : WatchRow → WatchRow → Bool) (rows : List WatchRow) → sort_rows lt rows ≡ sort_by lt rows
unfolding sort_rows sort_by
sort_rows-sort_by lt [] = refl
sort_rows-sort_by lt (r ∷ rows) =
    ap (insert_row lt r) (sort_rows-sort_by lt rows) ∙ insert_row-insert_by lt r (sort_by lt rows)

pub fresher-IsOrder : IsOrder fresher
fresher-IsOrder = record { asym = λ r s h. ground arith; trans = λ r s t h k. ground arith }

listed_before-IsOrder : IsOrder listed_before
listed_before-IsOrder = record { asym = λ r s h. ground arith; trans = λ r s t h k. ground arith }

-- What the filter asks of a row: its user, the owner, repository and number where these are given, and
-- that it is active where only such rows are wanted.
pub record Matches (f : ReviewWatchFilter) (r : WatchRow) : Type 0 where
  pub login : r.github_login ≡ f.github_login
  pub owner : f.owner ≢ "" → r.owner ≡ f.owner
  pub repo : f.repo ≢ "" → r.repo ≡ f.repo
  pub pr : (n : ℕ) → f.pr ≡ pos (suc n) → r.pr ≡ f.pr
  pub active : f.active_only ≡ true → r.is_active ≡ true

-- Of two rows, the one that was updated later, or else started later, or else inserted later.
pub data IsFresher (r s : WatchRow) : Type 0 where
  updated_later : s.updated_at < r.updated_at → IsFresher r s
  started_later : r.updated_at ≡ s.updated_at → s.started_at < r.started_at → IsFresher r s
  newer :
      r.updated_at ≡ s.updated_at → r.started_at ≡ s.started_at → s.rowid < r.rowid → IsFresher r s

pub fresher-IsFresher : (r s : WatchRow) → fresher r s ≡ false → ¬ IsFresher r s
fresher-IsFresher r s h (updated_later u) = ground arith
fresher-IsFresher r s h (started_later u t) = ground arith
fresher-IsFresher r s h (newer u t n) = ground arith

-- The order of the rows.
pub data Precedes (r s : WatchRow) : Type 0 where
  active_first : r.is_active ≡ true → s.is_active ≡ false → Precedes r s
  fresher_next : r.is_active ≡ s.is_active → IsFresher r s → Precedes r s

listed_before-Precedes : (r s : WatchRow) → listed_before r s ≡ false → ¬ Precedes r s
listed_before-Precedes r s h (active_first a b) = ground arith
listed_before-Precedes r s h (fresher_next a f) =
    let no_ = fresher-IsFresher r s (ground arith) in absurd (no_ f)

matches_filter-Matches :
    (f : ReviewWatchFilter) (r : WatchRow) → matches_filter f r ≡ true → Matches f r
matches_filter-Matches f r h = record {
  login = ground (arith, eq_iff r.github_login f.github_login);
  owner = λ k. ground (arith, eq_iff f.owner "", eq_iff r.owner f.owner);
  repo = λ k. ground (arith, eq_iff f.repo "", eq_iff r.repo f.repo);
  pr = λ n k. ground (arith, int_beq_iff r.pr f.pr);
  active = λ k. ground arith;
}

positive_lem : (z : ℤ) → is_positive z ≡ true → (n : ℕ) × (z ≡ pos (suc n))
positive_lem (pos zero) h = ground arith
positive_lem (pos (suc n)) h = (n, refl)
positive_lem (negsuc n) h = ground arith

-- A condition that is only asked where something is given.
asked : (given met : Bool) → (given ≡ true → met ≡ true) → (not given || met) ≡ true
asked true met h = h refl
asked false met h = refl

Matches-matches_filter :
    (f : ReviewWatchFilter) (r : WatchRow) → Matches f r → matches_filter f r ≡ true
Matches-matches_filter f r k =
    let owner : (f.owner == "" || r.owner == f.owner) ≡ true = elim (Bool-cases (f.owner == "")) [
      | inl b ↦ ground arith
      | inr b ↦
          let same = k.owner (ground (arith, eq_iff f.owner "")) in
          ground (arith, eq_iff r.owner f.owner)
    ] in
    let repo : (f.repo == "" || r.repo == f.repo) ≡ true = elim (Bool-cases (f.repo == "")) [
      | inl b ↦ ground arith
      | inr b ↦
          let same = k.repo (ground (arith, eq_iff f.repo "")) in
          ground (arith, eq_iff r.repo f.repo)
    ] in
    let pr =
      asked (is_positive f.pr) (r.pr == f.pr)
        (λ b. let (n, q) = positive_lem f.pr b in (int_beq_iff r.pr f.pr).1 (k.pr n q)) in
    let active = asked f.active_only r.is_active k.active in
    let login = (eq_iff r.github_login f.github_login).1 k.login in ground arith

-- The rows that match, whichever their order, and the others.
abbrev pub IsSelected : ReviewWatchFilter → List WatchRow → List WatchRow → Type 0
IsSelected f table all =
    (others : List WatchRow) × Perm table (all ++ others)
    × All (Matches f) all
    × All (λ r. ¬ Matches f r) others

keep-IsSelected :
    (f : ReviewWatchFilter) (table : List WatchRow)
    → IsSelected f table (keep (matches_filter f) table)
keep-IsSelected f table =
    let others = keep (λ r. not (matches_filter f r)) table in
    (
      others,
      keep-Perm (matches_filter f) table,
      All-weaken (keep (matches_filter f) table) (matches_filter-Matches f)
          (keep-All (matches_filter f) table),
      All-weaken others (λ r b k. let m = Matches-matches_filter f r k in ground arith)
          (keep-All (λ r. not (matches_filter f r)) table),
    )

-- The answer for a limit, which counts where it is positive.
abbrev pub IsAnswer : ℕ → List WatchRow → List WatchRow → Type 0
IsAnswer limit all rows =
    ((0 < limit) × IsLead Precedes limit all rows)
    ⊎ ((limit ≡ 0) × Perm all rows × IsRanked Precedes rows)

limited-IsAnswer :
    (limit : ℕ) (all : List WatchRow)
    → IsAnswer limit all (limited limit (sort_rows listed_before all))
limited-IsAnswer limit all =
    let sorted = sort_by listed_before all in
    subst (λ rows. IsAnswer limit all (limited limit rows))
      (sym (sort_rows-sort_by listed_before all))
      (elim (Bool-cases (ltb 0 limit)) [
        | inl b ↦ rw b (
            inl (
              ground arith,
              IsPage-IsLead Precedes listed_before listed_before-Precedes limit all
                  (take limit sorted) (take-IsPage listed_before listed_before-IsOrder limit all),
            ))
        | inr b ↦ rw b (
            inr (
              ground arith,
              sort_by-Perm listed_before all,
              IsSorted-IsRanked Precedes listed_before listed_before-Precedes sorted
                  (sort_by-IsSorted listed_before listed_before-IsOrder all),
            ))
      ])

-- When the engine does not fail, ListReviewWatches answers with rows of the table that match the filter
-- in its user, in the owner, repository and number that it gives, and in being active if it asks for
-- that: active ones first, then the one that was updated last, then the one that was started last, then
-- the one with the greatest rowid; all of them without a limit, or else as many as the limit allows, no
-- other preceding one of those.
pub list_review_watches-IsAnswer :
    (f : ReviewWatchFilter) (d : Db)
    → d.fault ≡ none
    → (rows all : List WatchRow) × (list_review_watches f d ≡ ok (map scan_review_watch rows))
      × IsSelected f d.review_watch all
      × IsAnswer f.limit all rows
unfolding list_review_watches
list_review_watches-IsAnswer f d h =
    let all = keep (matches_filter f) d.review_watch in
    (
      limited f.limit (sort_rows listed_before all),
      all,
      ground arith,
      keep-IsSelected f d.review_watch,
      limited-IsAnswer f.limit all,
    )
