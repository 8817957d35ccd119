-- ===== src/Store/Open/Columns.antt =====
-- The columns that Open leaves, and the file that it ends with.
use mathlib.Core.Path.{subst}
use copilot_review_mcp.Common.{
  ℕ, ◌+◌, Bool, true, false, String, List, [], ◌∷◌, ◌++◌, none, some, map, any, arith, ◌≡◌, inl,
  inr, refl, ap, ◌==◌, string_eq, beq_refl, Bool-cases, Option-cases, if◌then◌else◌,
}
use copilot_review_mcp.Errors.{ok}
use copilot_review_mcp.Store.{WatchRow}
use copilot_review_mcp.Store.Watches.{stale_row, stale_on_open}
use copilot_review_mcp.Store.Open.{
  Table, trigger_log, review_watch, Faults, File, Opened, opened, failed, trigger_schema,
  watch_schema, created, with_table, columns, columns_of, with_column, OpenEnv, has_column,
  scan_row,
}

-- The columns with one more, where it is not among them.
abbrev pub with_name : String → List String → List String
with_name name cs = if any (λ c. c == name) cs then cs else cs ++ (name ∷ [])

-- The file as a process finds it after Open: the tables exist and have the columns that were added
-- later, the index is there, and no watch is active.
abbrev pub finished : File → File
finished f = record {
  trigger_columns = some (with_name "prev_review_id" (created trigger_schema f.trigger_columns));
  watch_columns = some (with_name "recovery_hint" (created watch_schema f.watch_columns));
  lookup_index = true;
  db = (stale_on_open (record f.db { fault = none })).1;
}

abbrev pub file_of : Opened → File
file_of (opened f) = f
file_of (failed x f) = f

pub any-append :
    (name : String) (cs : List String) → any (λ c. c == name) (cs ++ (name ∷ [])) ≡ true
any-append name [] = ground (arith, beq_refl name)
any-append name (c ∷ cs) = ground (arith, any-append name cs)

pub with_name-added :
    (name : String) (cs : List String)
    → any (λ c. c == name) cs ≡ false
    → with_name name (cs ++ (name ∷ [])) ≡ with_name name cs
with_name-added name cs h = rw (any-append name cs, h) refl

pub any-with_name :
    (name : String) (cs : List String) → any (λ c. c == name) (with_name name cs) ≡ true
any-with_name name cs = elim (Bool-cases (any (λ c. c == name) cs)) [
  | inl b ↦ rw (b, b) refl
  | inr b ↦ rw b (any-append name cs)
]

pub with_name_twice :
    (name : String) (cs : List String) → with_name name (with_name name cs) ≡ with_name name cs
with_name_twice name cs = ground (arith, any-with_name name cs)

pub stale_rows_twice :
    (now : ℕ) (text : String) (rows : List WatchRow)
    → map (stale_row now text) (map (stale_row now text) rows) ≡ map (stale_row now text) rows
stale_rows_twice now text [] = refl
stale_rows_twice now text (r ∷ rows) = elim (Bool-cases r.is_active) [
  | inl b ↦ ground (arith, stale_rows_twice now text rows)
  | inr b ↦ ground (arith, stale_rows_twice now text rows)
]

pub finished-with_table : (t : Table) (f : File) → finished (with_table t f) ≡ finished f
unfolding with_table
finished-with_table trigger_log f = elim (Option-cases f.trigger_columns) [
  | inl q ↦ ground arith
  | inr (cs, q) ↦ ground arith
]
finished-with_table review_watch f = elim (Option-cases f.watch_columns) [
  | inl q ↦ ground arith
  | inr (cs, q) ↦ ground arith
]

-- Both tables exist.
abbrev pub IsMade : File → Type 0
IsMade f =
    ((cs : List String) × (f.trigger_columns ≡ some cs))
    × ((cs : List String) × (f.watch_columns ≡ some cs))

-- The column that a migration adds.
abbrev pub added : Table → String
added trigger_log = "prev_review_id"
added review_watch = "recovery_hint"

pub finished-with_column :
    (t : Table) (f : File)
    → IsMade f
    → any (λ c. c == added t) (columns t f) ≡ false
    → finished (with_column t (added t) f) ≡ finished f
unfolding with_column
finished-with_column trigger_log f ((cs, q), made) h =
    ap (λ (x : List String). let g : File = record (finished f) { trigger_columns = some x } in g)
      (rw q (
        with_name-added "prev_review_id" cs
          (subst (λ o. any (λ c. c == "prev_review_id") (columns_of o) ≡ false) q h)))
finished-with_column review_watch f (made, (cs, q)) h =
    ap (λ (x : List String). let g : File = record (finished f) { watch_columns = some x } in g)
      (rw q (
        with_name-added "recovery_hint" cs
          (subst (λ o. any (λ c. c == "recovery_hint") (columns_of o) ≡ false) q h)))

pub IsMade-with_column :
    (t : Table) (name : String) (f : File) → IsMade f → IsMade (with_column t name f)
unfolding with_column
IsMade-with_column trigger_log name f (a, b) = ((_, refl), b)
IsMade-with_column review_watch name f (a, b) = (a, (_, refl))

abbrev pub HasAdded : Table → File → Type 0
HasAdded t f = any (λ c. c == added t) (columns t f) ≡ true

pub HasAdded-with_column : (t : Table) (f : File) → HasAdded t (with_column t (added t) f)
unfolding with_column
HasAdded-with_column trigger_log f = any-append "prev_review_id" (columns trigger_log f)
HasAdded-with_column review_watch f = any-append "recovery_hint" (columns review_watch f)

pub with_column-keeps :
    (t u : Table) (f : File) → HasAdded u f → HasAdded u (with_column t (added t) f)
unfolding with_column
with_column-keeps trigger_log trigger_log f h = HasAdded-with_column trigger_log f
with_column-keeps trigger_log review_watch f h = h
with_column-keeps review_watch trigger_log f h = h
with_column-keeps review_watch review_watch f h = HasAdded-with_column review_watch f

pub has_column-ok :
    (e : OpenEnv) (fault : Faults) (t : Table) (name : String) (i : ℕ) (cs : List String)
    (found : Bool)
    → has_column e fault t name i cs ≡ ok found
    → any (λ c. c == name) cs ≡ found
unfolding has_column
has_column-ok e fault t name i [] found h = ground arith
has_column-ok e fault t name i (c ∷ cs) found h = elim (Option-cases (fault (scan_row t i))) [
  | inr (x, q) ↦ ground arith
  | inl q ↦ ground (arith, has_column-ok e fault t name (i + 1) cs found)
]

pub finished_twice : (f : File) → finished (finished f) ≡ finished f
unfolding stale_on_open
finished_twice f =
    let d = f.db in
    let text : String = "watch became stale because the review-raven process restarted" in
    rw
      (
        with_name_twice "prev_review_id" (created trigger_schema f.trigger_columns),
        with_name_twice "recovery_hint" (created watch_schema f.watch_columns),
        stale_rows_twice d.clock text d.review_watch,
      )
      refl
