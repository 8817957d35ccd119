-- ===== src/Store/Open.antt =====
-- `Open` of internal/store/db.go: the schema, the migrations and the mark on the watches of an earlier
-- process. `Faults` says which of its statements the engine refuses.
pub mod Columns
pub mod Restart
pub mod Laws
use copilot_review_mcp.Common.{
  ℕ, ◌+◌, Bool, true, false, String, List, [], ◌∷◌, ◌++◌, Option, none, some, any, ◌==◌, string_eq,
  if◌then◌else◌,
}
use copilot_review_mcp.Errors.{GoError, Result, ok, err}
use copilot_review_mcp.Store.{Db}
use copilot_review_mcp.Store.Watches.{stale_on_open}

pub data Table : Type 0 where
  trigger_log review_watch : Table

-- The calls and SQL statements that can fail; `scan_row` has the index of the row that is read.
pub data Step : Type 0 where
  open_file set_pragmas drop_lookup build_lookup mark_stale : Step
  create_table create_index table_info iterate_rows close_rows add_column : Table → Step
  scan_row : Table → ℕ → Step

abbrev pub Faults : Type 0
Faults = Step → Option GoError

-- The file: the columns of its tables, none where a table does not exist, its lookup index, and its
-- rows.
pub record File : Type 0 where
  pub trigger_columns : Option (List String)
  pub watch_columns : Option (List String)
  pub lookup_index : Bool
  pub db : Db

-- What Open returns: an open database, or an error after the connection is closed; with the file.
pub data Opened : Type 0 where
  opened : File → Opened
  failed : GoError → File → Opened

-- The columns of the tables that `schema` creates.
abbrev pub trigger_schema : List String
trigger_schema = "id" ∷ "owner" ∷ "repo" ∷ "pr" ∷ "trigger" ∷ "requested_at" ∷ "completed_at" ∷ []

abbrev pub watch_schema : List String
watch_schema =
    "id" ∷ "github_login" ∷ "owner" ∷ "repo" ∷ "pr" ∷ "trigger_log_id" ∷ "resource_uri"
    ∷ "watch_status" ∷ "review_status" ∷ "failure_reason" ∷ "is_active" ∷ "started_at"
    ∷ "updated_at" ∷ "completed_at" ∷ "stale_at" ∷ "last_error" ∷ "rate_limit_reset_at"
    ∷ "recovery_hint" ∷ []

-- A table is only created where there is none.
abbrev pub created : List String → Option (List String) → List String
created columns none = columns
created columns (some old) = old

unfoldable pub with_table : Table → File → File
with_table trigger_log f = record f {
  trigger_columns = some (created trigger_schema f.trigger_columns);
}
with_table review_watch f = record f { watch_columns = some (created watch_schema f.watch_columns) }

abbrev pub columns_of : Option (List String) → List String
columns_of none = []
columns_of (some columns) = columns

abbrev pub columns : Table → File → List String
columns trigger_log f = columns_of f.trigger_columns
columns review_watch f = columns_of f.watch_columns

unfoldable pub with_column : Table → String → File → File
with_column trigger_log name f = record f {
  trigger_columns = some (columns trigger_log f ++ (name ∷ []));
}
with_column review_watch name f = record f {
  watch_columns = some (columns review_watch f ++ (name ∷ []));
}

-- `wrapped` is fmt.Errorf with a format; `duplicate` is what the engine answers to a column that exists.
pub record OpenEnv : Type 0 where
  pub wrapped : String → GoError → GoError
  pub duplicate : GoError

-- The texts around the errors of a migration.
abbrev pub check_text : Table → String
check_text trigger_log = "migration check table_info: %w"
check_text review_watch = "migration check review_watch table_info: %w"

abbrev pub scan_text : Table → String
scan_text trigger_log = "migration scan table_info: %w"
scan_text review_watch = "migration scan review_watch table_info: %w"

abbrev pub iterate_text : Table → String
iterate_text trigger_log = "migration iterate table_info: %w"
iterate_text review_watch = "migration iterate review_watch table_info: %w"

abbrev pub close_text : Table → String
close_text trigger_log = "migration close table_info rows: %w"
close_text review_watch = "migration close review_watch table_info rows: %w"

abbrev pub add_text : Table → String
add_text trigger_log = "migration add prev_review_id: %w"
add_text review_watch = "migration add recovery_hint: %w"

module _ (e : OpenEnv) (fault : Faults) where
  -- The loop over the rows of `PRAGMA table_info`.
  unfoldable pub has_column : Table → String → ℕ → List String → Result Bool
  has_column t name i [] = ok false
  has_column t name i (c ∷ cs) =
      let rest = has_column t name (i + 1) cs in
      elim (fault (scan_row t i)) [
        | some x ↦ err (e.wrapped (scan_text t) x)
        | none ↦ if c == name then ok true else rest
      ]

  -- A call that fails with an error ends Open with the file as it was.
  unfoldable pub attempt : Option GoError → File → Opened → Opened
  attempt none f go = go
  attempt (some x) f go = failed x f

  unfoldable pub attempt_with : String → Option GoError → File → Opened → Opened
  attempt_with text none f go = go
  attempt_with text (some x) f go = failed (e.wrapped text x) f

  -- `ALTER TABLE … ADD COLUMN`.
  abbrev pub alter : Table → String → File → (File → Opened) → Opened
  alter t name f next = attempt_with (add_text t) (fault (add_column t)) f (
      if any (λ c. c == name) (columns t f)
      then failed (e.wrapped (add_text t) e.duplicate) f
      else next (with_column t name f))

  -- A migration: the column is looked for, and added where it is not found.
  unfoldable pub migrate : Table → String → File → (File → Opened) → Opened
  migrate t name f next =
      attempt_with (check_text t) (fault (table_info t)) f
        (elim (has_column t name 0 (columns t f)) [
          | err x ↦ failed x f
          | ok exists ↦ attempt_with (iterate_text t) (fault (iterate_rows t)) f (
              attempt_with (close_text t) (fault (close_rows t)) f
                (if exists then next f else alter t name f next))
        ])

  -- The statements of `schema` for one table.
  unfoldable pub apply_schema : Table → File → (File → Opened) → Opened
  apply_schema t f next =
      attempt (fault (create_table t)) f
        (let g = with_table t f in attempt (fault (create_index t)) g (next g))

  -- The end of Open: the lookup index is built again, and the active watches are marked.
  unfoldable pub finish_open : File → Opened
  finish_open f = attempt (fault drop_lookup) f (
      attempt (fault build_lookup) (record f { lookup_index = false })
        (let g : File = record f { lookup_index = true } in
          let (r, d) = stale_on_open (record g.db { fault = fault mark_stale }) in
          elim r [ err x ↦ failed x g | ok n ↦ opened (record g { db = d }) ]))

  -- `Open` after the schema.
  unfoldable pub migrate_and_finish : File → Opened
  migrate_and_finish f =
      migrate trigger_log "prev_review_id" f
        (λ g. migrate review_watch "recovery_hint" g finish_open)

  -- `Open`.
  unfoldable pub open_db : File → Opened
  open_db f = attempt (fault open_file) f (
      attempt (fault set_pragmas) f
        (apply_schema trigger_log f (λ g. apply_schema review_watch g migrate_and_finish)))
