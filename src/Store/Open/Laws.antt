-- ===== src/Store/Open/Laws.antt =====
-- Open brings every file to the present schema, and may fail at any statement without harm.
use mathlib.Core.Path.{subst}
use copilot_review_mcp.Common.{
  All, ℕ, ◌+◌, true, false, String, List, [], ◌∷◌, ◌++◌, none, any, arith, ◌≡◌, inl, inr, refl, ap,
  ◌∙◌, ◌==◌, string_eq, Bool-cases,
}
use copilot_review_mcp.Errors.{ok}
use copilot_review_mcp.Store.Watches.{stale_on_open}
use copilot_review_mcp.Store.Watches.Stale.{stale-none-active}
use copilot_review_mcp.Store.Open.{
  Table, trigger_log, review_watch, Faults, File, Opened, opened, failed, trigger_schema,
  watch_schema, created, with_table, columns, with_column, OpenEnv, has_column, attempt,
  attempt_with, migrate, apply_schema, finish_open, migrate_and_finish, open_db,
}
use copilot_review_mcp.Store.Open.Columns.{with_name, finished, any-with_name}
use copilot_review_mcp.Store.Open.Restart.{Leads, open_db-Leads}

-- An engine that refuses nothing.
abbrev pub no_faults : Faults
no_faults s = none

abbrev IsOpened : Opened → Type 0
IsOpened o = (g : File) × (o ≡ opened g)

has_column-no_faults :
    (e : OpenEnv) (t : Table) (name : String) (i : ℕ) (cs : List String)
    → has_column e no_faults t name i cs ≡ ok (any (λ c. c == name) cs)
unfolding has_column
has_column-no_faults e t name i [] = refl
has_column-no_faults e t name i (c ∷ cs) = ground (arith, has_column-no_faults e t name (i + 1) cs)

migrate-opens :
    (e : OpenEnv) (t : Table) (name : String) (f : File) (next : File → Opened)
    → ((g : File) → IsOpened (next g))
    → IsOpened (migrate e no_faults t name f next)
unfolding migrate attempt_with
migrate-opens e t name f next h = elim (Bool-cases (any (λ c. c == name) (columns t f))) [
  | inl b ↦ rw (has_column-no_faults e t name 0 (columns t f), b) (h f)
  | inr b ↦ rw (has_column-no_faults e t name 0 (columns t f), b) (h (with_column t name f))
]

finish_open-opens : (e : OpenEnv) (f : File) → IsOpened (finish_open e no_faults f)
unfolding finish_open stale_on_open attempt
finish_open-opens e f = (_, refl)

open_db-IsOpened : (e : OpenEnv) (f : File) → IsOpened (open_db e no_faults f)
unfolding open_db migrate_and_finish apply_schema attempt
open_db-IsOpened e f =
    migrate-opens e trigger_log "prev_review_id"
      (with_table review_watch (with_table trigger_log f)) _
      (λ g. migrate-opens e review_watch "recovery_hint" g _ (λ g'. finish_open-opens e g'))

pub open_db-opens : (e : OpenEnv) (f : File) → open_db e no_faults f ≡ opened (finished f)
open_db-opens e f =
    let (g, h) = open_db-IsOpened e f in
    let same : g ≡ finished f =
      subst (Leads (finished f)) h (open_db-Leads e no_faults (finished f) f refl) in
    h ∙ ap opened same

append-nil : (cs : List String) → cs ≡ cs ++ []
append-nil [] = refl
append-nil (c ∷ cs) = ap (λ ds. c ∷ ds) (append-nil cs)

with_name-extends :
    (name : String) (cs : List String) → (ds : List String) × (with_name name cs ≡ cs ++ ds)
with_name-extends name cs = elim (Bool-cases (any (λ c. c == name) cs)) [
  | inl b ↦ ([], rw b (append-nil cs))
  | inr b ↦ (name ∷ [], rw b refl)
]

-- The present schema, with the columns and the triggers that the file had, and no active watch.
abbrev pub IsCurrent : File → File → Type 0
IsCurrent f g =
    (any (λ c. c == "prev_review_id") (columns trigger_log g) ≡ true)
    × (any (λ c. c == "recovery_hint") (columns review_watch g) ≡ true)
    × ((ds : List String) × (columns trigger_log g
          ≡ created trigger_schema f.trigger_columns ++ ds))
    × ((ds : List String) × (columns review_watch g ≡ created watch_schema f.watch_columns ++ ds))
    × (g.lookup_index ≡ true)
    × (g.db.trigger_log ≡ f.db.trigger_log)
    × All (λ r. r.is_active ≡ false) g.db.review_watch

finished-IsCurrent : (f : File) → IsCurrent f (finished f)
unfolding stale_on_open
finished-IsCurrent f = (
  any-with_name "prev_review_id" (created trigger_schema f.trigger_columns),
  any-with_name "recovery_hint" (created watch_schema f.watch_columns),
  with_name-extends "prev_review_id" (created trigger_schema f.trigger_columns),
  with_name-extends "recovery_hint" (created watch_schema f.watch_columns),
  refl,
  refl,
  stale-none-active f.db.clock "watch became stale because the review-raven process restarted"
      f.db.review_watch,
)

-- What an outcome of Open means for the file.
abbrev pub Restarts : OpenEnv → File → Opened → Type 0
Restarts e f (opened g) = g ≡ finished f
Restarts e f (failed x g) = open_db e no_faults g ≡ opened (finished f)

Leads-Restarts : (e : OpenEnv) (f : File) (o : Opened) → Leads (finished f) o → Restarts e f o
Leads-Restarts e f (opened g) h = h
Leads-Restarts e f (failed x g) h = open_db-opens e g ∙ ap opened h

-- Whatever statements the engine refuses, Open ends in one of two ways. It succeeds, and then with one
-- file, which depends on the old file alone: both tables have the columns that they had or those of
-- the schema, and the columns that were added later; the lookup index is there, the triggers are as
-- before, and no watch is active. Or it fails, and then a later Open of what it left, with an engine
-- that refuses nothing, succeeds with that same file.
pub open_db-Restarts :
    (e : OpenEnv) (fault : Faults) (f : File)
    → IsCurrent f (finished f) × Restarts e f (open_db e fault f)
open_db-Restarts e fault f = (
  finished-IsCurrent f,
  Leads-Restarts e f (open_db e fault f) (open_db-Leads e fault (finished f) f refl),
)
