-- ===== src/Store.antt =====
-- internal/store/db.go: the two tables and the engine below them. SQLite itself is not modelled: what
-- it decides (the time of a statement, a failure, the rowid of a new row) are fields of `Db`.
pub mod Trigger
pub mod Watches
pub mod Open
use copilot_review_mcp.Common.{ℕ, ℤ, Bool, String, List, Option, none, some, All, ◌<◌}
use copilot_review_mcp.Errors.{GoError, Result, err}

-- A row of trigger_log; times in seconds.
pub record TriggerRow : Type 0 where
  pub id : ℕ
  pub owner : String
  pub repo : String
  pub pr : ℤ
  pub trigger : String
  pub requested_at : ℕ
  pub completed_at : Option ℕ
  pub prev_review_id : Option String

-- A row of review_watch, with its rowid; times in seconds.
pub record WatchRow : Type 0 where
  pub rowid : ℕ
  pub id : String
  pub github_login : String
  pub owner : String
  pub repo : String
  pub pr : ℤ
  pub trigger_log_id : Option ℕ
  pub resource_uri : Option String
  pub watch_status : String
  pub review_status : Option String
  pub failure_reason : Option String
  pub is_active : Bool
  pub started_at : ℕ
  pub updated_at : ℕ
  pub completed_at : Option ℕ
  pub stale_at : Option ℕ
  pub last_error : Option String
  pub rate_limit_reset_at : Option ℕ
  pub recovery_hint : Option String

-- `clock` is strftime('%s','now'); `fault` is the error with which the engine answers the next
-- statement; `new_rowid` chooses a rowid beside those in use; `constraint_error` is what the engine
-- answers to a row that a unique index forbids.
pub record Db : Type 0 where
  pub trigger_log : List TriggerRow
  pub review_watch : List WatchRow
  pub clock : ℕ
  pub fault : Option GoError
  pub new_rowid : List ℕ → ℕ
  pub constraint_error : GoError

-- The documented choice of SQLite: above every rowid in use.
abbrev pub Grows : (List ℕ → ℕ) → Type 0
Grows new_rowid = (ids : List ℕ) → All (λ i. i < new_rowid ids) ids

-- A statement that fails changes nothing.
abbrev pub exec {ℓ} : {A : Type ℓ} → Db → Result A × Db → Result A × Db
exec d done = elim d.fault [ none ↦ done | some e ↦ (err e, d) ]

-- A query that fails answers with the error.
abbrev pub query {ℓ} : {A : Type ℓ} → Db → Result A → Result A
query d answer = elim d.fault [ none ↦ answer | some e ↦ err e ]
