-- ===== src/Store/Open/Restart.antt =====
-- Every outcome of Open, at any statement, leads on to the same file.
use copilot_review_mcp.Common.{
  true, false, String, Option, none, some, any, arith, ◌≡◌, inl, inr, refl, ◌∙◌, ◌==◌, string_eq,
  Bool-cases, Option-cases,
}
use copilot_review_mcp.Errors.{GoError, Result-cases}
use copilot_review_mcp.Store.{Db}
use copilot_review_mcp.Store.Watches.{stale_on_open}
use copilot_review_mcp.Store.Open.{
  Table, trigger_log, review_watch, Faults, File, Opened, opened, failed, trigger_schema,
  watch_schema, created, with_table, columns, with_column, OpenEnv, has_column, attempt,
  attempt_with, alter, migrate, apply_schema, finish_open, migrate_and_finish, open_db, mark_stale,
}
use copilot_review_mcp.Store.Open.Columns.{
  with_name, finished, finished-with_table, IsMade, added, finished-with_column, IsMade-with_column,
  HasAdded, HasAdded-with_column, with_column-keeps, has_column-ok,
}

-- An outcome of Open for which another Open ends with the same file.
abbrev pub Leads : File → Opened → Type 0
Leads goal (opened g) = g ≡ goal
Leads goal (failed x g) = finished g ≡ goal

with_tables_lem : (f : File) → IsMade (with_table review_watch (with_table trigger_log f))
unfolding with_table
with_tables_lem f = ((_, refl), (_, refl))

-- A file whose tables have the columns is finished up to the index and the watches.
ready_lem :
    (f : File) (x : Option GoError)
    → IsMade f
    → HasAdded trigger_log f
    → HasAdded review_watch f
    → x ≡ none
    → (let d : Db = (stale_on_open (record f.db { fault = x })).1 in
        let g : File = record f { lookup_index = true; db = d } in g)
      ≡ finished f
ready_lem f x ((cs, p), (ds, q)) a b r =
    let one : f.trigger_columns
        ≡ some (with_name "prev_review_id" (created trigger_schema f.trigger_columns)) =
      ground (arith, a) in
    let two : f.watch_columns
        ≡ some (with_name "recovery_hint" (created watch_schema f.watch_columns)) =
      ground (arith, b) in
    λ i. record {
      trigger_columns = one i;
      watch_columns = two i;
      lookup_index = true;
      db = (stale_on_open (record f.db { fault = r i })).1;
    }

module _ (e : OpenEnv) (fault : Faults) (goal : File) where
  attempt-Leads :
      (x : Option GoError) (f : File) (go : Opened)
      → finished f ≡ goal
      → Leads goal go
      → Leads goal (attempt e fault x f go)
  unfolding attempt
  attempt-Leads none f go h k = k
  attempt-Leads (some x) f go h k = h

  attempt_with-Leads :
      (text : String) (x : Option GoError) (f : File) (go : Opened)
      → finished f ≡ goal
      → Leads goal go
      → Leads goal (attempt_with e fault text x f go)
  unfolding attempt_with
  attempt_with-Leads text none f go h k = k
  attempt_with-Leads text (some x) f go h k = h

  -- What a migration of a table hands on to the rest of Open.
  abbrev Continues : Table → File → (File → Opened) → Type 0
  Continues t f next =
      (g : File)
      → IsMade g
      → HasAdded t g
      → ((u : Table) → HasAdded u f → HasAdded u g)
      → finished g ≡ goal
      → Leads goal (next g)

  alter-Leads :
      (t : Table) (f : File) (next : File → Opened)
      → IsMade f
      → finished f ≡ goal
      → Continues t f next
      → Leads goal (alter e fault t (added t) f next)
  alter-Leads t f next made h k =
      attempt_with-Leads _ _ f _ h (elim (Bool-cases (any (λ c. c == added t) (columns t f))) [
        | inl b ↦ rw b h
        | inr b ↦ rw b (
            k (with_column t (added t) f) (IsMade-with_column t (added t) f made)
              (HasAdded-with_column t f) (λ u. with_column-keeps t u f)
              (finished-with_column t f made b ∙ h))
      ])

  migrate-Leads :
      (t : Table) (f : File) (next : File → Opened)
      → IsMade f
      → finished f ≡ goal
      → Continues t f next
      → Leads goal (migrate e fault t (added t) f next)
  unfolding migrate
  migrate-Leads t f next made h k =
      attempt_with-Leads _ _ f _ h
        (elim (Result-cases (has_column e fault t (added t) 0 (columns t f))) [
          | inl (x, q) ↦ rw q h
          | inr (true, q) ↦ rw q (
              attempt_with-Leads _ _ f _ h (
                attempt_with-Leads _ _ f _ h (
                  k f made (has_column-ok e fault t (added t) 0 (columns t f) true q) (λ u a. a)
                    h)))
          | inr (false, q) ↦ rw q (
              attempt_with-Leads _ _ f _ h
                (attempt_with-Leads _ _ f _ h (alter-Leads t f next made h k)))
        ])

  apply_schema-Leads :
      (t : Table) (f : File) (next : File → Opened)
      → finished f ≡ goal
      → Leads goal (next (with_table t f))
      → Leads goal (apply_schema e fault t f next)
  unfolding apply_schema
  apply_schema-Leads t f next h k =
      attempt-Leads _ f _ h (attempt-Leads _ (with_table t f) _ (finished-with_table t f ∙ h) k)

  finish_open-Leads :
      (f : File)
      → IsMade f
      → HasAdded trigger_log f
      → HasAdded review_watch f
      → finished f ≡ goal
      → Leads goal (finish_open e fault f)
  unfolding finish_open stale_on_open
  finish_open-Leads f made a b h = attempt-Leads _ f _ h (
      attempt-Leads _ (record f { lookup_index = false }) _ h
        (elim (Option-cases (fault mark_stale)) [
          | inr (x, r) ↦ rw r h
          | inl r ↦ rw r (ready_lem f (fault mark_stale) made a b r ∙ h)
        ]))

  pub open_db-Leads : (f : File) → finished f ≡ goal → Leads goal (open_db e fault f)
  unfolding open_db migrate_and_finish
  open_db-Leads f h =
      let made = with_table review_watch (with_table trigger_log f) in
      let same : finished made ≡ goal =
        finished-with_table review_watch (with_table trigger_log f)
        ∙ finished-with_table trigger_log f
        ∙ h in
      attempt-Leads _ f _ h (
        attempt-Leads _ f _ h (
          apply_schema-Leads trigger_log f _ h (
            apply_schema-Leads review_watch (with_table trigger_log f) _
              (finished-with_table trigger_log f ∙ h)
              (migrate-Leads trigger_log made _ (with_tables_lem f) same (λ g m a keeps k.
                migrate-Leads review_watch g _ m k
                  (λ g' m' b keeps' k'. finish_open-Leads g' m' (keeps' trigger_log a) b k'))))))
