-- ===== src/Store/Trigger/Laws.antt =====
-- Laws of trigger_log: what GetLatest returns, and the life of an entry.
use mathlib.Core.Path.{subst, ap₂}
use mathlib.Core.Option
use copilot_review_mcp.Common.{
  ℕ, ℤ, Time, Bool, true, false, String, List, [], ◌∷◌, Option, none, some, map, length, keep, All,
  Any, arith, ◌≡◌, ◌⊎◌, inl, inr, ◌<◌, ◌≤◌, refl, Bool-cases, to_unix, from_unix, not, is_some,
  ◌&&◌, eq_iff, int_beq_iff,
}
use copilot_review_mcp.Errors.{ok}
use copilot_review_mcp.Store.{TriggerRow, Db, Grows}
use copilot_review_mcp.Store.Trigger.{
  of_pr, new_id, newer, newest, first_row, entry, get_latest, insert, insert_with_prev_review_id,
  complete_row, update_completed_at, has_pending,
}

-- In the order of requested_at, then of id, the first row comes no later than the second.
abbrev pub NoNewer : TriggerRow → TriggerRow → Type 0
NoNewer s r =
    (s.requested_at < r.requested_at) ⊎ ((s.requested_at ≡ r.requested_at) × (s.id ≤ r.id))

-- The latest row that passes a test, or none where no row does.
abbrev pub IsLatest : (TriggerRow → Bool) → List TriggerRow → Option TriggerRow → Type 0
IsLatest p rows none = All (λ s. p s ≡ false) rows
IsLatest p rows (some r) =
    Any (λ s. s ≡ r) rows × (p r ≡ true) × All (λ s. p s ≡ true → NoNewer s r) rows

NoNewer-trans : (a b c : TriggerRow) → NoNewer a b → NoNewer b c → NoNewer a c
NoNewer-trans a b c h k = ground arith

All-NoNewer :
    (p : TriggerRow → Bool) (b c : TriggerRow) (rows : List TriggerRow)
    → NoNewer b c
    → All (λ s. p s ≡ true → NoNewer s b) rows
    → All (λ s. p s ≡ true → NoNewer s c) rows
All-NoNewer p b c [] h k = tt
All-NoNewer p b c (r ∷ rows) h k =
    (λ e. NoNewer-trans r b c (k.0 e) h, All-NoNewer p b c rows h k.1)

All-vacuous :
    (p : TriggerRow → Bool) (c : TriggerRow) (rows : List TriggerRow)
    → All (λ s. p s ≡ false) rows
    → All (λ s. p s ≡ true → NoNewer s c) rows
All-vacuous p c [] h = tt
All-vacuous p c (r ∷ rows) h = (λ e. absurd (cc (h.0)), All-vacuous p c rows h.1)

newest_yields : (r s : TriggerRow) → newer s r ≡ true → s ≡ newest r (some s)
newest_yields r s h = rw h

newest_stays : (r s : TriggerRow) → newer s r ≡ false → r ≡ newest r (some s)
newest_stays r s h = rw h

newest-IsLatest :
    (p : TriggerRow → Bool) (r : TriggerRow) (rows : List TriggerRow) (o : Option TriggerRow)
    → p r ≡ true
    → IsLatest p rows o
    → IsLatest p (r ∷ rows) (some (newest r o))
newest-IsLatest p r rows none e l =
    (inl refl, e, ((λ _. inr (refl, omega arith)), All-vacuous p r rows l))
newest-IsLatest p r rows (some s) e l = elim (Bool-cases (newer s r)) [
  | inl h ↦
      subst (λ x. IsLatest p (r ∷ rows) (some x)) (newest_yields r s h)
        (inr l.0, l.1, ((λ _. ground arith), l.2))
  | inr h ↦
      subst (λ x. IsLatest p (r ∷ rows) (some x)) (newest_stays r s h)
        (inl refl, e, ((λ _. inr (refl, omega arith)), All-NoNewer p s r rows (ground arith) l.2))
]

skip-IsLatest :
    (p : TriggerRow → Bool) (r : TriggerRow) (rows : List TriggerRow) (o : Option TriggerRow)
    → p r ≡ false
    → IsLatest p rows o
    → IsLatest p (r ∷ rows) o
skip-IsLatest p r rows none e l = (e, l)
skip-IsLatest p r rows (some s) e l = (inr l.0, l.1, ((λ f. absurd (cc e)), l.2))

first_row-IsLatest :
    (p : TriggerRow → Bool) (rows : List TriggerRow) → IsLatest p rows (first_row (keep p rows))
unfolding first_row
first_row-IsLatest p [] = tt
first_row-IsLatest p (r ∷ rows) = elim (Bool-cases (p r)) [
  | inl e ↦ rw e (newest-IsLatest p r rows (first_row (keep p rows)) e (first_row-IsLatest p rows))
  | inr e ↦ rw e (skip-IsLatest p r rows (first_row (keep p rows)) e (first_row-IsLatest p rows))
]

-- When the engine does not fail, GetLatest answers with the entry of a row of the pull request that
-- no other row of it follows in the order of requested_at and then id, and with nil only where the
-- pull request has no row.
pub get_latest-IsLatest :
    (owner repo : String) (pr : ℤ) (d : Db)
    → d.fault ≡ none
    → (o : Option TriggerRow) × (get_latest owner repo pr d ≡ ok (Option.map entry o))
      × IsLatest (of_pr owner repo pr) d.trigger_log o
unfolding get_latest
get_latest-IsLatest owner repo pr d h = (
  first_row (keep (of_pr owner repo pr) d.trigger_log),
  ground arith,
  first_row-IsLatest (of_pr owner repo pr) d.trigger_log,
)

abbrev IsBelow : ℕ → ℕ → Option TriggerRow → Type 0
IsBelow t n none = Unit {0}
IsBelow t n (some r) = (r.requested_at ≤ t) × (r.id < n)

first_row-IsBelow :
    (p : TriggerRow → Bool) (t n : ℕ) (rows : List TriggerRow)
    → All (λ s. p s ≡ true → s.requested_at ≤ t) rows
    → All (λ i. i < n) (map (λ s. s.id) rows)
    → IsBelow t n (first_row (keep p rows))
unfolding first_row
first_row-IsBelow p t n [] h k = tt
first_row-IsBelow p t n (r ∷ rows) h k = ground (arith, first_row-IsBelow p t n rows h.1 k.1, h.0)

newest_of_IsBelow :
    (r : TriggerRow) (o : Option TriggerRow) → IsBelow r.requested_at r.id o → newest r o ≡ r
newest_of_IsBelow r none h = refl
newest_of_IsBelow r (some s) h = ground arith

-- When the engine does not fail and chooses fresh ids above those in use, an entry that is inserted
-- with a request time no earlier than those of the pull request's rows is what GetLatest then
-- returns: with its id, trigger and review ID, pending, and with its time cut to whole seconds.
pub get_latest-insert :
    (owner repo : String) (pr : ℤ) (trigger : String) (at : Time) (prev : String) (d : Db)
    → d.fault ≡ none
    → Grows d.new_rowid
    → All (λ s. of_pr owner repo pr s ≡ true → s.requested_at ≤ to_unix at) d.trigger_log
    → let (r, d') = insert_with_prev_review_id owner repo pr trigger at prev d in
      (id : ℕ) × (r ≡ ok id)
      × (get_latest owner repo pr d'
          ≡ ok (
              some (record {
                id = id;
                trigger = trigger;
                requested_at = from_unix (to_unix at);
                completed_at = none;
                prev_review_id = some prev;
              })))
unfolding insert_with_prev_review_id get_latest first_row new_id
get_latest-insert owner repo pr trigger at prev d h g k = (
  new_id d,
  ground arith,
  ground (
    arith,
    eq_iff owner owner,
    eq_iff repo repo,
    int_beq_iff pr pr,
    newest_of_IsBelow
        (record {
          id = new_id d;
          owner = owner;
          repo = repo;
          pr = pr;
          trigger = trigger;
          requested_at = to_unix at;
          completed_at = none;
          prev_review_id = some prev;
        })
        (first_row (keep (of_pr owner repo pr) d.trigger_log))
        (first_row-IsBelow (of_pr owner repo pr) (to_unix at) (new_id d) d.trigger_log k
          (g (map (λ r. r.id) d.trigger_log))),
  ),
)

abbrev is_pending_of : String → String → ℤ → TriggerRow → Bool
is_pending_of owner repo pr r = of_pr owner repo pr r && not (is_some r.completed_at)

complete_rows_twice :
    (now later id : ℕ) (rows : List TriggerRow)
    → map (complete_row later id) (map (complete_row now id) rows) ≡ map (complete_row now id) rows
complete_rows_twice now later id [] = refl
complete_rows_twice now later id (r ∷ rows) =
    ap₂ (λ (a : TriggerRow) b. a ∷ b) (ground arith) (complete_rows_twice now later id rows)

-- The completion time of an entry is kept: when the engine does not fail, a second UpdateCompletedAt
-- of the same id, at any later time, leaves the whole trigger log as the first one left it.
pub update_completed_at_twice :
    (id later : ℕ) (d : Db)
    → d.fault ≡ none
    → let d' = (update_completed_at id d).1 in
      (update_completed_at id (record d' { clock = later })).1.trigger_log ≡ d'.trigger_log
unfolding update_completed_at
update_completed_at_twice id later d h =
    ground (arith, complete_rows_twice d.clock later id d.trigger_log)

abbrev pendings : String → String → ℤ → List TriggerRow → List TriggerRow
pendings owner repo pr rows = keep (is_pending_of owner repo pr) rows

complete-pendings :
    (owner repo : String) (pr : ℤ) (now id : ℕ) (rows : List TriggerRow)
    → length (pendings owner repo pr rows) ≡ 0
    → length (pendings owner repo pr (map (complete_row now id) rows)) ≡ 0
complete-pendings owner repo pr now id [] h = refl
complete-pendings owner repo pr now id (r ∷ rows) h =
    ground (arith, complete-pendings owner repo pr now id rows)

-- When the engine does not fail, a pull request with nothing pending has something pending once an
-- entry for it is inserted, and nothing pending again once that entry is marked as completed.
pub pending_cycle :
    (owner repo : String) (pr : ℤ) (trigger : String) (d d' : Db) (id : ℕ)
    → d.fault ≡ none
    → has_pending owner repo pr d ≡ ok false
    → insert owner repo pr trigger d ≡ (ok id, d')
    → (has_pending owner repo pr d' ≡ ok true)
      × (has_pending owner repo pr (update_completed_at id d').1 ≡ ok false)
unfolding has_pending insert update_completed_at
pending_cycle owner repo pr trigger d d' id h n e = (
  ground (arith, eq_iff owner owner, eq_iff repo repo, int_beq_iff pr pr),
  ground (arith, complete-pendings owner repo pr d.clock id d.trigger_log),
)
