-- ===== src/Watch/Life/Closing.antt =====
-- What `Close` of internal/watch/manager.go leaves.
use mathlib.Core.Path.{subst}
use copilot_review_mcp.Common.{
  ℕ, Time, true, false, String, List, [], ◌∷◌, Option, none, some, arith, ◌≡◌, ◌==◌, refl,
  Bool-cases, Option-cases, inl, inr, string_eq, if◌then◌else◌,
}
use copilot_review_mcp.Common.Map.{Map, lookup, lookup-delete}
use copilot_review_mcp.Watch.State.{stale, WatchKey, key_eq, key_beq_iff, Watch, Manager, Env}
use copilot_review_mcp.Watch.Persist.{deactivate, persist_or_degrade_locked}
use copilot_review_mcp.Watch.Start.{Options, new_manager}
use copilot_review_mcp.Watch.Cancel.{listed_watch, close_watch, close_one, close_all, close}
use copilot_review_mcp.Watch.Life.Invariant.{Moves-Inv}
use copilot_review_mcp.Watch.Life.Finish.{persist-Outcome, degraded}
use copilot_review_mcp.Watch.Life.Cancels.{close-Moves}
use copilot_review_mcp.Watch.Life.Runs.{Call, run_calls, run_calls-Inv}

module _ {S : Type 0} where
  deactivate-lookup :
      (k j : WatchKey) (m : Manager S)
      → lookup j (deactivate k m).active_by_key
        ≡ (if k == j then none else lookup j m.active_by_key)
  unfolding deactivate
  deactivate-lookup k j m = lookup-delete k j m.active_by_key

  deactivated_stays :
      (k j : WatchKey) (m : Manager S)
      → lookup j m.active_by_key ≡ none
      → lookup j (deactivate k m).active_by_key ≡ none
  deactivated_stays k j m e = ground (arith, deactivate-lookup k j m)

  module _ (env : Env S) (now : Time) where
    persisted_stays :
        (w : Watch) (j : WatchKey) (m : Manager S)
        → lookup j m.active_by_key ≡ none
        → lookup j (persist_or_degrade_locked env w stale now m).1.active_by_key ≡ none
    persisted_stays w j m e = elim (persist-Outcome env w stale now m) [
      | inl (q, p) ↦ rw p.active e
      | inr (x, q, p) ↦
          let d = degraded env w stale now x in
          rw p.active (ground (arith, lookup-delete d.key j m.active_by_key))
    ]

    -- One round of the loop drops its key, and brings none back.
    close_one-gone :
        (k : WatchKey) (m : Manager S) → lookup k (close_one env now k m).active_by_key ≡ none
    unfolding close_one
    close_one-gone k m = elim (Option-cases (listed_watch env k m)) [
      | inl q ↦ ground (arith, deactivate-lookup k k m, key_beq_iff k k)
      | inr (w, q) ↦ elim (Bool-cases w.terminal) [
        | inl t ↦ ground (arith, deactivate-lookup k k m, key_beq_iff k k)
        | inr t ↦
            let n = (persist_or_degrade_locked env (close_watch env now w) stale now m).1 in
            ground (arith, deactivate-lookup k k n, key_beq_iff k k)
      ]
    ]

    close_one-stays :
        (k j : WatchKey) (m : Manager S)
        → lookup j m.active_by_key ≡ none
        → lookup j (close_one env now k m).active_by_key ≡ none
    unfolding close_one
    close_one-stays k j m e = elim (Option-cases (listed_watch env k m)) [
      | inl q ↦ ground (arith, deactivated_stays k j m e)
      | inr (w, q) ↦ elim (Bool-cases w.terminal) [
        | inl t ↦ ground (arith, deactivated_stays k j m e)
        | inr t ↦
            let n = (persist_or_degrade_locked env (close_watch env now w) stale now m).1 in
            ground (arith, deactivated_stays k j n (persisted_stays (close_watch env now w) j m e))
      ]
    ]

    close_all-gone :
        (ks : Map WatchKey String) (j : WatchKey) (m : Manager S)
        → (lookup j ks ≡ none → lookup j m.active_by_key ≡ none)
        → lookup j (close_all env now ks m).active_by_key ≡ none
    unfolding close_all lookup
    close_all-gone [] j m h = h refl
    close_all-gone ((k, id) ∷ ks) j m h = close_all-gone ks j (close_one env now k m) (λ e.
        elim (Bool-cases (k == j)) [
          | inl b ↦
              subst (λ i. lookup i (close_one env now k m).active_by_key ≡ none)
                ((key_beq_iff k j).0 b) (close_one-gone k m)
          | inr b ↦ close_one-stays k j m (h (ground arith))
        ])

    close-gone :
        (j : WatchKey) (m : Manager S)
        → m.closed ≡ false
        → lookup j (close env now m).active_by_key ≡ none
    unfolding close
    close-gone j m e =
        let n : Manager S = record m { closed = true } in
        ground (arith, close_all-gone m.active_by_key j n (λ q. q))

  module _ (env : Env S) where
    module _
        (distinct : (t u : Time) (i j : ℕ)
          → env.format.watch_id t i ≡ env.format.watch_id u j
          → i ≡ j) where
      -- Let the watch ids of different sequence numbers differ. Then Close, called on a manager that is
      -- not closed yet after any sequence of calls on a new one, leaves no watch alive and no key active.
      pub close-terminal :
          (cs : List (Call S)) (db : Option S) (o : Options) (now : Time)
          → (run_calls env cs (new_manager db o)).closed ≡ false
          → let n = close env now (run_calls env cs (new_manager db o)) in
            ((k : WatchKey) → lookup k n.active_by_key ≡ none)
            × ((id : String) (w : Watch) → lookup id n.watches_by_id ≡ some w → w.terminal ≡ true)
      close-terminal cs db o now e =
          let m = run_calls env cs (new_manager db o) in
          let h = run_calls-Inv env distinct cs db o in
          let h' = Moves-Inv env.format.watch_id (close-Moves env m h now) h in
          let gone : (k : WatchKey) → lookup k (close env now m).active_by_key ≡ none =
            λ k. close-gone env now k m e in
          (
            gone,
            λ id w f. elim (Bool-cases w.terminal) [
              | inl t ↦ t
              | inr t ↦ ground (arith, gone w.key, h'.alive_listed id w f t)
            ],
          )
