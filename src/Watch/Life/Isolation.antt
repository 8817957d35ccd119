-- ===== src/Watch/Life/Isolation.antt =====
-- What `CancelByID` of internal/watch/manager.go does to the watches of other users.
use copilot_review_mcp.Common.{
  ℕ, Time, String, List, Option, none, some, arith, ◌≡◌, ◌≢◌, Bool-cases, ◌∙◌, inl, inr, string_eq,
  eq_iff,
}
use copilot_review_mcp.Common.Map.{lookup, lookup-insert}
use copilot_review_mcp.Watch.State.{Status, cancelled, FailureReason, Watch, Manager, Env, key_eq}
use copilot_review_mcp.Watch.Persist.{finish, deactivate, persist_or_degrade_locked, finish_locked}
use copilot_review_mcp.Watch.Start.{Options, new_manager}
use copilot_review_mcp.Watch.Cancel.{cancel_live, cancel_by_id}
use copilot_review_mcp.Watch.Life.{Inv}
use copilot_review_mcp.Watch.Life.Finish.{
  persist-Outcome, degraded, notify-SameMaps, id-degraded, key-finish,
}
use copilot_review_mcp.Watch.Life.Cancels.{cancel_by_id-cases, complete_trigger-SameMaps}
use copilot_review_mcp.Watch.Life.Runs.{Call, run_calls, run_calls-Inv}

module _ {S : Type 0} (env : Env S) (m : Manager S) where
  -- Ending a watch leaves the others.
  finish_locked-others :
      (w : Watch) (status : Status) (reason : Option FailureReason) (now : Time) (text : String)
      (hint : Option String) (j : String)
      → w.id ≢ j
      → lookup j (finish_locked env w status reason now text hint m).watches_by_id
        ≡ lookup j m.watches_by_id
  unfolding finish_locked deactivate
  finish_locked-others w status reason now text hint j d =
      let v = finish status reason now text hint w in
      let n = (persist_or_degrade_locked env v status now (deactivate w.key m)).1 in
      let same = notify-SameMaps w.resource_uri n in
      let (i, k, t) = key-finish env w status reason now text hint in
      elim (persist-Outcome env v status now (deactivate w.key m)) [
        | inl (e, p) ↦
            rw (same.watches, p.watches)
              (ground (arith, lookup-insert v.id j v m.watches_by_id, eq_iff v.id j))
        | inr (x, e, p) ↦
            let u = degraded env v status now x in
            let (a, b) = id-degraded env v status now x in
            rw (same.watches, p.watches)
              (ground (arith, lookup-insert u.id j u m.watches_by_id, eq_iff u.id j))
      ]

  module _ (h : Inv env.format.watch_id m) where
    cancel_live-others :
        (w : Watch) (now : Time) (j : String)
        → w.id ≢ j
        → lookup j (cancel_live env now w m).1.watches_by_id ≡ lookup j m.watches_by_id
    unfolding cancel_live
    cancel_live-others w now j d = elim (Bool-cases w.terminal) [
      | inl t ↦ ground arith
      | inr t ↦
          let n = finish_locked env w cancelled none now "watch was cancelled manually" none m in
          let s = complete_trigger-SameMaps env m h w.trigger_log_id n in
          let r =
            finish_locked-others w cancelled none now "watch was cancelled manually" none j d in
          ground arith
    ]

module _ {S : Type 0} (env : Env S) where
  module _
      (distinct : (t u : Time) (i j : ℕ)
        → env.format.watch_id t i ≡ env.format.watch_id u j
        → i ≡ j) where
    -- Let the watch ids of different sequence numbers differ. Then CancelByID for one login, called
    -- after any sequence of calls on a new manager, leaves every watch of another login as it is.
    pub cancel_by_id-others :
        (cs : List (Call S)) (db : Option S) (o : Options) (login id : String) (now : Time)
        (j : String) (w : Watch)
        → lookup j (run_calls env cs (new_manager db o)).watches_by_id ≡ some w
        → w.key.login ≢ login
        → lookup j
            (cancel_by_id env login id now (run_calls env cs (new_manager db o))).1.watches_by_id
          ≡ some w
    cancel_by_id-others cs db o login id now j w f d =
        let m = run_calls env cs (new_manager db o) in
        let h = run_calls-Inv env distinct cs db o in
        elim (cancel_by_id-cases env m h login id now) [
          | inl e ↦ rw e f
          | inr (u, g, l, e) ↦
              let named = h.named id u g in
              let apart : u.id ≢ j = λ q. ground arith in
              rw e (cancel_live-others env m h u now j apart ∙ f)
        ]
