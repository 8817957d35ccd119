-- ===== src/Watch/Worker/Failures.antt =====
-- One failure of the gateway's upstream in a poll, where the store writes every watch.
use copilot_review_mcp.Common.{
  ◌+◌, ◌<◌, ◌≤◌, Time, Bool, true, false, String, List, [], ◌∷◌, none, some, arith, ◌≡◌, inl, inr,
  refl, ap, ◌∙◌, string_eq, Option-cases,
}
use copilot_review_mcp.Common.Map.{lookup}
use copilot_review_mcp.Errors.{ok, Result-cases}
use copilot_review_mcp.Store.Watches.{ReviewWatchEntry}
use copilot_review_mcp.Watch.State.{Status, watching, failed, auth_expired, Watch, Manager, Env}
use copilot_review_mcp.Watch.Persist.{
  entry_of, mark_poll_locked, finish, persist_locked, degrade_on, persist_or_degrade_locked,
  put_watch, finish_locked, deactivate, notify,
}
use copilot_review_mcp.Watch.Outcome.{escalate, keep_watching, handle_upstream_failure}
use copilot_review_mcp.Watch.Life.Finish.{persist-Outcome, IsPut}
use copilot_review_mcp.Watch.Worker.Turns.{lookup-put, notify-watches}

module _ {S : Type 0} (env : Env S) where
  -- A store that writes every watch.
  abbrev pub Writes : Type 0
  Writes =
      (x : ReviewWatchEntry) (s : S) → (s' : S) × (env.store.upsert_review_watch x s ≡ (ok tt, s'))

  -- Polls that fail one after the other, up to the first that ends the worker, each with its time and
  -- the text of its error.
  abbrev pub fail_polls : String → List (Time × String) → Manager S → Bool × Manager S
  fail_polls id [] m = (false, m)
  fail_polls id ((now, text) ∷ rest) m =
      let (b, n) = handle_upstream_failure env id now text m in
      elim b [ true ↦ (true, n) | false ↦ fail_polls id rest n ]

  pub persist-none :
      (w : Watch) (intended : Status) (now : Time) (m : Manager S)
      → Writes
      → (persist_or_degrade_locked env w intended now m).0 ≡ none
  unfolding persist_or_degrade_locked persist_locked degrade_on
  persist-none w intended now m h = elim (Option-cases m.db) [
    | inl q ↦ ground arith
    | inr (s, q) ↦ let (s', e) = h (entry_of w) s in ground (arith, e)
  ]

  pub persist-IsPut :
      (w : Watch) (intended : Status) (now : Time) (m : Manager S)
      → Writes
      → IsPut w m (persist_or_degrade_locked env w intended now m).1
  persist-IsPut w intended now m h = elim (persist-Outcome env w intended now m) [
    | inl (e, p) ↦ p
    | inr (x, e, p) ↦ absurd (ground (arith, persist-none w intended now m h))
  ]

  pub persist-threshold :
      (w : Watch) (intended : Status) (now : Time) (m : Manager S)
      → (persist_or_degrade_locked env w intended now m).1.upstream_failure_threshold
        ≡ m.upstream_failure_threshold
  unfolding persist_or_degrade_locked persist_locked degrade_on put_watch deactivate
  persist-threshold w intended now m = elim (Option-cases m.db) [
    | inl q ↦ ground arith
    | inr (s, q) ↦ elim (Result-cases (env.store.upsert_review_watch (entry_of w) s).0) [
      | inl (x, r) ↦ ground arith
      | inr (x, r) ↦ ground arith
    ]
  ]

  -- The watch after one more failure.
  abbrev pub counted : Time → Watch → Watch
  counted now w =
      mark_poll_locked now
        (let v : Watch = record w { upstream_failure_count = w.upstream_failure_count + 1 } in v)

  pub failure-kept :
      (id : String) (now : Time) (text : String) (w : Watch) (m : Manager S)
      → Writes
      → lookup id m.watches_by_id ≡ some w
      → w.id ≡ id
      → w.terminal ≡ false
      → w.upstream_failure_count + 1 < m.upstream_failure_threshold
      → (n : Manager S) × (handle_upstream_failure env id now text m ≡ (false, n))
        × (n.upstream_failure_threshold ≡ m.upstream_failure_threshold)
        × (lookup id n.watches_by_id
            ≡ some (let u : Watch = counted now w in record u { last_error = some text }))
  unfolding handle_upstream_failure keep_watching mark_poll_locked
  failure-kept id now text w m h q same t l =
      let u : Watch = let x = counted now w in record x { last_error = some text } in
      let n = (persist_or_degrade_locked env u watching now m).1 in
      (
        n,
        ground (arith, persist-none u watching now m h),
        persist-threshold u watching now m,
        lookup-put id u m n (persist-IsPut u watching now m h).watches same,
      )

  pub failure-last :
      (id : String) (now : Time) (text : String) (w : Watch) (m : Manager S)
      → Writes
      → lookup id m.watches_by_id ≡ some w
      → w.id ≡ id
      → w.terminal ≡ false
      → m.upstream_failure_threshold ≤ w.upstream_failure_count + 1
      → (n : Manager S) × (handle_upstream_failure env id now text m ≡ (true, n))
        × (v : Watch) × (lookup id n.watches_by_id ≡ some v)
        × (v.terminal ≡ true)
        × (v.status ≡ failed)
        × (v.failure_reason ≡ some auth_expired)
        × (v.upstream_failure_count ≡ w.upstream_failure_count + 1)
        × (v.polls_done ≡ w.polls_done + 1)
  unfolding handle_upstream_failure escalate finish_locked finish mark_poll_locked deactivate
  failure-last id now text w m h q same t l =
      let u = counted now w in
      let count = u.upstream_failure_count in
      let message = env.format.upstream_persisted count text in
      let hint = some (env.format.upstream_hint count) in
      let v = finish failed (some auth_expired) now message hint u in
      let k = (persist_or_degrade_locked env v failed now (deactivate w.key m)).1 in
      let n = notify w.resource_uri k in
      (
        n,
        ground arith,
        v,
        ap (λ ws. lookup id ws) (notify-watches w.resource_uri k)
            ∙ lookup-put id v m k (persist-IsPut v failed now (deactivate w.key m) h).watches same,
        refl,
        refl,
        refl,
        refl,
        refl,
      )
