-- ===== src/Watch/Worker/Escalation.antt =====
-- Failures of the gateway's upstream in one poll after the other end a watch at the threshold.
use mathlib.Core.Path.{subst}
use copilot_review_mcp.Common.{
  ℕ, ◌+◌, ◌<◌, ◌≤◌, Time, Bool, true, false, String, List, [], ◌∷◌, Option, none, some, length,
  arith, ◌≡◌, ◌⊎◌, inl, inr, refl, sym, ap, ◌∙◌, string_eq, leb, Bool-cases, if◌then◌else◌,
}
use copilot_review_mcp.Common.Map.{lookup}
use copilot_review_mcp.Watch.State.{watching, failed, auth_expired, Watch, Manager, Env}
use copilot_review_mcp.Watch.Persist.{mark_poll_locked, persist_or_degrade_locked, notify}
use copilot_review_mcp.Github.Review.{ReviewData}
use copilot_review_mcp.Store.Trigger.{TriggerEntry}
use copilot_review_mcp.Watch.Outcome.{keep_watching, watch_status_for_review, review_status_changed}
use copilot_review_mcp.Watch.Poll.{is_low, status_of, polled, linked, record_poll, poll_record}
use copilot_review_mcp.Watch.Worker.Turns.{lookup-put, notify-watches}
use copilot_review_mcp.Watch.Worker.Failures.{
  Writes, fail_polls, persist-none, persist-IsPut, counted, failure-kept, failure-last,
}

module _ {S : Type 0} (env : Env S) where
  -- What failures in a row leave of a watch: below the threshold it lives and they are counted; with
  -- the one that reaches the threshold it has failed, and no poll is made after that.
  abbrev pub Escalates : String → Watch → ℕ → List (Time × String) → Bool × Manager S → Type 0
  Escalates id w threshold failures (b, n) =
      (v : Watch) × (lookup id n.watches_by_id ≡ some v)
      × (((w.upstream_failure_count + length failures < threshold)
            × (b ≡ false)
            × (v.terminal ≡ false)
            × (v.upstream_failure_count ≡ w.upstream_failure_count + length failures)
            × (v.polls_done ≡ w.polls_done + length failures))
          ⊎ ((threshold ≤ w.upstream_failure_count + length failures)
              × (b ≡ true)
              × (v.terminal ≡ true)
              × (v.status ≡ failed)
              × (v.failure_reason ≡ some auth_expired)
              × (v.upstream_failure_count ≡ threshold)
              × (v.polls_done + w.upstream_failure_count ≡ w.polls_done + threshold)))

  failures-Escalates :
      (id : String) (failures : List (Time × String)) (w : Watch) (m : Manager S) (threshold : ℕ)
      → Writes env
      → m.upstream_failure_threshold ≡ threshold
      → lookup id m.watches_by_id ≡ some w
      → w.id ≡ id
      → w.terminal ≡ false
      → w.upstream_failure_count < threshold
      → Escalates id w threshold failures (fail_polls env id failures m)
  unfolding mark_poll_locked
  failures-Escalates id [] w m threshold h e q same t l =
      (w, q, inl (omega (arith, l), refl, t, omega arith, omega arith))
  failures-Escalates id ((now, text) ∷ rest) w m threshold h e q same t l =
      let r = fail_polls env id ((now, text) ∷ rest) m in
      let Goal : Bool × Manager S → Type 0 = Escalates id w threshold ((now, text) ∷ rest) in
      elim (Bool-cases (leb threshold (w.upstream_failure_count + 1))) [
        | inl b ↦
            let (n, step, v, f, dead, status, reason, count, polls) =
              failure-last env id now text w m h q same t (ground arith) in
            let done : r ≡ (true, n) = ground arith in
            subst Goal (sym done)
              (v, f, inr (ground arith, refl, dead, status, reason, ground arith, ground arith))
        | inr b ↦
            let (n, step, kept, f) = failure-kept env id now text w m h q same t (ground arith) in
            let u : Watch = let x = counted env now w in record x { last_error = some text } in
            let (v, g, c) =
              failures-Escalates id rest u n threshold h (kept ∙ e) f same t (ground arith) in
            let on : r ≡ fail_polls env id rest n = ground arith in
            subst Goal (sym on) (
              v,
              g,
              elim c [
                | inl (less, goes, lives, count, polls) ↦
                    inl (ground arith, goes, lives, ground arith, ground arith)
                | inr (more, stops, dead, status, reason, count, polls) ↦
                    inr (ground arith, stops, dead, status, reason, count, ground arith)
              ],
            )
      ]

  -- A poll that records a status after which the watch goes on starts the count again.
  record_poll-resets :
      (id : String) (now : Time) (d : ReviewData) (entry : Option TriggerEntry) (w : Watch)
      (m : Manager S)
      → Writes env
      → w.id ≡ id
      → is_low env d ≡ false
      → watch_status_for_review (status_of env d entry) ≡ none
      → (n : Manager S) × (record_poll env now d entry w m ≡ (false, n))
        × (v : Watch) × (lookup id n.watches_by_id ≡ some v)
        × (v.terminal ≡ w.terminal)
        × (v.upstream_failure_count ≡ 0)
  unfolding record_poll polled mark_poll_locked keep_watching
  record_poll-resets id now d entry w m h same low goes =
      let status = status_of env d entry in
      let v : Watch =
        let x = polled env now status w in
        record x {
          rate_limit_reset_at = none;
          trigger_log_id = linked w.trigger_log_id entry;
          upstream_failure_count = 0;
          status = watching;
          worker_running = true;
        } in
      let k = (persist_or_degrade_locked env v watching now m).1 in
      let announce = review_status_changed w.review_status (some status) in
      let n = if announce then notify v.resource_uri k else k in
      (
        n,
        ground (arith, persist-none env v watching now m h),
        v,
        ap (λ ws. lookup id ws)
              (elim announce
                as (λ b.
                  (if b then notify v.resource_uri k else k).watches_by_id ≡ k.watches_by_id) [
                    | true ↦ notify-watches v.resource_uri k
                    | false ↦ refl
                  ])
            ∙ lookup-put id v m k (persist-IsPut env v watching now m h).watches same,
        refl,
        refl,
      )

-- Let the store write every watch, and let a live watch have fewer upstream failures than the
-- threshold. After further polls that fail in this way one after the other, it lives with all of them
-- counted as long as they stay below the threshold; and the poll that reaches the threshold, however
-- many follow, ends it as FAILED with AUTH_EXPIRED and is the last. A poll that records a status with
-- which the watch goes on sets the count back to zero.
pub fail_polls-Escalates :
    {S : Type 0} (env : Env S) (id : String) (failures : List (Time × String)) (w : Watch)
    (m : Manager S) (now : Time) (d : ReviewData) (entry : Option TriggerEntry)
    → Writes env
    → lookup id m.watches_by_id ≡ some w
    → w.id ≡ id
    → w.terminal ≡ false
    → w.upstream_failure_count < m.upstream_failure_threshold
    → is_low env d ≡ false
    → watch_status_for_review (status_of env d entry) ≡ none
    → Escalates env id w m.upstream_failure_threshold failures (fail_polls env id failures m)
      × ((n : Manager S) × (poll_record env id now d entry m ≡ (false, n))
          × (v : Watch) × (lookup id n.watches_by_id ≡ some v)
          × (v.terminal ≡ false)
          × (v.upstream_failure_count ≡ 0))
unfolding poll_record
fail_polls-Escalates env id failures w m now d entry h q same t l low goes =
    let (n, step, v, f, e, zero_) = record_poll-resets env id now d entry w m h same low goes in
    (
      failures-Escalates env id failures w m m.upstream_failure_threshold h refl q same t l,
      (n, ground arith, v, f, e ∙ t, zero_),
    )
