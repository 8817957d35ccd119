-- ===== src/Watch/Life/Polls.antt =====
-- The pieces of a poll move in the abstract machine.
use copilot_review_mcp.Common.{
  Time, Bool, true, false, String, Option, none, some, arith, ◌≡◌, ◌≢◌, ◌⊎◌, ◌+◌, ◌||◌, ◌&&◌, leb,
  string_eq, is_some, not, Bool-cases, Option-cases, inl, inr, refl, if◌then◌else◌,
}
use copilot_review_mcp.Common.Map.{lookup}
use copilot_review_mcp.Errors.{
  GoError, Result, ok, err, Result-cases, upstream_failure, is_gateway, is_canceled,
  is_deadline_exceeded,
}
use copilot_review_mcp.Github.Classify.{
  is_rate_limit_http_error, is_auth_error, is_gateway_auth_error,
}
use copilot_review_mcp.Github.Review.{ReviewStatus, ReviewData}
use copilot_review_mcp.Store.Trigger.{TriggerEntry}
use copilot_review_mcp.Watch.State.{
  Status, watching, failed, timeout, rate_limited, auth_expired, github_error, internal_error,
  FailureReason, Watch, Manager, Env,
}
use copilot_review_mcp.Watch.Persist.{mark_poll_locked, notify, persist_or_degrade_locked}
use copilot_review_mcp.Watch.Outcome.{
  watch_status_for_review, review_status_changed, finish_state, escalate, keep_watching,
  handle_upstream_failure, auth_failure_recovery_hint,
}
use copilot_review_mcp.Watch.Poll.{
  nonzero, linked, status_of, is_low, poll_begin, poll_error, poll_reply, poll_complete, polled,
  record_poll, poll_record, is_done, read_entry,
}
use copilot_review_mcp.Watch.Life.{IsWellFormed, Moves, here, next, Inv}
use copilot_review_mcp.Watch.Life.Invariant.{Moves-at, Moves-joined, Moves-Inv}
use copilot_review_mcp.Watch.Life.Finish.{
  IsVersion, finish_locked-Move, persist_or_degrade-Move, notify-SameMaps, SameMaps,
}
use copilot_review_mcp.Watch.Life.Cancels.{SameMaps-Move, same-IsVersion}

review_ends :
    (r : ReviewStatus) (x : Status)
    → watch_status_for_review r ≡ some x
    → (x ≢ watching) × (x ≢ failed)
unfolding watch_status_for_review
review_ends r x e = ground arith

module _ {S : Type 0} (env : Env S) (m : Manager S) (h : Inv env.format.watch_id m) where
  finish_state-Moves :
      (id : String) (now : Time) (status : Status) (reason : Option FailureReason) (text : String)
      (counted : Bool) (hint : Option String)
      → status ≢ watching
      → (status ≡ failed → is_some reason ≡ true)
      → (status ≢ failed → reason ≡ none)
      → Moves env.format.watch_id m (finish_state env id now status reason text counted hint m)
  unfolding finish_state mark_poll_locked
  finish_state-Moves id now status reason text counted hint a b c =
      elim (Option-cases (lookup id m.watches_by_id)) [
        | inl e ↦ Moves-at env.format.watch_id (ground arith) here
        | inr (w, e) ↦ elim (Bool-cases w.terminal) [
          | inl t ↦ Moves-at env.format.watch_id (ground arith) here
          | inr t ↦
              let v = if counted then mark_poll_locked now w else record w { updated_at = now } in
              let s = same-IsVersion m id w h e t in
              Moves-at env.format.watch_id (ground arith) (
                next here (
                  finish_locked-Move env w v status reason now text hint m (ground (arith, s)) a b
                    c))
        ]
      ]

  -- A live watch that is recorded again, alive, moves; so does its notification.
  keep_watching-Moves :
      (now : Time) (announce : Bool) (u w : Watch)
      → IsVersion m u w
      → IsWellFormed w
      → w.terminal ≡ false
      → Moves env.format.watch_id m (keep_watching env now announce w m).1
  unfolding keep_watching
  keep_watching-Moves now announce u w s f t =
      let (e, n) = persist_or_degrade_locked env w watching now m in
      let r = next here (persist_or_degrade-Move env u w watching now m s f t) in
      let o = notify w.resource_uri n in
      let told =
        next r (SameMaps-Move env.format.watch_id n o (notify-SameMaps w.resource_uri n)) in
      elim (Option-cases e) [
        | inl q ↦ elim (Bool-cases announce) [
          | inl b ↦ Moves-at env.format.watch_id (ground arith) told
          | inr b ↦ Moves-at env.format.watch_id (ground arith) r
        ]
        | inr (x, q) ↦ Moves-at env.format.watch_id (ground arith) told
      ]

  handle_upstream_failure-Moves :
      (id : String) (now : Time) (text : String)
      → Moves env.format.watch_id m (handle_upstream_failure env id now text m).1
  unfolding handle_upstream_failure escalate mark_poll_locked
  handle_upstream_failure-Moves id now text = elim (Option-cases (lookup id m.watches_by_id)) [
    | inl e ↦ Moves-at env.format.watch_id (ground arith) here
    | inr (w, e) ↦ elim (Bool-cases w.terminal) [
      | inl t ↦ Moves-at env.format.watch_id (ground arith) here
      | inr t ↦
          let s = same-IsVersion m id w h e t in
          let f = h.formed id w e in
          let v : Watch = record w { upstream_failure_count = w.upstream_failure_count + 1 } in
          let u : Watch = record v {
            polls_done = w.polls_done + 1;
            updated_at = now;
            last_polled_at = some now;
          } in
          elim (Bool-cases (leb m.upstream_failure_threshold v.upstream_failure_count)) [
            | inl b ↦ Moves-at env.format.watch_id (ground arith) (
                next here (
                  finish_locked-Move env w u failed (some auth_expired) now
                    (env.format.upstream_persisted v.upstream_failure_count text)
                    (some (env.format.upstream_hint v.upstream_failure_count)) m (ground (arith, s))
                    (ground arith) (ground arith) (ground arith)))
            | inr b ↦ Moves-at env.format.watch_id (ground arith) (
                keep_watching-Moves now false w (record u { last_error = some text })
                  (ground (arith, s)) (ground (arith, f)) t)
          ]
    ]
  ]

  pub poll_begin-Moves :
      (id : String) (now : Time) → Moves env.format.watch_id m (poll_begin env id now m).1
  unfolding poll_begin
  poll_begin-Moves id now = elim (Option-cases (lookup id m.watches_by_id)) [
    | inl e ↦ Moves-at env.format.watch_id (ground arith) here
    | inr (w, e) ↦ elim (Bool-cases (leb (w.started_at + m.max_watch_duration) now)) [
      | inl b ↦ Moves-at env.format.watch_id (ground arith) (
          finish_state-Moves id now timeout none (env.format.exceeded m.max_watch_duration) false
            none (ground arith) (ground arith) (ground arith))
      | inr b ↦ elim (Option-cases w.client) [
        | inl c ↦ Moves-at env.format.watch_id (ground arith) (
            finish_state-Moves id now failed (some internal_error) "watch client is unavailable"
              false none (ground arith) (ground arith) (ground arith))
        | inr (c, q) ↦ Moves-at env.format.watch_id (ground arith) here
      ]
    ]
  ]

  -- A watch that a failed call of GitHub ends.
  abbrev failed_with : String → Time → FailureReason → String → Option String → Manager S
  failed_with id now reason text hint =
      finish_state env id now failed (some reason) text true hint m

  failed_with-Moves :
      (id : String) (now : Time) (reason : FailureReason) (text : String) (hint : Option String)
      → Moves env.format.watch_id m (failed_with id now reason text hint)
  failed_with-Moves id now reason text hint =
      finish_state-Moves id now failed (some reason) text true hint (ground arith) (ground arith)
        (ground arith)

  -- What an error of GetReviewData leads to.
  poll_error-cases :
      (w : Watch) (now : Time) (e : GoError)
      → let n = (poll_error env w now e m).1 in
        (n ≡ m)
        ⊎ ((reason : FailureReason) × (text : String) × (hint : Option String) × (n
              ≡ failed_with w.id now reason text hint))
        ⊎ (n ≡ finish_state env w.id now rate_limited none e.text true none m)
        ⊎ (n ≡ (handle_upstream_failure env w.id now e.text m).1)
  unfolding poll_error
  poll_error-cases w now e = elim (Bool-cases (is_canceled e && is_done w m)) [
    | inl a ↦ inl (ground arith)
    | inr a ↦ elim (Bool-cases (is_deadline_exceeded e)) [
      | inl b ↦ elim (Bool-cases (is_done w m)) [
        | inl c ↦ inl (ground arith)
        | inr c ↦ inr (inl (github_error, env.format.timed_out m.poll_timeout, none, ground arith))
      ]
      | inr b ↦ elim (Bool-cases (is_rate_limit_http_error e)) [
        | inl c ↦ inr (inr (inl (ground arith)))
        | inr c ↦ elim (Bool-cases (is_gateway upstream_failure e)) [
          | inl d ↦ inr (inr (inr (ground arith)))
          | inr d ↦ elim (Bool-cases (is_auth_error (some e) || is_gateway_auth_error e)) [
            | inl f ↦
                inr (inl (auth_expired, e.text, some (auth_failure_recovery_hint e), ground arith))
            | inr f ↦ inr (inl (github_error, e.text, none, ground arith))
          ]
        ]
      ]
    ]
  ]

  poll_error-Moves :
      (w : Watch) (now : Time) (e : GoError)
      → Moves env.format.watch_id m (poll_error env w now e m).1
  poll_error-Moves w now e = elim (poll_error-cases w now e) [
    | inl q ↦ Moves-at env.format.watch_id q here
    | inr (inl (reason, text, hint, q)) ↦
        Moves-at env.format.watch_id q (failed_with-Moves w.id now reason text hint)
    | inr (inr (inl q)) ↦ Moves-at env.format.watch_id q (
        finish_state-Moves w.id now rate_limited none e.text true none (ground arith) (ground arith)
          (ground arith))
    | inr (inr (inr q)) ↦
        Moves-at env.format.watch_id q (handle_upstream_failure-Moves w.id now e.text)
  ]

  pub poll_reply-Moves :
      (w : Watch) (now : Time) (r : Result ReviewData)
      → Moves env.format.watch_id m (poll_reply env w now r m).1
  unfolding poll_reply
  poll_reply-Moves w now (err e) = poll_error-Moves w now e
  poll_reply-Moves w now (ok d) = elim (Result-cases (read_entry env w m)) [
    | inl (e, q) ↦
        Moves-at env.format.watch_id (ground arith)
          (failed_with-Moves w.id now internal_error (env.format.trigger_read_failed e) none)
    | inr (t, q) ↦ Moves-at env.format.watch_id (ground arith) here
  ]

  record_poll-Moves :
      (now : Time) (d : ReviewData) (t : Option TriggerEntry) (w : Watch)
      → IsVersion m w w
      → IsWellFormed w
      → Moves env.format.watch_id m (record_poll env now d t w m).1
  unfolding record_poll polled mark_poll_locked
  record_poll-Moves now d t w s f =
      let r = status_of env d t in
      let v = polled env now r w in
      let u : Watch = record v {
        rate_limit_reset_at = none;
        trigger_log_id = linked w.trigger_log_id t;
      } in
      elim (Bool-cases (is_low env d)) [
        | inl b ↦
            let l = record v { rate_limit_reset_at = nonzero d.rate_limit_reset } in
            Moves-at env.format.watch_id (ground arith) (
              next here (
                finish_locked-Move env w l rate_limited none now
                  (env.format.rate_limit_low d.rate_limit_remaining (nonzero d.rate_limit_reset))
                  none m (ground (arith, s)) (ground arith) (ground arith) (ground arith)))
        | inr b ↦ elim (Option-cases (watch_status_for_review r)) [
          | inl q ↦
              let k = record u {
                upstream_failure_count = 0;
                status = watching;
                worker_running = true;
              } in
              Moves-at env.format.watch_id (ground arith) (
                keep_watching-Moves now (review_status_changed w.review_status (some r)) w k
                  (ground (arith, s)) (ground (arith, f, s)) s.alive)
          | inr (x, q) ↦ Moves-at env.format.watch_id (ground arith) (
              next here (
                finish_locked-Move env w u x none now "" none m (ground (arith, s))
                  (review_ends r x q).0 (λ e. absurd ((review_ends r x q).1 e)) (λ e. refl)))
        ]
      ]

  pub poll_record-Moves :
      (id : String) (now : Time) (d : ReviewData) (t : Option TriggerEntry)
      → Moves env.format.watch_id m (poll_record env id now d t m).1
  unfolding poll_record
  poll_record-Moves id now d t = elim (Option-cases (lookup id m.watches_by_id)) [
    | inl e ↦ Moves-at env.format.watch_id (ground arith) here
    | inr (w, e) ↦ elim (Bool-cases w.terminal) [
      | inl b ↦ Moves-at env.format.watch_id (ground arith) here
      | inr b ↦
          Moves-at env.format.watch_id (ground arith)
            (record_poll-Moves now d t w (same-IsVersion m id w h e b) (h.formed id w e))
    ]
  ]

module _ {S : Type 0} (env : Env S) (m : Manager S) (h : Inv env.format.watch_id m) where
  -- The database is written, or the watch ends since it could not be.
  poll_complete-cases :
      (id : String) (now : Time) (d : ReviewData) (t : Option TriggerEntry)
      → let n = (poll_complete env id now d t m).1 in
        (n ≡ m)
        ⊎ ((o : Manager S) × SameMaps m o
            × ((n ≡ o)
                ⊎ ((text : String) × (n
                      ≡ finish_state env id now failed (some internal_error) text true none o))))
  unfolding poll_complete
  poll_complete-cases id now d none = inl (ground arith)
  poll_complete-cases id now d (some t) = elim (Option-cases m.db) [
    | inl e ↦ inl (ground arith)
    | inr (s, e) ↦
        let o : Manager S = record m { db = some (env.store.update_completed_at t.id s).1 } in
        elim (Bool-cases (
          not (is_low env d)
          && is_some (watch_status_for_review (status_of env d (some t)))
          && not (is_some t.completed_at))) [
            | inl b ↦ elim (Result-cases (env.store.update_completed_at t.id s).0) [
              | inl (x, q) ↦
                  inr (o, ground arith, inr (env.format.completion_failed x, ground arith))
              | inr (u, q) ↦ inr (o, ground arith, inl (ground arith))
            ]
            | inr b ↦ inl (ground arith)
          ]
  ]

  pub poll_complete-Moves :
      (id : String) (now : Time) (d : ReviewData) (t : Option TriggerEntry)
      → Moves env.format.watch_id m (poll_complete env id now d t m).1
  poll_complete-Moves id now d t = elim (poll_complete-cases id now d t) [
    | inl e ↦ Moves-at env.format.watch_id e here
    | inr (o, s, inl e) ↦
        Moves-at env.format.watch_id e (next here (SameMaps-Move env.format.watch_id m o s))
    | inr (o, s, inr (text, e)) ↦
        let r = next here (SameMaps-Move env.format.watch_id m o s) in
        let k = Moves-Inv env.format.watch_id r h in
        Moves-at env.format.watch_id e (
          Moves-joined env.format.watch_id r (
            finish_state-Moves env o k id now failed (some internal_error) text true none
              (ground arith) (ground arith) (ground arith)))
  ]
