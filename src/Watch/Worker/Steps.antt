-- ===== src/Watch/Worker/Steps.antt =====
-- What the other pieces of a poll leave of its watch.
use mathlib.Core.Path.{subst}
use copilot_review_mcp.Common.{
  ◌+◌, Time, Bool, true, false, String, Option, none, some, arith, ◌≡◌, inl, inr, sym, ◌&&◌,
  string_eq, leb, not, is_some, Bool-cases, Option-cases,
}
use copilot_review_mcp.Common.Map.{lookup}
use copilot_review_mcp.Errors.{Result-cases}
use copilot_review_mcp.Github.Review.{ReviewData}
use copilot_review_mcp.Store.Trigger.{TriggerEntry}
use copilot_review_mcp.Watch.State.{
  watching, failed, rate_limited, timeout, stale, internal_error, Client, Watch, Manager, Env,
}
use copilot_review_mcp.Watch.Persist.{mark_poll_locked, finish_locked}
use copilot_review_mcp.Watch.Cancel.{mark_stale}
use copilot_review_mcp.Watch.Outcome.{
  finish_state, keep_watching, watch_status_for_review, review_status_changed,
}
use copilot_review_mcp.Watch.Poll.{
  is_low, status_of, polled, poll_begin, nonzero, linked, poll_complete, record_poll, poll_record,
}
use copilot_review_mcp.Watch.Worker.Turns.{
  IsOver, Tracks, IsNamed, finish_state-IsOver, finish_locked-IsOver, keep_watching-Tracks,
  stops-IsOver,
}

module _ {S : Type 0} (env : Env S) where
  -- A failed update of the trigger log ends the watch.
  abbrev pub TracksGo : String → Bool × Manager S → Type 0
  TracksGo id (true, n) = Unit
  TracksGo id (false, n) = IsOver id n

  pub poll_complete-TracksGo :
      (id : String) (now : Time) (d : ReviewData) (entry : Option TriggerEntry) (m : Manager S)
      → IsNamed env m
      → TracksGo id (poll_complete env id now d entry m)
  unfolding poll_complete
  poll_complete-TracksGo id now d none m named = tt
  poll_complete-TracksGo id now d (some entry) m named =
      let r = poll_complete env id now d (some entry) m in
      elim (Option-cases m.db) [
        | inl q ↦ let same : r ≡ (true, m) = ground arith in subst (TracksGo id) (sym same) tt
        | inr (s, q) ↦
            elim (Bool-cases (
              not (is_low env d)
              && is_some (watch_status_for_review (status_of env d (some entry)))
              && not (is_some entry.completed_at))) [
                | inr b ↦
                    let same : r ≡ (true, m) = ground arith in subst (TracksGo id) (sym same) tt
                | inl b ↦
                    let (u, s') = env.store.update_completed_at entry.id s in
                    let m' : Manager S = record m { db = some s' } in
                    elim (Result-cases u) [
                      | inr (x, c) ↦
                          let same : r ≡ (true, m') = ground arith in
                          subst (TracksGo id) (sym same) tt
                      | inl (x, c) ↦
                          let text = env.format.completion_failed x in
                          let n =
                            finish_state env id now failed (some internal_error) text true none
                              m' in
                          let same : r ≡ (false, n) = ground arith in
                          subst (TracksGo id) (sym same) (
                            finish_state-IsOver env id now failed (some internal_error) text true
                              none m' named)
                    ]
              ]
      ]

  record_poll-Tracks :
      (id : String) (now : Time) (d : ReviewData) (entry : Option TriggerEntry) (w : Watch)
      (m : Manager S)
      → w.id ≡ id
      → w.terminal ≡ false
      → Tracks id (record_poll env now d entry w m)
  unfolding record_poll polled mark_poll_locked
  record_poll-Tracks id now d entry w m h t =
      let status = status_of env d entry in
      let v = polled env now status w in
      let r = record_poll env now d entry w m in
      elim (Bool-cases (is_low env d)) [
        | inl b ↦
            let reset = nonzero d.rate_limit_reset in
            let u : Watch = record v { rate_limit_reset_at = reset } in
            let text = env.format.rate_limit_low d.rate_limit_remaining reset in
            let same : r ≡ (true, finish_locked env u rate_limited none now text none m) =
              ground arith in
            subst (Tracks id) (sym same)
              (finish_locked-IsOver env id u rate_limited none now text none m h)
        | inr b ↦
            let u : Watch = record v {
              rate_limit_reset_at = none;
              trigger_log_id = linked w.trigger_log_id entry;
            } in
            elim (Option-cases (watch_status_for_review status)) [
              | inr (s, c) ↦
                  let same : r ≡ (true, finish_locked env u s none now "" none m) = ground arith in
                  subst (Tracks id) (sym same)
                    (finish_locked-IsOver env id u s none now "" none m h)
              | inl c ↦
                  let x : Watch = record u {
                    upstream_failure_count = 0;
                    status = watching;
                    worker_running = true;
                  } in
                  let announce = review_status_changed w.review_status (some status) in
                  let same : r ≡ keep_watching env now announce x m = ground arith in
                  subst (Tracks id) (sym same) (keep_watching-Tracks env id now announce x m h t)
            ]
      ]

  pub poll_record-Tracks :
      (id : String) (now : Time) (d : ReviewData) (entry : Option TriggerEntry) (m : Manager S)
      → IsNamed env m
      → Tracks id (poll_record env id now d entry m)
  unfolding poll_record
  poll_record-Tracks id now d entry m named =
      let r = poll_record env id now d entry m in
      elim (Option-cases (lookup id m.watches_by_id)) [
        | inl q ↦ let same : r ≡ (true, m) = ground arith in subst (Tracks id) (sym same) (inl q)
        | inr (w, q) ↦ elim (Bool-cases w.terminal) [
          | inl t ↦
              let same : r ≡ (true, m) = ground arith in
              subst (Tracks id) (sym same) (stops-IsOver env id m w q t)
          | inr t ↦
              let same : r ≡ record_poll env now d entry w m = ground arith in
              subst (Tracks id) (sym same) (record_poll-Tracks id now d entry w m (named id w q) t)
        ]
      ]

  -- The start of a poll without a client to call.
  abbrev pub TracksBegin : String → Option Client × Manager S → Type 0
  TracksBegin id (some c, n) = Unit
  TracksBegin id (none, n) = IsOver id n

  pub poll_begin-TracksBegin :
      (id : String) (now : Time) (m : Manager S)
      → IsNamed env m
      → TracksBegin id (poll_begin env id now m)
  unfolding poll_begin
  poll_begin-TracksBegin id now m named =
      let r = poll_begin env id now m in
      elim (Option-cases (lookup id m.watches_by_id)) [
        | inl q ↦
            let same : r ≡ (none, m) = ground arith in subst (TracksBegin id) (sym same) (inl q)
        | inr (w, q) ↦ elim (Bool-cases (leb (w.started_at + m.max_watch_duration) now)) [
          | inl b ↦
              let text = env.format.exceeded m.max_watch_duration in
              let n = finish_state env id now timeout none text false none m in
              let same : r ≡ (none, n) = ground arith in
              subst (TracksBegin id) (sym same)
                (finish_state-IsOver env id now timeout none text false none m named)
          | inr b ↦ elim (Option-cases w.client) [
            | inr (c, k) ↦
                let same : r ≡ (some c, m) = ground arith in subst (TracksBegin id) (sym same) tt
            | inl k ↦
                let text : String = "watch client is unavailable" in
                let n = finish_state env id now failed (some internal_error) text false none m in
                let same : r ≡ (none, n) = ground arith in
                subst (TracksBegin id) (sym same) (
                  finish_state-IsOver env id now failed (some internal_error) text false none m
                    named)
          ]
        ]
      ]

  -- What markStale leaves.
  pub mark_stale-IsOver :
      (id text : String) (now : Time) (m : Manager S)
      → IsNamed env m
      → IsOver id (mark_stale env id text now m)
  unfolding mark_stale
  mark_stale-IsOver id text now m named =
      let n = mark_stale env id text now m in
      elim (Option-cases (lookup id m.watches_by_id)) [
        | inl q ↦ let same : n ≡ m = ground arith in subst (IsOver id) (sym same) (inl q)
        | inr (w, q) ↦ elim (Bool-cases w.terminal) [
          | inl t ↦
              let same : n ≡ m = ground arith in
              subst (IsOver id) (sym same) (stops-IsOver env id m w q t)
          | inr t ↦
              let same : n ≡ finish_locked env w stale none now text none m = ground arith in
              subst (IsOver id) (sym same)
                (finish_locked-IsOver env id w stale none now text none m (named id w q))
        ]
      ]
