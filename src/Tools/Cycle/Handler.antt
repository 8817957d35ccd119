-- ===== src/Tools/Cycle/Handler.antt =====
-- What an answer of the handler of get_pr_review_cycle_status rests on.
use copilot_review_mcp.Common.{
  ℕ, Time, true, false, List, Option, arith, ◌≡◌, ◌↔◌, ◌⊎◌, inl, inr, sym, ap, ◌∙◌, string_eq,
  int_ltb, Bool-cases, Option-cases,
}
use copilot_review_mcp.Errors.{ok, Result-cases}
use copilot_review_mcp.Github.Review.{ReviewData, derive_status}
use copilot_review_mcp.Store.{Db}
use copilot_review_mcp.Store.Trigger.{TriggerEntry, get_latest}
use copilot_review_mcp.Watch.Poll.{requested_of, prev_of}
use copilot_review_mcp.Github.Threads.{ReviewThread}
use copilot_review_mcp.Github.Checks.{CiStatus}
use copilot_review_mcp.Tools.Reply.{output, fail_with-fails}
use copilot_review_mcp.Tools.Cycle.{
  CycleStatusInput, CycleStatusOutput, CycleClient, CycleEnv, ready_to_merge, escalate, terminate,
  unresolved_count, is_rereview_required, escalated, evaluated, evaluate, elapsed_minutes,
  cycle_error, cycle_status_handler, max_cycles_of,
}
use copilot_review_mcp.Tools.Cycle.Laws.{
  IsReviewed, evaluated-ready_to_merge, evaluated-action, IsEnding-at, escalated-action,
  escalated-IsEnding, cycle_status_of-terminate,
}

module _ (e : CycleEnv) (i : CycleStatusInput) (c : CycleClient) (db : Db) (now : Time) where
  -- The answers that an evaluation rests on.
  record Evaluation (o : CycleStatusOutput) : Type 0 where
    ci : CiStatus
    threads : List ReviewThread
    data_read : ReviewData
    trigger : Option TriggerEntry
    elapsed : ℕ
    got_ci : c.get_ci_status ≡ ok ci
    got_threads : c.get_review_threads ≡ ok threads
    got_data : c.get_review_data ≡ ok data_read
    got_trigger : get_latest i.owner i.repo i.pr db ≡ ok trigger
    below : int_ltb i.cycles_done (max_cycles_of e i.max_cycles) ≡ true
    is_safe : int_ltb data_read.rate_limit_remaining 10 ≡ false
    answer :
        o
        ≡ evaluated e i ci threads
            (derive_status e.format_int data_read (requested_of trigger) (prev_of trigger))
            elapsed

  evaluate-Evaluation :
      (ci : CiStatus) (ts : List ReviewThread) (o : CycleStatusOutput)
      → c.get_ci_status ≡ ok ci
      → c.get_review_threads ≡ ok ts
      → int_ltb i.cycles_done (max_cycles_of e i.max_cycles) ≡ true
      → evaluate e i c db now ci ts ≡ output o
      → Evaluation o
  unfolding evaluate
  evaluate-Evaluation ci ts o p q l r = elim (Result-cases c.get_review_data) [
    | inl (x, a) ↦
        absurd (fail_with-fails (e.wrapped "failed to fetch review data: %w") x o (ground arith))
    | inr (d, a) ↦ elim (Bool-cases (int_ltb d.rate_limit_remaining 10)) [
      | inl b ↦ ground arith
      | inr b ↦ elim (Result-cases (get_latest i.owner i.repo i.pr db)) [
        | inl (x, f) ↦ ground arith
        | inr (t, f) ↦ elim (Result-cases (elapsed_minutes e now i.last_comment_at ts)) [
          | inl (x, g) ↦ ground arith
          | inr (n, g) ↦ record {
            ci = ci;
            threads = ts;
            data_read = d;
            trigger = t;
            elapsed = n;
            got_ci = p;
            got_threads = q;
            got_data = a;
            got_trigger = f;
            below = l;
            is_safe = b;
            answer = ground arith;
          }
        ]
      ]
    ]
  ]

  handler-cases :
      (o : CycleStatusOutput)
      → cycle_status_handler e i (ok c) db now ≡ output o
      → ((ci : CiStatus) × (ts : List ReviewThread) × (o ≡ escalated e i ci ts)
          × (int_ltb i.cycles_done (max_cycles_of e i.max_cycles) ≡ false))
        ⊎ Evaluation o
  unfolding cycle_status_handler
  handler-cases o q = elim (Option-cases (cycle_error e i)) [
    | inr (x, a) ↦ ground arith
    | inl a ↦ elim (Result-cases c.get_ci_status) [
      | inl (x, b) ↦
          absurd (fail_with-fails (e.wrapped "failed to get CI status: %w") x o (ground arith))
      | inr (ci, b) ↦ elim (Result-cases c.get_review_threads) [
        | inl (x, d) ↦
            absurd
              (fail_with-fails (e.wrapped "failed to fetch review threads: %w") x o (ground arith))
        | inr (ts, d) ↦ elim (Bool-cases (int_ltb i.cycles_done (max_cycles_of e i.max_cycles))) [
          | inl f ↦ inr (evaluate-Evaluation ci ts o b d f (ground arith))
          | inr f ↦ inl (ci, ts, ground arith, f)
        ]
      ]
    ]
  ]

  -- An answer that recommends READY_TO_MERGE was computed from a green CI status, threads none of
  -- which is unresolved, a fix type that needs no new review, and a review status of COMPLETED or
  -- BLOCKED.
  pub handler-ready_to_merge :
      (o : CycleStatusOutput)
      → cycle_status_handler e i (ok c) db now ≡ output o
      → o.recommended_action ≡ ready_to_merge
      → ((ci : CiStatus) × (c.get_ci_status ≡ ok ci) × (ci.ok ≡ true))
        × ((ts : List ReviewThread) × (c.get_review_threads ≡ ok ts) × (unresolved_count ts ≡ 0))
        × (is_rereview_required i.fix_type ≡ false)
        × ((d : ReviewData) × (t : Option TriggerEntry) × (c.get_review_data ≡ ok d)
            × (get_latest i.owner i.repo i.pr db ≡ ok t)
            × IsReviewed (derive_status e.format_int d (requested_of t) (prev_of t)))
  handler-ready_to_merge o q r = elim (handler-cases o q) [
    | inl (ci, ts, a, b) ↦
        let x =
          ap (λ (y : CycleStatusOutput). y.recommended_action) a ∙ escalated-action e i ci ts in
        cc
    | inr v ↦
        let s =
          derive_status e.format_int v.data_read (requested_of v.trigger) (prev_of v.trigger) in
        let (x, y, z, f) =
          evaluated-ready_to_merge e i v.ci v.threads s v.elapsed
            (sym (ap (λ (y : CycleStatusOutput). y.recommended_action) v.answer) ∙ r) in
        (
          (v.ci, v.got_ci, y),
          (v.threads, v.got_threads, z),
          f,
          (v.data_read, v.trigger, v.got_data, v.got_trigger, x),
        )
  ]

  -- An answer has the cycle status TERMINATE exactly if it recommends READY_TO_MERGE or ESCALATE.
  pub handler-terminate_iff :
      (o : CycleStatusOutput)
      → cycle_status_handler e i (ok c) db now ≡ output o
      → (o.cycle_status ≡ terminate)
        ↔ ((o.recommended_action ≡ ready_to_merge) ⊎ (o.recommended_action ≡ escalate))
  handler-terminate_iff o q = elim (handler-cases o q) [
    | inl (ci, ts, a, b) ↦ IsEnding-at e i o (escalated e i ci ts) a (escalated-IsEnding e i ci ts)
    | inr v ↦
        let s =
          derive_status e.format_int v.data_read (requested_of v.trigger) (prev_of v.trigger) in
        let a = evaluated e i v.ci v.threads s v.elapsed in
        IsEnding-at e i o a v.answer (
          rw (evaluated-action e i v.ci v.threads s v.elapsed).1
            (cycle_status_of-terminate a.recommended_action))
  ]

  -- An answer recommends ESCALATE exactly if the cycles done have reached the limit, which is the
  -- input's where that is positive, or else the environment's.
  pub handler-escalate_iff :
      (o : CycleStatusOutput)
      → cycle_status_handler e i (ok c) db now ≡ output o
      → (o.recommended_action ≡ escalate)
        ↔ (int_ltb i.cycles_done (max_cycles_of e i.max_cycles) ≡ false)
  handler-escalate_iff o q = elim (handler-cases o q) [
    | inl (ci, ts, a, b) ↦ (
      λ x. b,
      λ x. ap (λ (y : CycleStatusOutput). y.recommended_action) a ∙ escalated-action e i ci ts,
    )
    | inr v ↦
        let s =
          derive_status e.format_int v.data_read (requested_of v.trigger) (prev_of v.trigger) in
        let keeps = (evaluated-action e i v.ci v.threads s v.elapsed).0 in
        (
          λ x.
              absurd
                (keeps (sym (ap (λ (y : CycleStatusOutput). y.recommended_action) v.answer) ∙ x)),
          λ x. cc v.below,
        )
  ]
