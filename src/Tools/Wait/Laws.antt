-- ===== src/Tools/Wait/Laws.antt =====
-- What the outputs of the wait tool mean.
use mathlib.Core.Path.{subst}
use copilot_review_mcp.Common.{
  ℕ, zero, suc, false, Option, none, some, arith, ◌≡◌, ◌<◌, ◌+◌, inl, inr, refl, ap, ◌∙◌, nat_beq,
  Bool-cases, Option-cases,
}
use copilot_review_mcp.Errors.{GoError, Result-cases}
use copilot_review_mcp.Store.{Db}
use copilot_review_mcp.Tools.Reply.{output, fail_with-fails}
use copilot_review_mcp.Tools.Status.{StatusEnv, is_finished, is_missing}
use copilot_review_mcp.Tools.Wait.{
  WaitInput, WaitPlan, wait_plan, timeout, WaitOutput, WaitWorld, Last, waited, last_output,
  wait_poll, wait_end, wait_loop, wait_handler,
}
use copilot_review_mcp.Tools.Wait.Plan.{IsBounded, wait_plan-IsBounded}
use copilot_review_mcp.Tools.Wait.Turns.{
  IsAnswered, Means, Turn-cases, build_status_output-status, IsOpen, cancelled-Means,
  wait_poll-ended, wait_poll-again,
}

module _ (e : StatusEnv) (w : WaitWorld) (i : WaitInput) where
  -- The polls so far were answered, and the last result is there unless there was no poll.
  abbrev IsUnderWay : ℕ → Option Last → Type 0
  IsUnderWay poll last =
      IsOpen e w i last × ((n : ℕ) → n < poll → IsAnswered w n) × ((last ≡ none) → poll ≡ 0)

  wait_end-Means :
      (polls : ℕ) (last : Option Last) (o : WaitOutput)
      → IsUnderWay polls last
      → wait_end e w polls last ≡ some (output o)
      → Means w polls o.status o
  unfolding wait_end
  wait_end-Means polls last o k h = elim (Bool-cases w.stopped_at_end) [
    | inl b ↦ cancelled-Means e w i polls polls last o (omega arith) (ground arith)
    | inr b ↦ elim (Option-cases last) [
      | inl q ↦ ground arith
      | inr (l, q) ↦
          let r = last_output e w polls l in
          let unfinished : is_finished l.status ≡ false = subst (IsOpen e w i) q k.0 in
          let same : (record {
            status = timeout;
            review_status = some r;
            polls_done = polls;
            waited_seconds = waited e w polls;
          })
              ≡ o =
            ground arith in
          subst (λ (z : WaitOutput). Means w polls z.status z) same
            (
              refl,
              k.1,
              r,
              refl,
              ap is_finished
                    (build_status_output-status e l.data_of l.entry_of l.status (w.now polls))
                  ∙ unfinished,
            )
    ]
  ]

  one_more :
      (poll n : ℕ)
      → IsAnswered w poll
      → ((m : ℕ) → m < poll → IsAnswered w m)
      → n < suc poll
      → IsAnswered w n
  one_more poll n a k h = elim (Bool-cases (nat_beq poll n)) [
    | inl b ↦ let same : poll ≡ n = ground arith in subst (IsAnswered w) same a
    | inr b ↦ k n (ground arith)
  ]

  wait_loop-Means :
      (left poll polls : ℕ) (last : Option Last) (db db' : Db) (o : WaitOutput)
      → left + poll ≡ polls
      → IsUnderWay poll last
      → wait_loop e w i left poll last db ≡ (some (output o), db')
      → Means w polls o.status o
  unfolding wait_loop
  wait_loop-Means zero poll polls last db db' o s k h =
      let same : poll ≡ polls = ground arith in
      let r : wait_end e w polls last ≡ some (output o) = ground arith in
      wait_end-Means polls last o (subst (λ n. IsUnderWay n last) same k) r
  wait_loop-Means (suc left) poll polls last db db' o s k h =
      elim (Turn-cases (wait_poll e w i poll last db).0) [
        | inl (r, q) ↦
            wait_poll-ended e w i polls poll last db (wait_poll e w i poll last db).1 o
              (omega arith) (ground arith)
        | inr (l, q) ↦
            let x = (wait_poll e w i poll last db).1 in
            let a = wait_poll-again e w i poll last db x l (ground arith) in
            wait_loop-Means left (suc poll) polls (some l) x db' o (omega arith)
              (a.1, (λ n b. one_more poll n a.0 k.1 b), (λ c. ground arith)) (ground arith)
      ]

-- What an output of wait_for_copilot_review says. A review status: the last poll was answered in full,
-- the status is COMPLETED or BLOCKED, and the output carries it. RATE_LIMITED: the last poll was
-- answered with a low rate limit. TIMEOUT: all polls that the call asked for were answered in full, and
-- the status carried is not finished. In every case the polls done are no more than was asked for, and
-- that is within the bounds.
pub wait_handler-Means :
    (e : StatusEnv) (w : WaitWorld) (i : WaitInput) (provider : Option GoError) (db db' : Db)
    (o : WaitOutput)
    → wait_handler e w i provider db ≡ (some (output o), db')
    → (p : WaitPlan) × IsBounded i p × Means w p.max_polls o.status o
unfolding wait_handler
wait_handler-Means e w i provider db db' o h = elim (Bool-cases (is_missing i.owner i.repo i.pr)) [
  | inl b ↦ ground arith
  | inr b ↦ elim (Result-cases (wait_plan e.error i)) [
    | inl (x, q) ↦ ground arith
    | inr (p, q) ↦ elim (Option-cases provider) [
      | inr (x, r) ↦ ground (arith, fail_with-fails (λ y. y) x o)
      | inl r ↦ (
        p,
        (wait_plan-IsBounded e.error i).0 p q,
        wait_loop-Means e w i p.max_polls 0 p.max_polls none db db' o (omega arith)
            (tt, (λ n a. absurd (omega arith)), (λ c. refl)) (ground arith),
      )
    ]
  ]
]
