-- ===== src/Tools/Wait/Returns.antt =====
-- The wait tool always returns, and it finds a review that is there.
use mathlib.Core.Path.{subst}
use copilot_review_mcp.Common.{
  ℕ, zero, suc, true, false, Option, none, some, arith, ◌≡◌, ◌⊎◌, ◌≤◌, ◌<◌, ◌+◌, ◌&&◌, inl, inr,
  refl, sym, int_ltb, is_some, not, Bool-cases, Option-cases,
}
use copilot_review_mcp.Errors.{GoError, ok, Result-cases}
use copilot_review_mcp.Github.Review.{ReviewStatus, ReviewData}
use copilot_review_mcp.Store.{Db}
use copilot_review_mcp.Store.Trigger.{TriggerEntry, get_latest, update_completed_at}
use copilot_review_mcp.Store.Trigger.Settled.{fault-get_latest}
use copilot_review_mcp.Tools.Reply.{ToolReply, output, failure, fail_with}
use copilot_review_mcp.Tools.Status.{StatusEnv, status_of, is_finished, complete_entry, is_missing}
use copilot_review_mcp.Tools.Wait.{
  WaitInput, WaitPlan, wait_plan, reviewed, timeout, WaitOutput, WaitWorld, Last, ended, again,
  waited, last_output, build_cancelled_output, poll_output, take_answer, wait_poll, wait_end,
  wait_loop, wait_handler,
}
use copilot_review_mcp.Tools.Wait.Plan.{IsBounded, wait_plan-IsBounded}
use copilot_review_mcp.Tools.Wait.Turns.{IsAnswered, Turn-cases}

wait_loop-returns :
    (e : StatusEnv) (w : WaitWorld) (i : WaitInput) (left poll : ℕ) (last : Option Last) (db : Db)
    → (0 < left) ⊎ (is_some last ≡ true)
    → (r : ToolReply WaitOutput) × ((wait_loop e w i left poll last db).0 ≡ some r)
unfolding wait_loop wait_end
wait_loop-returns e w i zero poll last db h = elim (Bool-cases w.stopped_at_end) [
  | inl b ↦ (output (build_cancelled_output e w poll last), ground arith)
  | inr b ↦ elim (Option-cases last) [
    | inl q ↦ absurd (ground arith)
    | inr (l, q) ↦ (
      output (record {
        status = timeout;
        review_status = some (last_output e w poll l);
        polls_done = poll;
        waited_seconds = waited e w poll;
      }),
      ground arith,
    )
  ]
]
wait_loop-returns e w i (suc left) poll last db h =
    elim (Turn-cases (wait_poll e w i poll last db).0) [
      | inl (r, q) ↦ (r, ground arith)
      | inr (l, q) ↦
          let (r, x) =
            wait_loop-returns e w i left (suc poll) (some l) (wait_poll e w i poll last db).1
              (inr refl) in
          (r, ground arith)
    ]

-- The handler always returns: whatever the inputs and the world, its loop ends, and where it has used
-- up its polls there is a last result to report, so that no nil data is read.
pub wait_handler-returns :
    (e : StatusEnv) (w : WaitWorld) (i : WaitInput) (provider : Option GoError) (db : Db)
    → (r : ToolReply WaitOutput) × ((wait_handler e w i provider db).0 ≡ some r)
unfolding wait_handler
wait_handler-returns e w i provider db = elim (Bool-cases (is_missing i.owner i.repo i.pr)) [
  | inl b ↦ (failure (e.error "owner, repo, and pr are required"), ground arith)
  | inr b ↦ elim (Result-cases (wait_plan e.error i)) [
    | inl (x, q) ↦ (failure x, ground arith)
    | inr (p, q) ↦ elim (Option-cases provider) [
      | inr (x, r) ↦ (fail_with (λ y. y) x, ground arith)
      | inl r ↦
          let bounds = (wait_plan-IsBounded e.error i).0 p q in
          let (y, z) = wait_loop-returns e w i p.max_polls 0 none db (inl bounds.4) in
          (y, ground arith)
    ]
  ]
]

-- Up to a poll: the context lives, GitHub answers in full, and nobody else writes to the database.
abbrev pub IsQuiet : WaitWorld → ℕ → Type 0
IsQuiet w k =
    (n : ℕ)
    → n ≤ k
    → (w.stopped n ≡ false)
      × IsAnswered w n
      × ((y : Db) → w.before_read n y ≡ y)
      × ((y : Db) → w.before_update n y ≡ y)

complete_entry-quiet :
    (s : ReviewStatus) (x : Option TriggerEntry) (db : Db)
    → db.fault ≡ none
    → ((complete_entry s x db).0 ≡ ok tt) × (is_finished s ≡ false → (complete_entry s x db).1 ≡ db)
unfolding complete_entry update_completed_at
complete_entry-quiet s none db h = (refl, λ b. refl)
complete_entry-quiet s (some x) db h =
    elim (Bool-cases (is_finished s && not (is_some x.completed_at))) [
      | inl b ↦ ground arith
      | inr b ↦ ground arith
    ]

module _ (e : StatusEnv) (w : WaitWorld) (i : WaitInput) (db : Db) (entry : Option TriggerEntry)
    (found : get_latest i.owner i.repo i.pr db ≡ ok entry) where
  -- One poll of a quiet world.
  quiet_poll :
      (poll : ℕ) (last : Option Last) (d : ReviewData)
      → IsQuiet w poll
      → w.answer poll ≡ ok d
      → let l : Last = record { data_of = d; entry_of = entry; status = status_of e d entry } in
        (is_finished l.status ≡ true
          → (wait_poll e w i poll last db).0
            ≡ ended (output (poll_output e w poll (reviewed l.status) l)))
        × (is_finished l.status ≡ false → wait_poll e w i poll last db ≡ (again l, db))
  unfolding wait_poll take_answer
  quiet_poll poll last d quiet q =
      let (lives, (d', a, low), read, update) = quiet poll (omega arith) in
      let same : d' ≡ d = ground arith in
      let full : int_ltb d.rate_limit_remaining 10 ≡ false =
        subst (λ (y : ReviewData). int_ltb y.rate_limit_remaining 10 ≡ false) same low in
      let fault = fault-get_latest i.owner i.repo i.pr db entry found in
      let k = complete_entry-quiet (status_of e d entry) entry db fault in
      let one = read db in
      let two = update db in
      elim (Bool-cases (is_finished (status_of e d entry))) [
        | inl b ↦ (λ c. ground arith, λ c. ground arith)
        | inr b ↦ (λ c. ground arith, λ c. ground arith)
      ]

  -- An output of a finished review after at most so many polls.
  abbrev Finds : ℕ → Option (ToolReply WaitOutput) → Type 0
  Finds polls r =
      (o : WaitOutput) × (s : ReviewStatus) × (r ≡ some (output o))
      × (o.status ≡ reviewed s)
      × (is_finished s ≡ true)
      × (o.polls_done ≤ polls)

  wait_loop-Finds :
      (k n left poll : ℕ) (last : Option Last) (d : ReviewData)
      → poll + n ≡ k
      → n < left
      → IsQuiet w k
      → w.answer k ≡ ok d
      → is_finished (status_of e d entry) ≡ true
      → Finds (k + 1) (wait_loop e w i left poll last db).0
  unfolding wait_loop
  wait_loop-Finds k n zero poll last d s a quiet q f = absurd (omega arith)
  wait_loop-Finds k n (suc left) poll last d s a quiet q f =
      let (_, (d', now, _), _, _) = quiet poll (omega arith) in
      let step = quiet_poll poll last d' (λ m b. quiet m (omega arith)) now in
      let l : Last = record { data_of = d'; entry_of = entry; status = status_of e d' entry } in
      elim (Bool-cases (is_finished l.status)) [
        | inl b ↦
            let r = step.0 b in
            (
              poll_output e w poll (reviewed l.status) l,
              l.status,
              ground arith,
              refl,
              b,
              omega arith,
            )
        | inr b ↦
            let r = step.1 b in
            elim n as (λ m. n ≡ m → Finds (k + 1) (wait_loop e w i (suc left) poll last db).0) [
              | zero ↦ λ z.
                  let here : poll ≡ k = omega arith in
                  let same : d' ≡ d = ground arith in
                  let done : is_finished l.status ≡ true =
                    subst (λ y. is_finished (status_of e y entry) ≡ true) (sym same) f in
                  ground arith
              | suc m ↦ λ z.
                  let (o, t, x, y, u, v) =
                    wait_loop-Finds k m left (suc poll) (some l) d (omega arith) (omega arith) quiet
                      q f in
                  (o, t, ground arith, y, u, v)
            ]
              refl
      ]

-- If up to a poll within its bounds the context lives, GitHub answers in full and nobody else writes to
-- the database, and the data of that poll is finished by the latest trigger, then the tool puts out a
-- finished review by then: it does not time out and takes no later poll.
pub wait_handler-finds :
    (e : StatusEnv) (w : WaitWorld) (i : WaitInput) (p : WaitPlan) (db : Db) (k : ℕ)
    (d : ReviewData) (entry : Option TriggerEntry)
    → is_missing i.owner i.repo i.pr ≡ false
    → IsBounded i p
    → k < p.max_polls
    → get_latest i.owner i.repo i.pr db ≡ ok entry
    → IsQuiet w k
    → w.answer k ≡ ok d
    → is_finished (status_of e d entry) ≡ true
    → (o : WaitOutput) × (s : ReviewStatus) × ((wait_handler e w i none db).0 ≡ some (output o))
      × (o.status ≡ reviewed s)
      × (is_finished s ≡ true)
      × (o.polls_done ≤ k + 1)
unfolding wait_handler
wait_handler-finds e w i p db k d entry m b a found quiet q f =
    let plan = (wait_plan-IsBounded e.error i).1 p b in
    let (o, s, x, y, z, u) =
      wait_loop-Finds e w i db entry found k k p.max_polls 0 none d (omega arith) a quiet q f in
    (o, s, ground arith, y, z, u)
