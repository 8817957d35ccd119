-- ===== src/Tools/Wait.antt =====
-- internal/tools/wait.go. `WaitWorld` is what happens around the handler, by the number of the poll:
-- GitHub's answers, what others do to the database, the clock, and whether the context has ended.
pub mod Plan
pub mod Turns
pub mod Laws
pub mod Returns
pub use Plan.*
use copilot_review_mcp.Common.{
  ℕ, zero, suc, ℤ, Time, second, Bool, true, false, String, Option, none, some, ◌||◌, ◌&&◌, ◌+◌,
  ◌-◌, ◌/◌, ltb, int_ltb, if◌then◌else◌,
}
use mathlib.Core.Option
use copilot_review_mcp.Errors.{GoError, Result, ok, err, is_canceled, is_deadline_exceeded}
use copilot_review_mcp.Github.Review.{ReviewStatus, ReviewData}
use copilot_review_mcp.Store.{Db}
use copilot_review_mcp.Store.Trigger.{TriggerEntry, get_latest}
use copilot_review_mcp.Tools.Reply.{ToolReply, output, failure, fail_with}
use copilot_review_mcp.Tools.Status.{
  StatusEnv, GetStatusOutput, build_status_output, status_of, is_finished, complete_entry,
  is_missing,
}

pub data WaitStatus : Type 0 where
  reviewed : ReviewStatus → WaitStatus
  rate_limited timeout cancelled : WaitStatus

pub record WaitOutput : Type 0 where
  pub status : WaitStatus
  pub review_status : Option GetStatusOutput
  pub polls_done : ℕ
  pub waited_seconds : ℕ

-- `answer` is GetReviewData of a poll; `stopped` is whether the wait before a poll ends with the
-- context, `stopped_at_end` whether it has ended after the polls; `before_read` and `before_update` are
-- what others do to the database before the two statements of a poll.
pub record WaitWorld : Type 0 where
  pub start : Time
  pub now : ℕ → Time
  pub answer : ℕ → Result ReviewData
  pub stopped : ℕ → Bool
  pub stopped_at_end : Bool
  pub before_read : ℕ → Db → Db
  pub before_update : ℕ → Db → Db

-- `lastData`, `lastEntry` and `lastStatus`.
pub record Last : Type 0 where
  pub data_of : ReviewData
  pub entry_of : Option TriggerEntry
  pub status : ReviewStatus

-- `isCancellation`.
abbrev pub is_cancellation : GoError → Bool
is_cancellation e = is_canceled e || is_deadline_exceeded e

-- A poll ends the call, or the loop goes on.
pub data Turn : Type 0 where
  ended : ToolReply WaitOutput → Turn
  again : Last → Turn

module _ (e : StatusEnv) (w : WaitWorld) where
  -- `int(time.Since(start).Seconds())`; the clock of a process does not go back.
  abbrev pub waited : ℕ → ℕ
  waited poll = (w.now poll - w.start) / second

  abbrev pub last_output : ℕ → Last → GetStatusOutput
  last_output poll l = build_status_output e l.data_of l.entry_of l.status (w.now poll)

  -- `buildCancelledOutput`.
  unfoldable pub build_cancelled_output : ℕ → Option Last → WaitOutput
  build_cancelled_output polls last = record {
    status = cancelled;
    review_status = Option.map (last_output polls) last;
    polls_done = polls;
    waited_seconds = waited polls;
  }

  abbrev pub poll_output : ℕ → WaitStatus → Last → WaitOutput
  poll_output poll s l = record {
    status = s;
    review_status = some (last_output poll l);
    polls_done = poll + 1;
    waited_seconds = waited poll;
  }

  -- The part of a poll after GetReviewData has answered with data.
  unfoldable pub take_answer : WaitInput → ℕ → Option Last → ReviewData → Db → Turn × Db
  take_answer i poll last d db =
      let low = int_ltb d.rate_limit_remaining 10 in
      elim (get_latest i.owner i.repo i.pr db) [
        | err x ↦ (
          ended (
              if is_cancellation x
              then output (build_cancelled_output poll last)
              else failure
                  (if low then e.wrapped "failed to get latest entry (RATE_LIMITED): %w" x else x)),
          db,
        )
        | ok entry ↦
            let l : Last = record { data_of = d; entry_of = entry; status = status_of e d entry } in
            if low
            then (ended (output (poll_output poll rate_limited l)), db)
            else (let (r, db') = complete_entry l.status entry (w.before_update poll db) in
                elim r [
                  | err x ↦ (ended (failure (e.wrapped "failed to update completed_at: %w" x)), db')
                  | ok u ↦ (
                    (if is_finished l.status
                        then ended (output (poll_output poll (reviewed l.status) l))
                        else again l),
                    db',
                  )
                ])
      ]

  -- The body of the loop.
  unfoldable pub wait_poll : WaitInput → ℕ → Option Last → Db → Turn × Db
  wait_poll i poll last db =
      if ltb 0 poll && w.stopped poll
      then (ended (output (build_cancelled_output poll last)), db)
      else elim (w.answer poll) [
        | err x ↦ (
          ended (
              if is_cancellation x
              then output (build_cancelled_output poll last)
              else fail_with (λ y. y) x),
          db,
        )
        | ok d ↦ take_answer i poll last d (w.before_read poll db)
      ]

  -- The end after all polls; `none` is a dereference of a nil `lastData`.
  unfoldable pub wait_end : ℕ → Option Last → Option (ToolReply WaitOutput)
  wait_end polls last =
      if w.stopped_at_end then some (output (build_cancelled_output polls last)) else elim last [
        | none ↦ none
        | some l ↦ some (
            output (record {
              status = timeout;
              review_status = some (last_output polls l);
              polls_done = polls;
              waited_seconds = waited polls;
            }))
      ]

  -- The loop, with the number of the polls left.
  unfoldable pub wait_loop :
      WaitInput → ℕ → ℕ → Option Last → Db → Option (ToolReply WaitOutput) × Db
  wait_loop i zero poll last db = (wait_end poll last, db)
  wait_loop i (suc left) poll last db =
      let (t, db') = wait_poll i poll last db in
      elim t [ ended r ↦ (some r, db') | again l ↦ wait_loop i left (suc poll) (some l) db' ]

  -- `waitHandler`; `provider` is the error of the client provider, if there is one.
  unfoldable pub wait_handler : WaitInput → Option GoError → Db → Option (ToolReply WaitOutput) × Db
  wait_handler i provider db =
      if is_missing i.owner i.repo i.pr
      then (some (failure (e.error "owner, repo, and pr are required")), db)
      else elim (wait_plan e.error i) [
        | err x ↦ (some (failure x), db)
        | ok p ↦ elim provider [
          | some x ↦ (some (fail_with (λ y. y) x), db)
          | none ↦ wait_loop i p.max_polls 0 none db
        ]
      ]
