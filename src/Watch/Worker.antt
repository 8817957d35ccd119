-- ===== src/Watch/Worker.antt =====
-- `run` of internal/watch/manager.go: the worker of a watch. Between its steps any calls of the
-- manager may run, which are lists of `Call`. A panic comes from the call of the client, the only
-- code of others that a worker runs without the lock.
pub mod Turns
pub mod Replies
pub mod Steps
pub mod Failures
pub mod Escalation
pub mod Deadline
pub mod Laws
use copilot_review_mcp.Common.{
  ℕ, Time, Bool, true, false, String, List, [], ◌∷◌, Option, none, some, ◌&&◌, string_eq,
  if◌then◌else◌,
}
use copilot_review_mcp.Common.Map.{lookup}
use copilot_review_mcp.Errors.{Result}
use copilot_review_mcp.Github.Review.{ReviewData}
use copilot_review_mcp.Watch.State.{Client, Watch, Manager, Env}
use copilot_review_mcp.Watch.Cancel.{mark_stale}
use copilot_review_mcp.Watch.Poll.{
  Reply, ended, answered, is_done, poll_begin, poll_reply, poll_complete, poll_record,
}
use copilot_review_mcp.Watch.Life.Runs.{Call, run_calls}

-- What the call of GetReviewData does.
pub data Answer : Type 0 where
  replies : Result ReviewData → Answer
  panics : String → Answer

-- A poll: the times that it reads, the answer of its client, and the calls of others while the client
-- works and before the last lock.
pub record Tick (S : Type 0) : Type 0 where
  pub now : Time
  pub later : Time
  pub panicked_at : Time
  pub answer : Client → Answer
  pub during : List (Call S)
  pub meanwhile : List (Call S)

-- A round of the loop: the calls of others before it, whether the select takes the end of the context
-- if that is there, and the poll.
pub record Wake (S : Type 0) : Type 0 where
  pub before : List (Call S)
  pub takes_done : Bool
  pub tick : Tick S

-- How a poll ends: the worker returns, or goes on, or panics.
pub data Turn (S : Type 0) : Type 0 where
  stops goes_on : Manager S → Turn S
  panicked : String → Manager S → Turn S

-- The worker after some rounds.
pub data Worker (S : Type 0) : Type 0 where
  running returned : Manager S → Worker S

module _ {S : Type 0} where
  -- The watch that the worker's pointer points to.
  abbrev pub current : Watch → String → Manager S → Watch
  current w id m = elim (lookup id m.watches_by_id) [ none ↦ w | some v ↦ v ]

  abbrev pub turn_of : Bool → Manager S → Turn S
  turn_of stop m = if stop then stops m else goes_on m

  -- The context of the watch is done.
  abbrev pub context_done : String → Manager S → Bool
  context_done id m = elim (lookup id m.watches_by_id) [ none ↦ false | some w ↦ is_done w m ]

  module _ (env : Env S) where
    -- The end of `pollOnce`, by what GitHub's answer led to.
    unfoldable pub after_reply : String → Tick S → Reply → Manager S → Turn S
    after_reply id t (ended b) m = turn_of b m
    after_reply id t (answered at d entry) m =
        let (go, n) = poll_complete env id at d entry m in
        let (b, n') = poll_record env id at d entry (run_calls env t.meanwhile n) in
        if go then turn_of b n' else stops n

    -- `pollOnce` from the answer of GitHub on.
    unfoldable pub poll_answered : String → Watch → Tick S → Result ReviewData → Manager S → Turn S
    poll_answered id w t r m =
        let (reply, m') = poll_reply env w t.later r m in after_reply id t reply m'

    unfoldable pub poll_called : String → Watch → Tick S → Answer → Manager S → Turn S
    poll_called id w t (replies r) m = poll_answered id (current w id m) t r m
    poll_called id w t (panics text) m = panicked text m

    -- `pollOnce`.
    unfoldable pub poll_turn : String → Tick S → Manager S → Turn S
    poll_turn id t m = elim (lookup id m.watches_by_id) [
      | none ↦ stops m
      | some w ↦
          let (c, m') = poll_begin env id t.now m in
          elim c [
            | none ↦ stops m'
            | some client ↦ poll_called id w t (t.answer client) (run_calls env t.during m')
          ]
    ]

    -- What the worker does after a poll; the deferred function of `run` recovers from a panic.
    unfoldable pub after_turn : String → Time → (Manager S → Worker S) → Turn S → Worker S
    after_turn id panicked_at rest (stops m) = returned m
    after_turn id panicked_at rest (goes_on m) = rest m
    after_turn id panicked_at rest (panicked text m) =
        returned (mark_stale env id text panicked_at m)

    -- The loop of `run`.
    unfoldable pub run_loop : String → List (Wake S) → Manager S → Worker S
    run_loop id [] m = running m
    run_loop id (wake ∷ wakes) m =
        let n = run_calls env wake.before m in
        let rest = run_loop id wakes in
        elim (wake.takes_done && context_done id n) [
          | true ↦ returned n
          | false ↦ after_turn id wake.tick.panicked_at rest (poll_turn id wake.tick n)
        ]

    -- `run`: the first poll waits for nothing.
    unfoldable pub run : String → Tick S → List (Wake S) → Manager S → Worker S
    unfolding run_loop
    run id t wakes m =
        run_loop id ((record { before = []; takes_done = false; tick = t }) ∷ wakes) m
