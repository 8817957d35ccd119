-- ===== src/Watch/Worker/Laws.antt =====
-- A worker that runs has a live watch, and one that returned leaves no live watch behind.
use mathlib.Core.Path.{subst}
use copilot_review_mcp.Common.{
  ℕ, Time, Bool, true, false, String, List, [], ◌∷◌, Option, arith, ◌≡◌, inl, inr, sym, ◌&&◌,
  string_eq, Bool-cases, Option-cases,
}
use copilot_review_mcp.Common.Map.{lookup}
use copilot_review_mcp.Errors.{Result}
use copilot_review_mcp.Github.Review.{ReviewData}
use copilot_review_mcp.Watch.State.{Watch, Manager, Env}
use copilot_review_mcp.Watch.Start.{Options, new_manager}
use copilot_review_mcp.Watch.Poll.{
  Reply, ended, answered, is_done, poll_begin, poll_reply, poll_complete, poll_record,
}
use copilot_review_mcp.Watch.Life.{Inv}
use copilot_review_mcp.Watch.Life.Invariant.{Moves-Inv}
use copilot_review_mcp.Watch.Life.Polls.{
  poll_begin-Moves, poll_reply-Moves, poll_complete-Moves, poll_record-Moves,
}
use copilot_review_mcp.Watch.Life.Runs.{Call, run_calls, run_calls-Moves, run_calls-Inv}
use copilot_review_mcp.Watch.Worker.{
  Answer, replies, panics, Tick, Wake, Turn, stops, goes_on, panicked, Worker, running, returned,
  current, turn_of, context_done, after_reply, poll_answered, poll_called, poll_turn, after_turn,
  run_loop, run,
}
use copilot_review_mcp.Watch.Worker.Turns.{IsOver, IsAlive, Tracks}
use copilot_review_mcp.Watch.Worker.Replies.{TracksReply, poll_reply-TracksReply}
use copilot_review_mcp.Watch.Worker.Steps.{
  TracksGo, poll_complete-TracksGo, poll_record-Tracks, TracksBegin, poll_begin-TracksBegin,
  mark_stale-IsOver,
}

module _ {S : Type 0} (env : Env S) where
  abbrev Keeps : Manager S → Type 0
  Keeps m = Inv env.format.watch_id m

  -- What a poll leaves, by how it ends.
  abbrev TracksTurn : String → Turn S → Type 0
  TracksTurn id (stops n) = IsOver id n
  TracksTurn id (goes_on n) = IsAlive id n × Keeps n
  TracksTurn id (panicked text n) = Keeps n

  -- What a worker leaves.
  abbrev pub IsTracked : String → Worker S → Type 0
  IsTracked id (running n) = IsAlive id n
  IsTracked id (returned n) = IsOver id n

  turn_of-TracksTurn :
      (id : String) (b : Bool) (n : Manager S)
      → Tracks id (b, n)
      → Keeps n
      → TracksTurn id (turn_of b n)
  turn_of-TracksTurn id true n h k = h
  turn_of-TracksTurn id false n h k = (h, k)

  module _
      (distinct : (t u : Time) (i j : ℕ)
        → env.format.watch_id t i ≡ env.format.watch_id u j
        → i ≡ j) where
    calls-Keeps : (cs : List (Call S)) (m : Manager S) → Keeps m → Keeps (run_calls env cs m)
    calls-Keeps cs m h = Moves-Inv env.format.watch_id (run_calls-Moves env distinct cs m h) h

    after_reply-TracksTurn :
        (id : String) (t : Tick S) (r : Reply) (m : Manager S)
        → TracksReply env id (r, m)
        → Keeps m
        → TracksTurn id (after_reply env id t r m)
    unfolding after_reply
    after_reply-TracksTurn id t (ended b) m tracks h = turn_of-TracksTurn id b m tracks h
    after_reply-TracksTurn id t (answered at d entry) m tracks h =
        let (go, n) = poll_complete env id at d entry m in
        let k : Keeps n =
          Moves-Inv env.format.watch_id (poll_complete-Moves env m h id at d entry) h in
        let o = run_calls env t.meanwhile n in
        let k' = calls-Keeps t.meanwhile n k in
        let (b, n') = poll_record env id at d entry o in
        let l : Keeps n' =
          Moves-Inv env.format.watch_id (poll_record-Moves env o k' id at d entry) k' in
        let record_tracks = poll_record-Tracks env id at d entry o k'.named in
        let go_tracks = poll_complete-TracksGo env id at d entry m h.named in
        elim (Bool-cases go) [
          | inl c ↦ rw c (turn_of-TracksTurn id b n' record_tracks l)
          | inr c ↦ rw c (subst (λ x. TracksGo env id (x, n)) c go_tracks)
        ]

    poll_answered-TracksTurn :
        (id : String) (w : Watch) (t : Tick S) (r : Result ReviewData) (m : Manager S)
        → Keeps m
        → (is_done w m ≡ true → IsOver id m)
        → w.id ≡ id
        → TracksTurn id (poll_answered env id w t r m)
    unfolding poll_answered
    poll_answered-TracksTurn id w t r m h q same =
        let (reply, m') = poll_reply env w t.later r m in
        after_reply-TracksTurn id t reply m'
          (poll_reply-TracksReply env id w t.later r m h.named q same)
          (Moves-Inv env.format.watch_id (poll_reply-Moves env m h w t.later r) h)

    poll_called-TracksTurn :
        (id : String) (w : Watch) (t : Tick S) (a : Answer) (m : Manager S)
        → Keeps m
        → w.id ≡ id
        → TracksTurn id (poll_called env id w t a m)
    unfolding poll_called
    poll_called-TracksTurn id w t (panics text) m h same = h
    poll_called-TracksTurn id w t (replies r) m h same =
        elim (Option-cases (lookup id m.watches_by_id)) [
          | inl q ↦
              let now : current w id m ≡ w = ground arith in
              subst (λ x. TracksTurn id (poll_answered env id x t r m)) (sym now)
                (poll_answered-TracksTurn id w t r m h (λ d. inl q) same)
          | inr (v, q) ↦
              let now : current w id m ≡ v = ground arith in
              subst (λ x. TracksTurn id (poll_answered env id x t r m)) (sym now)
                (poll_answered-TracksTurn id v t r m h (λ d. inr (v, q, inr d)) (h.named id v q))
        ]

    poll_turn-TracksTurn :
        (id : String) (t : Tick S) (m : Manager S) → Keeps m → TracksTurn id (poll_turn env id t m)
    unfolding poll_turn
    poll_turn-TracksTurn id t m h =
        let r = poll_turn env id t m in
        let (c, m') = poll_begin env id t.now m in
        let k : Keeps m' = Moves-Inv env.format.watch_id (poll_begin-Moves env m h id t.now) h in
        elim (Option-cases (lookup id m.watches_by_id)) [
          | inl q ↦
              let same : r ≡ stops m = ground arith in subst (TracksTurn id) (sym same) (inl q)
          | inr (w, q) ↦ elim (Option-cases c) [
            | inl b ↦
                let same : r ≡ stops m' = ground arith in
                subst (TracksTurn id) (sym same) (
                  subst (λ x. TracksBegin env id (x, m')) b
                    (poll_begin-TracksBegin env id t.now m h.named))
            | inr (client, b) ↦
                let n = run_calls env t.during m' in
                let same : r ≡ poll_called env id w t (t.answer client) n = ground arith in
                subst (TracksTurn id) (sym same) (
                  poll_called-TracksTurn id w t (t.answer client) n (calls-Keeps t.during m' k)
                    (h.named id w q))
          ]
        ]

    context_done-IsOver : (id : String) (m : Manager S) → context_done id m ≡ true → IsOver id m
    context_done-IsOver id m h = elim (Option-cases (lookup id m.watches_by_id)) [
      | inl q ↦ inl q
      | inr (w, q) ↦ inr (w, q, inr (ground arith))
    ]

    after_turn-IsTracked :
        (id : String) (at : Time) (rest : Manager S → Worker S) (r : Turn S)
        → TracksTurn id r
        → ((m : Manager S) → Keeps m → IsAlive id m → IsTracked id (rest m))
        → IsTracked id (after_turn env id at rest r)
    unfolding after_turn
    after_turn-IsTracked id at rest (stops m) h k = h
    after_turn-IsTracked id at rest (goes_on m) h k = k m h.1 h.0
    after_turn-IsTracked id at rest (panicked text m) h k =
        mark_stale-IsOver env id text at m h.named

    round-IsTracked :
        (id : String) (wake : Wake S) (wakes : List (Wake S)) (m : Manager S)
        → Keeps m
        → ((n : Manager S) → Keeps n → IsAlive id n → IsTracked id (run_loop env id wakes n))
        → IsTracked id (run_loop env id (wake ∷ wakes) m)
    unfolding run_loop
    round-IsTracked id wake wakes m h k =
        let n = run_calls env wake.before m in
        let h' = calls-Keeps wake.before m h in
        let r = run_loop env id (wake ∷ wakes) m in
        elim (Bool-cases (wake.takes_done && context_done id n)) [
          | inl b ↦
              let same : r ≡ returned n = ground arith in
              subst (IsTracked id) (sym same) (context_done-IsOver id n (ground arith))
          | inr b ↦
              let turn = poll_turn env id wake.tick n in
              let rest = run_loop env id wakes in
              let same : r ≡ after_turn env id wake.tick.panicked_at rest turn = ground arith in
              subst (IsTracked id) (sym same) (
                after_turn-IsTracked id wake.tick.panicked_at rest turn
                  (poll_turn-TracksTurn id wake.tick n h') k)
        ]

    run_loop-IsTracked :
        (id : String) (wakes : List (Wake S)) (m : Manager S)
        → Keeps m
        → IsAlive id m
        → IsTracked id (run_loop env id wakes m)
    unfolding run_loop
    run_loop-IsTracked id [] m h a = a
    run_loop-IsTracked id (wake ∷ wakes) m h a =
        round-IsTracked id wake wakes m h (run_loop-IsTracked id wakes)

    -- Let the watch ids of different sequence numbers differ. Start the worker of a watch after any calls
    -- on a new manager, and let any calls run between its steps. As long as the worker goes on, its
    -- watch lives after every poll; and when it has returned, be it after a poll, for the end of its
    -- context or from a panic of the client, its watch has ended or its context is done.
    pub run-IsTracked :
        (cs : List (Call S)) (db : Option S) (o : Options) (id : String) (t : Tick S)
        (wakes : List (Wake S))
        → IsTracked id (run env id t wakes (run_calls env cs (new_manager db o)))
    unfolding run
    run-IsTracked cs db o id t wakes =
        round-IsTracked id (record { before = []; takes_done = false; tick = t }) wakes
          (run_calls env cs (new_manager db o)) (run_calls-Inv env distinct cs db o)
          (run_loop-IsTracked id wakes)
