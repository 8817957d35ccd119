-- ===== src/Watch/Worker/Deadline.antt =====
-- The time limit of a watch: `pollOnce` of internal/watch/manager.go ends a watch that was started
-- too long ago, and its worker returns.
use mathlib.Core.Path.{subst}
use copilot_review_mcp.Common.{
  ◌+◌, ℕ, ◌≤◌, Time, true, false, String, List, [], ◌∷◌, ◌++◌, Option, some, arith, ◌≡◌, inl, inr,
  sym, ◌&&◌, string_eq, eq_iff, Bool-cases, Option-cases, ◌==◌, ◌∙◌, refl,
}
use copilot_review_mcp.Common.Map.{lookup}
use copilot_review_mcp.Watch.State.{Watch, Manager, Env}
use copilot_review_mcp.Watch.Cancel.{mark_stale}
use copilot_review_mcp.Watch.Start.{Options, new_manager}
use copilot_review_mcp.Watch.Poll.{
  Reply, ended, answered, poll_begin, poll_reply, poll_complete, poll_record,
}
use copilot_review_mcp.Watch.Life.{Puts, Move, kept, changed, ends, created, Moves, here, next, Inv}
use copilot_review_mcp.Watch.Life.Invariant.{Moves-Inv}
use copilot_review_mcp.Watch.Life.Polls.{
  poll_begin-Moves, poll_reply-Moves, poll_complete-Moves, poll_record-Moves,
}
use copilot_review_mcp.Watch.Life.Runs.{Call, run_calls, run_calls-Moves, run_calls-Inv}
use copilot_review_mcp.Watch.Worker.{
  Answer, replies, panics, Tick, Wake, Turn, stops, goes_on, panicked, Worker, returned, current,
  context_done, after_reply, poll_answered, poll_called, poll_turn, after_turn, run_loop, run,
}

module _ {S : Type 0} where
  -- The watch with an id has reached its time limit at a time.
  abbrev pub IsDue : String → Time → Manager S → Type 0
  IsDue id at m =
      (w : Watch) × (lookup id m.watches_by_id ≡ some w)
      × (w.started_at + m.max_watch_duration ≤ at)

  put-IsDue :
      (u v : Watch) (m n : Manager S) (id : String) (at : Time)
      → lookup u.id m.watches_by_id ≡ some u
      → v.id ≡ u.id
      → v.started_at ≡ u.started_at
      → Puts v m n
      → n.max_watch_duration ≡ m.max_watch_duration
      → IsDue id at m
      → IsDue id at n
  put-IsDue u v m n id at f i s p k (w, e, b) = elim (Bool-cases (v.id == id)) [
    | inl q ↦
        let same : w ≡ u = ground (arith, eq_iff v.id id) in (v, ground (arith, p id), ground arith)
    | inr q ↦ (w, ground (arith, p id), ground arith)
  ]

  module _ (name : Time → ℕ → String) where
    Move-IsDue :
        {m n : Manager S} (id : String) (at : Time) → Move name m n → IsDue id at m → IsDue id at n
    Move-IsDue id at (kept p a l g) (w, e, b) = (w, p id ∙ e, ground arith)
    Move-IsDue {m} {n} id at (changed u v s t p a l g) d =
        put-IsDue u v m n id at s.found s.same_id s.same_start p g.1 d
    Move-IsDue {m} {n} id at (ends u v s t p a l g) d =
        put-IsDue u v m n id at s.found s.same_id s.same_start p g.1 d
    Move-IsDue {m} {n} id at (created v t x g f k s r p a l) (w, e, b) =
        (w, ground (arith, p id, eq_iff v.id id), ground arith)

    Moves-IsDue :
        {m n : Manager S} (id : String) (at : Time) → Moves name m n → IsDue id at m → IsDue id at n
    Moves-IsDue id at here d = d
    Moves-IsDue id at (next s x) d = Move-IsDue id at x (Moves-IsDue id at s d)

module _ {S : Type 0} (env : Env S) where
  -- What the rest of the loop starts from, if a poll lets it go on.
  abbrev Passes : String → Time → Turn S → Type 0
  Passes id at (stops n) = Unit
  Passes id at (goes_on n) = IsDue id at n × Inv env.format.watch_id n
  Passes id at (panicked text n) = Unit

  module _
      (distinct : (t u : Time) (i j : ℕ)
        → env.format.watch_id t i ≡ env.format.watch_id u j
        → i ≡ j) where
    -- A manager whose maps are tied together and one of whose watches has reached its limit.
    abbrev Late : String → Time → Manager S → Type 0
    Late id at m = IsDue id at m × Inv env.format.watch_id m

    Moves-Late :
        (id : String) (at : Time) {m n : Manager S}
        → Moves env.format.watch_id m n
        → Late id at m
        → Late id at n
    Moves-Late id at s (d, h) =
        (Moves-IsDue env.format.watch_id id at s d, Moves-Inv env.format.watch_id s h)

    calls-Late :
        (id : String) (at : Time) (cs : List (Call S)) (m : Manager S)
        → Late id at m
        → Late id at (run_calls env cs m)
    calls-Late id at cs m h = Moves-Late id at (run_calls-Moves env distinct cs m h.1) h

    after_reply-Passes :
        (id : String) (at : Time) (t : Tick S) (r : Reply) (m : Manager S)
        → Late id at m
        → Passes id at (after_reply env id t r m)
    unfolding after_reply
    after_reply-Passes id at t (ended true) m h = tt
    after_reply-Passes id at t (ended false) m h = h
    after_reply-Passes id at t (answered now d entry) m h =
        let (go, n) = poll_complete env id now d entry m in
        let k : Late id at n = Moves-Late id at (poll_complete-Moves env m h.1 id now d entry) h in
        let o = run_calls env t.meanwhile n in
        let k' = calls-Late id at t.meanwhile n k in
        let (b, n') = poll_record env id now d entry o in
        let l : Late id at n' = Moves-Late id at (poll_record-Moves env o k'.1 id now d entry) k' in
        elim (Bool-cases go) [
          | inl c ↦ elim (Bool-cases b) [ inl c' ↦ rw (c, c') tt | inr c' ↦ rw (c, c') l ]
          | inr c ↦ rw c tt
        ]

    poll_called-Passes :
        (id : String) (at : Time) (w : Watch) (t : Tick S) (a : Answer) (m : Manager S)
        → Late id at m
        → Passes id at (poll_called env id w t a m)
    unfolding poll_called poll_answered
    poll_called-Passes id at w t (panics text) m h = tt
    poll_called-Passes id at w t (replies r) m h =
        let v = current w id m in
        let (reply, m') = poll_reply env v t.later r m in
        after_reply-Passes id at t reply m'
          (Moves-Late id at (poll_reply-Moves env m h.1 v t.later r) h)

    poll_turn-Passes :
        (id : String) (at : Time) (t : Tick S) (m : Manager S)
        → Late id at m
        → Passes id at (poll_turn env id t m)
    unfolding poll_turn
    poll_turn-Passes id at t m h =
        let r = poll_turn env id t m in
        let (c, m') = poll_begin env id t.now m in
        let k : Late id at m' = Moves-Late id at (poll_begin-Moves env m h.1 id t.now) h in
        elim (Option-cases (lookup id m.watches_by_id)) [
          | inl q ↦ let same : r ≡ stops m = ground arith in subst (Passes id at) (sym same) tt
          | inr (w, q) ↦ elim (Option-cases c) [
            | inl b ↦ let same : r ≡ stops m' = ground arith in subst (Passes id at) (sym same) tt
            | inr (client, b) ↦
                let n = run_calls env t.during m' in
                let k' = calls-Late id at t.during m' k in
                let same : r ≡ poll_called env id w t (t.answer client) n = ground arith in
                subst (Passes id at) (sym same)
                  (poll_called-Passes id at w t (t.answer client) n k')
          ]
        ]

    -- A poll at the limit is the last.
    begin_late :
        (id : String) (t : Tick S) (m : Manager S)
        → IsDue id t.now m
        → (n : Manager S) × (poll_turn env id t m ≡ stops n)
    unfolding poll_turn poll_begin
    begin_late id t m (w, e, b) = ((poll_begin env id t.now m).1, ground arith)

    Returns : Worker S → Type 0
    Returns r = (n : Manager S) × (r ≡ returned n)

    after_turn-Returns :
        (id : String) (at now : Time) (rest : Manager S → Worker S) (r : Turn S)
        → Passes id at r
        → ((m : Manager S) → Late id at m → Returns (rest m))
        → Returns (after_turn env id now rest r)
    unfolding after_turn Returns
    after_turn-Returns id at now rest (stops m) h k = (m, refl)
    after_turn-Returns id at now rest (goes_on m) h k = k m h
    after_turn-Returns id at now rest (panicked text m) h k = (mark_stale env id text now m, refl)

    run_loop-Returns :
        (id : String) (before : List (Wake S)) (wake : Wake S) (after : List (Wake S))
        (m : Manager S)
        → Late id wake.tick.now m
        → Returns (run_loop env id (before ++ wake ∷ after) m)
    unfolding run_loop Returns after_turn
    run_loop-Returns id [] wake after m h =
        let n = run_calls env wake.before m in
        let h' = calls-Late id wake.tick.now wake.before m h in
        let (o, e) = begin_late id wake.tick n h'.0 in
        elim (Bool-cases (wake.takes_done && context_done id n)) [
          | inl b ↦ (n, ground arith)
          | inr b ↦ (o, ground arith)
        ]
    run_loop-Returns id (first ∷ before) wake after m h =
        let n = run_calls env first.before m in
        let h' = calls-Late id wake.tick.now first.before m h in
        let r = run_loop env id (first ∷ (before ++ wake ∷ after)) m in
        let rest = run_loop env id (before ++ wake ∷ after) in
        let turn = poll_turn env id first.tick n in
        elim (Bool-cases (first.takes_done && context_done id n)) [
          | inl b ↦ (n, ground arith)
          | inr b ↦
              let same : r ≡ after_turn env id first.tick.panicked_at rest turn = ground arith in
              subst Returns (sym same) (
                after_turn-Returns id wake.tick.now first.tick.panicked_at rest turn
                  (poll_turn-Passes id wake.tick.now first.tick n h')
                  (run_loop-Returns id before wake after))
        ]

    -- Let the watch ids of different sequence numbers differ. Start the worker of a watch that stands
    -- in the manager after any calls on a new one, and let any calls run between its steps. If a
    -- round of the loop polls when the watch has stood for the maximal duration or longer, the worker
    -- has returned by the end of that round, whatever GitHub answers and whatever the other calls do.
    pub run_returns :
        (cs : List (Call S)) (db : Option S) (o : Options) (id : String) (t : Tick S)
        (before : List (Wake S)) (wake : Wake S) (after : List (Wake S))
        → IsDue id wake.tick.now (run_calls env cs (new_manager db o))
        → (n : Manager S) × (run env id t
              (before ++ wake ∷ after)
              (run_calls env cs (new_manager db o))
            ≡ returned n)
    unfolding run Returns
    run_returns cs db o id t before wake after d =
        run_loop-Returns id ((record { before = []; takes_done = false; tick = t }) ∷ before) wake
          after (run_calls env cs (new_manager db o)) (d, run_calls-Inv env distinct cs db o)
