-- ===== src/Watch/Life/Runs.antt =====
-- Every sequence of the calls of a manager, in any order: the exported functions, the pieces of the
-- polls of all workers, and the writes of other parts of the program to the database.
use copilot_review_mcp.Common.{
  ℕ, Time, true, false, String, List, [], ◌∷◌, Option, none, some, arith, ◌≡◌, string_eq,
}
use copilot_review_mcp.Common.Map.{lookup}
use copilot_review_mcp.Errors.{Result}
use copilot_review_mcp.Github.Review.{ReviewData}
use copilot_review_mcp.Store.Trigger.{TriggerEntry}
use copilot_review_mcp.Watch.State.{WatchKey, key_eq, Watch, Manager, Env, StartInput}
use copilot_review_mcp.Watch.Start.{Options, new_manager, start}
use copilot_review_mcp.Watch.Cancel.{cancel_by_id, cancel_latest, mark_stale, close}
use copilot_review_mcp.Watch.Poll.{poll_begin, poll_reply, poll_complete, poll_record}
use copilot_review_mcp.Watch.Life.{Moves, here, next, Inv}
use copilot_review_mcp.Watch.Life.Invariant.{Moves-Inv, Moves-ended, Moves-joined}
use copilot_review_mcp.Watch.Life.Cancels.{
  SameMaps-Move, cancel_by_id-Moves, cancel_latest-Moves, mark_stale-Moves, close-Moves,
}
use copilot_review_mcp.Watch.Life.Starts.{start-Moves}
use copilot_review_mcp.Watch.Life.Polls.{
  poll_begin-Moves, poll_reply-Moves, poll_complete-Moves, poll_record-Moves,
}

-- One call, with the times that it reads and what other code answers it.
pub data Call (S : Type 0) : Type 0 where
  starts : StartInput → Time → Time → Call S
  cancels_id : String → String → Time → Call S
  cancels_latest : WatchKey → Time → Call S
  marks_stale : String → String → Time → Call S
  closes : Time → Call S
  begins_poll : String → Time → Call S
  replies : Watch → Time → Result ReviewData → Call S
  completes : String → Time → ReviewData → Option TriggerEntry → Call S
  records : String → Time → ReviewData → Option TriggerEntry → Call S
  writes : (S → S) → Call S

module _ {S : Type 0} (env : Env S) where
  unfoldable pub run_call : Call S → Manager S → Manager S
  run_call (starts i now id_now) m = (start env i now id_now m).1
  run_call (cancels_id login id now) m = (cancel_by_id env login id now m).1
  run_call (cancels_latest k now) m = (cancel_latest env k now m).1
  run_call (marks_stale id text now) m = mark_stale env id text now m
  run_call (closes now) m = close env now m
  run_call (begins_poll id now) m = (poll_begin env id now m).1
  run_call (replies w now r) m = (poll_reply env w now r m).1
  run_call (completes id now d t) m = (poll_complete env id now d t m).1
  run_call (records id now d t) m = (poll_record env id now d t m).1
  run_call (writes f) m = elim m.db [ none ↦ m | some s ↦ record m { db = some (f s) } ]

  unfoldable pub run_calls : List (Call S) → Manager S → Manager S
  run_calls [] m = m
  run_calls (c ∷ cs) m = run_calls cs (run_call c m)

  module _
      (distinct : (t u : Time) (i j : ℕ)
        → env.format.watch_id t i ≡ env.format.watch_id u j
        → i ≡ j) where
    run_call-Moves :
        (c : Call S) (m : Manager S)
        → Inv env.format.watch_id m
        → Moves env.format.watch_id m (run_call c m)
    unfolding run_call
    run_call-Moves (starts i now id_now) m h = start-Moves env distinct m h i now id_now
    run_call-Moves (cancels_id login id now) m h = cancel_by_id-Moves env m h login id now
    run_call-Moves (cancels_latest k now) m h = cancel_latest-Moves env m h k now
    run_call-Moves (marks_stale id text now) m h = mark_stale-Moves env m h id text now
    run_call-Moves (closes now) m h = close-Moves env m h now
    run_call-Moves (begins_poll id now) m h = poll_begin-Moves env m h id now
    run_call-Moves (replies w now r) m h = poll_reply-Moves env m h w now r
    run_call-Moves (completes id now d t) m h = poll_complete-Moves env m h id now d t
    run_call-Moves (records id now d t) m h = poll_record-Moves env m h id now d t
    run_call-Moves (writes f) m h =
        next here (SameMaps-Move env.format.watch_id m (run_call (writes f) m) (ground arith))

    pub run_calls-Moves :
        (cs : List (Call S)) (m : Manager S)
        → Inv env.format.watch_id m
        → Moves env.format.watch_id m (run_calls cs m)
    unfolding run_calls
    run_calls-Moves [] m h = here
    run_calls-Moves (c ∷ cs) m h =
        let r = run_call-Moves c m h in
        Moves-joined env.format.watch_id r
          (run_calls-Moves cs (run_call c m) (Moves-Inv env.format.watch_id r h))

    new_manager-Inv : (db : Option S) (o : Options) → Inv env.format.watch_id (new_manager db o)
    unfolding new_manager lookup
    new_manager-Inv db o = ground arith

    -- Let the watch ids of different sequence numbers differ. Then after any sequence of calls on a new
    -- manager every watch is well-formed, every active key names a live watch of that key, every live
    -- watch is the active one of its key, and every latest key names a watch of that key.
    pub run_calls-Inv :
        (cs : List (Call S)) (db : Option S) (o : Options)
        → Inv env.format.watch_id (run_calls cs (new_manager db o))
    run_calls-Inv cs db o =
        let h = new_manager-Inv db o in
        Moves-Inv env.format.watch_id (run_calls-Moves cs (new_manager db o) h) h

    -- Let the watch ids of different sequence numbers differ. Then every sequence of calls on a new
    -- manager is a run of the abstract machine of the watches: it goes through moves that keep the
    -- watches, change a live one, end a live one for its key, or create one under a free id and key;
    -- no move alters the id, the key or the start of a watch, or the maximal duration.
    pub run_calls-refines :
        (cs : List (Call S)) (db : Option S) (o : Options)
        → Moves env.format.watch_id (new_manager db o) (run_calls cs (new_manager db o))
    run_calls-refines cs db o = run_calls-Moves cs (new_manager db o) (new_manager-Inv db o)

    -- Let the watch ids of different sequence numbers differ. Then after any sequence of calls on a new
    -- manager, two live watches of one key are the same watch.
    pub one_live_watch :
        (cs : List (Call S)) (db : Option S) (o : Options) (i j : String) (v w : Watch)
        → lookup i (run_calls cs (new_manager db o)).watches_by_id ≡ some v
        → lookup j (run_calls cs (new_manager db o)).watches_by_id ≡ some w
        → v.terminal ≡ false
        → w.terminal ≡ false
        → v.key ≡ w.key
        → i ≡ j
    one_live_watch cs db o i j v w e f a b k =
        let h = run_calls-Inv cs db o in
        ground (arith, h.alive_listed i v e a, h.alive_listed j w f b)

    -- Let the watch ids of different sequence numbers differ. Then a watch that is terminal after some
    -- calls on a new manager is the same, in every field, after any further calls.
    pub terminal_for_ever :
        (cs ds : List (Call S)) (db : Option S) (o : Options) (id : String) (w : Watch)
        → lookup id (run_calls cs (new_manager db o)).watches_by_id ≡ some w
        → w.terminal ≡ true
        → lookup id (run_calls ds (run_calls cs (new_manager db o))).watches_by_id ≡ some w
    terminal_for_ever cs ds db o id w e t =
        let m = run_calls cs (new_manager db o) in
        Moves-ended env.format.watch_id id w (run_calls-Moves ds m (run_calls-Inv cs db o)) e t
