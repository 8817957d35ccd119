-- ===== src/Watch/Life.antt =====
-- The life of the watches of a manager as an abstract state machine: a watch is created for a key
-- that has none, is changed while it lives, and ends once. The children show that every call of
-- internal/watch/manager.go moves in this machine, and what the machine keeps.
pub mod Invariant
pub mod Finish
pub mod Starts
pub mod Cancels
pub mod Polls
pub mod Runs
pub mod Closing
pub mod Isolation
use copilot_review_mcp.Common.{
  ℕ, suc, ◌≤◌, Time, Bool, true, false, String, Option, none, some, ◌≡◌, ◌≢◌, ◌==◌, string_eq,
  is_some, if◌then◌else◌,
}
use copilot_review_mcp.Common.Map.{lookup}
use copilot_review_mcp.Watch.State.{
  Status, watching, failed, stale, WatchKey, key_eq, Watch, Manager,
}

-- What the fields of one watch say together.
pub record IsWellFormed (w : Watch) : Type 0 where
  pub live :
      w.terminal ≡ false
      → (w.status ≡ watching)
        × (w.worker_running ≡ true)
        × (is_some w.client ≡ true)
        × (w.completed_at ≡ none)
  pub ended :
      w.terminal ≡ true
      → (w.status ≢ watching)
        × (w.worker_running ≡ false)
        × (w.client ≡ none)
        × (w.token ≡ "")
        × (w.cancelled ≡ true)
        × (is_some w.completed_at ≡ true)
  pub reasoned : w.status ≡ failed → is_some w.failure_reason ≡ true
  pub unreasoned : w.status ≢ failed → w.failure_reason ≡ none
  pub dated : w.status ≡ stale → is_some w.stale_at ≡ true

module _ {S : Type 0} where
  -- The watch stands in the map, alive, and another may take its place.
  pub record IsSuccessor (m : Manager S) (w v : Watch) : Type 0 where
    pub found : lookup w.id m.watches_by_id ≡ some w
    pub alive : w.terminal ≡ false
    pub same_id : v.id ≡ w.id
    pub same_key : v.key ≡ w.key
    pub same_start : v.started_at ≡ w.started_at
    pub formed : IsWellFormed v

  -- The map of the watches differs at one id.
  abbrev pub Puts : Watch → Manager S → Manager S → Type 0
  Puts v m n =
      (j : String)
      → lookup j n.watches_by_id ≡ (if v.id == j then some v else lookup j m.watches_by_id)

  abbrev pub SameActive : Manager S → Manager S → Type 0
  SameActive m n = (k : WatchKey) → lookup k n.active_by_key ≡ lookup k m.active_by_key

  abbrev pub SameLatest : Manager S → Manager S → Type 0
  SameLatest m n = (k : WatchKey) → lookup k n.latest_by_key ≡ lookup k m.latest_by_key

  abbrev pub SameWatches : Manager S → Manager S → Type 0
  SameWatches m n = (j : String) → lookup j n.watches_by_id ≡ lookup j m.watches_by_id

  -- The sequence numbers only grow, and the time that a watch may last stays.
  abbrev pub Counts : Manager S → Manager S → Type 0
  Counts m n = (m.id_seq ≤ n.id_seq) × (n.max_watch_duration ≡ m.max_watch_duration)

  -- `name t i` is the id of the i-th watch, created at t.
  pub data Move (name : Time → ℕ → String) (m n : Manager S) : Type 0 where
    kept : SameWatches m n → SameActive m n → SameLatest m n → Counts m n → Move name m n
    changed :
        (w v : Watch)
        → IsSuccessor m w v
        → v.terminal ≡ false
        → Puts v m n
        → SameActive m n
        → SameLatest m n
        → Counts m n
        → Move name m n
    ends :
        (w v : Watch)
        → IsSuccessor m w v
        → v.terminal ≡ true
        → Puts v m n
        → ((k : WatchKey)
            → lookup k n.active_by_key ≡ (if v.key == k then none else lookup k m.active_by_key))
        → SameLatest m n
        → Counts m n
        → Move name m n
    created :
        (v : Watch) (t : Time)
        → v.id ≡ name t (suc m.id_seq)
        → (suc m.id_seq ≤ n.id_seq) × (n.max_watch_duration ≡ m.max_watch_duration)
        → lookup v.id m.watches_by_id ≡ none
        → lookup v.key m.active_by_key ≡ none
        → IsWellFormed v
        → v.terminal ≡ false
        → Puts v m n
        → ((k : WatchKey)
            → lookup k n.active_by_key
              ≡ (if v.key == k then some v.id else lookup k m.active_by_key))
        → ((k : WatchKey)
            → lookup k n.latest_by_key
              ≡ (if v.key == k then some v.id else lookup k m.latest_by_key))
        → Move name m n

  -- Several moves, one after the other.
  pub data Moves (name : Time → ℕ → String) (m : Manager S) : Manager S → Type 0 where
    here : Moves name m m
    next : {n o : Manager S} → Moves name m n → Move name n o → Moves name m o

  -- What ties the maps of a manager together.
  pub record Inv (name : Time → ℕ → String) (m : Manager S) : Type 0 where
    pub named : (id : String) (w : Watch) → lookup id m.watches_by_id ≡ some w → w.id ≡ id
    pub formed : (id : String) (w : Watch) → lookup id m.watches_by_id ≡ some w → IsWellFormed w
    pub active_lives :
        (k : WatchKey) (id : String)
        → lookup k m.active_by_key ≡ some id
        → (w : Watch) × (lookup id m.watches_by_id ≡ some w) × (w.key ≡ k) × (w.terminal ≡ false)
    pub alive_listed :
        (id : String) (w : Watch)
        → lookup id m.watches_by_id ≡ some w
        → w.terminal ≡ false
        → lookup w.key m.active_by_key ≡ some id
    pub latest_known :
        (k : WatchKey) (id : String)
        → lookup k m.latest_by_key ≡ some id
        → (w : Watch) × (lookup id m.watches_by_id ≡ some w) × (w.key ≡ k)
    pub numbered :
        (id : String) (w : Watch)
        → lookup id m.watches_by_id ≡ some w
        → (t : Time) × (i : ℕ) × (id ≡ name t i) × (i ≤ m.id_seq)
