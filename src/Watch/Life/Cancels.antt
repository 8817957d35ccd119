-- ===== src/Watch/Life/Cancels.antt =====
-- Cancelling, marking stale and closing move in the abstract machine.
use copilot_review_mcp.Common.{
  eq_iff, ℕ, Time, true, false, String, [], ◌∷◌, Option, none, some, arith, ◌≡◌, ◌⊎◌, ◌==◌, ◌||◌,
  string_eq, Bool-cases, Option-cases, inl, inr, refl, not, is_positive,
}
use copilot_review_mcp.Common.Map.{Map, lookup, lookup-delete}
use copilot_review_mcp.Watch.State.{
  stale, cancelled, WatchKey, key_eq, key_beq_iff, Watch, Manager, Env,
}
use copilot_review_mcp.Watch.Persist.{deactivate, finish_locked}
use copilot_review_mcp.Watch.Cancel.{
  complete_trigger, cancel_live, cancel_by_id, listed_watch, cancel_inactive, cancel_latest,
  mark_stale, close_watch, close_one, close_all, close,
}
use copilot_review_mcp.Watch.Life.{IsWellFormed, Move, kept, Moves, here, next, Inv}
use copilot_review_mcp.Watch.Life.Invariant.{Moves-Inv, Moves-joined, Moves-at}
use copilot_review_mcp.Watch.Life.Finish.{
  SameMaps, IsVersion, finish_locked-Move, persist_ended-Move,
}

module _ {S : Type 0} where
  pub SameMaps-Move : (name : Time → ℕ → String) (m n : Manager S) → SameMaps m n → Move name m n
  SameMaps-Move name m n s =
      kept (λ j. rw s.watches refl) (λ k. rw s.active refl) (λ k. rw s.latest refl)
        (omega (arith, s.seq), s.limit)

  -- A key that names no watch may be dropped.
  pub deactivate-Move :
      (name : Time → ℕ → String) (k : WatchKey) (m : Manager S)
      → lookup k m.active_by_key ≡ none
      → Move name m (deactivate k m)
  unfolding deactivate
  deactivate-Move name k m e =
      kept (λ j. refl) (λ j. ground (arith, lookup-delete k j m.active_by_key, key_beq_iff k j))
        (λ j. refl) (omega arith, refl)

  pub same-IsVersion :
      {name : Time → ℕ → String} (m : Manager S) (id : String) (w : Watch)
      → Inv name m
      → lookup id m.watches_by_id ≡ some w
      → w.terminal ≡ false
      → IsVersion m w w
  same-IsVersion m id w h f t = record {
    found = ground (arith, h.named id w f);
    alive = t;
    same_id = refl;
    same_key = refl;
    same_start = refl;
  }

  module _ (env : Env S) (m : Manager S) (h : Inv env.format.watch_id m) where
    listed_watch-known :
        (k : WatchKey) (w : Watch)
        → listed_watch env k m ≡ some w
        → (lookup w.id m.watches_by_id ≡ some w) × (w.key ≡ k) × (w.terminal ≡ false)
    unfolding listed_watch
    listed_watch-known k w e = elim (Option-cases (lookup k m.active_by_key)) [
      | inl q ↦ ground arith
      | inr (id, q) ↦
          let (v, f, r, t) = h.active_lives k id q in let n = h.named id v f in ground arith
    ]

    listed_watch-none :
        (k : WatchKey) → listed_watch env k m ≡ none → lookup k m.active_by_key ≡ none
    unfolding listed_watch
    listed_watch-none k e = elim (Option-cases (lookup k m.active_by_key)) [
      | inl q ↦ q
      | inr (id, q) ↦ let (v, f, r, t) = h.active_lives k id q in ground arith
    ]

    pub complete_trigger-SameMaps :
        (t : Option ℕ) (n : Manager S) → SameMaps n (complete_trigger env t n)
    unfolding complete_trigger
    complete_trigger-SameMaps none n = ground arith
    complete_trigger-SameMaps (some id) n = ground arith

    cancel_live-Moves :
        (id : String) (w : Watch) (now : Time)
        → lookup id m.watches_by_id ≡ some w
        → Moves env.format.watch_id m (cancel_live env now w m).1
    unfolding cancel_live
    cancel_live-Moves id w now f = elim (Bool-cases w.terminal) [
      | inl t ↦ Moves-at env.format.watch_id (ground arith) here
      | inr t ↦
          let n = finish_locked env w cancelled none now "watch was cancelled manually" none m in
          let o = complete_trigger env w.trigger_log_id n in
          Moves-at env.format.watch_id (ground arith) (
            next
              (next here (
                finish_locked-Move env w w cancelled none now "watch was cancelled manually" none m
                  (same-IsVersion m id w h f t) (ground arith) (ground arith) (ground arith)))
              (SameMaps-Move env.format.watch_id n o
                (complete_trigger-SameMaps w.trigger_log_id n)))
    ]

    pub cancel_by_id-cases :
        (login id : String) (now : Time)
        → ((cancel_by_id env login id now m).1 ≡ m)
          ⊎ ((w : Watch) × (lookup id m.watches_by_id ≡ some w)
              × (w.key.login ≡ login)
              × ((cancel_by_id env login id now m).1 ≡ (cancel_live env now w m).1))
    unfolding cancel_by_id
    cancel_by_id-cases login id now = elim (Option-cases (lookup id m.watches_by_id)) [
      | inl e ↦ inl (ground arith)
      | inr (w, e) ↦ elim (Bool-cases ((login == "" || id == "") || not (w.key.login == login))) [
        | inl b ↦ inl (ground arith)
        | inr b ↦ inr (w, e, ground (arith, eq_iff w.key.login login), ground arith)
      ]
    ]

    pub cancel_by_id-Moves :
        (login id : String) (now : Time)
        → Moves env.format.watch_id m (cancel_by_id env login id now m).1
    cancel_by_id-Moves login id now = elim (cancel_by_id-cases login id now) [
      | inl e ↦ Moves-at env.format.watch_id e here
      | inr (w, f, l, e) ↦ Moves-at env.format.watch_id e (cancel_live-Moves id w now f)
    ]

    cancel_inactive-same : (k : WatchKey) (n : Manager S) → (cancel_inactive env k n).1 ≡ n
    unfolding cancel_inactive
    cancel_inactive-same k n = ground arith

    pub cancel_latest-Moves :
        (k : WatchKey) (now : Time) → Moves env.format.watch_id m (cancel_latest env k now m).1
    unfolding cancel_latest
    cancel_latest-Moves k now =
        elim (Bool-cases
          (k.login == "" || k.owner == "" || k.repo == "" || not (is_positive k.pr))) [
            | inl b ↦ Moves-at env.format.watch_id (ground arith) here
            | inr b ↦ elim (Option-cases (listed_watch env k m)) [
              | inl e ↦
                  Moves-at env.format.watch_id
                    (ground (arith, cancel_inactive-same k (deactivate k m)))
                    (next here (deactivate-Move env.format.watch_id k m (listed_watch-none k e)))
              | inr (w, e) ↦
                  Moves-at env.format.watch_id (ground arith)
                    (cancel_live-Moves w.id w now (listed_watch-known k w e).0)
            ]
          ]

    pub mark_stale-Moves :
        (id text : String) (now : Time) → Moves env.format.watch_id m (mark_stale env id text now m)
    unfolding mark_stale
    mark_stale-Moves id text now = elim (Option-cases (lookup id m.watches_by_id)) [
      | inl e ↦ Moves-at env.format.watch_id (ground arith) here
      | inr (w, e) ↦ elim (Bool-cases w.terminal) [
        | inl t ↦ Moves-at env.format.watch_id (ground arith) here
        | inr t ↦ Moves-at env.format.watch_id (ground arith) (
            next here (
              finish_locked-Move env w w stale none now text none m (same-IsVersion m id w h e t)
                (ground arith) (ground arith) (ground arith)))
      ]
    ]

    close_watch-IsWellFormed :
        (now : Time) (w : Watch) → w.failure_reason ≡ none → IsWellFormed (close_watch env now w)
    unfolding close_watch
    close_watch-IsWellFormed now w e = ground arith

    close_one-Moves :
        (now : Time) (k : WatchKey) → Moves env.format.watch_id m (close_one env now k m)
    unfolding close_one close_watch
    close_one-Moves now k = elim (Option-cases (listed_watch env k m)) [
      | inl e ↦
          Moves-at env.format.watch_id (ground arith)
            (next here (deactivate-Move env.format.watch_id k m (listed_watch-none k e)))
      | inr (w, e) ↦
          let (f, q, t) = listed_watch-known k w e in
          let g = h.formed w.id w f in
          let v = close_watch env now w in
          Moves-at env.format.watch_id (ground arith) (
            next here (
              persist_ended-Move env w v stale now m
                (record {
                  found = f;
                  alive = t;
                  same_id = refl;
                  same_key = refl;
                  same_start = refl;
                })
                (close_watch-IsWellFormed now w (g.unreasoned (ground (arith, g.live t)))) refl))
    ]

  module _ (env : Env S) where
    close_all-Moves :
        (now : Time) (ks : Map WatchKey String) (m : Manager S)
        → Inv env.format.watch_id m
        → Moves env.format.watch_id m (close_all env now ks m)
    unfolding close_all
    close_all-Moves now [] m h = here
    close_all-Moves now ((k, id) ∷ ks) m h =
        let r = close_one-Moves env m h now k in
        Moves-joined env.format.watch_id r
          (close_all-Moves now ks (close_one env now k m) (Moves-Inv env.format.watch_id r h))

    pub close-Moves :
        (m : Manager S)
        → Inv env.format.watch_id m
        → (now : Time) → Moves env.format.watch_id m (close env now m)
    unfolding close
    close-Moves m h now = elim (Bool-cases m.closed) [
      | inl b ↦ Moves-at env.format.watch_id (ground arith) here
      | inr b ↦
          let n : Manager S = record m { closed = true } in
          let r : Moves env.format.watch_id m n =
            next here (SameMaps-Move env.format.watch_id m n (ground arith)) in
          let o = close_all env now m.active_by_key n in
          Moves-at env.format.watch_id (ground arith) (
            next
              (Moves-joined env.format.watch_id r
                (close_all-Moves now m.active_by_key n (Moves-Inv env.format.watch_id r h)))
              (SameMaps-Move env.format.watch_id o (record o { shut_down = true }) (ground arith)))
    ]
