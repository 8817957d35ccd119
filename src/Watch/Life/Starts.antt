-- ===== src/Watch/Life/Starts.antt =====
-- `Start` moves in the abstract machine, where the ids that are rendered for two sequence numbers
-- differ.

use copilot_review_mcp.Common.{
  ℕ, suc, Time, Bool, false, String, Option, none, some, arith, ◌≡◌, ◌⊎◌, ◌==◌, ◌||◌, string_eq,
  is_positive, not, Bool-cases, Option-cases, inl, inr, refl, ◌∙◌,
}
use copilot_review_mcp.Common.Map.{lookup, insert, lookup-insert, lookup-delete}
use copilot_review_mcp.Errors.{Result-cases}
use copilot_review_mcp.Watch.State.{WatchKey, key_eq, key_beq_iff, Watch, Manager, Env, StartInput}
use copilot_review_mcp.Watch.Persist.{deactivate, put_watch, persist_locked}
use copilot_review_mcp.Watch.Start.{
  new_watch, refresh, active_watch, read_trigger, reuse, create, start_locked, start,
}
use copilot_review_mcp.Watch.Life.{IsWellFormed, kept, created, Moves, here, next, Inv}
use copilot_review_mcp.Watch.Life.Invariant.{Moves-Inv, Moves-joined, Moves-at}
use copilot_review_mcp.Watch.Life.Finish.{IsPut, IsPut-Move, persist-SameMaps}
use copilot_review_mcp.Watch.Life.Cancels.{deactivate-Move}

refresh-same :
    (token : String) (t : Option ℕ) (now : Time) (w : Watch)
    → ((refresh token t now w).id ≡ w.id)
      × ((refresh token t now w).key ≡ w.key)
      × ((refresh token t now w).terminal ≡ w.terminal)
      × ((refresh token t now w).started_at ≡ w.started_at)
unfolding refresh
refresh-same token t now w = ground arith

refresh-IsWellFormed :
    (token : String) (t : Option ℕ) (now : Time) (w : Watch)
    → w.terminal ≡ false
    → IsWellFormed w
    → IsWellFormed (refresh token t now w)
unfolding refresh
refresh-IsWellFormed token t now w e f = ground (arith, f)

module _ {S : Type 0} where
  active_watch-known :
      {name : Time → ℕ → String} (k : WatchKey) (m : Manager S) (w : Watch)
      → Inv name m
      → active_watch k m ≡ some w
      → (lookup w.id m.watches_by_id ≡ some w) × (w.key ≡ k) × (w.terminal ≡ false)
  unfolding active_watch
  active_watch-known k m w h e = elim (Option-cases (lookup k m.active_by_key)) [
    | inl q ↦ ground arith
    | inr (id, q) ↦
        let (v, f, r, t) = h.active_lives k id q in let n = h.named id v f in ground arith
  ]

  active_watch-none :
      {name : Time → ℕ → String} (k : WatchKey) (m : Manager S)
      → Inv name m
      → active_watch k m ≡ none
      → lookup k m.active_by_key ≡ none
  unfolding active_watch
  active_watch-none k m h e = elim (Option-cases (lookup k m.active_by_key)) [
    | inl q ↦ q
    | inr (id, q) ↦ let (v, f, r, t) = h.active_lives k id q in ground arith
  ]

  deactivate_gone : (k : WatchKey) (m : Manager S) → lookup k (deactivate k m).active_by_key ≡ none
  unfolding deactivate
  deactivate_gone k m = ground (arith, lookup-delete k k m.active_by_key, key_beq_iff k k)

  module _ (env : Env S) where
    reuse-IsPut :
        (i : StartInput) (t : Option ℕ) (now : Time) (w : Watch) (m : Manager S)
        → IsPut (refresh i.token t now w) m (reuse env i t now w m).1
    unfolding reuse put_watch
    reuse-IsPut i t now w m =
        let v = refresh i.token t now w in
        let s = persist-SameMaps env v (put_watch v m) in ground arith

    reuse-Moves :
        (i : StartInput) (t : Option ℕ) (now : Time) (k : WatchKey) (w : Watch) (m : Manager S)
        → Inv env.format.watch_id m
        → active_watch k m ≡ some w
        → Moves env.format.watch_id m (reuse env i t now w m).1
    reuse-Moves i t now k w m h e =
        let (f, q, b) = active_watch-known k m w h e in
        let (x, y, z, started) = refresh-same i.token t now w in
        next here (
          IsPut-Move env.format.watch_id w (refresh i.token t now w) m (reuse env i t now w m).1
            (record {
              found = f;
              alive = b;
              same_id = x;
              same_key = y;
              same_start = started;
              formed = refresh-IsWellFormed i.token t now w b (h.formed w.id w f);
            })
            (z ∙ b) (reuse-IsPut i t now w m))

    -- The fields of the manager after a creation that failed to persist, and after one that did not.
    create-cases :
        (i : StartInput) (k : WatchKey) (t : Option ℕ) (now id_now : Time) (m : Manager S)
        → let id = env.format.watch_id id_now (suc m.id_seq) in
          let v = new_watch id k t (env.format.resource_uri id) i.token now m.shut_down in
          let n = (create env i k t now id_now m).1 in
          ((n.watches_by_id ≡ m.watches_by_id)
            × (n.active_by_key ≡ m.active_by_key)
            × (n.latest_by_key ≡ m.latest_by_key)
            × (n.id_seq ≡ suc m.id_seq)
            × (n.max_watch_duration ≡ m.max_watch_duration))
          ⊎ ((n.watches_by_id ≡ insert id v m.watches_by_id)
              × (n.active_by_key ≡ insert k id m.active_by_key)
              × (n.latest_by_key ≡ insert k id m.latest_by_key)
              × (n.id_seq ≡ suc m.id_seq)
              × (n.max_watch_duration ≡ m.max_watch_duration))
    unfolding create
    create-cases i k t now id_now m =
        let id = env.format.watch_id id_now (suc m.id_seq) in
        let v = new_watch id k t (env.format.resource_uri id) i.token now m.shut_down in
        let m' : Manager S = record m { id_seq = suc m.id_seq } in
        let s = persist-SameMaps env v m' in
        elim (Result-cases (persist_locked env v m').0) [
          | inl (x, q) ↦ inl (ground arith)
          | inr (u, q) ↦ inr (ground arith)
        ]

    start-cases :
        (i : StartInput) (now id_now : Time) (m : Manager S)
        → ((start env i now id_now m).1 ≡ m)
          ⊎ ((t : Option ℕ) × ((start env i now id_now m).1
                ≡ (start_locked env i t now id_now m).1))
    unfolding start
    start-cases i now id_now m =
        elim (Bool-cases (
          i.login == ""
          || i.token == ""
          || i.owner == ""
          || i.repo == ""
          || not (is_positive i.pr))) [
            | inl b ↦ inl (ground arith)
            | inr b ↦ elim (Result-cases (read_trigger env i m)) [
              | inl (x, q) ↦ inl (ground arith)
              | inr (t, q) ↦ inr (t, ground arith)
            ]
          ]

    module _
        (distinct : (t u : Time) (i j : ℕ)
          → env.format.watch_id t i ≡ env.format.watch_id u j
          → i ≡ j) where
      -- The next id names no watch.
      fresh :
          (m : Manager S) (t : Time)
          → Inv env.format.watch_id m
          → lookup (env.format.watch_id t (suc m.id_seq)) m.watches_by_id ≡ none
      fresh m t h =
          let id = env.format.watch_id t (suc m.id_seq) in
          elim (Option-cases (lookup id m.watches_by_id)) [
            | inl e ↦ e
            | inr (w, e) ↦
                let (u, i, q, b) = h.numbered id w e in
                let same = distinct t u (suc m.id_seq) i q in ground arith
          ]

      new_watch-IsWellFormed :
          (id : String) (k : WatchKey) (t : Option ℕ) (uri token : String) (now : Time) (c : Bool)
          → IsWellFormed (new_watch id k t uri token now c)
      unfolding new_watch
      new_watch-IsWellFormed id k t uri token now c = ground arith

      create-Moves :
          (i : StartInput) (k : WatchKey) (t : Option ℕ) (now id_now : Time) (m : Manager S)
          → Inv env.format.watch_id m
          → lookup k m.active_by_key ≡ none
          → Moves env.format.watch_id m (create env i k t now id_now m).1
      unfolding new_watch
      create-Moves i k t now id_now m h e =
          let id = env.format.watch_id id_now (suc m.id_seq) in
          let v = new_watch id k t (env.format.resource_uri id) i.token now m.shut_down in
          let n = (create env i k t now id_now m).1 in
          elim (create-cases i k t now id_now m) [
            | inl (w, a, l, q, d) ↦
                next here
                  (kept (λ j. rw w refl) (λ j. rw a refl) (λ j. rw l refl) (omega (arith, q), d))
            | inr (w, a, l, q, d) ↦ next here (
                created v id_now refl (omega (arith, q), d) (fresh m id_now h) e
                  (new_watch-IsWellFormed id k t (env.format.resource_uri id) i.token now
                    m.shut_down)
                  refl (λ j. rw w (lookup-insert id j v m.watches_by_id))
                  (λ j. rw a (lookup-insert k j id m.active_by_key))
                  (λ j. rw l (lookup-insert k j id m.latest_by_key)))
          ]

      start_locked-Moves :
          (i : StartInput) (t : Option ℕ) (now id_now : Time) (m : Manager S)
          → Inv env.format.watch_id m
          → Moves env.format.watch_id m (start_locked env i t now id_now m).1
      unfolding start_locked
      start_locked-Moves i t now id_now m h =
          let k : WatchKey = record {
            login = i.login;
            owner = i.owner;
            repo = i.repo;
            pr = i.pr;
          } in
          let d = deactivate k m in
          elim (Bool-cases m.closed) [
            | inl b ↦ Moves-at env.format.watch_id (ground arith) here
            | inr b ↦ elim (Option-cases (active_watch k m)) [
              | inl e ↦
                  let v = deactivate-Move env.format.watch_id k m (active_watch-none k m h e) in
                  let r = next here v in
                  Moves-at env.format.watch_id (ground arith) (
                    Moves-joined env.format.watch_id r (
                      create-Moves i k t now id_now d (Moves-Inv env.format.watch_id r h)
                        (deactivate_gone k m)))
              | inr (w, e) ↦
                  Moves-at env.format.watch_id (ground arith) (reuse-Moves i t now k w m h e)
            ]
          ]

      pub start-Moves :
          (m : Manager S)
          → Inv env.format.watch_id m
          → (i : StartInput) (now id_now : Time)
          → Moves env.format.watch_id m (start env i now id_now m).1
      unfolding start
      start-Moves m h i now id_now = elim (start-cases i now id_now m) [
        | inl e ↦ Moves-at env.format.watch_id e here
        | inr (t, e) ↦ Moves-at env.format.watch_id e (start_locked-Moves i t now id_now m h)
      ]
