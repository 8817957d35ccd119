-- ===== src/Watch/Life/Finish.antt =====
-- `persistOrDegradeLocked`, `finishLocked` and their callers move in the abstract machine.
use copilot_review_mcp.Common.{
  ℕ, Time, true, false, String, Option, none, some, arith, ◌≡◌, ◌≢◌, ◌⊎◌, string_eq, is_some, inl,
  inr, refl, ◌∙◌,
}
use copilot_review_mcp.Common.Map.{
  lookup, insert, delete, lookup-insert, lookup-delete, delete_twice,
}
use copilot_review_mcp.Errors.{GoError, Result, ok, err}
use copilot_review_mcp.Watch.State.{
  Status, watching, failed, stale, FailureReason, WatchKey, key_eq, Watch, Manager, Env,
}
use copilot_review_mcp.Watch.Persist.{
  finish, degrade, put_watch, deactivate, notify, persist_locked, degrade_on,
  persist_or_degrade_locked, finish_locked,
}
use copilot_review_mcp.Watch.Life.{IsWellFormed, IsSuccessor, Puts, Move, changed, ends}

module _ {S : Type 0} where
  -- The maps of two managers are the same.
  pub record SameMaps (m n : Manager S) : Type 0 where
    pub watches : n.watches_by_id ≡ m.watches_by_id
    pub active : n.active_by_key ≡ m.active_by_key
    pub latest : n.latest_by_key ≡ m.latest_by_key
    pub seq : n.id_seq ≡ m.id_seq
    pub limit : n.max_watch_duration ≡ m.max_watch_duration

  pub notify-SameMaps : (uri : Option String) (m : Manager S) → SameMaps m (notify uri m)
  unfolding notify
  notify-SameMaps none m = ground arith
  notify-SameMaps (some uri) m = ground arith

  -- A watch was put, alive or not.
  pub record IsPut (w : Watch) (m n : Manager S) : Type 0 where
    pub watches : n.watches_by_id ≡ insert w.id w m.watches_by_id
    pub active : n.active_by_key ≡ m.active_by_key
    pub latest : n.latest_by_key ≡ m.latest_by_key
    pub seq : n.id_seq ≡ m.id_seq
    pub limit : n.max_watch_duration ≡ m.max_watch_duration

  pub record IsEnd (w : Watch) (m n : Manager S) : Type 0 where
    pub watches : n.watches_by_id ≡ insert w.id w m.watches_by_id
    pub active : n.active_by_key ≡ delete w.key m.active_by_key
    pub latest : n.latest_by_key ≡ m.latest_by_key
    pub seq : n.id_seq ≡ m.id_seq
    pub limit : n.max_watch_duration ≡ m.max_watch_duration

  module _ (env : Env S) where
    pub persist-SameMaps : (w : Watch) (m : Manager S) → SameMaps m (persist_locked env w m).1
    unfolding persist_locked
    persist-SameMaps w m = ground arith

    abbrev pub degraded : Watch → Status → Time → GoError → Watch
    degraded w intended now e = degrade (env.format.persist_failed intended e) intended now w

    -- The watch is put as it is, or degraded and deactivated.
    abbrev pub Outcome : Watch → Status → Time → Manager S → Option GoError × Manager S → Type 0
    Outcome w intended now m (r, n) =
        ((r ≡ none) × IsPut w m n)
        ⊎ ((e : GoError) × (r ≡ some e) × IsEnd (degraded w intended now e) m n)

    degrade_on-Outcome :
        (w : Watch) (intended : Status) (now : Time) (m m' : Manager S) (r : Result (Unit {0}))
        → SameMaps m m'
        → Outcome w intended now m (degrade_on env w intended now r m')
    unfolding degrade_on put_watch deactivate degrade
    degrade_on-Outcome w intended now m m' (ok u) s = inl (refl, ground arith)
    degrade_on-Outcome w stale now m m' (err e) s = inr (e, refl, ground arith)
    degrade_on-Outcome w intended now m m' (err e) s = inr (e, refl, ground arith)

    pub persist-Outcome :
        (w : Watch) (intended : Status) (now : Time) (m : Manager S)
        → Outcome w intended now m (persist_or_degrade_locked env w intended now m)
    unfolding persist_or_degrade_locked
    persist-Outcome w intended now m =
        let (r, m') = persist_locked env w m in
        degrade_on-Outcome w intended now m m' r (persist-SameMaps w m)

    pub id-degraded :
        (w : Watch) (intended : Status) (now : Time) (e : GoError)
        → ((degraded w intended now e).id ≡ w.id) × ((degraded w intended now e).key ≡ w.key)
    unfolding degrade
    id-degraded w intended now e = ground arith

    start-degraded :
        (w : Watch) (intended : Status) (now : Time) (e : GoError)
        → (degraded w intended now e).started_at ≡ w.started_at
    unfolding degrade
    start-degraded w intended now e = ground arith

    pub degraded-IsWellFormed :
        (w : Watch) (intended : Status) (now : Time) (e : GoError)
        → IsWellFormed (degraded w intended now e) × ((degraded w intended now e).terminal ≡ true)
    unfolding degrade
    degraded-IsWellFormed w intended now e = (ground arith, ground arith)

    finish-IsWellFormed :
        (w : Watch) (status : Status) (reason : Option FailureReason) (now : Time) (text : String)
        (hint : Option String)
        → status ≢ watching
        → (status ≡ failed → is_some reason ≡ true)
        → (status ≢ failed → reason ≡ none)
        → IsWellFormed (finish status reason now text hint w)
    unfolding finish
    finish-IsWellFormed w status reason now text hint a b c = ground arith

  -- The maps after a put, read at a key.
  Puts-IsPut : (v : Watch) (m n : Manager S) → IsPut v m n → Puts v m n
  Puts-IsPut v m n p j = rw p.watches (lookup-insert v.id j v m.watches_by_id)

  Puts-IsEnd : (v : Watch) (m n : Manager S) → IsEnd v m n → Puts v m n
  Puts-IsEnd v m n p j = rw p.watches (lookup-insert v.id j v m.watches_by_id)

  pub IsEnd-Move :
      (name : Time → ℕ → String) (u v : Watch) (m n : Manager S)
      → IsSuccessor m u v
      → v.terminal ≡ true
      → IsEnd v m n
      → Move name m n
  IsEnd-Move name u v m n s t p =
      ends u v s t (Puts-IsEnd v m n p) (λ k. rw p.active (lookup-delete v.key k m.active_by_key))
        (λ k. rw p.latest refl) (omega (arith, p.seq), p.limit)

  -- A live watch of the map, and a version of it to record.
  pub record IsVersion (m : Manager S) (u w : Watch) : Type 0 where
    pub found : lookup u.id m.watches_by_id ≡ some u
    pub alive : u.terminal ≡ false
    pub same_id : w.id ≡ u.id
    pub same_key : w.key ≡ u.key
    pub same_start : w.started_at ≡ u.started_at

  IsEnd-SameMaps : (v : Watch) (m n o : Manager S) → IsEnd v m n → SameMaps n o → IsEnd v m o
  IsEnd-SameMaps v m n o p s = ground arith

  IsPut-SameMaps : (v : Watch) (m n o : Manager S) → IsPut v m n → SameMaps n o → IsPut v m o
  IsPut-SameMaps v m n o p s = ground arith

  pub IsPut-Move :
      (name : Time → ℕ → String) (u v : Watch) (m n : Manager S)
      → IsSuccessor m u v
      → v.terminal ≡ false
      → IsPut v m n
      → Move name m n
  IsPut-Move name u v m n s t p =
      changed u v s t (Puts-IsPut v m n p) (λ k. rw p.active refl) (λ k. rw p.latest refl)
        (omega (arith, p.seq), p.limit)

  module _ (env : Env S) where
    IsPut-deactivated :
        (v : Watch) (k : WatchKey) (m n : Manager S)
        → v.key ≡ k
        → IsPut v (deactivate k m) n
        → IsEnd v m n
    unfolding deactivate
    IsPut-deactivated v k m n e p = ground arith

    IsEnd-deactivated :
        (v : Watch) (k : WatchKey) (m n : Manager S)
        → v.key ≡ k
        → IsEnd v (deactivate k m) n
        → IsEnd v m n
    unfolding deactivate
    IsEnd-deactivated v k m n e p = ground (arith, delete_twice k m.active_by_key)

    successor :
        (m : Manager S) (u w v : Watch)
        → IsVersion m u w
        → v.id ≡ w.id
        → v.key ≡ w.key
        → v.started_at ≡ w.started_at
        → IsWellFormed v
        → IsSuccessor m u v
    successor m u w v s i k b f = record {
      found = s.found;
      alive = s.alive;
      same_id = i ∙ s.same_id;
      same_key = k ∙ s.same_key;
      same_start = b ∙ s.same_start;
      formed = f;
    }

    pub key-finish :
        (w : Watch) (status : Status) (reason : Option FailureReason) (now : Time) (text : String)
        (hint : Option String)
        → ((finish status reason now text hint w).id ≡ w.id)
          × ((finish status reason now text hint w).key ≡ w.key)
          × ((finish status reason now text hint w).terminal ≡ true)
    unfolding finish
    key-finish w status reason now text hint = ground arith

    start-finish :
        (w : Watch) (status : Status) (reason : Option FailureReason) (now : Time) (text : String)
        (hint : Option String)
        → (finish status reason now text hint w).started_at ≡ w.started_at
    unfolding finish
    start-finish w status reason now text hint = refl

    -- Ending a live watch with a status other than WATCHING, and with a reason exactly if it failed,
    -- is a move, whether or not the watch can be persisted.
    pub finish_locked-Move :
        (u w : Watch) (status : Status) (reason : Option FailureReason) (now : Time) (text : String)
        (hint : Option String) (m : Manager S)
        → IsVersion m u w
        → status ≢ watching
        → (status ≡ failed → is_some reason ≡ true)
        → (status ≢ failed → reason ≡ none)
        → Move env.format.watch_id m (finish_locked env w status reason now text hint m)
    unfolding finish_locked
    finish_locked-Move u w status reason now text hint m s a b c =
        let v = finish status reason now text hint w in
        let n = persist_or_degrade_locked env v status now (deactivate w.key m) in
        let o = notify w.resource_uri n.1 in
        let same = notify-SameMaps w.resource_uri n.1 in
        let (i, k, t) = key-finish w status reason now text hint in
        elim (persist-Outcome env v status now (deactivate w.key m)) [
          | inl (e, p) ↦
              IsEnd-Move env.format.watch_id u v m o
                (successor m u w v s i k (start-finish w status reason now text hint)
                  (finish-IsWellFormed env w status reason now text hint a b c))
                t (IsEnd-SameMaps v m n.1 o (IsPut-deactivated v w.key m n.1 k p) same)
          | inr (x, e, p) ↦
              let d = degraded env v status now x in
              let (di, dk) = id-degraded env v status now x in
              let (f, td) = degraded-IsWellFormed env v status now x in
              IsEnd-Move env.format.watch_id u d m o
                (successor m u w d s (di ∙ i) (dk ∙ k)
                  (start-degraded env v status now x ∙ start-finish w status reason now text hint)
                  f)
                td (IsEnd-SameMaps d m n.1 o (IsEnd-deactivated d w.key m n.1 (dk ∙ k) p) same)
        ]

    -- A watch that keeps living is persisted and put, or ended where that fails.
    pub persist_or_degrade-Move :
        (u w : Watch) (intended : Status) (now : Time) (m : Manager S)
        → IsVersion m u w
        → IsWellFormed w
        → w.terminal ≡ false
        → Move env.format.watch_id m (persist_or_degrade_locked env w intended now m).1
    persist_or_degrade-Move u w intended now m s f t =
        let n = (persist_or_degrade_locked env w intended now m).1 in
        elim (persist-Outcome env w intended now m) [
          | inl (e, p) ↦
              IsPut-Move env.format.watch_id u w m n (successor m u w w s refl refl refl f) t p
          | inr (x, e, p) ↦
              let d = degraded env w intended now x in
              let (di, dk) = id-degraded env w intended now x in
              let (g, td) = degraded-IsWellFormed env w intended now x in
              IsEnd-Move env.format.watch_id u d m n
                (successor m u w d s di dk (start-degraded env w intended now x) g) td p
        ]

    -- So is one that was made terminal before.
    pub persist_ended-Move :
        (u w : Watch) (intended : Status) (now : Time) (m : Manager S)
        → IsVersion m u w
        → IsWellFormed w
        → w.terminal ≡ true
        → Move env.format.watch_id m
            (deactivate w.key (persist_or_degrade_locked env w intended now m).1)
    unfolding deactivate
    persist_ended-Move u w intended now m s f t =
        let n = (persist_or_degrade_locked env w intended now m).1 in
        elim (persist-Outcome env w intended now m) [
          | inl (e, p) ↦
              IsEnd-Move env.format.watch_id u w m (deactivate w.key n)
                (successor m u w w s refl refl refl f) t (ground arith)
          | inr (x, e, p) ↦
              let d = degraded env w intended now x in
              let (di, dk) = id-degraded env w intended now x in
              let (g, td) = degraded-IsWellFormed env w intended now x in
              IsEnd-Move env.format.watch_id u d m (deactivate w.key n)
                (successor m u w d s di dk (start-degraded env w intended now x) g) td
                (ground (arith, delete_twice w.key m.active_by_key))
        ]
