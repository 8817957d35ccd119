-- ===== src/Watch/Worker/Turns.antt =====
-- A step of a poll that ends the worker leaves its watch ended, or its context is done; one after which
-- the worker goes on leaves the watch alive.
use mathlib.Core.Path.{subst}
use copilot_review_mcp.Common.{
  ◌+◌, Time, Bool, true, false, String, Option, none, some, arith, ◌≡◌, ◌⊎◌, inl, inr, sym, ap, ◌∙◌,
  string_eq, eq_iff, leb, Bool-cases, Option-cases, if◌then◌else◌,
}
use copilot_review_mcp.Common.Map.{lookup, insert, lookup-insert}
use copilot_review_mcp.Watch.State.{
  Status, watching, failed, FailureReason, auth_expired, Watch, Manager, Env,
}
use copilot_review_mcp.Watch.Persist.{
  mark_poll_locked, finish, notify, deactivate, persist_or_degrade_locked, finish_locked,
}
use copilot_review_mcp.Watch.Outcome.{
  finish_state, escalate, keep_watching, handle_upstream_failure,
}
use copilot_review_mcp.Watch.Poll.{is_done}
use copilot_review_mcp.Watch.Life.Finish.{
  notify-SameMaps, persist-Outcome, id-degraded, degraded, degraded-IsWellFormed, key-finish,
}

module _ {S : Type 0} where
  -- The watch has ended.
  abbrev pub HasEnded : String → Manager S → Type 0
  HasEnded id m = (w : Watch) × (lookup id m.watches_by_id ≡ some w) × (w.terminal ≡ true)

  -- The watch lives.
  abbrev pub IsAlive : String → Manager S → Type 0
  IsAlive id m = (w : Watch) × (lookup id m.watches_by_id ≡ some w) × (w.terminal ≡ false)

  -- The watch has ended, or its context is done; or there is none.
  abbrev pub IsOver : String → Manager S → Type 0
  IsOver id m =
      (lookup id m.watches_by_id ≡ none)
      ⊎ ((w : Watch) × (lookup id m.watches_by_id ≡ some w)
          × ((w.terminal ≡ true) ⊎ (is_done w m ≡ true)))

  pub HasEnded-IsOver : (id : String) (m : Manager S) → HasEnded id m → IsOver id m
  HasEnded-IsOver id m (w, f, t) = inr (w, f, inl t)

  -- What a step of a poll says of the watch by whether it ends the worker.
  abbrev pub Tracks : String → Bool × Manager S → Type 0
  Tracks id (true, n) = IsOver id n
  Tracks id (false, n) = IsAlive id n

  pub lookup-put :
      (id : String) (v : Watch) (m n : Manager S)
      → n.watches_by_id ≡ insert v.id v m.watches_by_id
      → v.id ≡ id
      → lookup id n.watches_by_id ≡ some v
  lookup-put id v m n p h =
      ap (λ ws. lookup id ws) p
      ∙ ground (arith, lookup-insert v.id id v m.watches_by_id, eq_iff v.id id)

  pub notify-watches :
      (uri : Option String) (m : Manager S) → (notify uri m).watches_by_id ≡ m.watches_by_id
  notify-watches uri m = (notify-SameMaps uri m).watches

  module _ (env : Env S) where
    -- The watch after persistOrDegradeLocked: as it was given, or ended.
    persist-ends :
        (id : String) (w : Watch) (intended : Status) (now : Time) (m : Manager S)
        → w.id ≡ id
        → w.terminal ≡ true
        → HasEnded id (persist_or_degrade_locked env w intended now m).1
    persist-ends id w intended now m h t =
        let n = (persist_or_degrade_locked env w intended now m).1 in
        elim (persist-Outcome env w intended now m) [
          | inl (e, p) ↦ (w, lookup-put id w m n p.watches h, t)
          | inr (x, e, p) ↦
              let d = degraded env w intended now x in
              let (same, key) = id-degraded env w intended now x in
              let (f, td) = degraded-IsWellFormed env w intended now x in
              (d, lookup-put id d m n p.watches (same ∙ h), td)
        ]

    pub finish_locked-ends :
        (id : String) (w : Watch) (status : Status) (reason : Option FailureReason) (now : Time)
        (text : String) (hint : Option String) (m : Manager S)
        → w.id ≡ id
        → HasEnded id (finish_locked env w status reason now text hint m)
    unfolding finish_locked
    finish_locked-ends id w status reason now text hint m h =
        let v = finish status reason now text hint w in
        let (same, key, t) = key-finish env w status reason now text hint in
        let n = (persist_or_degrade_locked env v status now (deactivate w.key m)).1 in
        let (u, f, e) = persist-ends id v status now (deactivate w.key m) (same ∙ h) t in
        (u, ap (λ ws. lookup id ws) (notify-watches w.resource_uri n) ∙ f, e)

    pub finish_locked-IsOver :
        (id : String) (w : Watch) (status : Status) (reason : Option FailureReason) (now : Time)
        (text : String) (hint : Option String) (m : Manager S)
        → w.id ≡ id
        → IsOver id (finish_locked env w status reason now text hint m)
    finish_locked-IsOver id w status reason now text hint m h =
        HasEnded-IsOver id (finish_locked env w status reason now text hint m)
          (finish_locked-ends id w status reason now text hint m h)

    -- All watches stand under their ids.
    abbrev pub IsNamed : Manager S → Type 0
    IsNamed m = (id : String) (w : Watch) → lookup id m.watches_by_id ≡ some w → w.id ≡ id

    pub finish_state-IsOver :
        (id : String) (now : Time) (status : Status) (reason : Option FailureReason) (text : String)
        (counted : Bool) (hint : Option String) (m : Manager S)
        → IsNamed m
        → IsOver id (finish_state env id now status reason text counted hint m)
    unfolding finish_state mark_poll_locked
    finish_state-IsOver id now status reason text counted hint m named =
        let n = finish_state env id now status reason text counted hint m in
        elim (Option-cases (lookup id m.watches_by_id)) [
          | inl q ↦ let same : n ≡ m = ground arith in subst (IsOver id) (sym same) (inl q)
          | inr (w, q) ↦ elim (Bool-cases w.terminal) [
            | inl t ↦
                let same : n ≡ m = ground arith in subst (IsOver id) (sym same) (inr (w, q, inl t))
            | inr t ↦
                let v : Watch =
                  if counted then mark_poll_locked now w else record w { updated_at = now } in
                let same : n ≡ finish_locked env v status reason now text hint m = ground arith in
                let id_same : v.id ≡ w.id = ground arith in
                subst (IsOver id) (sym same)
                  (finish_locked-IsOver id v status reason now text hint m (id_same ∙ named id w q))
          ]
        ]

    -- A watch that keeps living is alive afterwards, or the worker ends with it.
    pub keep_watching-Tracks :
        (id : String) (now : Time) (announce : Bool) (w : Watch) (m : Manager S)
        → w.id ≡ id
        → w.terminal ≡ false
        → Tracks id (keep_watching env now announce w m)
    unfolding keep_watching
    keep_watching-Tracks id now announce w m h t =
        let k = keep_watching env now announce w m in
        let n = (persist_or_degrade_locked env w watching now m).1 in
        elim (persist-Outcome env w watching now m) [
          | inl (e, p) ↦
              let same : k ≡ (false, if announce then notify w.resource_uri n else n) =
                ground arith in
              let watches : (if announce then notify w.resource_uri n else n).watches_by_id
                  ≡ n.watches_by_id =
                ground (arith, notify-watches w.resource_uri n) in
              subst (Tracks id) (sym same)
                (w, ap (λ ws. lookup id ws) watches ∙ lookup-put id w m n p.watches h, t)
          | inr (x, e, p) ↦
              let d = degraded env w watching now x in
              let (di, key) = id-degraded env w watching now x in
              let (f, td) = degraded-IsWellFormed env w watching now x in
              let same : k ≡ (true, notify w.resource_uri n) = ground arith in
              subst (Tracks id) (sym same) (
                inr (
                  d,
                  ap (λ ws. lookup id ws) (notify-watches w.resource_uri n)
                      ∙ lookup-put id d m n p.watches (di ∙ h),
                  inl td,
                ))
        ]

    -- A step of a poll whose watch is not there, or has ended.
    pub stops-IsOver :
        (id : String) (m : Manager S) (w : Watch)
        → lookup id m.watches_by_id ≡ some w
        → w.terminal ≡ true
        → IsOver id m
    stops-IsOver id m w q t = inr (w, q, inl t)

    pub handle_upstream_failure-Tracks :
        (id : String) (now : Time) (text : String) (m : Manager S)
        → IsNamed m
        → Tracks id (handle_upstream_failure env id now text m)
    unfolding handle_upstream_failure escalate mark_poll_locked
    handle_upstream_failure-Tracks id now text m named =
        let r = handle_upstream_failure env id now text m in
        elim (Option-cases (lookup id m.watches_by_id)) [
          | inl q ↦ let same : r ≡ (true, m) = ground arith in subst (Tracks id) (sym same) (inl q)
          | inr (w, q) ↦ elim (Bool-cases w.terminal) [
            | inl t ↦
                let same : r ≡ (true, m) = ground arith in
                subst (Tracks id) (sym same) (stops-IsOver id m w q t)
            | inr t ↦
                let v : Watch = record w {
                  upstream_failure_count = w.upstream_failure_count + 1;
                } in
                elim (Bool-cases (leb m.upstream_failure_threshold v.upstream_failure_count)) [
                  | inl b ↦
                      let same : r ≡ (true, escalate env now text v m) = ground arith in
                      subst (Tracks id) (sym same) (
                        finish_locked-IsOver id (mark_poll_locked now v) failed (some auth_expired)
                          now (env.format.upstream_persisted v.upstream_failure_count text)
                          (some (env.format.upstream_hint v.upstream_failure_count)) m
                          (named id w q))
                  | inr b ↦
                      let u : Watch =
                        let x = mark_poll_locked now v in record x { last_error = some text } in
                      let same : r ≡ keep_watching env now false u m = ground arith in
                      subst (Tracks id) (sym same)
                        (keep_watching-Tracks id now false u m (named id w q) t)
                ]
          ]
        ]
