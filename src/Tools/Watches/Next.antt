-- ===== src/Tools/Watches/Next.antt =====
-- What the view tells the caller to do next: to poll exactly while the watch lives, and when.

use copilot_review_mcp.Common.{
  ℕ, Time, second, false, String, Option, none, some, arith, ◌≡◌, ◌↔◌, ◌≤◌, ◌<◌, ◌+◌, ◌-◌, ◌*◌, inl,
  inr, refl, sym, ap, ◌∙◌, string_eq, nat_beq, leb, Bool-cases, if◌then◌else◌,
}
use copilot_review_mcp.Watch.State.{
  Watch, Snapshot, Status, status_text, watching, completed, blocked, timeout, rate_limited, failed,
  stale, cancelled, snapshot_from_state,
}
use copilot_review_mcp.Watch.Life.{IsWellFormed}
use copilot_review_mcp.Tools.Watches.View.{
  NextAction, poll_after, read_review_threads, start_new_watch, reauth_and_start_new_watch,
  check_failure, duration_seconds_ceil, interval_or_default, seconds_until_next_poll,
  is_auth_expired, derive_recommended_next_action, build_review_watch_view,
}

-- The action by status.
abbrev action_for : Status → Option String → NextAction
action_for watching r = poll_after
action_for completed r = read_review_threads
action_for blocked r = read_review_threads
action_for timeout r = start_new_watch
action_for rate_limited r = start_new_watch
action_for stale r = start_new_watch
action_for cancelled r = start_new_watch
action_for failed r = if is_auth_expired r then reauth_and_start_new_watch else check_failure

abbrev failed_pair : Option String → NextAction × Option ℕ
failed_pair r =
    if is_auth_expired r then (reauth_and_start_new_watch, none) else (check_failure, none)

failed_action : (r : Option String) → (failed_pair r).0 ≡ action_for failed r
failed_action r = elim (Bool-cases (is_auth_expired r)) [ inl b ↦ rw b refl | inr b ↦ rw b refl ]

derive_lem :
    (st : Status) (s : Snapshot) (interval : ℕ) (now : Time)
    → s.watch_status ≡ status_text st
    → (derive_recommended_next_action s interval now).0 ≡ action_for st s.failure_reason
unfolding derive_recommended_next_action
derive_lem watching s interval now h = rw h refl
derive_lem completed s interval now h = rw h refl
derive_lem blocked s interval now h = rw h refl
derive_lem timeout s interval now h = rw h refl
derive_lem rate_limited s interval now h = rw h refl
derive_lem stale s interval now h = rw h refl
derive_lem cancelled s interval now h = rw h refl
derive_lem failed s interval now h = rw h (failed_action s.failure_reason)

derive_watching :
    (s : Snapshot) (interval : ℕ) (now : Time)
    → s.watch_status ≡ status_text watching
    → derive_recommended_next_action s interval now
      ≡ (poll_after, some (seconds_until_next_poll s.last_polled_at interval now))
unfolding derive_recommended_next_action
derive_watching s interval now h = rw h refl

only_watching : (st : Status) (r : Option String) → action_for st r ≡ poll_after → st ≡ watching
only_watching watching r h = refl
only_watching completed r h = ground arith
only_watching blocked r h = ground arith
only_watching timeout r h = ground arith
only_watching rate_limited r h = ground arith
only_watching stale r h = ground arith
only_watching cancelled r h = ground arith
only_watching failed r h = ground arith

duration_seconds_ceil_lem :
    (d : ℕ)
    → (1 ≤ duration_seconds_ceil d)
      × (d ≤ duration_seconds_ceil d * second)
      × (0 < d → duration_seconds_ceil d * second < d + second)
unfolding duration_seconds_ceil
duration_seconds_ceil_lem d = elim (Bool-cases (nat_beq d 0)) [
  | inl b ↦ ground arith
  | inr b ↦ ground arith
]

-- A number of seconds to wait, after a poll at a time or before the first one: at least one; by then
-- the next poll is due; and no more than the poll interval, rounded up to seconds.
abbrev pub IsTimely : ℕ → Option Time → Time → ℕ → Type 0
IsTimely interval none now n = n ≡ 1
IsTimely interval (some polled) now n =
    (1 ≤ n)
    × (polled + interval_or_default interval ≤ now + n * second)
    × (polled ≤ now → n * second < interval_or_default interval + second)

seconds-IsTimely :
    (interval : ℕ) (polled : Option Time) (now : Time)
    → IsTimely interval polled now (seconds_until_next_poll polled interval now)
unfolding seconds_until_next_poll
seconds-IsTimely interval none now = refl
seconds-IsTimely interval (some polled) now =
    let due = polled + interval_or_default interval in
    let positive : 0 < interval_or_default interval = ground arith in
    elim (Bool-cases (leb due now)) [
      | inl b ↦ ground arith
      | inr b ↦ let k = duration_seconds_ceil_lem (due - now) in ground arith
    ]

-- The view of a well-formed watch tells its reader to poll again if and only if the watch has not
-- ended. It then names a number of seconds: one before the first poll; after a poll at least one, such
-- that the next poll of the worker is due by then, and not above the poll interval rounded up.
pub view-poll_after_iff :
    (rfc3339 : Time → String) (w : Watch) (interval : ℕ) (now : Time)
    → IsWellFormed w
    → let v = build_review_watch_view rfc3339 (snapshot_from_state w) interval now in
      ((v.recommended_next_action ≡ poll_after) ↔ (v.terminal ≡ false))
      × (v.terminal ≡ false
          → (n : ℕ) × (v.next_poll_seconds ≡ some n) × IsTimely interval w.last_polled_at now n)
unfolding build_review_watch_view snapshot_from_state
view-poll_after_iff rfc3339 w interval now h =
    let s = snapshot_from_state w in
    let action = derive_lem w.status s interval now refl in
    let lives =
      λ (t : w.terminal ≡ false). derive_watching s interval now (ap status_text (h.live t).0) in
    (
      (
        (λ a.
            let st = only_watching w.status s.failure_reason (sym action ∙ a) in
            elim (Bool-cases w.terminal) [ inl t ↦ absurd ((h.ended t).0 st) | inr t ↦ t ]),
        (λ t. ap (λ (p : NextAction × Option ℕ). p.0) (lives t)),
      ),
      (λ t. (
        seconds_until_next_poll w.last_polled_at interval now,
        ap (λ (p : NextAction × Option ℕ). p.1) (lives t),
        seconds-IsTimely interval w.last_polled_at now,
      )),
    )
