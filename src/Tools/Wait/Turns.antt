-- ===== src/Tools/Wait/Turns.antt =====
-- What one poll of the wait tool leads to.
use mathlib.Core.Path.{subst}
use copilot_review_mcp.Common.{
  ℕ, Time, true, false, Option, none, some, arith, ◌≡◌, ◌⊎◌, ◌≤◌, ◌<◌, ◌+◌, ◌&&◌, inl, inr, refl,
  ltb, int_ltb, Bool-cases,
}
use copilot_review_mcp.Errors.{ok, Result-cases}
use copilot_review_mcp.Github.Review.{ReviewStatus, ReviewData}
use copilot_review_mcp.Store.{Db}
use copilot_review_mcp.Store.Trigger.{TriggerEntry, get_latest}
use copilot_review_mcp.Tools.Reply.{ToolReply, output, fail_with-fails}
use copilot_review_mcp.Tools.Status.{
  StatusEnv, GetStatusOutput, build_status_output, status_of, is_finished, complete_entry,
}
use copilot_review_mcp.Tools.Wait.{
  WaitInput, WaitStatus, reviewed, rate_limited, timeout, cancelled, WaitOutput, WaitWorld, Last,
  is_cancellation, Turn, ended, again, last_output, build_cancelled_output, poll_output,
  take_answer, wait_poll,
}

-- A poll that was answered with data on which a status can rest.
abbrev pub IsAnswered : WaitWorld → ℕ → Type 0
IsAnswered w n =
    (d : ReviewData) × (w.answer n ≡ ok d) × (int_ltb d.rate_limit_remaining 10 ≡ false)

-- What each status of an output says, with the number of polls allowed.
abbrev pub Means : WaitWorld → ℕ → WaitStatus → WaitOutput → Type 0
Means w polls (reviewed s) o =
    (n : ℕ) × (o.polls_done ≡ n + 1)
    × (n < polls)
    × IsAnswered w n
    × (is_finished s ≡ true)
    × (r : GetStatusOutput) × (o.review_status ≡ some r)
    × (r.status ≡ s)
Means w polls rate_limited o =
    (n : ℕ) × (o.polls_done ≡ n + 1)
    × (n < polls)
    × (d : ReviewData) × (w.answer n ≡ ok d)
    × (int_ltb d.rate_limit_remaining 10 ≡ true)
Means w polls timeout o =
    (o.polls_done ≡ polls)
    × ((n : ℕ) → n < polls → IsAnswered w n)
    × (r : GetStatusOutput) × (o.review_status ≡ some r)
    × (is_finished r.status ≡ false)
Means w polls cancelled o = o.polls_done ≤ polls

pub Turn-cases :
    (t : Turn) → ((r : ToolReply WaitOutput) × (t ≡ ended r)) ⊎ ((l : Last) × (t ≡ again l))
Turn-cases (ended r) = inl (r, refl)
Turn-cases (again l) = inr (l, refl)

pub build_status_output-status :
    (e : StatusEnv) (d : ReviewData) (entry : Option TriggerEntry) (s : ReviewStatus) (now : Time)
    → (build_status_output e d entry s now).status ≡ s
unfolding build_status_output
build_status_output-status e d entry s now = refl

module _ (e : StatusEnv) (w : WaitWorld) (i : WaitInput) where
  -- The last result is not finished.
  abbrev pub IsOpen : Option Last → Type 0
  IsOpen none = Unit {0}
  IsOpen (some l) = is_finished l.status ≡ false

  -- A turn that goes on has an answer and is not finished.
  take_answer-again :
      (poll : ℕ) (last : Option Last) (d : ReviewData) (db db' : Db) (l : Last)
      → take_answer e w i poll last d db ≡ (again l, db')
      → (int_ltb d.rate_limit_remaining 10 ≡ false) × (is_finished l.status ≡ false)
  unfolding take_answer
  take_answer-again poll last d db db' l h =
      elim (Result-cases (get_latest i.owner i.repo i.pr db)) [
        | inl (x, q) ↦ ground arith
        | inr (entry, q) ↦ elim (Bool-cases (int_ltb d.rate_limit_remaining 10)) [
          | inl b ↦ ground arith
          | inr b ↦
              let s = status_of e d entry in
              elim (Result-cases (complete_entry s entry (w.before_update poll db)).0) [
                | inl (x, r) ↦ ground arith
                | inr (u, r) ↦ elim (Bool-cases (is_finished s)) [
                  | inl c ↦ ground arith
                  | inr c ↦
                      let m : Last = record { data_of = d; entry_of = entry; status = s } in
                      let same : m ≡ l = ground arith in
                      (b, subst (λ (y : Last). is_finished y.status ≡ false) same c)
                ]
              ]
        ]
      ]

  pub wait_poll-again :
      (poll : ℕ) (last : Option Last) (db db' : Db) (l : Last)
      → wait_poll e w i poll last db ≡ (again l, db')
      → IsAnswered w poll × (is_finished l.status ≡ false)
  unfolding wait_poll
  wait_poll-again poll last db db' l h = elim (Bool-cases (ltb 0 poll && w.stopped poll)) [
    | inl b ↦ ground arith
    | inr b ↦ elim (Result-cases (w.answer poll)) [
      | inl (x, q) ↦ ground arith
      | inr (d, q) ↦
          let k = take_answer-again poll last d (w.before_read poll db) db' l (ground arith) in
          ((d, q, k.0), k.1)
    ]
  ]

  -- A turn that ends with an output.
  take_answer-ended :
      (polls poll : ℕ) (last : Option Last) (d : ReviewData) (db db' : Db) (o : WaitOutput)
      → poll < polls
      → w.answer poll ≡ ok d
      → take_answer e w i poll last d db ≡ (ended (output o), db')
      → Means w polls o.status o
  unfolding take_answer build_cancelled_output
  take_answer-ended polls poll last d db db' o a y h =
      elim (Result-cases (get_latest i.owner i.repo i.pr db)) [
        | inl (x, q) ↦ elim (Bool-cases (is_cancellation x)) [
          | inl b ↦
              let same : build_cancelled_output e w poll last ≡ o = ground arith in
              subst (λ (z : WaitOutput). Means w polls z.status z) same (omega arith)
          | inr b ↦ ground arith
        ]
        | inr (entry, q) ↦
            let s = status_of e d entry in
            let l : Last = record { data_of = d; entry_of = entry; status = s } in
            elim (Bool-cases (int_ltb d.rate_limit_remaining 10)) [
              | inl b ↦
                  let same : poll_output e w poll rate_limited l ≡ o = ground arith in
                  subst (λ (z : WaitOutput). Means w polls z.status z) same (poll, refl, a, d, y, b)
              | inr b ↦ elim (Result-cases (complete_entry s entry (w.before_update poll db)).0) [
                | inl (x, r) ↦ ground arith
                | inr (u, r) ↦ elim (Bool-cases (is_finished s)) [
                  | inr c ↦ ground arith
                  | inl c ↦
                      let same : poll_output e w poll (reviewed s) l ≡ o = ground arith in
                      subst (λ (z : WaitOutput). Means w polls z.status z) same
                        (
                          poll,
                          refl,
                          a,
                          (d, y, b),
                          c,
                          last_output e w poll l,
                          refl,
                          build_status_output-status e d entry s (w.now poll),
                        )
                ]
              ]
            ]
      ]

  pub cancelled-Means :
      (polls poll : ℕ) (last : Option Last) (o : WaitOutput)
      → poll ≤ polls
      → build_cancelled_output e w poll last ≡ o
      → Means w polls o.status o
  unfolding build_cancelled_output
  cancelled-Means polls poll last o a same =
      subst (λ (z : WaitOutput). Means w polls z.status z) same a

  pub wait_poll-ended :
      (polls poll : ℕ) (last : Option Last) (db db' : Db) (o : WaitOutput)
      → poll < polls
      → wait_poll e w i poll last db ≡ (ended (output o), db')
      → Means w polls o.status o
  unfolding wait_poll
  wait_poll-ended polls poll last db db' o a h = elim (Bool-cases (ltb 0 poll && w.stopped poll)) [
    | inl b ↦ cancelled-Means polls poll last o (omega arith) (ground arith)
    | inr b ↦ elim (Result-cases (w.answer poll)) [
      | inl (x, q) ↦ elim (Bool-cases (is_cancellation x)) [
        | inl c ↦ cancelled-Means polls poll last o (omega arith) (ground arith)
        | inr c ↦ ground (arith, fail_with-fails (λ y. y) x o)
      ]
      | inr (d, q) ↦
          take_answer-ended polls poll last d (w.before_read poll db) db' o a q (ground arith)
    ]
  ]
