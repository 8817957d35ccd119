-- ===== src/Tools/Request/Laws.antt =====
-- A request is made once: what it records keeps a second one away.

use copilot_review_mcp.Common.{
  ℕ, ℤ, Time, second, true, false, String, arith, ◌≡◌, ◌⊎◌, ◌+◌, inl, inr, refl, string_eq,
  Bool-cases, Option-cases, eq_iff, int_beq_iff,
}
use copilot_review_mcp.Errors.{Result, ok, err, Result-cases}
use copilot_review_mcp.Github.Review.{ReviewData}
use copilot_review_mcp.Github.Request.{request_copilot_review}
use copilot_review_mcp.Store.{Db}
use copilot_review_mcp.Store.Trigger.{get_latest, has_pending, insert, insert_with_prev_review_id}
use copilot_review_mcp.Tools.Reply.{output, fail_with-fails}
use copilot_review_mcp.Tools.Status.{is_missing}
use copilot_review_mcp.Tools.Request.{
  RequestInput, RequestOutput, RequestClient, RequestEnv, in_progress_output, requested_output,
  existing, is_newer, noted, not_recorded, record_trigger, request_and_record, request_handler,
}

-- What is inserted is pending.
has_pending-insert :
    (owner repo : String) (pr : ℤ) (trigger : String) (d d' : Db) (id : ℕ)
    → insert owner repo pr trigger d ≡ (ok id, d')
    → has_pending owner repo pr d' ≡ ok true
unfolding has_pending insert
has_pending-insert owner repo pr trigger d d' id h =
    ground (arith, eq_iff owner owner, eq_iff repo repo, int_beq_iff pr pr)

has_pending-insert_prev :
    (owner repo : String) (pr : ℤ) (trigger : String) (at : Time) (prev : String) (d d' : Db)
    (id : ℕ)
    → insert_with_prev_review_id owner repo pr trigger at prev d ≡ (ok id, d')
    → has_pending owner repo pr d' ≡ ok true
unfolding has_pending insert_with_prev_review_id
has_pending-insert_prev owner repo pr trigger at prev d d' id h =
    ground (arith, eq_iff owner owner, eq_iff repo repo, int_beq_iff pr pr)

pub noted_lem :
    (e : RequestEnv) (text : String) (r : Result ℕ × Db) (id : ℕ) (db : Db)
    → noted e text r ≡ (ok id, db)
    → r ≡ (ok id, db)
noted_lem e text (ok n, d) id db h = h
noted_lem e text (err x, d) id db h = ground arith

record_trigger-pending :
    (e : RequestEnv) (i : RequestInput) (d : ReviewData) (db db' : Db) (id : ℕ)
    → record_trigger e i d db ≡ (ok id, db')
    → has_pending i.owner i.repo i.pr db' ≡ ok true
unfolding record_trigger
record_trigger-pending e i d db db' id h = elim (Option-cases (existing d)) [
  | inl q ↦
      has_pending-insert i.owner i.repo i.pr "MANUAL" db db' id
        (noted_lem e not_recorded (insert i.owner i.repo i.pr "MANUAL" db) id db' (ground arith))
  | inr ((r, sat), q) ↦ elim (Result-cases (get_latest i.owner i.repo i.pr db)) [
    | inl (x, g) ↦ ground arith
    | inr (latest, g) ↦ elim (Bool-cases (is_newer (sat + second) latest)) [
      | inl b ↦
          has_pending-insert_prev i.owner i.repo i.pr "MANUAL" (sat + second) (e.format_int r.id)
            (e.between 1 db) db' id
            (noted_lem e not_recorded
              (insert_with_prev_review_id i.owner i.repo i.pr "MANUAL" (sat + second)
                (e.format_int r.id) (e.between 1 db))
              id db' (ground arith))
      | inr b ↦ has_pending-insert i.owner i.repo i.pr "MANUAL" (e.between 1 db) db' id (
          noted_lem e not_recorded (insert i.owner i.repo i.pr "MANUAL" (e.between 1 db)) id db'
            (ground arith))
    ]
  ]
]

-- What the two kinds of output come from.
abbrev pub IsRefused : {G : Type 0} → RequestOutput → G → G → Db → Db → Type 0
IsRefused o g g' db db' = (o.ok ≡ false) × (o.reason ≡ "REVIEW_IN_PROGRESS") × (g' ≡ g) × (db' ≡ db)

abbrev pub IsRequested :
    {G : Type 0}
    → RequestEnv
    → RequestInput
    → Result (RequestClient G)
    → RequestOutput
    → G
    → G
    → Db
    → Db
    → Type 0
IsRequested {G} e i provider o g g' db db' =
    (o ≡ requested_output)
    × (has_pending i.owner i.repo i.pr db ≡ ok false)
    × (c : RequestClient G) × (provider ≡ ok c)
    × (request_copilot_review c.api i.pr g ≡ (ok tt, g'))
    × (d : ReviewData) × (c.get_review_data g ≡ ok d)
    × (d.is_copilot_in_reviewers ≡ false)
    × (id : ℕ) × (record_trigger e i d (e.between 0 db) ≡ (ok id, db'))

request_and_record-output :
    {G : Type 0} (e : RequestEnv) (i : RequestInput) (c : RequestClient G) (d : ReviewData)
    (g g' : G) (db db' : Db) (o : RequestOutput)
    → request_and_record e i c d g db ≡ (output o, g', db')
    → (o ≡ requested_output)
      × (request_copilot_review c.api i.pr g ≡ (ok tt, g'))
      × (id : ℕ) × (record_trigger e i d db ≡ (ok id, db'))
unfolding request_and_record
request_and_record-output e i c d g g' db db' o h =
    elim (Result-cases (request_copilot_review c.api i.pr g).0) [
      | inl (x, q) ↦ ground (arith, fail_with-fails (λ y. y) x o)
      | inr (u, q) ↦ elim (Result-cases (record_trigger e i d db).0) [
        | inl (x, r) ↦ ground arith
        | inr (id, r) ↦ (ground arith, ground arith, id, ground arith)
      ]
    ]

-- An output of request_copilot_review is one of two. Either it refuses with REVIEW_IN_PROGRESS, and
-- neither GitHub nor the database has changed. Or it reports a request: then no trigger was pending,
-- the data that was read did not have Copilot among the reviewers, the call of RequestCopilotReview
-- succeeded, and the trigger was recorded.
pub request_handler-outputs :
    {G : Type 0} (e : RequestEnv) (i : RequestInput) (provider : Result (RequestClient G))
    (g g' : G) (db db' : Db) (o : RequestOutput)
    → request_handler e i provider g db ≡ (output o, g', db')
    → IsRefused o g g' db db' ⊎ IsRequested e i provider o g g' db db'
unfolding request_handler
request_handler-outputs e i provider g g' db db' o h =
    elim (Bool-cases (is_missing i.owner i.repo i.pr)) [
      | inl b ↦ ground arith
      | inr b ↦ elim (Result-cases provider) [
        | inl (x, q) ↦ ground (arith, fail_with-fails (λ y. y) x o)
        | inr (c, q) ↦ elim (Result-cases (has_pending i.owner i.repo i.pr db)) [
          | inl (x, p) ↦ ground arith
          | inr (true, p) ↦ inl (ground arith)
          | inr (false, p) ↦ elim (Result-cases (c.get_review_data g)) [
            | inl (x, r) ↦ ground (arith, fail_with-fails (λ y. y) x o)
            | inr (d, r) ↦ elim (Bool-cases d.is_copilot_in_reviewers) [
              | inl k ↦ inl (ground arith)
              | inr k ↦
                  let (same, call, id, done) =
                    request_and_record-output e i c d g g' (e.between 0 db) db' o (ground arith) in
                  inr (same, p, c, q, call, d, r, k, id, done)
            ]
          ]
        ]
      ]
    ]

-- After a request was reported, the tool refuses the next one for the same pull request, whichever
-- client it is made with and whatever GitHub says by then: no call changes GitHub and the database stays
-- as it is.
pub request_handler-once :
    {G : Type 0} (e : RequestEnv) (i : RequestInput) (provider : Result (RequestClient G))
    (g g' : G) (db db' : Db) (o : RequestOutput) (later : RequestClient G) (h : G)
    → request_handler e i provider g db ≡ (output o, g', db')
    → o.ok ≡ true
    → (p : RequestOutput) × (request_handler e i (ok later) h db' ≡ (output p, h, db'))
      × (p.ok ≡ false)
      × (p.reason ≡ "REVIEW_IN_PROGRESS")
unfolding request_handler
request_handler-once e i provider g g' db db' o later h k y =
    elim (request_handler-outputs e i provider g g' db db' o k) [
      | inl r ↦ ground arith
      | inr (same, p, c, q, call, d, r, n, id, done) ↦
          let pending = record_trigger-pending e i d (e.between 0 db) db' id done in
          elim (Bool-cases (is_missing i.owner i.repo i.pr)) [
            | inl b ↦ ground arith
            | inr b ↦
                (in_progress_output "この PR の Copilot レビューは既に保留中または進行中です。", ground arith, refl, refl)
          ]
    ]
