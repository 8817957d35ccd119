-- ===== src/Tools/Request.antt =====
-- internal/tools/request.go. `G` is the state of GitHub; `between` is what others do to the database
-- before the handler's second and third statement.
pub mod Laws
pub mod Retires
use copilot_review_mcp.Common.{
  ℕ, zero, suc, ℤ, Time, second, Bool, true, false, String, Option, none, some, ◌+◌, is_zero, after,
  if◌then◌else◌,
}
use copilot_review_mcp.Errors.{GoError, Result, ok, err}
use copilot_review_mcp.Github.Review.{ReviewData, PullRequestReview}
use copilot_review_mcp.Github.Request.{RequestApi, request_copilot_review}
use copilot_review_mcp.Store.{Db}
use copilot_review_mcp.Store.Trigger.{
  TriggerEntry, get_latest, has_pending, insert, insert_with_prev_review_id,
}
use copilot_review_mcp.Tools.Reply.{ToolReply, output, failure, fail_with}
use copilot_review_mcp.Tools.Status.{is_missing}

pub record RequestInput : Type 0 where
  pub owner : String
  pub repo : String
  pub pr : ℤ

pub record RequestOutput : Type 0 where
  pub ok : Bool
  pub trigger : String
  pub reason : String
  pub note : String

pub record RequestClient (G : Type 0) : Type 0 where
  pub get_review_data : G → Result ReviewData
  pub api : RequestApi G

pub record RequestEnv : Type 0 where
  pub format_int : ℤ → String
  pub error : String → GoError
  pub wrapped : String → GoError → GoError
  pub between : ℕ → Db → Db

abbrev pub in_progress_output : String → RequestOutput
in_progress_output note = record {
  ok = false;
  trigger = "";
  reason = "REVIEW_IN_PROGRESS";
  note = note;
}

abbrev pub requested_output : RequestOutput
requested_output = record {
  ok = true;
  trigger = "MANUAL";
  reason = "";
  note = "Copilot レビューをリクエストしました。";
}

-- The time of the review that the data shows, where it is not zero.
abbrev pub existing : ReviewData → Option (PullRequestReview × Time)
existing d = elim d.latest_copilot_review [
  | none ↦ none
  | some r ↦ elim r.submitted_at [
    | none ↦ none
    | some sat ↦ if is_zero sat then none else some (r, sat)
  ]
]

abbrev pub is_newer : Time → Option TriggerEntry → Bool
is_newer candidate none = true
is_newer candidate (some x) = after candidate x.requested_at

-- The error of a statement with the handler's text.
abbrev pub noted : RequestEnv → String → Result ℕ × Db → Result ℕ × Db
noted e text (ok id, db) = (ok id, db)
noted e text (err x, db) = (err (e.wrapped text x), db)

abbrev pub not_recorded : String
not_recorded = "copilot review requested successfully, but failed to record MANUAL trigger: %w"

-- The record of the MANUAL trigger.
unfoldable pub record_trigger : RequestEnv → RequestInput → ReviewData → Db → Result ℕ × Db
record_trigger e i d db = elim (existing d) [
  | none ↦ noted e not_recorded (insert i.owner i.repo i.pr "MANUAL" db)
  | some (r, sat) ↦
      let candidate = sat + second in
      elim (get_latest i.owner i.repo i.pr db) [
        | err x ↦ (err (e.wrapped "failed to read trigger_log: %w" x), db)
        | ok latest ↦
            let db' = e.between 1 db in
            if is_newer candidate latest
            then noted e not_recorded (
                insert_with_prev_review_id i.owner i.repo i.pr "MANUAL" candidate
                  (e.format_int r.id) db')
            else noted e not_recorded (insert i.owner i.repo i.pr "MANUAL" db')
      ]
]

module _ {G : Type 0} (e : RequestEnv) where
  -- `requestHandler` after its guards: the call and its record.
  unfoldable pub request_and_record :
      RequestInput → RequestClient G → ReviewData → G → Db → ToolReply RequestOutput × G × Db
  request_and_record i c d g db =
      let (r, g') = request_copilot_review c.api i.pr g in
      elim r [
        | err x ↦ (fail_with (λ y. y) x, g', db)
        | ok u ↦
            let (x, db') = record_trigger e i d db in
            elim x [ err y ↦ (failure y, g', db') | ok id ↦ (output requested_output, g', db') ]
      ]

  -- `requestHandler`.
  unfoldable pub request_handler :
      RequestInput → Result (RequestClient G) → G → Db → ToolReply RequestOutput × G × Db
  request_handler i provider g db =
      if is_missing i.owner i.repo i.pr
      then (failure (e.error "owner, repo, and pr are required"), g, db)
      else elim provider [
        | err x ↦ (fail_with (λ y. y) x, g, db)
        | ok c ↦ elim (has_pending i.owner i.repo i.pr db) [
          | err x ↦ (failure x, g, db)
          | ok true ↦ (output (in_progress_output "この PR の Copilot レビューは既に保留中または進行中です。"), g, db)
          | ok false ↦ elim (c.get_review_data g) [
            | err x ↦ (fail_with (λ y. y) x, g, db)
            | ok d ↦
                if d.is_copilot_in_reviewers
                then (output (in_progress_output "Copilot は既にこの PR のレビュアーとして登録されています。"), g, db)
                else request_and_record i c d g (e.between 0 db)
          ]
        ]
      ]
