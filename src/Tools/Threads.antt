-- ===== src/Tools/Threads.antt =====
-- internal/tools/threads.go: the handlers that list the review threads, reply to one, resolve one, and
-- do both. `G` is the state of the GitHub service, which the calls pass on; `provider` is what the
-- client provider returns.
pub mod Laws
use copilot_review_mcp.Common.{
  ℕ, zero, suc, ℤ, Bool, true, false, String, List, [], ◌∷◌, Option, none, some, ◌==◌, ◌||◌,
  string_eq, is_positive, map, not, length, ◌+◌, if◌then◌else◌,
}
use copilot_review_mcp.Errors.{GoError, Result, ok, err}
use copilot_review_mcp.Autherr.{AuthErrorType}
use copilot_review_mcp.Github.Threads.{
  ThreadComment, ReviewThread, ReplyResult, ThreadService, is_thread_resolved, reply_to_thread,
  resolve_thread,
}
use copilot_review_mcp.Tools.Reply.{
  ToolReply, output, auth_result, failure, fail_with, try_auth_result, auth_err_string,
}

pub record GetReviewThreadsInput : Type 0 where
  pub owner : String
  pub repo : String
  pub pr : ℤ

pub record ThreadResult : Type 0 where
  pub id : String
  pub path : String
  pub line : Option ℤ
  pub is_resolved : Bool
  pub comments : List ThreadComment

pub record ThreadSummary : Type 0 where
  pub total : ℕ
  pub unresolved : ℕ

pub record GetReviewThreadsOutput : Type 0 where
  pub threads : List ThreadResult
  pub summary : ThreadSummary

-- The result of one thread.
abbrev pub result_of : ReviewThread → ThreadResult
result_of t = record {
  id = t.id;
  path = t.path;
  line = t.line;
  is_resolved = t.is_resolved;
  comments = t.comments;
}

-- `summary.Unresolved` after the loop.
unfoldable pub count_unresolved : List ReviewThread → ℕ → ℕ
count_unresolved [] n = n
count_unresolved (t ∷ ts) n = count_unresolved ts (if not t.is_resolved then n + 1 else n)

-- `error` renders the handlers' own errors.
pub record ThreadEnv : Type 0 where
  pub error : String → GoError
  pub trim_space : String → String
  pub auth_text : AuthErrorType → String → String

-- `getReviewThreadsHandler`; `provider` is a client's answer for the threads.
unfoldable pub get_review_threads_handler :
    ThreadEnv
    → GetReviewThreadsInput
    → Result (Result (List ReviewThread))
    → ToolReply GetReviewThreadsOutput
get_review_threads_handler e i provider =
    if i.owner == "" || i.repo == "" || not (is_positive i.pr)
    then failure (e.error "owner, repo, and pr are required")
    else elim provider [
      | err x ↦ fail_with (λ y. y) x
      | ok (err x) ↦ fail_with (λ y. y) x
      | ok (ok ts) ↦ output (record {
        threads = map result_of ts;
        summary = record { total = length ts; unresolved = count_unresolved ts 0 };
      })
    ]

pub record ReplyToThreadInput : Type 0 where
  pub thread_id : String
  pub body : String

pub record ReplyToThreadOutput : Type 0 where
  pub comment_id : String
  pub created_at : String
  pub warn : Option String

pub record ResolveThreadInput : Type 0 where
  pub thread_id : String

pub record ResolveThreadOutput : Type 0 where
  pub resolved : Bool
  pub already_resolved : Bool

pub record ReplyAndResolveInput : Type 0 where
  pub thread_id : String
  pub body : String
  pub resolve : Bool

pub record ReplyAndResolveOutput : Type 0 where
  pub replied : Bool
  pub resolved : Bool
  pub comment_id : Option String
  pub reply_error : Option String
  pub resolve_error : Option String

-- The guard on a thread and a reply.
abbrev pub reply_error_of : ThreadEnv → String → String → Option GoError
reply_error_of e id body =
    if id == ""
    then some (e.error "threadId is required")
    else if e.trim_space body == ""
    then some (e.error "body must not be empty or whitespace-only")
    else none

-- The text of a failed resolve.
abbrev pub error_text : ThreadEnv → GoError → String
error_text e x = elim (auth_err_string e.auth_text x) [ some t ↦ t | none ↦ x.text ]

-- The output where the reply failed with an error that is not structured.
abbrev pub not_replied : GoError → ReplyAndResolveOutput
not_replied x = record {
  replied = false;
  resolved = false;
  comment_id = none;
  reply_error = some x.text;
  resolve_error = none;
}

module _ {G : Type 0} (e : ThreadEnv) where
  -- `replyToThreadHandler`.
  unfoldable pub reply_to_thread_handler :
      ReplyToThreadInput → Result (ThreadService G) → G → ToolReply ReplyToThreadOutput × G
  reply_to_thread_handler i provider g = elim (reply_error_of e i.thread_id i.body) [
    | some x ↦ (failure x, g)
    | none ↦ elim provider [
      | err x ↦ (fail_with (λ y. y) x, g)
      | ok s ↦ elim (is_thread_resolved s i.thread_id g) [
        | err x ↦ (fail_with (λ y. y) x, g)
        | ok already ↦
            let (r, g') = reply_to_thread s i.thread_id i.body g in
            elim r [
              | err x ↦ (fail_with (λ y. y) x, g')
              | ok c ↦ (
                output (record {
                  comment_id = c.comment_id;
                  created_at = c.created_at;
                  warn = if already then some "thread_already_resolved" else none;
                }),
                g',
              )
            ]
      ]
    ]
  ]

  -- `resolveThreadHandler`.
  unfoldable pub resolve_thread_handler :
      ResolveThreadInput → Result (ThreadService G) → G → ToolReply ResolveThreadOutput × G
  resolve_thread_handler i provider g =
      if i.thread_id == "" then (failure (e.error "threadId is required"), g) else elim provider [
        | err x ↦ (fail_with (λ y. y) x, g)
        | ok s ↦
            let (r, g') = resolve_thread s i.thread_id g in
            elim r [
              | err x ↦ (fail_with (λ y. y) x, g')
              | ok already ↦ (output (record { resolved = true; already_resolved = already }), g')
            ]
      ]

  -- Step 2 of the handler below.
  unfoldable pub resolve_step :
      ThreadService G → ReplyAndResolveInput → ReplyResult → G → ReplyAndResolveOutput × G
  resolve_step s i c g =
      let out : ReplyAndResolveOutput = record {
        replied = true;
        resolved = false;
        comment_id = some c.comment_id;
        reply_error = none;
        resolve_error = none;
      } in
      if not i.resolve
      then (out, g)
      else (let (r, g') = resolve_thread s i.thread_id g in
          elim r [
            | err x ↦ (record out { resolve_error = some (error_text e x) }, g')
            | ok already ↦ (record out { resolved = true }, g')
          ])

  -- `replyAndResolveHandler`.
  unfoldable pub reply_and_resolve_handler :
      ReplyAndResolveInput → Result (ThreadService G) → G → ToolReply ReplyAndResolveOutput × G
  reply_and_resolve_handler i provider g = elim (reply_error_of e i.thread_id i.body) [
    | some x ↦ (failure x, g)
    | none ↦ elim provider [
      | err x ↦ (fail_with (λ y. y) x, g)
      | ok s ↦
          let (r, g') = reply_to_thread s i.thread_id i.body g in
          elim r [
            | err x ↦ elim (try_auth_result x) [
              | some a ↦ (auth_result a, g')
              | none ↦ (output (not_replied x), g')
            ]
            | ok c ↦ let (out, k) = resolve_step s i c g' in (output out, k)
          ]
    ]
  ]
