-- ===== src/Tools/Threads/Laws.antt =====
-- What the outputs of the thread tools say about the threads and about the calls that were made.
use copilot_review_mcp.Common.{
  ℕ, true, false, List, [], ◌∷◌, none, arith, ◌≡◌, ◌≤◌, ◌+◌, inl, inr, map, not, length, length-map,
  keep, is_some, Bool-cases, Option-cases,
}
use copilot_review_mcp.Errors.{Result, ok, err, Result-cases}
use copilot_review_mcp.Github.Threads.{
  ReviewThread, ReplyResult, ThreadService, reply_to_thread, resolve_thread,
}
use copilot_review_mcp.Github.Threads.Laws.{Resolves, resolve_thread-Resolves}
use copilot_review_mcp.Tools.Reply.{output, fail_with-fails, try_auth_result}
use copilot_review_mcp.Tools.Threads.{
  GetReviewThreadsInput, GetReviewThreadsOutput, ThreadResult, result_of, count_unresolved,
  ThreadEnv, get_review_threads_handler, ReplyAndResolveInput, ReplyAndResolveOutput, resolve_step,
  reply_error_of, reply_and_resolve_handler,
}

abbrev pub open_results : List ThreadResult → ℕ
open_results rs = length (keep (λ (r : ThreadResult). not r.is_resolved) rs)

count_unresolved_lem :
    (ts : List ReviewThread) (n : ℕ) → count_unresolved ts n ≡ n + open_results (map result_of ts)
unfolding count_unresolved
count_unresolved_lem [] n = omega arith
count_unresolved_lem (t ∷ ts) n =
    let a = count_unresolved_lem ts n in let b = count_unresolved_lem ts (n + 1) in ground arith

open_results-le : (rs : List ThreadResult) → open_results rs ≤ length rs
open_results-le [] = omega arith
open_results-le (r ∷ rs) = ground (arith, open_results-le rs)

-- What get_review_threads puts out: one result for each thread of the client, in order, and a summary
-- that counts the results and those that are not resolved, so that the second number is not above the
-- first.
pub get_review_threads_handler-summary :
    (e : ThreadEnv) (i : GetReviewThreadsInput) (provider : Result (Result (List ReviewThread)))
    (o : GetReviewThreadsOutput)
    → get_review_threads_handler e i provider ≡ output o
    → ((ts : List ReviewThread) × (provider ≡ ok (ok ts)) × (o.threads ≡ map result_of ts))
      × (o.summary.total ≡ length o.threads)
      × (o.summary.unresolved ≡ open_results o.threads)
      × (o.summary.unresolved ≤ o.summary.total)
unfolding get_review_threads_handler
get_review_threads_handler-summary e i provider o h = elim (Result-cases provider) [
  | inl (x, q) ↦ ground (arith, fail_with-fails (λ y. y) x o)
  | inr (err x, q) ↦ ground (arith, fail_with-fails (λ y. y) x o)
  | inr (ok ts, q) ↦
      let threads : o.threads ≡ map result_of ts = ground arith in
      let total : o.summary.total ≡ length o.threads = ground (arith, length-map result_of ts) in
      let unresolved : o.summary.unresolved ≡ open_results o.threads =
        ground (arith, count_unresolved_lem ts 0) in
      ((ts, q, threads), total, unresolved, omega (arith, open_results-le o.threads))
]

-- The fields of the output agree with one another and with what was asked for.
abbrev pub IsHonest : ReplyAndResolveInput → ReplyAndResolveOutput → Type 0
IsHonest i o =
    (is_some o.comment_id ≡ o.replied)
    × (is_some o.reply_error ≡ not o.replied)
    × (o.resolved ≡ true → (o.replied ≡ true) × (i.resolve ≡ true) × (o.resolve_error ≡ none))
    × (o.replied ≡ true → i.resolve ≡ true → o.resolved ≡ false → is_some o.resolve_error ≡ true)
    × (is_some o.resolve_error ≡ true → (o.replied ≡ true) × (i.resolve ≡ true))

resolve_step-IsHonest :
    {G : Type 0} (e : ThreadEnv) (s : ThreadService G) (i : ReplyAndResolveInput) (c : ReplyResult)
    (g : G)
    → Resolves s
    → let (o, g') = resolve_step e s i c g in
      IsHonest i o
      × (o.replied ≡ true)
      × (i.resolve ≡ false → g' ≡ g)
      × (o.resolved ≡ true → s.query_resolved i.thread_id g' ≡ ok true)
unfolding resolve_step
resolve_step-IsHonest e s i c g law = elim (Bool-cases i.resolve) [
  | inr b ↦ ground arith
  | inl b ↦ elim (Result-cases (resolve_thread s i.thread_id g).0) [
    | inl (x, q) ↦ ground arith
    | inr (r, q) ↦
        let k =
          resolve_thread-Resolves s i.thread_id g (resolve_thread s i.thread_id g).1 r law
            (ground arith) in
        ground arith
  ]
]

-- Where the mutation resolves threads, an output of reply_and_resolve_review_thread is honest: there is
-- a comment if and only if it replied, and otherwise the error of the reply; it resolved only after a
-- reply, when asked to, and without an error; when asked to and not resolved after a reply, there is
-- the error of the resolve. If it did not reply, or was not asked to resolve, no call but those of the
-- reply has reached GitHub; and if it says that it resolved, the thread is resolved.
pub reply_and_resolve_handler-IsHonest :
    {G : Type 0} (e : ThreadEnv) (i : ReplyAndResolveInput) (s : ThreadService G) (g g' : G)
    (o : ReplyAndResolveOutput)
    → Resolves s
    → reply_and_resolve_handler e i (ok s) g ≡ (output o, g')
    → IsHonest i o
      × (o.replied ≡ false → g' ≡ (reply_to_thread s i.thread_id i.body g).1)
      × (i.resolve ≡ false → g' ≡ (reply_to_thread s i.thread_id i.body g).1)
      × (o.resolved ≡ true → s.query_resolved i.thread_id g' ≡ ok true)
unfolding reply_and_resolve_handler
reply_and_resolve_handler-IsHonest e i s g g' o law h =
    elim (Option-cases (reply_error_of e i.thread_id i.body)) [
      | inr (x, q) ↦ ground arith
      | inl q ↦ elim (Result-cases (reply_to_thread s i.thread_id i.body g).0) [
        | inl (x, y) ↦ elim (Option-cases (try_auth_result x)) [
          | inl z ↦ ground arith
          | inr (a, z) ↦ ground arith
        ]
        | inr (c, y) ↦
            let k = resolve_step-IsHonest e s i c (reply_to_thread s i.thread_id i.body g).1 law in
            ground arith
      ]
    ]
