-- ===== src/Watch/Worker/Replies.antt =====
-- What the errors and the answers of GitHub leave of the watch of a poll.
use mathlib.Core.Path.{subst}
use copilot_review_mcp.Common.{
  Time, Bool, true, String, Option, none, some, arith, ◌≡◌, inl, inr, sym, ◌||◌, ◌&&◌, string_eq,
  Bool-cases,
}
use copilot_review_mcp.Errors.{
  GoError, Result, ok, err, Result-cases, is_canceled, is_deadline_exceeded, is_gateway,
  upstream_failure,
}
use copilot_review_mcp.Github.Classify.{
  is_rate_limit_http_error, is_auth_error, is_gateway_auth_error,
}
use copilot_review_mcp.Github.Review.{ReviewData}
use copilot_review_mcp.Watch.State.{
  Status, failed, rate_limited, FailureReason, auth_expired, github_error, internal_error, Watch,
  Manager, Env,
}
use copilot_review_mcp.Watch.Outcome.{
  finish_state, handle_upstream_failure, auth_failure_recovery_hint,
}
use copilot_review_mcp.Watch.Poll.{
  Reply, ended, answered, is_done, poll_error, read_entry, poll_reply,
}
use copilot_review_mcp.Watch.Worker.Turns.{
  IsOver, Tracks, IsNamed, finish_state-IsOver, handle_upstream_failure-Tracks,
}

module _ {S : Type 0} (env : Env S) where
  -- The worker stops after an error that ends its watch.
  ends-Tracks :
      (id : String) (r : Bool × Manager S) (now : Time) (status : Status)
      (reason : Option FailureReason) (text : String) (counted : Bool) (hint : Option String)
      (m : Manager S)
      → IsNamed env m
      → r ≡ (true, finish_state env id now status reason text counted hint m)
      → Tracks id r
  ends-Tracks id r now status reason text counted hint m named h =
      subst (Tracks id) (sym h)
        (finish_state-IsOver env id now status reason text counted hint m named)

  poll_error-Tracks :
      (id : String) (w : Watch) (now : Time) (e : GoError) (m : Manager S)
      → IsNamed env m
      → (is_done w m ≡ true → IsOver id m)
      → w.id ≡ id
      → Tracks id (poll_error env w now e m)
  unfolding poll_error
  poll_error-Tracks id w now e m named q h =
      let r = poll_error env w now e m in
      elim (Bool-cases (is_canceled e && is_done w m)) [
        | inl a ↦
            let same : r ≡ (true, m) = ground arith in
            subst (Tracks id) (sym same) (q (ground arith))
        | inr a ↦ elim (Bool-cases (is_deadline_exceeded e)) [
          | inl b ↦ elim (Bool-cases (is_done w m)) [
            | inl c ↦ let same : r ≡ (true, m) = ground arith in subst (Tracks id) (sym same) (q c)
            | inr c ↦
                ends-Tracks id r now failed (some github_error)
                  (env.format.timed_out m.poll_timeout) true none m named (ground arith)
          ]
          | inr b ↦ elim (Bool-cases (is_rate_limit_http_error e)) [
            | inl c ↦ ends-Tracks id r now rate_limited none e.text true none m named (ground arith)
            | inr c ↦ elim (Bool-cases (is_gateway upstream_failure e)) [
              | inl d ↦
                  let same : r ≡ handle_upstream_failure env id now e.text m = ground arith in
                  subst (Tracks id) (sym same)
                    (handle_upstream_failure-Tracks env id now e.text m named)
              | inr d ↦ elim (Bool-cases (is_auth_error (some e) || is_gateway_auth_error e)) [
                | inl f ↦
                    ends-Tracks id r now failed (some auth_expired) e.text true
                      (some (auth_failure_recovery_hint e)) m named (ground arith)
                | inr f ↦
                    ends-Tracks id r now failed (some github_error) e.text true none m named
                      (ground arith)
              ]
            ]
          ]
        ]
      ]

  -- What an answer of GitHub leads to.
  abbrev pub TracksReply : String → Reply × Manager S → Type 0
  TracksReply id (ended b, n) = Tracks id (b, n)
  TracksReply id (answered t d entry, n) = Unit

  pub poll_reply-TracksReply :
      (id : String) (w : Watch) (now : Time) (a : Result ReviewData) (m : Manager S)
      → IsNamed env m
      → (is_done w m ≡ true → IsOver id m)
      → w.id ≡ id
      → TracksReply id (poll_reply env w now a m)
  unfolding poll_reply
  poll_reply-TracksReply id w now (err e) m named q h = poll_error-Tracks id w now e m named q h
  poll_reply-TracksReply id w now (ok d) m named q h =
      let r = poll_reply env w now (ok d) m in
      elim (Result-cases (read_entry env w m)) [
        | inr (entry, a) ↦
            let same : r ≡ (answered now d entry, m) = ground arith in
            subst (TracksReply id) (sym same) tt
        | inl (x, a) ↦
            let text = env.format.trigger_read_failed x in
            let n = finish_state env id now failed (some internal_error) text true none m in
            let same : r ≡ (ended true, n) = ground arith in
            subst (TracksReply id) (sym same)
              (finish_state-IsOver env id now failed (some internal_error) text true none m named)
      ]
