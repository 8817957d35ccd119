-- ===== src/Tools/Cycle/Laws.antt =====
-- What an answer of get_pr_review_cycle_status says about the pull request.
use mathlib.Core.Path.{subst}
use copilot_review_mcp.Common.{
  ℕ, Bool, true, false, String, List, [], ◌∷◌, arith, ◌≡◌, ◌≢◌, ◌↔◌, ◌⊎◌, inr, refl, sym, string_eq,
  ◌&&◌, ◌||◌, nat_beq, leb,
}
use copilot_review_mcp.Github.Review.{ReviewStatus, completed, blocked}
use copilot_review_mcp.Github.Threads.{ReviewThread}
use copilot_review_mcp.Github.Checks.{CiStatus}
use copilot_review_mcp.Tools.Cycle.{
  CycleStatusInput, CycleStatusOutput, CycleEnv, Action, ready_to_merge, request_rereview, escalate,
  terminate, cycle_status_of, recommend, unresolved_count, unreplied, all_replied,
  is_rereview_required, escalated, evaluated, env_no_comment_threshold,
}

-- All threads are replied to exactly if the list of those that are not is empty.
pub all_replied_iff :
    (trim : String → String) (ts : List ReviewThread)
    → (all_replied trim ts ≡ true) ↔ (unreplied trim ts ≡ [])
unfolding all_replied unreplied
all_replied_iff trim [] = ground arith
all_replied_iff trim (t ∷ ts) = ground (arith, all_replied_iff trim ts)

-- Where no thread is unresolved, every thread counts as replied to.
pub all_replied-resolved :
    (trim : String → String) (ts : List ReviewThread)
    → unresolved_count ts ≡ 0
    → all_replied trim ts ≡ true
unfolding all_replied unresolved_count
all_replied-resolved trim [] e = refl
all_replied-resolved trim (t ∷ ts) e = ground (arith, all_replied-resolved trim ts)

abbrev pub IsReviewed : ReviewStatus → Type 0
IsReviewed s = (s ≡ completed) ⊎ (s ≡ blocked)

recommend-ready_to_merge :
    (s : ReviewStatus) (n : ℕ) (rereview replied c₁ c₂ : Bool)
    → recommend s n rereview replied c₁ c₂ ≡ ready_to_merge
    → IsReviewed s × (n ≡ 0) × (rereview ≡ false) × ((c₁ || c₂) ≡ true)
unfolding recommend
recommend-ready_to_merge s n rereview replied c₁ c₂ e = ground arith

recommend_reviewed :
    (s : ReviewStatus) (replied c₁ c₂ : Bool)
    → IsReviewed s
    → replied ≡ true
    → recommend s 0 true replied c₁ c₂ ≡ request_rereview
unfolding recommend
recommend_reviewed s replied c₁ c₂ r e = ground arith

pub cycle_status_of-terminate :
    (a : Action) → (cycle_status_of a ≡ terminate) ↔ ((a ≡ ready_to_merge) ⊎ (a ≡ escalate))
unfolding cycle_status_of
cycle_status_of-terminate a = ground arith

module _ (e : CycleEnv) (i : CycleStatusInput) where
  pub evaluated-ready_to_merge :
      (ci : CiStatus) (ts : List ReviewThread) (s : ReviewStatus) (elapsed : ℕ)
      → (evaluated e i ci ts s elapsed).recommended_action ≡ ready_to_merge
      → IsReviewed s
        × (ci.ok ≡ true)
        × (unresolved_count ts ≡ 0)
        × (is_rereview_required i.fix_type ≡ false)
  unfolding evaluated
  evaluated-ready_to_merge ci ts s elapsed q =
      let n = unresolved_count ts in
      let (r, z, f, c) =
        recommend-ready_to_merge s n (is_rereview_required i.fix_type) (all_replied e.trim_space ts)
          (nat_beq n 0 && ci.ok) (leb (env_no_comment_threshold e) elapsed && ci.ok) q in
      (r, ground arith, z, f)

  -- Of two evaluations that differ only in the minutes since the last comment, both recommend the same
  -- action: the threshold without comments decides nothing.
  pub evaluated-silence :
      (ci : CiStatus) (ts : List ReviewThread) (s : ReviewStatus) (x y : ℕ)
      → (evaluated e i ci ts s x).recommended_action ≡ (evaluated e i ci ts s y).recommended_action
  unfolding evaluated recommend
  evaluated-silence ci ts s x y = ground arith

  -- Where a review is there, no thread is unresolved and the fix requires a new review, the action is
  -- to request one: the guard on replies never fails there.
  pub evaluated-request_rereview :
      (ci : CiStatus) (ts : List ReviewThread) (s : ReviewStatus) (elapsed : ℕ)
      → IsReviewed s
      → unresolved_count ts ≡ 0
      → is_rereview_required i.fix_type ≡ true
      → (evaluated e i ci ts s elapsed).recommended_action ≡ request_rereview
  unfolding evaluated
  evaluated-request_rereview ci ts s elapsed r z f =
      rw (z, f)
        (recommend_reviewed s (all_replied e.trim_space ts) (nat_beq 0 0 && ci.ok)
          (leb (env_no_comment_threshold e) elapsed && ci.ok) r
          (all_replied-resolved e.trim_space ts z))

  pub evaluated-action :
      (ci : CiStatus) (ts : List ReviewThread) (s : ReviewStatus) (n : ℕ)
      → ((evaluated e i ci ts s n).recommended_action ≢ escalate)
        × ((evaluated e i ci ts s n).cycle_status
            ≡ cycle_status_of (evaluated e i ci ts s n).recommended_action)
  unfolding evaluated recommend
  evaluated-action ci ts s n = (ground arith, refl)

  abbrev pub IsEnding : CycleStatusOutput → Type 0
  IsEnding o =
      (o.cycle_status ≡ terminate)
      ↔ ((o.recommended_action ≡ ready_to_merge) ⊎ (o.recommended_action ≡ escalate))

  pub IsEnding-at : (o a : CycleStatusOutput) → o ≡ a → IsEnding a → IsEnding o
  IsEnding-at o a q r = subst IsEnding (sym q) r

  pub escalated-action :
      (ci : CiStatus) (ts : List ReviewThread) → (escalated e i ci ts).recommended_action ≡ escalate
  unfolding escalated
  escalated-action ci ts = refl

  pub escalated-IsEnding : (ci : CiStatus) (ts : List ReviewThread) → IsEnding (escalated e i ci ts)
  unfolding escalated
  escalated-IsEnding ci ts = (λ x. inr refl, λ x. refl)
