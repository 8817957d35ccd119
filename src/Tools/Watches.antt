-- ===== src/Tools/Watches.antt =====
-- internal/tools/watch.go: the tools that start, read, list and cancel watches, and the resource of a
-- watch, on top of the watch manager.
pub mod View
pub mod Next
pub mod Laws
pub mod Isolation
pub use View.*
use mathlib.Core.Option
use copilot_review_mcp.Common.{
  ℕ, zero, suc, ℤ, pos, Time, Bool, true, false, String, List, [], ◌∷◌, Option, none, some, ◌==◌,
  ◌||◌, ◌&&◌, string_eq, is_positive, ltb, map, length, not, if◌then◌else◌,
}
use copilot_review_mcp.Autherr.{new_auth_required}
use copilot_review_mcp.Errors.{GoError, Result, ok, err}
use copilot_review_mcp.Middleware.{Strings, login_from_context}
use copilot_review_mcp.Watch.State.{Manager, Env, Snapshot, WatchKey}
use copilot_review_mcp.Watch.Reads.{get_by_id, get_latest, ListOptions, list}
use copilot_review_mcp.Watch.Cancel.{CancelResult, cancel_by_id, cancel_latest}
use copilot_review_mcp.Watch.Start.{start}
use copilot_review_mcp.Tools.Auth.{Call, login_from_tool_request, token_from_tool_request}
use copilot_review_mcp.Tools.Reply.{ToolReply, output, auth_result, failure}

pub record StartReviewWatchInput : Type 0 where
  pub owner : String
  pub repo : String
  pub pr : ℤ

pub record StartReviewWatchOutput : Type 0 where
  pub watch : ReviewWatchView
  pub reused : Bool
  pub note : String

-- The input of the tools that read or cancel one watch.
pub record WatchSelector : Type 0 where
  pub watch_id : String
  pub owner : String
  pub repo : String
  pub pr : ℤ

pub record GetReviewWatchStatusOutput : Type 0 where
  pub found : Bool
  pub watch : Option ReviewWatchView
  pub note : String

pub record ListReviewWatchesInput : Type 0 where
  pub owner : String
  pub repo : String
  pub pr : ℤ
  pub active_only : Bool
  pub limit : ℤ

pub record ListReviewWatchesOutput : Type 0 where
  pub watches : List ReviewWatchView
  pub count : ℕ
  pub note : String

pub record CancelReviewWatchOutput : Type 0 where
  pub found : Bool
  pub watch : Option ReviewWatchView
  pub cancelled : Option Bool
  pub note : String

-- `id_gt` is Go's order on strings, `error` renders the handlers' errors. `strip_prefix` is HasPrefix
-- and TrimPrefix in one, `contains_any` ContainsAny.
pub record ToolEnv (S : Type 0) : Type 0 where
  pub manager_env : Env S
  pub strings : Strings
  pub rfc3339 : Time → String
  pub id_gt : String → String → Bool
  pub error : String → GoError
  pub strip_prefix : String → String → Option String
  pub contains_any : String → String → Bool

-- The owner, the repository and the number are given.
abbrev pub is_given : WatchSelector → Bool
is_given i = not (i.owner == "") && not (i.repo == "") && is_positive i.pr

abbrev pub key_of : String → WatchSelector → WatchKey
key_of login i = record { login = login; owner = i.owner; repo = i.repo; pr = i.pr }

abbrev pub own : String → Option Snapshot → Option Snapshot
own login none = none
own login (some s) = if s.login == login then some s else none

abbrev pub start_note : Bool → String
start_note reused = if reused then "既存の active watch を再利用しました。" else "background watch を開始しました。"

abbrev pub not_found : String
not_found = "watch が見つかりませんでした。"

abbrev pub list_note : List Snapshot → String
list_note [] = "watch は見つかりませんでした。"
list_note (s ∷ ss) = "active watch を先頭に、updated_at の新しい順で返します。"

abbrev pub cancel_note : CancelResult → Bool → String
cancel_note r terminal =
    if r.cancelled
    then "watch を停止しました。"
    else if terminal
    then "対象 watch は既に停止しています。"
    else "watch は見つかりましたが、現在の worker は停止しています。"

module _ {S : Type 0} (e : ToolEnv S) where
  abbrev pub view_at : Manager S → Time → Snapshot → ReviewWatchView
  view_at m now s = build_review_watch_view e.rfc3339 s m.poll_interval now

  -- `startWatchHandler`; the times of the clock are those that Start reads, and the one of the view.
  unfoldable pub start_watch_handler :
      StartReviewWatchInput
      → Call
      → Time
      → Time
      → Time
      → Manager S
      → ToolReply StartReviewWatchOutput × Manager S
  start_watch_handler i c now id_now view_now m =
      if i.owner == "" || i.repo == "" || not (is_positive i.pr)
      then (failure (e.error "owner, repo, and pr are required"), m)
      else (let login = login_from_tool_request c in
          let token = token_from_tool_request e.strings c in
          if login == "" || token == ""
          then (auth_result new_auth_required, m)
          else (let (r, m') =
                start e.manager_env
                  (record {
                    login = login;
                    token = token;
                    owner = i.owner;
                    repo = i.repo;
                    pr = i.pr;
                  })
                  now id_now m in
              elim r [
                | err x ↦ (failure x, m')
                | ok (s, reused) ↦ (
                  output (record {
                    watch = view_at m' view_now s;
                    reused = reused;
                    note = start_note reused;
                  }),
                  m',
                )
              ]))

  abbrev pub status_output : Manager S → Time → Option Snapshot → GetReviewWatchStatusOutput
  status_output m now none = record { found = false; watch = none; note = not_found }
  status_output m now (some s) = record {
    found = true;
    watch = some (view_at m now s);
    note = "watch の現在状態です。";
  }

  -- `getWatchStatusHandler`.
  unfoldable pub get_watch_status_handler :
      WatchSelector → Call → Time → Manager S → ToolReply GetReviewWatchStatusOutput
  get_watch_status_handler i c now m =
      let login = login_from_tool_request c in
      if login == ""
      then auth_result new_auth_required
      else if not (i.watch_id == "")
      then output (status_output m now (own login (get_by_id e.manager_env i.watch_id m)))
      else if is_given i
      then output (status_output m now (get_latest e.manager_env (key_of login i) m))
      else failure (e.error "watch_id or owner, repo, and pr are required")

  -- `in.Limit`, or its default.
  abbrev pub limit_or_default : ℤ → ℕ
  limit_or_default (pos (suc n)) = suc n
  limit_or_default _ = 20

  -- `listWatchesHandler`.
  unfoldable pub list_watches_handler :
      ListReviewWatchesInput → Call → Time → Manager S → ToolReply ListReviewWatchesOutput
  list_watches_handler i c now m =
      let login = login_from_tool_request c in
      let limit = limit_or_default i.limit in
      if login == ""
      then auth_result new_auth_required
      else if not (i.repo == "") && i.owner == ""
      then failure (e.error "owner is required when repo is specified")
      else if is_positive i.pr && (i.owner == "" || i.repo == "")
      then failure (e.error "owner and repo are required when pr is specified")
      else if ltb 100 limit
      then failure (e.error "limit must not exceed %d")
      else elim (list e.manager_env e.id_gt login
          (record {
            owner = i.owner;
            repo = i.repo;
            pr = i.pr;
            active_only = i.active_only;
            limit = pos limit;
          })
          m) [
            | err x ↦ failure x
            | ok ss ↦ output (record {
              watches = map (view_at m now) ss;
              count = length ss;
              note = list_note ss;
            })
          ]

  -- `buildCancelWatchOutput`; a result that is found has a snapshot.
  unfoldable pub build_cancel_watch_output :
      Manager S → Time → CancelResult → CancelReviewWatchOutput
  build_cancel_watch_output m now r = record {
    found = r.found;
    watch = Option.map (view_at m now) r.snapshot;
    cancelled = some r.cancelled;
    note = cancel_note r (elim r.snapshot [ none ↦ false | some s ↦ s.terminal ]);
  }

  abbrev pub cancel_output : Manager S → Time → CancelResult → CancelReviewWatchOutput
  cancel_output m now r =
      if not r.found
      then record { found = false; watch = none; cancelled = none; note = not_found }
      else build_cancel_watch_output m now r

  abbrev pub cancel_reply :
      Time → Result CancelResult × Manager S → ToolReply CancelReviewWatchOutput × Manager S
  cancel_reply now (err x, m) = (failure x, m)
  cancel_reply now (ok r, m) = (output (cancel_output m now r), m)

  -- `cancelWatchHandler`.
  unfoldable pub cancel_watch_handler :
      WatchSelector → Call → Time → Time → Manager S → ToolReply CancelReviewWatchOutput × Manager S
  cancel_watch_handler i c now view_now m =
      let login = login_from_tool_request c in
      if login == ""
      then (auth_result new_auth_required, m)
      else if not (i.watch_id == "")
      then cancel_reply view_now (cancel_by_id e.manager_env login i.watch_id now m)
      else if is_given i
      then cancel_reply view_now (cancel_latest e.manager_env (key_of login i) now m)
      else (failure (e.error "watch_id or owner, repo, and pr are required"), m)

  -- `parseWatchIDFromURI`.
  unfoldable pub parse_watch_id_from_uri : String → Option String
  parse_watch_id_from_uri uri = elim (e.strip_prefix uri "review-raven://watch/") [
    | none ↦ none
    | some id ↦ if id == "" || e.contains_any id "/?#" then none else some id
  ]

  -- The handler of `RegisterWatchResources`, up to the rendering of the view: `none` is
  -- ResourceNotFoundError. A request without parameters has no URI.
  unfoldable pub read_watch_resource :
      Option String → Call → Time → Manager S → Result (Option ReviewWatchView)
  read_watch_resource none c now m = err (e.error "missing read resource request params")
  read_watch_resource (some uri) c now m =
      if uri == ""
      then err (e.error "missing resource URI")
      else elim (parse_watch_id_from_uri uri) [
        | none ↦ ok none
        | some id ↦
            let login = login_from_context c.context in
            if login == ""
            then err (e.error "authenticated GitHub login is required")
            else ok (Option.map (view_at m now) (own login (get_by_id e.manager_env id m)))
      ]
