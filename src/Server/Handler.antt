-- ===== src/Server/Handler.antt =====
-- internal/tools/server.go: the handler of the MCP endpoint with the watch manager that it owns, and
-- the authorization of subscriptions.
pub mod Laws
use copilot_review_mcp.Common.{
  ℕ, Time, Bool, true, false, String, List, [], ◌∷◌, Option, none, some, ◌==◌, string_eq, is_some,
  not, if◌then◌else◌,
}
use copilot_review_mcp.Errors.{GoError, Result, ok, err}
use copilot_review_mcp.Middleware.{
  Strings, Context, AuthOutcome, unauthorized, served, auth, token_from_context, login_from_context,
}
use copilot_review_mcp.Watch.State.{Manager, Env, Snapshot}
use copilot_review_mcp.Watch.Reads.{get_by_id}
use copilot_review_mcp.Watch.Cancel.{close}
use copilot_review_mcp.Tools.Watches.{ToolEnv, own, parse_watch_id_from_uri}
use copilot_review_mcp.Server.Handshake.{
  HttpRequest, JsonEnv, ErrorResponse, Handled, handed_on, refused, reject_legacy_initialize,
}

-- What SubscribeHandler answers.
pub data Subscription : Type 0 where
  allowed resource_not_found : Subscription
  denied : GoError → Subscription

-- What is left of a request for the MCP library: it has a server, or none.
pub data Reply : Type 0 where
  login_required : String → Reply
  legacy_refused : ErrorResponse → Reply
  no_server : HttpRequest → Reply
  dispatched : Context → HttpRequest → Reply

-- `StreamableHandler`: the ids of the sessions of its server, and its manager, where these are set;
-- `closed` says whether `closeOnce` has run. `warned` lists the sessions whose closing failed.
pub record StreamableHandler (S : Type 0) : Type 0 where
  pub server : Option (List String)
  pub watch_manager : Option (Manager S)
  pub closed : Bool
  pub warned : List String

module _ {S : Type 0} (e : ToolEnv S) where
  abbrev subscribe_watch : String → String → Manager S → Subscription
  subscribe_watch id login m =
      if login == ""
      then denied (e.error "authenticated GitHub login is required to subscribe")
      else elim (own login (get_by_id e.manager_env id m)) [
        | none ↦ resource_not_found
        | some s ↦ allowed
      ]

  -- `SubscribeHandler`. There is no URI without a request or without its parameters, and no manager
  -- before it is made.
  unfoldable pub subscribe_handler : Option String → Context → Option (Manager S) → Subscription
  subscribe_handler none c m = allowed
  subscribe_handler (some uri) c none = allowed
  subscribe_handler (some uri) c (some m) =
      if is_some (e.strip_prefix uri "copilot-review://watch/")
      then resource_not_found
      else if not (is_some (e.strip_prefix uri "review-raven://watch/"))
      then allowed
      else elim (parse_watch_id_from_uri e uri) [
        | none ↦ resource_not_found
        | some id ↦ subscribe_watch id (login_from_context c) m
      ]

-- `getServer`: whether a request gets the server.
unfoldable pub get_server : Context → Bool
get_server c = not (token_from_context c == "")

module _ {I : Type 0} (t : Strings) (j : JsonEnv I) where
  abbrev pub with_server : Context → HttpRequest → Reply
  with_server c r = if get_server c then dispatched c r else no_server r

  abbrev pub serve_authenticated : Context → HttpRequest → Reply
  serve_authenticated c r = elim (reject_legacy_initialize j r) [
    | refused a ↦ legacy_refused a
    | handed_on q ↦ with_server c q
  ]

  -- `ServeHTTP` behind the middleware, as main mounts it at /mcp.
  unfoldable pub serve_mcp : (String → String) → HttpRequest → Reply
  serve_mcp get r = elim (auth t get) [
    | unauthorized code ↦ login_required code
    | served c ↦ serve_authenticated c r
  ]

-- The sessions whose closing fails.
abbrev pub failed_sessions : (String → Option GoError) → List String → List String
failed_sessions session_close [] = []
failed_sessions session_close (id ∷ ids) =
    let rest = failed_sessions session_close ids in
    if is_some (session_close id) then id ∷ rest else rest

abbrev pub sessions_of : Option (List String) → List String
sessions_of none = []
sessions_of (some ids) = ids

module _ {S : Type 0} (env : Env S) (session_close : String → Option GoError) where
  -- `Close`; a nil handler is none.
  unfoldable pub close_handler : Time → StreamableHandler S → StreamableHandler S
  close_handler now h = if h.closed then h else record h {
    closed = true;
    warned = failed_sessions session_close (sessions_of h.server);
    watch_manager = elim h.watch_manager [ none ↦ none | some m ↦ some (close env now m) ];
  }
