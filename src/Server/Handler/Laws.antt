-- ===== src/Server/Handler/Laws.antt =====
-- Who may subscribe to a watch, what passes the handlers in front of the MCP library, and that the
-- handler is closed once.
use mathlib.Core.Path.{subst}
use copilot_review_mcp.Common.{
  Time, true, false, String, Option, none, some, arith, ◌≡◌, ◌≢◌, ◌↔◌, ◌⊎◌, inl, inr, ◌==◌,
  string_eq, eq_iff, is_some, Bool-cases, Option-cases,
}
use copilot_review_mcp.Errors.{GoError, ok}
use copilot_review_mcp.Middleware.{
  Strings, unauthorized, auth, token_from_context, login_from_context,
}
use copilot_review_mcp.Watch.State.{Manager, Env, Snapshot}
use copilot_review_mcp.Watch.Reads.{get_by_id}
use copilot_review_mcp.Tools.Auth.{Call}
use copilot_review_mcp.Tools.Watches.{
  ToolEnv, own, view_at, parse_watch_id_from_uri, read_watch_resource, ReviewWatchView,
}
use copilot_review_mcp.Server.Handshake.{Body, HttpRequest, Request, JsonEnv, json_rpc_messages}
use copilot_review_mcp.Server.Handshake.Laws.{HasInitialize, IsRefusal}
use copilot_review_mcp.Server.Handler.{
  allowed, Reply, login_required, legacy_refused, no_server, dispatched, StreamableHandler,
  subscribe_handler, close_handler,
}

module _ {S : Type 0} (e : ToolEnv S) where
  -- A URI of the watch scheme, and not of the former one.
  abbrev pub IsWatchUri : String → Type 0
  IsWatchUri uri =
      (uri ≢ "")
      × (is_some (e.strip_prefix uri "copilot-review://watch/") ≡ false)
      × (is_some (e.strip_prefix uri "review-raven://watch/") ≡ true)

  -- The URI names a watch of the login.
  abbrev pub NamesOwn : String → String → Manager S → Type 0
  NamesOwn uri login m =
      (id : String) × (s : Snapshot) × (parse_watch_id_from_uri e uri ≡ some id)
      × (get_by_id e.manager_env id m ≡ some s)
      × (s.login ≡ login)
      × (login ≢ "")

  own-some :
      (login : String) (x : Option Snapshot) (s : Snapshot)
      → own login x ≡ some s
      → (x ≡ some s) × (s.login ≡ login)
  own-some login none s h = ground arith
  own-some login (some u) s h = elim (Bool-cases (u.login == login)) [
    | inr b ↦ ground arith
    | inl b ↦
        let same : u ≡ s = ground arith in
        (ground arith, subst (λ x. x.login ≡ login) same ((eq_iff u.login login).0 b))
  ]

  own-none :
      (id login uri : String) (m : Manager S)
      → parse_watch_id_from_uri e uri ≡ some id
      → own login (get_by_id e.manager_env id m) ≡ none
      → ¬ NamesOwn uri login m
  own-none id login uri m q f (i, s, a, g, l, k) =
      let same : i ≡ id = ground arith in
      let found : get_by_id e.manager_env id m ≡ some s =
        subst (λ x. get_by_id e.manager_env x m ≡ some s) same g in
      ground (arith, found, eq_iff s.login login)

  -- The cases of a subscription to a watch URI, and of a read of it.
  subscription :
      (uri : String) (c : Call) (now : Time) (m : Manager S)
      → IsWatchUri uri
      → (NamesOwn uri (login_from_context c.context) m
          × (subscribe_handler e (some uri) c.context (some m) ≡ allowed)
          × ((v : ReviewWatchView) × (read_watch_resource e (some uri) c now m ≡ ok (some v))))
        ⊎ ((¬ NamesOwn uri (login_from_context c.context) m)
            × (subscribe_handler e (some uri) c.context (some m) ≢ allowed)
            × ((v : ReviewWatchView) → read_watch_resource e (some uri) c now m ≢ ok (some v)))
  unfolding subscribe_handler read_watch_resource
  subscription uri c now m (given, legacy, prefix) =
      let blank : (uri == "") ≡ false = ground (arith, eq_iff uri "") in
      let login = login_from_context c.context in
      elim (Option-cases (parse_watch_id_from_uri e uri)) [
        | inl q ↦ inr (λ n. ground (arith, n), ground arith, λ v. ground arith)
        | inr (id, q) ↦ elim (Bool-cases (login == "")) [
          | inl b ↦ inr (
            λ n. let (i, s, a, f, l, k) = n in k ((eq_iff login "").0 b),
            ground arith,
            λ v. ground arith,
          )
          | inr b ↦ elim (Option-cases (own login (get_by_id e.manager_env id m))) [
            | inl f ↦ inr (λ n. own-none id login uri m q f n, ground arith, λ v. ground arith)
            | inr (s, f) ↦
                let (found, mine) = own-some login (get_by_id e.manager_env id m) s f in
                inl (
                  (id, s, q, found, mine, ground (arith, eq_iff login "")),
                  ground arith,
                  (view_at e m now s, ground arith),
                )
          ]
        ]
      ]

-- For a URI of the watch scheme, and not of the former one, a subscription is allowed exactly if the
-- URI names a watch of the login of the context, and exactly if a read of the resource by the same
-- caller shows a watch.
pub subscribe_handler_iff :
    {S : Type 0} (e : ToolEnv S) (uri : String) (c : Call) (now : Time) (m : Manager S)
    → IsWatchUri e uri
    → ((subscribe_handler e (some uri) c.context (some m) ≡ allowed)
        ↔ NamesOwn e uri (login_from_context c.context) m)
      × ((subscribe_handler e (some uri) c.context (some m) ≡ allowed)
          ↔ ((v : ReviewWatchView) × (read_watch_resource e (some uri) c now m ≡ ok (some v))))
subscribe_handler_iff e uri c now m h = elim (subscription e uri c now m h) [
  | inl (names, yes_, shown) ↦ (((λ a. names), (λ n. yes_)), ((λ a. shown), (λ n. yes_)))
  | inr (none_, denied_, hidden) ↦ (
    ((λ a. absurd (denied_ a)), (λ n. absurd (none_ n))),
    ((λ a. absurd (denied_ a)), (λ (v, n). absurd (hidden v n))),
  )
]

-- What a reply says of the request.
abbrev pub IsGuarded :
    {I : Type 0} → Strings → JsonEnv I → (String → String) → HttpRequest → Reply → Type 0
IsGuarded t j get r (login_required code) = auth t get ≡ unauthorized code
IsGuarded {I} t j get r (legacy_refused a) =
    (b : Body) × (x : Request I) × HasInitialize j r b x
    × IsRefusal j (json_rpc_messages j b.content).batched x a
IsGuarded t j get r (no_server q) = ⊥
IsGuarded {I} t j get r (dispatched c q) =
    (q ≡ r)
    × ((b : Body) (x : Request I) → ¬ HasInitialize j r b x)
    × (login_from_context c ≡ get "X-Authenticated-User")
    × (login_from_context c ≢ "")
    × (token_from_context c ≢ "")

-- Close runs once: a second call changes nothing.
pub close_handler_twice :
    {S : Type 0} (env : Env S) (session_close : String → Option GoError) (now later : Time)
    (h : StreamableHandler S)
    → close_handler env session_close later (close_handler env session_close now h)
      ≡ close_handler env session_close now h
unfolding close_handler
close_handler_twice env session_close now later h = elim (Bool-cases h.closed) [
  | inl b ↦ ground arith
  | inr b ↦ ground arith
]
