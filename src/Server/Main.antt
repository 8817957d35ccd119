-- ===== src/Server/Main.antt =====
-- `main` of cmd/server/main.go: the steps before the server listens, and the endpoints of its mux.
use mathlib.Core.Path.{subst}
use copilot_review_mcp.Common.{String, List, [], ◌∷◌, arith, ◌≡◌, ◌⊎◌, inl, inr, refl, sym}
use copilot_review_mcp.Errors.{GoError}
use copilot_review_mcp.Middleware.{Strings}
use copilot_review_mcp.Store.Open.{OpenEnv, Faults, File, Opened, opened, failed, open_db}
use copilot_review_mcp.Store.Open.Columns.{finished}
use copilot_review_mcp.Store.Open.Laws.{IsCurrent, open_db-Restarts, Restarts}
use copilot_review_mcp.Server.Handshake.{HttpRequest, JsonEnv}
use copilot_review_mcp.Server.Handler.{Reply, serve_mcp}
use copilot_review_mcp.Server.Config.{
  ConfigEnv, Config, Exit, exits, loaded, load_config, gateway_url, gateway_secret,
}
use copilot_review_mcp.Server.Config.Laws.{IsAccepted, load_config_iff}

-- How `main` gets on: it exits on its configuration or on the database, or it serves.
pub data StartUp : Type 0 where
  exits_on_config : Exit → StartUp
  exits_on_database : GoError → File → StartUp
  serves : Config → File → StartUp

abbrev pub after_open : Config → Opened → StartUp
after_open c (opened f) = serves c f
after_open c (failed x f) = exits_on_database x f

-- `main` up to the handlers; the file is the one at the configured path.
unfoldable pub start_up : {Q : Type 0} → ConfigEnv Q → OpenEnv → Faults → (String → File) → StartUp
start_up e o fault disk = elim (load_config e) [
  | exits x ↦ exits_on_config x
  | loaded c ↦ after_open c (open_db o fault (disk c.sqlite_path))
]

-- The endpoints that `main` registers.
pub data Endpoint : Type 0 where
  gone health mcp : Endpoint

abbrev pub endpoints : List (String × Endpoint)
endpoints =
    ("GET /.well-known/oauth-authorization-server", gone)
    ∷ ("GET /authorize", gone)
    ∷ ("GET /callback", gone)
    ∷ ("POST /token", gone)
    ∷ ("POST /register", gone)
    ∷ ("GET /health", health)
    ∷ ("/mcp", mcp)
    ∷ ("/mcp/", mcp)
    ∷ []

-- What an endpoint answers: an error and its status, the state of health, or a reply of the handlers.
pub data Answer : Type 0 where
  oauth_removed status_ok : Answer
  replied : Reply → Answer

unfoldable pub serve :
    {I : Type 0} → Strings → JsonEnv I → Endpoint → (String → String) → HttpRequest → Answer
serve t j gone get r = oauth_removed
serve t j health get r = status_ok
serve t j mcp get r = replied (serve_mcp t j get r)

after_open-serves :
    (o : OpenEnv) (fault : Faults) (c d : Config) (f g : File)
    → after_open c (open_db o fault f) ≡ serves d g
    → (c ≡ d) × (g ≡ finished f)
after_open-serves o fault c d f g h = go (open_db o fault f) ((open_db-Restarts o fault f).1) h
  where
    go : (r : Opened) → Restarts o f r → after_open c r ≡ serves d g → (c ≡ d) × (g ≡ finished f)
    go (opened u) k e = (ground arith, ground (arith, k))
    go (failed x u) k e = ground arith

Loaded-cases :
    {Q : Type 0} (e : ConfigEnv Q)
    → ((x : Exit) × (load_config e ≡ exits x)) ⊎ ((c : Config) × (load_config e ≡ loaded c))
Loaded-cases e =
    elim (load_config e) as (λ l. ((x : Exit) × (l ≡ exits x)) ⊎ ((c : Config) × (l ≡ loaded c))) [
      | exits x ↦ inl (x, refl)
      | loaded c ↦ inr (c, refl)
    ]

-- A program that serves, whatever its environment and its disk, has settings for the gateway that are
-- both empty or were accepted together, and a database with the present schema in which no watch of an
-- earlier process is active.
pub start_up-serves :
    {Q : Type 0} (e : ConfigEnv Q) (o : OpenEnv) (fault : Faults) (disk : String → File)
    (c : Config) (f : File)
    → start_up e o fault disk ≡ serves c f
    → IsAccepted e (gateway_url e) (gateway_secret e)
      × (load_config e ≡ loaded c)
      × IsCurrent (disk c.sqlite_path) f
unfolding start_up
start_up-serves e o fault disk c f h = elim (Loaded-cases e) [
  | inl (x, q) ↦ ground arith
  | inr (d, q) ↦
      let (same, done) = after_open-serves o fault d c (disk d.sqlite_path) f (ground arith) in
      let current : IsCurrent (disk d.sqlite_path) f =
        subst (IsCurrent (disk d.sqlite_path)) (sym done)
          ((open_db-Restarts o fault (disk d.sqlite_path)).0) in
      (
        (load_config_iff e).0 (d, q),
        subst (λ x. load_config e ≡ loaded x) same q,
        subst (λ x. IsCurrent (disk x.sqlite_path) f) same current,
      )
]
