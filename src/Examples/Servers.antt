-- ===== src/Examples/Servers.antt =====
-- A server with and without the gateway, requests to it, and a subscription to a watch.
use copilot_review_mcp.Common.{
  pos, true, false, String, [], ◌∷◌, none, some, ◌≡◌, ◌↔◌, refl, arith, ◌==◌, ◌||◌, string_eq,
  eq_iff, if◌then◌else◌,
}
use copilot_review_mcp.Errors.{ok, err, plain}
use copilot_review_mcp.Middleware.{login_from_context}
use copilot_review_mcp.Store.{Db}
use copilot_review_mcp.Store.Open.{File, OpenEnv}
use copilot_review_mcp.Store.Open.Columns.{finished}
use copilot_review_mcp.Store.Open.Laws.{IsCurrent, no_faults, open_db-opens}
use copilot_review_mcp.Github.Gateway.{validate_gateway_endpoint, is_loopback_host}
use copilot_review_mcp.Tools.Watches.{ToolEnv, read_watch_resource, ReviewWatchView}
use copilot_review_mcp.Server.Handshake.{Bytes, HttpRequest, JsonEnv, request}
use copilot_review_mcp.Server.Handshake.Laws.{IsHandled, reject_legacy_initialize-IsHandled}
use copilot_review_mcp.Server.Handler.{allowed, subscribe_handler}
use copilot_review_mcp.Server.Handler.Laws.{IsWatchUri, NamesOwn, subscribe_handler_iff}
use copilot_review_mcp.Server.Config.{
  ConfigEnv, loaded, load_config, settings, gateway_url, gateway_secret, client_factory,
  request_token, gateway_source, get_env, get_env_int,
}
use copilot_review_mcp.Server.Config.Laws.{IsAccepted, client_factory-source}
use copilot_review_mcp.Server.Main.{serves, start_up, start_up-serves}
use copilot_review_mcp.Examples.Watching.{db}
use copilot_review_mcp.Examples.Views.{ann, tools, manager, gateway_of}

-- Every message is a call of initialize.
abbrev json : JsonEnv Bytes
json = record {
  decode_message = λ raw. ok (request (record { id = raw; method = "initialize"; params = raw }));
  unmarshal_batch = λ raw. ok (raw ∷ raw ∷ []);
  protocol_version = λ raw. "2025-11-25";
  marshal_id = λ raw. raw;
  max_body_bytes = 3;
  unsupported_code = pos 1;
  with_version = λ s. s;
}

abbrev post : HttpRequest
post = record {
  method = "POST";
  body = some (record { content = 32 ∷ b'[' ∷ b']' ∷ []; failure = none });
}

reject_legacy_initialize-IsHandled_example : IsHandled json post
reject_legacy_initialize-IsHandled_example = reject_legacy_initialize-IsHandled json post

-- Every URI of the watch scheme names the watch x.
abbrev uris : ToolEnv Db
uris = record tools {
  strip_prefix = λ uri p. if p == "review-raven://watch/" then some "x" else none;
}

u-IsWatchUri : IsWatchUri uris "u"
u-IsWatchUri = ((λ h. ground (arith, eq_iff "u" "", h)), refl, refl)

subscribe_handler_iff_example :
    ((subscribe_handler uris (some "u") ann.context (some manager) ≡ allowed)
      ↔ NamesOwn uris "u" (login_from_context ann.context) manager)
    × ((subscribe_handler uris (some "u") ann.context (some manager) ≡ allowed) ↔ (
        (v : ReviewWatchView) × (read_watch_resource uris (some "u") ann 20 manager ≡ ok (some v))))
subscribe_handler_iff_example = subscribe_handler_iff uris "u" ann 20 manager u-IsWatchUri

-- An environment with an endpoint and a secret.
abbrev environment : ConfigEnv String
environment = record {
  getenv = λ key.
      if key == "REVIEW_RAVEN_GATEWAY_INTERNAL_URL"
      then "http://localhost/whoami"
      else if key == "REVIEW_RAVEN_GATEWAY_INTERNAL_SECRET"
      then "s"
      else "";
  atoi = λ s. err (plain "syntax");
  gateway = record (gateway_of 200) { has_suffix = λ s t. true };
}

loaded_lem : load_config environment ≡ loaded (settings environment)
unfolding load_config get_env get_env_int validate_gateway_endpoint is_loopback_host
loaded_lem = refl

client_factory-source_example : client_factory environment (settings environment) "t" "ann" ≡ (
    if (settings environment).gateway_internal_url == ""
      || environment.gateway.trim_space "ann" == ""
    then request_token "t"
    else gateway_source (record {
      endpoint = (settings environment).gateway_internal_url;
      secret = (settings environment).gateway_internal_secret;
      subject = "ann";
    }))
client_factory-source_example =
    client_factory-source environment (settings environment) "t" "ann" loaded_lem

abbrev pub texts : OpenEnv
texts = record { wrapped = λ s e. e; duplicate = plain "duplicate column name" }

-- No tables yet.
abbrev pub fresh : File
fresh = record { trigger_columns = none; watch_columns = none; lookup_index = false; db = db }

abbrev after : File
after = finished fresh

started_lem :
    start_up environment texts no_faults (λ path. fresh) ≡ serves (settings environment) after
unfolding start_up
started_lem = ground (arith, loaded_lem, open_db-opens texts fresh)

start_up-serves_example :
    IsAccepted environment (gateway_url environment) (gateway_secret environment)
    × (load_config environment ≡ loaded (settings environment))
    × IsCurrent fresh after
start_up-serves_example =
    start_up-serves environment texts no_faults (λ path. fresh) (settings environment) after
      started_lem
