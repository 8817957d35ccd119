-- ===== src/Server/Config.antt =====
-- cmd/server/main.go: the configuration from the environment, the clients of the watches, and the
-- patterns of the HTTP server.
pub mod Laws
use copilot_review_mcp.Common.{
  ℕ, ℤ, pos, Bool, true, false, String, List, [], ◌∷◌, Option, none, some, ◌==◌, string_eq, not,
  if◌then◌else◌,
}
use copilot_review_mcp.Errors.{GoError, Result, ok, err}
use copilot_review_mcp.Watch.State.{Client}
use copilot_review_mcp.Github.Gateway.{
  GatewayEnv, TokenSource, validate_gateway_endpoint, new_gateway_token_source,
}

-- `getenv` is os.Getenv, and `atoi` is strconv.Atoi.
pub record ConfigEnv (Q : Type 0) : Type 0 where
  pub getenv : String → String
  pub atoi : String → Result ℤ
  pub gateway : GatewayEnv Q

-- `config`.
pub record Config : Type 0 where
  pub port : String
  pub bind_addr : String
  pub log_level : String
  pub sqlite_path : String
  pub in_progress_threshold_sec : ℤ
  pub gateway_internal_url : String
  pub gateway_internal_secret : String

-- Why the program exits at start-up.
pub data Exit : Type 0 where
  incomplete : Exit
  rejected : GoError → Exit

pub data Loaded : Type 0 where
  exits : Exit → Loaded
  loaded : Config → Loaded

pub data LogLevel : Type 0 where
  debug info warn error : LogLevel

-- `parseLogLevel`.
unfoldable pub parse_log_level : String → LogLevel
parse_log_level level =
    if level == "debug"
    then debug
    else if level == "warn"
    then warn
    else if level == "error"
    then error
    else info

-- `a != b` on bool.
abbrev pub differ : Bool → Bool → Bool
differ true b = not b
differ false b = b

module _ {Q : Type 0} (e : ConfigEnv Q) where
  -- The value of a variable without the blanks around it.
  abbrev pub variable : String → String
  variable key = e.gateway.trim_space (e.getenv key)

  -- `getEnv`.
  unfoldable pub get_env : String → String → String
  get_env key fallback = if not (variable key == "") then variable key else fallback

  -- `getEnvInt`.
  unfoldable pub get_env_int : String → ℤ → ℤ
  get_env_int key fallback =
      if not (variable key == "")
      then elim (e.atoi (variable key)) [ err x ↦ fallback | ok n ↦ n ]
      else fallback

  abbrev pub gateway_url : String
  gateway_url = variable "REVIEW_RAVEN_GATEWAY_INTERNAL_URL"

  abbrev pub gateway_secret : String
  gateway_secret = variable "REVIEW_RAVEN_GATEWAY_INTERNAL_SECRET"

  -- The check of the gateway's settings.
  abbrev pub config_error : Option Exit
  config_error =
      if differ (gateway_url == "") (gateway_secret == "")
      then some incomplete
      else if not (gateway_url == "")
      then elim (validate_gateway_endpoint e.gateway gateway_url gateway_secret) [
        | some x ↦ some (rejected x)
        | none ↦ none
      ]
      else none

  abbrev pub settings : Config
  settings = record {
    port = get_env "MCP_PORT" "8083";
    bind_addr = get_env "BIND_ADDR" "127.0.0.1";
    log_level = get_env "LOG_LEVEL" "info";
    sqlite_path = get_env "SQLITE_PATH" "/data/review-raven.db";
    in_progress_threshold_sec = get_env_int "IN_PROGRESS_THRESHOLD_SEC" (pos 30);
    gateway_internal_url = gateway_url;
    gateway_internal_secret = gateway_secret;
  }

  -- `loadConfig`.
  unfoldable pub load_config : Loaded
  load_config = elim config_error [ some x ↦ exits x | none ↦ loaded settings ]

-- Where a client takes its tokens from: the token of a request, or the gateway, cached by a
-- ReuseTokenSource.
pub data TokenOrigin : Type 0 where
  request_token : String → TokenOrigin
  gateway_source : TokenSource → TokenOrigin

module _ {Q : Type 0} (e : ConfigEnv Q) where
  -- `buildGatewayClientFactory`, on the token and the login of a watch.
  unfoldable pub build_gateway_client_factory : String → String → String → String → TokenOrigin
  build_gateway_client_factory url secret token login =
      elim (new_gateway_token_source e.gateway
        (record { endpoint = url; secret = secret; subject = login })) [
          | err x ↦ request_token token
          | ok ts ↦ gateway_source ts
        ]

  -- The factory of `main`: the option of the builder where the gateway is configured, or else the
  -- default one of the watch manager, a client of the request's token.
  unfoldable pub client_factory : Config → String → String → TokenOrigin
  unfolding build_gateway_client_factory
  client_factory c token login =
      if not (c.gateway_internal_url == "")
      then build_gateway_client_factory c.gateway_internal_url c.gateway_internal_secret token login
      else request_token token
