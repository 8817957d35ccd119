-- ===== src/Server/Config/Laws.antt =====
-- The settings of the gateway that the program starts with, and the clients that its watches then get.
use mathlib.Core.Path.{subst}
use copilot_review_mcp.Common.{
  true, String, none, arith, ◌≡◌, ◌≢◌, ◌↔◌, ◌⊎◌, inl, inr, ◌==◌, ◌||◌, string_eq, eq_iff,
  Bool-cases, Option-cases, if◌then◌else◌,
}
use copilot_review_mcp.Errors.{GoError, err, plain}
use copilot_review_mcp.Github.Gateway.{
  TokenSource, validate_gateway_endpoint, new_gateway_token_source,
}
use copilot_review_mcp.Github.Gateway.Laws.{new_gateway_token_source_iff}
use copilot_review_mcp.Server.Config.{
  ConfigEnv, Config, loaded, gateway_url, gateway_secret, config_error, settings, load_config,
  request_token, gateway_source, build_gateway_client_factory, client_factory,
}

module _ {Q : Type 0} (e : ConfigEnv Q) where
  -- Settings to start with: without the gateway, or with an endpoint and a secret that are accepted.
  abbrev pub IsAccepted : String → String → Type 0
  IsAccepted url secret =
      ((url ≡ "") × (secret ≡ ""))
      ⊎ ((url ≢ "") × (secret ≢ "") × (validate_gateway_endpoint e.gateway url secret ≡ none))

  pub config_error_iff : (config_error e ≡ none) ↔ IsAccepted (gateway_url e) (gateway_secret e)
  config_error_iff = elim (Bool-cases (gateway_url e == "")) [
    | inl a ↦ elim (Bool-cases (gateway_secret e == "")) [
      | inl b ↦ (
        λ h. inl ((eq_iff (gateway_url e) "").0 a, (eq_iff (gateway_secret e) "").0 b),
        λ h. ground arith,
      )
      | inr b ↦ (
        λ h. ground arith,
        λ h. ground (arith, h, eq_iff (gateway_url e) "", eq_iff (gateway_secret e) ""),
      )
    ]
    | inr a ↦ elim (Bool-cases (gateway_secret e == "")) [
      | inl b ↦ (
        λ h. ground arith,
        λ h. ground (arith, h, eq_iff (gateway_url e) "", eq_iff (gateway_secret e) ""),
      )
      | inr b ↦
          elim (Option-cases
            (validate_gateway_endpoint e.gateway (gateway_url e) (gateway_secret e))) [
              | inl v ↦ (
                λ h. inr (
                  ground (arith, eq_iff (gateway_url e) ""),
                  ground (arith, eq_iff (gateway_secret e) ""),
                  v,
                ),
                λ h. ground arith,
              )
              | inr (x, v) ↦ (
                λ h. ground arith,
                λ h. ground (arith, h, eq_iff (gateway_url e) "", eq_iff (gateway_secret e) ""),
              )
            ]
    ]
  ]

-- The program starts if and only if the trimmed settings of the gateway are both empty, or both given
-- and accepted by ValidateGatewayEndpoint.
pub load_config_iff :
    {Q : Type 0} (e : ConfigEnv Q)
    → ((c : Config) × (load_config e ≡ loaded c)) ↔ IsAccepted e (gateway_url e) (gateway_secret e)
unfolding load_config
load_config_iff e = elim (Option-cases (config_error e)) [
  | inl n ↦ (λ h. (config_error_iff e).0 n, λ h. (settings e, ground arith))
  | inr (x, n) ↦ (λ (c, h). ground arith, λ h. ground (arith, (config_error_iff e).1 h))
]

blank-source :
    {Q : Type 0} (e : ConfigEnv Q) (c : TokenSource)
    → (e.gateway.trim_space c.subject == "") ≡ true
    → (x : GoError) × (new_gateway_token_source e.gateway c ≡ err x)
unfolding new_gateway_token_source
blank-source e c b = elim (Bool-cases (e.gateway.trim_space c.endpoint == "")) [
  | inl q ↦ (plain "gateway: endpoint URL is required", ground arith)
  | inr q ↦ elim (Bool-cases (e.gateway.trim_space c.secret == "")) [
    | inl r ↦ (plain "gateway: shared secret is required", ground arith)
    | inr r ↦ (plain "gateway: subject is required", ground arith)
  ]
]

-- A source of tokens is made, or it is not, by the same test.
factory-source :
    {Q : Type 0} (e : ConfigEnv Q) (url secret token login : String)
    → validate_gateway_endpoint e.gateway url secret ≡ none
    → build_gateway_client_factory e url secret token login ≡ (
        if e.gateway.trim_space login == ""
        then request_token token
        else gateway_source (record { endpoint = url; secret = secret; subject = login }))
unfolding build_gateway_client_factory
factory-source e url secret token login v =
    let c : TokenSource = record { endpoint = url; secret = secret; subject = login } in
    let same = new_gateway_token_source_iff e.gateway c in
    elim (Bool-cases (e.gateway.trim_space login == "")) [
      | inr b ↦
          let made = same.1 (v, ground (arith, eq_iff (e.gateway.trim_space login) "")) in
          ground (arith, made)
      | inl b ↦ let (x, r) = blank-source e c b in ground arith
    ]

-- The clients of the watches of a program that has started. Without the gateway they use the token of
-- the request; with it, they take their tokens from the configured endpoint for the login of the watch,
-- and fall back to the token of the request only for a login that is blank.
pub client_factory-source :
    {Q : Type 0} (e : ConfigEnv Q) (c : Config) (token login : String)
    → load_config e ≡ loaded c
    → client_factory e c token login ≡ (
        if c.gateway_internal_url == "" || e.gateway.trim_space login == ""
        then request_token token
        else gateway_source (record {
          endpoint = c.gateway_internal_url;
          secret = c.gateway_internal_secret;
          subject = login;
        }))
unfolding load_config client_factory
client_factory-source e c token login h = elim (Option-cases (config_error e)) [
  | inr (x, n) ↦ ground arith
  | inl n ↦
      let same : settings e ≡ c = ground arith in
      subst
        (λ x. client_factory e x token login ≡ (
          if x.gateway_internal_url == "" || e.gateway.trim_space login == ""
          then request_token token
          else gateway_source (record {
            endpoint = x.gateway_internal_url;
            secret = x.gateway_internal_secret;
            subject = login;
          })))
        same
        (elim (Bool-cases (gateway_url e == "")) [
          | inl b ↦ ground arith
          | inr b ↦ ground (
            arith,
            (config_error_iff e).0 n,
            factory-source e (gateway_url e) (gateway_secret e) token login,
          )
        ])
]
