-- ===== src/Config.antt =====
-- src/config.rs: `Config::from_env`. The resolved flags are a parameter, `flag name`, as is the URL
-- parser and the test for an IP socket address. The values of variables are in Environment.antt.
pub mod Startup
pub mod Tests
use act_api_server_rs.Environment.{
  u64_max, Parsed, bad_channel_handle, bad_hmac_key, bad_response_limit, bad_secret,
  bad_service_credential, bad_timeout, database_url_missing, durable_needs_shared_auth,
  env_non_empty, gas_api_key_missing, gas_url_missing, hmac_key_missing, mtls_address,
  mtls_incomplete, mtls_needs_shared_auth, parse_apps_script_url, parse_bool, parse_number,
  shared_auth_credential_missing, shared_auth_url_missing, short_api_key, validate_durable_nats_url,
  youtube_needs_shared_auth,
}
use act_api_server_rs.Prelude.{
  ℕ, ◌-◌, ◌/◌, Bool, true, false, not, ◌&&◌, Option, none, some, leb, in_range, is_some, unwrap_or,
  ok, err, ◌>>=◌, ◌>>◌, ensure,
}
use act_api_server_rs.Text.{Text, txt, byte_len, starts_with}
use act_api_server_rs.DataPlane.Policies.{Url}

pub record SharedAuthConfig : Type 0 where
  pub base_url : Text
  pub service_credential : Text
  pub audience : Text

pub record MtlsConfig : Type 0 where
  pub address : Text
  pub certificate_file : Text
  pub private_key_file : Text
  pub client_ca_file : Text

pub record YoutubeConfig : Type 0 where
  pub web_app_url : Url
  pub api_key : Text
  pub expected_channel_handle : Text
  pub timeout_secs : ℕ
  pub max_response_bytes : ℕ
  pub allow_public_actions : Bool

pub record Config : Type 0 where
  pub port : ℕ
  pub nats_url : Text
  pub service_name : Text
  pub shared_auth : Option SharedAuthConfig
  pub youtube : Option YoutubeConfig
  pub operation_database_url : Option Text
  pub operation_attestation_key : Option Text
  pub mtls : Option MtlsConfig

pub parse_shared_auth : Option Text → Option Text → Parsed (Option SharedAuthConfig)
parse_shared_auth none none = ok none
parse_shared_auth none (some credential) = err shared_auth_url_missing
parse_shared_auth (some base_url) none = err shared_auth_credential_missing
parse_shared_auth (some base_url) (some credential) = do
  ensure (not (bad_secret 16 credential)) bad_service_credential
  ok (
      some
        (record { base_url = base_url; service_credential = credential; audience = txt "act-api" }))

-- `validate_operation_configuration`
unfoldable pub validate_operation_configuration : Bool → Option Text → Parsed (Unit {0})
validate_operation_configuration false none = ok tt
validate_operation_configuration true none = err hmac_key_missing
validate_operation_configuration false (some key) = err database_url_missing
validate_operation_configuration true (some key) = ensure (not (bad_secret 32 key)) bad_hmac_key

pub parse_mtls :
    (Text → Bool)
    → Option Text
    → Option Text
    → Option Text
    → Option Text
    → Parsed (Option MtlsConfig)
parse_mtls is_socket_addr none none none none = ok none
parse_mtls is_socket_addr (some address) (some certificate) (some private_key) (some client_ca) = do
  ensure (is_socket_addr address) mtls_address
  ok (
      some (record {
        address = address;
        certificate_file = certificate;
        private_key_file = private_key;
        client_ca_file = client_ca;
      }))
parse_mtls is_socket_addr _ _ _ _ = err mtls_incomplete

module _ (flag : Text → Option Text) (parse_url : Text → Option Url)
    (is_socket_addr : Text → Bool) where
  abbrev pub channel_handle_of : Text
  channel_handle_of =
      unwrap_or (env_non_empty flag (txt "YOUTUBE_EXPECTED_CHANNEL_HANDLE")) (txt "@anticaptrad")

  abbrev pub timeout_secs_of : Parsed ℕ
  timeout_secs_of =
      parse_number (txt "YOUTUBE_GAS_TIMEOUT_SECS") u64_max 30
        (env_non_empty flag (txt "YOUTUBE_GAS_TIMEOUT_SECS"))

  -- `usize` has 64 bits.
  abbrev pub max_response_bytes_of : Parsed ℕ
  max_response_bytes_of =
      parse_number (txt "YOUTUBE_GAS_MAX_RESPONSE_BYTES") u64_max 4194304
        (env_non_empty flag (txt "YOUTUBE_GAS_MAX_RESPONSE_BYTES"))

  abbrev pub allow_public_actions_of : Parsed Bool
  allow_public_actions_of =
      parse_bool (txt "YOUTUBE_ALLOW_PUBLIC_ACTIONS") false
        (env_non_empty flag (txt "YOUTUBE_ALLOW_PUBLIC_ACTIONS"))

  pub parse_youtube : Option Text → Option Text → Parsed (Option YoutubeConfig)
  unfolding parse_number parse_bool
  parse_youtube none none = ok none
  parse_youtube none (some api_key) = err gas_url_missing
  parse_youtube (some raw_url) none = err gas_api_key_missing
  parse_youtube (some raw_url) (some api_key) = do
    ensure (leb 32 (byte_len api_key)) short_api_key
    url ← parse_apps_script_url parse_url raw_url
    ensure (starts_with channel_handle_of (txt "@")) bad_channel_handle
    timeout_secs ← timeout_secs_of
    ensure (in_range 1 120 timeout_secs) bad_timeout
    limit ← max_response_bytes_of
    ensure (in_range 1024 16777216 limit) bad_response_limit
    allow ← allow_public_actions_of
    ok (
        some (record {
          web_app_url = url;
          api_key = api_key;
          expected_channel_handle = channel_handle_of;
          timeout_secs = timeout_secs;
          max_response_bytes = limit;
          allow_public_actions = allow;
        }))

  check_durable : Option Text → Text → Option SharedAuthConfig → Parsed (Unit {0})
  check_durable none nats_url shared_auth = ok tt
  check_durable (some url) nats_url shared_auth = do
    validate_durable_nats_url nats_url
    ensure (is_some shared_auth) durable_needs_shared_auth

  -- What `from_env` reads, in order.
  abbrev pub port_of : Parsed ℕ
  port_of = parse_number (txt "PORT") 65535 8080 (env_non_empty flag (txt "PORT"))

  abbrev pub nats_url_of : Text
  nats_url_of = unwrap_or (env_non_empty flag (txt "NATS_URL")) (txt "nats://localhost:4222")

  abbrev pub service_name_of : Text
  service_name_of = unwrap_or (env_non_empty flag (txt "OTEL_SERVICE_NAME")) (txt "act-api-server")

  abbrev pub shared_auth_of : Parsed (Option SharedAuthConfig)
  shared_auth_of =
      parse_shared_auth (env_non_empty flag (txt "SHARED_AUTH_URL"))
        (env_non_empty flag (txt "SHARED_AUTH_SERVICE_CREDENTIAL"))

  abbrev pub youtube_of : Parsed (Option YoutubeConfig)
  youtube_of =
      parse_youtube (env_non_empty flag (txt "YOUTUBE_GAS_URL"))
        (env_non_empty flag (txt "YOUTUBE_GAS_API_KEY"))

  abbrev pub database_url_of : Option Text
  database_url_of = env_non_empty flag (txt "ACT_OPERATION_DATABASE_URL")

  abbrev pub attestation_key_of : Option Text
  attestation_key_of = env_non_empty flag (txt "ACT_NATS_OPERATION_HMAC_KEY")

  -- `parse_mtls_config`
  abbrev pub mtls_of : Parsed (Option MtlsConfig)
  mtls_of =
      parse_mtls is_socket_addr (env_non_empty flag (txt "ACT_API_MTLS_ADDR"))
        (env_non_empty flag (txt "ACT_API_TLS_CERT_FILE"))
        (env_non_empty flag (txt "ACT_API_TLS_KEY_FILE"))
        (env_non_empty flag (txt "ACT_API_CLIENT_CA_FILE"))

  -- `Config::from_env`
  unfoldable pub from_env : Parsed Config
  unfolding parse_number parse_shared_auth parse_youtube check_durable parse_mtls
  from_env = do
    port ← port_of
    shared_auth ← shared_auth_of
    youtube ← youtube_of
    ensure (not (is_some youtube && not (is_some shared_auth))) youtube_needs_shared_auth
    validate_operation_configuration (is_some database_url_of) attestation_key_of
    check_durable database_url_of nats_url_of shared_auth
    mtls ← mtls_of
    ensure (not (is_some mtls && not (is_some shared_auth))) mtls_needs_shared_auth
    ok (record {
      port = port;
      nats_url = nats_url_of;
      service_name = service_name_of;
      shared_auth = shared_auth;
      youtube = youtube;
      operation_database_url = database_url_of;
      operation_attestation_key = attestation_key_of;
      mtls = mtls;
    })
