-- ===== src/Config/Tests.antt =====
-- Concrete environments for src/config.rs.
use act_api_server_rs.Prelude.{
  ◌≡◌, refl, Bool, false, Option, none, some, ◌++◌, if◌then◌else◌, ok, err,
}
use act_api_server_rs.Text.{
  Text, txt, text_eq, byte_len, is_control, is_whitespace, trim, starts_with, ends_with,
  ascii_lower, parse_uint,
}
use act_api_server_rs.Config.{Config, from_env, validate_operation_configuration}
use act_api_server_rs.Environment.{
  database_url_missing, durable_needs_tls, hmac_key_missing, parse_apps_script_url,
  shared_auth_url_missing, validate_durable_nats_url,
}
use act_api_server_rs.Config.Startup.{IsSafe, from_env-IsSafe, validate_durable_nats_url_prefix}
use act_api_server_rs.DataPlane.Policies.{Url}

config : Unit {0}
unfolding from_env parse_apps_script_url validate_durable_nats_url validate_operation_configuration
    text_eq trim is_whitespace byte_len is_control ascii_lower parse_uint starts_with ends_with txt
config = tt

abbrev pub secret : Text
secret = txt "0123456789abcdef0123456789abcdef"

abbrev pub flag : Text → Option Text
flag name =
    if text_eq name (txt "PORT")
    then some (txt " 9124 ")
    else if text_eq name (txt "NATS_URL")
    then some (txt "tls://nats.act:4222")
    else if text_eq name (txt "SHARED_AUTH_URL")
    then some (txt "https://auth.act")
    else if text_eq name (txt "SHARED_AUTH_SERVICE_CREDENTIAL")
    then some secret
    else if text_eq name (txt "ACT_OPERATION_DATABASE_URL")
    then some (txt "postgres://act")
    else if text_eq name (txt "ACT_NATS_OPERATION_HMAC_KEY")
    then some secret
    else none

abbrev without : Text → Text → Option Text
without hidden name = if text_eq name hidden then none else flag name

abbrev pub parse_url : Text → Option Url
parse_url raw = none

abbrev pub is_socket_addr : Text → Bool
is_socket_addr raw = false

abbrev pub started : Config
started = record {
  port = 9124;
  nats_url = txt "tls://nats.act:4222";
  service_name = txt "act-api-server";
  shared_auth = some (record {
    base_url = txt "https://auth.act";
    service_credential = secret;
    audience = txt "act-api";
  });
  youtube = none;
  operation_database_url = some (txt "postgres://act");
  operation_attestation_key = some secret;
  mtls = none;
}

pub flags_accepted : from_env flag parse_url is_socket_addr ≡ ok started
unfolding config
flags_accepted = refl

config_tests :
    (from_env (without (txt "ACT_NATS_OPERATION_HMAC_KEY")) parse_url is_socket_addr
      ≡ err hmac_key_missing)
    × (from_env (without (txt "ACT_OPERATION_DATABASE_URL")) parse_url is_socket_addr
        ≡ err database_url_missing)
    × (from_env (without (txt "SHARED_AUTH_URL")) parse_url is_socket_addr
        ≡ err shared_auth_url_missing)
    × (validate_durable_nats_url (txt "nats://nats.act:4222") ≡ err durable_needs_tls)
unfolding config
config_tests = (refl, refl, refl, refl)

from_env-IsSafe_example : IsSafe flag parse_url is_socket_addr started
from_env-IsSafe_example = from_env-IsSafe flag parse_url is_socket_addr flags_accepted

validate_durable_nats_url_prefix_example :
    validate_durable_nats_url (txt "nats://localhost" ++ txt ".example.org:4222") ≡ ok tt
validate_durable_nats_url_prefix_example =
    validate_durable_nats_url_prefix (txt ".example.org:4222")
