-- ===== src/Environment.antt =====
-- src/config.rs: the values of single variables, and the errors of the configuration. An error is
-- what its message is about.
use act_api_server_rs.Prelude.{
  ℕ, Bool, true, false, not, ◌&&◌, ◌||◌, Option, none, some, List, [], ◌∷◌, reverse, ltb, ◌==◌,
  if◌then◌else◌, is_some, any, Result, ok, err, ◌>>=◌, ◌>>◌, ensure, ok_or,
}
use act_api_server_rs.Text.{
  Text, txt, text_eq, byte_len, is_control, trim, is_blank, starts_with, ends_with,
  to_ascii_lowercase, parse_uint,
}
use act_api_server_rs.DataPlane.Policies.{Url}

pub data ConfigError : Type 0 where
  invalid_value not_a_bool : Text → ConfigError
  shared_auth_url_missing shared_auth_credential_missing bad_service_credential : ConfigError
  gas_url_missing gas_api_key_missing short_api_key bad_channel_handle : ConfigError
  bad_timeout bad_response_limit : ConfigError
  gas_url_invalid gas_url_scheme gas_url_host gas_url_suffix gas_url_path : ConfigError
  youtube_needs_shared_auth durable_needs_shared_auth mtls_needs_shared_auth : ConfigError
  hmac_key_missing database_url_missing bad_hmac_key durable_needs_tls : ConfigError
  mtls_incomplete mtls_address : ConfigError

abbrev pub u64_max : ℕ
u64_max = 0xffffffffffffffff

abbrev pub Parsed : Type 0 → Type 0
Parsed A = Result A ConfigError

-- `env_non_empty`
abbrev pub env_non_empty : (Text → Option Text) → Text → Option Text
env_non_empty flag name = elim (flag name) [
  | none ↦ none
  | some value ↦ if is_blank value then none else some (trim value)
]

unfoldable pub parse_number : Text → ℕ → ℕ → Option Text → Parsed ℕ
parse_number name largest default none = ok default
parse_number name largest default (some value) =
    ok_or (parse_uint largest value) (invalid_value name)

is_any : Text → List Text → Bool
is_any value words = any (text_eq value) words

unfoldable pub parse_bool : Text → Bool → Option Text → Parsed Bool
unfolding is_any
parse_bool name default none = ok default
parse_bool name default (some value) =
    let lower = to_ascii_lowercase value in
    if is_any lower (txt "1" ∷ txt "true" ∷ txt "yes" ∷ txt "on" ∷ [])
    then ok true
    else if is_any lower (txt "0" ∷ txt "false" ∷ txt "no" ∷ txt "off" ∷ [])
    then ok false
    else err (not_a_bool name)

abbrev pub bad_secret : ℕ → Text → Bool
bad_secret least value = ltb (byte_len value) least || any is_control value

abbrev pub trim_slashes : Text → Text
trim_slashes [] = []
trim_slashes (c ∷ s) = if c == b'/' then trim_slashes s else c ∷ s

-- `path.trim_end_matches('/')`
abbrev pub trim_end_slashes : Text → Text
trim_end_slashes path = reverse (trim_slashes (reverse path))

abbrev pub is_script_host : Option Text → Bool
is_script_host none = false
is_script_host (some host) = text_eq host (txt "script.google.com")

abbrev pub is_exec_path : Text → Bool
is_exec_path path = starts_with path (txt "/macros/s/") && ends_with path (txt "/exec")

-- `parse_apps_script_url`
unfoldable pub parse_apps_script_url : (Text → Option Url) → Text → Parsed Url
parse_apps_script_url parse_url raw = do
  url ← ok_or (parse_url raw) gas_url_invalid
  ensure (text_eq url.scheme (txt "https")) gas_url_scheme
  ensure (is_script_host url.host_str) gas_url_host
  ensure (not (is_some url.query || is_some url.fragment)) gas_url_suffix
  ensure (is_exec_path (trim_end_slashes url.path)) gas_url_path
  ok url

-- `validate_durable_nats_url`
unfoldable pub validate_durable_nats_url : Text → Parsed (Unit {0})
validate_durable_nats_url value =
    ensure
      (any (starts_with value)
        (txt "tls://" ∷ txt "nats://127.0.0.1" ∷ txt "nats://localhost" ∷ txt "nats://[::1]" ∷ []))
      durable_needs_tls
