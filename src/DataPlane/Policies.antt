-- ===== src/DataPlane/Policies.antt =====
-- src/web_data_plane.rs: the policies of the four paths and their `validate`, with the direct
-- database statement. A URL is what the program reads of a `reqwest::Url`.
pub mod Bounds
use act_api_server_rs.DataPlane.{
  max_frame_bytes, read, DataPlaneError, unsafe_direct_database_policy, unsafe_http_policy,
  unsafe_tcp_policy, unsafe_jet_stream_policy, validate_identifier,
}
use act_api_server_rs.Prelude.{
  ℕ, Bool, false, not, ◌&&◌, ◌||◌, Option, none, some, List, [], ◌∷◌, leb, ◌==◌, in_range,
  if◌then◌else◌, is_some, any, Result, ok, err, ◌>>=◌, ◌>>◌, ensure, ok_or,
}
use act_api_server_rs.Text.{
  Text, txt, text_eq, is_empty, byte_len, is_whitespace, is_blank, starts_with, ends_with,
  rsplit_once, parse_uint,
}

-- The answers of the accessors of a parsed URL.
pub record Url : Type 0 where
  pub scheme : Text
  pub host_str : Option Text
  pub username : Text
  pub password : Option Text
  pub path : Text
  pub query : Option Text
  pub fragment : Option Text

pub record DirectDatabasePolicy : Type 0 where
  pub role_name : Text
  pub read_only_transaction : Bool
  pub statement_timeout_ms : ℕ
  pub row_limit : ℕ

-- `DirectDatabasePolicy::validate`
unfoldable pub validate_direct : DirectDatabasePolicy → Result (Unit {0}) DataPlaneError
validate_direct p =
    if not (ends_with p.role_name (txt "_web_ro")) || not p.read_only_transaction
    then err unsafe_direct_database_policy
    else if not (in_range 1 5000 p.statement_timeout_ms) || not (in_range 1 1000 p.row_limit)
    then err unsafe_direct_database_policy
    else ok tt

-- The bound parameters of a statement.
pub data SqlValue : Type 0 where
  sql_string : Text → SqlValue
  sql_big_int : ℕ → SqlValue

pub record Statement : Type 0 where
  pub sql : Text
  pub values : List SqlValue

-- `youtube_channel_select`
unfoldable pub youtube_channel_select :
    DirectDatabasePolicy → Text → Result Statement DataPlaneError
youtube_channel_select p actor = do
  validate_direct p
  validate_identifier actor 256
  ok (record {
    sql =
        txt
          "SELECT channel_id, handle, title FROM youtube_channels WHERE owner_subject = $1 ORDER BY channel_id LIMIT $2";
    values = sql_string actor ∷ sql_big_int p.row_limit ∷ [];
  })

pub record StatelessHttpPolicy : Type 0 where
  pub base_url : Text
  pub service_credential_ref : Text
  pub connect_timeout_ms : ℕ
  pub request_timeout_ms : ℕ
  pub max_response_bytes : ℕ
  pub redirects_enabled : Bool

-- `url.host_str().is_some_and(|host| host.ends_with(".svc.cluster.local"))`
abbrev pub is_cluster_host : Option Text → Bool
is_cluster_host none = false
is_cluster_host (some host) = ends_with host (txt ".svc.cluster.local")

abbrev pub cluster_http : Url → Bool
cluster_http url = text_eq url.scheme (txt "http") && is_cluster_host url.host_str

abbrev unsafe_http : StatelessHttpPolicy → Url → Bool
unsafe_http p url =
    (not (text_eq url.scheme (txt "https")) && not (cluster_http url))
    || (not (is_empty url.username)
        || (is_some url.password
            || (is_some url.query
                || (is_some url.fragment
                    || (is_blank p.service_credential_ref
                        || (p.redirects_enabled
                            || (not (in_range 1 2000 p.connect_timeout_ms)
                                || (not (in_range 1 10000 p.request_timeout_ms)
                                    || not (in_range 1 1048576 p.max_response_bytes)))))))))

-- `StatelessHttpPolicy::validate`; the URL parser is a parameter.
unfoldable pub validate_http :
    (Text → Option Url) → StatelessHttpPolicy → Result (Unit {0}) DataPlaneError
validate_http parse p = do
  url ← ok_or (parse p.base_url) unsafe_http_policy
  ensure (not (unsafe_http p url)) unsafe_http_policy

pub record StatefulMtlsTcpPolicy : Type 0 where
  pub address : Text
  pub server_name : Text
  pub ca_bundle_ref : Text
  pub client_certificate_ref : Text
  pub client_private_key_ref : Text
  pub mutual_tls_required : Bool
  pub per_operation_authentication : Bool
  pub bounded_backpressure : Bool
  pub connect_timeout_ms : ℕ
  pub operation_timeout_ms : ℕ
  pub max_frame_bytes : ℕ

abbrev u16_max : ℕ
u16_max = 65535

abbrev is_port : Option ℕ → Bool
is_port none = false
is_port (some port) = not (port == 0)

abbrev valid_parts : Option (Text × Text) → Bool
valid_parts none = false
valid_parts (some (host, port)) =
    not (is_empty host)
    && (leb (byte_len host) 253
        && (not (any is_whitespace host) && is_port (parse_uint u16_max port)))

-- `valid_host_port`
unfoldable pub valid_host_port : Text → Bool
valid_host_port value = valid_parts (rsplit_once b':' value)

abbrev unsafe_tcp : (Text → Bool) → StatefulMtlsTcpPolicy → Bool
unsafe_tcp is_socket_addr p =
    (not (is_socket_addr p.address) && not (valid_host_port p.address))
    || (is_blank p.server_name
        || (any is_blank
              (p.ca_bundle_ref ∷ p.client_certificate_ref ∷ p.client_private_key_ref ∷ [])
            || (not p.mutual_tls_required
                || (not p.per_operation_authentication
                    || (not p.bounded_backpressure
                        || (not (in_range 1 2000 p.connect_timeout_ms)
                            || (not (in_range 1 30000 p.operation_timeout_ms)
                                || not (in_range 1 max_frame_bytes p.max_frame_bytes))))))))

-- `StatefulMtlsTcpPolicy::validate`; the test for an IP socket address is a parameter.
unfoldable pub validate_tcp :
    (Text → Bool) → StatefulMtlsTcpPolicy → Result (Unit {0}) DataPlaneError
validate_tcp is_socket_addr p = ensure (not (unsafe_tcp is_socket_addr p)) unsafe_tcp_policy

pub record JetStreamPolicy : Type 0 where
  pub request_subject : Text
  pub result_subject_prefix : Text
  pub durable_consumer : Text
  pub max_deliveries : ℕ
  pub ack_wait_ms : ℕ
  pub publish_timeout_ms : ℕ
  pub explicit_ack : Bool
  pub transactional_outbox : Bool
  pub durable_inbox_dedupe : Bool
  pub queryable_status : Bool
  pub bounded_backpressure : Bool

abbrev unsafe_jet_stream : JetStreamPolicy → Bool
unsafe_jet_stream p =
    not (starts_with p.request_subject (txt "act.operations."))
    || (not (starts_with p.result_subject_prefix (txt "act.results."))
        || (is_blank p.durable_consumer
            || (not (in_range 1 20 p.max_deliveries)
                || (not (in_range 1000 120000 p.ack_wait_ms)
                    || (not (in_range 1 10000 p.publish_timeout_ms)
                        || (not p.explicit_ack
                            || (not p.transactional_outbox
                                || (not p.durable_inbox_dedupe
                                    || (not p.queryable_status
                                        || not p.bounded_backpressure)))))))))

-- `JetStreamPolicy::validate`
unfoldable pub validate_jet_stream : JetStreamPolicy → Result (Unit {0}) DataPlaneError
validate_jet_stream p = ensure (not (unsafe_jet_stream p)) unsafe_jet_stream_policy
