-- ===== src/DataPlane.antt =====
-- src/web_data_plane.rs: the operation envelope and its admission, `validate_for`. The policies and
-- the frames are in DataPlane/Policies.antt and DataPlane/Frames.antt.
pub mod Admission
pub mod Policies
pub mod Frames
mod Tests
use act_api_server_rs.Prelude.{
  ℕ, ◌-◌, Bool, true, false, not, ◌&&◌, ◌||◌, Option, List, ltb, leb, ◌==◌, length, any, Result, ok,
  ◌>>=◌, ◌>>◌, ensure, ok_or,
}
use act_api_server_rs.Text.{Text, text_eq, is_empty, byte_len, is_control, trim}
use act_api_server_rs.Json.{Value}

abbrev pub max_operation_bytes : ℕ
max_operation_bytes = 16384

abbrev pub max_frame_bytes : ℕ
max_frame_bytes = 65536

abbrev pub max_operation_deadline_ms : ℕ
max_operation_deadline_ms = 30000

pub data WebApiMode : Type 0 where
  direct_read_only_database stateless_http stateful_mtls_tcp jet_stream_async : WebApiMode

pub data DataOperation : Type 0 where
  read write : DataOperation

pub record OperationEnvelope : Type 0 where
  pub version : ℕ  -- u8
  pub operation_id : Text
  pub subject : Text
  pub resource : Text
  pub operation : DataOperation
  pub payload : Value
  pub deadline_unix_ms : ℕ  -- u64
  pub dedupe_key : Option Text

pub data DataPlaneError : Type 0 where
  unsupported_version invalid_identifier payload_too_large deadline_expired : DataPlaneError
  deadline_too_far direct_database_write missing_dedupe_key serialization : DataPlaneError
  unsafe_direct_database_policy unsafe_http_policy unsafe_tcp_policy : DataPlaneError
  unsafe_jet_stream_policy invalid_frame : DataPlaneError

-- The test of `validate_identifier`.
abbrev pub bad_identifier : Text → ℕ → Bool
bad_identifier value maximum =
    is_empty value
    || ltb maximum (byte_len value)
    || any is_control value
    || not (text_eq (trim value) value)

unfoldable pub validate_identifier : Text → ℕ → Result (Unit {0}) DataPlaneError
validate_identifier value maximum = ensure (not (bad_identifier value maximum)) invalid_identifier

abbrev pub is_direct : WebApiMode → Bool
is_direct direct_read_only_database = true
is_direct _ = false

abbrev pub is_jet_stream : WebApiMode → Bool
is_jet_stream jet_stream_async = true
is_jet_stream _ = false

abbrev pub is_read : DataOperation → Bool
is_read read = true
is_read write = false

abbrev check_dedupe_key : Bool → Option Text → Result (Unit {0}) DataPlaneError
check_dedupe_key false key = ok tt
check_dedupe_key true key = do k ← ok_or key missing_dedupe_key; validate_identifier k 128

-- The encoder `serde_json::to_vec` and the clock `unix_time_ms` are parameters.
module _ (to_vec : OperationEnvelope → Option (List ℕ)) (now : ℕ) where
  -- `OperationEnvelope::validate_for`
  unfoldable pub validate_for : OperationEnvelope → WebApiMode → Result (Unit {0}) DataPlaneError
  validate_for e mode = do
    ensure (e.version == 1) unsupported_version
    validate_identifier e.operation_id 128
    validate_identifier e.subject 256
    validate_identifier e.resource 96
    encoded ← ok_or (to_vec e) serialization
    ensure (leb (length encoded) max_operation_bytes) payload_too_large
    ensure (ltb now e.deadline_unix_ms) deadline_expired
    ensure (leb (e.deadline_unix_ms - now) max_operation_deadline_ms) deadline_too_far
    ensure (not (is_direct mode && not (is_read e.operation))) direct_database_write
    check_dedupe_key (is_jet_stream mode) e.dedupe_key
