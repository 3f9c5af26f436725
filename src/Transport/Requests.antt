-- ===== src/Transport/Requests.antt =====
-- src/transport_runtime.rs: `AuthenticatedOperation`, `OperationReply` and `process_payload`. The
-- JSON codecs, the clock and the service are parameters; a service's answer is `none` when
-- `OPERATION_TIMEOUT` passes.
pub mod Gate
use act_api_server_rs.Prelude.{
  ℕ, Bool, true, false, Option, none, some, [], ltb, if◌then◌else◌, length, Result, ok, err, ◌>>=◌,
  ◌>>◌, map_err,
}
use act_api_server_rs.Text.{Text, txt}
use act_api_server_rs.Transport.Errors.{TransportError, invalid_request, operation_timeout, code}
use act_api_server_rs.DataPlane.{WebApiMode, OperationEnvelope, is_jet_stream, validate_for}
use act_api_server_rs.Json.{Value}
use act_api_server_rs.DataPlane.Frames.{Bytes}
use act_api_server_rs.Transport.Attestation.{
  validate_authorization, validate_operation_attestation_shape,
}

abbrev pub max_transport_bytes : ℕ
max_transport_bytes = 65536

pub record AuthenticatedOperation : Type 0 where
  pub authorization : Text
  pub envelope : OperationEnvelope

pub record OperationReply : Type 0 where
  pub operation_id : Option Text
  pub result : Option Value
  pub error : Option Text

abbrev pub reply_ok : Text → Value → OperationReply
reply_ok operation_id result = record {
  operation_id = some operation_id;
  result = some result;
  error = none;
}

abbrev pub reply_error : Option Text → Text → OperationReply
reply_error operation_id error = record {
  operation_id = operation_id;
  result = none;
  error = some error;
}

abbrev check_authorization : Bool → Text → Result (Unit {0}) TransportError
check_authorization true value = validate_operation_attestation_shape value
check_authorization false value = validate_authorization value

-- `OperationService::execute`, under the timeout of its caller.
abbrev pub Service : Type 0
Service = AuthenticatedOperation → WebApiMode → Option (Result Value TransportError)

-- A reply, with the request that was handed to the service.
pub record Processed : Type 0 where
  pub reply : OperationReply
  pub executed : Option AuthenticatedOperation

unfoldable pub answer : Text → Option (Result Value TransportError) → OperationReply
answer operation_id none = reply_error (some operation_id) (code operation_timeout)
answer operation_id (some (ok result)) = reply_ok operation_id result
answer operation_id (some (err e)) = reply_error (some operation_id) (code e)

module _ (to_vec : OperationEnvelope → Option Bytes) (now : ℕ) where
  -- `AuthenticatedOperation::validate`
  unfoldable pub validate : AuthenticatedOperation → WebApiMode → Result (Unit {0}) TransportError
  validate request mode = do
    check_authorization (is_jet_stream mode) request.authorization
    map_err (validate_for to_vec now request.envelope mode) (λ _. invalid_request)

  process_request : Service → WebApiMode → AuthenticatedOperation → Processed
  process_request service mode request = elim (validate request mode) [
    | err e ↦ record {
      reply = reply_error (some request.envelope.operation_id) (code e);
      executed = none;
    }
    | ok _ ↦ record {
      reply = answer request.envelope.operation_id (service request mode);
      executed = some request;
    }
  ]

  process_parsed : Service → WebApiMode → Option AuthenticatedOperation → Processed
  unfolding process_request
  process_parsed service mode none = record {
    reply = reply_error none (txt "invalid_request");
    executed = none;
  }
  process_parsed service mode (some request) = process_request service mode request

  -- `process_payload`
  unfoldable pub process_payload :
      (Bytes → Option AuthenticatedOperation) → Service → Bytes → WebApiMode → Processed
  unfolding process_parsed
  process_payload from_slice service payload mode =
      if ltb max_transport_bytes (length payload)
      then record { reply = reply_error none (txt "invalid_request"); executed = none }
      else process_parsed service mode (from_slice payload)
