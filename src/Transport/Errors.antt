-- ===== src/Transport/Errors.antt =====
-- src/transport_runtime.rs: `TransportError` and its public codes.
use act_api_server_rs.Text.{Text, txt}

pub data TransportError : Type 0 where
  invalid_request unauthorized auth_unavailable unsupported_operation : TransportError
  operation_timeout database invalid_state transport : TransportError

-- `TransportError::code`
unfoldable pub code : TransportError → Text
code invalid_request = txt "invalid_request"
code unauthorized = txt "unauthorized"
code auth_unavailable = txt "auth_unavailable"
code unsupported_operation = txt "unsupported_operation"
code operation_timeout = txt "operation_timeout"
code database = txt "temporarily_unavailable"
code invalid_state = txt "temporarily_unavailable"
code transport = txt "temporarily_unavailable"
