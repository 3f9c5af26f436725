-- ===== src/Server.antt =====
-- src/server.rs: `RuntimeOperationService`, the service behind both operation transports. Shared
-- Auth's verifier, `HeaderValue::from_str` and the URL's path segments are parameters.
pub mod Answers
pub mod Wiring
pub mod Run
mod Tests
use act_api_server_rs.Prelude.{
  Bool, true, false, ◌&&◌, Option, none, some, List, [], ◌∷◌, all, Result, ok, ◌>>=◌, ◌>>◌, ensure,
  ok_or, map_err,
}
use act_api_server_rs.Text.{Text, txt, text_eq}
use act_api_server_rs.Auth.{AuthFailure, HeaderMap, invalid, missing, unavailable}
use act_api_server_rs.Transport.Requests.{AuthenticatedOperation}
use act_api_server_rs.DataPlane.Frames.{Bytes}
use act_api_server_rs.DataPlane.{OperationEnvelope, WebApiMode, is_jet_stream, is_read}
use act_api_server_rs.Transport.Errors.{
  TransportError, auth_unavailable, unauthorized, unsupported_operation,
}
use act_api_server_rs.DataPlane.Policies.{Url}
use act_api_server_rs.Json.{Value, bool, end, field, null, object, string}
use act_api_server_rs.Youtube.Client.{YoutubeGasClient, deployment_id}
use act_api_server_rs.Transport.Attestation.{verify_operation_attestation}

pub record RuntimeOperationService : Type 0 where
  pub shared_auth : HeaderMap → List Text → Result Text AuthFailure
  pub youtube : Option YoutubeGasClient
  pub operation_attestation_key : Option Bytes

transport_failure : AuthFailure → TransportError
transport_failure missing = unauthorized
transport_failure invalid = unauthorized
transport_failure unavailable = auth_unavailable

-- `payload != json!({})`
abbrev pub is_empty_object : Value → Bool
is_empty_object (object end) = true
is_empty_object _ = false

text_or_null : Option Text → Value
text_or_null none = null
text_or_null (some t) = string t

abbrev pub is_status_read : OperationEnvelope → Bool
is_status_read e =
    text_eq e.resource (txt "youtube_status") && (is_read e.operation && is_empty_object e.payload)

module _ (to_vec : OperationEnvelope → Option Bytes) (hmac : Bytes → Bytes → Bytes)
    (from_str : Text → Option (Option Text)) (path_segments : Url → Option (List Text)) where
  -- The two ways in: the attestation on JetStream, Shared Auth elsewhere.
  authenticate :
      RuntimeOperationService → Bool → AuthenticatedOperation → Result (Unit {0}) TransportError
  unfolding transport_failure
  authenticate s true request = do
    key ← ok_or s.operation_attestation_key unauthorized
    verify_operation_attestation to_vec hmac key request.envelope request.authorization
  authenticate s false request = do
    value ← ok_or (from_str request.authorization) unauthorized
    subject ←
        map_err (s.shared_auth ((txt "authorization", value) ∷ []) (txt "youtube:admin" ∷ []))
          transport_failure
    ensure (text_eq subject request.envelope.subject) unauthorized

  pub youtube_state : YoutubeGasClient → Value
  unfolding text_or_null
  youtube_state client = object (
      field (txt "configured") (bool true) (
        field (txt "expectedChannelHandle") (string client.expected_channel_handle) (
          field (txt "deploymentId")
            (text_or_null (deployment_id (path_segments client.web_app_url)))
            (field (txt "publicActionsEnabled") (bool client.allow_public_actions) (
              field (txt "appsScriptApiKeyPresent") (bool true)
                (field (txt "appsScriptApiKeyExposed") (bool false) end))))))

  -- `execute`
  unfoldable pub execute :
      RuntimeOperationService → AuthenticatedOperation → WebApiMode → Result Value TransportError
  unfolding authenticate youtube_state
  execute s request mode = do
    authenticate s (is_jet_stream mode) request
    ensure (is_status_read request.envelope) unsupported_operation
    client ← ok_or s.youtube unsupported_operation
    ok (youtube_state client)
