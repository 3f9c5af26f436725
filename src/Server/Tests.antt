-- ===== src/Server/Tests.antt =====
-- A concrete request to the service of src/server.rs.
pub mod Wirings
mod Runs
use act_api_server_rs.Prelude.{
  ◌≡◌, refl, false, Option, none, some, List, [], ◌∷◌, ◌++◌, if◌then◌else◌, ok, err, ◌==◌, length,
}
use act_api_server_rs.Text.{Text, txt, text_eq}
use act_api_server_rs.Transport.Requests.{AuthenticatedOperation}
use act_api_server_rs.DataPlane.Frames.{Bytes}
use act_api_server_rs.Server.Answers.{IsAuthentic, execute_sound}
use act_api_server_rs.DataPlane.{OperationEnvelope, jet_stream_async, read, stateless_http}
use act_api_server_rs.Server.{RuntimeOperationService, execute, youtube_state}
use act_api_server_rs.DataPlane.Policies.{Url}
use act_api_server_rs.Youtube.Client.{YoutubeGasClient, deployment_id}
use act_api_server_rs.Json.{end, object}
use act_api_server_rs.Auth.{missing}
use act_api_server_rs.Transport.Errors.{unauthorized, unsupported_operation}

abbrev client : YoutubeGasClient
client = record {
  web_app_url = record {
    scheme = txt "https";
    host_str = some (txt "script.google.com");
    username = [];
    password = none;
    path = txt "/macros/s/id/exec";
    query = none;
    fragment = none;
  };
  api_key = txt "secret";
  expected_channel_handle = txt "@anticaptrad";
  max_response_bytes = 1024;
  allow_public_actions = false;
}

abbrev service : RuntimeOperationService
service = record {
  shared_auth = λ headers scopes. if length scopes == 1 then ok (txt "actor") else err missing;
  youtube = some client;
  operation_attestation_key = none;
}

abbrev request : AuthenticatedOperation
request = record {
  authorization = txt "Bearer opaque";
  envelope = record {
    version = 1;
    operation_id = txt "op-1";
    subject = txt "actor";
    resource = txt "youtube_status";
    operation = read;
    payload = object end;
    deadline_unix_ms = 31000;
    dedupe_key = none;
  };
}

abbrev to_vec : OperationEnvelope → Option Bytes
to_vec e = some e.operation_id

abbrev hmac : Bytes → Bytes → Bytes
hmac key message = key ++ message

abbrev from_str : Text → Option (Option Text)
from_str value = some (some value)

abbrev path_segments : Url → Option (List Text)
path_segments url = some (txt "macros" ∷ txt "s" ∷ txt "id" ∷ txt "exec" ∷ [])

server : Unit {0}
unfolding execute deployment_id text_eq txt
server = tt

request_answered :
    execute to_vec hmac from_str path_segments service request stateless_http
    ≡ ok (youtube_state to_vec hmac from_str path_segments client)
unfolding server
request_answered = refl

service_tests :
    (execute to_vec hmac from_str path_segments service request jet_stream_async ≡ err unauthorized)
    × (execute to_vec hmac from_str path_segments
          (record service { youtube = none })
          request
          stateless_http
        ≡ err unsupported_operation)
unfolding server
service_tests = (refl, refl)

execute_sound_example :
    IsAuthentic to_vec hmac from_str path_segments service request false
    × (request.envelope.resource ≡ txt "youtube_status")
    × (request.envelope.operation ≡ read)
    × (request.envelope.payload ≡ object end)
    × ((c : YoutubeGasClient) × (service.youtube ≡ some c)
        × (youtube_state to_vec hmac from_str path_segments client
            ≡ youtube_state to_vec hmac from_str path_segments c))
execute_sound_example =
    execute_sound to_vec hmac from_str path_segments service request stateless_http request_answered
