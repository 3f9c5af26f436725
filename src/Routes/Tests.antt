-- ===== src/Routes/Tests.antt =====
-- Concrete requests to the handlers of src/routes.rs.
mod Dispatches
use act_api_server_rs.Prelude.{
  ◌≡◌, refl, ◌⊎◌, true, false, Option, none, some, List, [], ◌∷◌, ◌++◌, ◌==◌, if◌then◌else◌,
  unwrap_or, length, Result, ok, err,
}
use act_api_server_rs.Text.{
  Text, txt, text_eq, byte_len, is_control, is_whitespace, trim, is_ascii_graphic,
}
use act_api_server_rs.Routes.{
  ApiError, AppState, Sent, authorize, from_youtube, header_string, operation_status, plain_error,
  posted, requested, succeeded, youtube_action,
}
use act_api_server_rs.DataPlane.Frames.{Bytes}
use act_api_server_rs.Transport.Tables.Store.{Database, StatusRow, find, read_status}
use act_api_server_rs.Json.{Fields, Value, bool, end, field, get, insert, null, remove, string}
use act_api_server_rs.Youtube.{
  GasEnvelope, YoutubeAction, YoutubeClientError, as_str, code_of, is_mutating, jobs, parse,
}
use act_api_server_rs.Auth.{HeaderMap, header, missing}
use act_api_server_rs.Transport.Journal.{OperationJournal, OperationStatus, in_progress}
use act_api_server_rs.Youtube.Errors.{Printer}
use act_api_server_rs.Youtube.Client.{Response, YoutubeGasClient, parse_response}
use act_api_server_rs.Routes.Events.{Sends, youtube_action-Sends}
use act_api_server_rs.Transport.Tables.Calls.{Session, autocommit, sea_orm_journal, status}
use act_api_server_rs.DataPlane.Policies.{Url}
use act_api_server_rs.Routes.Handlers.{operation_status_owned}
use act_api_server_rs.Youtube.Payloads.{prepare_payload, validate_idempotency_key}

abbrev pub web_app : Url
web_app = record {
  scheme = txt "https";
  host_str = some (txt "script.google.com");
  username = [];
  password = none;
  path = txt "/macros/s/id/exec";
  query = none;
  fragment = none;
}

abbrev pub gas : YoutubeGasClient
gas = record {
  web_app_url = web_app;
  api_key = txt "secret";
  expected_channel_handle = txt "@anticaptrad";
  max_response_bytes = 1024;
  allow_public_actions = false;
}

abbrev pub state : AppState
state = record {
  youtube = some gas;
  shared_auth =
      some (λ headers scopes. if length headers == 0 then err missing else ok (txt "actor"));
}

abbrev pub headers : HeaderMap
headers =
    (txt "authorization", some (txt "Bearer opaque"))
    ∷ (txt "idempotency-key", some (txt "k-1"))
    ∷ []

abbrev pub from_slice : Bytes → Result GasEnvelope Text
from_slice bytes =
    if length bytes == 2
    then ok (record { ok_flag = true; data_field = some (bool true); error_field = none })
    else err (txt "expected value")

abbrev pub lossy : Bytes → Text
lossy bytes = bytes

abbrev pub post : Fields → Result Response Text
post body = ok (record {
  status = 200;
  final_url = web_app;
  location = none;
  content_length = none;
  bytes = ok (txt "{}");
})

abbrev pub printer : Printer
printer = record {
  status_text = λ status. txt "302 Found";
  url_text = λ url. url.scheme ++ (txt "://" ++ (unwrap_or url.host_str [] ++ url.path));
  parse_url = λ text. none;
  quoted = λ text. txt "\"" ++ (text ++ txt "\"");
}

abbrev pub unauthorized : ApiError
unauthorized =
    plain_error 401 (txt "UNAUTHORIZED") (txt "a valid delegated Shared Auth bearer is required")

abbrev act : Text → HeaderMap → Result Value ApiError × List Sent
act action_name hs =
    youtube_action from_slice lossy post printer state action_name hs null (txt "yt-1-1")

pub routes : Unit {0}
unfolding youtube_action authorize header_string header from_youtube parse as_str is_mutating
    act_api_server_rs.Youtube.Client.execute parse_response prepare_payload validate_idempotency_key
    insert remove get text_eq txt byte_len is_ascii_graphic code_of
routes = tt

route_tests :
    (act (txt "channel") [] ≡ (err unauthorized, []))
    × (act (txt "nothing") headers ≡ (
      err (
          plain_error 404
            (txt "UNKNOWN_YOUTUBE_ACTION")
            (txt "unsupported YouTube action: nothing")),
      [],
    ))
    × ((act (txt "jobs") headers).0 ≡ ok (bool true))
    × ((act (txt "jobs") headers).1
        ≡ requested jobs (txt "k-1") null
          ∷ posted (
              field
                (txt "action")
                (string (txt "jobs"))
                (field (txt "apiKey") (string (txt "secret")) end))
          ∷ succeeded jobs (txt "k-1")
          ∷ [])
unfolding routes
route_tests = (refl, refl, refl, refl)

youtube_action-Sends_example :
    let run = act (txt "jobs") headers in
    ((e : ApiError) × (run.0 ≡ err e) × (run.1 ≡ []))
    ⊎ ((actor : Text) × (action : YoutubeAction) × (k : Option Text) × (bodies : List Fields)
        × (authorize state headers ≡ ok actor)
        × (parse (txt "jobs") ≡ some action)
        × (header_string headers (txt "idempotency-key") ≡ ok k)
        × Sends from_slice lossy post printer action (unwrap_or k (txt "yt-1-1")) null bodies run)
youtube_action-Sends_example =
    youtube_action-Sends from_slice lossy post printer state (txt "jobs") headers null
      (txt "yt-1-1")

abbrev row : StatusRow
row = record { subject = txt "actor"; status = in_progress; result_json = none }

abbrev database_with : Database
database_with = record { inbox = []; statuses = (txt "op-1", row) ∷ []; outbox = [] }

abbrev session : Session
session = record { committed = database_with; view = database_with; calls = 0 }

abbrev J : OperationJournal
J = sea_orm_journal (λ n. true) none (λ bytes. bytes) (λ bytes. none)

abbrev answered_status : OperationStatus
answered_status = record { operation_id = txt "op-1"; status = in_progress; result = none }

status_read : (operation_status J state true (txt "op-1") headers session).0 ≡ ok answered_status
unfolding routes operation_status status autocommit act_api_server_rs.Transport.Tables.Calls.◌>>=◌
    read_status find trim is_whitespace is_control
status_read = refl

operation_status_owned_example :
    (found : StatusRow) × (find (txt "op-1") database_with.statuses ≡ some found)
    × (authorize state headers ≡ ok found.subject)
    × (txt "op-1" ≡ txt "op-1")
    × (in_progress ≡ found.status)
operation_status_owned_example =
    operation_status_owned (λ n. true) none (λ bytes. bytes) (λ bytes. none) state true (txt "op-1")
      headers session status_read
