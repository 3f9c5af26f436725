-- ===== src/Routes.antt =====
-- src/routes.rs: the guarded handlers of the HTTP server; the router and its probes are in Dispatch.
-- The verifier, the HTTP client, durations and the sequence number of a request are parameters.
pub mod Handlers
pub mod Dispatch
pub mod Events
mod Tests
use act_api_server_rs.Json.{bool, end, field, object, string, Fields, Value}
use act_api_server_rs.Youtube.{
  is_mutating, GasEnvelope, YoutubeAction, YoutubeClientError, as_str, code_of, parse, validation,
}
use act_api_server_rs.Youtube.Errors.{Printer, details, display}
use act_api_server_rs.Youtube.Audit.{redact_map_for_audit}
use act_api_server_rs.Youtube.Client.{execute, Response, YoutubeGasClient}
use act_api_server_rs.Prelude.{
  ℕ, ◌+◌, ◌-◌, Bool, not, ◌||◌, Option, none, some, List, [], ◌∷◌, ◌++◌, map, ltb, ◌==◌, unwrap_or,
  any, Result, ok, err, ◌>>=◌, ◌>>◌, ensure, ok_or, map_err,
}
use act_api_server_rs.Text.{Text, txt, text_eq, is_empty, byte_len, is_control, trim}
use act_api_server_rs.Auth.{AuthFailure, HeaderMap, header, invalid, missing, unavailable, verify}
use act_api_server_rs.DataPlane.Frames.{Bytes}
use act_api_server_rs.Transport.Journal.{OperationJournal, OperationStatus}
use act_api_server_rs.Transport.Errors.{TransportError}
use act_api_server_rs.Transport.Requests.{answer}

pub record ApiError : Type 0 where
  pub status : ℕ
  pub code : Text
  pub message : Text
  pub details : Option Value
  pub request_id : Option Text

abbrev pub plain_error : ℕ → Text → Text → ApiError
plain_error status code message = record {
  status = status;
  code = code;
  message = message;
  details = none;
  request_id = none;
}

-- `format!("yt-{millis}-{sequence}")`, on the digits of both numbers.
abbrev pub request_id : Text → Text → Text
request_id millis sequence = txt "yt-" ++ (millis ++ (txt "-" ++ sequence))

-- The header `WWW-Authenticate` that `into_response` adds.
abbrev pub challenges : ApiError → Bool
challenges e = e.status == 401

status_of_error : YoutubeClientError → ℕ
status_of_error (validation v) = 400
status_of_error _ = 502

-- `ApiError::from_youtube`
unfoldable pub from_youtube : Printer → YoutubeClientError → Text → ApiError
unfolding status_of_error
from_youtube printer e id = record {
  status = status_of_error e;
  code = code_of e;
  message = display printer e;
  details = details printer e;
  request_id = some id;
}

-- `AppState`, less the NATS client: without one, events are dropped by `publish_json`.
pub record AppState : Type 0 where
  pub youtube : Option YoutubeGasClient
  pub shared_auth : Option (HeaderMap → List Text → Result Text AuthFailure)

refusal : AuthFailure → ApiError
refusal missing =
    plain_error 401 (txt "UNAUTHORIZED") (txt "a valid delegated Shared Auth bearer is required")
refusal invalid =
    plain_error 401 (txt "UNAUTHORIZED") (txt "a valid delegated Shared Auth bearer is required")
refusal unavailable =
    plain_error 503 (txt "SHARED_AUTH_UNAVAILABLE") (txt "Shared Auth verification is unavailable")

abbrev pub auth_not_configured : ApiError
auth_not_configured =
    plain_error 503 (txt "SHARED_AUTH_NOT_CONFIGURED")
      (txt "Shared Auth is not configured; protected routes are closed")

-- `ApiError::youtube_not_configured`
abbrev pub not_configured : ApiError
not_configured =
    plain_error 503 (txt "YOUTUBE_GAS_NOT_CONFIGURED")
      (txt "set YOUTUBE_GAS_URL and YOUTUBE_GAS_API_KEY to enable channel management")

-- `authorize`
unfoldable pub authorize : AppState → HeaderMap → Result Text ApiError
unfolding refusal
authorize state headers = do
  verify ← ok_or state.shared_auth auth_not_configured
  map_err (verify headers (txt "youtube:admin" ∷ [])) refusal

-- `header_string`
unfoldable pub header_string : HeaderMap → Text → Result (Option Text) ApiError
header_string headers name = elim (header name headers) [
  | none ↦ ok none
  | some none ↦
      err (plain_error 400 (txt "INVALID_HEADER") (name ++ txt " must contain valid ASCII"))
  | some (some value) ↦ ok (some value)
]

-- An event on the bus, with its subject and its body less the duration, and a request to Apps Script.
pub data Sent : Type 0 where
  event : Text → Fields → Sent
  posted : Fields → Sent

-- `format!("act.youtube.{}.{stage}", action.as_str())`
abbrev pub subject_of : YoutubeAction → Text → Text
subject_of action stage = txt "act.youtube." ++ (as_str action ++ (txt "." ++ stage))

-- The fields that every event of an action has.
abbrev action_body : YoutubeAction → Text → Fields → Fields
action_body action id rest =
    field (txt "requestId") (string id) (field (txt "action") (string (as_str action)) rest)

abbrev pub requested : YoutubeAction → Text → Value → Sent
requested action id payload = event (subject_of action (txt "requested")) (
    action_body action id (
      field (txt "mutating") (bool (is_mutating action))
        (field (txt "fields") (object (redact_map_for_audit payload)) end)))

abbrev pub succeeded : YoutubeAction → Text → Sent
succeeded action id = event (subject_of action (txt "succeeded")) (action_body action id end)

abbrev pub action_failed : YoutubeAction → Text → Text → Sent
action_failed action id code =
    event (subject_of action (txt "failed"))
      (action_body action id (field (txt "errorCode") (string code) end))

module _ (from_slice : Bytes → Result GasEnvelope Text) (from_utf8_lossy : Bytes → Text)
    (post : Fields → Result Response Text) (printer : Printer) where
  -- The end of `youtube_action`, from the answer of the client.
  finish_action :
      YoutubeAction
      → Text
      → Value
      → Result Value YoutubeClientError × List Fields
      → Result Value ApiError × List Sent
  finish_action action id payload (ok value, bodies) =
      (ok value, requested action id payload ∷ map posted bodies ++ succeeded action id ∷ [])
  finish_action action id payload (err e, bodies) = (
    err (from_youtube printer e id),
    requested action id payload ∷ map posted bodies ++ action_failed action id (code_of e) ∷ [],
  )

  -- The checks of `youtube_action`, in order.
  admit_action :
      AppState → Text → HeaderMap → Result (YoutubeAction × Option Text × YoutubeGasClient) ApiError
  admit_action state action_name headers = do
    actor ← authorize state headers
    action ← ok_or (parse action_name) (
        plain_error 404 (txt "UNKNOWN_YOUTUBE_ACTION")
          (txt "unsupported YouTube action: " ++ action_name))
    idempotency_key ← header_string headers (txt "idempotency-key")
    client ← ok_or state.youtube not_configured
    ok (action, idempotency_key, client)

  run_action :
      Text
      → Value
      → Result (YoutubeAction × Option Text × YoutubeGasClient) ApiError
      → Result Value ApiError × List Sent
  unfolding finish_action
  run_action fresh_id payload (err e) = (err e, [])
  run_action fresh_id payload (ok (action, idempotency_key, client)) =
      finish_action action (unwrap_or idempotency_key fresh_id) payload
        (execute from_slice from_utf8_lossy post client action payload idempotency_key)

  -- `youtube_action`, with what it sends; `fresh_id` is what `request_id` would answer.
  unfoldable pub youtube_action :
      AppState → Text → HeaderMap → Value → Text → Result Value ApiError × List Sent
  unfolding admit_action run_action
  youtube_action state action_name headers payload fresh_id =
      run_action fresh_id payload (admit_action state action_name headers)

abbrev pub bad_operation_id : Text → Bool
bad_operation_id id =
    is_empty id || (ltb 128 (byte_len id) || (not (text_eq (trim id) id) || any is_control id))

module _ (J : OperationJournal) where
  open J use {Store}

  -- From the journal's answer on.
  found_status : Result (Option OperationStatus) TransportError → Result OperationStatus ApiError
  found_status (err e) = err (
      plain_error 503 (txt "DURABLE_OPERATION_STATUS_UNAVAILABLE")
        (txt "durable operation status is unavailable"))
  found_status (ok none) =
      err (plain_error 404 (txt "OPERATION_NOT_FOUND") (txt "operation not found"))
  found_status (ok (some s)) = ok s

  admit_status : AppState → Bool → Text → HeaderMap → Result Text ApiError
  admit_status state configured operation_id headers = do
    actor ← authorize state headers
    ensure (not (bad_operation_id operation_id))
        (plain_error 400 (txt "INVALID_OPERATION_ID") (txt "operation id is invalid"))
    ensure configured (
        plain_error 503 (txt "DURABLE_OPERATIONS_NOT_CONFIGURED")
          (txt "durable operation status is unavailable"))
    ok actor

  read_status_for : Text → Store → Result Text ApiError → Result OperationStatus ApiError × Store
  unfolding found_status
  read_status_for operation_id store (err e) = (err e, store)
  read_status_for operation_id store (ok actor) =
      let (answer, store') = J.status operation_id actor store in (found_status answer, store')

  -- `operation_status`; `configured` says whether the state has a journal.
  unfoldable pub operation_status :
      AppState → Bool → Text → HeaderMap → Store → Result OperationStatus ApiError × Store
  unfolding admit_status read_status_for
  operation_status state configured operation_id headers store =
      read_status_for operation_id store (admit_status state configured operation_id headers)
