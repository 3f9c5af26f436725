-- ===== src/Routes/Dispatch.antt =====
-- src/routes.rs: the router, its probes and how an error becomes a response. Matching a path and
-- reading a JSON body are the HTTP library's.
pub mod Guards
pub mod Probes
use act_api_server_rs.Prelude.{
  ℕ, ◌*◌, unwrap_or, Bool, true, false, Option, none, some, List, [], ◌∷◌, is_some, length, leb,
  if◌then◌else◌, Result, ok, err, ◌>>=◌, ◌>>◌, ok_or, map_err,
}
use act_api_server_rs.Text.{Text, txt, text_eq}
use act_api_server_rs.Json.{Fields, Value, bool, end, field, null, object, string}
use act_api_server_rs.Auth.{HeaderMap}
use act_api_server_rs.DataPlane.Frames.{Bytes}
use act_api_server_rs.DataPlane.Policies.{Url}
use act_api_server_rs.Transport.Journal.{
  OperationJournal, OperationStatus, RowStatus, in_progress, completed,
}
use act_api_server_rs.Youtube.{GasEnvelope}
use act_api_server_rs.Youtube.Errors.{Printer}
use act_api_server_rs.Youtube.Client.{Response, YoutubeGasClient, deployment_id, health}
use act_api_server_rs.Routes.{
  ApiError, AppState, Sent, event, posted, header_string, authorize, challenges, from_youtube,
  not_configured, operation_status, youtube_action,
}

abbrev pub max_control_body_bytes : ℕ
max_control_body_bytes = 1024 * 1024

-- `Json<Value>` under `DefaultBodyLimit::max`: the value of a body, or the status of its refusal.
abbrev pub read_body : (Bytes → Result Value ℕ) → Bytes → Result Value ℕ
read_body json body = if leb (length body) max_control_body_bytes then json body else err 413

-- `nats::publish_json`: without a client an event goes nowhere.
publish_json : Bool → List Sent → List Sent
publish_json nats [] = []
publish_json nats (posted body ∷ rest) = posted body ∷ publish_json nats rest
publish_json true (event subject body ∷ rest) = event subject body ∷ publish_json true rest
publish_json false (event subject body ∷ rest) = publish_json false rest

-- The routes of `router`, with their path parameters.
pub data Route : Type 0 where
  live ready youtube_health youtube_status : Route
  operation action : Text → Route

pub data Method : Type 0 where
  get head post other : Method

-- `router`: an unknown path is answered with 404, a known one with another method with 405; a
-- `get` route also serves HEAD.
on_method : Method → Method → Route → Result Route ℕ
on_method get get r = ok r
on_method get head r = ok r
on_method post post r = ok r
on_method _ _ r = err 405

-- A route with a path parameter, which no empty segment matches.
with_segment : Method → Method → (Text → Route) → Text → Result Route ℕ
unfolding on_method
with_segment allowed m route [] = err 404
with_segment allowed m route (c ∷ rest) = on_method allowed m (route (c ∷ rest))

starts_v1 : Method → List Text → Result Route ℕ
unfolding on_method with_segment
starts_v1 m (a ∷ b ∷ []) =
    if text_eq a (txt "youtube")
    then if text_eq b (txt "health")
      then on_method get m youtube_health
      else if text_eq b (txt "status")
      then on_method get m youtube_status
      else err 404
    else if text_eq a (txt "operations")
    then with_segment get m operation b
    else err 404
starts_v1 m (a ∷ b ∷ c ∷ []) =
    if text_eq a (txt "youtube")
    then if text_eq b (txt "actions") then with_segment post m action c else err 404
    else err 404
starts_v1 m _ = err 404

unfoldable pub router : Method → List Text → Result Route ℕ
unfolding starts_v1 on_method
router m (a ∷ []) =
    if text_eq a (txt "health")
    then on_method get m live
    else if text_eq a (txt "ready")
    then on_method get m ready
    else err 404
router m (a ∷ b ∷ rest) = if text_eq a (txt "v1") then starts_v1 m (b ∷ rest) else err 404
router m [] = err 404

-- The state of the router, with whether there are a NATS client and a journal.
pub record Served : Type 0 where
  pub app : AppState
  pub nats : Bool
  pub operation_journal : Bool

-- `health`, at the version of the build.
health_body : Text → Value
health_body version = object (
    field (txt "status") (string (txt "ok")) (
      field (txt "service") (string (txt "act-api-server"))
        (field (txt "version") (string version) end)))

-- `ready`
ready_body : Served → Value
ready_body s = object (
    field (txt "ready") (bool true) (
      field (txt "nats_connected") (bool s.nats) (
        field (txt "youtube_configured") (bool (is_some s.app.youtube)) (
          field (txt "shared_auth_configured") (bool (is_some s.app.shared_auth))
            (field (txt "durable_operations_configured") (bool s.operation_journal) end)))))

optional : Text → Option Value → Fields → Fields
optional key none rest = rest
optional key (some v) rest = field key v rest

text_value : Option Text → Option Value
text_value none = none
text_value (some t) = some (string t)

or_null : Option Text → Value
or_null none = null
or_null (some t) = string t

-- What the HTTP server answers, and what is sent on the way; the body is `null` where the answer has
-- none of this module's.
pub record Answered (Store : Type 0) : Type 0 where
  pub status : ℕ
  pub challenge : Bool
  pub body : Value
  pub sent : List Sent
  pub store : Store

-- `ErrorBody` and `ErrorDescription`
pub error_body : ApiError → Value
unfolding optional text_value
error_body e = object (
    field (txt "ok") (bool false) (
      field (txt "error")
        (object (
          field (txt "code") (string e.code)
            (field (txt "message") (string e.message) (optional (txt "details") e.details end))))
        (optional (txt "requestId") (text_value e.request_id) end)))

-- `into_response`
unfoldable pub into_response : {Store : Type 0} → ApiError → List Sent → Store → Answered Store
unfolding error_body
into_response e sent s = record {
  status = e.status;
  challenge = challenges e;
  body = error_body e;
  sent = sent;
  store = s;
}

-- The answer to a request of the method: a HEAD request's is sent without its body.
unfoldable pub for_method : {Store : Type 0} → Method → Answered Store → Answered Store
for_method head a = record a { body = null }
for_method _ a = a

answer_json : {Store : Type 0} → Result Value ApiError → List Sent → Store → Answered Store
answer_json (err e) sent s = into_response e sent s
answer_json (ok v) sent s = record {
  status = 200;
  challenge = false;
  body = v;
  sent = sent;
  store = s;
}

status_text : RowStatus → Text
status_text in_progress = txt "processing"
status_text completed = txt "completed"

ok_body : Value → Value
ok_body v = object (field (txt "ok") (bool true) (field (txt "data") v end))

-- The body of `operation_status`.
status_json : OperationStatus → Value
unfolding status_text ok_body
status_json s = ok_body (
    object (
      field (txt "operationId") (string s.operation_id) (
        field (txt "status") (string (status_text s.status))
          (field (txt "result") (unwrap_or s.result null) end))))

-- The body of a request to the Apps Script project.
timed_body : Text → Value → Value → Value
timed_body id elapsed v = object (
    field (txt "ok") (bool true) (
      field (txt "requestId") (string id)
        (field (txt "durationMs") elapsed (field (txt "data") v end))))

-- The request id of an action: its idempotency key, or a fresh one.
id_of : HeaderMap → Text → Text
id_of headers id = elim (header_string headers (txt "idempotency-key")) [
  | err e ↦ id
  | ok key ↦ unwrap_or key id
]

module _ (J : OperationJournal) (from_slice : Bytes → Result GasEnvelope Text)
    (from_utf8_lossy : Bytes → Text) (printer : Printer) (path_segments : Url → Option (List Text))
    (version : Text) (get_health : YoutubeGasClient → Result Response Text)
    (post_action : Fields → Result Response Text) where
  open J use {Store}

  -- `youtube_health`; `id` and `elapsed` are the request's id and its duration.
  probe_youtube : Served → Text → Value → Result Value ApiError
  unfolding timed_body
  probe_youtube s id elapsed = do
    client ← ok_or s.app.youtube not_configured
    upstream ←
        map_err (health from_slice from_utf8_lossy client (get_health client))
          (λ e. from_youtube printer e id)
    ok (timed_body id elapsed upstream)

  -- The `data` of `youtube_status`.
  client_status : YoutubeGasClient → Value
  unfolding or_null
  client_status client = object (
      field (txt "configured") (bool true) (
        field (txt "expectedChannelHandle") (string client.expected_channel_handle) (
          field (txt "deploymentId") (or_null (deployment_id (path_segments client.web_app_url))) (
            field (txt "publicActionsEnabled") (bool client.allow_public_actions) (
              field (txt "appsScriptApiKeyPresent") (bool true)
                (field (txt "appsScriptApiKeyExposed") (bool false) end))))))

  -- `youtube_status`
  show_youtube : Served → HeaderMap → Result Value ApiError
  unfolding client_status ok_body
  show_youtube s headers = do
    actor ← authorize s.app headers
    client ← ok_or s.app.youtube not_configured
    ok (ok_body (client_status client))

  -- What a request of the route is answered; `json` is its body, read by the HTTP library, `id` a
  -- fresh request id and `elapsed` the time that the request took.
  unfoldable pub handle :
      Served → Route → HeaderMap → Result Value ℕ → Text → Value → Store → Answered Store
  unfolding answer_json probe_youtube show_youtube health_body ready_body status_json id_of
      publish_json timed_body
  handle s live headers json id elapsed store = answer_json (ok (health_body version)) [] store
  handle s ready headers json id elapsed store = answer_json (ok (ready_body s)) [] store
  handle s youtube_health headers json id elapsed store =
      answer_json (probe_youtube s id elapsed) [] store
  handle s youtube_status headers json id elapsed store =
      answer_json (show_youtube s headers) [] store
  handle s (operation operation_id) headers json id elapsed store =
      let (found, store') =
        operation_status J s.app s.operation_journal operation_id headers store in
      answer_json (found >>= λ status. ok (status_json status)) [] store'
  handle s (action name) headers (err rejected) id elapsed store = record {
    status = rejected;
    challenge = false;
    body = null;
    sent = [];
    store = store;
  }
  handle s (action name) headers (ok payload) id elapsed store =
      let (result, sent) =
        youtube_action from_slice from_utf8_lossy post_action printer s.app name headers payload
          id in
      answer_json (result >>= λ v. ok (timed_body (id_of headers id) elapsed v))
        (publish_json s.nats sent) store

  bare : ℕ → Store → Answered Store
  bare status store = record {
    status = status;
    challenge = false;
    body = null;
    sent = [];
    store = store;
  }

  -- A request to the server.
  unfoldable pub respond :
      (Bytes → Result Value ℕ)
      → Served
      → Method
      → List Text
      → HeaderMap
      → Bytes
      → Text
      → Value
      → Store
      → Answered Store
  unfolding bare for_method
  respond json s method path headers body id elapsed store = elim (router method path) [
    | err status ↦ bare status store
    | ok route ↦ for_method method (handle s route headers (read_body json body) id elapsed store)
  ]
