-- ===== src/Youtube/Client.antt =====
-- src/youtube.rs: `YoutubeGasClient`. What the HTTP library answers is a parameter; a response is
-- what the program reads of a `reqwest::Response`.
pub mod Requests
pub mod Redirects
use act_api_server_rs.Prelude.{
  ℕ, ap, Bool, false, not, ◌||◌, Option, none, some, List, [], ◌∷◌, ltb, leb, in_range,
  if◌then◌else◌, unwrap_or, length, take, all, Result, ok, err, ◌>>=◌, ◌>>◌, ensure, map_err,
}
use act_api_server_rs.Text.{Text, txt, text_eq}
use act_api_server_rs.DataPlane.Frames.{Bytes}
use act_api_server_rs.Json.{Fields, Value, insert, null, string}
use act_api_server_rs.Youtube.{
  GasEnvelope, GasError, YoutubeAction, YoutubeClientError, apps_script, as_str, http, invalid_json,
  response_too_large, upstream_http,
}
use act_api_server_rs.DataPlane.Policies.{Url}
use act_api_server_rs.Transport.Requests.{answer}
use act_api_server_rs.Transport.Errors.{code}
use act_api_server_rs.Youtube.Payloads.{prepare_payload}
use act_api_server_rs.Shutdown.Supervisor.{returned}

pub record YoutubeGasClient : Type 0 where
  pub web_app_url : Url
  pub api_key : Text
  pub expected_channel_handle : Text
  pub max_response_bytes : ℕ
  pub allow_public_actions : Bool

pub data Redirect : Type 0 where
  follow stop refuse : Redirect

abbrev is_google : Option Text → Bool
is_google none = false
is_google (some host) =
    text_eq host (txt "script.google.com") || text_eq host (txt "script.googleusercontent.com")

-- The redirect policy of `YoutubeGasClient::new`, on how many URLs came before and the next host.
unfoldable pub on_redirect : ℕ → Option Text → Redirect
on_redirect previous host =
    if leb 5 previous then refuse else if is_google host then follow else stop

after_s : List Text → Option Text
after_s [] = none
after_s (segment ∷ []) = none
after_s (segment ∷ next ∷ rest) =
    if text_eq segment (txt "s") then some next else after_s (next ∷ rest)

-- `deployment_id`, on the answer of `path_segments`.
unfoldable pub deployment_id : Option (List Text) → Option Text
unfolding after_s
deployment_id none = none
deployment_id (some segments) = after_s segments

pub record Response : Type 0 where
  pub status : ℕ
  pub final_url : Url
  pub location : Option Text
  pub content_length : Option ℕ
  pub bytes : Result Bytes Text

-- `StatusCode::is_success`
abbrev pub is_success : ℕ → Bool
is_success status = in_range 200 299 status

abbrev pub announces_more : Option ℕ → ℕ → Bool
announces_more none limit = false
announces_more (some n) limit = ltb limit n

unknown_error : GasError
unknown_error = record {
  message = txt "Apps Script returned ok=false without an error object";
  code = txt "UNKNOWN_UPSTREAM_ERROR";
  details = none;
}

open_envelope : GasEnvelope → Result Value YoutubeClientError
unfolding unknown_error
open_envelope e =
    if e.ok_flag
    then ok (unwrap_or e.data_field null)
    else err (apps_script (unwrap_or e.error_field unknown_error))

-- The body that `execute` posts.
add_credentials : YoutubeGasClient → YoutubeAction → Fields → Fields
add_credentials client action fields =
    insert (txt "apiKey") (string client.api_key)
      (insert (txt "action") (string (as_str action)) fields)

-- The JSON decoder of an envelope, with the text of its error, and `String::from_utf8_lossy`.
module _ (from_slice : Bytes → Result GasEnvelope Text) (from_utf8_lossy : Bytes → Text) where
  -- `parse_response`
  unfoldable pub parse_response : ℕ → Response → Result Value YoutubeClientError
  unfolding open_envelope
  parse_response limit r = do
    ensure (not (announces_more r.content_length limit)) (response_too_large limit)
    bytes ← map_err r.bytes http
    ensure (leb (length bytes) limit) (response_too_large limit)
    ensure (is_success r.status) (upstream_http r.status r.final_url r.location)
    envelope ←
        map_err (from_slice bytes)
          (λ source. invalid_json source (take 500 (from_utf8_lossy bytes)))
    open_envelope envelope

  -- `health`, on what the GET request of the `health` action is answered.
  unfoldable pub health : YoutubeGasClient → Result Response Text → Result Value YoutubeClientError
  health client answer = do
    response ← map_err answer http
    parse_response client.max_response_bytes response

  run_prepared :
      (Fields → Result Response Text)
      → YoutubeGasClient
      → YoutubeAction
      → Result Fields YoutubeClientError
      → Result Value YoutubeClientError × List Fields
  unfolding add_credentials
  run_prepared post client action (err e) = (err e, [])
  run_prepared post client action (ok prepared) =
      let body = add_credentials client action prepared in
      (map_err (post body) http >>= parse_response client.max_response_bytes, body ∷ [])

  -- `execute`, with the bodies that it posts; `post` is the HTTP library.
  unfoldable pub execute :
      (Fields → Result Response Text)
      → YoutubeGasClient
      → YoutubeAction
      → Value
      → Option Text
      → Result Value YoutubeClientError × List Fields
  unfolding run_prepared
  execute post client action payload idempotency_key =
      run_prepared post client action
        (prepare_payload action payload idempotency_key client.allow_public_actions)
