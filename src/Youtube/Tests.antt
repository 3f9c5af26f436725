-- ===== src/Youtube/Tests.antt =====
-- Concrete actions, payloads and responses for src/youtube.rs.
use act_api_server_rs.Prelude.{
  ◌+◌, ◌≤◌, All, arith, ◌≡◌, refl, ◌⊎◌, inl, true, false, Option, none, some, [], ◌∷◌,
  if◌then◌else◌, unwrap_or, length, Result, ok, err,
}
use act_api_server_rs.Text.{
  Text, txt, text_eq, byte_len, is_whitespace, trim, starts_with, ascii_upper, is_ascii_graphic,
}
use act_api_server_rs.DataPlane.Frames.{Bytes}
use act_api_server_rs.Json.{
  Fields, Value, bool, end, field, get, insert, null, object, remove, string,
}
use act_api_server_rs.Youtube.{
  GasEnvelope, YoutubeClientError, as_str, body_not_object, channel, code_of, contains,
  create_playlist, field_required, invalid_json, is_mutating, key_missing, key_not_graphic, parse,
  public_disabled, publish_video, response_too_large, start_upload, upstream_http, validation,
}
use act_api_server_rs.Youtube.Payloads.Guards.{IsPrivate}
use act_api_server_rs.Youtube.Payloads.Publications.{
  IsPublication, prepare_payload-IsPrivate, prepare_payload-IsPublication,
}
use act_api_server_rs.Youtube.Client.{
  Response, YoutubeGasClient, deployment_id, execute, follow, is_success, on_redirect,
  parse_response, refuse, stop,
}
use act_api_server_rs.DataPlane.Policies.{Url}
use act_api_server_rs.Youtube.Payloads.{
  optional_string, prepare_payload, require_non_empty_string, validate_idempotency_key,
}
use act_api_server_rs.Youtube.Client.Requests.{execute_posts, parse_response_sound}
use act_api_server_rs.Youtube.Client.Redirects.{IsGoogle, followed, followed_bounded}
use act_api_server_rs.Youtube.Audit.{redact_map_for_audit}

youtube : Unit {0}
unfolding prepare_payload optional_string require_non_empty_string validate_idempotency_key get
    insert remove is_mutating as_str parse text_eq txt byte_len trim is_whitespace is_ascii_graphic
    ascii_upper contains starts_with code_of execute parse_response deployment_id on_redirect
    redact_map_for_audit
youtube = tt

abbrev upload : Value
upload = object (
    field (txt "action") (string (txt "sendDigest")) (
      field (txt "apiKey") (string (txt "forged")) (
        field (txt "driveFileId") (string (txt "drive")) (
          field (txt "title") (string (txt " Talk ")) (
            field (txt "rightsConfirmed") (bool true)
              (field (txt "privacyStatus") (string (txt "private")) end))))))

abbrev publication : Value
publication = object (
    field (txt "videoId") (string (txt "v1")) (
      field (txt "privacyStatus") (string (txt "public"))
        (field (txt "confirmation") (string (txt "PUBLISH v1 AS PUBLIC")) end)))

abbrev key : Option Text
key = some (txt "k-1")

-- The fields of the upload that are the caller's own, marked with the key.
abbrev prepared_upload : Fields
prepared_upload = field (txt "driveFileId") (string (txt "drive")) (
    field (txt "title") (string (txt " Talk ")) (
      field (txt "rightsConfirmed") (bool true) (
        field (txt "privacyStatus") (string (txt "private")) (
          field (txt "controlRequestId") (string (txt "k-1"))
            (field (txt "idempotencyKey") (string (txt "k-1")) end)))))

upload_prepared : prepare_payload start_upload upload key false ≡ ok prepared_upload
unfolding youtube
upload_prepared = refl

abbrev prepared_publication : Fields
prepared_publication = field (txt "videoId") (string (txt "v1")) (
    field (txt "privacyStatus") (string (txt "public")) (
      field (txt "confirmation") (string (txt "PUBLISH v1 AS PUBLIC"))
        (field (txt "controlRequestId") (string (txt "k-1")) end)))

publication_prepared : prepare_payload publish_video publication key true ≡ ok prepared_publication
unfolding youtube
publication_prepared = refl

payload_tests :
    (prepare_payload publish_video publication key false ≡ err (validation public_disabled))
    × (prepare_payload start_upload upload none false ≡ err (validation key_missing))
    × (prepare_payload start_upload upload (some (txt "a b")) false
        ≡ err (validation key_not_graphic))
    × (prepare_payload channel (bool true) none false ≡ err (validation body_not_object))
    × (prepare_payload channel null none false ≡ ok end)
    × (prepare_payload create_playlist null key false
        ≡ err (validation (field_required (txt "title"))))
unfolding youtube
payload_tests = (refl, refl, refl, refl, refl, refl)

action_tests :
    (parse (txt "publishVideo") ≡ some publish_video)
    × (parse (txt "PublishVideo") ≡ none)
    × (deployment_id (some (txt "macros" ∷ txt "s" ∷ txt "id" ∷ txt "exec" ∷ [])) ≡ some (txt "id"))
    × (on_redirect 0 (some (txt "script.google.com")) ≡ follow)
    × (on_redirect 0 (some (txt "accounts.google.com")) ≡ stop)
    × (on_redirect 5 (some (txt "script.google.com")) ≡ refuse)
unfolding youtube
action_tests = (refl, refl, refl, refl, refl, refl)

prepare_payload-IsPublication_example : IsPublication true prepared_publication
prepare_payload-IsPublication_example =
    prepare_payload-IsPublication publication key true publication_prepared

prepare_payload-IsPrivate_example : IsPrivate prepared_upload
prepare_payload-IsPrivate_example =
    prepare_payload-IsPrivate start_upload upload key (inl refl) upload_prepared

abbrev web_app : Url
web_app = record {
  scheme = txt "https";
  host_str = some (txt "script.google.com");
  username = [];
  password = none;
  path = txt "/macros/s/id/exec";
  query = none;
  fragment = none;
}

abbrev client : YoutubeGasClient
client = record {
  web_app_url = web_app;
  api_key = txt "secret";
  expected_channel_handle = txt "@anticaptrad";
  max_response_bytes = 1024;
  allow_public_actions = false;
}

abbrev answer : Response
answer = record {
  status = 200;
  final_url = web_app;
  location = none;
  content_length = some 2;
  bytes = ok (txt "{}");
}

abbrev done : GasEnvelope
done = record { ok_flag = true; data_field = some (bool true); error_field = none }

-- Stands for the JSON decoder of an envelope.
abbrev from_slice : Bytes → Result GasEnvelope Text
from_slice bytes = if text_eq bytes (txt "{}") then ok done else err (txt "expected value")

abbrev lossy : Bytes → Text
lossy bytes = bytes

answer_parsed : parse_response from_slice lossy 1024 answer ≡ ok (bool true)
unfolding youtube
answer_parsed = refl

response_tests :
    (parse_response from_slice lossy 1 answer ≡ err (response_too_large 1))
    × (parse_response from_slice lossy 1024 (record answer { bytes = ok (txt "no") })
        ≡ err (invalid_json (txt "expected value") (txt "no")))
    × (code_of (upstream_http 302 web_app (some (txt "https://accounts.google.com/x")))
        ≡ txt "YOUTUBE_GAS_OWNER_ONLY")
    × ((execute from_slice lossy (λ b. ok answer) client channel null none).0 ≡ ok (bool true))
unfolding youtube
response_tests = (refl, refl, refl, refl)

parse_response_sound_example :
    (bytes : Bytes) × (envelope : GasEnvelope) × (answer.bytes ≡ ok bytes)
    × (length bytes ≤ 1024)
    × (is_success 200 ≡ true)
    × (from_slice bytes ≡ ok envelope)
    × (envelope.ok_flag ≡ true)
    × (bool true ≡ unwrap_or envelope.data_field null)
parse_response_sound_example = parse_response_sound from_slice lossy 1024 answer answer_parsed

execute_posts_example :
    let run = execute from_slice lossy (λ body. ok answer) client start_upload upload key in
    ((e : YoutubeClientError) × (prepare_payload start_upload upload key false ≡ err e)
      × (run.0 ≡ err e)
      × (run.1 ≡ []))
    ⊎ ((prepared : Fields) × (body : Fields) × (prepare_payload start_upload upload key false
          ≡ ok prepared)
        × (run.1 ≡ body ∷ [])
        × (get (txt "action") body ≡ some (string (as_str start_upload)))
        × (get (txt "apiKey") body ≡ some (string (txt "secret")))
        × ((name : Text)
            → text_eq (txt "action") name ≡ false
            → text_eq (txt "apiKey") name ≡ false
            → get name body ≡ get name prepared))
execute_posts_example =
    execute_posts from_slice lossy (λ body. ok answer) client start_upload upload key

followed_bounded_example :
    All IsGoogle (followed 1 (some (txt "script.google.com") ∷ some (txt "evil.example") ∷ []))
    × (1 + length (followed 1 (some (txt "script.google.com") ∷ some (txt "evil.example") ∷ []))
        ≤ 5)
followed_bounded_example =
    followed_bounded 1 (some (txt "script.google.com") ∷ some (txt "evil.example") ∷ [])
      (omega arith) (omega arith)
