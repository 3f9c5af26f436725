-- ===== src/Youtube/Errors.antt =====
-- src/youtube.rs: what `YoutubeClientError` prints, and its `details`.
use act_api_server_rs.Prelude.{ℕ, Option, none, some, ◌++◌, if◌then◌else◌, unwrap_or}
use act_api_server_rs.Text.{Text, txt, decimal}
use act_api_server_rs.Json.{Value, end, field, null, number, object, string}
use act_api_server_rs.DataPlane.Policies.{Url}
use act_api_server_rs.Youtube.{
  Violation, YoutubeClientError, apps_script, body_not_object, confirmation_differs, field_empty,
  field_not_string, field_required, http, invalid_json, is_redirection, key_expected, key_length,
  key_mismatch, key_missing, key_not_graphic, not_private, playlists_disabled, public_disabled,
  response_too_large, rights_not_confirmed, unknown_privacy, upstream_http, validation,
}

-- How the HTTP and URL libraries print a status and a URL and read a URL, and the quoted form of a
-- text, which rests on the tables of Unicode.
pub record Printer : Type 0 where
  pub status_text : ℕ → Text
  pub url_text : Url → Text
  pub parse_url : Text → Option Url
  pub quoted : Text → Text

module _ (p : Printer) where
  -- The message of a `YoutubeClientError::Validation`.
  violation_text : Violation → Text
  violation_text body_not_object = txt "request body must be a JSON object"
  violation_text key_missing = txt "mutating actions require an Idempotency-Key header"
  violation_text key_length = txt "Idempotency-Key must contain 1 to 200 characters"
  violation_text key_not_graphic = txt "Idempotency-Key must contain printable ASCII without spaces"
  violation_text (field_empty name) = name ++ txt " must not be empty"
  violation_text (field_not_string name) = name ++ txt " must be a string"
  violation_text (field_required name) = name ++ txt " is required and must be non-empty"
  violation_text rights_not_confirmed = txt "startUpload requires rightsConfirmed=true"
  violation_text not_private =
      txt "startUpload must remain private; publish in a separate approved action"
  violation_text key_mismatch = txt "body idempotencyKey must match the Idempotency-Key header"
  violation_text unknown_privacy = txt "privacyStatus must be private, unlisted, or public"
  violation_text public_disabled =
      txt "public and unlisted actions are disabled by YOUTUBE_ALLOW_PUBLIC_ACTIONS"
  violation_text (confirmation_differs expected) =
      txt "confirmation must exactly equal " ++ p.quoted expected
  violation_text playlists_disabled =
      txt "non-private playlists are disabled by YOUTUBE_ALLOW_PUBLIC_ACTIONS"
  violation_text key_expected = txt "mutating actions already require a key"

  -- `{location:?}`
  pub debug_location : Option Text → Text
  debug_location none = txt "None"
  debug_location (some location) = txt "Some(" ++ (p.quoted location ++ txt ")")

  redirect_text : ℕ → Url → Option Text → Text
  unfolding debug_location
  redirect_text status final_url location =
      (txt "Apps Script returned redirect " ++ (p.status_text status ++ txt " from "))
      ++ (p.url_text final_url
          ++ (txt "; target was "
              ++ (debug_location location ++ txt ". The deployment may still be owner-only")))

  -- `Display for YoutubeClientError`
  unfoldable pub display : YoutubeClientError → Text
  unfolding violation_text redirect_text
  display (http e) = txt "Apps Script request failed: " ++ e
  display (response_too_large max_bytes) =
      txt "Apps Script response exceeded " ++ (decimal max_bytes ++ txt " bytes")
  display (upstream_http status final_url location) =
      if is_redirection status
      then redirect_text status final_url location
      else txt "Apps Script returned HTTP " ++ p.status_text status
  display (invalid_json source preview) =
      txt "Apps Script returned invalid JSON (" ++ (source ++ (txt "); preview: " ++ preview))
  display (apps_script e) = txt "Apps Script " ++ (e.code ++ (txt ": " ++ e.message))
  display (validation v) = violation_text v

  -- The host of a redirect's target, when the target is a URL.
  location_host : Option Text → Option Text
  location_host none = none
  location_host (some location) = elim (p.parse_url location) [
    | none ↦ none
    | some url ↦ url.host_str
  ]

  or_null : Option Text → Value
  or_null none = null
  or_null (some text) = string text

  -- `YoutubeClientError::details`
  unfoldable pub details : YoutubeClientError → Option Value
  unfolding location_host or_null
  details (apps_script e) = some (
      object (
        field (txt "upstreamCode") (string e.code)
          (field (txt "upstreamDetails") (unwrap_or e.details null) end)))
  details (upstream_http status final_url location) = some (
      object (
        field (txt "status") (number (decimal status)) (
          field (txt "finalHost") (or_null final_url.host_str)
            (field (txt "locationHost") (or_null (location_host location)) end))))
  details (response_too_large max_bytes) =
      some (object (field (txt "maxBytes") (number (decimal max_bytes)) end))
  details _ = none
