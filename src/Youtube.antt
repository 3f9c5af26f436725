-- ===== src/Youtube.antt =====
-- src/youtube.rs: the actions of the YouTube control plane and the errors of its client. The
-- payloads, the client and the audit view are in the modules below.
pub mod Actions
pub mod Payloads
pub mod Client
pub mod Audit
pub mod Errors
mod Tests
use act_api_server_rs.Prelude.{
  ℕ, Bool, true, false, ◌&&◌, ◌||◌, Option, none, some, List, [], ◌∷◌, in_range, if◌then◌else◌,
}
use act_api_server_rs.Text.{Text, txt, text_eq, is_empty, starts_with}
use act_api_server_rs.DataPlane.Policies.{Url}
use act_api_server_rs.Json.{Value}
use act_api_server_rs.Transport.Tables.Calls.{status}

pub data YoutubeAction : Type 0 where
  channel videos analytics export_analytics jobs start_upload process_upload : YoutubeAction
  process_all_uploads publish_video update_video create_playlist add_to_playlist : YoutubeAction
  ingest_gmail send_digest partner_status partner_owners partner_claims : YoutubeAction
  admin_status workspace_users : YoutubeAction

-- The arms of `YoutubeAction::parse`, in order.
abbrev pub arms : List (Text × YoutubeAction)
arms =
    (txt "channel", channel)
    ∷ (txt "videos", videos)
    ∷ (txt "analytics", analytics)
    ∷ (txt "exportAnalytics", export_analytics)
    ∷ (txt "jobs", jobs)
    ∷ (txt "startUpload", start_upload)
    ∷ (txt "processUpload", process_upload)
    ∷ (txt "processAllUploads", process_all_uploads)
    ∷ (txt "publishVideo", publish_video)
    ∷ (txt "updateVideo", update_video)
    ∷ (txt "createPlaylist", create_playlist)
    ∷ (txt "addToPlaylist", add_to_playlist)
    ∷ (txt "ingestGmail", ingest_gmail)
    ∷ (txt "sendDigest", send_digest)
    ∷ (txt "partnerStatus", partner_status)
    ∷ (txt "partnerOwners", partner_owners)
    ∷ (txt "partnerClaims", partner_claims)
    ∷ (txt "adminStatus", admin_status)
    ∷ (txt "workspaceUsers", workspace_users)
    ∷ []

first_arm : Text → List (Text × YoutubeAction) → Option YoutubeAction
first_arm value [] = none
first_arm value ((name, action) ∷ rest) =
    if text_eq name value then some action else first_arm value rest

-- `YoutubeAction::parse`
unfoldable pub parse : Text → Option YoutubeAction
unfolding first_arm
parse value = first_arm value arms

-- `YoutubeAction::as_str`
unfoldable pub as_str : YoutubeAction → Text
as_str channel = txt "channel"
as_str videos = txt "videos"
as_str analytics = txt "analytics"
as_str export_analytics = txt "exportAnalytics"
as_str jobs = txt "jobs"
as_str start_upload = txt "startUpload"
as_str process_upload = txt "processUpload"
as_str process_all_uploads = txt "processAllUploads"
as_str publish_video = txt "publishVideo"
as_str update_video = txt "updateVideo"
as_str create_playlist = txt "createPlaylist"
as_str add_to_playlist = txt "addToPlaylist"
as_str ingest_gmail = txt "ingestGmail"
as_str send_digest = txt "sendDigest"
as_str partner_status = txt "partnerStatus"
as_str partner_owners = txt "partnerOwners"
as_str partner_claims = txt "partnerClaims"
as_str admin_status = txt "adminStatus"
as_str workspace_users = txt "workspaceUsers"

-- `YoutubeAction::is_mutating`
unfoldable pub is_mutating : YoutubeAction → Bool
is_mutating export_analytics = true
is_mutating start_upload = true
is_mutating process_upload = true
is_mutating process_all_uploads = true
is_mutating publish_video = true
is_mutating update_video = true
is_mutating create_playlist = true
is_mutating add_to_playlist = true
is_mutating ingest_gmail = true
is_mutating send_digest = true
is_mutating _ = false

-- The messages of `YoutubeClientError::Validation`, with what they print.
pub data Violation : Type 0 where
  body_not_object key_missing key_length key_not_graphic : Violation
  field_empty field_not_string field_required : Text → Violation
  rights_not_confirmed not_private key_mismatch unknown_privacy public_disabled : Violation
  confirmation_differs : Text → Violation
  playlists_disabled : Violation
  -- The panic of `idempotency_key.expect(…)`.
  key_expected : Violation

pub record GasError : Type 0 where
  pub message : Text
  pub code : Text
  pub details : Option Value

pub record GasEnvelope : Type 0 where
  pub ok_flag : Bool
  pub data_field : Option Value
  pub error_field : Option GasError

-- The errors of the HTTP library and of the JSON parser are their texts.
pub data YoutubeClientError : Type 0 where
  http : Text → YoutubeClientError
  response_too_large : ℕ → YoutubeClientError
  upstream_http : ℕ → Url → Option Text → YoutubeClientError
  invalid_json : Text → Text → YoutubeClientError
  apps_script : GasError → YoutubeClientError
  validation : Violation → YoutubeClientError

-- `value.contains(needle)`
unfoldable pub contains : Text → Text → Bool
contains [] needle = is_empty needle
contains (c ∷ s) needle = starts_with (c ∷ s) needle || contains s needle

-- `StatusCode::is_redirection`
abbrev pub is_redirection : ℕ → Bool
is_redirection status = in_range 300 399 status

abbrev names_login : Option Text → Bool
names_login none = false
names_login (some location) = contains location (txt "accounts.google.com")

-- `YoutubeClientError::code`
unfoldable pub code_of : YoutubeClientError → Text
code_of (http e) = txt "YOUTUBE_GAS_HTTP_ERROR"
code_of (response_too_large n) = txt "YOUTUBE_GAS_RESPONSE_TOO_LARGE"
code_of (upstream_http status url location) =
    if is_redirection status && names_login location
    then txt "YOUTUBE_GAS_OWNER_ONLY"
    else txt "YOUTUBE_GAS_UPSTREAM_HTTP_ERROR"
code_of (invalid_json source preview) = txt "YOUTUBE_GAS_INVALID_JSON"
code_of (apps_script e) = txt "YOUTUBE_GAS_APPLICATION_ERROR"
code_of (validation v) = txt "VALIDATION_ERROR"
