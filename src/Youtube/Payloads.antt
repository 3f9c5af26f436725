-- ===== src/Youtube/Payloads.antt =====
-- src/youtube.rs: `prepare_payload` and the tests that it makes.
pub mod Caller
pub mod Guards
pub mod Publications
use act_api_server_rs.Prelude.{
  ◌+◌, Bool, true, false, not, ◌||◌, Option, none, some, ◌++◌, ltb, if◌then◌else◌, all, Result, ok,
  err, ◌>>=◌, ◌>>◌, ensure, ok_or,
}
use act_api_server_rs.Text.{
  Text, txt, text_eq, is_empty, byte_len, trim, is_blank, to_ascii_uppercase, is_ascii_graphic,
}
use act_api_server_rs.Json.{Fields, Value, bool, end, get, insert, null, object, remove, string}
use act_api_server_rs.Youtube.{
  Violation, YoutubeAction, YoutubeClientError, body_not_object, confirmation_differs,
  create_playlist, field_empty, field_not_string, field_required, is_mutating, key_expected,
  key_length, key_mismatch, key_missing, key_not_graphic, not_private, playlists_disabled,
  public_disabled, publish_video, rights_not_confirmed, start_upload, unknown_privacy, validation,
}
use act_api_server_rs.Transport.Tables.Calls.{status}

invalid {ℓ} : {A : Type ℓ} → Violation → Result A YoutubeClientError
invalid v = err (validation v)

optional_value : Text → Option Value → Result (Option Text) YoutubeClientError
unfolding invalid
optional_value name none = ok none
optional_value name (some null) = ok none
optional_value name (some (string value)) =
    if is_blank value then invalid (field_empty name) else ok (some (trim value))
optional_value name (some _) = invalid (field_not_string name)

-- `optional_string`
unfoldable pub optional_string : Fields → Text → Result (Option Text) YoutubeClientError
unfolding optional_value
optional_string fields name = optional_value name (get name fields)

-- `require_non_empty_string`
unfoldable pub require_non_empty_string : Fields → Text → Result Text YoutubeClientError
require_non_empty_string fields name = do
  found ← optional_string fields name
  ok_or found (validation (field_required name))

-- `validate_idempotency_key`; a text's bytes are graphic ASCII when its characters are.
unfoldable pub validate_idempotency_key : Text → Result (Unit {0}) YoutubeClientError
validate_idempotency_key value = do
  ensure (not (is_empty value || ltb 200 (byte_len value))) (validation key_length)
  ensure (all is_ascii_graphic value) (validation key_not_graphic)

object_of : Value → Result Fields YoutubeClientError
unfolding invalid
object_of null = ok end
object_of (object fields) = ok fields
object_of _ = invalid body_not_object

-- The block under `if action.is_mutating()`.
pub mark_request : Bool → Option Text → Fields → Result Fields YoutubeClientError
mark_request false idempotency_key fields = ok fields
mark_request true idempotency_key fields = do
  key ← ok_or idempotency_key (validation key_missing)
  validate_idempotency_key key
  ok (insert (txt "controlRequestId") (string key) fields)

-- `object.get(name) == Some(&Value::Bool(true))`
abbrev pub is_true : Option Value → Bool
is_true (some (bool true)) = true
is_true _ = false

-- Whether an optional text is missing or the given one.
abbrev pub agrees_with : Option Text → Text → Bool
agrees_with none expected = true
agrees_with (some value) expected = text_eq value expected

pub prepare_upload : Option Text → Fields → Result Fields YoutubeClientError
prepare_upload idempotency_key fields = do
  drive_file_id ← require_non_empty_string fields (txt "driveFileId")
  title ← require_non_empty_string fields (txt "title")
  ensure (is_true (get (txt "rightsConfirmed") fields)) (validation rights_not_confirmed)
  status ← optional_string fields (txt "privacyStatus")
  ensure (agrees_with status (txt "private")) (validation not_private)
  header_key ← ok_or idempotency_key (validation key_expected)
  existing ← optional_string fields (txt "idempotencyKey")
  ensure (agrees_with existing header_key) (validation key_mismatch)
  ok (insert (txt "idempotencyKey") (string header_key) fields)

abbrev pub is_privacy : Text → Bool
is_privacy privacy =
    text_eq privacy (txt "private")
    || (text_eq privacy (txt "unlisted") || text_eq privacy (txt "public"))

-- `format!("PUBLISH {video_id} AS {}", privacy.to_ascii_uppercase())`
abbrev pub confirmation_of : Text → Text → Text
confirmation_of video_id privacy =
    txt "PUBLISH " ++ (video_id ++ (txt " AS " ++ to_ascii_uppercase privacy))

pub check_publication : Bool → Fields → Result (Unit {0}) YoutubeClientError
check_publication allow_public_actions fields = do
  video_id ← require_non_empty_string fields (txt "videoId")
  privacy ← require_non_empty_string fields (txt "privacyStatus")
  ensure (is_privacy privacy) (validation unknown_privacy)
  ensure (text_eq privacy (txt "private") || allow_public_actions) (validation public_disabled)
  confirmation ← require_non_empty_string fields (txt "confirmation")
  ensure (text_eq confirmation (confirmation_of video_id privacy))
      (validation (confirmation_differs (confirmation_of video_id privacy)))

pub check_playlist : Bool → Fields → Result (Unit {0}) YoutubeClientError
check_playlist allow_public_actions fields = do
  title ← require_non_empty_string fields (txt "title")
  privacy ← optional_string fields (txt "privacyStatus")
  ensure (agrees_with privacy (txt "private") || allow_public_actions)
      (validation playlists_disabled)

-- The `match action`.
pub prepare_action : YoutubeAction → Option Text → Bool → Fields → Result Fields YoutubeClientError
unfolding prepare_upload check_publication check_playlist
prepare_action start_upload idempotency_key allow_public_actions fields =
    prepare_upload idempotency_key fields
prepare_action publish_video idempotency_key allow_public_actions fields = do
  check_publication allow_public_actions fields
  ok fields
prepare_action create_playlist idempotency_key allow_public_actions fields = do
  check_playlist allow_public_actions fields
  ok fields
prepare_action _ idempotency_key allow_public_actions fields = ok fields

-- `prepare_payload`
unfoldable pub prepare_payload :
    YoutubeAction → Value → Option Text → Bool → Result Fields YoutubeClientError
unfolding prepare_action mark_request object_of
prepare_payload action payload idempotency_key allow_public_actions = do
  caller ← object_of payload
  let own = remove (txt "apiKey") (remove (txt "action") caller)
  marked ← mark_request (is_mutating action) idempotency_key own
  prepare_action action idempotency_key allow_public_actions marked
