-- ===== src/DataPlane/Tests.antt =====
-- Concrete envelopes, policies and frames for src/web_data_plane.rs.
use mathlib.Core.Option.{some-injective}
use act_api_server_rs.Text.{
  Text, txt, text_eq, is_empty, byte_len, is_control, is_whitespace, trim, starts_with, ends_with,
  rsplit_once, parse_uint,
}
use act_api_server_rs.Prelude.{
  ◌+◌, ◌≤◌, ◌≡◌, refl, sym, ◌↔◌, true, false, Option, none, some, [], ◌∷◌, if◌then◌else◌, length,
  ok, err,
}
use act_api_server_rs.DataPlane.Frames.{
  Bytes, decode_frame, encode_frame, from_be_bytes, to_be_bytes,
}
use act_api_server_rs.DataPlane.Admission.{IsAdmissible, validate_for_iff}
use act_api_server_rs.DataPlane.{
  OperationEnvelope, deadline_expired, deadline_too_far, direct_database_write,
  direct_read_only_database, invalid_frame, invalid_identifier, jet_stream_async,
  missing_dedupe_key, payload_too_large, read, stateless_http, unsafe_http_policy, validate_for,
  validate_identifier, write,
}
use act_api_server_rs.DataPlane.Policies.{
  StatelessHttpPolicy, Url, valid_host_port, validate_direct, validate_http, youtube_channel_select,
}
use act_api_server_rs.DataPlane.Frames.RoundTrip.{decode_frame-encode_frame}
use act_api_server_rs.Json.{null}

abbrev request : OperationEnvelope
request = record {
  version = 1;
  operation_id = txt "op-1";
  subject = txt "actor";
  resource = txt "youtube.channels";
  operation = read;
  payload = null;
  deadline_unix_ms = 31000;
  dedupe_key = some (txt "k");
}

-- Stands for the JSON codec.
abbrev to_vec : OperationEnvelope → Option Bytes
to_vec e = some (101 ∷ e.operation_id)

abbrev from_slice : Bytes → Option OperationEnvelope
from_slice [] = none
from_slice (c ∷ id) = some (record request { operation_id = id })

admission : Unit {0}
unfolding validate_for validate_identifier txt text_eq trim byte_len is_control is_whitespace
admission = tt

admission_tests :
    (validate_for to_vec 1000 request jet_stream_async ≡ ok tt)
    × (validate_for to_vec 999 request jet_stream_async ≡ err deadline_too_far)
    × (validate_for to_vec 31000 request jet_stream_async ≡ err deadline_expired)
    × (validate_for to_vec 1000 (record request { operation = write }) direct_read_only_database
        ≡ err direct_database_write)
    × (validate_for to_vec 1000 (record request { dedupe_key = none }) jet_stream_async
        ≡ err missing_dedupe_key)
    × (validate_for to_vec 1000 (record request { dedupe_key = none }) stateless_http ≡ ok tt)
    × (validate_for to_vec 1000 (record request { subject = txt " actor" }) stateless_http
        ≡ err invalid_identifier)
unfolding admission
admission_tests = (refl, refl, refl, refl, refl, refl, refl)

validate_for_iff_example :
    (validate_for to_vec 1000 request jet_stream_async ≡ ok tt)
    ↔ IsAdmissible to_vec 1000 request jet_stream_async
validate_for_iff_example = validate_for_iff to_vec 1000 request jet_stream_async

abbrev in_cluster : Url
in_cluster = record {
  scheme = txt "http";
  host_str = some (txt "api.act.svc.cluster.local");
  username = [];
  password = none;
  path = txt "/";
  query = none;
  fragment = none;
}

abbrev parse : Text → Option Url
parse s = if is_empty s then none else some in_cluster

abbrev http_policy : StatelessHttpPolicy
http_policy = record {
  base_url = txt "http://api.act.svc.cluster.local/";
  service_credential_ref = txt "secret/act";
  connect_timeout_ms = 2000;
  request_timeout_ms = 5000;
  max_response_bytes = 65536;
  redirects_enabled = false;
}

policies : Unit {0}
unfolding admission validate_http validate_direct youtube_channel_select valid_host_port ends_with
    starts_with rsplit_once parse_uint
policies = tt

http_policy_accepted : validate_http parse http_policy ≡ ok tt
unfolding policies
http_policy_accepted = refl

policy_tests :
    (validate_http parse (record http_policy { redirects_enabled = true }) ≡ err unsafe_http_policy)
    × (validate_http parse (record http_policy { connect_timeout_ms = 0 }) ≡ err unsafe_http_policy)
    × (valid_host_port (txt "tcp.act.svc:7443") ≡ true)
    × (valid_host_port (txt "tcp.act.svc:0") ≡ false)
    × (valid_host_port (txt ":7443") ≡ false)
unfolding policies
policy_tests = (refl, refl, refl, refl, refl)

abbrev framed : Bytes
framed = 0 ∷ 0 ∷ 0 ∷ 5 ∷ 101 ∷ txt "op-1"

frames : Unit {0}
unfolding encode_frame decode_frame to_be_bytes from_be_bytes txt
frames = tt

request-framed : encode_frame to_vec request 16 ≡ ok framed
unfolding frames
request-framed = refl

frame_read : decode_frame from_slice framed 16 ≡ ok request
unfolding frames
frame_read = refl

frame_tests :
    (decode_frame from_slice framed 4 ≡ err invalid_frame)
    × (decode_frame from_slice (0 ∷ 0 ∷ 0 ∷ 6 ∷ 101 ∷ txt "op-1") 16 ≡ err invalid_frame)
    × (decode_frame from_slice (0 ∷ 0 ∷ 0 ∷ []) 16 ≡ err invalid_frame)
    × (encode_frame to_vec request 4 ≡ err payload_too_large)
unfolding frames
frame_tests = (refl, refl, refl, refl)

codec_reads : (bytes : Bytes) → to_vec request ≡ some bytes → from_slice bytes ≡ some request
codec_reads bytes e = rw (sym (some-injective (101 ∷ request.operation_id) bytes e)) refl

decode_frame-encode_frame_example :
    (decode_frame from_slice framed 16 ≡ ok request) × (length framed ≤ 16 + 4)
decode_frame-encode_frame_example =
    decode_frame-encode_frame to_vec from_slice request 16 codec_reads request-framed
