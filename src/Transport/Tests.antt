-- ===== src/Transport/Tests.antt =====
-- Concrete attestations and requests for src/transport_runtime.rs, and the functions that stand for
-- its third-party code in the examples.
mod Histories
mod Deliveries
mod Loops
use act_api_server_rs.Prelude.{
  ℕ, zero, suc, ◌+◌, ◌-◌, ◌%◌, ◌≤◌, ◌<◌, ◌≡◌, refl, Option, none, some, [], ◌∷◌, ◌++◌, arith,
  if◌then◌else◌, length, take, ok, err,
}
use act_api_server_rs.Text.{
  Text, txt, text_eq, byte_len, is_control, is_whitespace, trim, strip_prefix,
}
use act_api_server_rs.Transport.Requests.{
  AuthenticatedOperation, Service, answer, max_transport_bytes, process_payload, reply_error,
  validate,
}
use act_api_server_rs.DataPlane.Frames.{Bytes}
use act_api_server_rs.Transport.Requests.Gate.{IsAdmitted, process_payload-executed}
use act_api_server_rs.Transport.Hex.RoundTrip.{IsBytes}
use act_api_server_rs.DataPlane.{
  OperationEnvelope, jet_stream_async, read, stateless_http, validate_for, validate_identifier,
}
use act_api_server_rs.Transport.Errors.{code, unauthorized}
use act_api_server_rs.Transport.Hex.{
  decode_hex_nibble, decode_pairs, decode_sha256_hex, encode_hex, hex_digit, is_ascii_hexdigit,
}
use act_api_server_rs.Transport.Worker.{executed}
use act_api_server_rs.Json.{null, string}
use act_api_server_rs.Transport.Attestation.{
  sign_operation_attestation, validate_authorization, validate_operation_attestation_shape,
  verify_operation_attestation,
}
use act_api_server_rs.Transport.Attestation.Laws.{verify-sign, verify_binds}

abbrev request : OperationEnvelope
request = record {
  version = 1;
  operation_id = txt "op-1";
  subject = txt "actor";
  resource = txt "youtube.channels";
  operation = read;
  payload = null;
  deadline_unix_ms = 31000;
  dedupe_key = some (txt "k");
}

-- Stands for the JSON encoder of an envelope.
abbrev to_vec : OperationEnvelope → Option Bytes
to_vec e = some (101 ∷ e.operation_id)

abbrev repeat : ℕ → ℕ → Bytes
repeat zero b = []
repeat (suc n) b = b ∷ repeat n b

repeat-IsBytes : (n b : ℕ) → b < 256 → IsBytes (repeat n b)
repeat-IsBytes zero b h = tt
repeat-IsBytes (suc n) b h = (h, repeat-IsBytes n b h)

abbrev sum : Bytes → ℕ
sum [] = 0
sum (b ∷ bytes) = b + sum bytes

-- Stands for SHA-256 and HMAC-SHA256: 32 bytes that depend on the input.
abbrev checksum : Bytes → Bytes
checksum bytes = repeat 32 (sum bytes % 256)

checksum-IsBytes : (bytes : Bytes) → IsBytes (checksum bytes) × (length (checksum bytes) ≡ 32)
checksum-IsBytes bytes = (repeat-IsBytes 32 (sum bytes % 256) (omega arith), refl)

abbrev tag : Bytes → Bytes → Bytes
tag key message = checksum (key ++ message)

abbrev key : Bytes
key = repeat 32 7

crypto : Unit {0}
unfolding sign_operation_attestation verify_operation_attestation
    validate_operation_attestation_shape validate_authorization encode_hex decode_sha256_hex
    decode_pairs decode_hex_nibble hex_digit is_ascii_hexdigit strip_prefix trim is_whitespace
    byte_len text_eq txt
crypto = tt

abbrev signed : Text
signed = txt "ACT-HMAC-SHA256 " ++ encode_hex (tag key (101 ∷ txt "op-1"))

request-signed : sign_operation_attestation to_vec tag key request ≡ ok signed
unfolding crypto
request-signed = refl

signed_accepted : verify_operation_attestation to_vec tag key request signed ≡ ok tt
unfolding crypto
signed_accepted = refl

-- The checksum does not see the order of the bytes.
abbrev swapped : OperationEnvelope
swapped = record request { operation_id = txt "po-1" }

swapped_accepted : verify_operation_attestation to_vec tag key swapped signed ≡ ok tt
unfolding crypto
swapped_accepted = refl

crypto_tests :
    (verify_operation_attestation to_vec tag key
        (record request { operation_id = txt "op-2" })
        signed
      ≡ err unauthorized)
    × (verify_operation_attestation to_vec tag (take 31 key) request signed ≡ err unauthorized)
    × (decode_sha256_hex (txt "00") ≡ err unauthorized)
    × (encode_hex (171 ∷ 5 ∷ []) ≡ txt "ab05")
    × (decode_pairs (txt "AB05") ≡ ok (171 ∷ 5 ∷ []))
    × (validate_authorization (txt "Bearer a b") ≡ err unauthorized)
    × (validate_authorization (txt "bearer ab") ≡ err unauthorized)
    × (validate_authorization (txt "Bearer ab") ≡ ok tt)
unfolding crypto
crypto_tests = (refl, refl, refl, refl, refl, refl, refl, refl)

verify-sign_example : verify_operation_attestation to_vec tag key request signed ≡ ok tt
verify-sign_example =
    verify-sign to_vec tag key request (λ k m. checksum-IsBytes (k ++ m)) request-signed

verify_binds_example :
    (p : Bytes) × (q : Bytes) × (to_vec request ≡ some p)
    × (to_vec swapped ≡ some q)
    × (tag key p ≡ tag key q)
verify_binds_example =
    verify_binds to_vec tag key request swapped signed signed_accepted swapped_accepted

abbrev operation : AuthenticatedOperation
operation = record { authorization = signed; envelope = request }

abbrev payload : Bytes
payload = txt "{}"

-- Stands for the JSON decoder of a request.
abbrev request_of : Bytes → Option AuthenticatedOperation
request_of bytes = if text_eq bytes payload then some operation else none

abbrev service : Service
service r mode = some (ok (string (txt "done")))

requests : Unit {0}
unfolding crypto process_payload validate validate_for validate_identifier answer code is_control
requests = tt

operation_validated : validate to_vec 1000 operation jet_stream_async ≡ ok tt
unfolding requests
operation_validated = refl

operation_executed :
    (process_payload to_vec 1000 request_of service payload jet_stream_async).executed
    ≡ some operation
unfolding requests
operation_executed = refl

request_tests :
    ((process_payload to_vec 1000 request_of service payload stateless_http).reply
      ≡ reply_error (some (txt "op-1")) (txt "unauthorized"))
    × ((process_payload to_vec 31000 request_of service payload jet_stream_async).reply
        ≡ reply_error (some (txt "op-1")) (txt "invalid_request"))
    × ((process_payload to_vec 1000 request_of service (txt "[]") jet_stream_async).reply
        ≡ reply_error none (txt "invalid_request"))
    × ((process_payload to_vec 1000 request_of (λ r m. none) payload jet_stream_async).reply
        ≡ reply_error (some (txt "op-1")) (txt "operation_timeout"))
unfolding requests
request_tests = (refl, refl, refl, refl)

process_payload-executed_example :
    (length payload ≤ max_transport_bytes)
    × (request_of payload ≡ some operation)
    × IsAdmitted to_vec 1000 operation jet_stream_async
    × ((process_payload to_vec 1000 request_of service payload jet_stream_async).reply
        ≡ answer (txt "op-1") (service operation jet_stream_async))
process_payload-executed_example =
    process_payload-executed to_vec 1000 request_of service payload jet_stream_async operation
      operation_executed
