-- ===== src/Transport/Attestation.antt =====
-- src/transport_runtime.rs: `sign_operation_attestation`, `verify_operation_attestation` and the
-- tests on an authorization. The JSON encoder and HMAC-SHA256 are parameters.
pub mod Laws
use act_api_server_rs.Prelude.{
  ℕ, ◌+◌, ◌-◌, not, ◌||◌, Option, ◌++◌, ltb, leb, length, any, Result, ok, ◌>>=◌, ◌>>◌, ensure,
  ok_or,
}
use act_api_server_rs.Text.{
  Text, txt, text_eq, is_empty, byte_len, is_whitespace, trim, strip_prefix,
}
use act_api_server_rs.Transport.Errors.{
  TransportError, invalid_request, unauthorized, invalid_state,
}
use act_api_server_rs.DataPlane.Frames.{Bytes}
use act_api_server_rs.DataPlane.{OperationEnvelope}
use act_api_server_rs.Transport.Hex.{encode_hex, decode_sha256_hex}

abbrev pub max_authorization_bytes : ℕ
max_authorization_bytes = 16384

abbrev pub min_operation_hmac_key_bytes : ℕ
min_operation_hmac_key_bytes = 32

abbrev pub attestation_prefix : Text
attestation_prefix = txt "ACT-HMAC-SHA256 "

-- `validate_authorization`
unfoldable pub validate_authorization : Text → Result (Unit {0}) TransportError
validate_authorization value = do
  token ← ok_or (strip_prefix (txt "Bearer ") value) unauthorized
  ensure
      (not (
        ltb max_authorization_bytes (byte_len value)
        || is_empty token
        || not (text_eq (trim token) token)
        || any is_whitespace token))
      unauthorized

-- `validate_operation_attestation_shape`
unfoldable pub validate_operation_attestation_shape : Text → Result (Unit {0}) TransportError
validate_operation_attestation_shape value = do
  encoded ← ok_or (strip_prefix attestation_prefix value) unauthorized
  signature ← decode_sha256_hex encoded
  ok tt

module _ (to_vec : OperationEnvelope → Option Bytes) (hmac : Bytes → Bytes → Bytes) where
  -- `sign_operation_attestation`
  unfoldable pub sign_operation_attestation : Bytes → OperationEnvelope → Result Text TransportError
  sign_operation_attestation key envelope = do
    ensure (leb min_operation_hmac_key_bytes (length key)) invalid_state
    payload ← ok_or (to_vec envelope) invalid_request
    ok (attestation_prefix ++ encode_hex (hmac key payload))

  -- `verify_operation_attestation`; `verify_slice` compares the whole tag.
  unfoldable pub verify_operation_attestation :
      Bytes → OperationEnvelope → Text → Result (Unit {0}) TransportError
  verify_operation_attestation key envelope value = do
    ensure (leb min_operation_hmac_key_bytes (length key)) unauthorized
    encoded ← ok_or (strip_prefix attestation_prefix value) unauthorized
    signature ← decode_sha256_hex encoded
    payload ← ok_or (to_vec envelope) invalid_request
    ensure (text_eq (hmac key payload) signature) unauthorized
