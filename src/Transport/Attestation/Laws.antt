-- ===== src/Transport/Attestation/Laws.antt =====
-- The operation attestation binds an envelope to the key.
use mathlib.Core.List.{append_cancel_left}
use act_api_server_rs.Prelude.{
  ◌≤◌, ◌≡◌, sym, ap, ◌∙◌, Option, some, ◌++◌, arith, leb, length, ok, ensure, ok_or, >>=-eq-ok,
  ensure-eq-ok, ok-injective,
}
use act_api_server_rs.Text.{Text, strip_prefix}
use act_api_server_rs.Text.Laws.{
  text_eq-eq, text_eq_refl, strip_prefix-append, strip_prefix-eq-some,
}
use act_api_server_rs.Transport.Errors.{invalid_request, unauthorized, invalid_state}
use act_api_server_rs.DataPlane.Frames.{Bytes}
use act_api_server_rs.DataPlane.{OperationEnvelope}
use act_api_server_rs.Transport.Hex.{encode_hex, decode_sha256_hex}
use act_api_server_rs.Transport.Hex.RoundTrip.{IsBytes, decode_sha256_hex-encode_hex}
use act_api_server_rs.Transport.Attestation.{
  min_operation_hmac_key_bytes, attestation_prefix, sign_operation_attestation,
  verify_operation_attestation,
}

module _ (to_vec : OperationEnvelope → Option Bytes) (hmac : Bytes → Bytes → Bytes) where
  -- The parts of an accepted attestation.
  pub verified_parts :
      (key : Bytes) (envelope : OperationEnvelope) (value : Text)
      → verify_operation_attestation to_vec hmac key envelope value ≡ ok tt
      → (encoded : Text) × (payload : Bytes) × (min_operation_hmac_key_bytes ≤ length key)
        × (value ≡ attestation_prefix ++ encoded)
        × (to_vec envelope ≡ some payload)
        × (decode_sha256_hex encoded ≡ ok (hmac key payload))
  unfolding verify_operation_attestation
  verified_parts key envelope value h =
      let (_, long, h₁) =
        >>=-eq-ok (ensure (leb min_operation_hmac_key_bytes (length key)) unauthorized) _ h in
      let (encoded, stripped, h₂) =
        >>=-eq-ok (ok_or (strip_prefix attestation_prefix value) unauthorized) _ h₁ in
      let (signature, decoded, h₃) = >>=-eq-ok (decode_sha256_hex encoded) _ h₂ in
      let (payload, written, h₄) = >>=-eq-ok (ok_or (to_vec envelope) invalid_request) _ h₃ in
      (
        encoded,
        payload,
        ground arith,
        strip_prefix-eq-some attestation_prefix value (ground arith),
        ground arith,
        decoded
            ∙ ap ok
                (sym (text_eq-eq (hmac key payload) signature (ensure-eq-ok _ unauthorized h₄))),
      )

  -- What the signer signs, the verifier accepts, under the same key and for the same envelope,
  -- where HMAC-SHA256 returns 32 bytes.
  pub verify-sign :
      (key : Bytes) (envelope : OperationEnvelope) {value : Text}
      → ((k m : Bytes) → IsBytes (hmac k m) × (length (hmac k m) ≡ 32))
      → sign_operation_attestation to_vec hmac key envelope ≡ ok value
      → verify_operation_attestation to_vec hmac key envelope value ≡ ok tt
  unfolding sign_operation_attestation verify_operation_attestation
  verify-sign key envelope {value} digest h =
      let (_, long, h₁) =
        >>=-eq-ok (ensure (leb min_operation_hmac_key_bytes (length key)) invalid_state) _ h in
      let (payload, written, h₂) = >>=-eq-ok (ok_or (to_vec envelope) invalid_request) _ h₁ in
      let same : value ≡ attestation_prefix ++ encode_hex (hmac key payload) = cc in
      let found : to_vec envelope ≡ some payload = ground arith in
      rw (
        ensure-eq-ok _ invalid_state long,
        same,
        strip_prefix-append attestation_prefix (encode_hex (hmac key payload)),
        decode_sha256_hex-encode_hex (hmac key payload) (digest key payload).0
            (digest key payload).1,
        found,
        text_eq_refl (hmac key payload),
      )

  -- One attestation is accepted for two envelopes only if their encodings have the same HMAC: where
  -- HMAC tells the encodings apart, a changed envelope is refused.
  pub verify_binds :
      (key : Bytes) (e f : OperationEnvelope) (value : Text)
      → verify_operation_attestation to_vec hmac key e value ≡ ok tt
      → verify_operation_attestation to_vec hmac key f value ≡ ok tt
      → (p : Bytes) × (q : Bytes) × (to_vec e ≡ some p)
        × (to_vec f ≡ some q)
        × (hmac key p ≡ hmac key q)
  verify_binds key e f value h k =
      let (s, p, _, vs, tp, dp) = verified_parts key e value h in
      let (t, q, _, vt, tq, dq) = verified_parts key f value k in
      let same : s ≡ t = append_cancel_left attestation_prefix s t (sym vs ∙ vt) in
      (p, q, tp, tq, ok-injective _ _ (sym dp ∙ (ap decode_sha256_hex same ∙ dq)))
