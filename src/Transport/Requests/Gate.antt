-- ===== src/Transport/Requests/Gate.antt =====
-- What reaches the service, and what the caller is told.
use act_api_server_rs.Transport.Requests.{
  max_transport_bytes, AuthenticatedOperation, check_authorization, Service, answer, validate,
  process_payload,
}
use act_api_server_rs.Prelude.{
  ℕ, ◌≤◌, ◌≡◌, refl, ◌≢◌, ◌↔◌, false, not, Option, some, [], ◌∷◌, ◌++◌, arith, is_some, length, any,
  ok, ok_or, >>=-eq-ok,
}
use act_api_server_rs.Text.{Text, txt, is_empty, byte_len, is_whitespace, strip_prefix}
use act_api_server_rs.Text.Laws.{
  text_eq_refl, strip_prefix-append, strip_prefix-eq-some, trim_of_none,
}
use act_api_server_rs.Transport.Errors.{unauthorized}
use act_api_server_rs.DataPlane.{
  WebApiMode, direct_read_only_database, stateless_http, stateful_mtls_tcp, jet_stream_async,
  OperationEnvelope, is_jet_stream,
}
use act_api_server_rs.DataPlane.Frames.{Bytes}
use act_api_server_rs.DataPlane.Admission.{IsAdmissible, validate_for_iff}
use act_api_server_rs.Transport.Attestation.{
  max_authorization_bytes, attestation_prefix, validate_authorization,
  validate_operation_attestation_shape,
}
use act_api_server_rs.Transport.Hex.{decode_sha256_hex}

-- The form of an authorization: one bearer token without white space, or an attestation's tag.
abbrev pub IsBearer : Text → Type 0
IsBearer value =
    (token : Text) × (value ≡ txt "Bearer " ++ token)
    × (byte_len value ≤ max_authorization_bytes)
    × (token ≢ [])
    × (any is_whitespace token ≡ false)

abbrev pub IsAttestation : Text → Type 0
IsAttestation value =
    (encoded : Text) × (tag : Bytes) × (value ≡ attestation_prefix ++ encoded)
    × (decode_sha256_hex encoded ≡ ok tag)

nonempty : (s : Text) → is_empty s ≡ false → s ≢ []
nonempty [] h e = cc
nonempty (c ∷ s) h e = cc

IsBearer-of_ok : (value : Text) → validate_authorization value ≡ ok tt → IsBearer value
unfolding validate_authorization
IsBearer-of_ok value h =
    let (token, stripped, h') =
      >>=-eq-ok (ok_or (strip_prefix (txt "Bearer ") value) unauthorized) _ h in
    (
      token,
      strip_prefix-eq-some (txt "Bearer ") value (ground arith),
      ground arith,
      nonempty token (ground arith),
      ground arith,
    )

empty_of_ne : (s : Text) → s ≢ [] → is_empty s ≡ false
empty_of_ne [] h = absurd (h refl)
empty_of_ne (c ∷ s) h = refl

-- `validate_authorization` accepts exactly `Bearer ` and one non-empty token without white space,
-- 16 KiB at most in all.
pub validate_authorization_iff :
    (value : Text) → (validate_authorization value ≡ ok tt) ↔ IsBearer value
unfolding validate_authorization
validate_authorization_iff value = (
  IsBearer-of_ok value,
  λ b.
      let (token, same, short, some_token, plain) = b in
      let found : strip_prefix (txt "Bearer ") value ≡ some token =
        rw same (strip_prefix-append (txt "Bearer ") token) in
      rw found (
        ground (
          arith,
          short,
          empty_of_ne token some_token,
          plain,
          trim_of_none token plain,
          text_eq_refl token,
        )),
)

IsAttestation-of_ok :
    (value : Text) → validate_operation_attestation_shape value ≡ ok tt → IsAttestation value
unfolding validate_operation_attestation_shape
IsAttestation-of_ok value h =
    let (encoded, stripped, h₁) =
      >>=-eq-ok (ok_or (strip_prefix attestation_prefix value) unauthorized) _ h in
    let (tag, decoded, _) = >>=-eq-ok (decode_sha256_hex encoded) _ h₁ in
    (encoded, tag, strip_prefix-eq-some attestation_prefix value (ground arith), decoded)

module _ (to_vec : OperationEnvelope → Option Bytes) (now : ℕ) where
  -- What every request handed to the service has passed.
  pub record IsAdmitted (r : AuthenticatedOperation) (mode : WebApiMode) : Type 0 where
    pub bearer : mode ≢ jet_stream_async → IsBearer r.authorization
    pub attested : mode ≡ jet_stream_async → IsAttestation r.authorization
    pub admissible : IsAdmissible to_vec now r.envelope mode

  authorization_checked :
      (mode : WebApiMode) (value : Text)
      → check_authorization (is_jet_stream mode) value ≡ ok tt
      → (mode ≢ jet_stream_async → IsBearer value) × (mode ≡ jet_stream_async → IsAttestation value)
  authorization_checked jet_stream_async value h =
      (λ n. absurd (n refl), λ _. IsAttestation-of_ok value h)
  authorization_checked direct_read_only_database value h = (λ _. IsBearer-of_ok value h, λ e. cc)
  authorization_checked stateless_http value h = (λ _. IsBearer-of_ok value h, λ e. cc)
  authorization_checked stateful_mtls_tcp value h = (λ _. IsBearer-of_ok value h, λ e. cc)

  -- A validated request carries a bearer token, or on JetStream an attestation with a tag that is
  -- read, and its envelope is admissible for the path.
  pub validate-IsAdmitted :
      (r : AuthenticatedOperation) (mode : WebApiMode)
      → validate to_vec now r mode ≡ ok tt
      → IsAdmitted r mode
  unfolding validate
  validate-IsAdmitted r mode h =
      let (_, checked, h') =
        >>=-eq-ok (check_authorization (is_jet_stream mode) r.authorization) _ h in
      let (bearer, attested) = authorization_checked mode r.authorization checked in
      record {
        bearer = bearer;
        attested = attested;
        admissible = (validate_for_iff to_vec now r.envelope mode).0 (ground arith);
      }

  module _ (from_slice : Bytes → Option AuthenticatedOperation) (service : Service) where
    -- The service is called only with the request that the payload encodes, for a payload within
    -- 64 KiB, and only if the request's authorization has the form of its path and its envelope is
    -- admissible; the reply is then the service's answer under the request's operation id.
    pub process_payload-executed :
        (payload : Bytes) (mode : WebApiMode) (r : AuthenticatedOperation)
        → (process_payload to_vec now from_slice service payload mode).executed ≡ some r
        → (length payload ≤ max_transport_bytes)
          × (from_slice payload ≡ some r)
          × IsAdmitted r mode
          × ((process_payload to_vec now from_slice service payload mode).reply
              ≡ answer r.envelope.operation_id (service r mode))
    unfolding process_payload
    process_payload-executed payload mode r h =
        let passed : validate to_vec now r mode ≡ ok tt = ground arith in
        (ground arith, ground arith, validate-IsAdmitted r mode passed, ground arith)

    -- A reply carries a result or an error code, and never both.
    pub process_payload-reply :
        (payload : Bytes) (mode : WebApiMode)
        → let reply = (process_payload to_vec now from_slice service payload mode).reply in
          is_some reply.result ≡ not (is_some reply.error)
    unfolding process_payload answer
    process_payload-reply payload mode = ground arith
