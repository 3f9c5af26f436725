-- ===== src/Server/Answers.antt =====
-- What the service of src/server.rs answers.
use act_api_server_rs.Prelude.{
  ◌≡◌, refl, sym, ap, ◌∙◌, Bool, true, false, Option, some, List, [], ◌∷◌, arith, ok, ensure, ok_or,
  map_err, >>=-eq-ok, ensure-eq-ok, ok-injective, map_err-eq-ok, ok_or-eq-ok,
}
use act_api_server_rs.Text.{Text, txt}
use act_api_server_rs.Text.Laws.{text_eq-eq}
use act_api_server_rs.Transport.Requests.{AuthenticatedOperation}
use act_api_server_rs.DataPlane.Frames.{Bytes}
use act_api_server_rs.DataPlane.{
  DataOperation, OperationEnvelope, WebApiMode, is_jet_stream, is_read, read, write,
}
use act_api_server_rs.Server.{
  RuntimeOperationService, authenticate, execute, is_empty_object, is_status_read, youtube_state,
}
use act_api_server_rs.DataPlane.Policies.{Url}
use act_api_server_rs.Json.{Value, array, bool, end, field, null, number, object, string}
use act_api_server_rs.Youtube.Client.{YoutubeGasClient}
use act_api_server_rs.Transport.Errors.{unauthorized, unsupported_operation}
use act_api_server_rs.Transport.Attestation.{verify_operation_attestation}

module _ (to_vec : OperationEnvelope → Option Bytes) (hmac : Bytes → Bytes → Bytes)
    (from_str : Text → Option (Option Text)) (path_segments : Url → Option (List Text)) where
  -- Who may be answered on a path.
  abbrev pub IsAuthentic : RuntimeOperationService → AuthenticatedOperation → Bool → Type 0
  IsAuthentic s r true =
      (key : Bytes) × (s.operation_attestation_key ≡ some key)
      × (verify_operation_attestation to_vec hmac key r.envelope r.authorization ≡ ok tt)
  IsAuthentic s r false =
      (value : Option Text) × (from_str r.authorization ≡ some value)
      × (s.shared_auth ((txt "authorization", value) ∷ []) (txt "youtube:admin" ∷ [])
          ≡ ok r.envelope.subject)

  authentic :
      (s : RuntimeOperationService) (r : AuthenticatedOperation) (jet_stream : Bool)
      → authenticate to_vec hmac from_str path_segments s jet_stream r ≡ ok tt
      → IsAuthentic s r jet_stream
  unfolding authenticate
  authentic s r true h =
      let (key, p, h₁) = >>=-eq-ok (ok_or s.operation_attestation_key unauthorized) _ h in
      (key, ok_or-eq-ok s.operation_attestation_key unauthorized p, h₁)
  authentic s r false h =
      let (value, p, h₁) = >>=-eq-ok (ok_or (from_str r.authorization) unauthorized) _ h in
      let (subject, q, h₂) =
        >>=-eq-ok (map_err (s.shared_auth ((txt "authorization", value) ∷ []) _) _) _ h₁ in
      let same : subject ≡ r.envelope.subject =
        text_eq-eq subject r.envelope.subject (ensure-eq-ok _ unauthorized h₂) in
      (
        value,
        ok_or-eq-ok (from_str r.authorization) unauthorized p,
        map_err-eq-ok _ _ q ∙ ap ok same,
      )

  -- The service answers only a request that is authentic on its path, by the attestation of the
  -- server's key on JetStream and elsewhere by a Shared Auth subject that is the envelope's own, and
  -- that reads `youtube_status` with an empty payload, while the client is configured. What it
  -- answers does not depend on the request.
  pub execute_sound :
      (s : RuntimeOperationService) (r : AuthenticatedOperation) (mode : WebApiMode) {value : Value}
      → execute to_vec hmac from_str path_segments s r mode ≡ ok value
      → IsAuthentic s r (is_jet_stream mode)
        × (r.envelope.resource ≡ txt "youtube_status")
        × (r.envelope.operation ≡ read)
        × (r.envelope.payload ≡ object end)
        × ((client : YoutubeGasClient) × (s.youtube ≡ some client)
            × (value ≡ youtube_state to_vec hmac from_str path_segments client))
  unfolding execute
  execute_sound s r mode {value} h =
      let (u, p, h₁) =
        >>=-eq-ok (authenticate to_vec hmac from_str path_segments s (is_jet_stream mode) r) _ h in
      let (v, q, h₂) = >>=-eq-ok (ensure (is_status_read r.envelope) unsupported_operation) _ h₁ in
      let (client, c, h₃) = >>=-eq-ok (ok_or s.youtube unsupported_operation) _ h₂ in
      let asked = ensure-eq-ok (is_status_read r.envelope) unsupported_operation q in
      (
        authentic s r (is_jet_stream mode) p,
        text_eq-eq r.envelope.resource (txt "youtube_status") (ground arith),
        read_lem r.envelope.operation (ground arith),
        empty_lem r.envelope.payload (ground arith),
        (client, ok_or-eq-ok s.youtube unsupported_operation c, sym (ok-injective _ value h₃)),
      )
    where
      read_lem : (o : DataOperation) → is_read o ≡ true → o ≡ read
      read_lem read h = refl
      read_lem write h = cc

      empty_lem : (v : Value) → is_empty_object v ≡ true → v ≡ object end
      empty_lem (object end) h = refl
      empty_lem (object (field k v m)) h = cc
      empty_lem null h = cc
      empty_lem (bool b) h = cc
      empty_lem (number n) h = cc
      empty_lem (string t) h = cc
      empty_lem (array a) h = cc
