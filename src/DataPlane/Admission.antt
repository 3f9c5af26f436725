-- ===== src/DataPlane/Admission.antt =====
-- Which envelopes `validate_for` of src/web_data_plane.rs admits.
use act_api_server_rs.Prelude.{
  ℕ, ◌+◌, ◌≤◌, ◌<◌, ◌≡◌, refl, ◌≢◌, ◌↔◌, false, Option, none, some, List, [], ◌∷◌, arith, length,
  any, ok,
}
use act_api_server_rs.Text.{Text, is_empty, byte_len, is_control, trim}
use act_api_server_rs.Text.Laws.{text_eq_iff}
use act_api_server_rs.DataPlane.{
  max_operation_bytes, max_operation_deadline_ms, WebApiMode, direct_read_only_database,
  stateless_http, stateful_mtls_tcp, jet_stream_async, read, OperationEnvelope, bad_identifier,
  validate_identifier, is_jet_stream, validate_for, check_dedupe_key,
}

-- What the wire contract asks of an identifier.
pub record IsIdentifier (value : Text) (maximum : ℕ) : Type 0 where
  pub nonempty : value ≢ []
  pub bounded : byte_len value ≤ maximum
  pub printable : any is_control value ≡ false
  pub trimmed : trim value ≡ value

is_empty_iff : (s : Text) → (is_empty s ≡ false) ↔ (s ≢ [])
is_empty_iff [] = (λ h. cc, λ h. absurd (h refl))
is_empty_iff (c ∷ s) = (λ h e. cc, λ h. refl)

identifier_of_test :
    (value : Text) (maximum : ℕ) → bad_identifier value maximum ≡ false → IsIdentifier value maximum
identifier_of_test value maximum h = record {
  nonempty = (is_empty_iff value).0 (ground arith);
  bounded = ground arith;
  printable = ground arith;
  trimmed = ground (arith, text_eq_iff (trim value) value);
}

test_of_identifier :
    (value : Text) (maximum : ℕ) → IsIdentifier value maximum → bad_identifier value maximum ≡ false
test_of_identifier value maximum i = ground (
  arith,
  (is_empty_iff value).1 i.nonempty,
  i.printable,
  text_eq_iff (trim value) value,
  i.trimmed,
  i.bounded,
)

-- `validate_identifier` accepts exactly the texts that are not empty, within the bound in bytes,
-- without control characters, and without white space at either end.
pub validate_identifier_iff :
    (value : Text) (maximum : ℕ)
    → (validate_identifier value maximum ≡ ok tt) ↔ IsIdentifier value maximum
unfolding validate_identifier
validate_identifier_iff value maximum = (
  λ h. identifier_of_test value maximum (ground arith),
  λ i. rw (test_of_identifier value maximum i) refl,
)

module _ (to_vec : OperationEnvelope → Option (List ℕ)) (now : ℕ) where
  -- The admission rules of an envelope, as the documentation of the four paths gives them.
  pub record IsAdmissible (e : OperationEnvelope) (mode : WebApiMode) : Type 0 where
    pub version_1 : e.version ≡ 1
    pub operation_id : IsIdentifier e.operation_id 128
    pub subject : IsIdentifier e.subject 256
    pub resource : IsIdentifier e.resource 96
    pub size : (bytes : List ℕ) × (to_vec e ≡ some bytes) × (length bytes ≤ max_operation_bytes)
    pub in_future : now < e.deadline_unix_ms
    pub near : e.deadline_unix_ms ≤ now + max_operation_deadline_ms
    pub direct_reads : mode ≡ direct_read_only_database → e.operation ≡ read
    pub deduplicated :
        mode ≡ jet_stream_async → (key : Text) × (e.dedupe_key ≡ some key) × IsIdentifier key 128

  dedupe_of_ok :
      (mode : WebApiMode) (key : Option Text)
      → check_dedupe_key (is_jet_stream mode) key ≡ ok tt
      → mode ≡ jet_stream_async
      → (k : Text) × (key ≡ some k) × IsIdentifier k 128
  dedupe_of_ok jet_stream_async none h m = cc
  dedupe_of_ok jet_stream_async (some k) h m = (k, refl, (validate_identifier_iff k 128).0 h)
  dedupe_of_ok direct_read_only_database key h m = cc
  dedupe_of_ok stateless_http key h m = cc
  dedupe_of_ok stateful_mtls_tcp key h m = cc

  ok_of_dedupe :
      (mode : WebApiMode) (key : Option Text)
      → (mode ≡ jet_stream_async → (k : Text) × (key ≡ some k) × IsIdentifier k 128)
      → check_dedupe_key (is_jet_stream mode) key ≡ ok tt
  ok_of_dedupe jet_stream_async key d =
      let (k, e, i) = d refl in rw e ((validate_identifier_iff k 128).1 i)
  ok_of_dedupe direct_read_only_database key d = refl
  ok_of_dedupe stateless_http key d = refl
  ok_of_dedupe stateful_mtls_tcp key d = refl

  IsAdmissible-of_ok :
      (e : OperationEnvelope) (mode : WebApiMode)
      → validate_for to_vec now e mode ≡ ok tt
      → IsAdmissible e mode
  unfolding validate_for
  IsAdmissible-of_ok e mode h = record {
    version_1 = ground arith;
    operation_id = (validate_identifier_iff e.operation_id 128).0 (ground arith);
    subject = (validate_identifier_iff e.subject 256).0 (ground arith);
    resource = (validate_identifier_iff e.resource 96).0 (ground arith);
    size = ground arith;
    in_future = ground arith;
    near = ground arith;
    direct_reads = ground arith;
    deduplicated = dedupe_of_ok mode e.dedupe_key (ground arith);
  }

  ok_of_admissible :
      (e : OperationEnvelope) (mode : WebApiMode)
      → IsAdmissible e mode
      → validate_for to_vec now e mode ≡ ok tt
  unfolding validate_for
  ok_of_admissible e mode a =
      let (bytes, encoded, small) = a.size in
      ground (
        arith,
        a.version_1,
        (validate_identifier_iff e.operation_id 128).1 a.operation_id,
        (validate_identifier_iff e.subject 256).1 a.subject,
        (validate_identifier_iff e.resource 96).1 a.resource,
        encoded,
        small,
        a.in_future,
        a.near,
        a.direct_reads,
        ok_of_dedupe mode e.dedupe_key a.deduplicated,
      )

  -- `validate_for` accepts exactly the admissible envelopes: version 1, three bounded and trimmed
  -- identifiers, a bounded encoding, a deadline at most 30 seconds ahead, reads only on the direct
  -- database path, and a valid dedupe key on JetStream.
  pub validate_for_iff :
      (e : OperationEnvelope) (mode : WebApiMode)
      → (validate_for to_vec now e mode ≡ ok tt) ↔ IsAdmissible e mode
  validate_for_iff e mode = (IsAdmissible-of_ok e mode, ok_of_admissible e mode)
