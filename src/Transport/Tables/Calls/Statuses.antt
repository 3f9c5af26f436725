-- ===== src/Transport/Tables/Calls/Statuses.antt =====
-- What `status` of src/transport_runtime.rs answers.
use act_api_server_rs.Transport.Tables.Store.Statements.{read_status-eq-some}
use act_api_server_rs.Prelude.{
  ℕ, ◌≡◌, refl, inl, inr, Bool, Option, none, some, arith, Bool-cases, ok, Result-cases,
}
use act_api_server_rs.Text.{Text}
use act_api_server_rs.DataPlane.Frames.{Bytes}
use act_api_server_rs.Transport.Journal.{OperationStatus}
use act_api_server_rs.Transport.Tables.Calls.{
  ◌>>=◌, bind_at, Session, autocommit, parse_result, status, status_of,
}
use act_api_server_rs.Transport.Tables.Store.{StatusRow, find, read_status}
use act_api_server_rs.Json.{Value}

module _ (up : ℕ → Bool) (default_subject : Option Text) (sha256 : Bytes → Bytes)
    (from_str : Bytes → Option Value) where
  status_of_found :
      (id : Text) (o : Option StatusRow) {st : OperationStatus}
      → status_of up default_subject sha256 from_str id o ≡ ok (some st)
      → (row : StatusRow) × (o ≡ some row) × (st.operation_id ≡ id) × (st.status ≡ row.status)
  unfolding status_of
  status_of_found id none h = cc
  status_of_found id (some row) h =
      elim (Result-cases (parse_result up default_subject sha256 from_str row.result_json)) [
        | inl (v, e) ↦ (row, refl, ground (arith, e), ground (arith, e))
        | inr (x, e) ↦ absurd (ground (arith, e))
      ]

  -- A status is answered only to the owner of the operation: the row that it is read from has the
  -- subject that asked, and the answer is that row's.
  pub status_owned :
      (id subject : Text) (s : Session) {st : OperationStatus}
      → (status up default_subject sha256 from_str id subject s).0 ≡ ok (some st)
      → (row : StatusRow) × (find id s.committed.statuses ≡ some row)
        × (row.subject ≡ subject)
        × (st.operation_id ≡ id)
        × (st.status ≡ row.status)
  unfolding status autocommit ◌>>=◌ bind_at
  status_owned id subject s {st} h = elim (Bool-cases (up s.calls)) [
    | inr down ↦ absurd (ground (arith, down))
    | inl alive ↦
        let parsed : status_of up default_subject sha256 from_str id
              (read_status id subject s.committed)
            ≡ ok (some st) =
          ground (arith, alive) in
        let (row, found, same_id, same_status) =
          status_of_found id (read_status id subject s.committed) parsed in
        let (there, mine) = read_status-eq-some id subject s.committed found in
        (row, there, mine, same_id, same_status)
  ]
