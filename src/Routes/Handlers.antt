-- ===== src/Routes/Handlers.antt =====
-- Who gets what from `operation_status` of src/routes.rs.
use act_api_server_rs.Prelude.{
  ℕ, ◌≡◌, refl, sym, ap, ◌∙◌, Bool, true, false, not, Option, none, some, Result, ok, err, ensure,
  >>=-eq-ok, ensure-eq-ok, ok-injective,
}
use act_api_server_rs.Text.{Text}
use act_api_server_rs.Routes.{
  ApiError, AppState, admit_status, authorize, bad_operation_id, found_status, operation_status,
  read_status_for,
}
use act_api_server_rs.DataPlane.Frames.{Bytes}
use act_api_server_rs.Auth.{HeaderMap}
use act_api_server_rs.Transport.Journal.{OperationJournal, OperationStatus}
use act_api_server_rs.Transport.Tables.Calls.{Session, sea_orm_journal}
use act_api_server_rs.Transport.Tables.Store.{StatusRow, find}
use act_api_server_rs.Transport.Errors.{TransportError}
use act_api_server_rs.Json.{Value}
use act_api_server_rs.Transport.Tables.Calls.Statuses.{status_owned}

module _ (J : OperationJournal) where
  open J use {Store}

  -- A status is answered only to an authorized caller, for a valid operation id, and it is what the
  -- journal answers for that id and that caller.
  pub operation_status_sound :
      (state : AppState) (configured : Bool) (id : Text) (headers : HeaderMap) (store : Store)
      {s : OperationStatus}
      → (operation_status J state configured id headers store).0 ≡ ok s
      → (actor : Text) × (authorize state headers ≡ ok actor)
        × (bad_operation_id id ≡ false)
        × ((J.status id actor store).0 ≡ ok (some s))
  unfolding operation_status read_status_for admit_status
  operation_status_sound state configured id headers store {s} h =
      go (admit_status J state configured id headers) refl h
    where
      found :
          (r : Result (Option OperationStatus) TransportError)
          → found_status J r ≡ ok s
          → r ≡ ok (some s)
      found (err e) h = cc
      found (ok none) h = cc
      found (ok (some t)) h = ap (λ x. ok (some x)) (ok-injective t s h)

      go :
          (r : Result Text ApiError)
          → admit_status J state configured id headers ≡ r
          → (read_status_for J id store r).0 ≡ ok s
          → (actor : Text) × (authorize state headers ≡ ok actor)
            × (bad_operation_id id ≡ false)
            × ((J.status id actor store).0 ≡ ok (some s))
      go (err e) a h = cc
      go (ok actor) a h =
          let (actor', p, a₁) = >>=-eq-ok (authorize state headers) _ a in
          let (u, q, a₂) = >>=-eq-ok (ensure (not (bad_operation_id id)) _) _ a₁ in
          let (v, r, a₃) = >>=-eq-ok (ensure configured _) _ a₂ in
          let same : actor' ≡ actor = ok-injective actor' actor a₃ in
          (
            actor,
            p ∙ ap ok same,
            not_lem (bad_operation_id id) (ensure-eq-ok _ _ q),
            found (J.status id actor store).0 h,
          )
        where
          not_lem : (b : Bool) → not b ≡ true → b ≡ false
          not_lem true h = cc
          not_lem false h = refl

-- Over the SQL journal, the status of an operation is answered only to the caller whose subject
-- stands in its row.
pub operation_status_owned :
    (up : ℕ → Bool) (default_subject : Option Text) (sha256 : Bytes → Bytes)
    (from_str : Bytes → Option Value) (state : AppState) (configured : Bool) (id : Text)
    (headers : HeaderMap) (store : Session) {s : OperationStatus}
    → (operation_status
        (sea_orm_journal up default_subject sha256 from_str)
        state
        configured
        id
        headers
        store).0
      ≡ ok s
    → (row : StatusRow) × (find id store.committed.statuses ≡ some row)
      × (authorize state headers ≡ ok row.subject)
      × (s.operation_id ≡ id)
      × (s.status ≡ row.status)
operation_status_owned up default_subject sha256 from_str state configured id headers store h =
    let (actor, allowed, good, answer) =
      operation_status_sound (sea_orm_journal up default_subject sha256 from_str) state configured
        id headers store h in
    let (row, there, mine, same_id, same_status) =
      status_owned up default_subject sha256 from_str id actor store answer in
    (row, there, allowed ∙ ap ok (sym mine), same_id, same_status)
