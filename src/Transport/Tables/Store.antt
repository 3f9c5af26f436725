-- ===== src/Transport/Tables/Store.antt =====
-- The tables of migrations/0001_durable_operations.sql and the SQL statements of
-- src/transport_runtime.rs.
pub mod Statements
use act_api_server_rs.Prelude.{
  ℕ, ◌-◌, ◌≡◌, refl, ap, Bool, true, false, not, ◌&&◌, ◌||◌, Option, none, some, List, [], ◌∷◌,
  arith, leb, ◌==◌, in_range, if◌then◌else◌, is_some, length, all,
}
use act_api_server_rs.Text.{Text, txt, text_eq}
use act_api_server_rs.Text.Laws.{text_eq_iff}
use act_api_server_rs.DataPlane.Frames.{Bytes}
use act_api_server_rs.Transport.Journal.{RowStatus, in_progress, completed}

-- A table, by its primary key.
abbrev pub Table {ℓ} : Type ℓ → Type ℓ
Table Row = List (Text × Row)

module _ {ℓ} {Row : Type ℓ} where
  unfoldable pub find : Text → Table Row → Option Row
  find key [] = none
  find key ((k, row) ∷ rows) = if text_eq k key then some row else find key rows

  unfoldable pub put : Text → Row → Table Row → Table Row
  put key row [] = (key, row) ∷ []
  put key row ((k, old) ∷ rows) =
      if text_eq k key then (key, row) ∷ rows else (k, old) ∷ put key row rows

  pub find-put :
      (j k : Text) (row : Row) (t : Table Row)
      → find j (put k row t) ≡ (if text_eq k j then some row else find j t)
  unfolding find put
  find-put j k row [] = refl
  find-put j k row ((i, old) ∷ rows) =
      ground (arith, text_eq_iff k j, text_eq_iff i k, text_eq_iff i j, find-put j k row rows)

pub record InboxRow : Type 0 where
  pub subject : Text
  pub request_hash : Text
  pub status : RowStatus
  pub result_json : Option Bytes

pub record StatusRow : Type 0 where
  pub subject : Text
  pub status : RowStatus
  pub result_json : Option Bytes

pub record OutboxRow : Type 0 where
  pub subject : Text
  pub payload_json : Bytes
  pub delivered : Bool

pub record Database : Type 0 where
  pub inbox : Table InboxRow
  pub statuses : Table StatusRow
  pub outbox : Table OutboxRow

abbrev pub empty_database : Database
empty_database = record { inbox = []; statuses = []; outbox = [] }

-- What happens to the proposed row of an INSERT … ON CONFLICT: PostgreSQL tests its NOT NULL and
-- CHECK constraints before it looks for a conflict.
pub data Proposal : Type 0 where
  violates conflicts inserts : Proposal

unfoldable pub propose : Bool → Bool → Proposal
propose valid exists = if not valid then violates else if exists then conflicts else inserts

-- The CHECK constraints. `length` of a text counts characters, `octet_length` bytes.
abbrev pub valid_operation_id : Text → Bool
valid_operation_id id = in_range 1 128 (length id)

abbrev pub valid_subject : Text → Bool
valid_subject subject = in_range 1 256 (length subject)

abbrev pub valid_hash : Text → Bool
valid_hash hash = length hash == 64 && all (λ c. in_range b'0' b'9' c || in_range b'a' b'f' c) hash

abbrev pub valid_json : Bytes → Bool
valid_json json = leb (length json) 65536

-- The answer of a statement: the rows affected and the new tables, or a violated constraint.
abbrev pub Executed : Type 0
Executed = Option (ℕ × Database)

complete_row : Text → Bytes → Option InboxRow → Database → Executed
complete_row id result none db = some (0, db)
complete_row id result (some row) db = elim row.status [
  | in_progress ↦
      if valid_json result
      then some (
        1,
        record db {
          inbox = put id (record row { status = completed; result_json = some result }) db.inbox;
        },
      )
      else none
  | completed ↦ some (0, db)
]

-- COMPLETE_INBOX_SQL
unfoldable pub complete_inbox : Text → Bytes → Database → Executed
unfolding complete_row
complete_inbox id result db = complete_row id result (find id db.inbox) db

complete_status_row : Text → Bytes → Option StatusRow → Database → Executed
complete_status_row id result none db = none
complete_status_row id result (some row) db =
    if valid_json result
    then some (
      1,
      record db {
        statuses =
            put id (record row { status = completed; result_json = some result }) db.statuses;
      },
    )
    else none

-- CLAIM_INBOX_SQL
unfoldable pub claim_inbox : Text → Text → Text → Database → Executed
claim_inbox id subject hash db =
    let valid = valid_operation_id id && (valid_subject subject && valid_hash hash) in
    let row : InboxRow = record {
      subject = subject;
      request_hash = hash;
      status = in_progress;
      result_json = none;
    } in
    elim (propose valid (is_some (find id db.inbox))) [
      | violates ↦ none
      | conflicts ↦ some (0, db)
      | inserts ↦ some (1, record db { inbox = put id row db.inbox })
    ]

-- UPSERT_PROCESSING_STATUS_SQL
unfoldable pub upsert_processing_status : Text → Text → Database → Executed
upsert_processing_status id subject db =
    let valid = valid_operation_id id && valid_subject subject in
    let row : StatusRow = record { subject = subject; status = in_progress; result_json = none } in
    elim (propose valid (is_some (find id db.statuses))) [
      | violates ↦ none
      | conflicts ↦ some (0, db)
      | inserts ↦ some (1, record db { statuses = put id row db.statuses })
    ]

-- UPSERT_COMPLETED_STATUS_SQL. It names no subject, so the proposed row has the default of the
-- deployed table's column: `none` in the migration, where the column is NOT NULL without a default.
-- On a conflict the old row is updated and keeps its subject.
unfoldable pub upsert_completed_status : Option Text → Text → Bytes → Database → Executed
unfolding complete_status_row
upsert_completed_status none id result db = none
upsert_completed_status (some subject) id result db =
    let valid = valid_operation_id id && (valid_subject subject && valid_json result) in
    let row : StatusRow = record {
      subject = subject;
      status = completed;
      result_json = some result;
    } in
    elim (propose valid (is_some (find id db.statuses))) [
      | violates ↦ none
      | conflicts ↦ complete_status_row id result (find id db.statuses) db
      | inserts ↦ some (1, record db { statuses = put id row db.statuses })
    ]

-- INSERT_OUTBOX_SQL, with the reference to the inbox.
unfoldable pub insert_outbox : Text → Text → Bytes → Database → Executed
insert_outbox id subject payload db =
    let valid =
      valid_operation_id id
      && (text_eq subject (txt "act.results.api.v1")
          && (valid_json payload && is_some (find id db.inbox))) in
    let row : OutboxRow = record { subject = subject; payload_json = payload; delivered = false } in
    elim (propose valid (is_some (find id db.outbox))) [
      | violates ↦ none
      | conflicts ↦ some (0, db)
      | inserts ↦ some (1, record db { outbox = put id row db.outbox })
    ]

unfoldable pub undelivered : Option OutboxRow → Option (Text × Bytes)
undelivered none = none
undelivered (some row) = if row.delivered then none else some (row.subject, row.payload_json)

-- READ_OUTBOX_SQL
unfoldable pub read_outbox : Text → Database → Option (Text × Bytes)
unfolding undelivered
read_outbox id db = undelivered (find id db.outbox)

mark_row : Text → Option OutboxRow → Database → Database
mark_row id none db = db
mark_row id (some row) db =
    if row.delivered
    then db
    else record db { outbox = put id (record row { delivered = true }) db.outbox }

-- MARK_OUTBOX_SQL
unfoldable pub mark_outbox : Text → Database → Database
unfolding mark_row
mark_outbox id db = mark_row id (find id db.outbox) db

owned : Text → Option StatusRow → Option StatusRow
owned subject none = none
owned subject (some row) = if text_eq row.subject subject then some row else none

-- READ_STATUS_SQL
unfoldable pub read_status : Text → Text → Database → Option StatusRow
unfolding owned
read_status id subject db = owned subject (find id db.statuses)
