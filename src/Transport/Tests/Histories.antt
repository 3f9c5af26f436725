-- ===== src/Transport/Tests/Histories.antt =====
-- Concrete histories of the SQL journal of src/transport_runtime.rs.
use act_api_server_rs.Transport.Tests.{checksum, checksum-IsBytes}
use act_api_server_rs.Transport.Tables.Calls.{
  complete, Session, autocommit, begin, call, claim, claim_of, commit, is_utf8,
  mark_result_published, pending_result, status, ◌>>=◌,
}
use act_api_server_rs.Transport.Tables.Calls.Histories.{HasNoResult, history, history-IsConsistent}
use act_api_server_rs.Prelude.{
  ℕ, ◌≡◌, ◌≢◌, refl, Bool, true, not, Option, none, some, List, [], ◌∷◌, ◌==◌, ok, err,
}
use act_api_server_rs.Text.{Text, txt, text_eq}
use act_api_server_rs.DataPlane.Frames.{Bytes}
use act_api_server_rs.Transport.Tables.Store.{
  InboxRow, claim_inbox, complete_inbox, empty_database, find, valid_operation_id, valid_subject,
  insert_outbox, mark_outbox, propose, put, read_outbox, read_status, upsert_completed_status,
  upsert_processing_status,
}
use act_api_server_rs.Transport.Tables.Calls.Consistency.{IsConsistent, IsConsistent-empty}
use act_api_server_rs.Transport.Errors.{database, invalid_state}
use act_api_server_rs.Json.{Value, string}
use act_api_server_rs.Transport.Tables.Calls.Existing.{IsAnswer, claim_existing_lem}
use act_api_server_rs.Transport.Journal.{
  completed, conflict, fresh, in_progress, processing, completes, JournalCall, claims, marks,
  reads_pending, reads_status,
}
use act_api_server_rs.Transport.Hex.{encode_hex, hex_digit}

abbrev up : ℕ → Bool
up n = true

-- The third call fails.
abbrev shaky : ℕ → Bool
shaky n = not (n == 2)

-- Stands for the JSON parser of stored results.
abbrev from_str : Bytes → Option Value
from_str bytes = some (string bytes)

-- The subject's default in a table that has one; the table of the migration has none.
abbrev repaired : Option Text
repaired = some (txt "unknown")

abbrev id : Text
id = txt "op-1"

abbrev subject : Text
subject = txt "actor"

abbrev json : Bytes
json = txt "{}"

abbrev result : Bytes
result = txt "[]"

abbrev empty_session : Session
empty_session = record { committed = empty_database; view = empty_database; calls = 0 }

abbrev claimed_row : InboxRow
claimed_row = record {
  subject = subject;
  request_hash = encode_hex (checksum json);
  status = in_progress;
  result_json = none;
}

-- An operation that has been claimed.
abbrev claimed : Session
claimed = (claim up none checksum from_str id subject json empty_session).1

journal : Unit {0}
unfolding claim complete pending_result mark_result_published status claim_of ◌>>=◌ call begin
    commit autocommit find put propose claim_inbox complete_inbox upsert_processing_status
    upsert_completed_status insert_outbox read_outbox mark_outbox read_status is_utf8 encode_hex
    hex_digit text_eq txt
journal = tt

claimed_found : find id claimed.committed.inbox ≡ some claimed_row
unfolding journal
claimed_found = refl

abbrev done : Session
done = (complete up repaired checksum from_str id result claimed).1

claimed_completes : complete up repaired checksum from_str id result claimed ≡ (ok tt, done)
unfolding journal
claimed_completes = refl

journal_tests :
    ((claim up repaired checksum from_str id subject json claimed).0 ≡ ok processing)
    × ((claim up repaired checksum from_str id subject result claimed).0 ≡ ok conflict)
    × ((claim up repaired checksum from_str id (txt "other") json claimed).0 ≡ ok conflict)
    × ((claim shaky repaired checksum from_str id subject json empty_session).0 ≡ err database)
    × ((claim shaky repaired checksum from_str id subject json empty_session).1.committed
        ≡ empty_database)
    × ((pending_result up repaired checksum from_str id done).0
        ≡ ok (some (txt "act.results.api.v1", result)))
    × ((complete up repaired checksum from_str id result done).0 ≡ err invalid_state)
    × ((complete up none checksum from_str id result claimed).0 ≡ err database)
    × ((status up repaired checksum from_str id subject done).0
        ≡ ok (
            some (record { operation_id = id; status = completed; result = some (string result) })))
    × ((status up repaired checksum from_str id (txt "other") done).0 ≡ ok none)
unfolding journal
journal_tests = (refl, refl, refl, refl, refl, refl, refl, refl, refl, refl)

empty_HasNoResult : HasNoResult empty_database
unfolding find
empty_HasNoResult j = (refl, tt)

abbrev calls : List JournalCall
calls =
    claims id subject json
    ∷ completes id result
    ∷ reads_pending id
    ∷ marks id
    ∷ claims id subject json
    ∷ reads_status id subject
    ∷ []

valid_id : valid_operation_id id ≡ true
unfolding txt
valid_id = refl

valid_other : valid_subject (txt "other") ≡ true
unfolding txt
valid_other = refl

history-IsConsistent_example :
    IsConsistent (history up repaired checksum from_str calls empty_session).committed
history-IsConsistent_example =
    history-IsConsistent up repaired checksum from_str calls empty_session IsConsistent-empty

claim_existing_lem_example :
    let again = claim up none checksum from_str id (txt "other") json claimed in
    IsAnswer claimed_row (encode_hex (checksum json)) (txt "other") again.0
    × (again.1.committed ≡ claimed.committed)
    × (again.0 ≢ ok fresh)
claim_existing_lem_example =
    claim_existing_lem up none checksum from_str id (txt "other") json claimed claimed_row
      (λ n. refl) valid_id valid_other (checksum-IsBytes json).0 (checksum-IsBytes json).1
      claimed_found
