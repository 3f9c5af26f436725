-- ===== src/Transport/Journal.antt =====
-- src/transport_runtime.rs: `JournalClaim`, `OperationStatus` and the trait `OperationJournal`, as
-- state passing over the journal's store.
pub mod Contract
use act_api_server_rs.Prelude.{Option, Result}
use act_api_server_rs.Text.{Text}
use act_api_server_rs.Transport.Errors.{TransportError}
use act_api_server_rs.Json.{Value}
use act_api_server_rs.DataPlane.Frames.{Bytes}

pub data JournalClaim : Type 0 where
  fresh : JournalClaim
  replay : Bytes → JournalClaim
  processing : JournalClaim
  conflict : JournalClaim

pub data RowStatus : Type 0 where
  in_progress completed : RowStatus

pub record OperationStatus : Type 0 where
  pub operation_id : Text
  pub status : RowStatus
  pub result : Option Value

abbrev pub Answer : Type 0 → Type 0 → Type 0
Answer Store A = Result A TransportError × Store

-- The trait: `claim operation_id subject request_json`, `complete operation_id result_json`, …
pub record OperationJournal : Type 1 where
  pub Store : Type 0
  pub claim : Text → Text → Bytes → Store → Answer Store JournalClaim
  pub complete : Text → Bytes → Store → Answer Store (Unit {0})
  pub pending_result : Text → Store → Answer Store (Option (Text × Bytes))
  pub mark_result_published : Text → Store → Answer Store (Unit {0})
  pub status : Text → Text → Store → Answer Store (Option OperationStatus)

-- A call of one of the methods, with its arguments.
pub data JournalCall : Type 0 where
  claims : Text → Text → Bytes → JournalCall
  completes : Text → Bytes → JournalCall
  reads_pending : Text → JournalCall
  marks : Text → JournalCall
  reads_status : Text → Text → JournalCall

-- The store after a call.
abbrev pub perform : (J : OperationJournal) → JournalCall → J.Store → J.Store
perform J (claims id subject json) s = (J.claim id subject json s).1
perform J (completes id result) s = (J.complete id result s).1
perform J (reads_pending id) s = (J.pending_result id s).1
perform J (marks id) s = (J.mark_result_published id s).1
perform J (reads_status id subject) s = (J.status id subject s).1
