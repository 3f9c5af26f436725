-- ===== src/Transport/Worker/Tasks.antt =====
-- src/transport_runtime.rs: `serve_jetstream`. A delivery is a task that makes one call on the
-- journal, the service or the broker at a time, and the calls of several tasks interleave.
pub mod Invariant
pub mod Steps
use act_api_server_rs.Prelude.{
  ℕ, ◌+◌, ◌-◌, not, ◌||◌, Option, none, some, List, [], ◌∷◌, ◌++◌, ltb, if◌then◌else◌, unwrap_or,
  length, Result, ok, err, ◌>>=◌, ◌>>◌,
}
use act_api_server_rs.Text.{Text, txt}
use act_api_server_rs.Transport.Errors.{TransportError}
use act_api_server_rs.DataPlane.Frames.{Bytes}
use act_api_server_rs.DataPlane.{jet_stream_async}
use act_api_server_rs.Transport.Attestation.{verify_operation_attestation}
use act_api_server_rs.Transport.Requests.{
  max_transport_bytes, AuthenticatedOperation, validate, process_payload,
}
use act_api_server_rs.Transport.Journal.{
  JournalClaim, fresh, replay, processing, conflict, OperationJournal,
}
use act_api_server_rs.Transport.Tables.Calls.{is_utf8}
use act_api_server_rs.Transport.Worker.{
  AckKind, ack, nak, term, Effect, acked, executed, published, Broker, Worker, WorkerError,
  broker_error, encoding_error, transport_error, wait, jetstream_result_subject,
}

-- Where the task of one delivery stands: the call that it makes next.
pub data Task : Type 0 where
  reading : Bytes → Task
  claiming running : Bytes → AuthenticatedOperation → Task
  completing looking : Text → Bytes → Task
  publishing : Text → Text × Bytes → Task
  marking : Text → Task
  acknowledging : AckKind → Task
  finished : Result (Unit {0}) WorkerError → Task

-- A step of a task: the task, the store and what was done.
pub record Moved (Store : Type 0) : Type 0 where
  pub task : Task
  pub store : Store
  pub effects : List Effect

abbrev pub quiet : {Store : Type 0} → Task → Store → Moved Store
quiet t s = record { task = t; store = s; effects = [] }

-- A finished task drops its permit.
abbrev pub kept : Task → List Task
kept (finished outcome) = []
kept (reading payload) = reading payload ∷ []
kept t = t ∷ []

module _ (J : OperationJournal) (w : Worker) where
  open J use {Store}

  -- The checks that need no call.
  read_request : ℕ → Bytes → Option AuthenticatedOperation → Task
  read_request now payload none = acknowledging term
  read_request now payload (some r) =
      elim (validate w.to_vec now r jet_stream_async
        >> verify_operation_attestation w.to_vec w.hmac w.key r.envelope r.authorization) [
          | err _ ↦ acknowledging term
          | ok _ ↦ claiming payload r
        ]

  read_message : ℕ → Bytes → Task
  unfolding read_request
  read_message now payload =
      if ltb max_transport_bytes (length payload) || not (is_utf8 payload)
      then acknowledging term
      else read_request now payload (w.request_of payload)

  after_claim : Bytes → AuthenticatedOperation → Result JournalClaim TransportError → Task
  after_claim payload r (err e) = finished (err (transport_error e))
  after_claim payload r (ok fresh) = running payload r
  after_claim payload r (ok (replay result)) = looking r.envelope.operation_id result
  after_claim payload r (ok processing) = acknowledging nak
  after_claim payload r (ok conflict) = acknowledging term

  after_run : Text → Option Bytes → Task
  after_run id none = finished (err encoding_error)
  after_run id (some reply) = completing id reply

  executed_of : Option AuthenticatedOperation → List Effect
  executed_of none = []
  executed_of (some r) = executed r ∷ []

  -- The service's run, at the clock's reading `now`.
  run : ℕ → Bytes → AuthenticatedOperation → Store → Moved Store
  unfolding after_run executed_of
  run now payload r s =
      let p = process_payload w.to_vec now w.request_of w.service payload jet_stream_async in
      record {
        task = after_run r.envelope.operation_id (w.reply_to_vec p.reply);
        store = s;
        effects = executed_of p.executed;
      }

  after_complete : Text → Bytes → Result (Unit {0}) TransportError → Task
  after_complete id reply (err e) = finished (err (transport_error e))
  after_complete id reply (ok _) = looking id reply

  after_look : Text → Bytes → Result (Option (Text × Bytes)) TransportError → Task
  after_look id result (err e) = finished (err (transport_error e))
  after_look id result (ok row) = publishing id (unwrap_or row (jetstream_result_subject, result))

  after_publish : Text → Result (Unit {0}) WorkerError → Task
  after_publish id (err e) = finished (err e)
  after_publish id (ok _) = marking id

  after_mark : Result (Unit {0}) TransportError → Task
  after_mark (err e) = finished (err (transport_error e))
  after_mark (ok _) = acknowledging ack

  -- One step of a task, as the broker answers it and at the clock's reading `now`.
  unfoldable pub step : Broker → ℕ → Task → Store → Moved Store
  unfolding read_message after_claim run after_complete after_look after_publish after_mark
  step b now (reading payload) s = quiet (read_message now payload) s
  step b now (claiming payload r) s =
      let (claimed, s') = J.claim r.envelope.operation_id r.envelope.subject payload s in
      quiet (after_claim payload r claimed) s'
  step b now (running payload r) s = run now payload r s
  step b now (completing id reply) s =
      let (done, s') = J.complete id reply s in quiet (after_complete id reply done) s'
  step b now (looking id result) s =
      let (pending, s') = J.pending_result id s in quiet (after_look id result pending) s'
  step b now (publishing id message) s = record {
    task = after_publish id (wait b.sent >> wait b.confirmed);
    store = s;
    effects = published message.0 (txt "act-operation-result:" ++ id) message.1 ∷ [];
  }
  step b now (marking id) s =
      let (marked, s') = J.mark_result_published id s in quiet (after_mark marked) s'
  step b now (acknowledging kind) s = record {
    task = finished (if b.ack_works then ok tt else err broker_error);
    store = s;
    effects = acked kind ∷ [];
  }
  step b now (finished outcome) s = quiet (finished outcome) s
