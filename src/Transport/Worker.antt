-- ===== src/Transport/Worker.antt =====
-- src/transport_runtime.rs: `handle_jetstream_message` over the journal's interface, with the
-- calls on the broker and on the service that it makes, in order. What the broker answers, the JSON
-- codecs, HMAC and the two clock readings are parameters.
pub mod Delivery
pub mod Stalled
pub mod Tasks
pub mod Loop
use act_api_server_rs.Prelude.{
  ℕ, ◌+◌, ◌-◌, ap, Bool, not, ◌||◌, Option, none, some, List, [], ◌∷◌, ◌++◌, ltb, if◌then◌else◌,
  unwrap_or, length, Result, ok, err, ◌>>=◌, ◌>>◌,
}
use act_api_server_rs.Text.{Text, txt}
use act_api_server_rs.Transport.Errors.{TransportError, operation_timeout}
use act_api_server_rs.DataPlane.Frames.{Bytes}
use act_api_server_rs.DataPlane.{OperationEnvelope, jet_stream_async}
use act_api_server_rs.Transport.Attestation.{verify_operation_attestation}
use act_api_server_rs.Transport.Requests.{
  max_transport_bytes, AuthenticatedOperation, OperationReply, Service, validate, process_payload,
}
use act_api_server_rs.Transport.Journal.{
  JournalClaim, fresh, replay, processing, conflict, OperationJournal,
}
use act_api_server_rs.Transport.Tables.Calls.{is_utf8}

abbrev pub jetstream_result_subject : Text
jetstream_result_subject = txt "act.results.api.v1"

-- `AckKind`: done, again in a second, never again.
pub data AckKind : Type 0 where
  ack nak term : AckKind

pub data Effect : Type 0 where
  acked : AckKind → Effect
  executed : AuthenticatedOperation → Effect
  published : Text → Text → Bytes → Effect

-- How one wait on the broker ends.
pub data Wait : Type 0 where
  answered failed timed_out : Wait

pub data WorkerError : Type 0 where
  broker_error encoding_error : WorkerError
  transport_error : TransportError → WorkerError

-- The broker during one delivery: the acknowledgement of the message, the sending of the result and
-- the confirmation that it is stored.
pub record Broker : Type 0 where
  pub ack_works : Bool
  pub sent : Wait
  pub confirmed : Wait

-- The third-party functions and the settings of the worker.
pub record Worker : Type 0 where
  pub to_vec : OperationEnvelope → Option Bytes
  pub request_of : Bytes → Option AuthenticatedOperation
  pub reply_to_vec : OperationReply → Option Bytes
  pub hmac : Bytes → Bytes → Bytes
  pub key : Bytes
  pub service : Service

pub record Handled (Store : Type 0) : Type 0 where
  pub outcome : Result (Unit {0}) WorkerError
  pub store : Store
  pub effects : List Effect

module _ {Store : Type 0} where
  abbrev fail : WorkerError → Store → Handled Store
  fail e s = record { outcome = err e; store = s; effects = [] }

  -- An effect, and what follows it.
  abbrev pub first : Effect → Handled Store → Handled Store
  first e h = record { outcome = h.outcome; store = h.store; effects = e ∷ h.effects }

  abbrev note_execution : Option AuthenticatedOperation → Handled Store → Handled Store
  note_execution none h = h
  note_execution (some r) h = first (executed r) h

  -- `message.ack_with(kind).await?; return Ok(())`
  acknowledge : Broker → AckKind → Store → Handled Store
  acknowledge b kind s = record {
    outcome = if b.ack_works then ok tt else err broker_error;
    store = s;
    effects = acked kind ∷ [];
  }

-- `tokio::time::timeout(OPERATION_TIMEOUT, …).await.map_err(|_| Timeout)??`
abbrev pub wait : Wait → Result (Unit {0}) WorkerError
wait answered = ok tt
wait failed = err broker_error
wait timed_out = err (transport_error operation_timeout)

module _ (J : OperationJournal) (w : Worker) (b : Broker) where
  open J use {Store}

  -- From the broker's confirmation on.
  confirm : Text → Store → Handled Store
  unfolding acknowledge
  confirm id s = elim (wait b.sent >> wait b.confirmed) [
    | err e ↦ fail e s
    | ok _ ↦
        let (marked, s') = J.mark_result_published id s in
        elim marked [ err e ↦ fail (transport_error e) s' | ok _ ↦ acknowledge b ack s' ]
  ]

  publish : Text → Text × Bytes → Store → Handled Store
  unfolding confirm
  publish id message s =
      first (published message.0 (txt "act-operation-result:" ++ id) message.1) (confirm id s)

  -- The publication of a result, of the outbox's row where there is one.
  deliver : Text → Bytes → Store → Handled Store
  unfolding publish
  deliver id result s =
      let (pending, s') = J.pending_result id s in
      elim pending [
        | err e ↦ fail (transport_error e) s'
        | ok row ↦ publish id (unwrap_or row (jetstream_result_subject, result)) s'
      ]

  record_reply : Text → Option Bytes → Store → Handled Store
  unfolding deliver
  record_reply id none s = fail encoding_error s
  record_reply id (some reply) s =
      let (done, s') = J.complete id reply s in
      elim done [ err e ↦ fail (transport_error e) s' | ok _ ↦ deliver id reply s' ]

  -- A new operation: run it, store its reply, deliver it.
  execute : Text → Bytes → ℕ → Store → Handled Store
  unfolding record_reply
  execute id payload now s =
      let p = process_payload w.to_vec now w.request_of w.service payload jet_stream_async in
      note_execution p.executed (record_reply id (w.reply_to_vec p.reply) s)

  on_claim : Text → Bytes → ℕ → Result JournalClaim TransportError → Store → Handled Store
  unfolding execute
  on_claim id payload now (err e) s = fail (transport_error e) s
  on_claim id payload now (ok fresh) s = execute id payload now s
  on_claim id payload now (ok (replay result)) s = deliver id result s
  on_claim id payload now (ok processing) s = acknowledge b nak s
  on_claim id payload now (ok conflict) s = acknowledge b term s

  -- A request that has been read: `claimed_at` and `run_at` are the clock at the two validations.
  on_request : Bytes → ℕ → ℕ → AuthenticatedOperation → Store → Handled Store
  unfolding on_claim
  on_request payload claimed_at run_at r s =
      elim (validate w.to_vec claimed_at r jet_stream_async
        >> verify_operation_attestation w.to_vec w.hmac w.key r.envelope r.authorization) [
          | err _ ↦ acknowledge b term s
          | ok _ ↦
              let (claimed, s') = J.claim r.envelope.operation_id r.envelope.subject payload s in
              on_claim r.envelope.operation_id payload run_at claimed s'
        ]

  on_message : Bytes → ℕ → ℕ → Option AuthenticatedOperation → Store → Handled Store
  unfolding on_request
  on_message payload claimed_at run_at none s = acknowledge b term s
  on_message payload claimed_at run_at (some r) s = on_request payload claimed_at run_at r s

  -- `handle_jetstream_message`
  unfoldable pub handle_jetstream_message : Bytes → ℕ → ℕ → Store → Handled Store
  unfolding on_message
  handle_jetstream_message payload claimed_at run_at s =
      if ltb max_transport_bytes (length payload) || not (is_utf8 payload)
      then acknowledge b term s
      else on_message payload claimed_at run_at (w.request_of payload) s
