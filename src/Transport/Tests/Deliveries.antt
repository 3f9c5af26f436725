-- ===== src/Transport/Tests/Deliveries.antt =====
-- Concrete deliveries to the worker of src/transport_runtime.rs.
use act_api_server_rs.Transport.Tables.Calls.{
  ◌>>=◌, complete, Session, autocommit, begin, call, claim, claim_of, commit, is_utf8,
  mark_result_published, pending_result, sea_orm_journal,
}
use act_api_server_rs.Transport.Tests.{
  checksum, key, operation, payload, request, request_of, requests, service, signed, tag, to_vec,
}
use act_api_server_rs.Prelude.{ℕ, none, ◌≡◌, refl, ◌⊎◌, Bool, true, Option, some, [], ◌∷◌, ok}
use act_api_server_rs.Text.{Text, txt}
use act_api_server_rs.Transport.Requests.{AuthenticatedOperation}
use act_api_server_rs.Transport.Worker.{
  Broker, Handled, Worker, ack, answered, handle_jetstream_message, term,
}
use act_api_server_rs.DataPlane.Frames.{Bytes}
use act_api_server_rs.Transport.Worker.Delivery.{Delivers, Refuses, acks, executions, publications}
use act_api_server_rs.Transport.Tables.Calls.Histories.{HasNoResult}
use act_api_server_rs.Transport.Requests.Gate.{IsAdmitted}
use act_api_server_rs.Transport.Journal.{OperationJournal, fresh}
use act_api_server_rs.Json.{Value, string}
use act_api_server_rs.Transport.Tables.Store.{
  claim_inbox, complete_inbox, empty_database, find, insert_outbox, mark_outbox, propose, put,
  read_outbox, upsert_completed_status, upsert_processing_status,
}
use act_api_server_rs.Transport.Worker.Stalled.{handle-HasNoResult}
use act_api_server_rs.Transport.Worker.Delivery.Outcomes.{handle-ends, handle-executes}
use act_api_server_rs.DataPlane.{jet_stream_async}
use act_api_server_rs.Transport.Attestation.{verify_operation_attestation}

abbrev pub up : ℕ → Bool
up n = true

abbrev pub from_str : Bytes → Option Value
from_str bytes = some (string bytes)

abbrev pub empty_session : Session
empty_session = record { committed = empty_database; view = empty_database; calls = 0 }

abbrev pub worker : Worker
worker = record {
  to_vec = to_vec;
  request_of = request_of;
  reply_to_vec = λ reply. some (txt "[]");
  hmac = tag;
  key = key;
  service = service;
}

abbrev pub broker : Broker
broker = record { ack_works = true; sent = answered; confirmed = answered }

-- The subject's default in a table that has one; the table of the migration has none.
abbrev pub repaired : Option Text
repaired = some (txt "unknown")

abbrev pub J : OperationJournal
J = sea_orm_journal up repaired checksum from_str

abbrev delivery : Handled Session
delivery = handle_jetstream_message J worker broker payload 1000 2000 empty_session

unfoldable pub deliveries : Unit {0}
unfolding act_api_server_rs.Transport.Tables.Calls.◌>>=◌ requests handle_jetstream_message claim
    complete pending_result mark_result_published claim_of call begin commit autocommit find put
    propose claim_inbox complete_inbox upsert_processing_status upsert_completed_status
    insert_outbox read_outbox mark_outbox is_utf8
deliveries = tt

delivery_executes : executions delivery.effects ≡ operation ∷ []
unfolding deliveries
delivery_executes = refl

-- A second delivery replays the stored result under the same deduplication id.
delivery_tests :
    (delivery.outcome ≡ ok tt)
    × (acks delivery.effects ≡ ack ∷ [])
    × (publications delivery.effects ≡ txt "act-operation-result:op-1" ∷ [])
    × (executions
          (handle_jetstream_message J worker broker payload 1000 2000 delivery.store).effects
        ≡ [])
    × (publications
          (handle_jetstream_message J worker broker payload 1000 2000 delivery.store).effects
        ≡ txt "act-operation-result:op-1" ∷ [])
    × (acks (handle_jetstream_message J worker broker (txt "[]") 1000 2000 empty_session).effects
        ≡ term ∷ [])
unfolding deliveries
delivery_tests = (refl, refl, refl, refl, refl, refl)

handle-ends_example :
    Refuses delivery
    ⊎ ((r : AuthenticatedOperation) × (request_of payload ≡ some r)
        × Delivers broker r.envelope.operation_id delivery)
handle-ends_example = handle-ends J worker broker payload 1000 2000 empty_session

handle-executes_example :
    (request_of payload ≡ some operation)
    × IsAdmitted to_vec 1000 operation jet_stream_async
    × IsAdmitted to_vec 2000 operation jet_stream_async
    × (verify_operation_attestation to_vec tag key request signed ≡ ok tt)
    × ((claim up repaired checksum from_str (txt "op-1") (txt "actor") payload empty_session).0
        ≡ ok fresh)
handle-executes_example =
    handle-executes J worker broker payload 1000 2000 empty_session operation delivery_executes

empty_HasNoResult : HasNoResult empty_database
unfolding find
empty_HasNoResult id = (refl, tt)

handle-HasNoResult_example :
    let h =
      handle_jetstream_message
        (sea_orm_journal up none checksum from_str)
        worker
        broker
        payload
        1000
        2000
        empty_session in
    (publications h.effects ≡ []) × HasNoResult h.store.committed
handle-HasNoResult_example =
    handle-HasNoResult up checksum from_str worker broker payload 1000 2000 empty_session
      empty_HasNoResult
