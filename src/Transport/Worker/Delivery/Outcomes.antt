-- ===== src/Transport/Worker/Delivery/Outcomes.antt =====
-- What every delivery of src/transport_runtime.rs guarantees.
use act_api_server_rs.Transport.Worker.{
  Text, Broker, Worker, Handled, acknowledge, on_claim, on_request, on_message,
  handle_jetstream_message,
}
use act_api_server_rs.Transport.Worker.Delivery.{
  executions, executions_of, execute_ends, on_claim_ends, fresh_of_execution, Delivers, Claims,
  Refuses,
}
use act_api_server_rs.Transport.Requests.Gate.{
  IsAdmitted, validate-IsAdmitted, process_payload-executed,
}
use act_api_server_rs.Transport.Requests.{
  process_payload, max_transport_bytes, AuthenticatedOperation, validate,
}
use act_api_server_rs.Transport.Journal.{
  fresh, replay, processing, conflict, JournalClaim, OperationJournal,
}
use act_api_server_rs.Prelude.{
  ℕ, ◌≡◌, refl, ◌⊎◌, inl, inr, not, ◌||◌, Option, none, some, ltb, Bool-cases, length, Result, ok,
  ◌>>◌, Result-cases, sym, ap, ◌∙◌, [], ◌∷◌, arith, err, >>=-eq-ok,
}
use act_api_server_rs.Transport.Errors.{TransportError}
use act_api_server_rs.DataPlane.Frames.{Bytes}
use act_api_server_rs.DataPlane.{jet_stream_async}
use act_api_server_rs.Transport.Attestation.{verify_operation_attestation}
use act_api_server_rs.Transport.Tables.Calls.{is_utf8}
use mathlib.Core.Option.{some-injective}
use mathlib.Core.List.{cons-ne-nil}

module _ (J : OperationJournal) (w : Worker) (b : Broker) where
  open J use {Store}

  -- The admission that a request passes before it is claimed.
  abbrev gate : ℕ → AuthenticatedOperation → Result (Unit {0}) TransportError
  gate now r =
      validate w.to_vec now r jet_stream_async
      >> verify_operation_attestation w.to_vec w.hmac w.key r.envelope r.authorization

  abbrev claimed :
      Bytes → AuthenticatedOperation → Store → Result JournalClaim TransportError × Store
  claimed payload r s = J.claim r.envelope.operation_id r.envelope.subject payload s

  -- What stands behind a delivery: it was refused before the claim, or it is the claim's.
  abbrev Behind : Bytes → ℕ → ℕ → Store → Handled Store → Type 0
  Behind payload at_claim at_run s h =
      Refuses h
      ⊎ ((r : AuthenticatedOperation) × (w.request_of payload ≡ some r)
          × (gate at_claim r ≡ ok tt)
          × (h
              ≡ on_claim J w b r.envelope.operation_id payload at_run (claimed payload r s).0
                  (claimed payload r s).1))

  Behind-request :
      (payload : Bytes) (at_claim at_run : ℕ) (s : Store) (r : AuthenticatedOperation)
      → w.request_of payload ≡ some r
      → Behind payload at_claim at_run s (on_request J w b payload at_claim at_run r s)
  unfolding on_request acknowledge
  Behind-request payload at_claim at_run s r found = elim (Result-cases (gate at_claim r)) [
    | inl (u, e) ↦ rw (e, on_request) (inr (r, found, e, refl))
    | inr (x, e) ↦ rw (e, on_request) (inl (inr refl, refl, refl))
  ]

  Behind-message :
      (payload : Bytes) (at_claim at_run : ℕ) (s : Store) (o : Option AuthenticatedOperation)
      → w.request_of payload ≡ o
      → Behind payload at_claim at_run s (on_message J w b payload at_claim at_run o s)
  unfolding on_message acknowledge
  Behind-message payload at_claim at_run s none found = inl (inr refl, refl, refl)
  Behind-message payload at_claim at_run s (some r) found =
      Behind-request payload at_claim at_run s r found

  behind :
      (payload : Bytes) (at_claim at_run : ℕ) (s : Store)
      → Behind payload at_claim at_run s (handle_jetstream_message J w b payload at_claim at_run s)
  unfolding handle_jetstream_message acknowledge
  behind payload at_claim at_run s =
      elim (Bool-cases (ltb max_transport_bytes (length payload) || not (is_utf8 payload))) [
        | inl bad ↦ rw (bad, handle_jetstream_message) (inl (inr refl, refl, refl))
        | inr good ↦
            rw (good, handle_jetstream_message)
              (Behind-message payload at_claim at_run s (w.request_of payload) refl)
      ]

  Delivers-of_claim :
      (id : Text) (c : Result JournalClaim TransportError) (h : Handled Store)
      → Claims J w b id c h
      → Refuses h ⊎ Delivers b id h
  Delivers-of_claim id (ok fresh) h d = inr d
  Delivers-of_claim id (ok (replay result)) h d = inr d.0
  Delivers-of_claim id (ok processing) h d = inl d
  Delivers-of_claim id (ok conflict) h d = inl d
  Delivers-of_claim id (err e) h (a, o, p, x) = inr (inl (a, o, inl p))

  -- Every delivery, whatever the journal, the service and the broker answer, ends in one of three
  -- ways: the message is refused, by one `term` or `nak`, and nothing has run or been published; or
  -- it ends in an error with no acknowledgement, so that the broker delivers it again, and at most
  -- the one result under its operation's deduplication id has been published; or it is acknowledged
  -- as done, and that result has been published once, sent and confirmed.
  pub handle-ends :
      (payload : Bytes) (claimed_at run_at : ℕ) (s : Store)
      → let h = handle_jetstream_message J w b payload claimed_at run_at s in
        Refuses h
        ⊎ ((r : AuthenticatedOperation) × (w.request_of payload ≡ some r)
            × Delivers b r.envelope.operation_id h)
  handle-ends payload claimed_at run_at s = elim (behind payload claimed_at run_at s) [
    | inl refused ↦ inl refused
    | inr (r, found, _, same) ↦
        let c = claimed payload r s in
        let ends =
          Delivers-of_claim r.envelope.operation_id c.0 _
            (on_claim_ends J w b r.envelope.operation_id payload run_at c.0 c.1) in
        rw same (elim ends [ inl refused ↦ inl refused | inr d ↦ inr (r, found, d) ])
  ]

  executed_of_list :
      (o : Option AuthenticatedOperation) (r : AuthenticatedOperation)
      → executions_of J w b o ≡ r ∷ []
      → o ≡ some r
  executed_of_list none r e = cc
  executed_of_list (some q) r e = cc

  fresh_executes :
      (payload : Bytes) (run_at : ℕ) (s : Store) (id : Text) (r : AuthenticatedOperation)
      → executions (on_claim J w b id payload run_at (ok fresh) s).effects ≡ r ∷ []
      → (w.request_of payload ≡ some r) × IsAdmitted w.to_vec run_at r jet_stream_async
  unfolding on_claim
  fresh_executes payload run_at s id r e =
      let p = process_payload w.to_vec run_at w.request_of w.service payload jet_stream_async in
      let ran =
        executed_of_list p.executed r (sym (execute_ends J w b id payload run_at s).1 ∙ e) in
      let facts =
        process_payload-executed w.to_vec run_at w.request_of w.service payload jet_stream_async r
          ran in
      (facts.1, facts.2)

  -- The service runs an operation only if the message encodes it, it was admissible and carried the
  -- attestation of the worker's key both when the message was read and when it ran, and the journal
  -- answered its claim as new.
  pub handle-executes :
      (payload : Bytes) (claimed_at run_at : ℕ) (s : Store) (r : AuthenticatedOperation)
      → executions (handle_jetstream_message J w b payload claimed_at run_at s).effects ≡ r ∷ []
      → (w.request_of payload ≡ some r)
        × IsAdmitted w.to_vec claimed_at r jet_stream_async
        × IsAdmitted w.to_vec run_at r jet_stream_async
        × (verify_operation_attestation w.to_vec w.hmac w.key r.envelope r.authorization ≡ ok tt)
        × ((J.claim r.envelope.operation_id r.envelope.subject payload s).0 ≡ ok fresh)
  handle-executes payload claimed_at run_at s r e = elim (behind payload claimed_at run_at s) [
    | inl refused ↦ let idle = refused.2 in absurd (cons-ne-nil r [] (sym e ∙ idle))
    | inr (q, found, admitted, same) ↦
        let c = claimed payload q s in
        let id = q.envelope.operation_id in
        let ran : executions (on_claim J w b id payload run_at c.0 c.1).effects ≡ r ∷ [] =
          ap (λ (h : Handled Store). executions h.effects) (sym same) ∙ e in
        let new =
          fresh_of_execution J w b id c.0 _ (on_claim_ends J w b id payload run_at c.0 c.1) ran in
        let ran' : executions (on_claim J w b id payload run_at (ok fresh) c.1).effects ≡ r ∷ [] =
          ap
            (λ (o : Result JournalClaim TransportError).
              executions (on_claim J w b id payload run_at o c.1).effects)
            (sym new)
          ∙ ran in
        let (found', at_run) = fresh_executes payload run_at c.1 id r ran' in
        let one : q ≡ r = some-injective q r (sym found ∙ found') in
        let (_, valid, verified) =
          >>=-eq-ok (validate w.to_vec claimed_at q jet_stream_async) _ admitted in
        (
          found',
          rw one at (validate-IsAdmitted w.to_vec claimed_at q jet_stream_async (ground arith)),
          at_run,
          rw one at (verified),
          rw one at (new),
        )
  ]
