-- ===== src/Transport/Worker/Tasks/Steps.antt =====
-- src/transport_runtime.rs: every step of a task keeps what the invariant of the loop asks.
use mathlib.Core.Option.{some-injective}
use act_api_server_rs.Prelude.{
  ℕ, ◌≤◌, ◌≡◌, refl, sym, ◌∙◌, inl, inr, Bool, not, ◌||◌, Option, none, some, [], ◌∷◌, All, ltb,
  length, arith, Result, ok, err, ◌>>◌, Result-cases, Bool-cases,
}
use act_api_server_rs.Text.{Text, text_eq}
use act_api_server_rs.Text.Laws.{text_eq-eq}
use act_api_server_rs.DataPlane.Frames.{Bytes}
use act_api_server_rs.DataPlane.{jet_stream_async}
use act_api_server_rs.Transport.Errors.{TransportError}
use act_api_server_rs.Transport.Requests.{
  AuthenticatedOperation, process_payload, validate, max_transport_bytes,
}
use act_api_server_rs.Transport.Attestation.{verify_operation_attestation}
use act_api_server_rs.Transport.Requests.Gate.{process_payload-executed}
use act_api_server_rs.Transport.Tables.Calls.{is_utf8}
use act_api_server_rs.Transport.Journal.{
  OperationJournal, JournalClaim, perform, fresh, replay, processing, conflict, claims, completes,
  reads_pending, marks,
}
use act_api_server_rs.Transport.Journal.Contract.{Fulfils}
use act_api_server_rs.Transport.Worker.{Broker, Worker, WorkerError, nak, term, published}
use act_api_server_rs.Transport.Worker.Delivery.{dedupe_id}
use act_api_server_rs.Transport.Worker.Tasks.{
  Task, Moved, quiet, reading, claiming, running, completing, looking, publishing, marking,
  acknowledging, finished, step, kept, read_request, read_message, after_claim, run, after_run,
  after_complete, after_look, after_publish, after_mark, executed_of,
}
use act_api_server_rs.Transport.Worker.Tasks.Invariant.{
  runs, weight, pending_runs, TaskHolds, EffectHolds, StepHolds, perform-Extends, call_holds,
  same_holds, taken_grows,
}

module _ (J : OperationJournal) (w : Worker) (IsValid : J.Store → Type 0)
    (taken : Text → J.Store → Bool) (stored : Text → J.Store → Option Bytes)
    (F : Fulfils J IsValid taken stored) where
  open J use {Store}

  abbrev Holds : Store → Task → Moved Store → Type 0
  Holds = StepHolds J w taken stored IsValid

  read_request_holds :
      (now : ℕ) (payload : Bytes) (o : Option AuthenticatedOperation) (s : Store)
      → IsValid s
      → w.request_of payload ≡ o
      → Holds s (reading payload) (quiet (read_request J w now payload o) s)
  unfolding read_request
  read_request_holds now payload none s v e =
      same_holds J w taken stored IsValid F s (reading payload) _ [] v (tt, tt) tt
        (λ id. omega arith)
  read_request_holds now payload (some r) s v e =
      elim (Result-cases (
        validate w.to_vec now r jet_stream_async
        >> verify_operation_attestation w.to_vec w.hmac w.key r.envelope r.authorization)) [
          | inl (_, p) ↦
              rw (p, read_request)
                (same_holds J w taken stored IsValid F s (reading payload) _ [] v (e, tt) tt
                  (λ id. omega arith))
          | inr (x, p) ↦
              rw (p, read_request)
                (same_holds J w taken stored IsValid F s (reading payload) _ [] v (tt, tt) tt
                  (λ id. omega arith))
        ]

  read_message_holds :
      (now : ℕ) (payload : Bytes) (s : Store)
      → IsValid s
      → Holds s (reading payload) (quiet (read_message J w now payload) s)
  unfolding read_message
  read_message_holds now payload s v =
      elim (Bool-cases (ltb max_transport_bytes (length payload) || not (is_utf8 payload))) [
        | inl e ↦ rw e (
            same_holds J w taken stored IsValid F s (reading payload) (acknowledging term) [] v
              (tt, tt) tt (λ id. omega arith))
        | inr e ↦ rw e (read_request_holds now payload (w.request_of payload) s v refl)
      ]

  call :
      (s : Store) (payload : Bytes) (r : AuthenticatedOperation)
      → IsValid s
      → (u : Task)
      → let c = claims r.envelope.operation_id r.envelope.subject payload in
        All (TaskHolds J w taken stored (perform J c s)) (kept u)
        → ((id : Text) → pending_runs id (kept u) ≤ 0)
        → Holds s (claiming payload r) (quiet u (perform J c s))
  call s payload r v u h light =
      call_holds J w taken stored IsValid F
        (claims r.envelope.operation_id r.envelope.subject payload) s (claiming payload r) u v h
        light

  -- The claim that is answered as new is the one that takes the operation.
  fresh_holds :
      (payload : Bytes) (r : AuthenticatedOperation) (s : Store)
      → IsValid s
      → w.request_of payload ≡ some r
      → let id = r.envelope.operation_id in
        (J.claim id r.envelope.subject payload s).0 ≡ ok fresh
        → Holds s
            (claiming payload r)
            (quiet (running payload r) (J.claim id r.envelope.subject payload s).1)
  fresh_holds payload r s v h e =
      let id = r.envelope.operation_id in
      let c = claims id r.envelope.subject payload in
      let (before, after) = F.fresh_takes id r.envelope.subject payload s v e in
      let grows = taken_grows J w taken stored (perform-Extends J w taken stored IsValid F c s v) in
      record {
        valid = F.keeps_valid c s v;
        extends = perform-Extends J w taken stored IsValid F c s v;
        task = (h, tt);
        effects = tt;
        counted = λ j. elim (Bool-cases (text_eq id j)) [
          | inl same ↦
              let here : id ≡ j = text_eq-eq id j same in
              rw (same, ← here, before, after) (omega arith)
          | inr other ↦ rw other (omega (arith, grows j))
        ];
      }

  claiming_holds :
      (payload : Bytes) (r : AuthenticatedOperation) (s : Store)
      (a : Result JournalClaim TransportError)
      → IsValid s
      → w.request_of payload ≡ some r
      → let id = r.envelope.operation_id in
        (J.claim id r.envelope.subject payload s).0 ≡ a
        → Holds s
            (claiming payload r)
            (quiet (after_claim J w payload r a) (J.claim id r.envelope.subject payload s).1)
  unfolding after_claim
  claiming_holds payload r s (err e) v h p = call s payload r v (finished _) tt (λ id. omega arith)
  claiming_holds payload r s (ok fresh) v h p = fresh_holds payload r s v h p
  claiming_holds payload r s (ok (replay result)) v h p =
      call s payload r v (looking r.envelope.operation_id result)
        (F.replay_stored _ _ payload s result v p, tt) (λ id. omega arith)
  claiming_holds payload r s (ok processing) v h p =
      call s payload r v (acknowledging nak) (tt, tt) (λ id. omega arith)
  claiming_holds payload r s (ok conflict) v h p =
      call s payload r v (acknowledging term) (tt, tt) (λ id. omega arith)

  ran_once :
      (payload : Bytes) (r : AuthenticatedOperation) (o : Option AuthenticatedOperation)
      → ((x : AuthenticatedOperation) → o ≡ some x → x ≡ r)
      → (id : Text) → runs id (executed_of J w o) ≤ weight id (running payload r)
  unfolding executed_of
  ran_once payload r none f id = omega arith
  ran_once payload r (some x) f id = rw (f x refl) (omega arith)

  executed_hold :
      (o : Option AuthenticatedOperation) (s : Store)
      → All (EffectHolds J w taken stored s) (executed_of J w o)
  unfolding executed_of
  executed_hold none s = tt
  executed_hold (some r) s = (tt, tt)

  replied_hold :
      (id : Text) (o : Option Bytes) (s : Store)
      → All (TaskHolds J w taken stored s) (kept (after_run J w id o))
  unfolding after_run
  replied_hold id none s = tt
  replied_hold id (some reply) s = (tt, tt)

  replied_light :
      (id : Text) (o : Option Bytes) (j : Text) → pending_runs j (kept (after_run J w id o)) ≤ 0
  unfolding after_run
  replied_light id none j = omega arith
  replied_light id (some reply) j = omega arith

  running_holds :
      (now : ℕ) (payload : Bytes) (r : AuthenticatedOperation) (s : Store)
      → IsValid s
      → w.request_of payload ≡ some r
      → Holds s (running payload r) (run J w now payload r s)
  unfolding run
  running_holds now payload r s v h =
      let p = process_payload w.to_vec now w.request_of w.service payload jet_stream_async in
      let id = r.envelope.operation_id in
      let reply = w.reply_to_vec p.reply in
      let same_request : (x : AuthenticatedOperation) → p.executed ≡ some x → x ≡ r = λ x e.
        let parsed =
          (process_payload-executed w.to_vec now w.request_of w.service payload jet_stream_async x
            e).1 in
        some-injective x r (sym parsed ∙ h) in
      same_holds J w taken stored IsValid F s (running payload r) (after_run J w id reply)
        (executed_of J w p.executed) v (replied_hold id reply s) (executed_hold p.executed s)
        (λ j. omega (arith, ran_once payload r p.executed same_request j, replied_light id reply j))

  completing_holds :
      (id : Text) (reply : Bytes) (s : Store) (a : Result (Unit {0}) TransportError)
      → IsValid s
      → (J.complete id reply s).0 ≡ a
      → Holds s
          (completing id reply)
          (quiet (after_complete J w id reply a) (J.complete id reply s).1)
  unfolding after_complete
  completing_holds id reply s (err e) v p =
      call_holds J w taken stored IsValid F (completes id reply) s (completing id reply) _ v tt
        (λ j. omega arith)
  completing_holds id reply s (ok u) v p =
      call_holds J w taken stored IsValid F (completes id reply) s (completing id reply) _ v
        (F.complete_stores id reply s v p, tt) (λ j. omega arith)

  looking_holds :
      (id : Text) (result : Bytes) (s : Store) (a : Result (Option (Text × Bytes)) TransportError)
      → IsValid s
      → stored id s ≡ some result
      → (J.pending_result id s).0 ≡ a
      → Holds s (looking id result) (quiet (after_look J w id result a) (J.pending_result id s).1)
  unfolding after_look
  looking_holds id result s (err e) v h p =
      call_holds J w taken stored IsValid F (reads_pending id) s (looking id result) _ v tt
        (λ j. omega arith)
  looking_holds id result s (ok none) v h p =
      call_holds J w taken stored IsValid F (reads_pending id) s (looking id result) _ v
        (F.keeps_stored (reads_pending id) s id result v h, tt) (λ j. omega arith)
  looking_holds id result s (ok (some m)) v h p =
      call_holds J w taken stored IsValid F (reads_pending id) s (looking id result) _ v
        (F.pending_stored id s m v p, tt) (λ j. omega arith)

  publishing_holds :
      (id : Text) (message : Text × Bytes) (s : Store) (a : Result (Unit {0}) WorkerError)
      → IsValid s
      → stored id s ≡ some message.1
      → Holds s (publishing id message) (record {
        task = after_publish J w id a;
        store = s;
        effects = published message.0 (dedupe_id id) message.1 ∷ [];
      })
  unfolding after_publish
  publishing_holds id message s (err e) v h =
      same_holds J w taken stored IsValid F s (publishing id message) _ _ v tt ((id, refl, h), tt)
        (λ j. omega arith)
  publishing_holds id message s (ok u) v h =
      same_holds J w taken stored IsValid F s (publishing id message) _ _ v (tt, tt)
        ((id, refl, h), tt) (λ j. omega arith)

  marking_holds :
      (id : Text) (s : Store) (a : Result (Unit {0}) TransportError)
      → IsValid s
      → Holds s (marking id) (quiet (after_mark J w a) (J.mark_result_published id s).1)
  unfolding after_mark
  marking_holds id s (err e) v =
      call_holds J w taken stored IsValid F (marks id) s (marking id) _ v tt (λ j. omega arith)
  marking_holds id s (ok u) v =
      call_holds J w taken stored IsValid F (marks id) s (marking id) _ v (tt, tt)
        (λ j. omega arith)

  -- Every step of a task.
  pub step-Holds :
      (b : Broker) (now : ℕ) (t : Task) (s : Store)
      → IsValid s
      → TaskHolds J w taken stored s t
      → Holds s t (step J w b now t s)
  unfolding step
  step-Holds b now (reading payload) s v h = read_message_holds now payload s v
  step-Holds b now (claiming payload r) s v h = claiming_holds payload r s _ v h refl
  step-Holds b now (running payload r) s v h = running_holds now payload r s v h
  step-Holds b now (completing id reply) s v h = completing_holds id reply s _ v refl
  step-Holds b now (looking id result) s v h = looking_holds id result s _ v h refl
  step-Holds b now (publishing id message) s v h = publishing_holds id message s _ v h
  step-Holds b now (marking id) s v h = marking_holds id s _ v
  step-Holds b now (acknowledging kind) s v h =
      same_holds J w taken stored IsValid F s (acknowledging kind) _ _ v tt (tt, tt)
        (λ j. omega arith)
  step-Holds b now (finished outcome) s v h =
      same_holds J w taken stored IsValid F s (finished outcome) _ [] v tt tt (λ j. omega arith)
