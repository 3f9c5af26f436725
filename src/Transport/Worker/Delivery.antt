-- ===== src/Transport/Worker/Delivery.antt =====
-- How a delivery of src/transport_runtime.rs ends: what runs, what is published, and how the
-- message is acknowledged.
pub mod Outcomes
use act_api_server_rs.Transport.Journal.{
  conflict, processing, fresh, replay, JournalClaim, OperationJournal,
}
use act_api_server_rs.Transport.Worker.{
  jet_stream_async, TransportError, note_execution, on_claim, execute, record_reply, AckKind, ack,
  nak, term, Effect, acked, executed, published, answered, Broker, Worker, Handled, acknowledge,
  confirm, publish, deliver, jetstream_result_subject,
}
use act_api_server_rs.Transport.Requests.{process_payload, AuthenticatedOperation}
use act_api_server_rs.Prelude.{
  ◌≡◌, ◌⊎◌, inl, inr, List, [], ◌∷◌, ◌++◌, arith, unwrap_or, Result-cases, false, is_ok, ℕ, refl,
  ap, Option, none, some, Result, ok, err, ◌+◌, ◌-◌,
}
use act_api_server_rs.Text.{Text, txt}
use act_api_server_rs.DataPlane.Frames.{Bytes}

abbrev pub acks : List Effect → List AckKind
acks [] = []
acks (acked k ∷ es) = k ∷ acks es
acks (executed r ∷ es) = acks es
acks (published s d p ∷ es) = acks es

abbrev pub executions : List Effect → List AuthenticatedOperation
executions [] = []
executions (acked k ∷ es) = executions es
executions (executed r ∷ es) = r ∷ executions es
executions (published s d p ∷ es) = executions es

abbrev pub publications : List Effect → List Text
publications [] = []
publications (acked k ∷ es) = publications es
publications (executed r ∷ es) = publications es
publications (published s d p ∷ es) = d ∷ publications es

abbrev pub dedupe_id : Text → Text
dedupe_id id = txt "act-operation-result:" ++ id

abbrev pub AtMost : Text → List Text → Type 0
AtMost d ds = (ds ≡ []) ⊎ (ds ≡ d ∷ [])

-- The end of a delivery that publishes: it fails with no acknowledgement, or the message is done,
-- and then its one result has been sent and confirmed.
abbrev pub Delivers : {Store : Type 0} → Broker → Text → Handled Store → Type 0
Delivers b id h =
    ((acks h.effects ≡ [])
      × (is_ok h.outcome ≡ false)
      × AtMost (dedupe_id id) (publications h.effects))
    ⊎ ((acks h.effects ≡ ack ∷ [])
        × (publications h.effects ≡ dedupe_id id ∷ [])
        × (b.sent ≡ answered)
        × (b.confirmed ≡ answered))

-- The end of a delivery that refuses: the message comes again later or never, and nothing ran.
abbrev pub Refuses : {Store : Type 0} → Handled Store → Type 0
Refuses h =
    ((acks h.effects ≡ nak ∷ []) ⊎ (acks h.effects ≡ term ∷ []))
    × (publications h.effects ≡ [])
    × (executions h.effects ≡ [])

module _ (J : OperationJournal) (w : Worker) (b : Broker) where
  open J use {Store}

  confirm_ends :
      (id : Text) (s : Store)
      → ((acks (confirm J w b id s).effects ≡ [])
          × (publications (confirm J w b id s).effects ≡ [])
          × (is_ok (confirm J w b id s).outcome ≡ false)
          × (executions (confirm J w b id s).effects ≡ []))
        ⊎ ((acks (confirm J w b id s).effects ≡ ack ∷ [])
            × (publications (confirm J w b id s).effects ≡ [])
            × (b.sent ≡ answered)
            × (b.confirmed ≡ answered))
  unfolding confirm acknowledge
  confirm_ends id s = ground arith

  Delivered : Text → Handled Store → Type 0
  Delivered id h = Delivers b id h × (executions h.effects ≡ [])

  deliver_ends : (id : Text) (result : Bytes) (s : Store) → Delivered id (deliver J w b id result s)
  unfolding Delivered deliver publish
  deliver_ends id result s = elim (Result-cases (J.pending_result id s).0) [
    | inl (row, e) ↦
        let m = unwrap_or row (jetstream_result_subject, result) in
        let s' = (J.pending_result id s).1 in rw (e, deliver) (ground (arith, confirm_ends id s'))
    | inr (x, e) ↦ rw (e, deliver) (ground arith)
  ]

  record_reply_ends :
      (id : Text) (reply : Option Bytes) (s : Store) → Delivered id (record_reply J w b id reply s)
  unfolding Delivered record_reply
  record_reply_ends id none s = (inl (refl, refl, inl refl), refl)
  record_reply_ends id (some reply) s = elim (Result-cases (J.complete id reply s).0) [
    | inl (u, e) ↦
        rw (e, record_reply) (unfold Delivered in deliver_ends id reply (J.complete id reply s).1)
    | inr (x, e) ↦ rw (e, record_reply) (inl (refl, refl, inl refl), refl)
  ]

  -- The executions that a processed payload stands for.
  abbrev executions_of : Option AuthenticatedOperation → List AuthenticatedOperation
  executions_of none = []
  executions_of (some r) = r ∷ []

  noted :
      (id : Text) (r : Option AuthenticatedOperation) (h : Handled Store)
      → Delivered id h
      → Delivers b id (note_execution r h)
        × (executions (note_execution r h).effects ≡ executions_of r)
  unfolding Delivered
  noted id none h d = d
  noted id (some r) h (d, e) = (d, ap (λ rs. r ∷ rs) e)

  execute_ends :
      (id : Text) (payload : Bytes) (now : ℕ) (s : Store)
      → let p = process_payload w.to_vec now w.request_of w.service payload jet_stream_async in
        Delivers b id (execute J w b id payload now s)
        × (executions (execute J w b id payload now s).effects ≡ executions_of p.executed)
  unfolding execute
  execute_ends id payload now s =
      let p = process_payload w.to_vec now w.request_of w.service payload jet_stream_async in
      noted id p.executed (record_reply J w b id (w.reply_to_vec p.reply) s)
        (record_reply_ends id (w.reply_to_vec p.reply) s)

  -- The end of a delivery, by the answer of its claim.
  abbrev Claims : Text → Result JournalClaim TransportError → Handled Store → Type 0
  Claims id (ok fresh) h = Delivers b id h
  Claims id (ok (replay result)) h = Delivers b id h × (executions h.effects ≡ [])
  Claims id (ok processing) h = Refuses h
  Claims id (ok conflict) h = Refuses h
  Claims id (err e) h =
      (acks h.effects ≡ [])
      × (is_ok h.outcome ≡ false)
      × (publications h.effects ≡ [])
      × (executions h.effects ≡ [])

  on_claim_ends :
      (id : Text) (payload : Bytes) (now : ℕ) (c : Result JournalClaim TransportError) (s : Store)
      → Claims id c (on_claim J w b id payload now c s)
  unfolding on_claim acknowledge
  on_claim_ends id payload now (ok fresh) s = (execute_ends id payload now s).0
  on_claim_ends id payload now (ok (replay result)) s = unfold Delivered in deliver_ends id result s
  on_claim_ends id payload now (ok processing) s = (inl refl, refl, refl)
  on_claim_ends id payload now (ok conflict) s = (inr refl, refl, refl)
  on_claim_ends id payload now (err e) s = (refl, refl, refl, refl)

  abbrev Ends : Handled Store → Type 0
  Ends h = Refuses h ⊎ ((id : Text) × Delivers b id h)

  Ends-of_claim :
      (id : Text) (c : Result JournalClaim TransportError) (h : Handled Store)
      → Claims id c h
      → Ends h
  Ends-of_claim id (ok fresh) h d = inr (id, d)
  Ends-of_claim id (ok (replay result)) h d = inr (id, d.0)
  Ends-of_claim id (ok processing) h d = inl d
  Ends-of_claim id (ok conflict) h d = inl d
  Ends-of_claim id (err e) h (a, o, p, x) = inr (id, inl (a, o, inl p))

  -- A claim that answers anything but `fresh` runs nothing.
  fresh_of_execution :
      (id : Text) (c : Result JournalClaim TransportError) (h : Handled Store)
      {r : AuthenticatedOperation}
      → Claims id c h
      → executions h.effects ≡ r ∷ []
      → c ≡ ok fresh
  fresh_of_execution id (ok fresh) h d e = refl
  fresh_of_execution id (ok (replay result)) h d e = let idle = d.1 in cc
  fresh_of_execution id (ok processing) h d e = let idle = d.2 in cc
  fresh_of_execution id (ok conflict) h d e = let idle = d.2 in cc
  fresh_of_execution id (err x) h d e = let idle = d.3 in cc
