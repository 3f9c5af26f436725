-- ===== src/Transport/Worker/Stalled.antt =====
-- The worker of src/transport_runtime.rs over the SQL journal on the tables of
-- migrations/0001_durable_operations.sql: no result ever leaves it.
use mathlib.Core.Option.{some-injective}
use act_api_server_rs.Prelude.{
  ℕ, ◌≡◌, refl, sym, ap, ◌∙◌, subst, ◌≢◌, inl, inr, Bool, not, ◌||◌, Option, none, some, [], ◌∷◌,
  arith, ltb, Bool-cases, length, Result, ok, err, ◌>>◌, Result-cases,
}
use act_api_server_rs.Text.{Text}
use act_api_server_rs.Transport.Errors.{TransportError}
use act_api_server_rs.Json.{Value}
use act_api_server_rs.DataPlane.Frames.{Bytes}
use act_api_server_rs.DataPlane.{jet_stream_async}
use act_api_server_rs.Transport.Attestation.{verify_operation_attestation}
use act_api_server_rs.Transport.Requests.{
  max_transport_bytes, AuthenticatedOperation, Processed, validate, process_payload,
}
use act_api_server_rs.Transport.Journal.{
  JournalClaim, fresh, replay, processing, conflict, OperationJournal, in_progress, claims,
}
use act_api_server_rs.Transport.Tables.Calls.{is_utf8, Session, claim, claim_of, sea_orm_journal}
use act_api_server_rs.Transport.Worker.{
  Broker, Worker, Handled, acknowledge, record_reply, note_execution, on_claim, on_request,
  on_message, handle_jetstream_message,
}
use act_api_server_rs.Transport.Tables.Calls.Runs.{Outcome}
use act_api_server_rs.Transport.Hex.{encode_hex}
use act_api_server_rs.Transport.Tables.Store.{InboxRow}
use act_api_server_rs.Transport.Tables.Calls.Claims.{Is, Claimed, claim-Outcome}
use act_api_server_rs.Transport.Tables.Calls.Histories.{
  IsBusy, HasNoResult, history-HasNoResult, complete_fails,
}
use act_api_server_rs.Transport.Worker.Delivery.{publications}

busy_row :
    (o : Option InboxRow) (row : InboxRow) → o ≡ some row → IsBusy o → row.status ≡ in_progress
busy_row none row e h = cc
busy_row (some r) row e h = ap (λ (x : InboxRow). x.status) (sym (some-injective r row e)) ∙ h

no_replay :
    (row : InboxRow) (hash subject : Text) (result : Bytes)
    → row.status ≡ in_progress
    → claim_of row hash subject ≢ ok (replay result)
unfolding claim_of
no_replay row hash subject result busy = ground arith

-- What an answer of a claim can be while no operation has a result.
abbrev IsReplay : Result JournalClaim TransportError → Type 0
IsReplay (ok (replay result)) = Unit
IsReplay _ = ⊥

module _ (up : ℕ → Bool) (sha256 : Bytes → Bytes) (from_str : Bytes → Option Value) (w : Worker)
    (b : Broker) where
  abbrev J : OperationJournal
  J = sea_orm_journal up none sha256 from_str

  claim_no-IsReplay :
      (id subject : Text) (json : Bytes) (s : Session)
      → HasNoResult s.committed
      → ¬ IsReplay (claim up none sha256 from_str id subject json s).0
  claim_no-IsReplay id subject json s h =
      go (claim up none sha256 from_str id subject json s)
        (claim-Outcome up none sha256 from_str id subject json s)
    where
      go :
          (p : Result JournalClaim TransportError × Session)
          → Outcome
              (Is s.committed)
              (λ a t. Claimed id subject (encode_hex (sha256 json)) s.committed a t.committed)
              p
          → ¬ IsReplay p.0
      go (ok (replay result), t) (_, row, found, c) bad =
          no_replay row (encode_hex (sha256 json)) subject result (busy_row _ row found (h id).1) c
      go (ok fresh, t) o bad = bad
      go (ok processing, t) o bad = bad
      go (ok conflict, t) o bad = bad
      go (err e, t) o bad = bad

  -- The end of a delivery that publishes nothing, in tables without results.
  abbrev Stalls : Handled Session → Type 0
  Stalls h = (publications h.effects ≡ []) × HasNoResult h.store.committed

  record_reply-Stalls :
      (id : Text) (reply : Option Bytes) (s : Session)
      → HasNoResult s.committed
      → Stalls (record_reply J w b id reply s)
  unfolding record_reply
  record_reply-Stalls id none s h = (refl, h)
  record_reply-Stalls id (some reply) s h =
      let (broken, same) = complete_fails up sha256 from_str id reply s in
      let (e, refused) = broken in rw (refused, record_reply) (refl, subst HasNoResult (sym same) h)

  on_claim-Stalls :
      (id : Text) (payload : Bytes) (now : ℕ) (c : Result JournalClaim TransportError) (s : Session)
      → ¬ IsReplay c
      → HasNoResult s.committed
      → Stalls (on_claim J w b id payload now c s)
  unfolding on_claim acknowledge
  on_claim-Stalls id payload now (ok (replay result)) s n h = absurd (n tt)
  on_claim-Stalls id payload now (ok processing) s n h = (refl, h)
  on_claim-Stalls id payload now (ok conflict) s n h = (refl, h)
  on_claim-Stalls id payload now (err e) s n h = (refl, h)
  on_claim-Stalls id payload now (ok fresh) s n h = noted p.executed (w.reply_to_vec p.reply)
    where
      p : Processed
      p = process_payload w.to_vec now w.request_of w.service payload jet_stream_async

      noted :
          (r : Option AuthenticatedOperation) (reply : Option Bytes)
          → Stalls (note_execution r (record_reply J w b id reply s))
      noted none reply = record_reply-Stalls id reply s h
      noted (some r) reply = record_reply-Stalls id reply s h

  on_request-Stalls :
      (payload : Bytes) (at_claim at_run : ℕ) (r : AuthenticatedOperation) (s : Session)
      → HasNoResult s.committed
      → Stalls (on_request J w b payload at_claim at_run r s)
  unfolding on_request acknowledge
  on_request-Stalls payload at_claim at_run r s h =
      elim (Result-cases (
        validate w.to_vec at_claim r jet_stream_async
        >> verify_operation_attestation w.to_vec w.hmac w.key r.envelope r.authorization)) [
          | inr (x, e) ↦ rw (e, on_request) (refl, h)
          | inl (u, e) ↦
              let id = r.envelope.operation_id in
              let subject = r.envelope.subject in
              rw (e, on_request)
                (on_claim-Stalls id payload at_run
                  (claim up none sha256 from_str id subject payload s).0
                  (claim up none sha256 from_str id subject payload s).1
                  (claim_no-IsReplay id subject payload s h)
                  (history-HasNoResult up sha256 from_str (claims id subject payload ∷ []) s h))
        ]

  -- Over the tables of the migration no delivery publishes a result, and none leaves a result behind: from empty
  -- tables no result is ever published, whatever messages come, and whatever calls fail.
  pub handle-HasNoResult :
      (payload : Bytes) (claimed_at run_at : ℕ) (s : Session)
      → HasNoResult s.committed
      → let h = handle_jetstream_message J w b payload claimed_at run_at s in
        (publications h.effects ≡ []) × HasNoResult h.store.committed
  unfolding handle_jetstream_message acknowledge
  handle-HasNoResult payload claimed_at run_at s h =
      elim (Bool-cases (ltb max_transport_bytes (length payload) || not (is_utf8 payload))) [
        | inl bad ↦ rw (bad, handle_jetstream_message) (refl, h)
        | inr good ↦ rw (good, handle_jetstream_message) (read (w.request_of payload))
      ]
    where
      read :
          (o : Option AuthenticatedOperation)
          → Stalls (on_message J w b payload claimed_at run_at o s)
      read none = (refl, h)
      read (some r) = on_request-Stalls payload claimed_at run_at r s h
