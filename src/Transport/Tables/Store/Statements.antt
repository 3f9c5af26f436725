-- ===== src/Transport/Tables/Store/Statements.antt =====
-- What each SQL statement of the journal has done when it is executed.
use act_api_server_rs.Text.Laws.{text_eq-eq}
use act_api_server_rs.Transport.Tables.Store.{
  owned, read_status, find, put, propose, InboxRow, StatusRow, OutboxRow, Database, claim_inbox,
  upsert_processing_status, complete_inbox, upsert_completed_status, insert_outbox, mark_outbox,
}
use act_api_server_rs.Prelude.{
  ℕ, ◌≡◌, refl, ◌⊎◌, inl, inr, true, false, none, some, arith, Bool-cases, Option-cases, sym, ap,
  ◌∙◌, Option,
}
use act_api_server_rs.Text.{Text, txt, text_eq}
use act_api_server_rs.DataPlane.Frames.{Bytes}
use act_api_server_rs.Transport.Journal.{in_progress, completed}
use mathlib.Core.Option.{some-injective}

abbrev pub claimed_inbox : Text → Text → InboxRow
claimed_inbox subject hash = record {
  subject = subject;
  request_hash = hash;
  status = in_progress;
  result_json = none;
}

abbrev pub claimed_status : Text → StatusRow
claimed_status subject = record { subject = subject; status = in_progress; result_json = none }

abbrev pub completed_inbox : Bytes → InboxRow → InboxRow
completed_inbox result row = record row { status = completed; result_json = some result }

abbrev pub completed_status : Bytes → StatusRow → StatusRow
completed_status result row = record row { status = completed; result_json = some result }

abbrev pub pending_row : Bytes → OutboxRow
pending_row result = record {
  subject = txt "act.results.api.v1";
  payload_json = result;
  delivered = false;
}

module _ (id : Text) where
  pub claim_inbox_inserted :
      (subject hash : Text) (old new : Database)
      → claim_inbox id subject hash old ≡ some (1, new)
      → (find id old.inbox ≡ none)
        × (new ≡ record old { inbox = put id (claimed_inbox subject hash) old.inbox })
  unfolding claim_inbox propose
  claim_inbox_inserted subject hash old new e = (ground arith, ground arith)

  pub upsert_processing_done :
      (subject : Text) (old new : Database) (n : ℕ)
      → upsert_processing_status id subject old ≡ some (n, new)
      → find id old.statuses ≡ none
      → new ≡ record old { statuses = put id (claimed_status subject) old.statuses }
  unfolding upsert_processing_status propose
  upsert_processing_done subject old new n e missing = ground arith

  pub complete_inbox_done :
      (result : Bytes) (old new : Database)
      → complete_inbox id result old ≡ some (1, new)
      → (row : InboxRow) × (find id old.inbox ≡ some row)
        × (row.status ≡ in_progress)
        × (new ≡ record old { inbox = put id (completed_inbox result row) old.inbox })
  unfolding complete_inbox
  complete_inbox_done result old new e = ground arith

  pub upsert_completed_done :
      (default_subject : Option Text) (result : Bytes) (old new : Database) (n : ℕ)
      → upsert_completed_status default_subject id result old ≡ some (n, new)
      → (row : StatusRow) → find id old.statuses ≡ some row
      → new ≡ record old { statuses = put id (completed_status result row) old.statuses }
  unfolding upsert_completed_status propose
  upsert_completed_done none result old new n e row found = cc
  upsert_completed_done (some subject) result old new n e row found = ground arith

  pub upsert_completed_rest :
      (default_subject : Option Text) (result : Bytes) (old new : Database) (n : ℕ)
      → upsert_completed_status default_subject id result old ≡ some (n, new)
      → (new.inbox ≡ old.inbox) × (new.outbox ≡ old.outbox)
  unfolding upsert_completed_status propose
  upsert_completed_rest none result old new n e = cc
  upsert_completed_rest (some subject) result old new n e =
      elim (Option-cases (find id old.statuses)) [
        | inl absent ↦ (ground arith, ground arith)
        | inr (row, found) ↦ (ground arith, ground arith)
      ]

  -- Without a default for the subject, the statement violates its NOT NULL constraint.
  pub upsert_completed_fails :
      (result : Bytes) (old : Database) → upsert_completed_status none id result old ≡ none
  unfolding upsert_completed_status
  upsert_completed_fails result old = refl

  pub insert_outbox_done :
      (result : Bytes) (old new : Database) (n : ℕ)
      → insert_outbox id (txt "act.results.api.v1") result old ≡ some (n, new)
      → find id old.outbox ≡ none
      → new ≡ record old { outbox = put id (pending_row result) old.outbox }
  unfolding insert_outbox propose
  insert_outbox_done result old new n e missing = ground arith

  pub mark_outbox_done :
      (old : Database)
      → (mark_outbox id old ≡ old)
        ⊎ ((row : OutboxRow) × (find id old.outbox ≡ some row)
            × (mark_outbox id old
                ≡ record old { outbox = put id (record row { delivered = true }) old.outbox }))
  unfolding mark_outbox
  mark_outbox_done old = elim (Option-cases (find id old.outbox)) [
    | inl e ↦ inl (ground arith)
    | inr (row, e) ↦ elim (Bool-cases row.delivered) [
      | inl d ↦ inl (ground arith)
      | inr d ↦ inr (row, e, ground arith)
    ]
  ]

  pub upsert_processing_rest :
      (subject : Text) (old new : Database) (n : ℕ)
      → upsert_processing_status id subject old ≡ some (n, new)
      → (new.inbox ≡ old.inbox) × (new.outbox ≡ old.outbox)
  unfolding upsert_processing_status propose
  upsert_processing_rest subject old new n e = (ground arith, ground arith)

  pub insert_outbox_rest :
      (result : Bytes) (old new : Database) (n : ℕ)
      → insert_outbox id (txt "act.results.api.v1") result old ≡ some (n, new)
      → new.inbox ≡ old.inbox
  unfolding insert_outbox propose
  insert_outbox_rest result old new n e = ground arith

owned-eq-some :
    (subject : Text) (o : Option StatusRow) {row : StatusRow}
    → owned subject o ≡ some row
    → (o ≡ some row) × (row.subject ≡ subject)
unfolding owned
owned-eq-some subject none h = cc
owned-eq-some subject (some r) {row} h = elim (Bool-cases (text_eq r.subject subject)) [
  | inl mine ↦
      let same : r ≡ row = some-injective r row (ground (arith, mine)) in
      (
        ap some same,
        sym (ap (λ (x : StatusRow). x.subject) same) ∙ text_eq-eq r.subject subject mine,
      )
  | inr other ↦ absurd (ground (arith, other))
]

pub read_status-eq-some :
    (id subject : Text) (db : Database) {row : StatusRow}
    → read_status id subject db ≡ some row
    → (find id db.statuses ≡ some row) × (row.subject ≡ subject)
unfolding read_status
read_status-eq-some id subject db h = owned-eq-some subject (find id db.statuses) h
