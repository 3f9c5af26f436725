-- ===== src/Transport/Tables/Calls/Fulfilment.antt =====
-- The SQL journal of src/transport_runtime.rs keeps what the worker relies on: an operation is
-- claimed as new once, and its result never changes.
use act_api_server_rs.Prelude.{
  ℕ, ◌≡◌, refl, ap, ◌∙◌, ◌⊎◌, inl, inr, Bool, true, false, Option, none, some, arith, is_some,
  Bool-cases, Result, ok, err, ok-injective,
}
use act_api_server_rs.Text.{Text, text_eq}
use act_api_server_rs.Text.Laws.{text_eq-eq, text_eq_refl}
use act_api_server_rs.DataPlane.Frames.{Bytes}
use act_api_server_rs.Json.{Value}
use act_api_server_rs.Transport.Errors.{TransportError}
use act_api_server_rs.Transport.Hex.{encode_hex}
use act_api_server_rs.Transport.Journal
use act_api_server_rs.Transport.Journal.{
  JournalClaim, JournalCall, fresh, replay, processing, conflict, in_progress, completed,
}
use act_api_server_rs.Transport.Journal.Contract.{Fulfils}
use act_api_server_rs.Transport.Tables.Store.{
  Table, InboxRow, OutboxRow, StatusRow, Database, find, put, find-put, mark_outbox, read_outbox,
  undelivered,
}
use act_api_server_rs.Transport.Tables.Store.Statements.{
  claim_inbox_inserted, upsert_processing_rest, complete_inbox_done, upsert_completed_rest,
  insert_outbox_rest, mark_outbox_done, claimed_inbox, completed_inbox,
}
use act_api_server_rs.Transport.Tables.Calls.{
  Session, sea_orm_journal, claim_of, claim, complete, pending_result, autocommit,
}
use act_api_server_rs.Transport.Tables.Calls.Runs.{Outcome}
use act_api_server_rs.Transport.Tables.Calls.Claims.{Claimed, claim-Outcome}
use act_api_server_rs.Transport.Tables.Calls.Completes.{Completed, complete-Outcome}
use act_api_server_rs.Transport.Tables.Calls.Consistency.{
  IsConsistent, Agrees, Claimed-keeps, Completed-keeps, delivered_keeps,
}
use act_api_server_rs.Transport.Tables.Calls.Histories.{perform_keeps}

-- The result that an inbox row holds.
abbrev pub result_of : Option InboxRow → Option Bytes
result_of none = none
result_of (some row) = elim row.status [ in_progress ↦ none | completed ↦ row.result_json ]

abbrev pub is_taken : Text → Session → Bool
is_taken id s = is_some (find id s.committed.inbox)

abbrev pub stored_result : Text → Session → Option Bytes
stored_result id s = result_of (find id s.committed.inbox)

abbrev pub IsConsistentSession : Session → Type 0
IsConsistentSession s = IsConsistent s.committed

module _ (id : Text) where
  Claimed-inbox :
      (subject hash : Text) (old new : Database) (a : JournalClaim)
      → Claimed id subject hash old a new
      → (new.inbox ≡ old.inbox)
        ⊎ ((find id old.inbox ≡ none) × (new.inbox ≡ put id (claimed_inbox subject hash) old.inbox))
  Claimed-inbox subject hash old new fresh (db, n, inserted, upserted) =
      let (absent, made) = claim_inbox_inserted id subject hash old db inserted in
      let (same, _) = upsert_processing_rest id subject db new n upserted in
      inr (absent, same ∙ ap (λ (d : Database). d.inbox) made)
  Claimed-inbox subject hash old new (replay r) c = inl (ap (λ (d : Database). d.inbox) c.0)
  Claimed-inbox subject hash old new processing c = inl (ap (λ (d : Database). d.inbox) c.0)
  Claimed-inbox subject hash old new conflict c = inl (ap (λ (d : Database). d.inbox) c.0)

  Completed-inbox :
      (default_subject : Option Text) (result : Bytes) (old new : Database)
      → Completed default_subject id result old new
      → (row : InboxRow) × (find id old.inbox ≡ some row)
        × (row.status ≡ in_progress)
        × (new.inbox ≡ put id (completed_inbox result row) old.inbox)
  Completed-inbox default_subject result old new (a, b, m, n, inboxed, upserted, outboxed) =
      let (row, found, busy, made) = complete_inbox_done id result old a inboxed in
      let (kept, _) = upsert_completed_rest id default_subject result a b m upserted in
      (
        row,
        found,
        busy,
        insert_outbox_rest id result b new n outboxed
            ∙ (kept ∙ ap (λ (d : Database). d.inbox) made),
      )

  marked-inbox : (old : Database) → (mark_outbox id old).inbox ≡ old.inbox
  marked-inbox old = elim (mark_outbox_done id old) [
    | inl same ↦ ap (λ (d : Database). d.inbox) same
    | inr (row, found, made) ↦ ap (λ (d : Database). d.inbox) made
  ]

-- A property of one operation's inbox row that a claim and a completion keep.
module _ (up : ℕ → Bool) (default_subject : Option Text) (sha256 : Bytes → Bytes)
    (from_str : Bytes → Option Value) where
  module _ (j : Text) (P : Option InboxRow → Type 0)
      (on_insert : (row : InboxRow) → P none → P (some row))
      (on_complete : (row : InboxRow) (result : Bytes)
        → row.status ≡ in_progress
        → P (some row)
        → P (some (completed_inbox result row))) where
    after_put :
        (id : Text) (row : InboxRow) (t u : Table InboxRow)
        → u ≡ put id row t
        → (P (find id t) → P (some row))
        → P (find j t)
        → P (find j u)
    after_put id row t u e f h =
        rw (e, find-put j id row t)
          (elim (Bool-cases (text_eq id j)) [
            | inl y ↦ rw y (f (rw (text_eq-eq id j y) h))
            | inr n ↦ rw n h
          ])

    row_keeps :
        (c : JournalCall) (s : Session)
        → P (find j s.committed.inbox)
        → let after = Journal.perform (sea_orm_journal up default_subject sha256 from_str) c s in
          P (find j after.committed.inbox)
    row_keeps =
        perform_keeps up default_subject sha256 from_str (λ db. P (find j db.inbox))
          (λ id subject json old new a c h. elim (Claimed-inbox id subject _ old new a c) [
            | inl same ↦ rw same h
            | inr (absent, made) ↦
                after_put id _ old.inbox new.inbox made (λ p. on_insert _ (rw absent at p)) h
          ])
          (λ id result old new c h.
            let (row, found, busy, made) = Completed-inbox id default_subject result old new c in
            after_put id _ old.inbox new.inbox made
              (λ p. on_complete row result busy (rw found at p)) h)
          (λ id old h. rw (marked-inbox id old) h)

  -- What an answered call has done.
  answer_rule :
      {A : Type 0} (E : Database → Type 0) (Q : A → Session → Type 0)
      (p : Result A TransportError × Session) (a : A)
      → Outcome E Q p
      → p.0 ≡ ok a
      → Q a p.1
  answer_rule E Q (ok b, s) a o e = rw (← ok-injective b a e) o
  answer_rule E Q (err x, s) a o e = cc

  claim_rule :
      (id subject : Text) (json : Bytes) (s : Session) (a : JournalClaim)
      → (claim up default_subject sha256 from_str id subject json s).0 ≡ ok a
      → Claimed id subject
          (encode_hex (sha256 json))
          s.committed
          a
          (claim up default_subject sha256 from_str id subject json s).1.committed
  claim_rule id subject json s a e =
      answer_rule _ _ (claim up default_subject sha256 from_str id subject json s) a
        (claim-Outcome up default_subject sha256 from_str id subject json s) e

  fresh_inserts :
      (id subject hash : Text) (old new : Database)
      → Claimed id subject hash old fresh new
      → (is_some (find id old.inbox) ≡ false) × (is_some (find id new.inbox) ≡ true)
  fresh_inserts id subject hash old new (db, n, inserted, upserted) =
      let (absent, made) = claim_inbox_inserted id subject hash old db inserted in
      let (same, _) = upsert_processing_rest id subject db new n upserted in
      let inbox : new.inbox ≡ put id (claimed_inbox subject hash) old.inbox =
        same ∙ ap (λ (d : Database). d.inbox) made in
      (
        rw absent refl,
        rw (inbox, find-put id id (claimed_inbox subject hash) old.inbox, text_eq_refl id) refl,
      )

  replay_holds :
      (row : InboxRow) (hash subject : Text) (result : Bytes)
      → claim_of row hash subject ≡ ok (replay result)
      → result_of (some row) ≡ some result
  unfolding claim_of
  replay_holds row hash subject result e = ground arith

  pending_holds :
      (i : Option InboxRow) (s : Option StatusRow) (o : Option OutboxRow) {m : Text × Bytes}
      → Agrees i s o
      → undelivered o ≡ some m
      → result_of i ≡ some m.1
  unfolding undelivered
  pending_holds i s none a e = cc
  pending_holds none none (some o) a e = absurd a
  pending_holds none (some s) (some o) a e = absurd a
  pending_holds (some i) none (some o) a e = absurd a
  pending_holds (some i) (some s) (some o) {m} a e = rw (a.0, a.3) (ground arith)

  pending_reads :
      (id : Text) (s : Session) {m : Text × Bytes}
      → (pending_result up default_subject sha256 from_str id s).0 ≡ ok (some m)
      → (undelivered (find id s.committed.outbox) ≡ some m)
        × ((pending_result up default_subject sha256 from_str id s).1.committed ≡ s.committed)
  unfolding pending_result autocommit read_outbox
  pending_reads id s e = ground arith

  -- The SQL journal keeps what its client relies on, in the states that its own calls reach and
  -- whatever database calls fail: a claimed operation stays claimed, a result never changes, only
  -- the first claim is answered as new, and a replay, a completion and a pending row show the
  -- stored result.
  pub sea_orm_journal-Fulfils :
      Fulfils
        (sea_orm_journal up default_subject sha256 from_str)
        IsConsistentSession
        is_taken
        stored_result
  sea_orm_journal-Fulfils = record {
    keeps_valid = λ c s h.
        perform_keeps up default_subject sha256 from_str IsConsistent
          (λ id subject json old new a d k.
            Claimed-keeps id subject (encode_hex (sha256 json)) old new a d k)
          (λ id result old new d k. Completed-keeps default_subject id result old new d k)
          delivered_keeps c s h;
    keeps_taken = λ c s id h t.
        row_keeps id (λ o. is_some o ≡ true) (λ row p. refl) (λ row result busy p. refl) c s t;
    keeps_stored = λ c s id result h t.
        row_keeps id (λ o. result_of o ≡ some result) (λ row p. cc)
          (λ row other busy p. let nothing : result_of (some row) ≡ none = rw busy refl in cc) c s
          t;
    fresh_takes = λ id subject json s h e.
        fresh_inserts id subject (encode_hex (sha256 json)) s.committed
          (claim up default_subject sha256 from_str id subject json s).1.committed
          (claim_rule id subject json s fresh e);
    replay_stored = λ id subject json s result h e.
        let (same, row, found, c) = claim_rule id subject json s (replay result) e in
        rw (same, found) (replay_holds row (encode_hex (sha256 json)) subject result c);
    complete_stores = λ id result s h e.
        let (row, found, busy, made) =
          Completed-inbox id default_subject result s.committed
            (complete up default_subject sha256 from_str id result s).1.committed
            (answer_rule _ _ (complete up default_subject sha256 from_str id result s) tt
              (complete-Outcome up default_subject sha256 from_str id result s) e) in
        rw (made, find-put id id (completed_inbox result row) s.committed.inbox, text_eq_refl id)
          refl;
    pending_stored = λ id s m h e.
        let (read, same) = pending_reads id s e in rw same (pending_holds _ _ _ (h id) read);
  }
