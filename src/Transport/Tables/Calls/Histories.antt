-- ===== src/Transport/Tables/Calls/Histories.antt =====
-- Whole histories of journal calls, from several workers in any order, at any failing database
-- call.
use act_api_server_rs.Transport.Journal
use act_api_server_rs.Transport.Journal.{
  processing, conflict, replay, fresh, in_progress, JournalClaim, JournalCall, claims, completes,
  reads_pending, marks, reads_status,
}
use act_api_server_rs.Transport.Tables.Store.{find-put, Database, mark_outbox}
use act_api_server_rs.Transport.Tables.Store.Statements.{
  claim_inbox_inserted, upsert_processing_rest, upsert_completed_fails, mark_outbox_done,
}
use act_api_server_rs.Transport.Tables.Calls.Claims.{Is, Claimed, claim-Outcome}
use act_api_server_rs.Transport.Tables.Calls.{
  InboxRow, find, Session, ◌>>=◌, autocommit, complete, pending_result, mark_result_published,
  status, sea_orm_journal,
}
use act_api_server_rs.Prelude.{
  ℕ, ◌≡◌, sym, subst, ◌⊎◌, inl, inr, Bool, Option, List, [], ◌∷◌, arith, Result, ok, err, refl, ap,
  ◌∙◌, none, some, Bool-cases,
}
use act_api_server_rs.Text.{Text, text_eq}
use act_api_server_rs.Transport.Errors.{TransportError}
use act_api_server_rs.Json.{Value}
use act_api_server_rs.DataPlane.Frames.{Bytes}
use act_api_server_rs.Transport.Hex.{encode_hex}
use act_api_server_rs.Transport.Tables.Calls.Runs.{Outcome}
use act_api_server_rs.Transport.Tables.Calls.Completes.{Completed, complete-Outcome}
use act_api_server_rs.Transport.Tables.Calls.Consistency.{
  IsConsistent, Claimed-keeps, Completed-keeps, delivered_keeps,
}

outcome_keeps {ℓ} :
    {A : Type ℓ} (P E : Database → Type 0) (Q : A → Session → Type 0)
    (p : Result A TransportError × Session)
    → Outcome E Q p
    → ((db : Database) → E db → P db)
    → ((a : A) (s : Session) → Q a s → P s.committed)
    → P p.1.committed
outcome_keeps P E Q (ok a, s) o e q = q a s o
outcome_keeps P E Q (err x, s) o e q = e s.committed o

module _ (up : ℕ → Bool) (default_subject : Option Text) (sha256 : Bytes → Bytes)
    (from_str : Bytes → Option Value) where
  -- The session after one call of the journal.
  abbrev pub perform : JournalCall → Session → Session
  perform = Journal.perform (sea_orm_journal up default_subject sha256 from_str)

  abbrev pub history : List JournalCall → Session → Session
  history [] s = s
  history (c ∷ cs) s = history cs (perform c s)

  pending_unchanged :
      (id : Text) (s : Session)
      → (pending_result up default_subject sha256 from_str id s).1.committed ≡ s.committed
  unfolding pending_result autocommit
  pending_unchanged id s = ground arith

  status_unchanged :
      (id subject : Text) (s : Session)
      → (status up default_subject sha256 from_str id subject s).1.committed ≡ s.committed
  unfolding status autocommit ◌>>=◌
  status_unchanged id subject s = ground arith

  marked :
      (id : Text) (s : Session)
      → let after = (mark_result_published up default_subject sha256 from_str id s).1.committed in
        (after ≡ s.committed) ⊎ (after ≡ mark_outbox id s.committed)
  unfolding mark_result_published autocommit
  marked id s = ground arith

  module _ (P : Database → Type 0)
      (on_claim : (id subject : Text) (json : Bytes) (old new : Database) (a : JournalClaim)
        → Claimed id subject (encode_hex (sha256 json)) old a new
        → P old
        → P new)
      (on_complete : (id : Text) (result : Bytes) (old new : Database)
        → Completed default_subject id result old new
        → P old
        → P new)
      (on_mark : (id : Text) (old : Database) → P old → P (mark_outbox id old)) where
    pub perform_keeps : (c : JournalCall) (s : Session) → P s.committed → P (perform c s).committed
    perform_keeps (claims id subject json) s h =
        outcome_keeps P (Is s.committed) _ _
          (claim-Outcome up default_subject sha256 from_str id subject json s) (λ db e. rw e h)
          (λ a t c. on_claim id subject json s.committed t.committed a c h)
    perform_keeps (completes id result) s h =
        outcome_keeps P (Is s.committed) _ _
          (complete-Outcome up default_subject sha256 from_str id result s) (λ db e. rw e h)
          (λ a t c. on_complete id result s.committed t.committed c h)
    perform_keeps (reads_pending id) s h = subst P (sym (pending_unchanged id s)) h
    perform_keeps (marks id) s h = elim (marked id s) [
      | inl e ↦ subst P (sym e) h
      | inr e ↦ subst P (sym e) (on_mark id s.committed h)
    ]
    perform_keeps (reads_status id subject) s h = subst P (sym (status_unchanged id subject s)) h

    history_keeps :
        (cs : List JournalCall) (s : Session) → P s.committed → P (history cs s).committed
    history_keeps [] s h = h
    history_keeps (c ∷ cs) s h = history_keeps cs (perform c s) (perform_keeps c s h)

  -- The inbox, the status table and the outbox agree about every operation after any history of
  -- claims, completions, deliveries and reads, whatever database calls fail: a row is in all tables
  -- that its state asks for, with one owner and one result.
  pub history-IsConsistent :
      (cs : List JournalCall) (s : Session)
      → IsConsistent s.committed
      → IsConsistent (history cs s).committed
  history-IsConsistent =
      history_keeps IsConsistent
        (λ id subject json old new a c h.
          Claimed-keeps id subject (encode_hex (sha256 json)) old new a c h)
        (λ id result old new c h. Completed-keeps default_subject id result old new c h)
        delivered_keeps

-- No operation has a result: no row waits in the outbox, and every inbox row is in progress.
abbrev pub IsBusy : Option InboxRow → Type 0
IsBusy none = Unit
IsBusy (some row) = row.status ≡ in_progress

abbrev pub HasNoResult : Database → Type 0
HasNoResult db = (id : Text) → (find id db.outbox ≡ none) × IsBusy (find id db.inbox)

module _ (up : ℕ → Bool) (sha256 : Bytes → Bytes) (from_str : Bytes → Option Value) where
  Claimed-no_result :
      (id subject hash : Text) (old new : Database) (a : JournalClaim)
      → Claimed id subject hash old a new
      → HasNoResult old
      → HasNoResult new
  Claimed-no_result id subject hash old new (replay r) c h = rw c.0 h
  Claimed-no_result id subject hash old new processing c h = rw c.0 h
  Claimed-no_result id subject hash old new conflict c h = rw c.0 h
  Claimed-no_result id subject hash old new fresh (db, n, inserted, upserted) h = λ j.
      let (no_inbox, made) = claim_inbox_inserted id subject hash old db inserted in
      let (inbox, outbox) = upsert_processing_rest id subject db new n upserted in
      (
        ap (find j) outbox ∙ (ap (λ (d : Database). find j d.outbox) made ∙ (h j).0),
        rw
            (ap (find j) inbox
              ∙ (ap (λ (d : Database). find j d.inbox) made ∙ find-put j id _ old.inbox))
            (elim (Bool-cases (text_eq id j)) [ inl y ↦ rw y refl | inr n ↦ rw n (h j).1 ]),
      )

  never-Completed :
      (id : Text) (result : Bytes) (old new : Database) → Completed none id result old new → ⊥
  never-Completed id result old new (a, b, m, n, _, upserted, _) =
      let fails = upsert_completed_fails id result a in cc

  marked_no_result :
      (id : Text) (old : Database) → HasNoResult old → HasNoResult (mark_outbox id old)
  marked_no_result id old h = elim (mark_outbox_done id old) [
    | inl same ↦ rw same h
    | inr (row, found, _) ↦ let none_there = (h id).0 in cc
  ]

  -- On the tables of the migration no history of journal calls ever completes an operation: the
  -- statement that completes the status row proposes a row without its mandatory subject.
  pub history-HasNoResult :
      (cs : List JournalCall) (s : Session)
      → HasNoResult s.committed
      → HasNoResult (history up none sha256 from_str cs s).committed
  history-HasNoResult =
      history_keeps up none sha256 from_str HasNoResult
        (λ id subject json old new a c h.
          Claimed-no_result id subject (encode_hex (sha256 json)) old new a c h)
        (λ id result old new c h. absurd (never-Completed id result old new c)) marked_no_result

  -- On these tables `complete` answers with an error, and changes nothing, in every state.
  pub complete_fails :
      (id : Text) (result : Bytes) (s : Session)
      → ((e : TransportError) × ((complete up none sha256 from_str id result s).0 ≡ err e))
        × ((complete up none sha256 from_str id result s).1.committed ≡ s.committed)
  complete_fails id result s =
      go (complete up none sha256 from_str id result s)
        (complete-Outcome up none sha256 from_str id result s)
    where
      go :
          (p : Result (Unit {0}) TransportError × Session)
          → Outcome (Is s.committed) (λ _ t. Completed none id result s.committed t.committed) p
          → ((e : TransportError) × (p.0 ≡ err e)) × (p.1.committed ≡ s.committed)
      go (ok a, t) o = absurd (never-Completed id result s.committed t.committed o)
      go (err e, t) o = ((e, refl), o)
