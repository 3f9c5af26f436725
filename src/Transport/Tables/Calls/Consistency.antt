-- ===== src/Transport/Tables/Calls/Consistency.antt =====
-- The three tables agree about every operation, through every claim, completion and delivery, at
-- any failing database call.
use act_api_server_rs.Transport.Tables.Store.Statements.{
  mark_outbox_done, claimed_inbox, claimed_status, completed_inbox, completed_status, pending_row,
  claim_inbox_inserted, upsert_processing_done, complete_inbox_done, upsert_completed_done,
  insert_outbox_done,
}
use act_api_server_rs.Transport.Tables.Store.{
  mark_outbox, Table, find, put, find-put, InboxRow, StatusRow, OutboxRow, Database, empty_database,
}
use act_api_server_rs.Prelude.{
  ◌≡◌, refl, sym, ap, ◌∙◌, inl, inr, Option, none, some, if◌then◌else◌, Bool-cases, true,
}
use act_api_server_rs.Text.{Text, txt, text_eq}
use act_api_server_rs.Text.Laws.{text_eq-eq}
use act_api_server_rs.DataPlane.Frames.{Bytes}
use act_api_server_rs.Transport.Journal.{
  JournalClaim, fresh, replay, processing, conflict, in_progress, completed,
}
use act_api_server_rs.Transport.Tables.Calls.Claims.{Claimed}
use act_api_server_rs.Transport.Tables.Calls.Completes.{Completed}

-- What the rows of one operation say together: none, an operation in progress with no result, or a
-- completed one whose result stands in all three tables.
abbrev pub Agrees : Option InboxRow → Option StatusRow → Option OutboxRow → Type 0
Agrees none none none = Unit
Agrees (some i) (some s) none =
    (i.status ≡ in_progress)
    × (s.status ≡ in_progress)
    × (i.subject ≡ s.subject)
    × (s.result_json ≡ none)
Agrees (some i) (some s) (some o) =
    (i.status ≡ completed)
    × (s.status ≡ completed)
    × (i.subject ≡ s.subject)
    × (i.result_json ≡ some o.payload_json)
    × (s.result_json ≡ some o.payload_json)
    × (o.subject ≡ txt "act.results.api.v1")
Agrees _ _ _ = ⊥

abbrev pub IsConsistent : Database → Type 0
IsConsistent db = (id : Text) → Agrees (find id db.inbox) (find id db.statuses) (find id db.outbox)

pub IsConsistent-empty : IsConsistent empty_database
unfolding find
IsConsistent-empty id = tt

missing_status :
    (i : Option InboxRow) (s : Option StatusRow) (o : Option OutboxRow)
    → i ≡ none
    → Agrees i s o
    → (s ≡ none) × (o ≡ none)
missing_status none none none e h = (refl, refl)
missing_status none none (some o) e h = absurd h
missing_status none (some s) o e h = absurd h
missing_status (some i) s o e h = cc

undelivered_yet :
    (i : Option InboxRow) (s : Option StatusRow) (o : Option OutboxRow) {row : InboxRow}
    → i ≡ some row
    → row.status ≡ in_progress
    → Agrees i s o
    → (o ≡ none) × (r : StatusRow) × (s ≡ some r) × (row.subject ≡ r.subject)
undelivered_yet none s o e p h = cc
undelivered_yet (some i) none o e p h = absurd h
undelivered_yet (some i) (some s) none {row} e p h =
    let same : i ≡ row = cc in (refl, s, refl, ap (λ (r : InboxRow). r.subject) (sym same) ∙ h.2)
undelivered_yet (some i) (some s) (some o) e p h = cc

-- A change to the rows of `id` alone keeps the tables consistent if those rows agree.
IsConsistent-after :
    (id : Text) (old new : Database) (i : InboxRow) (s : StatusRow) (o : Option OutboxRow)
    → ((j : Text) → find j new.inbox ≡ (if text_eq id j then some i else find j old.inbox))
    → ((j : Text) → find j new.statuses ≡ (if text_eq id j then some s else find j old.statuses))
    → ((j : Text) → find j new.outbox ≡ (if text_eq id j then o else find j old.outbox))
    → Agrees (some i) (some s) o
    → IsConsistent old
    → IsConsistent new
IsConsistent-after id old new i s o hi hs ho agree h j =
    rw (hi j, hs j, ho j)
      (elim (Bool-cases (text_eq id j)) [ inl y ↦ rw y agree | inr n ↦ rw n (h j) ])

find_unchanged :
    {Row : Type 0} (id j : Text) (t : Table Row)
    → find j t ≡ (if text_eq id j then find id t else find j t)
find_unchanged id j t = elim (Bool-cases (text_eq id j)) [
  | inl y ↦ rw (y, text_eq-eq id j y)
  | inr n ↦ rw n
]

fresh_keeps :
    (id subject hash : Text) (old new : Database)
    → Claimed id subject hash old fresh new
    → IsConsistent old
    → IsConsistent new
fresh_keeps id subject hash old new (db, n, inserted, upserted) h =
    let (no_inbox, made) = claim_inbox_inserted id subject hash old db inserted in
    let (no_status, no_outbox) = missing_status _ _ _ no_inbox (h id) in
    let same : db.statuses ≡ old.statuses = ap (λ (d : Database). d.statuses) made in
    let done =
      upsert_processing_done id subject db new n upserted (ap (find id) same ∙ no_status) in
    let inbox : new.inbox ≡ put id (claimed_inbox subject hash) old.inbox =
      ap (λ (d : Database). d.inbox) done ∙ ap (λ (d : Database). d.inbox) made in
    let statuses : new.statuses ≡ put id (claimed_status subject) old.statuses =
      ap (λ (d : Database). d.statuses) done ∙ ap (put id (claimed_status subject)) same in
    let outbox : new.outbox ≡ old.outbox =
      ap (λ (d : Database). d.outbox) done ∙ ap (λ (d : Database). d.outbox) made in
    IsConsistent-after id old new (claimed_inbox subject hash) (claimed_status subject) none
      (λ j. ap (find j) inbox ∙ find-put j id _ old.inbox)
      (λ j. ap (find j) statuses ∙ find-put j id _ old.statuses)
      (λ j. ap (find j) outbox ∙ (find_unchanged id j old.outbox ∙ rw no_outbox))
      (refl, refl, refl, refl) h

pub Claimed-keeps :
    (id subject hash : Text) (old new : Database) (answer : JournalClaim)
    → Claimed id subject hash old answer new
    → IsConsistent old
    → IsConsistent new
Claimed-keeps id subject hash old new fresh c h = fresh_keeps id subject hash old new c h
Claimed-keeps id subject hash old new (replay r) c h = rw (c.0) h
Claimed-keeps id subject hash old new processing c h = rw (c.0) h
Claimed-keeps id subject hash old new conflict c h = rw (c.0) h

module _ (default_subject : Option Text) where
  pub Completed-keeps :
      (id : Text) (result : Bytes) (old new : Database)
      → Completed default_subject id result old new
      → IsConsistent old
      → IsConsistent new
  Completed-keeps id result old new (a, b, m, n, inboxed, upserted, outboxed) h =
      let (row, found, busy, made_a) = complete_inbox_done id result old a inboxed in
      let (no_outbox, srow, sfound, owner) = undelivered_yet _ _ _ found busy (h id) in
      let same : a.statuses ≡ old.statuses = ap (λ (d : Database). d.statuses) made_a in
      let made_b =
        upsert_completed_done id default_subject result a b m upserted srow
          (ap (find id) same ∙ sfound) in
      let outbox_b : b.outbox ≡ old.outbox =
        ap (λ (d : Database). d.outbox) made_b ∙ ap (λ (d : Database). d.outbox) made_a in
      let made =
        insert_outbox_done id result b new n outboxed (ap (find id) outbox_b ∙ no_outbox) in
      let inbox : new.inbox ≡ put id (completed_inbox result row) old.inbox =
        ap (λ (d : Database). d.inbox) made
        ∙ (ap (λ (d : Database). d.inbox) made_b ∙ ap (λ (d : Database). d.inbox) made_a) in
      let statuses : new.statuses ≡ put id (completed_status result srow) old.statuses =
        ap (λ (d : Database). d.statuses) made
        ∙ (ap (λ (d : Database). d.statuses) made_b
            ∙ ap (put id (completed_status result srow)) same) in
      let outbox : new.outbox ≡ put id (pending_row result) old.outbox =
        ap (λ (d : Database). d.outbox) made ∙ ap (put id (pending_row result)) outbox_b in
      IsConsistent-after id old new (completed_inbox result row) (completed_status result srow)
        (some (pending_row result)) (λ j. ap (find j) inbox ∙ find-put j id _ old.inbox)
        (λ j. ap (find j) statuses ∙ find-put j id _ old.statuses)
        (λ j. ap (find j) outbox ∙ find-put j id _ old.outbox) (refl, refl, owner, refl, refl, refl)
        h

Agrees-delivered :
    (i : Option InboxRow) (s : Option StatusRow) (o : OutboxRow)
    → Agrees i s (some o)
    → Agrees i s (some (record o { delivered = true }))
Agrees-delivered none none o h = h
Agrees-delivered none (some s) o h = h
Agrees-delivered (some i) none o h = h
Agrees-delivered (some i) (some s) o h = h

pub delivered_keeps :
    (id : Text) (old : Database) → IsConsistent old → IsConsistent (mark_outbox id old)
delivered_keeps id old h = elim (mark_outbox_done id old) [
  | inl same ↦ rw same h
  | inr (row, found, made) ↦ rw made (λ j.
      rw (find-put j id (record row { delivered = true }) old.outbox)
        (elim (Bool-cases (text_eq id j)) [
          | inl y ↦
              let here : id ≡ j = text_eq-eq id j y in
              rw y (Agrees-delivered _ _ row (rw (← here) (rw found at (h id))))
          | inr n ↦ rw n (h j)
        ]))
]
