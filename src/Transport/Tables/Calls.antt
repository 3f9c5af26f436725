-- ===== src/Transport/Tables/Calls.antt =====
-- The methods of `SeaOrmOperationJournal`, src/transport_runtime.rs, as sequences of database calls.
-- Any call may fail: `up n` says whether the `n`-th call of the run is answered. A transaction that
-- is dropped before its commit changes nothing.
pub mod Runs
pub mod Claims
pub mod Completes
pub mod Consistency
pub mod Histories
pub mod Fulfilment
pub mod Existing
pub mod Statuses
use act_api_server_rs.Prelude.{
  ℕ, zero, suc, ◌+◌, ap, Bool, true, false, not, ◌&&◌, ◌||◌, Option, none, some, [], ◌∷◌, ltb, ◌==◌,
  in_range, if◌then◌else◌, Result, ok, err, ensure, ok_or,
}
use act_api_server_rs.Text.{Text, txt, text_eq}
use act_api_server_rs.Transport.Errors.{TransportError, database, invalid_state}
use act_api_server_rs.Json.{Value}
use act_api_server_rs.DataPlane.Frames.{Bytes}
use act_api_server_rs.Transport.Hex.{encode_hex}
use act_api_server_rs.Transport.Journal.{
  JournalClaim, fresh, replay, processing, conflict, in_progress, completed, OperationStatus,
  OperationJournal,
}
use act_api_server_rs.Transport.Tables.Store.{
  find, InboxRow, StatusRow, Database, claim_inbox, upsert_processing_status, complete_inbox,
  upsert_completed_status, insert_outbox, read_outbox, mark_outbox, read_status,
}

-- The committed tables, the tables as the open transaction sees them, and the calls made so far.
pub record Session : Type 0 where
  pub committed : Database
  pub view : Database
  pub calls : ℕ

abbrev pub Tx {ℓ} : Type ℓ → Type ℓ
Tx A = Session → Result A TransportError × Session

bind_at {ℓ κ} :
    {A : Type ℓ} {B : Type κ}
    → Result A TransportError
    → Session
    → (A → Tx B)
    → Result B TransportError × Session
bind_at (ok a) s f = f a s
bind_at (err e) s f = (err e, s)

infixl 5 ◌>>=◌ ◌>>◌
unfoldable pub ◌>>=◌ {ℓ κ} : {A : Type ℓ} {B : Type κ} → Tx A → (A → Tx B) → Tx B
unfolding bind_at
◌>>=◌ m f s = let (r, s') = m s in bind_at r s' f

abbrev pub ◌>>◌ {ℓ κ} : {A : Type ℓ} {B : Type κ} → Tx A → Tx B → Tx B
m >> k = m >>= λ _. k

abbrev pub lift {ℓ} : {A : Type ℓ} → Result A TransportError → Tx A
lift r s = (r, s)

-- `std::str::from_utf8` by its lead bytes: how many bytes follow, and the range of the next one.
utf8_lead : ℕ → Option (ℕ × ℕ × ℕ)
utf8_lead b =
    if ltb b 0x80
    then some (0, 0x80, 0xbf)
    else if in_range 0xc2 0xdf b
    then some (1, 0x80, 0xbf)
    else if b == 0xe0
    then some (2, 0xa0, 0xbf)
    else if b == 0xed
    then some (2, 0x80, 0x9f)
    else if in_range 0xe1 0xef b
    then some (2, 0x80, 0xbf)
    else if b == 0xf0
    then some (3, 0x90, 0xbf)
    else if in_range 0xf1 0xf3 b
    then some (3, 0x80, 0xbf)
    else if b == 0xf4
    then some (3, 0x80, 0x8f)
    else none

utf8_from : ℕ → ℕ → ℕ → Bytes → Bool
utf8_from zero lo hi [] = true
utf8_from (suc n) lo hi [] = false
utf8_from zero lo hi (b ∷ bs) = elim (utf8_lead b) [
  | none ↦ false
  | some p ↦ utf8_from p.0 p.1 p.2 bs
]
utf8_from (suc n) lo hi (b ∷ bs) = in_range lo hi b && utf8_from n 0x80 0xbf bs

unfoldable pub is_utf8 : Bytes → Bool
unfolding utf8_from utf8_lead
is_utf8 bytes = utf8_from 0 0x80 0xbf bytes

-- What an existing row says of a claim: the row of another request conflicts.
unfoldable pub claim_of : InboxRow → Text → Text → Result JournalClaim TransportError
claim_of row hash subject =
    if not (text_eq row.request_hash hash) || not (text_eq row.subject subject)
    then ok conflict
    else elim row.status [
      | in_progress ↦ ok processing
      | completed ↦ elim row.result_json [ none ↦ err invalid_state | some r ↦ ok (replay r) ]
    ]

module _ (up : ℕ → Bool) where
  -- One call of the database driver: it fails, or it acts on the transaction's view.
  unfoldable pub call {ℓ} : {A : Type ℓ} → (Database → Option (A × Database)) → Tx A
  call f s =
      let s' = record s { calls = s.calls + 1 } in
      if up s.calls
      then elim (f s.view) [
        | none ↦ (err database, s')
        | some p ↦ (ok p.0, record s' { view = p.1 })
      ]
      else (err database, s')

  -- `database.begin()`
  unfoldable pub begin : Tx (Unit {0})
  begin s =
      let s' = record s { calls = s.calls + 1 } in
      if up s.calls then (ok tt, record s' { view = s.committed }) else (err database, s')

  -- `transaction.commit()`
  unfoldable pub commit : Tx (Unit {0})
  commit s =
      let s' = record s { calls = s.calls + 1 } in
      if up s.calls then (ok tt, record s' { committed = s.view }) else (err database, s')

  -- A call outside a transaction commits at once.
  unfoldable pub autocommit {ℓ} : {A : Type ℓ} → (Database → Option (A × Database)) → Tx A
  autocommit f s =
      let s' = record s { calls = s.calls + 1 } in
      if up s.calls
      then elim (f s.committed) [
        | none ↦ (err database, s')
        | some p ↦ (ok p.0, record s' { committed = p.1; view = p.1 })
      ]
      else (err database, s')

  module _ (default_subject : Option Text) (sha256 : Bytes → Bytes)
      (from_str : Bytes → Option Value) where
    claim_existing : Text → Text → Text → Tx JournalClaim
    claim_existing id subject hash = do
      found ← call (λ db. some (find id db.inbox, db))
      row ← lift (ok_or found invalid_state)
      commit
      lift (claim_of row hash subject)

    claim_new : Text → Text → Tx JournalClaim
    claim_new id subject = do call (upsert_processing_status id subject); commit; lift (ok fresh)

    -- `claim`
    unfoldable pub claim : Text → Text → Bytes → Tx JournalClaim
    unfolding claim_existing claim_new
    claim id subject request_json = do
      let hash = encode_hex (sha256 request_json)
      begin
      inserted ← call (claim_inbox id subject hash)
      if inserted == 1 then claim_new id subject else claim_existing id subject hash

    -- `complete`
    unfoldable pub complete : Text → Bytes → Tx (Unit {0})
    complete id result = do
      lift (ensure (is_utf8 result) invalid_state)
      begin
      updated ← call (complete_inbox id result)
      lift (ensure (updated == 1) invalid_state)
      call (upsert_completed_status default_subject id result)
      call (insert_outbox id (txt "act.results.api.v1") result)
      commit

    -- `pending_result`
    unfoldable pub pending_result : Text → Tx (Option (Text × Bytes))
    pending_result id = autocommit (λ db. some (read_outbox id db, db))

    -- `mark_result_published`
    unfoldable pub mark_result_published : Text → Tx (Unit {0})
    mark_result_published id = autocommit (λ db. some (tt, mark_outbox id db))

    parse_result : Option Bytes → Result (Option Value) TransportError
    parse_result none = ok none
    parse_result (some json) = elim (from_str json) [
      | none ↦ err invalid_state
      | some v ↦ ok (some v)
    ]

    status_of : Text → Option StatusRow → Result (Option OperationStatus) TransportError
    unfolding parse_result
    status_of id none = ok none
    status_of id (some row) = elim (parse_result row.result_json) [
      | err e ↦ err e
      | ok result ↦ ok (some (record { operation_id = id; status = row.status; result = result }))
    ]

    -- `status`
    unfoldable pub status : Text → Text → Tx (Option OperationStatus)
    unfolding status_of
    status id subject = do
      row ← autocommit (λ db. some (read_status id subject db, db))
      lift (status_of id row)

    -- `impl OperationJournal for SeaOrmOperationJournal`
    abbrev pub sea_orm_journal : OperationJournal
    sea_orm_journal = record {
      Store = Session;
      claim = claim;
      complete = complete;
      pending_result = pending_result;
      mark_result_published = mark_result_published;
      status = status;
    }
