-- ===== src/Transport/Journal/Contract.antt =====
-- What the worker of src/transport_runtime.rs relies on in its journal: an operation is claimed as
-- new once, and its result never changes.
use act_api_server_rs.Prelude.{◌≡◌, Bool, true, false, Option, some, ok}
use act_api_server_rs.Text.{Text}
use act_api_server_rs.DataPlane.Frames.{Bytes}
use act_api_server_rs.Transport.Journal.{OperationJournal, JournalCall, perform, fresh, replay}

-- `taken id s`: the operation has been claimed; `stored id s`: its result, once there is one.
pub record Fulfils (J : OperationJournal) (IsValid : J.Store → Type 0)
    (taken : Text → J.Store → Bool) (stored : Text → J.Store → Option Bytes) : Type 0 where
  pub keeps_valid : (c : JournalCall) (s : J.Store) → IsValid s → IsValid (perform J c s)
  pub keeps_taken :
      (c : JournalCall) (s : J.Store) (id : Text)
      → IsValid s
      → taken id s ≡ true
      → taken id (perform J c s) ≡ true
  pub keeps_stored :
      (c : JournalCall) (s : J.Store) (id : Text) (result : Bytes)
      → IsValid s
      → stored id s ≡ some result
      → stored id (perform J c s) ≡ some result
  pub fresh_takes :
      (id subject : Text) (json : Bytes) (s : J.Store)
      → IsValid s
      → (J.claim id subject json s).0 ≡ ok fresh
      → (taken id s ≡ false) × (taken id (J.claim id subject json s).1 ≡ true)
  pub replay_stored :
      (id subject : Text) (json : Bytes) (s : J.Store) (result : Bytes)
      → IsValid s
      → (J.claim id subject json s).0 ≡ ok (replay result)
      → stored id (J.claim id subject json s).1 ≡ some result
  pub complete_stores :
      (id : Text) (result : Bytes) (s : J.Store)
      → IsValid s
      → (J.complete id result s).0 ≡ ok tt
      → stored id (J.complete id result s).1 ≡ some result
  pub pending_stored :
      (id : Text) (s : J.Store) (message : Text × Bytes)
      → IsValid s
      → (J.pending_result id s).0 ≡ ok (some message)
      → stored id (J.pending_result id s).1 ≡ some message.1
