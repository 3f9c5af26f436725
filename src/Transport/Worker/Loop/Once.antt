-- ===== src/Transport/Worker/Loop/Once.antt =====
-- src/transport_runtime.rs: across all interleavings of the tasks of `serve_jetstream`, restarts and
-- other clients of the journal, an operation is run once and has one result.
use mathlib.Core.Option.{some-injective}
use act_api_server_rs.Prelude.{
  ℕ, ◌≤◌, ◌≡◌, sym, ap, ◌∙◌, ◌⊎◌, inl, inr, Bool, Option, some, List, [], ◌∷◌, All, arith, drop, ok,
}
use act_api_server_rs.Text.{Text, txt}
use act_api_server_rs.DataPlane.Frames.{Bytes}
use act_api_server_rs.Json.{Value}
use act_api_server_rs.Transport.Journal.{OperationJournal}
use act_api_server_rs.Transport.Journal.Contract.{Fulfils}
use act_api_server_rs.Transport.Tables.Calls.{Session, sea_orm_journal}
use act_api_server_rs.Transport.Tables.Calls.Consistency.{IsConsistent}
use act_api_server_rs.Transport.Tables.Calls.Fulfilment.{
  IsConsistentSession, is_taken, stored_result, sea_orm_journal-Fulfils,
}
use act_api_server_rs.Transport.Worker.{Worker, Effect, acked, executed, published}
use act_api_server_rs.Transport.Worker.Delivery.{dedupe_id}
use act_api_server_rs.Transport.Worker.Tasks.Invariant.{runs, bit, EffectHolds}
use act_api_server_rs.Transport.Worker.Loop.Invariant.{reached}
use act_api_server_rs.Transport.Worker.Loop.{
  JetStreamConfig, SetupCall, System, Reach, serve_jetstream,
}

-- A publication with the deduplication id `d` and the payload `p`.
abbrev pub Publishes : Text → Bytes → List Effect → Type 0
Publishes d p [] = ⊥
Publishes d p (acked k ∷ es) = Publishes d p es
Publishes d p (executed r ∷ es) = Publishes d p es
Publishes d p (published subject d' p' ∷ es) = ((d' ≡ d) × (p' ≡ p)) ⊎ Publishes d p es

dedupe_id-injective : (i j : Text) → dedupe_id i ≡ dedupe_id j → i ≡ j
unfolding act_api_server_rs.Text.txt
dedupe_id-injective i j e = ap (drop 21) e

module _ (J : OperationJournal) (w : Worker) (IsValid : J.Store → Type 0)
    (taken : Text → J.Store → Bool) (stored : Text → J.Store → Option Bytes)
    (F : Fulfils J IsValid taken stored) where
  open J use {Store}

  bit-le-one : (b : Bool) → bit b ≤ 1
  bit-le-one b = ground arith

  published_stored :
      (id : Text) (p : Bytes) (s : Store) (es : List Effect)
      → All (EffectHolds J w taken stored s) es
      → Publishes (dedupe_id id) p es
      → stored id s ≡ some p
  published_stored id p s [] h m = absurd m
  published_stored id p s (acked k ∷ es) (_, h) m = published_stored id p s es h m
  published_stored id p s (executed r ∷ es) (_, h) m = published_stored id p s es h m
  published_stored id p s (published subject d q ∷ es) ((j, named, held), h) (inl (same, payload)) =
      let mine : j ≡ id = dedupe_id-injective j id (sym named ∙ same) in rw (← mine, ← payload) held
  published_stored id p s (published subject d q ∷ es) (_, h) (inr m) =
      published_stored id p s es h m

  runs_once :
      (up : SetupCall → Bool) (config : JetStreamConfig) (s : Store) {x y : System Store}
      → IsValid s
      → serve_jetstream up config s ≡ ok x
      → Reach J w x y
      → (id : Text) → runs id y.effects ≤ 1
  runs_once up config s {x} {y} v e r id =
      let i = reached J w IsValid taken stored F up config s v e r in
      omega (arith, i.counted id, bit-le-one (taken id y.store))

  Publishes-stored :
      (up : SetupCall → Bool) (config : JetStreamConfig) (s : Store) {x y : System Store}
      → IsValid s
      → serve_jetstream up config s ≡ ok x
      → Reach J w x y
      → (id : Text) (p : Bytes) → Publishes (dedupe_id id) p y.effects
      → stored id y.store ≡ some p
  Publishes-stored up config s {x} {y} v e r id p m =
      let i = reached J w IsValid taken stored F up config s v e r in
      published_stored id p y.store y.effects i.effects m

module _ (answered : ℕ → Bool) (default_subject : Option Text) (sha256 : Bytes → Bytes)
    (from_str : Bytes → Option Value) (w : Worker) where
  abbrev journal : OperationJournal
  journal = sea_orm_journal answered default_subject sha256 from_str

  -- A worker over the SQL journal that starts on consistent tables runs each operation at most once:
  -- however the calls of its deliveries interleave, whatever database and broker calls fail, with
  -- other clients of the journal and restarts at any moment, and however often the broker delivers a
  -- message.
  pub serve_jetstream-runs_once :
      (up : SetupCall → Bool) (config : JetStreamConfig) (s : Session) {x y : System Session}
      → IsConsistent s.committed
      → serve_jetstream up config s ≡ ok x
      → Reach journal w x y
      → (id : Text) → runs id y.effects ≤ 1
  serve_jetstream-runs_once =
      runs_once journal w IsConsistentSession is_taken stored_result
        (sea_orm_journal-Fulfils answered default_subject sha256 from_str)

  -- Whatever such a worker publishes for an operation, in all deliveries of all its messages, is the
  -- one result that the inbox holds: two publications of an operation carry the same payload.
  pub serve_jetstream-Publishes_one :
      (up : SetupCall → Bool) (config : JetStreamConfig) (s : Session) {x y : System Session}
      → IsConsistent s.committed
      → serve_jetstream up config s ≡ ok x
      → Reach journal w x y
      → (id : Text) (p q : Bytes) → Publishes (dedupe_id id) p y.effects
      → Publishes (dedupe_id id) q y.effects
      → (stored_result id y.store ≡ some p) × (p ≡ q)
  serve_jetstream-Publishes_one up config s v e r id p q m n =
      let same =
        Publishes-stored journal w IsConsistentSession is_taken stored_result
          (sea_orm_journal-Fulfils answered default_subject sha256 from_str) up config s v e r id in
      (same p m, some-injective p q (sym (same p m) ∙ same q n))
