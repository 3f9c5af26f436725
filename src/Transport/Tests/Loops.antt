-- ===== src/Transport/Tests/Loops.antt =====
-- Concrete runs of the loop of `serve_jetstream`, src/transport_runtime.rs.
use act_api_server_rs.Prelude.{
  ℕ, ◌≤◌, ◌≡◌, refl, inl, Bool, true, Option, none, some, List, [], ◌∷◌, ok, err, length, arith,
}
use act_api_server_rs.Text.{Text, txt}
use act_api_server_rs.Transport.Journal.{OperationJournal}
use act_api_server_rs.DataPlane.Frames.{Bytes}
use act_api_server_rs.Transport.Tests.{checksum, operation, payload}
use act_api_server_rs.Transport.Tests.Deliveries.{
  J, broker, deliveries, empty_session, from_str, repaired, up, worker,
}
use act_api_server_rs.Transport.Tables.Calls.{Session, sea_orm_journal}
use act_api_server_rs.Transport.Tables.Calls.Consistency.{IsConsistent-empty}
use act_api_server_rs.Transport.Tables.Calls.Fulfilment.{
  stored_result, is_taken, IsConsistentSession, sea_orm_journal-Fulfils,
}
use act_api_server_rs.Transport.Journal.Contract.{Fulfils}
use act_api_server_rs.Transport.Worker.{acked, nak}
use act_api_server_rs.Transport.Worker.Delivery.{dedupe_id, executions, publications}
use act_api_server_rs.Transport.Worker.Tasks.{Task, reading, step}
use act_api_server_rs.Transport.Worker.Tasks.Invariant.{pending_runs, runs}
use act_api_server_rs.Transport.Worker.Loop.{
  SetupCall, System, Reach, advance, advances, bad_concurrency, default_config, here, idle,
  max_concurrent_operations, next, pulls, restarts, serve_jetstream, setup_calls, spawns,
}
use act_api_server_rs.Transport.Worker.Loop.Once.{
  Publishes, serve_jetstream-Publishes_one, serve_jetstream-runs_once,
}
use act_api_server_rs.Transport.Worker.Loop.Abandoned.{serve_jetstream-IsAbandoned}
use act_api_server_rs.Transport.Worker.Loop.Permits.{serve_jetstream_bounded}

abbrev broker_up : SetupCall → Bool
broker_up c = true

abbrev started : System Session
started = record { permits = 32; pull = idle; tasks = []; store = empty_session; effects = [] }

starts : serve_jetstream broker_up default_config empty_session ≡ ok started
unfolding serve_jetstream setup_calls
starts = refl

too_many :
    serve_jetstream broker_up (record default_config { max_concurrency = 33 }) empty_session
    ≡ err bad_concurrency
unfolding serve_jetstream
too_many = refl

-- The journal by the subject's default.
abbrev journal : Option Text → OperationJournal
journal default_subject = sea_orm_journal up default_subject checksum from_str

-- A step of the only task.
abbrev turn : Option Text → ℕ → System Session → System Session
turn d now x = elim x.tasks [
  | [] ↦ x
  | t ∷ ts ↦ advance (journal d) worker [] ts (step (journal d) worker broker now t x.store) x
]

abbrev spawned : System Session
spawned = record started { tasks = reading payload ∷ [] }

spawned-Reach : (d : Option Text) → Reach (journal d) worker started spawned
spawned-Reach d =
    next (next here (pulls payload refl refl)) (spawns payload refl (omega arith) refl)

turn_Reach :
    (d : Option Text) {x y : System Session} (now : ℕ) (t : Task) (ts : List Task)
    → y.tasks ≡ t ∷ ts
    → Reach (journal d) worker x y
    → Reach
        (journal d)
        worker
        x
        (advance (journal d) worker [] ts (step (journal d) worker broker now t y.store) y)
turn_Reach d now t ts e r = next r (advances [] ts t broker now e refl)

abbrev published_once : System Session
published_once = turn repaired 2000 (
    turn repaired 2000
      (turn repaired 2000 (turn repaired 2000 (turn repaired 1000 (turn repaired 1000 spawned)))))

published_once-Reach : Reach J worker started published_once
unfolding deliveries step
published_once-Reach = turn_Reach repaired 2000 _ _ refl (
    turn_Reach repaired 2000 _ _ refl (
      turn_Reach repaired 2000 _ _ refl (
        turn_Reach repaired 2000 _ _ refl (
          turn_Reach repaired 1000 _ _ refl
            (turn_Reach repaired 1000 _ _ refl (spawned-Reach repaired))))))

published_once_tests :
    (executions published_once.effects ≡ operation ∷ [])
    × (publications published_once.effects ≡ dedupe_id (txt "op-1") ∷ [])
    × (runs (txt "op-1") published_once.effects ≡ 1)
unfolding deliveries step
published_once_tests = (refl, refl, refl)

published_result : Publishes (dedupe_id (txt "op-1")) (txt "[]") published_once.effects
unfolding deliveries step
published_result = inl (refl, refl)

serve_jetstream_bounded_example :
    (length published_once.tasks ≤ default_config.max_concurrency)
    × (default_config.max_concurrency ≤ max_concurrent_operations)
serve_jetstream_bounded_example =
    serve_jetstream_bounded J worker broker_up default_config empty_session starts
      published_once-Reach

serve_jetstream-Publishes_one_example :
    (stored_result (txt "op-1") published_once.store ≡ some (txt "[]"))
    × (◌≡◌ {A = Bytes} (txt "[]") (txt "[]"))
serve_jetstream-Publishes_one_example =
    serve_jetstream-Publishes_one up repaired checksum from_str worker broker_up default_config
      empty_session IsConsistent-empty starts published_once-Reach (txt "op-1") (txt "[]")
      (txt "[]") published_result published_result

sea_orm_journal-Fulfils_example :
    Fulfils (sea_orm_journal up none checksum from_str) IsConsistentSession is_taken stored_result
sea_orm_journal-Fulfils_example = sea_orm_journal-Fulfils up none checksum from_str

-- The process restarts when the operation is claimed and not run; the message is delivered again.
abbrev claimed_only : System Session
claimed_only = turn none 1000 (turn none 1000 spawned)

claimed_only-Reach : Reach (journal none) worker started claimed_only
unfolding deliveries step
claimed_only-Reach =
    turn_Reach none 1000 _ _ refl (turn_Reach none 1000 _ _ refl (spawned-Reach none))

-- On the table of the migration the operation is run, and `complete` fails.
abbrev run_once : System Session
run_once = turn none 2000 (turn none 2000 claimed_only)

run_once-Reach : Reach (journal none) worker started run_once
unfolding deliveries step
run_once-Reach = turn_Reach none 2000 _ _ refl (turn_Reach none 2000 _ _ refl claimed_only-Reach)

run_once_tests : (runs (txt "op-1") run_once.effects ≡ 1) × (publications run_once.effects ≡ [])
unfolding deliveries step
run_once_tests = (refl, refl)

serve_jetstream-runs_once_example : runs (txt "op-1") run_once.effects ≤ 1
serve_jetstream-runs_once_example =
    serve_jetstream-runs_once up none checksum from_str worker broker_up default_config
      empty_session IsConsistent-empty starts run_once-Reach (txt "op-1")

abbrev restarted : System Session
restarted = record claimed_only { pull = idle; tasks = [] }

restarted-Reach : Reach (journal none) worker started restarted
restarted-Reach = next claimed_only-Reach (restarts refl)

abbrev redelivered : System Session
redelivered =
    turn none 2000
      (turn none 2000 (turn none 2000 (record restarted { tasks = reading payload ∷ [] })))

redelivered-Reach : Reach (journal none) worker restarted redelivered
unfolding deliveries step
redelivered-Reach = turn_Reach none 2000 _ _ refl (
    turn_Reach none 2000 _ _ refl (
      turn_Reach none 2000 _ _ refl
        (next (next here (pulls payload refl refl)) (spawns payload refl (omega arith) refl))))

redelivered_refused :
    (redelivered.tasks ≡ [])
    × (redelivered.effects ≡ acked nak ∷ [])
    × (is_taken (txt "op-1") redelivered.store ≡ true)
unfolding deliveries step
redelivered_refused = (refl, refl, refl)

restarted_claimed :
    (is_taken (txt "op-1") restarted.store ≡ true) × (pending_runs (txt "op-1") restarted.tasks ≡ 0)
unfolding deliveries step
restarted_claimed = (refl, refl)

serve_jetstream-IsAbandoned_example :
    runs (txt "op-1") redelivered.effects ≡ runs (txt "op-1") restarted.effects
serve_jetstream-IsAbandoned_example =
    serve_jetstream-IsAbandoned up none checksum from_str worker broker_up default_config
      empty_session IsConsistent-empty starts restarted-Reach (txt "op-1") restarted_claimed.0
      restarted_claimed.1 redelivered-Reach
