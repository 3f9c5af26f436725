-- ===== src/Transport/Worker/Loop/Permits.antt =====
-- src/transport_runtime.rs: `serve_jetstream` never runs more tasks than it has permits.
use act_api_server_rs.Prelude.{
  ℕ, ◌≤◌, ◌≡◌, Bool, List, ◌∷◌, ◌++◌, length, length-append, arith, ok, in_range, in_range_iff,
  ensure, ensure-eq-ok, >>=-eq-ok,
}
use act_api_server_rs.Transport.Journal.{OperationJournal}
use act_api_server_rs.Transport.Worker.{Worker}
use act_api_server_rs.Transport.Worker.Tasks.{
  Task, reading, claiming, running, completing, looking, publishing, marking, acknowledging,
  finished, step, kept,
}
use act_api_server_rs.Transport.Worker.Loop.{
  JetStreamConfig, SetupCall, System, Step, Reach, pulls, ends, spawns, advances, restarts,
  elsewhere, here, next, serve_jetstream, max_concurrent_operations, bad_concurrency,
}

length-kept : (t : Task) → length (kept t) ≤ 1
length-kept (reading payload) = omega arith
length-kept (claiming payload r) = omega arith
length-kept (running payload r) = omega arith
length-kept (completing id reply) = omega arith
length-kept (looking id result) = omega arith
length-kept (publishing id message) = omega arith
length-kept (marking id) = omega arith
length-kept (acknowledging kind) = omega arith
length-kept (finished outcome) = omega arith

advanced_shorter :
    (before after : List Task) (t u : Task)
    → length (before ++ (kept u ++ after)) ≤ length (before ++ (t ∷ after))
advanced_shorter before after t u = omega (
  arith,
  length-append before (kept u ++ after),
  length-append (kept u) after,
  length-append before (t ∷ after),
  length-kept u,
)

module _ (J : OperationJournal) (w : Worker) where
  open J use {Store}

  abbrev Bounded : ℕ → System Store → Type 0
  Bounded n x = (x.permits ≡ n) × (length x.tasks ≤ n)

  Step-Bounded : (n : ℕ) (x y : System Store) → Step J w x y → Bounded n x → Bounded n y
  Step-Bounded n x y (pulls payload p e) h = rw e h
  Step-Bounded n x y (ends p e) h = rw e h
  Step-Bounded n x y (spawns payload p free e) h = rw e (h.0, omega arith)
  Step-Bounded n x y (advances before after t b now p e) h =
      let m = step J w b now t x.store in
      let shorter : length (before ++ (kept m.task ++ after)) ≤ length x.tasks =
        rw p (advanced_shorter before after t m.task) in
      rw e (h.0, omega arith)
  Step-Bounded n x y (restarts e) h = rw e (h.0, omega arith)
  Step-Bounded n x y (elsewhere c e) h = rw e h

  Reach-Bounded : (n : ℕ) {x y : System Store} → Reach J w x y → Bounded n x → Bounded n y
  Reach-Bounded n here h = h
  Reach-Bounded n (next {y} {z} r s) h = Step-Bounded n y z s (Reach-Bounded n r h)

  -- A worker that starts at all never has more than 32 deliveries under way, nor more than its
  -- configuration asks for, at any moment of any run.
  pub serve_jetstream_bounded :
      (up : SetupCall → Bool) (config : JetStreamConfig) (s : Store) {x y : System Store}
      → serve_jetstream up config s ≡ ok x
      → Reach J w x y
      → (length y.tasks ≤ config.max_concurrency)
        × (config.max_concurrency ≤ max_concurrent_operations)
  unfolding serve_jetstream
  serve_jetstream_bounded up config s {x} e r =
      let n = config.max_concurrency in
      let (_, range, _) =
        >>=-eq-ok (ensure (in_range 1 max_concurrent_operations n) bad_concurrency) _ e in
      let start : Bounded n x = ground arith in
      (
        (Reach-Bounded n r start).1,
        ((in_range_iff 1 max_concurrent_operations n).0 (ensure-eq-ok _ _ range)).1,
      )
