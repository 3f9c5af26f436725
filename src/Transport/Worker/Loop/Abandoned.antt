-- ===== src/Transport/Worker/Loop/Abandoned.antt =====
-- src/transport_runtime.rs: an operation that was claimed and then lost its task, by a restart of the
-- process between the claim and the run, or by an error.
use act_api_server_rs.Prelude.{
  ℕ, ◌+◌, ◌≤◌, ◌≡◌, refl, Bool, true, Option, List, ◌∷◌, ◌++◌, arith, ok,
}
use act_api_server_rs.Text.{Text}
use act_api_server_rs.DataPlane.Frames.{Bytes}
use act_api_server_rs.Json.{Value}
use act_api_server_rs.Transport.Journal.{OperationJournal}
use act_api_server_rs.Transport.Journal.Contract.{Fulfils}
use act_api_server_rs.Transport.Tables.Calls.{Session, sea_orm_journal}
use act_api_server_rs.Transport.Tables.Calls.Consistency.{IsConsistent}
use act_api_server_rs.Transport.Tables.Calls.Fulfilment.{
  IsConsistentSession, is_taken, stored_result, sea_orm_journal-Fulfils,
}
use act_api_server_rs.Transport.Worker.{Worker}
use act_api_server_rs.Transport.Worker.Tasks.{Task, Moved, kept, step}
use act_api_server_rs.Transport.Worker.Tasks.Invariant.{
  runs, runs-append, weight, pending_runs, pending_runs-append, StepHolds, TaskHolds,
}
use act_api_server_rs.Transport.Worker.Tasks.Steps.{step-Holds}
use act_api_server_rs.Transport.Worker.Loop.{
  JetStreamConfig, SetupCall, System, Step, Reach, pulls, ends, spawns, advances, restarts,
  elsewhere, here, next, serve_jetstream,
}
use act_api_server_rs.Transport.Worker.Loop.Invariant.{
  Invariant, All-split, Reach-Invariant, reached,
}

module _ (J : OperationJournal) (w : Worker) (IsValid : J.Store → Type 0)
    (taken : Text → J.Store → Bool) (stored : Text → J.Store → Option Bytes)
    (F : Fulfils J IsValid taken stored) (id : Text) where
  open J use {Store}

  -- The operation is claimed, no task is about to run it, and it has been run `n` times.
  record IsAbandoned (n : ℕ) (x : System Store) : Type 0 where
    pub claimed : taken id x.store ≡ true
    pub idle_tasks : pending_runs id x.tasks ≡ 0
    pub count : runs id x.effects ≡ n

  advanced_nothing :
      (n : ℕ) (before after : List Task) (t : Task) (m : Moved Store) (x : System Store)
      → pending_runs id (before ++ (t ∷ after)) ≡ 0
      → runs id x.effects ≡ n
      → runs id m.effects + pending_runs id (kept m.task) + 1 ≤ weight id t + 1
      → (pending_runs id (before ++ (kept m.task ++ after)) ≡ 0)
        × (runs id (x.effects ++ m.effects) ≡ n)
  advanced_nothing n before after t m x h r k = (
    omega (
      arith,
      pending_runs-append id before (t ∷ after),
      pending_runs-append id before (kept m.task ++ after),
      pending_runs-append id (kept m.task) after,
    ),
    omega (arith, pending_runs-append id before (t ∷ after), runs-append id x.effects m.effects),
  )

  advanced :
      (n : ℕ) (before after : List Task) (t : Task) (m : Moved Store) (x : System Store)
      → x.tasks ≡ before ++ (t ∷ after)
      → IsAbandoned n x
      → StepHolds J w taken stored IsValid x.store t m
      → IsAbandoned n (record x {
        tasks = before ++ (kept m.task ++ after);
        store = m.store;
        effects = x.effects ++ m.effects;
      })
  advanced n before after t m x p a h =
      let still : taken id m.store ≡ true = h.extends.still_taken id a.claimed in
      let (none_left, same) =
        advanced_nothing n before after t m x (rw p at a.idle_tasks) a.count
          (rw (a.claimed, still) at (h.counted id)) in
      record { claimed = still; idle_tasks = none_left; count = same }

  Step-IsAbandoned :
      (n : ℕ) (x y : System Store)
      → Step J w x y
      → Invariant J w IsValid taken stored F x
      → IsAbandoned n x
      → IsAbandoned n y
  Step-IsAbandoned n x y (pulls payload p e) i a =
      rw e (record { claimed = a.claimed; idle_tasks = a.idle_tasks; count = a.count })
  Step-IsAbandoned n x y (ends p e) i a =
      rw e (record { claimed = a.claimed; idle_tasks = a.idle_tasks; count = a.count })
  Step-IsAbandoned n x y (spawns payload p free e) i a =
      rw e
        (record { claimed = a.claimed; idle_tasks = omega (arith, a.idle_tasks); count = a.count })
  Step-IsAbandoned n x y (advances before after t b now p e) i a =
      let (_, (known, _)) =
        All-split (TaskHolds J w taken stored x.store) before (t ∷ after) (rw p at i.tasks) in
      rw e (
        advanced n before after t (step J w b now t x.store) x p a
          (step-Holds J w IsValid taken stored F b now t x.store i.valid known))
  Step-IsAbandoned n x y (restarts e) i a =
      rw e (record { claimed = a.claimed; idle_tasks = omega arith; count = a.count })
  Step-IsAbandoned n x y (elsewhere c e) i a = rw e (record {
    claimed = F.keeps_taken c x.store id i.valid a.claimed;
    idle_tasks = a.idle_tasks;
    count = a.count;
  })

  Reach-IsAbandoned :
      (n : ℕ) {x y : System Store}
      → Reach J w x y
      → Invariant J w IsValid taken stored F x
      → IsAbandoned n x
      → IsAbandoned n y
  Reach-IsAbandoned n here i a = a
  Reach-IsAbandoned n (next {y} {z} r s) i a =
      Step-IsAbandoned n y z s (Reach-Invariant J w IsValid taken stored F r i)
        (Reach-IsAbandoned n r i a)

module _ (answered : ℕ → Bool) (default_subject : Option Text) (sha256 : Bytes → Bytes)
    (from_str : Bytes → Option Value) (w : Worker) where
  abbrev journal : OperationJournal
  journal = sea_orm_journal answered default_subject sha256 from_str

  -- Let a worker over the SQL journal, started on consistent tables, have reached a state in which an
  -- operation is claimed and no task is about to run it. Then it never runs the operation again: in
  -- every state reached from there, by redeliveries, restarts and other clients, it has been run
  -- just as often.
  pub serve_jetstream-IsAbandoned :
      (up : SetupCall → Bool) (config : JetStreamConfig) (s : Session) {x y z : System Session}
      → IsConsistent s.committed
      → serve_jetstream up config s ≡ ok x
      → Reach journal w x y
      → (id : Text) → is_taken id y.store ≡ true
      → pending_runs id y.tasks ≡ 0
      → Reach journal w y z
      → runs id z.effects ≡ runs id y.effects
  serve_jetstream-IsAbandoned up config s {x} {y} {z} v e r id claimed none_left later =
      let F = sea_orm_journal-Fulfils answered default_subject sha256 from_str in
      (Reach-IsAbandoned journal w IsConsistentSession is_taken stored_result F id
        (runs id y.effects) later
        (reached journal w IsConsistentSession is_taken stored_result F up config s v e r)
        (record { claimed = claimed; idle_tasks = none_left; count = refl })).count
