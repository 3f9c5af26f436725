-- ===== src/Transport/Worker/Loop/Invariant.antt =====
-- src/transport_runtime.rs: `serve_jetstream`. What all interleavings of its tasks, restarts and other
-- clients of the journal keep: how often an operation may run, and which result it has.
use act_api_server_rs.Prelude.{
  ◌+◌, ◌≤◌, ◌≡◌, Bool, Option, List, [], ◌∷◌, ◌++◌, All, All-append, arith, ok,
}
use act_api_server_rs.Text.{Text}
use act_api_server_rs.DataPlane.Frames.{Bytes}
use act_api_server_rs.Transport.Journal.{OperationJournal, JournalCall, perform}
use act_api_server_rs.Transport.Journal.Contract.{Fulfils}
use act_api_server_rs.Transport.Worker.{Worker}
use act_api_server_rs.Transport.Worker.Tasks.{Task, Moved, kept, step}
use act_api_server_rs.Transport.Worker.Tasks.Invariant.{
  runs, runs-append, weight, pending_runs, pending_runs-append, bit, TaskHolds, EffectHolds,
  StepHolds, perform-Extends, taken_grows, tasks_later, effects_later,
}
use act_api_server_rs.Transport.Worker.Tasks.Steps.{step-Holds}
use act_api_server_rs.Transport.Worker.Loop.{
  JetStreamConfig, SetupCall, System, Step, Reach, pulls, ends, spawns, advances, restarts,
  elsewhere, here, next, idle, serve_jetstream,
}

module _ {A : Type 0} (P : A → Type 0) where
  pub All-split : (xs ys : List A) → All P (xs ++ ys) → All P xs × All P ys
  All-split [] ys h = (tt, h)
  All-split (x ∷ xs) ys (p, h) = let (l, r) = All-split xs ys h in ((p, l), r)

module _ (J : OperationJournal) (w : Worker) (IsValid : J.Store → Type 0)
    (taken : Text → J.Store → Bool) (stored : Text → J.Store → Option Bytes)
    (F : Fulfils J IsValid taken stored) where
  open J use {Store}

  pub record Invariant (x : System Store) : Type 0 where
    pub valid : IsValid x.store
    pub counted : (id : Text) → runs id x.effects + pending_runs id x.tasks ≤ bit (taken id x.store)
    pub tasks : All (TaskHolds J w taken stored x.store) x.tasks
    pub effects : All (EffectHolds J w taken stored x.store) x.effects

  advanced_counts :
      (id : Text) (before after : List Task) (t : Task) (m : Moved Store) (x : System Store)
      → runs id x.effects + pending_runs id (before ++ (t ∷ after)) ≤ bit (taken id x.store)
      → runs id m.effects + pending_runs id (kept m.task) + bit (taken id x.store)
        ≤ weight id t + bit (taken id m.store)
      → runs id (x.effects ++ m.effects) + pending_runs id (before ++ (kept m.task ++ after))
        ≤ bit (taken id m.store)
  advanced_counts id before after t m x h k = omega (
    arith,
    runs-append id x.effects m.effects,
    pending_runs-append id before (t ∷ after),
    pending_runs-append id before (kept m.task ++ after),
    pending_runs-append id (kept m.task) after,
  )

  advanced :
      (before after : List Task) (t : Task) (m : Moved Store) (x : System Store)
      → x.tasks ≡ before ++ (t ∷ after)
      → Invariant x
      → StepHolds J w taken stored IsValid x.store t m
      → Invariant (record x {
        tasks = before ++ (kept m.task ++ after);
        store = m.store;
        effects = x.effects ++ m.effects;
      })
  advanced before after t m x p i h =
      let (l, (_, r)) =
        All-split (TaskHolds J w taken stored x.store) before (t ∷ after) (rw p at i.tasks) in
      record {
        valid = h.valid;
        counted =
            λ id. advanced_counts id before after t m x (rw p at (i.counted id)) (h.counted id);
        tasks =
            All-append _ before (kept m.task ++ after)
              (tasks_later J w taken stored h.extends before l)
              (All-append _ (kept m.task) after h.task
                (tasks_later J w taken stored h.extends after r));
        effects =
            All-append _ x.effects m.effects
              (effects_later J w taken stored h.extends x.effects i.effects) h.effects;
      }

  elsewhere_keeps :
      (c : JournalCall) (x : System Store)
      → Invariant x
      → Invariant (record x { store = perform J c x.store })
  elsewhere_keeps c x i =
      let later = perform-Extends J w taken stored IsValid F c x.store i.valid in
      record {
        valid = F.keeps_valid c x.store i.valid;
        counted = λ id. omega (arith, i.counted id, taken_grows J w taken stored later id);
        tasks = tasks_later J w taken stored later x.tasks i.tasks;
        effects = effects_later J w taken stored later x.effects i.effects;
      }

  pub Step-Invariant : (x y : System Store) → Step J w x y → Invariant x → Invariant y
  Step-Invariant x y (pulls payload p e) i =
      rw e (record { valid = i.valid; counted = i.counted; tasks = i.tasks; effects = i.effects })
  Step-Invariant x y (ends p e) i =
      rw e (record { valid = i.valid; counted = i.counted; tasks = i.tasks; effects = i.effects })
  Step-Invariant x y (spawns payload p free e) i = rw e (record {
    valid = i.valid;
    counted = λ id. omega (arith, i.counted id);
    tasks = (tt, i.tasks);
    effects = i.effects;
  })
  Step-Invariant x y (advances before after t b now p e) i =
      let (_, (known, _)) =
        All-split (TaskHolds J w taken stored x.store) before (t ∷ after) (rw p at i.tasks) in
      rw e (
        advanced before after t (step J w b now t x.store) x p i
          (step-Holds J w IsValid taken stored F b now t x.store i.valid known))
  Step-Invariant x y (restarts e) i = rw e (record {
    valid = i.valid;
    counted = λ id. omega (arith, i.counted id);
    tasks = tt;
    effects = i.effects;
  })
  Step-Invariant x y (elsewhere c e) i = rw e (elsewhere_keeps c x i)

  pub Reach-Invariant : {x y : System Store} → Reach J w x y → Invariant x → Invariant y
  Reach-Invariant here i = i
  Reach-Invariant (next {y} {z} r s) i = Step-Invariant y z s (Reach-Invariant r i)

  pub start-Invariant :
      (up : SetupCall → Bool) (config : JetStreamConfig) (s : Store) (x : System Store)
      → IsValid s
      → serve_jetstream up config s ≡ ok x
      → Invariant x
  unfolding serve_jetstream
  start-Invariant up config s x v e =
      let same : x ≡ record {
        permits = config.max_concurrency;
        pull = idle;
        tasks = [];
        store = s;
        effects = [];
      } =
        ground arith in
      rw same (record { valid = v; counted = λ id. omega arith; tasks = tt; effects = tt })

  -- The states that a started worker reaches.
  pub reached :
      (up : SetupCall → Bool) (config : JetStreamConfig) (s : Store) {x y : System Store}
      → IsValid s
      → serve_jetstream up config s ≡ ok x
      → Reach J w x y
      → Invariant y
  reached up config s {x} v e r = Reach-Invariant r (start-Invariant up config s x v e)
