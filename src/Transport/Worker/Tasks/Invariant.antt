-- ===== src/Transport/Worker/Tasks/Invariant.antt =====
-- src/transport_runtime.rs: what one step of a task does to the counts of runs and to the results,
-- over a journal that claims an operation as new once and never changes a result.
use act_api_server_rs.Prelude.{
  ℕ, ◌+◌, ◌≤◌, ◌≡◌, refl, Bool, true, false, Option, some, List, [], ◌∷◌, ◌++◌, All, if◌then◌else◌,
  arith,
}
use act_api_server_rs.Text.{Text, text_eq}
use act_api_server_rs.DataPlane.Frames.{Bytes}
use act_api_server_rs.Transport.Journal.{OperationJournal, JournalCall, perform}
use act_api_server_rs.Transport.Journal.Contract.{Fulfils}
use act_api_server_rs.Transport.Worker.{Worker, Effect, acked, executed, published}
use act_api_server_rs.Transport.Worker.Delivery.{dedupe_id}
use act_api_server_rs.Transport.Worker.Tasks.{
  Task, Moved, quiet, reading, claiming, running, completing, looking, publishing, marking,
  acknowledging, finished, kept,
}

-- How often the service has run an operation, by what was done.
abbrev pub runs : Text → List Effect → ℕ
runs id [] = 0
runs id (acked k ∷ es) = runs id es
runs id (executed r ∷ es) = (if text_eq r.envelope.operation_id id then 1 else 0) + runs id es
runs id (published s d p ∷ es) = runs id es

-- How many of the tasks are about to run it.
abbrev pub weight : Text → Task → ℕ
weight id (running payload r) = if text_eq r.envelope.operation_id id then 1 else 0
weight id (reading payload) = 0
weight id t = 0

abbrev pub pending_runs : Text → List Task → ℕ
pending_runs id [] = 0
pending_runs id (t ∷ ts) = weight id t + pending_runs id ts

pub runs-append : (id : Text) (xs ys : List Effect) → runs id (xs ++ ys) ≡ runs id xs + runs id ys
runs-append id [] ys = omega arith
runs-append id (acked k ∷ xs) ys = runs-append id xs ys
runs-append id (executed r ∷ xs) ys = omega (arith, runs-append id xs ys)
runs-append id (published s d p ∷ xs) ys = runs-append id xs ys

pub pending_runs-append :
    (id : Text) (xs ys : List Task)
    → pending_runs id (xs ++ ys) ≡ pending_runs id xs + pending_runs id ys
pending_runs-append id [] ys = omega arith
pending_runs-append id (x ∷ xs) ys = omega (arith, pending_runs-append id xs ys)

abbrev pub bit : Bool → ℕ
bit b = if b then 1 else 0

module _ (J : OperationJournal) (w : Worker) (taken : Text → J.Store → Bool)
    (stored : Text → J.Store → Option Bytes) where
  open J use {Store}

  -- What a task knows: the request of its payload, or the stored result that it carries.
  abbrev pub TaskHolds : Store → Task → Type 0
  TaskHolds s (claiming payload r) = w.request_of payload ≡ some r
  TaskHolds s (running payload r) = w.request_of payload ≡ some r
  TaskHolds s (looking id result) = stored id s ≡ some result
  TaskHolds s (publishing id message) = stored id s ≡ some message.1
  TaskHolds s (reading payload) = Unit
  TaskHolds s t = Unit

  -- A published payload is the stored result of its operation.
  abbrev pub EffectHolds : Store → Effect → Type 0
  EffectHolds s (published subject d payload) =
      (id : Text) × (d ≡ dedupe_id id) × (stored id s ≡ some payload)
  EffectHolds s (acked k) = Unit
  EffectHolds s (executed r) = Unit

  pub record Extends (s t : Store) : Type 0 where
    pub still_taken : (id : Text) → taken id s ≡ true → taken id t ≡ true
    pub still_stored :
        (id : Text) (result : Bytes) → stored id s ≡ some result → stored id t ≡ some result

  bit_mono : (a b : Bool) → (a ≡ true → b ≡ true) → bit a ≤ bit b
  bit_mono true b f = rw (f refl) (omega arith)
  bit_mono false b f = omega arith

  module _ {s t : Store} (x : Extends s t) where
    pub taken_grows : (id : Text) → bit (taken id s) ≤ bit (taken id t)
    taken_grows id = bit_mono (taken id s) (taken id t) (x.still_taken id)

    TaskHolds-later : (u : Task) → TaskHolds s u → TaskHolds t u
    TaskHolds-later (reading payload) h = tt
    TaskHolds-later (claiming payload r) h = h
    TaskHolds-later (running payload r) h = h
    TaskHolds-later (completing id reply) h = tt
    TaskHolds-later (looking id result) h = x.still_stored id result h
    TaskHolds-later (publishing id message) h = x.still_stored id message.1 h
    TaskHolds-later (marking id) h = tt
    TaskHolds-later (acknowledging kind) h = tt
    TaskHolds-later (finished outcome) h = tt

    EffectHolds-later : (e : Effect) → EffectHolds s e → EffectHolds t e
    EffectHolds-later (acked k) h = tt
    EffectHolds-later (executed r) h = tt
    EffectHolds-later (published subject d payload) (id, same, h) =
        (id, same, x.still_stored id payload h)

    pub tasks_later : (us : List Task) → All (TaskHolds s) us → All (TaskHolds t) us
    tasks_later [] h = tt
    tasks_later (u ∷ us) (h, hs) = (TaskHolds-later u h, tasks_later us hs)

    pub effects_later : (es : List Effect) → All (EffectHolds s) es → All (EffectHolds t) es
    effects_later [] h = tt
    effects_later (e ∷ es) (h, hs) = (EffectHolds-later e h, effects_later es hs)

  -- What a step keeps: a run is made by a task that was about to, and a task gets there by taking
  -- an operation that was not taken.
  pub record StepHolds (IsValid : Store → Type 0) (s : Store) (t : Task) (m : Moved Store)
      : Type 0 where
    pub valid : IsValid m.store
    pub extends : Extends s m.store
    pub task : All (TaskHolds m.store) (kept m.task)
    pub effects : All (EffectHolds m.store) m.effects
    pub counted :
        (id : Text)
        → runs id m.effects + pending_runs id (kept m.task) + bit (taken id s)
          ≤ weight id t + bit (taken id m.store)

  module _ (IsValid : Store → Type 0) (F : Fulfils J IsValid taken stored) where
    pub perform-Extends : (c : JournalCall) (s : Store) → IsValid s → Extends s (perform J c s)
    perform-Extends c s v = record {
      still_taken = λ id h. F.keeps_taken c s id v h;
      still_stored = λ id result h. F.keeps_stored c s id result v h;
    }

    Extends-same : (s : Store) → Extends s s
    Extends-same s = record { still_taken = λ id h. h; still_stored = λ id result h. h }

    -- A task that calls the journal and goes on without being about to run.
    pub call_holds :
        (c : JournalCall) (s : Store) (t u : Task)
        → IsValid s
        → All (TaskHolds (perform J c s)) (kept u)
        → ((id : Text) → pending_runs id (kept u) ≤ 0)
        → StepHolds IsValid s t (quiet u (perform J c s))
    call_holds c s t u v h light = record {
      valid = F.keeps_valid c s v;
      extends = perform-Extends c s v;
      task = h;
      effects = tt;
      counted = λ id. omega (arith, light id, taken_grows (perform-Extends c s v) id);
    }

    -- A task that makes no call on the journal.
    pub same_holds :
        (s : Store) (t u : Task) (es : List Effect)
        → IsValid s
        → All (TaskHolds s) (kept u)
        → All (EffectHolds s) es
        → ((id : Text) → runs id es + pending_runs id (kept u) ≤ weight id t)
        → StepHolds IsValid s t (record { task = u; store = s; effects = es })
    same_holds s t u es v h k light = record {
      valid = v;
      extends = Extends-same s;
      task = h;
      effects = k;
      counted = λ id. omega (arith, light id);
    }
