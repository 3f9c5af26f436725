-- ===== src/Transport/Worker/Loop.antt =====
-- src/transport_runtime.rs: `serve_jetstream`, its setup and the loop that pulls messages and spawns
-- a task for each, as a step relation: the calls of the tasks interleave in any order.
pub mod Permits
pub mod Invariant
pub mod Once
pub mod Abandoned
use act_api_server_rs.Prelude.{
  ℕ, ◌*◌, ◌<◌, ◌≡◌, Bool, true, List, [], ◌∷◌, ◌++◌, leb, in_range, if◌then◌else◌, length, all,
  Result, ok, ◌>>=◌, ◌>>◌, ensure,
}
use act_api_server_rs.Text.{Text, txt}
use act_api_server_rs.DataPlane.Frames.{Bytes}
use act_api_server_rs.Transport.Requests.{max_transport_bytes}
use act_api_server_rs.Transport.Journal.{OperationJournal, JournalCall, perform}
use act_api_server_rs.Transport.Worker.{Broker, Worker, Effect, jetstream_result_subject}
use act_api_server_rs.Transport.Worker.Tasks.{Task, reading, Moved, step, kept}

abbrev pub max_concurrent_operations : ℕ
max_concurrent_operations = 32

pub record JetStreamConfig : Type 0 where
  pub request_subject : Text
  pub result_subject : Text
  pub request_stream : Text
  pub result_stream : Text
  pub durable_consumer : Text
  pub max_concurrency : ℕ

-- `JetStreamConfig::default`
abbrev pub default_config : JetStreamConfig
default_config = record {
  request_subject = txt "act.operations.api.v1";
  result_subject = jetstream_result_subject;
  request_stream = txt "ACT_API_OPERATIONS";
  result_stream = txt "ACT_API_OPERATION_RESULTS";
  durable_consumer = txt "act-api-server-v1";
  max_concurrency = max_concurrent_operations;
}

pub data Retention : Type 0 where
  work_queue limits : Retention

-- The fields of a stream and of a consumer that the program sets; times are in seconds.
pub record StreamConfig : Type 0 where
  pub name : Text
  pub subjects : List Text
  pub retention : Retention
  pub max_age : ℕ
  pub max_message_size : ℕ
  pub duplicate_window : ℕ

pub record ConsumerConfig : Type 0 where
  pub durable_name : Text
  pub filter_subject : Text
  pub explicit_acks : Bool
  pub ack_wait : ℕ
  pub max_deliver : ℕ

pub data SetupCall : Type 0 where
  creates_stream : StreamConfig → SetupCall
  gets_stream : Text → SetupCall
  creates_consumer : Text → ConsumerConfig → SetupCall
  opens_messages : Text → SetupCall

-- `i32::try_from(MAX_TRANSPORT_BYTES).unwrap_or(i32::MAX)`
abbrev message_size : ℕ
message_size = if leb max_transport_bytes 2_147_483_647 then max_transport_bytes else 2_147_483_647

stream_of : Text → Text → Retention → StreamConfig
stream_of name subject retention = record {
  name = name;
  subjects = subject ∷ [];
  retention = retention;
  max_age = 7 * 24 * 60 * 60;
  max_message_size = message_size;
  duplicate_window = 120;
}

-- The calls of the setup, in order; each ends the setup when it fails.
unfoldable pub setup_calls : JetStreamConfig → List SetupCall
unfolding stream_of
setup_calls c =
    creates_stream (stream_of c.request_stream c.request_subject Retention.work_queue)
    ∷ creates_stream (stream_of c.result_stream c.result_subject Retention.limits)
    ∷ gets_stream c.request_stream
    ∷ creates_consumer c.durable_consumer (record {
      durable_name = c.durable_consumer;
      filter_subject = c.request_subject;
      explicit_acks = true;
      ack_wait = 30;
      max_deliver = 8;
    })
    ∷ opens_messages c.durable_consumer
    ∷ []

-- What the loop is about to do: to wait for a message, or for a permit for the one it has.
pub data Pull : Type 0 where
  idle ended : Pull
  holding : Bytes → Pull

-- The semaphore's permits, the loop, the tasks that hold a permit, the store, and what was done.
pub record System (Store : Type 0) : Type 0 where
  pub permits : ℕ
  pub pull : Pull
  pub tasks : List Task
  pub store : Store
  pub effects : List Effect

pub data ServeError : Type 0 where
  bad_concurrency setup_failed : ServeError

-- `serve_jetstream` up to its loop; `up` says which calls of the setup are answered.
unfoldable pub serve_jetstream :
    {Store : Type 0}
    → (SetupCall → Bool)
    → JetStreamConfig
    → Store
    → Result (System Store) ServeError
serve_jetstream up config store = do
  ensure (in_range 1 max_concurrent_operations config.max_concurrency) bad_concurrency
  ensure (all up (setup_calls config)) setup_failed
  ok (record {
    permits = config.max_concurrency;
    pull = idle;
    tasks = [];
    store = store;
    effects = [];
  })

module _ (J : OperationJournal) (w : Worker) where
  open J use {Store}

  -- The system after a step of the task between `before` and `after`.
  abbrev pub advance : List Task → List Task → Moved Store → System Store → System Store
  advance before after m x = record x {
    tasks = before ++ (kept m.task ++ after);
    store = m.store;
    effects = x.effects ++ m.effects;
  }

  -- A step of the loop or of one task, a restart of the process, which loses its tasks, or a call
  -- that another client makes on the journal.
  pub data Step (x y : System Store) : Type 0 where
    pulls : (payload : Bytes) → x.pull ≡ idle → y ≡ record x { pull = holding payload } → Step x y
    ends : x.pull ≡ idle → y ≡ record x { pull = ended } → Step x y
    spawns :
        (payload : Bytes)
        → x.pull ≡ holding payload
        → length x.tasks < x.permits
        → y ≡ record x { pull = idle; tasks = reading payload ∷ x.tasks }
        → Step x y
    advances :
        (before after : List Task) (t : Task) (b : Broker) (now : ℕ)
        → x.tasks ≡ before ++ (t ∷ after)
        → y ≡ advance before after (step J w b now t x.store) x
        → Step x y
    restarts : y ≡ record x { pull = idle; tasks = [] } → Step x y
    elsewhere : (c : JournalCall) → y ≡ record x { store = perform J c x.store } → Step x y

  pub data Reach (x : System Store) : System Store → Type 0 where
    here : Reach x x
    next : {y z : System Store} → Reach x y → Step y z → Reach x z
