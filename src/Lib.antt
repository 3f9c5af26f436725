-- ===== src/Lib.antt =====
-- The control plane of Anticaptrad's API server: an HTTP server that guards YouTube actions, two
-- transports for operations that other services ask for (mutual TLS and NATS JetStream), and an
-- orderly shutdown. This library models the decisions of its Rust code, one module per part of
-- the program, as functions that can be evaluated, and proves what makes each part correct.
--
-- * Shutdown (src/server/shutdown.rs): `State::apply` is `apply`; `supervise_with_triggers` is the
--   function of that name over a `World`, the first event, the events before the deadline in the
--   order in which they become ready, and how the server settles. It returns the result together
--   with the calls on the server's handle and the records that it logs. Time is what the world says
--   has happened before the deadline; connection counts and elapsed times are not modelled.
--   `supervise` makes that world of what the streams of the Unix signals yield (Signals).
-- * DataPlane (src/web_data_plane.rs): the operation envelope, its admission `validate_for`, the
--   policies of the four paths and the length-prefixed frames.
-- * Transport (src/transport_runtime.rs, migrations/0001_durable_operations.sql): Requests has
--   `process_payload`, which both transports call; Attestation and Hex the HMAC attestations;
--   Journal the trait `OperationJournal` as a record; Tables the SQL statements over the three
--   tables (Store) and the journal's methods as sequences of database calls, any of which may fail
--   (Calls); Worker the handling of one JetStream message over any journal, with the same handling
--   as a task of single calls (Tasks) and the loop of `serve_jetstream` as a step relation in which
--   tasks interleave (Loop); Connections the mTLS listener's limit and the frame loop of a
--   connection.
-- * Youtube (src/youtube.rs): the actions, `prepare_payload` (Payloads), the client with what it
--   posts and accepts (Client), the audit view (Audit), and what its errors print (Errors).
-- * Auth (src/auth.rs): `bearer_token` and `verify` over an introspection. Environment and Config
--   (src/config.rs): the values of variables, and `Config::from_env` over the resolved flags. Flags
--   (src/flags.rs): `resolve_from`, `process_control` and `help_table`, with `main` of src/main.rs.
-- * Server (src/server.rs): `RuntimeOperationService`, the service behind both transports, `serve`
--   as the list of what it starts (Wiring), and `run` and `main` as the list of what the whole
--   process does (Run). Telemetry (src/telemetry.rs): what `init` installs and what the end of its
--   guard shuts down. Nats (src/nats.rs): the optional connection and its log of events.
-- * Routes (src/routes.rs): `authorize`, `youtube_action` with the events and bodies that it sends
--   in order, `operation_status` over any journal, and the router with its probes and error
--   responses (Dispatch).
-- * Prelude, Text and Json hold what the parts share: `Result` with its `?`, Rust's `str` as a list
--   of code points, and `serde_json::Value`.
--
-- The worker takes the journal as a record of operations, so that what is proved of a delivery
-- holds of every journal, and the SQL journal fills that record. Both transports call the service
-- through `process_payload`, whose admission is the one of DataPlane.
--
-- Third-party code is a parameter of the definitions that use it: the JSON codecs, SHA-256 and
-- HMAC-SHA256, the URL parser, the clock, the broker and the database driver. Theorems that rely on
-- one name what they use of it, such as that HMAC-SHA256 has 32 bytes. Machine integers are natural
-- numbers with the bounds of their types where a value can reach them (`u32` in the frame's length
-- and the signal count, `u64` and `u16` in what `parse` accepts). The one fuel is that of `decimal`,
-- the 20 digits that a `u64` has at most; all other loops are structural recursion on what they
-- read.
--
-- In the loop of `serve_jetstream` each method of the journal is one step, as each is one
-- transaction that holds the operation's row or one statement. Between any two steps of a task
-- other tasks run, other clients call the journal, and the process may be restarted, which loses
-- its tasks.
--
-- The SQL statements behave as PostgreSQL's: the NOT NULL and CHECK constraints of a proposed row are
-- tested before a conflict is looked for. The program never runs the migration, so the journal's
-- theorems are stated for any default, `default_subject`, that the deployed `act_operation_status`
-- gives its subject column; it is `none` in migrations/0001_durable_operations.sql, and the theorems
-- on what never completes are about that table.
--
-- The messages of the transports' errors are kept as constructors; those of the HTTP routes and of
-- the YouTube client are texts, with what a library prints as a parameter (`Printer`).
--
-- Not modelled: the TLS handshake and the length-delimited codec, which are third-party code, and
-- the catalog binding of src/web_api_plane.rs, which hands the values of another repository's
-- library to that library's own checks. The Apps Script project is another program.
pub mod Prelude
pub mod Text
pub mod Json
pub mod Shutdown
pub mod DataPlane
pub mod Transport
pub mod Youtube
pub mod Auth
pub mod Environment
pub mod Config
pub mod Flags
pub mod Telemetry
pub mod Server
pub mod Routes
pub mod Nats
