-- ===== src/Transport/Tables.antt =====
-- src/transport_runtime.rs: `SeaOrmOperationJournal` over the three tables of
-- migrations/0001_durable_operations.sql, each SQL constant as a function on the tables. Timestamps
-- are kept as whether they are set; a text column that holds JSON is kept as its UTF-8 bytes.
pub mod Store
pub mod Calls
