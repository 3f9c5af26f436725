-- ===== src/Transport.antt =====
-- src/transport_runtime.rs, a module for each part: the errors, the hexadecimal codec, the
-- operation attestation, the requests and their processing, the journal's interface, the journal
-- over the SQL tables, the JetStream worker, and the mTLS connections.
pub mod Errors
pub mod Hex
pub mod Attestation
pub mod Requests
pub mod Journal
pub mod Tables
pub mod Worker
pub mod Connections
mod Tests
