-- ===== src/Client.antt =====
-- client.go: the client's options, its start, the handlers of the chain sync, and its queries.
pub mod Defs
pub mod Options
pub mod Connect
pub mod Sync
pub mod SyncLaws
pub mod Calls
pub mod Known
pub mod Announced
pub mod Queries
pub mod QueryLaws
pub mod Tests
