-- ===== src/Outbox.antt =====
-- The outbox relay: internal/application/outbox over
-- internal/adapters/postgres/repositories/outbox.go and db/queries/outbox.sql.
pub mod Backoff
pub mod Store
pub mod Relay
pub mod Fenced
pub mod Confirmed
pub mod Cycle
pub mod Reported
mod Tests
