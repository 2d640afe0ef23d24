-- ===== src/Receiver.antt =====
-- The receiver of webhooks: internal/application/webhooks over
-- internal/adapters/postgres/repositories/webhooks.go and operations.go.
pub mod Inbox
pub mod Service
pub mod Paired
pub mod Preserved
pub mod Once
pub mod Duplicate
mod Tests
pub mod Replay
pub mod Replayed
pub mod Reset
pub mod Listing
pub mod Histories
