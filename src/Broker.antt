-- ===== src/Broker.antt =====
-- internal/adapters/rabbitmq: how the consumer settles a delivery, and the tiers that a retry waits in.
pub mod Retry
pub mod Delivery
pub mod Plan
pub mod Kept
pub mod Applied
pub mod Deadline
pub mod Capped
pub mod Publisher
pub mod Routed
pub mod Relayed
mod Tests
