-- ===== src/Consumer.antt =====
-- The consumer: internal/application/consumer (the use case) over
-- internal/adapters/postgres/repositories/events.go (the transaction).
pub mod Ports
pub mod Store
pub mod Process
pub mod Deciding
pub mod Service
pub mod Consistency
pub mod Locked
pub mod Preservation
pub mod Safety
pub mod Settled
pub mod Approved
pub mod Paying
pub mod Matched
pub mod Redelivery
pub mod Budget
pub mod Fixtures
mod Tests
