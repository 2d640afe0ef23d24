-- ===== src/Payments.antt =====
-- internal/domain/payments: the states, the transition matrix and what holds of it.
pub mod Status
pub mod Entity
pub mod Transition
pub mod Matrix
mod Tests
