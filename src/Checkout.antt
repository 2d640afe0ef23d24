-- ===== src/Checkout.antt =====
-- The checkout: internal/application/payments/service.go over
-- internal/adapters/postgres/repositories/payments.go and models/payment.go.
pub mod Models
pub mod Tables
pub mod Store
pub mod Service
pub mod Rows
pub mod Claimed
pub mod Reserved
pub mod Prepared
pub mod Saved
pub mod Counts
pub mod Single
pub mod Replayed
pub mod Repeated
pub mod Idempotent
mod Tests
