-- ===== src/Http.antt =====
-- internal/transport/http: from a request to its answer.
pub mod Address
pub mod Genuine
pub mod Responses
pub mod Orders
pub mod Checkouts
pub mod Webhooks
pub mod Operations
pub mod Stored
pub mod Ordered
pub mod Asked
pub mod Limits
pub mod Guarded
pub mod Keyed
mod Tests
