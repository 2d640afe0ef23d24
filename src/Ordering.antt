-- ===== src/Ordering.antt =====
-- The creation of orders: internal/application/orders/service.go over
-- internal/adapters/postgres/repositories/orders.go, models/order.go and internal/adapters/catalog.
pub mod Models
pub mod Catalog
pub mod Service
pub mod Replayed
mod Tests
