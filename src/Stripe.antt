-- ===== src/Stripe.antt =====
-- internal/adapters/payments/stripe: the adapter of the payment provider. The provider's library, its
-- answers and encoding/json are parameters.
pub mod Session
pub mod Webhook
pub mod Checkout
pub mod Paid
pub mod Metadata
mod Tests
