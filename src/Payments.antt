-- ===== src/Payments.antt =====
-- src/payments: the payment gate, payment requests and the Stripe webhooks.
pub mod Gate
pub mod Requests
pub mod Webhooks
mod Tests
mod ExceptionTests
