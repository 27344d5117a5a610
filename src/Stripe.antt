-- ===== src/Stripe.antt =====
-- Payments: src/modules/stripe. Amounts are natural numbers of minor units; `lower` is the language's
-- `toLowerCase`; key hashes and identifiers are numbers that are only compared.
pub mod Chargeable
pub mod Refunds
pub mod Payments
pub mod Webhooks
pub mod Projection
mod WebhookTests
mod Tests
