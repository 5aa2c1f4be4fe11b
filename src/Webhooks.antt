-- ===== src/Webhooks.antt =====
-- Webhooks (backend/apps/webhooks/): who is notified, which addresses are contacted, and the
-- retries of a delivery.
pub mod Security
pub mod Delivery
pub mod Outcome
mod Tests
