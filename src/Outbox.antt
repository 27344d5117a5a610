-- ===== src/Outbox.antt =====
-- The transactional outbox: src/modules/outbox and src/queues/notification.worker.ts.
pub mod Event
pub mod Enqueue
pub mod Claim
pub mod Action
pub mod History
pub mod Relay
pub mod Redrive
pub mod Worker
mod Tests
