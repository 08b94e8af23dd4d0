-- ===== src/Pubsub.antt =====
-- pkg/pubsub: events from a queue, their processing, and the notifications of outcomes.
pub mod Listener
pub mod Sqs
