-- ===== src/Kafka.antt =====
-- internal/kafka: the producer and the outbox publisher.
pub mod Publisher
pub mod Delivery
pub mod Marked
pub mod Stranded
pub mod Stuck
pub mod Rounds
pub mod Lifecycle
