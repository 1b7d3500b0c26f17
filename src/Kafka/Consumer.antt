-- ===== src/Kafka/Consumer.antt =====
-- The consumer of consumer.go: its state and its methods as actions on it.
pub mod State
pub mod Config
pub mod Backoff
pub mod Process
pub mod DeadLetter
pub mod Handle
pub mod Batch
pub mod Worker
