-- ===== src/Kafka/Termination.antt =====
-- The return of the consumer's methods, against the failures to come.
pub mod Steady
pub mod Loops
pub mod Methods
pub mod Serving
