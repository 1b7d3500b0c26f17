-- ===== src/Kafka.antt =====
-- internal/transport/kafka: the consumer. `Settings` normalises its configuration, `Dto` and `Decode`
-- read a message, `Outside` is what the consumer calls, and the rest are its methods.
pub mod Settings
pub mod Message
pub mod Dto
pub mod Decode
pub mod Outside
pub mod Consumer
pub mod Bounds
pub mod Trace
pub mod Fetch
pub mod Drain
pub mod Delivery
pub mod Termination
pub mod Retries
pub mod Correctness
pub mod Shutdown
pub mod Keeping
pub mod System
mod Interference
mod Tests
