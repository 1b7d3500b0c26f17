-- ===== src/Kafka/Delivery.antt =====
-- What the methods of the consumer store, dead-letter and commit.
pub mod Evolution
pub mod Processing
pub mod Routing
pub mod Committing
pub mod Handling
pub mod Bulk
pub mod Flushing
pub mod Batches
pub mod Serving
pub mod Working
