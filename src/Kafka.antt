-- ===== src/Kafka.antt =====
-- The consumer of database changes (internal/engine/kafkaconsumer/consumer.go): a message of
-- Debezium becomes an audit log, once, together with the rows that go with it.
pub mod Libraries
pub mod Payload
pub mod Metadata
pub mod Tables
pub mod Users
pub mod Actor
pub mod Store
pub mod Consumer
pub mod Effect
pub mod Latest
pub mod Events
pub mod Redelivery
pub mod Fresh
pub mod Secrets
pub mod Statistics
pub mod Names
mod Examples
