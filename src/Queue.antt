-- ===== src/Queue.antt =====
-- The package queue: the brokers that messages are published to.
pub mod Broker
