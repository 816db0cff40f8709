-- ===== src/Stream.antt =====
-- From Kafka to Redis and PostgreSQL: the feature store, and the micro-batches that fill it.
pub mod Redis
pub mod Store
pub mod Consumer
