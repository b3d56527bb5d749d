-- ===== src/Ring.antt =====
-- The bounded queues between one producer and one consumer.
pub mod Slots
pub mod Fifo
mod Tests
