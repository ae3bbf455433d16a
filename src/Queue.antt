-- ===== src/Queue.antt =====
-- internal/queue/queue.go: the queue of the frames that a connection has still to write.
pub mod Steps
pub mod Order
pub mod Drain
