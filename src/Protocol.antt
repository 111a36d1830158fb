-- ===== src/Protocol.antt =====
-- src/protocol.h and src/protocol.c: the messages, the queue that carries them between the threads,
-- and the queue that it is meant to be.
pub mod Types
pub mod Fifo
pub mod Mqueue
pub mod Wire
