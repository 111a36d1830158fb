-- ===== src/Server/Chain.antt =====
-- What the list of the connections in src/server.c is: a doubly linked list on the heap, between the
-- two globals that hold its ends. The children show that linking and closing keep it one.
pub mod Segment
pub mod Step
pub mod Link
pub mod Close
pub mod Walk
