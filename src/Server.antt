-- ===== src/Server.antt =====
-- src/server.c and the sending half of src/player.c and src/levels.c: Connections has the list of the
-- connections, Send what is queued for the clients, Leave the end of a client, Client the thread that
-- serves one, and Chain what the list of the connections is.
pub mod Send
pub mod Connections
pub mod Leave
pub mod Client
pub mod Handle
pub mod Round
pub mod Reading
pub mod Chain
pub mod Queues
pub mod Snapshot
pub mod Broadcast
pub mod Start
pub mod Return
pub mod Turn
pub mod System
pub mod Drain
pub mod Accepted
pub mod Setup
pub mod Thread
mod Tests
mod RosterTests
mod TurnTests
