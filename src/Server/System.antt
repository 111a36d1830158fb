-- ===== src/Server/System.antt =====
-- The server as a whole.
pub mod Sound
pub mod Kept
pub mod Rosters
pub mod Sending
pub mod Steps
pub mod Messages
pub mod Listed
pub mod Run
pub mod Turns
