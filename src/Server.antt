-- ===== src/Server.antt =====
-- The server (server/src, server/include).
pub mod State
pub mod Handlers
pub mod Lookup
pub mod Names
pub mod Shown
pub mod Sound
pub mod Told
pub mod Twice
pub mod Tests
pub mod Connect
pub mod Rooms
pub mod Written
pub mod Start
pub mod Overflow
pub mod Delivery
pub mod Flood
pub mod Gone
pub mod Removal
pub mod Loop
pub mod Process
pub mod Moves
pub mod Writers
pub mod Reader
