-- ===== src/Client.antt =====
-- The client (client/src, client/include).
pub mod Writers
pub mod Reader
mod Tests
pub mod State
pub mod Board
pub mod Input
pub mod Handlers
pub mod Loop
pub mod Delivery
pub mod Lines
pub mod Fits
pub mod Overflow
pub mod Typed
pub mod Asked
pub mod Reactions
pub mod Answers
pub mod Moves
pub mod Run
pub mod Process
