-- ===== src/System.antt =====
-- The two programs together: what one sends, the other gets.
mod Tests
pub mod Requests
pub mod Shown
pub mod Sent
pub mod Refused
pub mod Joined
pub mod Start
pub mod End
pub mod Leave
pub mod Chat
pub mod Texts
pub mod Answered
