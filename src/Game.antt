-- ===== src/Game.antt =====
-- servjuego: a game server. It runs zones, each in a thread, and tells the control server their
-- loads.
pub mod Handler
pub mod Server
pub mod Dilation
pub mod Reports
pub mod Reached
pub mod Lifecycle
pub mod Stopping
mod Examples
