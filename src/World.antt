-- ===== src/World.antt =====
-- The demonstration game (servjuego/game and cliente/game): the users of a zone, and what the player
-- sees and does.
pub mod User
pub mod Zone
pub mod Play
pub mod Membership
pub mod Shown
pub mod Pressed
mod Examples
