-- ===== src/Control.antt =====
-- servcontrol: the control server. It gives the zones of the world to the game servers, collects
-- their loads, moves zones between them and passes users on.
pub mod State
pub mod Assignment
pub mod Coverage
pub mod Rounds
pub mod FrontServer
pub mod Loads
pub mod Waiting
pub mod Reports
pub mod Users
pub mod Addresses
pub mod Connecting
pub mod Balance
pub mod Owners
pub mod MainLoop
pub mod LaterRounds
pub mod IpServer
pub mod Unset
mod Examples
