-- ===== src/Routing.antt =====
-- servrouter: the router between clients and game servers.
pub mod Event
pub mod User
pub mod Zone
pub mod Server
pub mod Router
pub mod Instructions
pub mod Sound
pub mod Keeps
pub mod ZoneKeeps
pub mod Leaving
pub mod Steps
pub mod Destruction
pub mod Received
pub mod Unplaced
pub mod UnplacedZones
pub mod Arrived
pub mod Faults
mod Examples
