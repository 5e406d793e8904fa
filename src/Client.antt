-- ===== src/Client.antt =====
-- cliente: the client. It logs in at the login server, is sent on to a router, and plays.
pub mod State
pub mod Instructions
pub mod Field
pub mod LoggingIn
pub mod Unplayable
pub mod Answered
pub mod Failing
pub mod Queue
mod Examples
