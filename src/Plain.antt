-- ===== src/Plain.antt =====
-- conexion/source/TCPConnection.cpp: the connection without SSL.
pub mod Size
pub mod Connection
pub mod Reading
pub mod Operations
pub mod RoundTrip
pub mod Parts
pub mod Reported
mod Examples
