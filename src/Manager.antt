-- ===== src/Manager.antt =====
-- conexion/source/ConnectionManager.cpp: the accepting of connections.
pub mod Connections
pub mod Admission
pub mod Closing
mod Examples
