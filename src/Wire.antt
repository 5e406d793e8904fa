-- ===== src/Wire.antt =====
-- conexion: the library of typed datagrams over an SSL connection that all the servers use.
pub mod Bytes
pub mod Factory
pub mod Datagram
pub mod Sending
pub mod Receiving
pub mod RoundTrip
pub mod Stream
pub mod Agreement
mod Examples
