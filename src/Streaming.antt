-- ===== src/Streaming.antt =====
-- api/Streaming.cpp and api/Streaming.h: reliable streams over datagrams.
pub mod Packet
pub mod State
pub mod Close
pub mod Send
pub mod Acks
pub mod Receive
pub mod Timers
pub mod Lease
pub mod Destination
pub mod Lifetime
pub mod Transfer
mod Examples
