-- ===== src/Ssu.antt =====
-- core/transport/SSUData.cpp: the data part of the SSU transport, which cuts I2NP messages into
-- fragments, acknowledges and resends them, and puts received fragments together.
pub mod State
pub mod Session
pub mod Acks
pub mod Resend
pub mod Header
pub mod Send
pub mod Receive
pub mod RoundTrip
mod Examples
