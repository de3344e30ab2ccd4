-- ===== src/Tunnel.antt =====
-- core/tunnel: the gateway that packs I2NP messages into tunnel messages of a fixed size, and the
-- endpoint that unpacks them.
pub mod Block
pub mod Crypto
pub mod Gateway
pub mod Endpoint
pub mod Frame
pub mod Layout
pub mod RoundTrip
pub mod Pool
pub mod Manage
mod Examples
