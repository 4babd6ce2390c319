-- ===== src/Exchange.antt =====
-- The two ends of the control stream together: what src/client.rs sends is what src/server.rs
-- receives, and the other way round.
pub mod Request
pub mod Response
pub mod Script
pub mod Append
pub mod Oversized
pub mod Streams
