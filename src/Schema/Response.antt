-- ===== src/Schema/Response.antt =====
-- The module `response` of schema/bxp_capnp.rs.
pub mod Reader
pub mod Builder
pub mod Private
pub mod Owned
pub mod Values
pub mod Fields
pub mod Tables
